-- ===== src/Authn/TrustBundle/Rounds.antt =====
-- The loop of `parseTrustBundle`: the fuel is enough, and what a round keeps.
use fizzled_go.Prelude.{
  ℕ, zero, suc, ◌≤◌, ◌<◌, ◌≡◌, refl, inl, inr, Bytes, some, [], ◌∷◌, length, arith,
}
use fizzled_go.Errors.{Result, ok, ◌>>=◌, Result-cases}
use fizzled_go.Authn.Certificate.{Certificate}
use fizzled_go.Authn.TrustBundle.Space.{trim_space, length-trim_space}
use fizzled_go.Authn.Loader.{Block, Loader}
use fizzled_go.Authn.TrustBundle.Blocks.{decode_block_iff}
use fizzled_go.Authn.TrustBundle.{Reading, add_root, decode_block, read_blocks}

-- What encoding/pem documents: the remainder is what follows a block of the text.
abbrev pub Shrinks : Loader → Type 0
Shrinks l =
    (text : Bytes) (block : Block) (remainder : Bytes)
    → l.decode text ≡ some (block, remainder)
    → length remainder < length text

module _ (l : Loader) (shrinks : Shrinks l) where
  pub shrink_round :
      (rest : Bytes) {c : Certificate} {remainder : Bytes}
      → decode_block l rest ≡ ok (c, remainder)
      → length (trim_space remainder) < length rest
  shrink_round rest {c} {remainder} h =
      let (_, (block, e, _)) = (decode_block_iff l rest c remainder).0 h in
      omega (arith, shrinks rest block remainder e, length-trim_space remainder)

  -- More fuel than the bytes that are left changes nothing.
  read_blocks-fuel :
      (fuel more : ℕ) (rest : Bytes) (r : Reading)
      → length rest ≤ fuel
      → length rest ≤ more
      → read_blocks l fuel rest r ≡ read_blocks l more rest r
  unfolding read_blocks
  read_blocks-fuel zero zero rest r h k = refl
  read_blocks-fuel zero (suc more) [] r h k = refl
  read_blocks-fuel (suc fuel) zero [] r h k = refl
  read_blocks-fuel (suc fuel) (suc more) [] r h k = refl
  read_blocks-fuel zero more (b ∷ rest) r h k = absurd (omega arith)
  read_blocks-fuel (suc fuel) zero (b ∷ rest) r h k = absurd (omega arith)
  read_blocks-fuel (suc fuel) (suc more) (b ∷ rest) r h k =
      elim (Result-cases (decode_block l (b ∷ rest))) [
        | inr (e, p) ↦ rw p refl
        | inl ((c, remainder), p) ↦ elim (Result-cases (add_root c r)) [
          | inr (e, q) ↦ rw (p, q) refl
          | inl (next, q) ↦
              let shorter = shrink_round (b ∷ rest) p in
              rw (p, q)
                (read_blocks-fuel fuel more (trim_space remainder) next (omega arith) (omega arith))
        ]
      ]

-- The loop without a bound on its rounds.
abbrev pub read_all : Loader → Bytes → Reading → Result Reading
read_all l rest r = read_blocks l (length rest) rest r

-- When decoding a block leaves less text than it was given, the fuel of the loop never runs out:
-- with a round for each byte of the text, the loop at a text that is not empty decodes a block, adds
-- its certificate and is the loop again, with fuel for what is left.
pub read_all_unfold :
    (l : Loader) (b : ℕ) (rest : Bytes) (r : Reading)
    → Shrinks l
    → read_all l (b ∷ rest) r ≡ (do
      (certificate, remainder) ← decode_block l (b ∷ rest)
      next ← add_root certificate r
      read_all l (trim_space remainder) next)
unfolding read_blocks
read_all_unfold l b rest r shrinks = elim (Result-cases (decode_block l (b ∷ rest))) [
  | inr (e, p) ↦ rw p refl
  | inl ((c, remainder), p) ↦ elim (Result-cases (add_root c r)) [
    | inr (e, q) ↦ rw (p, q) refl
    | inl (next, q) ↦
        let shorter = shrink_round l shrinks (b ∷ rest) p in
        rw (p, q)
          (read_blocks-fuel l shrinks (length rest) (length (trim_space remainder))
            (trim_space remainder) next (omega arith) (omega arith))
  ]
]
