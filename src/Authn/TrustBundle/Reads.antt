-- ===== src/Authn/TrustBundle/Reads.antt =====
-- Which texts internal/authn/trustbundle.go reads as a trust bundle, and as which.
pub mod Gathered
use fizzled_go.Authn.TrustBundle.Expiry.{expiry_from}
use fizzled_go.Prelude.{
  ℕ, zero, suc, ◌≤◌, ◌≡◌, ◌≢◌, ◌↔◌, refl, sym, ap, subst, ◌∙◌, inl, inr, Bytes, Bool, true, false,
  Option, none, some, List, [], ◌∷◌, ◌++◌, length, All, All-append, All-of_append, Bool-cases,
  ==_iff, text_eq, text_eq_iff, arith, ◌==◌, if◌then◌else◌, append_assoc, append-nil,
}
use fizzled_go.Prelude.Assoc.{Assoc, insert, lookup-insert, lookup}
use fizzled_go.Prelude.Strings.{has_prefix}
use fizzled_go.Errors.{
  Result, ok, err, ◌>>=◌, ◌>>◌, bind_iff, eq_of_ok_eq, ok_of_required, ok_of_refused,
}
use fizzled_go.Authn.Certificate.{Certificate}
use fizzled_go.Authn.Loader.{Block, Loader}
use fizzled_go.Authn.TrustBundle.Space.{trim_space}
use fizzled_go.Authn.TrustBundle.Rounds.{Shrinks, shrink_round}
use fizzled_go.Authn.TrustBundle.Anchors.{Distinct}
use fizzled_go.Authn.TrustBundle.Blocks.{Starts, decode_block_iff}
use Gathered.{
  added, add_all, Fresh, add_root_iff, Fresh-Distinct, Apart-nothing, no_reading-Exact,
  roots-add_all, expiry-add_all,
}
use fizzled_go.Authn.TrustBundle.{
  LoadedBundle, Reading, add_root, begin_markers, bundle_of, decode_block, is_seen, no_reading,
  parse_trimmed, parse_trust_bundle, read_blocks, sooner,
}

-- A text is the blocks of these certificates, one behind the other, with white space between them.
pub data Reads (l : Loader) : Bytes → List Certificate → Type 0 where
  ends : Reads l [] []
  reads :
      {b : ℕ} {rest : Bytes} {c : Certificate} {remainder : Bytes} {cs : List Certificate}
      → Starts l (b ∷ rest) c remainder
      → Reads l (trim_space remainder) cs
      → Reads l (b ∷ rest) (c ∷ cs)

pub Reads-nil : {l : Loader} {cs : List Certificate} → Reads l [] cs → cs ≡ []
Reads-nil ends = refl

pub Reads-cons :
    {l : Loader} {b : ℕ} {rest : Bytes} {cs : List Certificate}
    → Reads l (b ∷ rest) cs
    → (c : Certificate) × (remainder : Bytes) × (more : List Certificate) × (cs ≡ c ∷ more)
      × Starts l (b ∷ rest) c remainder
      × Reads l (trim_space remainder) more
Reads-cons (reads {c = c} {remainder = remainder} {cs = more} p q) =
    (c, remainder, more, refl, p, q)

abbrev ReadsTo : Loader → Bytes → Reading → Reading → Type 0
ReadsTo l rest r final =
    (cs : List Certificate) × Reads l rest cs × Fresh r cs × (add_all r cs ≡ final)

ends_iff : (l : Loader) (r final : Reading) → (Result.ok r ≡ ok final) ↔ ReadsTo l [] r final
ends_iff l r final = (
  λ e. ([], ends, tt, eq_of_ok_eq e),
  λ (cs, read, _, e). ap ok (ap (add_all r) (sym (Reads-nil read)) ∙ e),
)

module _ (l : Loader) (shrinks : Shrinks l) where
  read_blocks_iff :
      (fuel : ℕ) (rest : Bytes) (r final : Reading)
      → length rest ≤ fuel
      → (read_blocks l fuel rest r ≡ ok final) ↔ ReadsTo l rest r final
  unfolding read_blocks
  read_blocks_iff zero [] r final h = ends_iff l r final
  read_blocks_iff zero (b ∷ rest) r final h = absurd (omega arith)
  read_blocks_iff (suc fuel) [] r final h = ends_iff l r final
  read_blocks_iff (suc fuel) (b ∷ rest) r final h =
      let first =
        bind_iff (decode_block l (b ∷ rest))
          (λ (c, remainder). add_root c r >>= read_blocks l fuel (trim_space remainder)) final in
      let second = λ (c : Certificate) (remainder : Bytes).
        bind_iff (add_root c r) (λ next. read_blocks l fuel (trim_space remainder) next) final in
      let later =
        λ (c : Certificate) (remainder : Bytes) (next : Reading)
            (p : decode_block l (b ∷ rest) ≡ ok (c, remainder)).
          let shorter = shrink_round l shrinks (b ∷ rest) p in
          read_blocks_iff fuel (trim_space remainder) next final (omega arith) in
      (
        λ e.
            let ((c, remainder), p, q) = first.0 e in
            let (next, u, v) = (second c remainder).0 q in
            let (fresh, same) = (add_root_iff c r next).0 u in
            let (cs, read, others, whole) = (later c remainder next p).0 v in
            (
              c ∷ cs,
              reads ((decode_block_iff l (b ∷ rest) c remainder).0 p) read,
              (fresh, subst (λ z. Fresh z cs) (sym same) others),
              ap (λ z. add_all z cs) same ∙ whole,
            ),
        λ (cs, read, fresh, whole).
            let (c, remainder, more, e, starts, read') = Reads-cons read in
            let p = (decode_block_iff l (b ∷ rest) c remainder).1 starts in
            let (unseen, others) = subst (Fresh r) e fresh in
            let rest_whole = subst (λ z. add_all r z ≡ final) e whole in
            first.1 (
              (c, remainder),
              p,
              (second c remainder).1 (
                added c r,
                (add_root_iff c r (added c r)).1 (unseen, refl),
                (later c remainder (added c r) p).1 (more, read', others, rest_whole),
              ),
            ),
      )

length_of_filled : (cs : List Certificate) → cs ≢ [] → (length cs == 0) ≡ false
length_of_filled [] h = absurd (h refl)
length_of_filled (c ∷ cs) h = ground arith

abbrev bundle_from : List Certificate → ℕ → LoadedBundle
bundle_from roots earliest_expiry = record { roots = roots; earliest_expiry = earliest_expiry }

bundle_of_iff :
    (trimmed : Bytes) (r : Reading) (loaded : LoadedBundle)
    → (bundle_of trimmed r ≡ ok loaded) ↔ (
        (r.roots ≢ [])
        × (length r.roots ≡ begin_markers trimmed)
        × (loaded.roots ≡ r.roots)
        × (loaded.earliest_expiry ≡ r.earliest_expiry))
unfolding bundle_of
bundle_of_iff trimmed r loaded = (
  λ h.
      let (filled, h) = ok_of_refused (length r.roots == 0) _ h in
      let (counted, h) = ok_of_required (length r.roots == begin_markers trimmed) _ h in
      let e = eq_of_ok_eq h in
      (
        λ q. ground arith,
        (==_iff (length r.roots) _).0 counted,
        ap (λ z. z.roots) (sym e),
        ap (λ z. z.earliest_expiry) (sym e),
      ),
  λ (filled, counted, same, expiry).
      rw (length_of_filled r.roots filled, (==_iff (length r.roots) _).1 counted)
        (ap ok (
          ap (λ roots. bundle_from roots r.earliest_expiry) (sym same)
          ∙ ap (bundle_from loaded.roots) (sym expiry))),
)

-- With a decoder that uses some of a text up, a bundle loads as `loaded` exactly when its text, less
-- white space, is the blocks of the roots of `loaded`, in order and with white space between them;
-- the roots are distinct, at least one, and as many as the begin markers of the text; and the
-- expiry is the one that the roots, taken in order, leave.
pub parse_trust_bundle_iff :
    (l : Loader) (raw : Bytes) (loaded : LoadedBundle)
    → Shrinks l
    → (parse_trust_bundle l raw ≡ ok loaded) ↔ (
        Reads l (trim_space raw) loaded.roots
        × Distinct loaded.roots
        × (loaded.roots ≢ [])
        × (length loaded.roots ≡ begin_markers (trim_space raw))
        × (loaded.earliest_expiry ≡ expiry_from 0 loaded.roots))
unfolding parse_trust_bundle parse_trimmed
parse_trust_bundle_iff l raw loaded shrinks =
    let trimmed = trim_space raw in
    let both =
      bind_iff (read_blocks l (length trimmed) trimmed no_reading) (bundle_of trimmed) loaded in
    let loop = λ (r : Reading).
      read_blocks_iff l shrinks (length trimmed) trimmed no_reading r (omega arith) in
    (
      λ h.
          let (r, p, q) = both.0 h in
          let (cs, read, fresh, whole) = (loop r).0 p in
          let (filled, counted, same, expiry) = (bundle_of_iff trimmed r loaded).0 q in
          let is : loaded.roots ≡ cs =
            same ∙ ap (λ z. z.roots) (sym whole) ∙ roots-add_all no_reading cs in
          let soonest : loaded.earliest_expiry ≡ expiry_from 0 cs =
            expiry ∙ ap (λ z. z.earliest_expiry) (sym whole) ∙ expiry-add_all no_reading cs in
          (
            subst (Reads l trimmed) (sym is) read,
            subst Distinct (sym is) ((Fresh-Distinct cs no_reading no_reading-Exact).0 fresh).1,
            λ e. filled (sym same ∙ e),
            ap length same ∙ counted,
            soonest ∙ ap (expiry_from 0) (sym is),
          ),
      λ (read, distinct, filled, counted, soonest).
          let r = add_all no_reading loaded.roots in
          let is : r.roots ≡ loaded.roots = roots-add_all no_reading loaded.roots in
          let apart = Apart-nothing loaded.roots in
          both.1 (
            r,
            (loop r).1 (
              loaded.roots,
              read,
              (Fresh-Distinct loaded.roots no_reading no_reading-Exact).1 (apart, distinct),
              refl,
            ),
            (bundle_of_iff trimmed r loaded).1 (
              λ e. filled (sym is ∙ e),
              ap length is ∙ counted,
              sym is,
              soonest ∙ sym (expiry-add_all no_reading loaded.roots),
            ),
          ),
    )
