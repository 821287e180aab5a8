-- ===== src/Authn/TrustBundle/Anchors.antt =====
-- What stands in a loaded trust bundle: internal/authn/trustbundle.go.
use fizzled_go.Prelude.{
  ℕ, zero, suc, ◌≡◌, ◌≢◌, sym, ap, subst, ◌==◌, Bytes, Bool, true, false, List, [], ◌∷◌, ◌++◌,
  length, All, All-append, ==_iff, text_eq_iff, arith,
}
use fizzled_go.Prelude.Assoc.{Assoc, insert, lookup-insert}
use fizzled_go.Errors.{ok, ◌>>=◌, bind-eq-ok, eq_of_ok_eq, ok_of_required, ok_of_refused}
use fizzled_go.Authn.Certificate.{Certificate}
use fizzled_go.Authn.TrustBundle.Space.{trim_space}
use fizzled_go.Authn.TrustBundle.Blocks.{IsAnchor, decode_block_iff}
use fizzled_go.Authn.Loader.{Loader}
use fizzled_go.Authn.TrustBundle.{
  LoadedBundle, Reading, add_root, bundle_of, decode_block, read_blocks, is_seen, no_reading,
  parse_trimmed, parse_trust_bundle, begin_markers,
}

-- No two of the certificates are the same.
abbrev pub Distinct : List Certificate → Type 0
Distinct [] = Unit
Distinct (c ∷ cs) = All (λ d. d.raw ≢ c.raw) cs × Distinct cs

Distinct-append :
    (cs : List Certificate) (c : Certificate)
    → Distinct cs
    → All (λ d. d.raw ≢ c.raw) cs
    → Distinct (cs ++ (c ∷ []))
Distinct-append [] c h k = (tt, tt)
Distinct-append (d ∷ cs) c (h, hs) (k, ks) = (
  All-append (λ e. e.raw ≢ d.raw) cs (c ∷ []) h ((λ e. k (sym e)), tt),
  Distinct-append cs c hs ks,
)

-- What the loop keeps of its variables.
record IsSound (r : Reading) : Type 0 where
  anchors : All IsAnchor r.roots
  distinct : Distinct r.roots
  unseen : (raw : Bytes) → is_seen raw r.seen ≡ false → All (λ c. c.raw ≢ raw) r.roots

is_seen-insert :
    (raw key : Bytes) (seen : Assoc Bool)
    → is_seen raw (insert key true seen) ≡ false
    → (key ≢ raw) × (is_seen raw seen ≡ false)
unfolding is_seen
is_seen-insert raw key seen h = ground (arith, lookup-insert key raw true seen, text_eq_iff key raw)

add_root-IsSound :
    (c : Certificate) (r : Reading) {next : Reading}
    → IsAnchor c
    → IsSound r
    → add_root c r ≡ ok next
    → IsSound next
unfolding add_root
add_root-IsSound c r anchor s h =
    let (unseen, e) = ok_of_refused (is_seen c.raw r.seen) _ h in
    subst IsSound (eq_of_ok_eq e) (record {
      anchors = All-append IsAnchor r.roots (c ∷ []) s.anchors (anchor, tt);
      distinct = Distinct-append r.roots c s.distinct (s.unseen c.raw unseen);
      unseen = λ raw h.
          let (other, before) = is_seen-insert raw c.raw r.seen h in
          All-append (λ d. d.raw ≢ raw) r.roots (c ∷ []) (s.unseen raw before) (other, tt);
    })

read_blocks-IsSound :
    (l : Loader) (fuel : ℕ) (rest : Bytes) (r : Reading) {final : Reading}
    → IsSound r
    → read_blocks l fuel rest r ≡ ok final
    → IsSound final
unfolding read_blocks
read_blocks-IsSound l zero rest r s h = subst IsSound (eq_of_ok_eq h) s
read_blocks-IsSound l (suc fuel) [] r s h = subst IsSound (eq_of_ok_eq h) s
read_blocks-IsSound l (suc fuel) (b ∷ rest) r s h =
    let ((c, remainder), p, h) =
      bind-eq-ok (decode_block l (b ∷ rest))
        (λ (c, remainder). add_root c r >>= read_blocks l fuel (trim_space remainder)) h in
    let (next, q, h) =
      bind-eq-ok (add_root c r) (λ next. read_blocks l fuel (trim_space remainder) next) h in
    let (_, (_, _, encodes)) = (decode_block_iff l (b ∷ rest) c remainder).0 p in
    let (_, _, _, anchor) = encodes in
    read_blocks-IsSound l fuel (trim_space remainder) next (add_root-IsSound c r anchor s q) h

no_reading-IsSound : IsSound no_reading
no_reading-IsSound = record { anchors = tt; distinct = tt; unseen = λ raw h. tt }

-- A bundle that loads has at least one root, as many as the file has begin markers, no two of them
-- the same certificate, and each of them a signing certificate for the program's trust domain.
pub parse_trust_bundle-Anchors :
    (l : Loader) (raw : Bytes) {loaded : LoadedBundle}
    → parse_trust_bundle l raw ≡ ok loaded
    → (loaded.roots ≢ [])
      × (length loaded.roots ≡ begin_markers (trim_space raw))
      × Distinct loaded.roots
      × All IsAnchor loaded.roots
unfolding parse_trust_bundle parse_trimmed bundle_of
parse_trust_bundle-Anchors l raw {loaded} h =
    let trimmed = trim_space raw in
    let (r, p, h) =
      bind-eq-ok (read_blocks l (length trimmed) trimmed no_reading) (bundle_of trimmed) h in
    let (filled, h) = ok_of_refused (length r.roots == 0) _ h in
    let (counted, h) = ok_of_required (length r.roots == begin_markers trimmed) _ h in
    let s = read_blocks-IsSound l (length trimmed) trimmed no_reading no_reading-IsSound p in
    let same : r.roots ≡ loaded.roots = ap (λ b. b.roots) (eq_of_ok_eq h) in
    subst (λ cs. (cs ≢ []) × (length cs ≡ begin_markers trimmed) × Distinct cs × All IsAnchor cs)
      same (λ e. ground arith, (==_iff (length r.roots) _).0 counted, s.distinct, s.anchors)
