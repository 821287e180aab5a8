-- ===== src/Authn/TrustBundle/Reads/Gathered.antt =====
-- What the loop of internal/authn/trustbundle.go does with the certificates of a text.
use fizzled_go.Authn.TrustBundle.Expiry.{expiry_from}
use fizzled_go.Prelude.{
  ◌≡◌, ◌≢◌, ◌↔◌, refl, sym, ap, ◌∙◌, Bytes, Bool, true, false, List, [], ◌∷◌, ◌++◌, All, All-append,
  All-of_append, text_eq_iff, arith, append_assoc, append-nil,
}
use fizzled_go.Prelude.Assoc.{Assoc, insert, lookup-insert, lookup}
use fizzled_go.Errors.{ok, eq_of_ok_eq, ok_of_refused}
use fizzled_go.Authn.Certificate.{Certificate}
use fizzled_go.Authn.TrustBundle.Anchors.{Distinct}
use fizzled_go.Authn.TrustBundle.{Reading, add_root, is_seen, no_reading, sooner}

abbrev pub added : Certificate → Reading → Reading
added c r = record {
  roots = r.roots ++ (c ∷ []);
  earliest_expiry = sooner r.earliest_expiry c.not_after;
  seen = insert c.raw true r.seen;
}

abbrev pub add_all : Reading → List Certificate → Reading
add_all r [] = r
add_all r (c ∷ cs) = add_all (added c r) cs

-- Each certificate is one that was not seen before it.
abbrev pub Fresh : Reading → List Certificate → Type 0
Fresh r [] = Unit
Fresh r (c ∷ cs) = (is_seen c.raw r.seen ≡ false) × Fresh (added c r) cs

pub add_root_iff :
    (c : Certificate) (r next : Reading)
    → (add_root c r ≡ ok next) ↔ ((is_seen c.raw r.seen ≡ false) × (added c r ≡ next))
unfolding add_root
add_root_iff c r next = (
  λ h. let (fresh, e) = ok_of_refused (is_seen c.raw r.seen) _ h in (fresh, eq_of_ok_eq e),
  λ (fresh, e). rw fresh (ap ok e),
)

-- The map holds exactly the roots.
abbrev Exact : Reading → Type 0
Exact r = (raw : Bytes) → (is_seen raw r.seen ≡ false) ↔ All (λ d. d.raw ≢ raw) r.roots

is_seen-insert_iff :
    (raw key : Bytes) (seen : Assoc Bool)
    → (is_seen raw (insert key true seen) ≡ false) ↔ ((key ≢ raw) × (is_seen raw seen ≡ false))
unfolding is_seen
is_seen-insert_iff raw key seen = (
  λ h. ground (arith, lookup-insert key raw true seen, text_eq_iff key raw),
  λ (n, h). ground (arith, lookup-insert key raw true seen, text_eq_iff key raw),
)

Exact-added : (c : Certificate) (r : Reading) → Exact r → Exact (added c r)
Exact-added c r exact raw = (
  λ h.
      let (other, before) = (is_seen-insert_iff raw c.raw r.seen).0 h in
      All-append (λ d. d.raw ≢ raw) r.roots (c ∷ []) ((exact raw).0 before) (other, tt),
  λ h.
      let (before, (other, _)) = All-of_append (λ d. d.raw ≢ raw) r.roots (c ∷ []) h in
      (is_seen-insert_iff raw c.raw r.seen).1 (other, (exact raw).1 before),
)

-- None of the certificates `cs` is one of `roots`.
abbrev Apart : List Certificate → List Certificate → Type 0
Apart roots cs = All (λ c. All (λ d. d.raw ≢ c.raw) roots) cs

Apart-append :
    (roots cs : List Certificate) (c : Certificate)
    → Apart (roots ++ (c ∷ [])) cs ↔ (Apart roots cs × All (λ d. d.raw ≢ c.raw) cs)
Apart-append roots [] c = (λ h. (tt, tt), λ h. tt)
Apart-append roots (e ∷ cs) c =
    let (to, from) = Apart-append roots cs c in
    (
      λ (h, hs).
          let (before, (other, _)) = All-of_append (λ d. d.raw ≢ e.raw) roots (c ∷ []) h in
          let (apart, others) = to hs in ((before, apart), ((λ q. other (sym q)), others)),
      λ ((before, apart), (other, others)). (
        All-append (λ d. d.raw ≢ e.raw) roots (c ∷ []) before ((λ q. other (sym q)), tt),
        from (apart, others),
      ),
    )

pub Fresh-Distinct :
    (cs : List Certificate) (r : Reading) → Exact r → Fresh r cs ↔ (Apart r.roots cs × Distinct cs)
Fresh-Distinct [] r exact = (λ h. (tt, tt), λ h. tt)
Fresh-Distinct (c ∷ cs) r exact =
    let (to, from) = Fresh-Distinct cs (added c r) (Exact-added c r exact) in
    let (split, join) = Apart-append r.roots cs c in
    (
      λ (unseen, fresh).
          let (apart, distinct) = to fresh in
          let (before, others) = split apart in
          (((exact c.raw).0 unseen, before), (others, distinct)),
      λ ((first, before), (others, distinct)).
          ((exact c.raw).1 first, from (join (before, others), distinct)),
    )

pub roots-add_all : (r : Reading) (cs : List Certificate) → (add_all r cs).roots ≡ r.roots ++ cs
roots-add_all r [] = sym (append-nil r.roots)
roots-add_all r (c ∷ cs) = roots-add_all (added c r) cs ∙ append_assoc r.roots (c ∷ []) cs

pub expiry-add_all :
    (r : Reading) (cs : List Certificate)
    → (add_all r cs).earliest_expiry ≡ expiry_from r.earliest_expiry cs
unfolding expiry_from
expiry-add_all r [] = refl
expiry-add_all r (c ∷ cs) = expiry-add_all (added c r) cs

pub no_reading-Exact : Exact no_reading
unfolding is_seen lookup
no_reading-Exact raw = (λ h. tt, λ h. refl)

pub Apart-nothing : (cs : List Certificate) → Apart [] cs
Apart-nothing [] = tt
Apart-nothing (c ∷ cs) = (tt, Apart-nothing cs)
