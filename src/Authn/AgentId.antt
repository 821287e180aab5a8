-- ===== src/Authn/AgentId.antt =====
-- internal/authn/agentid.go.
use fizzled_go.Prelude.{
  ℕ, ◌≤◌, ◌≡◌, ◌≢◌, ◌⊎◌, ◌↔◌, refl, Bytes, Bool, true, not, ◌&&◌, ◌||◌, [], ◌∷◌, ltb, leb, ◌==◌,
  length, All, arith, if◌then◌else◌, text_eq, text_eq_iff,
}
use fizzled_go.Prelude.Strings.{matches_class, matches_class_iff, Lacks}
use fizzled_go.Errors.{Result, ok, err, ◌>>◌, invalid_agent_id, bind-eq-ok}

abbrev pub max_agent_id_length : ℕ
max_agent_id_length = 64

-- The class of `validAgentIDPattern`.
abbrev pub is_agent_id_byte : ℕ → Bool
is_agent_id_byte c =
    (leb b'a' c && leb c b'z')
    || (leb b'A' c && leb c b'Z')
    || (leb b'0' c && leb c b'9')
    || (c == b'_')
    || (c == b'-')

-- `Validate`
unfoldable pub validate : Bytes → Result (Unit {0})
validate agent =
    if text_eq agent []
    then err (invalid_agent_id ∷ [])
    else if ltb max_agent_id_length (length agent)
    then err (invalid_agent_id ∷ [])
    else if not (matches_class is_agent_id_byte agent)
    then err (invalid_agent_id ∷ [])
    else ok tt

unfoldable pub new_agent_id : Bytes → Result Bytes
new_agent_id input = do validate input; ok input

abbrev pub IsAgentIdByte : ℕ → Type 0
IsAgentIdByte c =
    ((b'a' ≤ c) × (c ≤ b'z'))
    ⊎ ((b'A' ≤ c) × (c ≤ b'Z'))
    ⊎ ((b'0' ≤ c) × (c ≤ b'9'))
    ⊎ (c ≡ b'_')
    ⊎ (c ≡ b'-')

-- One to 64 bytes, each a letter, a digit, a hyphen or an underscore.
abbrev pub IsAgentId : Bytes → Type 0
IsAgentId s = (s ≢ []) × All IsAgentIdByte s × (length s ≤ max_agent_id_length)

is_agent_id_byte_iff : (c : ℕ) → (is_agent_id_byte c ≡ true) ↔ IsAgentIdByte c
is_agent_id_byte_iff c = (λ h. ground arith, λ h. ground arith)

pub validate_iff : (s : Bytes) → (validate s ≡ ok tt) ↔ IsAgentId s
unfolding validate
validate_iff s =
    let fits = matches_class_iff is_agent_id_byte IsAgentIdByte is_agent_id_byte_iff s in
    (
      λ h. ((fits.0 (ground arith)).0, (fits.0 (ground arith)).1, ground arith),
      λ h. ground (arith, fits.1 (h.0, h.1), text_eq_iff s []),
    )

-- `new_agent_id` returns its input when that is an agent id, and nothing else.
pub new_agent_id_iff : (s a : Bytes) → (new_agent_id s ≡ ok a) ↔ ((a ≡ s) × IsAgentId s)
unfolding new_agent_id
new_agent_id_iff s a = (
  λ h. let (u, v, e) = bind-eq-ok (validate s) (λ _. ok s) h in (cc, (validate_iff s).0 v),
  λ (e, h). rw ((validate_iff s).1 h, e) refl,
)

-- An agent id holds no slash, so it is one component of a path.
pub IsAgentId-Lacks : (s : Bytes) → All IsAgentIdByte s → Lacks b'/' s
IsAgentId-Lacks [] h = tt
IsAgentId-Lacks (c ∷ s) (h, hs) = (λ e. ground arith, IsAgentId-Lacks s hs)
