-- ===== src/Authz.antt =====
-- Package internal/authz: role.go, action.go and authorizer.go. Reading a file and decoding JSON are
-- the parameters of `load`.
pub mod Loaded
use fizzled_go.Prelude.{
  ◌≡◌, refl, Bytes, codes, Bool, true, false, not, ◌||◌, Option, none, some, List, [], ◌∷◌, ◌==◌,
  if◌then◌else◌, text_eq,
}
use fizzled_go.Prelude.Assoc.{Assoc, lookup, insert}
use fizzled_go.Errors.{Result, ok, err, ◌>>=◌, ◌>>◌, action_unauthorized, empty_roles, unknown_role}
use fizzled_go.Authn.AgentId.{validate}
use Prim.Native.Nat.{ℕ}

-- The constants of type `Action`.
pub data Action : Type 0 where
  start stop get_status stream_output : Action

abbrev pub action_code : Action → ℕ
action_code start = 0
action_code stop = 1
action_code get_status = 2
action_code stream_output = 3

abbrev pub role_user : Bytes
role_user = codes "USER"

-- The method `actions`; a nil slice is `none`.
abbrev pub actions : Bytes → Option (List Action)
actions role =
    if text_eq role role_user then some (start ∷ stop ∷ get_status ∷ stream_output ∷ []) else none

abbrev pub is_known : Bytes → Bool
is_known role = elim (actions role) [ none ↦ false | some granted ↦ true ]

abbrev pub contains_action : List Action → Action → Bool
contains_action [] action = false
contains_action (a ∷ granted) action =
    action_code a == action_code action || contains_action granted action

-- A nil slice contains nothing.
abbrev pub grants : Option (List Action) → Action → Bool
grants none action = false
grants (some granted) action = contains_action granted action

abbrev pub is_authorized_to : Bytes → Action → Bool
is_authorized_to role action = grants (actions role) action

-- An agent without an entry has no role.
abbrev pub role_allows : Option Bytes → Action → Bool
role_allows none action = false
role_allows (some role) action = is_authorized_to role action

pub record Authorizer : Type 0 where
  pub roles : Assoc Bytes

-- `Authorize`
unfoldable pub authorize : Authorizer → Bytes → Action → Result (Unit {0})
authorize a agent action =
    if not (role_allows (lookup agent a.roles) action)
    then err (action_unauthorized ∷ [])
    else ok tt

-- The end of `UnmarshalJSON`.
abbrev pub known_role : Bytes → Result Bytes
known_role input = if not (is_known input) then err (unknown_role ∷ []) else ok input

-- What `load` takes from the packages os and encoding/json: the content of the file at a path, the
-- object of that content, as a map listed in the order of its sorted keys, and the string that a
-- raw value decodes to.
pub record Decoder (Raw : Type 0) : Type 0 where
  pub read_file : Bytes → Result Bytes
  pub unmarshal_object : Bytes → Result (Assoc Raw)
  pub unmarshal_string : Raw → Result Bytes

module _ {Raw : Type 0} (decoder : Decoder Raw) where
  -- `UnmarshalJSON` of a role.
  unfoldable pub unmarshal_role : Raw → Result Bytes
  unmarshal_role raw = decoder.unmarshal_string raw >>= known_role

  -- The loop over the entries.
  unfoldable pub load_entries : Assoc Raw → Assoc Bytes → Result (Assoc Bytes)
  load_entries [] roles = ok roles
  load_entries ((agent, raw) ∷ entries) roles =
      validate agent
      >> (unmarshal_role raw >>= λ role. load_entries entries (insert agent role roles))

  abbrev pub authorizer_of : Assoc Raw → Result Authorizer
  authorizer_of [] = err (empty_roles ∷ [])
  authorizer_of (entry ∷ entries) =
      load_entries (entry ∷ entries) [] >>= λ roles. ok (record { roles = roles })

  -- `Load`
  unfoldable pub load : Bytes → Result Authorizer
  load path = do
    content ← decoder.read_file path
    entries ← decoder.unmarshal_object content
    authorizer_of entries
