-- ===== src/Server/Examples.antt =====
-- Calls of two agents, on which the theorems about internal/authz, internal/server and
-- internal/client apply.
use fizzled_go.Prelude.{
  ℕ, ◌≡◌, ◌≢◌, ◌↔◌, ◌⊎◌, refl, suc, Bytes, codes, true, none, some, List, [], ◌∷◌, text_eq,
}
use fizzled_go.Prelude.Assoc.{Assoc, lookup, insert}
use fizzled_go.Prelude.Decimal.{format_int}
use fizzled_go.Prelude.Int.{pos}
use fizzled_go.Errors.{ok}
use fizzled_go.Worker.Job.{new_job}
use fizzled_go.Worker.Examples.{finished, answered}
use fizzled_go.Registry.{create, create_in, job_id}
use fizzled_go.Registry.Examples.{alice, bob, alice_0, one_job, two_jobs}
use fizzled_go.Authn.AgentId.{IsAgentId, validate}
use fizzled_go.Authn.Examples.{authenticator, alice_chain}
use fizzled_go.Prelude.Strings.{matches_class}
use fizzled_go.Authz.{
  Action, Authorizer, authorize, Decoder, load, load_entries, unmarshal_role, role_user,
}
use fizzled_go.Authz.Loaded.{IsLoaded, IsNamed, load-authorize}
use fizzled_go.Server.Rpc.{Context, tls, Code, reply, refuse}
use fizzled_go.Server.Interceptor.{
  Interceptor, LogLine, decision, audited_job, method_get_status, authorize_call, Ran, returned,
  guard, intercept,
}
use fizzled_go.Server.Interceptor.Access.{
  IsAllowed, IsRefused, Verdict, authorize_call-Verdict, intercept_guards,
}
use fizzled_go.Server.Service.{status_stopped, proto_status, start, stop_response}

-- A roles file that makes alice a user; a raw value is its string.
abbrev entries : Assoc Bytes
entries = (alice, role_user) ∷ []

abbrev pub decoder : Decoder Bytes
decoder = record {
  read_file = λ path. ok path;
  unmarshal_object = λ content. ok entries;
  unmarshal_string = λ raw. ok raw;
}

abbrev pub authorizer : Authorizer
authorizer = record { roles = entries }

loaded : load decoder (codes "roles.json") ≡ ok authorizer
unfolding load load_entries unmarshal_role validate matches_class text_eq insert
loaded = refl

load-authorize_example :
    (found : Assoc Bytes) × IsLoaded decoder (codes "roles.json") found
    × (found ≢ [])
    × ((agent : Bytes) (action : Action)
        → (authorize authorizer agent action ≡ ok tt)
          ↔ (IsNamed decoder agent found × IsAgentId agent))
load-authorize_example = load-authorize decoder (codes "roles.json") authorizer loaded

abbrev interceptor : Interceptor
interceptor = record { authenticator = authenticator; authorizer = authorizer }

abbrev alice_call : Context
alice_call = record { peer = some (tls alice_chain); agent_id = none }

authorize_call-Verdict_example :
    Verdict interceptor alice_call method_get_status alice_0
      (authorize_call interceptor alice_call method_get_status alice_0)
authorize_call-Verdict_example =
    authorize_call-Verdict interceptor alice_call method_get_status alice_0

abbrev counting : Context → ℕ → Ran Bytes × ℕ
counting ctx n = (returned (reply alice), suc n)

intercept_guards_example :
    ((agent : Bytes) × (action : Action) × IsAllowed interceptor alice_call method_get_status agent
        action
      × (intercept interceptor alice_call method_get_status alice_0 counting 4
          ≡ guard method_get_status
              (decision agent action true (audited_job alice_0) ∷ [])
              (counting (record alice_call { agent_id = some agent }) 4)))
    ⊎ ((code : Code) × (message : Bytes) × (lines : List LogLine) × IsRefused interceptor alice_call
          method_get_status code
        × (intercept interceptor alice_call method_get_status alice_0 counting 4
            ≡ (lines, refuse code message, 4)))
intercept_guards_example =
    intercept_guards interceptor alice_call method_get_status alice_0 counting 4

abbrev pub as_bob : Context
as_bob = record { peer = none; agent_id = some bob }

started_bob : start as_bob (pos 5) one_job ≡ (reply (codes "bob/0"), two_jobs)
unfolding start create create_in new_job job_id lookup insert format_int text_eq
started_bob = refl

responded : stop_response finished.job ≡ some status_stopped
unfolding stop_response proto_status
responded = rw answered refl
