-- ===== src/Registry.antt =====
-- Package internal/registry. A job is an object that the registry, the RPC handlers and the job's
-- goroutine share, so jobs live in a store, `tasks`, and a pointer to one is its position there.
pub mod JobId
pub mod Lookup
pub mod Invariant
pub mod Ownership
pub mod Shutdown
pub mod Directory
pub mod Refine
pub mod Examples
use fizzled_go.Prelude.{
  ℕ, ◌+◌, Bytes, codes, Bool, true, false, Option, none, some, List, [], ◌∷◌, ◌++◌, length,
  if◌then◌else◌,
}
use fizzled_go.Prelude.Assoc.{Assoc, lookup, insert}
use fizzled_go.Prelude.Decimal.{format_int}
use fizzled_go.Prelude.Int.{ℤ}
use fizzled_go.Errors.{Result, ok, err, ◌>>=◌, not_accepting_jobs}
use fizzled_go.Worker.Job.{Job, new_job, default_mean_tick_interval}
use fizzled_go.Worker.Countdown.{Task}
use fizzled_go.Worker.Countdown.Reach.{start}

pub record Record : Type 0 where
  pub agent_id : Bytes
  pub counter : ℕ
  pub jobs : Assoc ℕ

pub record Registry : Type 0 where
  pub records : Assoc Record
  pub is_accepting_jobs : Bool

-- The registry and the store of all jobs.
pub record World : Type 0 where
  pub registry : Registry
  pub open registry use *
  pub tasks : List Task

abbrev pub new_record : Bytes → Record
new_record agent_id = record { agent_id = agent_id; counter = 0; jobs = [] }

-- A new registry, before any job.
abbrev pub new : World
new = record { registry = record { records = []; is_accepting_jobs = true }; tasks = [] }

-- fmt.Sprintf("%s/%d", agentID, counter)
unfoldable pub job_id : Bytes → ℕ → Bytes
job_id agent n = agent ++ (b'/' ∷ format_int n)

-- `record.create`. The goroutine that NewJob starts goes to the end of the store.
unfoldable pub create_in : Bool → ℤ → Record → List Task → Result (Bytes × Record × List Task)
create_in parent_done count r tasks = do
  let id = job_id r.agent_id r.counter
  job ← new_job parent_done id count default_mean_tick_interval
  let grown = record r { counter = r.counter + 1; jobs = insert id (length tasks) r.jobs }
  ok (id, grown, tasks ++ start count job ∷ [])

abbrev pub record_or_new : Bytes → Option Record → Record
record_or_new agent none = new_record agent
record_or_new agent (some r) = r

-- `Create`. The map holds pointers to records, so a record that was found is changed in place, and
-- a new one is stored: either way the agent's entry is the record that `create_in` left.
unfoldable pub create : Bool → Bytes → ℤ → World → Result (Bytes × World)
create parent_done agent count w =
    if w.is_accepting_jobs
    then (do
      (id, r, tasks) ←
          create_in parent_done count (record_or_new agent (lookup agent w.records)) w.tasks
      ok (
        id,
        record {
          registry = record w.registry { records = insert agent r w.records };
          tasks = tasks;
        },
      ))
    else err (not_accepting_jobs ∷ [])

-- `record.find`
abbrev pub find_in : Bytes → Option Record → Option ℕ
find_in id none = none
find_in id (some r) = lookup id r.jobs

-- `Find`: a pointer to the job.
unfoldable pub find : Bytes → Bytes → World → Option ℕ
find agent id w = find_in id (lookup agent w.records)
