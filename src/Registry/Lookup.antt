-- ===== src/Registry/Lookup.antt =====
-- What `create` does to `find`, to the counters and to the store.
use mathlib.Core.Path.{ap₂}
use fizzled_go.Prelude.{
  ℕ, ◌+◌, ◌≡◌, refl, Bytes, Bool, true, false, ◌&&◌, Option, none, some, [], ◌∷◌, ◌++◌, arith,
  length, if◌then◌else◌, text_eq, text_eq-cases, Option-cases, Bool-cases, eq_of_some_eq, inl, inr,
  ap, subst, sym, ◌∙◌,
}
use fizzled_go.Prelude.Assoc.{lookup, insert, lookup-insert}
use fizzled_go.Prelude.Int.{ℤ}
use fizzled_go.Errors.{GoError, ok, err, Result-cases, eq_of_ok_eq, not_accepting_jobs}
use fizzled_go.Worker.Job.{Job, new_job, default_mean_tick_interval}
use fizzled_go.Worker.Countdown.Reach.{start}
use fizzled_go.Registry.{Record, World, create, create_in, find, find_in, record_or_new, job_id}

-- The number of jobs that the agent has started, which is the number of its next job.
abbrev counter_in : Option Record → ℕ
counter_in none = 0
counter_in (some r) = r.counter

abbrev pub counter_of : Bytes → World → ℕ
counter_of agent w = counter_in (lookup agent w.records)

-- The record under an agent's key bears the agent's identifier.
abbrev pub OwnsRecords : World → Type 0
OwnsRecords w = (a : Bytes) (r : Record) → lookup a w.records ≡ some r → r.agent_id ≡ a

pub record IsCreated (p : Bool) (agent : Bytes) (count : ℤ) (w : World) (id : Bytes) (w' : World)
    : Type 0 where
  pub accepting : w.is_accepting_jobs ≡ true
  pub minted : id ≡ job_id agent (counter_of agent w)
  pub job : Job
  pub made : new_job p id count default_mean_tick_interval ≡ ok job
  pub stored : w'.tasks ≡ w.tasks ++ start count job ∷ []
  pub owns : OwnsRecords w'
  pub flag : w'.is_accepting_jobs ≡ true
  pub finds :
      (b j : Bytes)
      → find b j w'
        ≡ (if text_eq agent b && text_eq id j then some (length w.tasks) else find b j w)
  pub counts :
      (b : Bytes)
      → counter_of b w' ≡ (if text_eq agent b then counter_of b w + 1 else counter_of b w)

abbrev pub record_of : Bytes → World → Record
record_of a w = record_or_new a (lookup a w.records)

abbrev pub next_id : Bytes → World → Bytes
next_id a w = job_id (record_of a w).agent_id (record_of a w).counter

abbrev pub created : Bytes → ℤ → Job → World → World
created a count job w = record {
  registry = record w.registry {
    records =
        insert a
          (record (record_of a w) {
            counter = (record_of a w).counter + 1;
            jobs = insert (next_id a w) (length w.tasks) (record_of a w).jobs;
          })
          w.records;
  };
  tasks = w.tasks ++ start count job ∷ [];
}

module _ (p : Bool) (a : Bytes) (count : ℤ) (w : World) where
  -- A registry that accepts no jobs refuses, whatever the count.
  pub create_closed :
      w.is_accepting_jobs ≡ false → create p a count w ≡ err (not_accepting_jobs ∷ [])
  unfolding create
  create_closed h = rw h

  pub create_made :
      {job : Job}
      → w.is_accepting_jobs ≡ true
      → new_job p (next_id a w) count default_mean_tick_interval ≡ ok job
      → create p a count w ≡ ok (next_id a w, created a count job w)
  unfolding create create_in
  create_made h m = rw (h, m)

  pub create_invalid :
      {e : GoError}
      → w.is_accepting_jobs ≡ true
      → new_job p (next_id a w) count default_mean_tick_interval ≡ err e
      → create p a count w ≡ err e
  unfolding create create_in
  create_invalid h m = rw (h, m)

agent_id-record_of : (a : Bytes) (w : World) → OwnsRecords w → (record_of a w).agent_id ≡ a
agent_id-record_of a w o = elim (Option-cases (lookup a w.records)) [
  | inl missing ↦ rw missing refl
  | inr (r, found) ↦ rw found (o a r found)
]

counter-record_of : (a : Bytes) (w : World) → (record_of a w).counter ≡ counter_of a w
counter-record_of a w = elim (Option-cases (lookup a w.records)) [
  | inl missing ↦ rw missing refl
  | inr (r, found) ↦ rw found refl
]

find_in-record_or_new :
    (a id : Bytes) (o : Option Record) → lookup id (record_or_new a o).jobs ≡ find_in id o
unfolding lookup
find_in-record_or_new a id none = refl
find_in-record_or_new a id (some r) = refl

finds-created :
    (a : Bytes) (count : ℤ) (job : Job) (w : World) (b j : Bytes)
    → find b j (created a count job w)
      ≡ (if text_eq a b && text_eq (next_id a w) j then some (length w.tasks) else find b j w)
unfolding find
finds-created a count job w b j = rw (lookup-insert a b) (elim (text_eq-cases a b) [
  | inl (same, t) ↦
      rw (t, lookup-insert (next_id a w) j, ← same)
        (ground (arith, find_in-record_or_new a j (lookup a w.records)))
  | inr (other, t) ↦ rw t refl
])

owns-created :
    (a : Bytes) (count : ℤ) (job : Job) (w : World)
    → OwnsRecords w
    → OwnsRecords (created a count job w)
owns-created a count job w o b r h = elim (text_eq-cases a b) [
  | inl (same, t) ↦
      ap (λ (q : Record). q.agent_id) (sym (eq_of_some_eq (rw (lookup-insert a b, t) at h)))
      ∙ agent_id-record_of a w o
      ∙ same
  | inr (other, t) ↦ o b r (rw (lookup-insert a b, t) at h)
]

counts-created :
    (a : Bytes) (count : ℤ) (job : Job) (w : World) (b : Bytes)
    → counter_of b (created a count job w)
      ≡ (if text_eq a b then counter_of b w + 1 else counter_of b w)
counts-created a count job w b = rw (lookup-insert a b) (elim (text_eq-cases a b) [
  | inl (same, t) ↦ rw (t, ← same) (ap (λ n. n + 1) (counter-record_of a w))
  | inr (other, t) ↦ rw t refl
])

-- A job that `Create` returns an id for.
pub create-IsCreated :
    (p : Bool) (a : Bytes) (count : ℤ) (w : World) (id : Bytes) (w' : World)
    → OwnsRecords w
    → create p a count w ≡ ok (id, w')
    → IsCreated p a count w id w'
create-IsCreated p a count w id w' o h = elim (Bool-cases w.is_accepting_jobs) [
  | inr closed ↦ absurd (cc (create_closed p a count w closed))
  | inl accepting ↦ elim (Result-cases (new_job p (next_id a w) count default_mean_tick_interval)) [
    | inr (e, invalid) ↦ absurd (cc (create_invalid p a count w accepting invalid))
    | inl (job, made) ↦
        subst (λ (q : Bytes × World). IsCreated p a count w q.0 q.1)
          (eq_of_ok_eq (sym (create_made p a count w accepting made) ∙ h))
          (record {
            accepting = accepting;
            minted = ap₂ job_id (agent_id-record_of a w o) (counter-record_of a w);
            job = job;
            made = made;
            stored = refl;
            owns = owns-created a count job w o;
            flag = accepting;
            finds = finds-created a count job w;
            counts = counts-created a count job w;
          })
  ]
]
