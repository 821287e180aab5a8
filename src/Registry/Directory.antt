-- ===== src/Registry/Directory.antt =====
-- What internal/registry promises to its callers, apart from how it stores it: agents own jobs under
-- ids that number them, and an agent finds its own jobs alone.
use fizzled_go.Prelude.{
  ℕ, ◌+◌, Bytes, Bool, true, false, ◌&&◌, Option, none, some, List, [], ◌∷◌, if◌then◌else◌, text_eq,
}
use fizzled_go.Prelude.Int.{ℤ, pos, leb_ℤ}
use fizzled_go.Errors.{Result, ok, err, invalid_count, not_accepting_jobs}
use fizzled_go.Registry.{job_id}

-- The jobs by owner and id, the number of jobs that an agent has started, and the number of all.
pub record Directory : Type 0 where
  pub jobs : Bytes → Bytes → Option ℕ
  pub issued : Bytes → ℕ
  pub size : ℕ
  pub is_open : Bool

abbrev pub empty : Directory
empty = record { jobs = λ a j. none; issued = λ a. 0; size = 0; is_open = true }

-- A call, and its answer: an id or an error, or a pointer to the job if there is one.
pub data Op : Type 0 where
  creates : Bytes → ℤ → Op
  finds : Bytes → Bytes → Op
  shuts : Op

pub data Reply : Type 0 where
  created : Result Bytes → Reply
  found : Option ℕ → Reply
  shut : Reply

abbrev pub is_count : ℤ → Bool
is_count count = leb_ℤ (pos 1) count && leb_ℤ count (pos 100)

abbrev pub grown : Directory → Bytes → Directory
grown d a = record d {
  jobs =
      λ b j. if text_eq a b && text_eq (job_id a (d.issued a)) j then some d.size else d.jobs b j;
  issued = λ b. if text_eq a b then d.issued b + 1 else d.issued b;
  size = d.size + 1;
}

-- The answer to a creation, by whether the directory is open and whether the count is one.
abbrev pub answer : Directory → Bytes → (is_open is_valid : Bool) → Result Bytes × Directory
answer d a true true = (ok (job_id a (d.issued a)), grown d a)
answer d a true false = (err (invalid_count ∷ []), d)
answer d a false is_valid = (err (not_accepting_jobs ∷ []), d)

abbrev pub create : Directory → Bytes → ℤ → Result Bytes × Directory
create d a count = answer d a d.is_open (is_count count)

unfoldable pub run : Directory → List Op → List Reply
run d [] = []
run d (creates a count ∷ ops) = let (reply, d') = create d a count in created reply ∷ run d' ops
run d (finds a j ∷ ops) = found (d.jobs a j) ∷ run d ops
run d (shuts ∷ ops) = shut ∷ run (record d { is_open = false }) ops
