-- ===== src/JobStore/Reach.antt =====
-- Every state that a run of the shell can bring the job table into.
use migash.Prelude.{Text, ℕ, ◌≡◌, Bool, false}
use migash.Prelude.Int.{ℤ}
use migash.Job.{JobState}
use migash.JobStore.{
  JobStore, job_store_create, job_store_add, job_store_add_process, job_store_set_state,
  job_store_mark_notified, job_store_set_process_state, job_store_print_completed_jobs,
  job_store_remove, job_store_remove_completed,
}
use migash.JobStore.Valid.{
  has_addr, IsValid, job_store_create-IsValid, job_store_add-IsValid,
  job_store_set_process_state-IsValid, job_store_print_completed_jobs-IsValid,
  job_store_add_process-IsValid, job_store_set_state-IsValid, job_store_mark_notified-IsValid,
}
use migash.JobStore.Sweeping.{job_store_remove_completed-IsValid, job_store_remove-IsValid}

-- One call. The allocator hands out an address at which no live node stands.
pub data Step (s : JobStore) : JobStore → Type 0 where
  add :
      (addr : ℕ) (command_line : Text) (is_background : Bool)
      → has_addr addr s.jobs ≡ false
      → Step s (job_store_add s addr command_line is_background).0
  add_process :
      (job_id : ℕ) (pid : ℤ) (command : Text)
      → Step s (job_store_add_process s job_id pid command).0
  set_state : (job_id : ℕ) (st : JobState) → Step s (job_store_set_state s job_id st).0
  set_process_state :
      (pid : ℤ) (st : JobState) (code : ℤ) → Step s (job_store_set_process_state s pid st code).0
  mark_notified : (job_id : ℕ) → Step s (job_store_mark_notified s job_id).0
  print_completed : Step s (job_store_print_completed_jobs s).0
  remove : (job_id : ℕ) → Step s (job_store_remove s job_id).0
  remove_completed : Step s (job_store_remove_completed s).0

pub data Reach : JobStore → Type 0 where
  start : Reach job_store_create
  next : {s t : JobStore} → Reach s → Step s t → Reach t

Step-IsValid : {s t : JobStore} → IsValid s → Step s t → IsValid t
Step-IsValid {s} v (add addr c b fresh) = job_store_add-IsValid s addr c b v fresh
Step-IsValid {s} v (add_process id pid c) = job_store_add_process-IsValid s id pid c v
Step-IsValid {s} v (set_state id st) = job_store_set_state-IsValid s id st v
Step-IsValid {s} v (set_process_state pid st code) =
    job_store_set_process_state-IsValid s pid st code v
Step-IsValid {s} v (mark_notified id) = job_store_mark_notified-IsValid s id v
Step-IsValid {s} v print_completed = job_store_print_completed_jobs-IsValid s v
Step-IsValid {s} v (remove id) = job_store_remove-IsValid s id v
Step-IsValid {s} v remove_completed = job_store_remove_completed-IsValid s v

-- In every reachable table the count is the number of nodes, ids fall along the list from below the
-- next id, no two nodes share an address, and `current_job` and `previous_job` are NULL or point
-- to a live node: no call leaves a pointer to a freed job.
pub Reach-IsValid : {s : JobStore} → Reach s → IsValid s
Reach-IsValid start = job_store_create-IsValid
Reach-IsValid (next r st) = Step-IsValid (Reach-IsValid r) st
