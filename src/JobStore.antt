-- ===== src/JobStore.antt =====
-- The job table, src/job_store.c. Pointers to jobs (`current_job`, `previous_job`) are addresses of
-- nodes; NULL is `none`. `job_store_add` takes the address that `xcalloc` returned. The store
-- itself is never NULL here: each function returns at once on a NULL store.
use Prim.Native.Nat.{◌-◌}
use migash.Prelude.{
  Text, ℕ, zero, suc, ◌+◌, Bool, true, false, ◌&&◌, ◌||◌, not, List, [], ◌∷◌, Option, none, some,
  if◌then◌else◌, ◌==◌, ◌++◌,
}
use migash.Prelude.Int.{ℤ, ◌==ℤ◌}
pub mod Valid
pub mod Sweeping
pub mod Lookup
pub mod Reach
pub mod Notify
use migash.Job.{
  JobState, Process, Job, process_create, job_create, job_update_state, job_is_completed,
}

pub record JobStore : Type 0 where
  pub jobs : List Job
  pub current_job : Option ℕ
  pub previous_job : Option ℕ
  pub job_count : ℕ
  pub next_job_id : ℕ

unfoldable pub job_store_create : JobStore
job_store_create = record {
  jobs = [];
  current_job = none;
  previous_job = none;
  job_count = 0;
  next_job_id = 1;
}

unfoldable pub job_store_add : JobStore → ℕ → Text → Bool → JobStore × ℕ
unfolding job_create
job_store_add store addr command_line is_background =
    let job_id = store.next_job_id in
    let new_job = job_create addr job_id command_line is_background in
    (
      record {
        jobs = new_job ∷ store.jobs;
        current_job = if is_background then some addr else store.current_job;
        previous_job = if is_background then store.current_job else store.previous_job;
        job_count = store.job_count + 1;
        next_job_id = store.next_job_id + 1;
      },
      job_id,
    )

-- The scan of `job_store_find`: the first node with the id.
unfoldable pub find_id : ℕ → List Job → Option Job
find_id job_id [] = none
find_id job_id (job ∷ rest) = if job.job_id == job_id then some job else find_id job_id rest

unfoldable pub job_store_find : JobStore → ℕ → Option Job
unfolding find_id
job_store_find store job_id = find_id job_id store.jobs

-- A write through a pointer to a node.
unfoldable pub write_at : ℕ → (Job → Job) → List Job → List Job
write_at a f [] = []
write_at a f (job ∷ rest) = if job.addr == a then f job ∷ rest else job ∷ write_at a f rest

-- `job = job_store_find(...)`, and where it is not NULL a write through it.
unfoldable pub change_job : JobStore → ℕ → (Job → Job) → JobStore × Bool
unfolding job_store_find write_at
change_job store job_id f = elim (job_store_find store job_id) [
  | none ↦ (store, false)
  | some job ↦ (record store { jobs = write_at job.addr f store.jobs }, true)
]

-- The first process sets the process group.
unfoldable pub append_process : ℤ → Text → Job → Job
append_process pid command job = record job {
  pgid = elim job.processes [ [] ↦ pid | _ ∷ _ ↦ job.pgid ];
  processes = job.processes ++ process_create pid command ∷ [];
}

unfoldable pub job_store_add_process : JobStore → ℕ → ℤ → Text → JobStore × Bool
unfolding change_job append_process process_create
job_store_add_process store job_id pid command =
    change_job store job_id (append_process pid command)

unfoldable pub job_store_set_state : JobStore → ℕ → JobState → JobStore × Bool
unfolding change_job
job_store_set_state store job_id new_state =
    change_job store job_id (λ job. record job { state = new_state })

unfoldable pub job_store_mark_notified : JobStore → ℕ → JobStore × Bool
unfolding change_job
job_store_mark_notified store job_id =
    change_job store job_id (λ job. record job { is_notified = true })

-- The inner loop of `job_store_set_process_state`: `none` where no process has the pid.
unfoldable pub set_process : ℤ → JobState → ℤ → List Process → Option (List Process)
set_process pid new_state exit_status [] = none
set_process pid new_state exit_status (proc ∷ rest) =
    if proc.pid ==ℤ pid
    then some (record proc { exit_status = exit_status; state = new_state } ∷ rest)
    else elim (set_process pid new_state exit_status rest) [
      | none ↦ none
      | some rest' ↦ some (proc ∷ rest')
    ]

-- The outer loop: it stops at the first job that holds the process.
unfoldable pub set_in_jobs : ℤ → JobState → ℤ → List Job → Option (List Job)
unfolding set_process job_update_state
set_in_jobs pid new_state exit_status [] = none
set_in_jobs pid new_state exit_status (job ∷ rest) =
    let later = set_in_jobs pid new_state exit_status rest in
    elim (set_process pid new_state exit_status job.processes) [
      | some ps ↦ some (job_update_state (record job { processes = ps }) ∷ rest)
      | none ↦ elim later [ none ↦ none | some rest' ↦ some (job ∷ rest') ]
    ]

unfoldable pub job_store_set_process_state : JobStore → ℤ → JobState → ℤ → JobStore × Bool
unfolding set_in_jobs
job_store_set_process_state store pid new_state exit_status =
    elim (set_in_jobs pid new_state exit_status store.jobs) [
      | none ↦ (store, false)
      | some jobs' ↦ (record store { jobs = jobs' }, true)
    ]

-- The lines that `job_store_print_completed_jobs` writes: id, state and command line.
abbrev pub Line : Type 0
Line = ℕ × JobState × Text

unfoldable pub print_completed : List Job → List Job × List Line
unfolding job_is_completed
print_completed [] = ([], [])
print_completed (job ∷ rest) =
    let (rest', lines) = print_completed rest in
    if job_is_completed job && not job.is_notified
    then (
      record job { is_notified = true } ∷ rest',
      (job.job_id, job.state, job.command_line) ∷ lines,
    )
    else (job ∷ rest', lines)

unfoldable pub job_store_print_completed_jobs : JobStore → JobStore × List Line
unfolding print_completed
job_store_print_completed_jobs store =
    let (jobs', lines) = print_completed store.jobs in (record store { jobs = jobs' }, lines)

unfoldable pub points_to : Option ℕ → ℕ → Bool
points_to none a = false
points_to (some b) a = b == a

-- The updates of `current_job` and `previous_job` before the node at `a` is freed.
unfoldable pub next_current : ℕ → Option ℕ → Option ℕ → Option ℕ
unfolding points_to
next_current a current previous =
    if points_to current a then (if points_to previous a then none else previous) else current

unfoldable pub next_previous : ℕ → Option ℕ → Option ℕ
unfolding points_to
next_previous a previous = if points_to previous a then none else previous

-- The loop of `job_store_remove`: the node with the id, and the list without it.
unfoldable pub unlink : ℕ → List Job → Option (Job × List Job)
unlink job_id [] = none
unlink job_id (curr ∷ next) =
    if curr.job_id == job_id
    then some (curr, next)
    else elim (unlink job_id next) [ none ↦ none | some (found, rest) ↦ some (found, curr ∷ rest) ]

unfoldable pub job_store_remove : JobStore → ℕ → JobStore × Bool
unfolding unlink next_current next_previous
job_store_remove store job_id = elim (unlink job_id store.jobs) [
  | none ↦ (store, false)
  | some (curr, rest) ↦ (
    record store {
      jobs = rest;
      current_job = next_current curr.addr store.current_job store.previous_job;
      previous_job = next_previous curr.addr store.previous_job;
      job_count = store.job_count - 1;
    },
    true,
  )
]

-- The local state of the loop of `job_store_remove_completed` when it ends.
pub record Swept : Type 0 where
  pub kept : List Job
  pub current : Option ℕ
  pub previous : Option ℕ
  pub removed : ℕ

unfoldable pub sweep : List Job → Option ℕ → Option ℕ → Swept
unfolding job_is_completed next_current next_previous
sweep [] current previous = record {
  kept = [];
  current = current;
  previous = previous;
  removed = 0;
}
sweep (curr ∷ next) current previous =
    let gone =
      sweep next (next_current curr.addr current previous) (next_previous curr.addr previous) in
    let stays = sweep next current previous in
    if job_is_completed curr && curr.is_notified
    then record gone { removed = suc gone.removed }
    else record stays { kept = curr ∷ stays.kept }

unfoldable pub job_store_remove_completed : JobStore → JobStore × ℕ
unfolding sweep
job_store_remove_completed store =
    let swept = sweep store.jobs store.current_job store.previous_job in
    (
      record store {
        jobs = swept.kept;
        current_job = swept.current;
        previous_job = swept.previous;
        job_count = store.job_count - swept.removed;
      },
      swept.removed,
    )

-- `job_ids[0 .. count)` after `job_store_get_job_ids` with room for `max_jobs` ids.
unfoldable pub first_ids : ℕ → List Job → List ℕ
first_ids zero jobs = []
first_ids (suc max_jobs) [] = []
first_ids (suc max_jobs) (job ∷ rest) = job.job_id ∷ first_ids max_jobs rest

unfoldable pub find_pgid : ℤ → List Job → Option Job
find_pgid pgid [] = none
find_pgid pgid (job ∷ rest) = if job.pgid ==ℤ pgid then some job else find_pgid pgid rest

unfoldable pub job_store_find_by_pgid : JobStore → ℤ → Option Job
unfolding find_pgid
job_store_find_by_pgid store pgid = find_pgid pgid store.jobs

-- `strncmp(cmd, prefix, strlen(prefix)) == 0`
unfoldable pub starts_with : Text → Text → Bool
starts_with cmd [] = true
starts_with [] (c ∷ prefix) = false
starts_with (d ∷ cmd) (c ∷ prefix) = d == c && starts_with cmd prefix

-- `strstr(cmd, substring) != NULL`
unfoldable pub contains : Text → Text → Bool
unfolding starts_with
contains [] substring = starts_with [] substring
contains (d ∷ cmd) substring = starts_with (d ∷ cmd) substring || contains cmd substring

unfoldable pub find_command : (Text → Bool) → List Job → Option Job
find_command matches [] = none
find_command matches (job ∷ rest) =
    if matches job.command_line then some job else find_command matches rest

unfoldable pub job_store_find_by_prefix : JobStore → Text → Option Job
unfolding find_command starts_with
job_store_find_by_prefix store [] = none
job_store_find_by_prefix store (c ∷ prefix) =
    find_command (λ cmd. starts_with cmd (c ∷ prefix)) store.jobs

unfoldable pub job_store_find_by_substring : JobStore → Text → Option Job
unfolding find_command contains
job_store_find_by_substring store [] = none
job_store_find_by_substring store (c ∷ substring) =
    find_command (λ cmd. contains cmd (c ∷ substring)) store.jobs
