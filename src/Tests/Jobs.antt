-- ===== src/Tests/Jobs.antt =====
-- Runs of the job table.
use migash.Prelude.{◌≡◌, refl, true, false, [], ◌∷◌, none, some, if◌then◌else◌, ◌==◌}
use migash.Prelude.Int.{◌==ℤ◌, pos}
use migash.Job.{Job, running, stopped, done, terminated, job_update_state, job_is_completed}
use migash.Job.Status.{
  is_over, precedence, job_update_state-precedence, job_is_completed-update_state,
}
use migash.JobStore.{
  JobStore, job_store_create, job_store_add, job_store_find, job_store_remove, job_store_set_state,
  job_store_add_process, job_store_set_process_state, job_store_print_completed_jobs,
  job_store_remove_completed,
}
use migash.JobStore.Valid.{IsValid}
use migash.JobStore.Sweeping.{keep, is_due, count, job_store_remove_completed_lem}
use migash.JobStore.Lookup.{find-add, find-remove, find-set_state}
use migash.JobStore.Reach
use migash.JobStore.Reach.{Reach, Reach-IsValid}
use migash.Tests.Samples.{bytes}

-- Two background jobs; the second one has a process, which has ended, and the user has heard of it.
abbrev one_job : JobStore
one_job = (job_store_add job_store_create 100 (bytes "sleep 5") true).0

abbrev two_jobs : JobStore
two_jobs = (job_store_add one_job 200 (bytes "make") true).0

abbrev with_process : JobStore
with_process = (job_store_add_process two_jobs 2 (pos 77) (bytes "make")).0

abbrev ended : JobStore
ended = (job_store_set_process_state with_process (pos 77) terminated (pos 9)).0

Reach-ended : Reach ended
unfolding job_store_create job_store_add
Reach-ended =
    Reach.next
      (Reach.next
        (Reach.next (Reach.next Reach.start (Reach.Step.add 100 (bytes "sleep 5") true refl))
          (Reach.Step.add 200 (bytes "make") true refl))
        (Reach.Step.add_process 2 (pos 77) (bytes "make")))
      (Reach.Step.set_process_state (pos 77) terminated (pos 9))

Reach-IsValid_example : IsValid ended
Reach-IsValid_example = Reach-IsValid Reach-ended

-- The removal of the current job makes the previous one current, and leaves it the previous one too.
current_after_remove :
    ((job_store_remove ended 2).0.current_job ≡ some 100)
    × ((job_store_remove ended 2).0.previous_job ≡ some 100)
unfolding ◌==ℤ◌ job_store_create job_store_add job_store_add_process job_store_set_process_state
    job_store_remove
current_after_remove = (refl, refl)

printed_line : (job_store_print_completed_jobs ended).1 ≡ (2, terminated, bytes "make") ∷ []
unfolding ◌==ℤ◌ job_store_create job_store_add job_store_add_process job_store_set_process_state
    job_store_print_completed_jobs
printed_line = refl

abbrev mixed : Job
mixed = record {
  addr = 1;
  job_id = 1;
  pgid = pos 5;
  processes =
      record { command = []; pid = pos 5; exit_status = pos 0; state = done }
      ∷ record { command = []; pid = pos 6; exit_status = pos 2; state = terminated }
      ∷ [];
  command_line = bytes "a | b";
  state = running;
  is_background = false;
  is_notified = false;
}

job_update_state-precedence_example :
    (job_update_state mixed).state
    ≡ elim mixed.processes [ [] ↦ mixed.state | p ∷ ps ↦ precedence (p ∷ ps) ]
job_update_state-precedence_example = job_update_state-precedence mixed

job_is_completed-update_state_example :
    job_is_completed (job_update_state mixed) ≡ is_over (job_update_state mixed).state
job_is_completed-update_state_example = job_is_completed-update_state mixed

find-add_example :
    let r = job_store_add ended 200 (bytes "make") true in
    (r.1 ≡ ended.next_job_id)
    × (job_store_find ended r.1 ≡ none)
    × (job_store_find r.0 1 ≡ (
        if r.1 == 1
        then some (record {
          addr = 200;
          job_id = r.1;
          pgid = pos 0;
          processes = [];
          command_line = bytes "make";
          state = running;
          is_background = true;
          is_notified = false;
        })
        else job_store_find ended 1))
find-add_example = find-add ended 200 (bytes "make") true 1 (Reach-IsValid Reach-ended)

find-remove_example :
    (job_store_find (job_store_remove ended 2).0 1
      ≡ (if 2 == 1 then none else job_store_find ended 1))
    × ((job_store_remove ended 2).1
        ≡ elim (job_store_find ended 2) [ none ↦ false | some _ ↦ true ])
find-remove_example = find-remove ended 2 1 (Reach-IsValid Reach-ended)

find-set_state_example :
    (job_store_find (job_store_set_state ended 1 stopped).0 2 ≡ (
      if 1 == 2
      then elim (job_store_find ended 1) [
        | none ↦ none
        | some job ↦ some (record job { state = stopped })
      ]
      else job_store_find ended 2))
    × ((job_store_set_state ended 1 stopped).1
        ≡ elim (job_store_find ended 1) [ none ↦ false | some _ ↦ true ])
find-set_state_example = find-set_state ended 1 2 stopped (Reach-IsValid Reach-ended)

job_store_remove_completed_lem_example :
    ((job_store_remove_completed ended).0.jobs ≡ keep is_due ended.jobs)
    × ((job_store_remove_completed ended).1 ≡ count is_due ended.jobs)
job_store_remove_completed_lem_example = job_store_remove_completed_lem ended
