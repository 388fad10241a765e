-- ===== src/Job/Status.antt =====
-- What `job_update_state` computes, and how it agrees with `job_is_completed`.
use migash.Prelude.{
  ◌≡◌, refl, ◌∙◌, Bool, true, false, ◌||◌, not, List, [], ◌∷◌, arith, if◌then◌else◌,
}
use migash.Job.{
  JobState, Process, Job, Flags, running, stopped, done, terminated, see, scan, no_flags,
  updated_state, job_update_state, none_active, processes_completed, job_is_completed,
  is_active_state,
}

-- Whether some process is in the given state.
abbrev pub is_stopped_state : JobState → Bool
is_stopped_state stopped = true
is_stopped_state _ = false

abbrev pub is_terminated_state : JobState → Bool
is_terminated_state terminated = true
is_terminated_state _ = false

abbrev pub is_running : JobState → Bool
is_running running = true
is_running _ = false

abbrev pub any_state : (JobState → Bool) → List Process → Bool
any_state p [] = false
any_state p (q ∷ qs) = p q.state || any_state p qs

-- The documented precedence: stopped, then running, then terminated, then done.
abbrev pub precedence : List Process → JobState
precedence ps =
    if any_state is_stopped_state ps
    then stopped
    else if any_state is_running ps
    then running
    else if any_state is_terminated_state ps
    then terminated
    else done

abbrev joined : Flags → List Process → Flags
joined f ps = record {
  has_running = f.has_running || any_state is_running ps;
  has_stopped = f.has_stopped || any_state is_stopped_state ps;
  has_terminated = f.has_terminated || any_state is_terminated_state ps;
  all_done =
      if any_state is_running ps
        || any_state is_stopped_state ps
        || any_state is_terminated_state ps
      then false
      else f.all_done;
}

scan-joined : (ps : List Process) (f : Flags) → scan ps f ≡ joined f ps
unfolding updated_state
scan-joined [] f = ground arith
scan-joined (p ∷ ps) f = ground (arith, scan-joined ps (see p.state f))

-- `job_update_state` gives a job with processes the state of highest precedence among them, and
-- leaves a job without processes as it is.
pub job_update_state-precedence :
    (job : Job)
    → (job_update_state job).state
      ≡ elim job.processes [ [] ↦ job.state | p ∷ ps ↦ precedence (p ∷ ps) ]
unfolding job_update_state
job_update_state-precedence job = by_processes job.processes job.state
  where
    by_processes :
        (ps : List Process) (old : JobState)
        → updated_state ps old ≡ elim ps [ [] ↦ old | q ∷ qs ↦ precedence (q ∷ qs) ]
    by_processes [] old = refl
    by_processes (q ∷ qs) old = ground (arith, scan-joined qs (see q.state no_flags))

none_active_lem :
    (ps : List Process)
    → none_active ps ≡ not (any_state is_running ps || any_state is_stopped_state ps)
unfolding none_active
none_active_lem [] = refl
none_active_lem (p ∷ ps) = ground (arith, none_active_lem ps)

-- A job that has ended, by an exit or by a signal.
abbrev pub is_over : JobState → Bool
is_over running = false
is_over stopped = false
is_over done = true
is_over terminated = true

not_active : (state : JobState) → not (is_active_state state) ≡ is_over state
not_active running = refl
not_active stopped = refl
not_active done = refl
not_active terminated = refl

processes_completed_lem :
    (ps : List Process) (old : JobState)
    → processes_completed ps (updated_state ps old) ≡ not (is_active_state (updated_state ps old))
unfolding processes_completed updated_state
processes_completed_lem [] old = refl
processes_completed_lem (p ∷ ps) old =
    ground (arith, none_active_lem ps, scan-joined ps (see p.state no_flags))

-- After `job_update_state` the test on the processes and the stored state agree: the job is
-- completed exactly when its state is done or terminated.
pub job_is_completed-update_state :
    (job : Job) → job_is_completed (job_update_state job) ≡ is_over (job_update_state job).state
unfolding job_is_completed job_update_state
job_is_completed-update_state job =
    processes_completed_lem job.processes job.state
    ∙ not_active (updated_state job.processes job.state)
