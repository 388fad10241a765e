-- ===== src/Job.antt =====
-- One job of the job table: src/job_store.h and the per-job functions of src/job_store.c.
-- A job is a node of a linked list, and `addr` is the address that `xcalloc` gave it; the list of
-- its processes is the chain of their `next` pointers.
use migash.Prelude.{
  ℕ, zero, suc, ◌+◌, Bool, true, false, ◌||◌, not, List, [], ◌∷◌, if◌then◌else◌, length, get_elem?,
  none, some, Text,
}
use migash.Prelude.Int.{ℤ, pos, negsuc}
use Prim.Native.String.{String}
pub mod Status

pub data JobState : Type 0 where
  running stopped done terminated : JobState

pub record Process : Type 0 where
  pub command : Text
  pub pid : ℤ
  pub exit_status : ℤ
  pub state : JobState

pub record Job : Type 0 where
  pub addr : ℕ
  pub job_id : ℕ
  pub pgid : ℤ
  pub processes : List Process
  pub command_line : Text
  pub state : JobState
  pub is_background : Bool
  pub is_notified : Bool

unfoldable pub process_create : ℤ → Text → Process
process_create pid command = record {
  command = command;
  pid = pid;
  exit_status = pos 0;
  state = running;
}

unfoldable pub job_create : ℕ → ℕ → Text → Bool → Job
job_create addr job_id command_line is_background = record {
  addr = addr;
  job_id = job_id;
  pgid = pos 0;
  processes = [];
  command_line = command_line;
  state = running;
  is_background = is_background;
  is_notified = false;
}

-- The four local flags of `job_update_state`.
pub record Flags : Type 0 where
  pub has_running : Bool
  pub has_stopped : Bool
  pub has_terminated : Bool
  pub all_done : Bool

unfoldable pub see : JobState → Flags → Flags
see running f = record f { has_running = true; all_done = false }
see stopped f = record f { has_stopped = true; all_done = false }
see terminated f = record f { has_terminated = true; all_done = false }
see done f = f

unfoldable pub scan : List Process → Flags → Flags
scan [] f = f
scan (p ∷ ps) f = scan ps (see p.state f)

unfoldable pub overall : Flags → JobState → JobState
overall f old =
    if f.has_stopped
    then stopped
    else if f.has_running
    then running
    else if f.has_terminated
    then terminated
    else if f.all_done
    then done
    else old

abbrev pub no_flags : Flags
no_flags = record {
  has_running = false;
  has_stopped = false;
  has_terminated = false;
  all_done = true;
}

-- The state that the processes give; a job without processes keeps its own.
unfoldable pub updated_state : List Process → JobState → JobState
unfolding scan see overall
updated_state [] old = old
updated_state (p ∷ ps) old = overall (scan (p ∷ ps) no_flags) old

unfoldable pub job_update_state : Job → Job
unfolding updated_state
job_update_state job = record job { state = updated_state job.processes job.state }

abbrev pub is_running_state : JobState → Bool
is_running_state running = true
is_running_state _ = false

-- JOB_RUNNING or JOB_STOPPED
abbrev pub is_active_state : JobState → Bool
is_active_state running = true
is_active_state stopped = true
is_active_state _ = false

unfoldable pub any_running : List Process → Bool
any_running [] = false
any_running (p ∷ ps) = is_running_state p.state || any_running ps

unfoldable pub job_is_running : Job → Bool
unfolding any_running
job_is_running job = any_running job.processes

unfoldable pub none_active : List Process → Bool
none_active [] = true
none_active (p ∷ ps) = if is_active_state p.state then false else none_active ps

unfoldable pub processes_completed : List Process → JobState → Bool
unfolding none_active
processes_completed [] own = not (is_active_state own)
processes_completed (p ∷ ps) own = none_active (p ∷ ps)

unfoldable pub job_is_completed : Job → Bool
unfolding processes_completed
job_is_completed job = processes_completed job.processes job.state

unfoldable pub job_process_count : Job → ℕ
job_process_count job = length job.processes

unfoldable pub job_get_process_pid : Job → ℕ → ℤ
job_get_process_pid job index = elim (get_elem? job.processes index) [
  | none ↦ negsuc 0
  | some p ↦ p.pid
]

unfoldable pub job_get_process_state : Job → ℕ → JobState
job_get_process_state job index = elim (get_elem? job.processes index) [
  | none ↦ done
  | some p ↦ p.state
]

unfoldable pub job_get_process_exit_status : Job → ℕ → ℤ
job_get_process_exit_status job index = elim (get_elem? job.processes index) [
  | none ↦ negsuc 0
  | some p ↦ p.exit_status
]

unfoldable pub job_state_to_string : JobState → String
job_state_to_string running = "Running"
job_state_to_string stopped = "Stopped"
job_state_to_string done = "Done"
job_state_to_string terminated = "Terminated"
