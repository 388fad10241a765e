-- ===== src/JobStore/Notify.antt =====
-- Notification of the user: the calls that print completed jobs and then remove them.
use migash.Prelude.{◌&&◌, not, List, [], ◌∷◌, if◌then◌else◌}
use migash.Job.{Job, job_is_completed}
use migash.JobStore.{JobStore, Line}

-- The lines that are due: the completed jobs that the user has not heard of, in list order.
abbrev pub due_lines : List Job → List Line
due_lines [] = []
due_lines (job ∷ rest) =
    if job_is_completed job && not job.is_notified
    then (job.job_id, job.state, job.command_line) ∷ due_lines rest
    else due_lines rest
