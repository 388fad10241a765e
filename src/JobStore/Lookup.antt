-- ===== src/JobStore/Lookup.antt =====
-- How `job_store_find` sees the operations of the table.
use migash.Prelude.{
  Text, ℕ, ◌-◌, ◌≤◌, ◌≡◌, refl, ◌⊎◌, Bool, true, false, List, [], ◌∷◌, Option, none, some, arith,
  if◌then◌else◌, ◌==◌, inl, inr, Bool-cases, ==_iff,
}
use migash.Prelude.Int.{pos}
use migash.Job.{JobState, Job, running, job_create}
use migash.JobStore.{
  JobStore, job_store_add, find_id, job_store_find, write_at, change_job, job_store_set_state,
  next_current, next_previous, unlink, job_store_remove,
}
use migash.JobStore.Valid.{has_addr, apart, Descending, KeepsNode, IsValid}

find_id-above : (b id : ℕ) (jobs : List Job) → Descending b jobs → b ≤ id → find_id id jobs ≡ none
unfolding find_id
find_id-above b id [] d le = refl
find_id-above b id (job ∷ rest) d le = ground (arith, find_id-above job.job_id id rest)

-- On a valid table `job_store_add` returns the next id, which no job has; that id then finds a
-- running job at the given address, with the given text and background flag, with no process and no
-- process group, and not notified; and every other id finds what it found before.
pub find-add :
    (store : JobStore) (addr : ℕ) (command_line : Text) (is_background : Bool) (id : ℕ)
    → IsValid store
    → let r = job_store_add store addr command_line is_background in
      (r.1 ≡ store.next_job_id)
      × (job_store_find store r.1 ≡ none)
      × (job_store_find r.0 id ≡ (
          if r.1 == id
          then some (record {
            addr = addr;
            job_id = r.1;
            pgid = pos 0;
            processes = [];
            command_line = command_line;
            state = running;
            is_background = is_background;
            is_notified = false;
          })
          else job_store_find store id))
unfolding job_store_find job_store_add job_create
find-add store addr command_line is_background id v = (
  refl,
  find_id-above store.next_job_id store.next_job_id store.jobs v.ordered (omega arith),
  refl,
)

-- What `unlink` leaves, for a search.
abbrev FoundAfter : ℕ → ℕ → List Job → Option (Job × List Job) → Type 0
FoundAfter id j jobs none = find_id id jobs ≡ none
FoundAfter id j jobs (some (curr, rest)) =
    (find_id id jobs ≡ some curr) × (find_id j rest ≡ (if id == j then none else find_id j jobs))

FoundAfter-unlink :
    (b id j : ℕ) (jobs : List Job) → Descending b jobs → FoundAfter id j jobs (unlink id jobs)
unfolding unlink find_id
FoundAfter-unlink b id j [] d = refl
FoundAfter-unlink b id j (job ∷ rest) d =
    go (unlink id rest) (FoundAfter-unlink job.job_id id j rest d.1) (Bool-cases (job.job_id == id))
  where
    go :
        (o : Option (Job × List Job))
        → FoundAfter id j rest o
        → (job.job_id == id ≡ true) ⊎ (job.job_id == id ≡ false)
        → FoundAfter id j (job ∷ rest) (
            if job.job_id == id
            then some (job, rest)
            else elim o [ none ↦ none | some (found, rest') ↦ some (found, job ∷ rest') ])
    go o h (inl e) = rw e (ground arith, ground (arith, find_id-above job.job_id j rest d.1))
    go none h (inr e) = rw e (ground arith)
    go (some (found, rest')) h (inr e) = rw e (ground arith, ground arith)

-- After `job_store_remove` its id finds nothing and every other id finds what it found before; the
-- call returns whether there was such a job.
pub find-remove :
    (store : JobStore) (id j : ℕ)
    → IsValid store
    → (job_store_find (job_store_remove store id).0 j
        ≡ (if id == j then none else job_store_find store j))
      × ((job_store_remove store id).1
          ≡ elim (job_store_find store id) [ none ↦ false | some _ ↦ true ])
unfolding job_store_find job_store_remove
find-remove store id j v =
    go (unlink id store.jobs) (FoundAfter-unlink store.next_job_id id j store.jobs v.ordered)
  where
    go :
        (o : Option (Job × List Job))
        → FoundAfter id j store.jobs o
        → let r : JobStore × Bool = elim o [
          | none ↦ (store, false)
          | some (curr, rest) ↦ (
            record store {
              jobs = rest;
              current_job = next_current curr.addr store.current_job store.previous_job;
              previous_job = next_previous curr.addr store.previous_job;
              job_count = store.job_count - 1;
            },
            true,
          )
        ] in
          (find_id j r.0.jobs ≡ (if id == j then none else find_id j store.jobs))
          × (r.1 ≡ elim (find_id id store.jobs) [ none ↦ false | some _ ↦ true ])
    go none h = elim (Bool-cases (id == j)) [
      | inl e ↦ (rw e (rw ((==_iff id j).0 e) at h), rw h)
      | inr e ↦ (rw e, rw h)
    ]
    go (some (curr, rest)) h = (h.1, rw h.0)

has_addr-find_id :
    (id : ℕ) (jobs : List Job) (job : Job)
    → find_id id jobs ≡ some job
    → has_addr job.addr jobs ≡ true
unfolding find_id
has_addr-find_id id [] job e = cc
has_addr-find_id id (x ∷ xs) job e = ground (arith, has_addr-find_id id xs job)

find_id-id : (id : ℕ) (jobs : List Job) (job : Job) → find_id id jobs ≡ some job → job.job_id ≡ id
unfolding find_id
find_id-id id [] job e = cc
find_id-id id (x ∷ xs) job e = ground (arith, find_id-id id xs job)

-- With no two nodes at one address, the write hits the node that was found and no other.
find_id-write_at :
    (f : Job → Job) (id j : ℕ) (jobs : List Job) (job : Job)
    → KeepsNode f
    → apart jobs ≡ true
    → find_id id jobs ≡ some job
    → find_id j (write_at job.addr f jobs) ≡ (if id == j then some (f job) else find_id j jobs)
unfolding find_id write_at
find_id-write_at f id j [] job k s e = cc
find_id-write_at f id j (x ∷ xs) job k s e = ground (
  arith,
  (k x).1,
  has_addr-find_id id xs job,
  find_id-id id xs job,
  find_id-write_at f id j xs job k,
)

-- A change through `job_store_find` is seen by later searches for that id, and by no others; it
-- returns whether there was such a job.
pub find-change_job :
    (store : JobStore) (id j : ℕ) (f : Job → Job)
    → IsValid store
    → KeepsNode f
    → (job_store_find (change_job store id f).0 j ≡ (
        if id == j
        then elim (job_store_find store id) [ none ↦ none | some job ↦ some (f job) ]
        else job_store_find store j))
      × ((change_job store id f).1
          ≡ elim (job_store_find store id) [ none ↦ false | some _ ↦ true ])
unfolding job_store_find change_job
find-change_job store id j f v k = go (find_id id store.jobs) refl
  where
    go :
        (o : Option Job)
        → find_id id store.jobs ≡ o
        → let r : JobStore × Bool = elim o [
          | none ↦ (store, false)
          | some job ↦ (record store { jobs = write_at job.addr f store.jobs }, true)
        ] in
          (find_id j r.0.jobs ≡ (
            if id == j
            then elim o [ none ↦ none | some job ↦ some (f job) ]
            else find_id j store.jobs))
          × (r.1 ≡ elim o [ none ↦ false | some _ ↦ true ])
    go none e = (ground (arith, e), refl)
    go (some job) e = (find_id-write_at f id j store.jobs job k v.separate e, refl)

-- `job_store_set_state` changes the state of the job with the id and nothing else that a search
-- sees; it returns whether there was such a job.
pub find-set_state :
    (store : JobStore) (id j : ℕ) (st : JobState)
    → IsValid store
    → (job_store_find (job_store_set_state store id st).0 j ≡ (
        if id == j
        then elim (job_store_find store id) [
          | none ↦ none
          | some job ↦ some (record job { state = st })
        ]
        else job_store_find store j))
      × ((job_store_set_state store id st).1
          ≡ elim (job_store_find store id) [ none ↦ false | some _ ↦ true ])
unfolding job_store_set_state
find-set_state store id j st v =
    find-change_job store id j (λ job. record job { state = st }) v (λ job. (refl, refl))
