-- ===== src/JobStore/Valid.antt =====
-- The well-formedness of the job table, and that the operations which free no node keep it.
use migash.Prelude.{
  Text, ℕ, ◌≤◌, ◌<◌, ◌≡◌, refl, Bool, true, false, ◌&&◌, ◌||◌, not, List, [], ◌∷◌, Option, none,
  some, arith, length, ◌==◌, inl, inr, Bool-cases,
}
use migash.Prelude.Int.{ℤ}
use migash.Job.{JobState, Process, Job, job_create, job_update_state, job_is_completed}
use migash.JobStore.{
  JobStore, job_store_create, job_store_add, job_store_find, write_at, change_job,
  job_store_add_process, job_store_set_state, job_store_mark_notified, set_process, set_in_jobs,
  job_store_set_process_state, print_completed, job_store_print_completed_jobs,
}

abbrev pub has_addr : ℕ → List Job → Bool
has_addr a [] = false
has_addr a (job ∷ rest) = job.addr == a || has_addr a rest

-- No two nodes stand at one address.
abbrev pub apart : List Job → Bool
apart [] = true
apart (job ∷ rest) = not (has_addr job.addr rest) && apart rest

-- Job ids fall along the list, from below `bound`: newest first, and no id twice.
abbrev pub Descending : ℕ → List Job → Type 0
Descending bound [] = Unit
Descending bound (job ∷ rest) = (job.job_id < bound) × Descending job.job_id rest

-- A pointer is NULL or the address of a live node.
abbrev pub points_into : Option ℕ → List Job → Bool
points_into none jobs = true
points_into (some a) jobs = has_addr a jobs

pub record IsValid (store : JobStore) : Type 0 where
  pub counted : length store.jobs ≡ store.job_count
  pub ordered : Descending store.next_job_id store.jobs
  pub separate : apart store.jobs ≡ true
  pub current : points_into store.current_job store.jobs ≡ true
  pub previous : points_into store.previous_job store.jobs ≡ true

pub Descending-weaken : (b c : ℕ) (jobs : List Job) → b ≤ c → Descending b jobs → Descending c jobs
Descending-weaken b c [] le h = tt
Descending-weaken b c (job ∷ rest) le h = (omega arith, h.1)

pub job_store_create-IsValid : IsValid job_store_create
unfolding job_store_create
job_store_create-IsValid = ground arith

points_into-cons :
    (p : Option ℕ) (job : Job) (rest : List Job)
    → points_into p rest ≡ true
    → points_into p (job ∷ rest) ≡ true
points_into-cons none job rest h = refl
points_into-cons (some a) job rest h = ground arith

pub job_store_add-IsValid :
    (store : JobStore) (addr : ℕ) (command_line : Text) (is_background : Bool)
    → IsValid store
    → has_addr addr store.jobs ≡ false
    → IsValid (job_store_add store addr command_line is_background).0
unfolding job_store_add job_create
job_store_add-IsValid store addr command_line true v fresh = record {
  counted = omega (arith, v.counted);
  ordered = (omega arith, v.ordered);
  separate = ground arith;
  current = ground arith;
  previous = points_into-cons store.current_job _ store.jobs v.current;
}
job_store_add-IsValid store addr command_line false v fresh = record {
  counted = omega (arith, v.counted);
  ordered = (omega arith, v.ordered);
  separate = ground arith;
  current = points_into-cons store.current_job _ store.jobs v.current;
  previous = points_into-cons store.previous_job _ store.jobs v.previous;
}

-- Two lists with the same nodes: node by node the same address and the same id.
abbrev pub SameNodes : List Job → List Job → Type 0
SameNodes [] [] = Unit
SameNodes (x ∷ xs) (y ∷ ys) = (x.addr ≡ y.addr) × (x.job_id ≡ y.job_id) × SameNodes xs ys
SameNodes _ _ = ⊥

SameNodes-refl : (xs : List Job) → SameNodes xs xs
SameNodes-refl [] = tt
SameNodes-refl (x ∷ xs) = (refl, refl, SameNodes-refl xs)

SameNodes-length : (xs ys : List Job) → SameNodes xs ys → length xs ≡ length ys
SameNodes-length [] [] h = refl
SameNodes-length [] (y ∷ ys) h = absurd h
SameNodes-length (x ∷ xs) [] h = absurd h
SameNodes-length (x ∷ xs) (y ∷ ys) h = omega (arith, SameNodes-length xs ys h.2)

SameNodes-has_addr : (a : ℕ) (xs ys : List Job) → SameNodes xs ys → has_addr a xs ≡ has_addr a ys
SameNodes-has_addr a [] [] h = refl
SameNodes-has_addr a [] (y ∷ ys) h = absurd h
SameNodes-has_addr a (x ∷ xs) [] h = absurd h
SameNodes-has_addr a (x ∷ xs) (y ∷ ys) h = rw (h.0, SameNodes-has_addr a xs ys h.2)

SameNodes-points_into :
    (p : Option ℕ) (xs ys : List Job) → SameNodes xs ys → points_into p xs ≡ points_into p ys
SameNodes-points_into none xs ys h = refl
SameNodes-points_into (some a) xs ys h = SameNodes-has_addr a xs ys h

SameNodes-apart : (xs ys : List Job) → SameNodes xs ys → apart xs ≡ apart ys
SameNodes-apart [] [] h = refl
SameNodes-apart [] (y ∷ ys) h = absurd h
SameNodes-apart (x ∷ xs) [] h = absurd h
SameNodes-apart (x ∷ xs) (y ∷ ys) h =
    rw (h.0, SameNodes-has_addr y.addr xs ys h.2, SameNodes-apart xs ys h.2)

SameNodes-Descending :
    (b : ℕ) (xs ys : List Job) → SameNodes xs ys → Descending b xs → Descending b ys
SameNodes-Descending b [] [] h d = tt
SameNodes-Descending b [] (y ∷ ys) h d = absurd h
SameNodes-Descending b (x ∷ xs) [] h d = absurd h
SameNodes-Descending b (x ∷ xs) (y ∷ ys) h d =
    (omega arith, rw h.1 at (SameNodes-Descending x.job_id xs ys h.2 d.1))

-- An operation that keeps the nodes and the pointers keeps the store valid.
SameNodes-IsValid :
    (store : JobStore) (jobs' : List Job)
    → SameNodes store.jobs jobs'
    → IsValid store
    → IsValid (record store { jobs = jobs' })
SameNodes-IsValid store jobs' h v = record {
  counted = omega (arith, v.counted, SameNodes-length store.jobs jobs' h);
  ordered = SameNodes-Descending store.next_job_id store.jobs jobs' h v.ordered;
  separate = rw (SameNodes-apart store.jobs jobs' h) at v.separate;
  current = rw (SameNodes-points_into store.current_job store.jobs jobs' h) at v.current;
  previous = rw (SameNodes-points_into store.previous_job store.jobs jobs' h) at v.previous;
}

-- A write that leaves address and id of a node alone.
abbrev pub KeepsNode : (Job → Job) → Type 0
KeepsNode f = (job : Job) → (job.addr ≡ (f job).addr) × (job.job_id ≡ (f job).job_id)

write_at-SameNodes :
    (a : ℕ) (f : Job → Job) (jobs : List Job) → KeepsNode f → SameNodes jobs (write_at a f jobs)
unfolding write_at
write_at-SameNodes a f [] k = tt
write_at-SameNodes a f (job ∷ rest) k = elim (Bool-cases (job.addr == a)) [
  | inl e ↦ rw e ((k job).0, (k job).1, SameNodes-refl rest)
  | inr e ↦ rw e (refl, refl, write_at-SameNodes a f rest k)
]

pub change_job-IsValid :
    (store : JobStore) (job_id : ℕ) (f : Job → Job)
    → KeepsNode f
    → IsValid store
    → IsValid (change_job store job_id f).0
unfolding change_job
change_job-IsValid store job_id f k v = go (job_store_find store job_id)
  where
    go :
        (o : Option Job)
        → let r : JobStore × Bool = elim o [
          | none ↦ (store, false)
          | some job ↦ (record store { jobs = write_at job.addr f store.jobs }, true)
        ] in
          IsValid r.0
    go none = v
    go (some job) = SameNodes-IsValid store _ (write_at-SameNodes job.addr f store.jobs k) v

-- Where the search for the process succeeds it leaves the same nodes.
abbrev SameIfSome : List Job → Option (List Job) → Type 0
SameIfSome jobs none = Unit
SameIfSome jobs (some jobs') = SameNodes jobs jobs'

set_in_jobs-SameNodes :
    (pid : ℤ) (st : JobState) (code : ℤ) (jobs : List Job)
    → SameIfSome jobs (set_in_jobs pid st code jobs)
unfolding set_in_jobs
set_in_jobs-SameNodes pid st code [] = tt
set_in_jobs-SameNodes pid st code (job ∷ rest) =
    go (set_process pid st code job.processes) (set_in_jobs pid st code rest)
      (set_in_jobs-SameNodes pid st code rest)
  where
    go :
        (here : Option (List Process)) (later : Option (List Job))
        → SameIfSome rest later
        → SameIfSome (job ∷ rest) (elim here [
          | some ps ↦ some (job_update_state (record job { processes = ps }) ∷ rest)
          | none ↦ elim later [ none ↦ none | some rest' ↦ some (job ∷ rest') ]
        ])
    go (some ps) later h = (refl, refl, SameNodes-refl rest)
    go none none h = tt
    go none (some rest') h = (refl, refl, h)

pub job_store_set_process_state-IsValid :
    (store : JobStore) (pid : ℤ) (st : JobState) (code : ℤ)
    → IsValid store
    → IsValid (job_store_set_process_state store pid st code).0
unfolding job_store_set_process_state
job_store_set_process_state-IsValid store pid st code v =
    go (set_in_jobs pid st code store.jobs) (set_in_jobs-SameNodes pid st code store.jobs)
  where
    go :
        (o : Option (List Job))
        → SameIfSome store.jobs o
        → let r : JobStore × Bool = elim o [
          | none ↦ (store, false)
          | some jobs' ↦ (record store { jobs = jobs' }, true)
        ] in
          IsValid r.0
    go none h = v
    go (some jobs') h = SameNodes-IsValid store jobs' h v

print_completed-SameNodes : (jobs : List Job) → SameNodes jobs (print_completed jobs).0
unfolding print_completed
print_completed-SameNodes [] = tt
print_completed-SameNodes (job ∷ rest) =
    elim (Bool-cases (job_is_completed job && not job.is_notified)) [
      | inl e ↦ rw e (refl, refl, print_completed-SameNodes rest)
      | inr e ↦ rw e (refl, refl, print_completed-SameNodes rest)
    ]

pub job_store_print_completed_jobs-IsValid :
    (store : JobStore) → IsValid store → IsValid (job_store_print_completed_jobs store).0
unfolding job_store_print_completed_jobs
job_store_print_completed_jobs-IsValid store v =
    SameNodes-IsValid store _ (print_completed-SameNodes store.jobs) v

pub job_store_add_process-IsValid :
    (store : JobStore) (job_id : ℕ) (pid : ℤ) (command : Text)
    → IsValid store
    → IsValid (job_store_add_process store job_id pid command).0
unfolding job_store_add_process
job_store_add_process-IsValid store job_id pid command v =
    change_job-IsValid store job_id _ (λ job. (refl, refl)) v

pub job_store_set_state-IsValid :
    (store : JobStore) (job_id : ℕ) (st : JobState)
    → IsValid store
    → IsValid (job_store_set_state store job_id st).0
unfolding job_store_set_state
job_store_set_state-IsValid store job_id st v =
    change_job-IsValid store job_id _ (λ job. (refl, refl)) v

pub job_store_mark_notified-IsValid :
    (store : JobStore) (job_id : ℕ)
    → IsValid store
    → IsValid (job_store_mark_notified store job_id).0
unfolding job_store_mark_notified
job_store_mark_notified-IsValid store job_id v =
    change_job-IsValid store job_id _ (λ job. (refl, refl)) v
