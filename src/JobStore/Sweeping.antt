-- ===== src/JobStore/Sweeping.antt =====
-- The removals of the job table: what they leave, and that no pointer to a freed node stays.
use migash.Prelude.{
  ℕ, suc, ◌+◌, ◌-◌, ◌≡◌, refl, sym, ap, ◌∙◌, Bool, true, false, ◌&&◌, ◌||◌, List, [], ◌∷◌, Option,
  none, some, arith, if◌then◌else◌, length, ◌==◌, inl, inr, Bool-cases,
}
use migash.Job.{Job, job_is_completed}
use migash.JobStore.{
  JobStore, next_current, next_previous, unlink, job_store_remove, sweep,
  job_store_remove_completed,
}
use migash.JobStore.Valid.{has_addr, apart, Descending, Descending-weaken, points_into, IsValid}

-- The jobs that `job_store_remove_completed` is to keep.
abbrev pub is_due : Job → Bool
is_due job = job_is_completed job && job.is_notified

abbrev pub keep : (Job → Bool) → List Job → List Job
keep drop [] = []
keep drop (job ∷ rest) = if drop job then keep drop rest else job ∷ keep drop rest

abbrev pub count : (Job → Bool) → List Job → ℕ
count p [] = 0
count p (job ∷ rest) = if p job then suc (count p rest) else count p rest

sweep-kept : (jobs : List Job) (c p : Option ℕ) → (sweep jobs c p).kept ≡ keep is_due jobs
unfolding sweep
sweep-kept [] c p = refl
sweep-kept (job ∷ rest) c p = ground (
  arith,
  sweep-kept rest c p,
  sweep-kept rest (next_current job.addr c p) (next_previous job.addr p),
)

sweep-removed : (jobs : List Job) (c p : Option ℕ) → (sweep jobs c p).removed ≡ count is_due jobs
unfolding sweep
sweep-removed [] c p = refl
sweep-removed (job ∷ rest) c p = ground (
  arith,
  sweep-removed rest c p,
  sweep-removed rest (next_current job.addr c p) (next_previous job.addr p),
)

length-keep : (d : Job → Bool) (jobs : List Job) → length (keep d jobs) + count d jobs ≡ length jobs
length-keep d [] = omega arith
length-keep d (job ∷ rest) = ground (arith, length-keep d rest)

has_addr-keep :
    (d : Job → Bool) (a : ℕ) (jobs : List Job)
    → has_addr a jobs ≡ false
    → has_addr a (keep d jobs) ≡ false
has_addr-keep d a [] h = refl
has_addr-keep d a (job ∷ rest) h = ground (arith, has_addr-keep d a rest)

apart-keep : (d : Job → Bool) (jobs : List Job) → apart jobs ≡ true → apart (keep d jobs) ≡ true
apart-keep d [] h = refl
apart-keep d (job ∷ rest) h = ground (arith, apart-keep d rest, has_addr-keep d job.addr rest)

Descending-keep :
    (d : Job → Bool) (b : ℕ) (jobs : List Job) → Descending b jobs → Descending b (keep d jobs)
Descending-keep d b [] h = tt
Descending-keep d b (job ∷ rest) h = elim (Bool-cases (d job)) [
  | inl e ↦ rw e (Descending-keep d b rest (Descending-weaken job.job_id b rest (omega arith) h.1))
  | inr e ↦ rw e (h.0, Descending-keep d job.job_id rest h.1)
]

-- A pointer into the nodes that are passed already, which `q` knows, or into those still to come.
abbrev lives : (ℕ → Bool) → Option ℕ → List Job → Bool
lives q none jobs = true
lives q (some a) jobs = q a || has_addr a jobs

lives-gone :
    (q : ℕ → Bool) (c p : Option ℕ) (job : Job) (rest : List Job)
    → lives q c (job ∷ rest) ≡ true
    → lives q p (job ∷ rest) ≡ true
    → (lives q (next_current job.addr c p) rest ≡ true)
      × (lives q (next_previous job.addr p) rest ≡ true)
unfolding next_current next_previous
lives-gone q none none job rest hc hp = ground arith
lives-gone q none (some b) job rest hc hp = ground arith
lives-gone q (some a) none job rest hc hp = ground arith
lives-gone q (some a) (some b) job rest hc hp = ground arith

-- The predicate of a node that the loop keeps and passes.
abbrev passed : (ℕ → Bool) → Job → ℕ → Bool
passed q job a = q a || job.addr == a

lives-passed :
    (q : ℕ → Bool) (o : Option ℕ) (job : Job) (rest : List Job)
    → lives (passed q job) o rest ≡ lives q o (job ∷ rest)
lives-passed q none job rest = refl
lives-passed q (some a) job rest = ground arith

sweep-lives :
    (q : ℕ → Bool) (jobs : List Job) (c p : Option ℕ)
    → lives q c jobs ≡ true
    → lives q p jobs ≡ true
    → (lives q (sweep jobs c p).current (sweep jobs c p).kept ≡ true)
      × (lives q (sweep jobs c p).previous (sweep jobs c p).kept ≡ true)
unfolding sweep
sweep-lives q [] c p hc hp = (hc, hp)
sweep-lives q (job ∷ rest) c p hc hp = elim (Bool-cases (is_due job)) [
  | inl e ↦ rw e (
      let l = lives-gone q c p job rest hc hp in
      sweep-lives q rest (next_current job.addr c p) (next_previous job.addr p) l.0 l.1)
  | inr e ↦ rw e (
      let r = sweep rest c p in
      let ih =
        sweep-lives (passed q job) rest c p (lives-passed q c job rest ∙ hc)
          (lives-passed q p job rest ∙ hp) in
      (
        sym (lives-passed q r.current job r.kept) ∙ ih.0,
        sym (lives-passed q r.previous job r.kept) ∙ ih.1,
      ))
]

lives-points_into :
    (o : Option ℕ) (jobs : List Job) → lives (λ _. false) o jobs ≡ points_into o jobs
lives-points_into none jobs = refl
lives-points_into (some a) jobs = refl

pub job_store_remove_completed-IsValid :
    (store : JobStore) → IsValid store → IsValid (job_store_remove_completed store).0
unfolding job_store_remove_completed
job_store_remove_completed-IsValid store v =
    let jobs = store.jobs in
    let c = store.current_job in
    let p = store.previous_job in
    let live =
      sweep-lives (λ _. false) jobs c p (lives-points_into c jobs ∙ v.current)
        (lives-points_into p jobs ∙ v.previous) in
    let r = sweep jobs c p in
    record {
      counted = omega (
        arith,
        v.counted,
        ap length (sweep-kept jobs c p),
        sweep-removed jobs c p,
        length-keep is_due jobs,
      );
      ordered = rw sweep-kept (Descending-keep is_due store.next_job_id jobs v.ordered);
      separate = rw sweep-kept (apart-keep is_due jobs v.separate);
      current = sym (lives-points_into r.current r.kept) ∙ live.0;
      previous = sym (lives-points_into r.previous r.kept) ∙ live.1;
    }

-- `job_store_remove_completed` removes exactly the jobs that are completed and of which the user was
-- notified, while a completed job that is not marked as notified stays; it keeps the order of the
-- others and returns how many it removed.
pub job_store_remove_completed_lem :
    (store : JobStore)
    → ((job_store_remove_completed store).0.jobs ≡ keep is_due store.jobs)
      × ((job_store_remove_completed store).1 ≡ count is_due store.jobs)
unfolding job_store_remove_completed
job_store_remove_completed_lem store = (sweep-kept store.jobs _ _, sweep-removed store.jobs _ _)

-- What it means that `rest` is `jobs` without the node `curr`.
record Unlinked (jobs : List Job) (curr : Job) (rest : List Job) : Type 0 where
  one_less : length jobs ≡ suc (length rest)
  ordered : (b : ℕ) → Descending b jobs → Descending b rest
  addrs : (a : ℕ) → has_addr a jobs ≡ (curr.addr == a || has_addr a rest)
  separate : apart jobs ≡ true → apart rest ≡ true

abbrev UnlinkedIfSome : List Job → Option (Job × List Job) → Type 0
UnlinkedIfSome jobs none = Unit
UnlinkedIfSome jobs (some (curr, rest)) = Unlinked jobs curr rest

Unlinked-cons :
    (job curr : Job) (jobs rest : List Job)
    → Unlinked jobs curr rest
    → Unlinked (job ∷ jobs) curr (job ∷ rest)
Unlinked-cons job curr jobs rest u = record {
  one_less = omega (arith, u.one_less);
  ordered = λ b d. (d.0, u.ordered job.job_id d.1);
  addrs = λ a. ground (arith, u.addrs a);
  separate = λ h. ground (arith, u.addrs job.addr, u.separate);
}

unlink-Unlinked : (job_id : ℕ) (jobs : List Job) → UnlinkedIfSome jobs (unlink job_id jobs)
unfolding unlink
unlink-Unlinked job_id [] = tt
unlink-Unlinked job_id (job ∷ rest) =
    go (job.job_id == job_id) (unlink job_id rest) (unlink-Unlinked job_id rest)
  where
    go :
        (b : Bool) (o : Option (Job × List Job))
        → UnlinkedIfSome rest o
        → UnlinkedIfSome (job ∷ rest) (
            if b
            then some (job, rest)
            else elim o [ none ↦ none | some (found, rest') ↦ some (found, job ∷ rest') ])
    go true o h = record {
      one_less = refl;
      ordered = λ b d. Descending-weaken job.job_id b rest (omega arith) d.1;
      addrs = λ a. refl;
      separate = λ s. ground arith;
    }
    go false none h = tt
    go false (some (found, rest')) h = Unlinked-cons job found rest rest' h

points-unlinked :
    (c p : Option ℕ) (curr : Job) (jobs rest : List Job)
    → ((a : ℕ) → has_addr a jobs ≡ (curr.addr == a || has_addr a rest))
    → points_into c jobs ≡ true
    → points_into p jobs ≡ true
    → (points_into (next_current curr.addr c p) rest ≡ true)
      × (points_into (next_previous curr.addr p) rest ≡ true)
unfolding next_current next_previous
points-unlinked none none curr jobs rest u hc hp = ground arith
points-unlinked none (some b) curr jobs rest u hc hp = ground (arith, u b)
points-unlinked (some a) none curr jobs rest u hc hp = ground (arith, u a)
points-unlinked (some a) (some b) curr jobs rest u hc hp = ground (arith, u a, u b)

pub job_store_remove-IsValid :
    (store : JobStore) (job_id : ℕ) → IsValid store → IsValid (job_store_remove store job_id).0
unfolding job_store_remove
job_store_remove-IsValid store job_id v =
    go (unlink job_id store.jobs) (unlink-Unlinked job_id store.jobs)
  where
    go :
        (o : Option (Job × List Job))
        → UnlinkedIfSome store.jobs o
        → let r : JobStore × Bool = elim o [
          | none ↦ (store, false)
          | some (curr, rest) ↦ (
            record store {
              jobs = rest;
              current_job = next_current curr.addr store.current_job store.previous_job;
              previous_job = next_previous curr.addr store.previous_job;
              job_count = store.job_count - 1;
            },
            true,
          )
        ] in
          IsValid r.0
    go none h = v
    go (some (curr, rest)) h =
        let ptrs =
          points-unlinked store.current_job store.previous_job curr store.jobs rest h.addrs
            v.current v.previous in
        record {
          counted = omega (arith, v.counted, h.one_less);
          ordered = h.ordered store.next_job_id v.ordered;
          separate = h.separate v.separate;
          current = ptrs.0;
          previous = ptrs.1;
        }
