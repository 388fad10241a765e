-- ===== src/VariableMap/Probe.antt =====
-- What the probe loop finds in a table whose walks are unbroken.
use native.Mathlib.Nat.{mod-lt}
use migash.Prelude.{
  ℕ, zero, suc, ◌<◌, ◌≡◌, refl, sym, ap, ◌∙◌, ◌≢◌, inl, inr, Bool, true, false, ◌||◌, not, Option,
  none, some, arith, if◌then◌else◌, ◌==◌, ==_iff, Bool-cases, Text, string_eq, string_eq_iff,
}
use mathlib.Core.Path.{subst}
use migash.VariableMap.{Entry, Entries, occupied, find_slot, next, probe, free_from}
use migash.VariableMap.Ring.{passes, steps, next-lt, passes-next, steps-next, next-ne_home}

pub find_slot-lt : (key : Text) (capacity : ℕ) → 0 < capacity → find_slot key capacity < capacity
unfolding find_slot
find_slot-lt key capacity h = mod-lt _ h

-- No walk from an entry's home slot to the entry passes a vacant slot, and no key stands twice.
pub record IsProbed (capacity : ℕ) (t : Entries) : Type 0 where
  pub path :
      (p q : ℕ) (e : Entry)
      → p < capacity
      → q < capacity
      → t p ≡ some e
      → passes (find_slot e.key capacity) p q ≡ true
      → occupied (t q) ≡ true
  pub unique :
      (p q : ℕ) (e f : Entry)
      → p < capacity
      → q < capacity
      → t p ≡ some e
      → t q ≡ some f
      → e.key ≡ f.key
      → p ≡ q

-- The slot holds another key.
abbrev pub differs : Text → Option Entry → Bool
differs key none = false
differs key (some e) = not (string_eq e.key key)

pub record IsTaken (capacity : ℕ) (t : Entries) (key : Text) (p : ℕ) : Type 0 where
  pub entry : Entry
  pub within : p < capacity
  pub at : t p ≡ some entry
  pub same : entry.key ≡ key

pub record IsFree (capacity : ℕ) (t : Entries) (key : Text) (p : ℕ) : Type 0 where
  pub within : p < capacity
  pub at : t p ≡ none
  pub walked :
      (q : ℕ) → q < capacity → passes (find_slot key capacity) p q ≡ true → differs key (t q) ≡ true

abbrev pub Found : ℕ → Entries → Text → Option (ℕ × Bool) → Type 0
Found capacity t key none = ⊥
Found capacity t key (some (p, true)) = IsTaken capacity t key p
Found capacity t key (some (p, false)) = IsFree capacity t key p

probe-Found :
    (capacity : ℕ) (t : Entries) (key : Text) (left p z : ℕ)
    → p < capacity
    → z < capacity
    → t z ≡ none
    → passes (find_slot key capacity) p z ≡ false
    → ((q : ℕ)
        → q < capacity
        → passes (find_slot key capacity) p q ≡ true
        → differs key (t q) ≡ true)
    → steps capacity p z < left
    → Found capacity t key (probe t capacity key left p)
unfolding probe
probe-Found capacity t key zero p z hp hz v away w h = absurd (omega arith)
probe-Found capacity t key (suc left) p z hp hz v away w h = go (t p) refl (λ d ne.
    probe-Found capacity t key left (next capacity p) z (next-lt capacity p hp) hz v
      (on z hz ne ∙ rw away (ground (arith, ne)))
      (λ q hq k. elim (Bool-cases (passes home p q)) [
        | inl e ↦ w q hq e
        | inr e ↦
            let end : (q == p) ≡ true = sym (ap (λ b. b || q == p) e) ∙ sym (on q hq ne) ∙ k in
            subst (λ x. differs key (t x) ≡ true) (sym ((==_iff q p).0 end)) d
      ])
      (omega (arith, steps-next capacity p z hp hz ne)))
  where
    home : ℕ
    home = find_slot key capacity

    on :
        (q : ℕ)
        → q < capacity
        → p ≢ z
        → passes home (next capacity p) q ≡ (passes home p q || q == p)
    on q hq ne =
        passes-next capacity home p q hp hq (find_slot-lt key capacity (omega (arith, hp))) (
          next-ne_home capacity home p z hp hz (find_slot-lt key capacity (omega (arith, hp))) away
            ne)

    go :
        (o : Option Entry)
        → t p ≡ o
        → (differs key (t p) ≡ true
            → p ≢ z
            → Found capacity t key (probe t capacity key left (next capacity p)))
        → Found capacity t key (elim o [
          | none ↦ some (p, false)
          | some entry ↦
              if string_eq entry.key key
              then some (p, true)
              else probe t capacity key left (next capacity p)
        ])
    go none e later = record { within = hp; at = e; walked = w }
    go (some entry) e later = hit (string_eq entry.key key) refl
      where
        hit :
            (b : Bool)
            → string_eq entry.key key ≡ b
            → Found capacity t key
                (if b then some (p, true) else probe t capacity key left (next capacity p))
        hit true same = record {
          entry = entry;
          within = hp;
          at = e;
          same = (string_eq_iff entry.key key).0 same;
        }
        hit false other = later (ap (differs key) e ∙ rw other refl) (λ same. cc (e, v, ap t same))

pub steps-lt : (capacity p z : ℕ) → p < capacity → z < capacity → steps capacity p z < capacity
steps-lt capacity p z hp hz = ground arith

-- From the key's home slot on, a table with a vacant slot gives an answer.
pub probe-home :
    (capacity : ℕ) (t : Entries) (key : Text) (z : ℕ)
    → z < capacity
    → t z ≡ none
    → Found capacity t key (probe t capacity key capacity (find_slot key capacity))
probe-home capacity t key z hz v =
    let home = find_slot-lt key capacity (omega (arith, hz)) in
    probe-Found capacity t key capacity (find_slot key capacity) z home hz v (ground arith)
      (λ q hq k. cc (k, start q)) (steps-lt capacity (find_slot key capacity) z home hz)
  where
    start : (q : ℕ) → passes (find_slot key capacity) (find_slot key capacity) q ≡ false
    start q = ground arith

-- The loop over occupied slots ends at a vacant one, all before it being occupied.
pub record IsOpen (capacity : ℕ) (t : Entries) (home p : ℕ) : Type 0 where
  pub within : p < capacity
  pub at : t p ≡ none
  pub walked : (q : ℕ) → q < capacity → passes home p q ≡ true → occupied (t q) ≡ true

differs-occupied : (key : Text) (o : Option Entry) → differs key o ≡ true → occupied o ≡ true
differs-occupied key none h = h
differs-occupied key (some e) h = refl

pub IsFree-IsOpen :
    (capacity : ℕ) (t : Entries) (key : Text) (p : ℕ)
    → IsFree capacity t key p
    → IsOpen capacity t (find_slot key capacity) p
IsFree-IsOpen capacity t key p f = record {
  within = f.within;
  at = f.at;
  walked = λ q hq k. differs-occupied key (t q) (f.walked q hq k);
}

abbrev pub Opened : ℕ → Entries → ℕ → Option ℕ → Type 0
Opened capacity t home none = ⊥
Opened capacity t home (some p) = IsOpen capacity t home p

free_from-Opened :
    (capacity : ℕ) (t : Entries) (home left p z : ℕ)
    → home < capacity
    → p < capacity
    → z < capacity
    → t z ≡ none
    → passes home p z ≡ false
    → ((q : ℕ) → q < capacity → passes home p q ≡ true → occupied (t q) ≡ true)
    → steps capacity p z < left
    → Opened capacity t home (free_from t capacity left p)
unfolding free_from
free_from-Opened capacity t home zero p z hh hp hz v away w h = absurd (omega arith)
free_from-Opened capacity t home (suc left) p z hh hp hz v away w h = go (t p) refl (λ d ne.
    free_from-Opened capacity t home left (next capacity p) z hh (next-lt capacity p hp) hz v
      (on z hz ne ∙ rw away (ground (arith, ne)))
      (λ q hq k. elim (Bool-cases (passes home p q)) [
        | inl e ↦ w q hq e
        | inr e ↦
            let end : (q == p) ≡ true = sym (ap (λ b. b || q == p) e) ∙ sym (on q hq ne) ∙ k in
            subst (λ x. occupied (t x) ≡ true) (sym ((==_iff q p).0 end)) d
      ])
      (omega (arith, steps-next capacity p z hp hz ne)))
  where
    on :
        (q : ℕ)
        → q < capacity
        → p ≢ z
        → passes home (next capacity p) q ≡ (passes home p q || q == p)
    on q hq ne =
        passes-next capacity home p q hp hq hh (next-ne_home capacity home p z hp hz hh away ne)

    go :
        (o : Option Entry)
        → t p ≡ o
        → (occupied (t p) ≡ true
            → p ≢ z
            → Opened capacity t home (free_from t capacity left (next capacity p)))
        → Opened capacity t home
            (elim o [ none ↦ some p | some _ ↦ free_from t capacity left (next capacity p) ])
    go none e later = record { within = hp; at = e; walked = w }
    go (some entry) e later = later (ap occupied e) (λ same. cc (e, v, ap t same))

pub free_from-home :
    (capacity : ℕ) (t : Entries) (home z : ℕ)
    → home < capacity
    → z < capacity
    → t z ≡ none
    → Opened capacity t home (free_from t capacity capacity home)
free_from-home capacity t home z hh hz v =
    free_from-Opened capacity t home capacity home z hh hh hz v (ground arith)
      (λ q hq k. cc (k, start q)) (steps-lt capacity home z hh hz)
  where
    start : (q : ℕ) → passes home home q ≡ false
    start q = ground arith
