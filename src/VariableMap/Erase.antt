-- ===== src/VariableMap/Erase.antt =====
-- The deletion's loop ends and mends the walks.
use migash.Prelude.{
  ℕ, zero, suc, ◌<◌, ◌≡◌, refl, sym, ◌∙◌, ◌≢◌, ◌↔◌, Bool, true, false, Option, none, some, arith,
}
use migash.VariableMap.{Entry, Entries, write, find_slot, next, should_move, shift_back}
use migash.VariableMap.Ring.{steps, steps-next, should_move-passes}
use migash.VariableMap.Probe.{IsProbed}
use migash.VariableMap.Count.{used}
use migash.VariableMap.Insert.{Holds}
use migash.VariableMap.Hole.{IsHoled, ended-IsProbed}
use migash.VariableMap.Move.{
  c-ne-z, stays-IsHoled, moved, moves-IsHoled, moved-Holds, moved-used, moved_vacant,
}

pub record IsMended (capacity : ℕ) (t r : Entries) : Type 0 where
  pub probed : IsProbed capacity r
  pub holds : (f : Entry) → Holds capacity r f ↔ Holds capacity t f
  pub counted : used r capacity ≡ used t capacity

-- Behind the empty slot and short of some other vacant slot, the loop ends.
pub shift_back-IsMended :
    (capacity left h c z : ℕ) (t : Entries)
    → IsHoled capacity t h c
    → z < capacity
    → t z ≡ none
    → z ≢ h
    → steps capacity c z < left
    → (r : Entries) × (shift_back capacity left h c t ≡ some r) × IsMended capacity t r
unfolding shift_back
shift_back-IsMended capacity zero h c z t v hz a other s = absurd (omega arith)
shift_back-IsMended capacity (suc left) h c z t v hz a other s =
    go (t c) refl
      (λ e at w.
        shift_back-IsMended capacity left h (next capacity c) z t w hz a other (nearer e at))
      (λ e at w.
        shift_back-IsMended capacity left c (next capacity c) z
          (moved capacity t h c z v hz a other e at) w hz
          (moved_vacant capacity t h c z v hz a other e at)
          (λ same. c-ne-z capacity t h c z v hz a other e at (sym same)) (nearer e at))
  where
    nearer : (e : Entry) → t c ≡ some e → steps capacity (next capacity c) z < left
    nearer e at =
        omega (
          arith,
          s,
          steps-next capacity c z v.within hz (c-ne-z capacity t h c z v hz a other e at),
        )

    Result : Option Entries → Type 0
    Result o = (r : Entries) × (o ≡ some r) × IsMended capacity t r

    go :
        (o : Option Entry)
        → t c ≡ o
        → ((e : Entry)
            → t c ≡ some e
            → IsHoled capacity t h (next capacity c)
            → Result (shift_back capacity left h (next capacity c) t))
        → ((e : Entry) (at : t c ≡ some e)
            → IsHoled capacity (moved capacity t h c z v hz a other e at) c (next capacity c)
            → (r : Entries) × (shift_back capacity left c
                  (next capacity c)
                  (moved capacity t h c z v hz a other e at)
                ≡ some r)
              × IsMended capacity (moved capacity t h c z v hz a other e at) r)
        → Result (elim o [
          | none ↦ some t
          | some e ↦ elim (should_move h c (find_slot e.key capacity)) [
            | true ↦
                shift_back capacity left c (next capacity c) (write (write t h (some e)) c none)
            | false ↦ shift_back capacity left h (next capacity c) t
          ]
        ])
    go none at stay move = (
      t,
      refl,
      record {
        probed = ended-IsProbed capacity t h c v at;
        holds = λ f. (λ x. x, λ x. x);
        counted = refl;
      },
    )
    go (some e) at stay move = turn (should_move h c (find_slot e.key capacity)) refl
      where
        turn :
            (b : Bool)
            → should_move h c (find_slot e.key capacity) ≡ b
            → Result (elim b [
              | true ↦
                  shift_back capacity left c (next capacity c) (write (write t h (some e)) c none)
              | false ↦ shift_back capacity left h (next capacity c) t
            ])
        turn false m = stay e at (
            stays-IsHoled capacity t h c z v hz a other e at
              (sym (should_move-passes h c (find_slot e.key capacity) v.apart) ∙ m))
        turn true m =
            let (r, run, w) = move e at (
              moves-IsHoled capacity t h c z v hz a other e at
                (sym (should_move-passes h c (find_slot e.key capacity) v.apart) ∙ m)) in
            let same = moved-Holds capacity t h c z v hz a other e at in
            (
              r,
              run,
              record {
                probed = w.probed;
                holds = λ f. (λ x. (same f).0 ((w.holds f).0 x), λ x. (w.holds f).1 ((same f).1 x));
                counted = w.counted ∙ moved-used capacity t h c z v hz a other e at;
              },
            )
