-- ===== src/VariableMap/Move.antt =====
-- One turn of the deletion's loop: the entry stays, or fills the hole.
use mathlib.Core.Path.{subst}
use migash.Prelude.{
  ℕ, ◌<◌, ◌≡◌, sym, ap, ◌∙◌, ◌≢◌, ◌⊎◌, inl, inr, ◌↔◌, true, false, none, some, arith, ◌==◌, ◌||◌,
  ==_iff, Bool-cases,
}
use migash.VariableMap.{Entry, Entries, occupied, write, find_slot, next}
use migash.VariableMap.Ring.{
  passes, next-lt, passes-next, next-ne_home, passes-start, passes-part, next-ne, next-ne_hole,
}
use migash.VariableMap.Count.{bit, used, used-write, write_self, write-ne}
use migash.VariableMap.Insert.{Holds, some-eq}
use migash.VariableMap.Hole.{IsHoled}

module _ (capacity : ℕ) (t : Entries) (h c z : ℕ) (v : IsHoled capacity t h c) (hz : z < capacity)
    (vacant_z : t z ≡ none) (other : z ≢ h) (e : Entry) (at_c : t c ≡ some e) where
  -- The vacant slot `z` lies ahead.
  ahead : passes (next capacity h) c z ≡ false
  ahead = elim (Bool-cases (passes (next capacity h) c z)) [
    | inl k ↦ absurd (cc (v.full z hz k, ap occupied vacant_z))
    | inr k ↦ k
  ]

  pub c-ne-z : c ≢ z
  c-ne-z same = cc (at_c, vacant_z, ap t same)

  on :
      (q : ℕ)
      → q < capacity
      → passes (next capacity h) (next capacity c) q ≡ (passes (next capacity h) c q || q == c)
  on q hq =
      passes-next capacity (next capacity h) c q v.within hq (next-lt capacity h v.hole_within) (
        next-ne_home capacity (next capacity h) c z v.within hz (next-lt capacity h v.hole_within)
          ahead c-ne-z)

  at_end :
      (q : ℕ)
      → q < capacity
      → passes (next capacity h) (next capacity c) q ≡ true
      → passes (next capacity h) c q ≡ false
      → q ≡ c
  at_end q hq k outside = (==_iff q c).0 (sym (ap (λ b. b || q == c) outside) ∙ sym (on q hq) ∙ k)

  -- The entry at `c` stays.
  pub stays-IsHoled :
      passes (find_slot e.key capacity) c h ≡ false → IsHoled capacity t h (next capacity c)
  stays-IsHoled stay = record {
    hole_within = v.hole_within;
    within = next-lt capacity c v.within;
    apart = next-ne_hole capacity h c z v.hole_within v.within hz other c-ne-z ahead v.apart;
    hole = v.hole;
    path = v.path;
    seen = λ p f hp b k. elim (Bool-cases (passes (next capacity h) c p)) [
      | inl between ↦ v.seen p f hp b between
      | inr outside ↦
          let same = at_end p hp k outside in
          let is : e ≡ f = some-eq e f (sym at_c ∙ ap t (sym same) ∙ b) in
          ap (λ x. passes (find_slot x.key capacity) p h) (sym is)
          ∙ ap (λ x. passes (find_slot e.key capacity) x h) same
          ∙ stay
    ];
    full = λ q hq k. elim (Bool-cases (passes (next capacity h) c q)) [
      | inl between ↦ v.full q hq between
      | inr outside ↦ ap (λ x. occupied (t x)) (at_end q hq k outside) ∙ ap occupied at_c
    ];
    unique = v.unique;
  }

  abbrev pub moved : Entries
  moved = write (write t h (some e)) c none

  moved_curr : moved c ≡ none
  moved_curr = write_self (write t h (some e)) c none

  moved_hole : moved h ≡ some e
  moved_hole = write-ne (write t h (some e)) c h none v.apart ∙ write_self t h (some e)

  moved_other : (q : ℕ) → q ≢ h → q ≢ c → moved q ≡ t q
  moved_other q a b = write-ne (write t h (some e)) c q none b ∙ write-ne t h q (some e) a

  moved_entry :
      (q : ℕ) (f : Entry)
      → moved q ≡ some f
      → ((q ≡ h) × (e ≡ f)) ⊎ ((q ≢ h) × (q ≢ c) × (t q ≡ some f))
  moved_entry q f b = elim (Bool-cases (q == h)) [
    | inl x ↦
        let same = (==_iff q h).0 x in
        inl (same, some-eq e f (sym moved_hole ∙ ap moved (sym same) ∙ b))
    | inr x ↦
        let ne_h : q ≢ h = ground (arith, x) in
        let ne_c : q ≢ c = λ same. cc (b, moved_curr, ap moved same) in
        inr (ne_h, ne_c, sym (moved_other q ne_h ne_c) ∙ b)
  ]

  moved_filled : (q : ℕ) → occupied (t q) ≡ true → q ≢ c → occupied (moved q) ≡ true
  moved_filled q a ne = elim (Bool-cases (q == h)) [
    | inl x ↦ ap occupied (ap moved ((==_iff q h).0 x) ∙ moved_hole)
    | inr x ↦ ap occupied (moved_other q (ground (arith, x)) ne) ∙ a
  ]

  -- The entry at `c` fills the hole, and `c` is the hole.
  pub moves-IsHoled :
      passes (find_slot e.key capacity) c h ≡ true → IsHoled capacity moved c (next capacity c)
  moves-IsHoled move = record {
    hole_within = v.within;
    within = next-lt capacity c v.within;
    apart = next-ne capacity c z v.within hz (λ same. c-ne-z (sym same));
    hole = moved_curr;
    path = λ p q f hp hq b k. elim (moved_entry p f b) [
      | inl (same, is) ↦
          let (on_way, ne_c, ne_h) = passes-part (find_slot e.key capacity) c h q move (
            subst (λ x. passes (find_slot e.key capacity) x q ≡ true) same
              (subst (λ x. passes (find_slot x.key capacity) p q ≡ true) (sym is) k)) in
          elim (v.path c q e v.within hq at_c on_way) [
            | inl filled ↦ inl (moved_filled q filled ne_c)
            | inr bad ↦ absurd (ne_h bad)
          ]
      | inr (ne_h, ne_c, old) ↦ elim (v.path p q f hp hq old k) [
        | inl filled ↦ elim (Bool-cases (q == c)) [
          | inl x ↦ inr ((==_iff q c).0 x)
          | inr x ↦ inl (moved_filled q filled (ground (arith, x)))
        ]
        | inr same ↦ inl (ap occupied (ap moved same ∙ moved_hole))
      ]
    ];
    seen = λ p f hp b k. absurd (cc (k, passes-start (next capacity c) p));
    full = λ q hq k. absurd (cc (k, passes-start (next capacity c) q));
    unique = λ p q f g hp hq a b same. elim (moved_entry p f a) [
      | inl (p_h, f_e) ↦ elim (moved_entry q g b) [
        | inl (q_h, g_e) ↦ p_h ∙ sym q_h
        | inr (ne_h, ne_c, old) ↦
            absurd (ne_c (sym (v.unique c q e g v.within hq at_c old (ap (λ x. x.key) f_e ∙ same))))
      ]
      | inr (ne_h, ne_c, old) ↦ elim (moved_entry q g b) [
        | inl (q_h, g_e) ↦
            absurd (ne_c (v.unique p c f e hp v.within old at_c (same ∙ ap (λ x. x.key) (sym g_e))))
        | inr (ne_h', ne_c', old') ↦ v.unique p q f g hp hq old old' same
      ]
    ];
  }

  pub moved-Holds : (f : Entry) → Holds capacity moved f ↔ Holds capacity t f
  moved-Holds f = (
    λ (p, hp, b). elim (moved_entry p f b) [
      | inl (same, is) ↦ (c, v.within, at_c ∙ ap some is)
      | inr (ne_h, ne_c, old) ↦ (p, hp, old)
    ],
    λ (p, hp, b). elim (Bool-cases (p == c)) [
      | inl x ↦ (h, v.hole_within, moved_hole ∙ sym at_c ∙ sym (ap t ((==_iff p c).0 x)) ∙ b)
      | inr x ↦ (p, hp, moved_other p (λ same. cc (b, v.hole, ap t same)) (ground (arith, x)) ∙ b)
    ],
  )

  pub moved-used : used moved capacity ≡ used t capacity
  moved-used = omega (
    arith,
    used-write t h capacity (some e) v.hole_within,
    used-write (write t h (some e)) c capacity none v.within,
    ap bit v.hole,
    ap bit (write-ne t h c (some e) (λ same. v.apart (sym same)) ∙ at_c),
  )

  pub moved_vacant : moved z ≡ none
  moved_vacant = moved_other z other (λ same. c-ne-z (sym same)) ∙ vacant_z
