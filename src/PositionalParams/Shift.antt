-- ===== src/PositionalParams/Shift.antt =====
-- The shift of the positional parameters.
use migash.Prelude.{
  ℕ, zero, suc, ◌+◌, ◌-◌, ◌≤◌, ◌≡◌, refl, sym, ap, ◌∙◌, Bool, true, false, List, [], ◌∷◌, arith,
  if◌then◌else◌, Bool-cases, inl, inr, ltb, ◌==◌, ==_iff, length, take, drop, get_elem?,
  length-drop, Text,
}
use migash.PositionalParams.{
  PositionalParams, copied, positional_params_shift, positional_params_get,
}
use migash.PositionalParams.Bounds.{IsBounded}

pub take-all : (n : ℕ) (xs : List Text) → length xs ≤ n → take n xs ≡ xs
take-all zero [] h = refl
take-all zero (x ∷ xs) h = absurd (omega arith)
take-all (suc n) [] h = refl
take-all (suc n) (x ∷ xs) h = ap (λ t. x ∷ t) (take-all n xs (omega arith))

get_elem?-drop : (n i : ℕ) (xs : List Text) → get_elem? (drop n xs) i ≡ get_elem? xs (n + i)
get_elem?-drop zero i xs = let e : i ≡ 0 + i = omega arith in ap (get_elem? xs) e
get_elem?-drop (suc n) i [] = refl
get_elem?-drop (suc n) i (x ∷ xs) =
    let e : suc (n + i) ≡ suc n + i = omega arith in
    get_elem?-drop n i xs ∙ ap (get_elem? (x ∷ xs)) e

drop-all : (n : ℕ) (xs : List Text) → length xs ≤ n → [] ≡ drop n xs
drop-all zero [] h = refl
drop-all zero (x ∷ xs) h = absurd (omega arith)
drop-all (suc n) [] h = refl
drop-all (suc n) (x ∷ xs) h = drop-all n xs (omega arith)

-- The object with the first parameters dropped.
abbrev pub without : PositionalParams → ℕ → PositionalParams
without p n = record p { params = drop n p.params; count = p.count - n }

rebuilt :
    (p : PositionalParams) {xs ys : List Text} {c d : ℕ}
    → xs ≡ ys
    → c ≡ d
    → ◌≡◌ {A = PositionalParams × Bool}
        (record p { params = xs; count = c }, true)
        (record p { params = ys; count = d }, true)
rebuilt p e f = rw (e, f) refl

shift-within :
    (p : PositionalParams) (n : ℕ)
    → length p.params ≡ p.count
    → ltb p.count n ≡ false
    → positional_params_shift p n ≡ (without p n, true)
unfolding positional_params_shift copied
shift-within p zero c h = rw h (rebuilt p refl (omega arith))
shift-within p (suc n) c h =
    let some_shift : (suc n == 0) ≡ false = ground arith in
    rw (h, some_shift) (go (p.count - suc n == 0) refl)
  where
    go :
        (b : Bool)
        → (p.count - suc n == 0) ≡ b
        → ◌≡◌ {A = PositionalParams × Bool}
            (if b then (record p { params = []; count = 0 }, true) else (
              record p {
                params = take (p.count - suc n) (drop (suc n) p.params);
                count = p.count - suc n;
              },
              true,
            ))
            (without p (suc n), true)
    go true e =
        let gone = (==_iff (p.count - suc n) 0).0 e in
        rebuilt p (drop-all (suc n) p.params (omega (arith, gone, c))) (sym gone)
    go false e =
        rebuilt p
          (take-all (p.count - suc n) (drop (suc n) p.params)
            (omega (arith, length-drop (suc n) p.params, c)))
          refl

shift-beyond :
    (p : PositionalParams) (n : ℕ) → ltb p.count n ≡ true → positional_params_shift p n ≡ (p, false)
unfolding positional_params_shift
shift-beyond p n h = rw h refl

-- A shift by more than the count fails and changes nothing; any other drops the first parameters.
pub shift-drop :
    (p : PositionalParams) (n : ℕ)
    → IsBounded p
    → positional_params_shift p n ≡ (
        if ltb p.count n
        then (p, false)
        else (record p { params = drop n p.params; count = p.count - n }, true))
shift-drop p n v = elim (Bool-cases (ltb p.count n)) [
  | inl e ↦ shift-beyond p n e ∙ rw e refl
  | inr e ↦ shift-within p n v.counted e ∙ rw e refl
]

-- After a shift by `n`, which is at most the count, $k is what $(n + k) was.
pub get-shift :
    (p : PositionalParams) (n k : ℕ)
    → IsBounded p
    → n ≤ p.count
    → 1 ≤ k
    → positional_params_get (positional_params_shift p n).0 k ≡ positional_params_get p (n + k)
unfolding positional_params_get
get-shift p n zero v h g = absurd (omega arith)
get-shift p n (suc k) v h g =
    ap (λ r. positional_params_get r.0 (suc k)) (shift-within p n v.counted (ground arith))
    ∙ shifted
  where
    shifted : positional_params_get (without p n) (suc k) ≡ positional_params_get p (n + suc k)
    shifted =
        let low : ltb (n + suc k) 1 ≡ false = ground arith in
        let high : ltb (p.count - n) (suc k) ≡ ltb p.count (n + suc k) = ground arith in
        let left : suc k - 1 ≡ k = omega arith in
        let right : n + suc k - 1 ≡ n + k = omega arith in
        let start : ltb (suc k) 1 ≡ false = ground arith in
        rw (start, low, high, left, right, get_elem?-drop n k p.params) refl
