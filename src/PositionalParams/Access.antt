-- ===== src/PositionalParams/Access.antt =====
-- The copies of the positional parameters, and "$*".
use migash.Prelude.{
  ℕ, zero, suc, ◌-◌, ◌≤◌, ◌≡◌, refl, ap, ◌∙◌, Bool, true, false, List, [], ◌∷◌, ◌++◌, none, arith,
  if◌then◌else◌, not, ltb→lt, ltb, ◌==◌, length, get_elem?, append_assoc, Text,
}
use migash.PositionalParams.{
  PositionalParams, copied, joined, positional_params_clone, positional_params_get,
  positional_params_get_all, positional_params_get_all_joined, positional_params_replace,
}
use migash.PositionalParams.Bounds.{IsBounded}
use migash.PositionalParams.Shift.{take-all}

-- The copy of a whole array, which is skipped where it is empty.
whole :
    (params : List Text) (count : ℕ)
    → length params ≡ count
    → (if count == 0 then [] else copied params 0 count) ≡ params
unfolding copied
whole [] zero h = refl
whole [] (suc count) h = absurd (omega arith)
whole (x ∷ params) zero h = absurd (omega arith)
whole (x ∷ params) (suc count) h =
    let filled : (suc count == 0) ≡ false = ground arith in
    rw filled (ap (λ t. x ∷ t) (take-all count params (omega arith)))

-- A clone has the same parameters as the original, in every position.
pub get-clone :
    (p : PositionalParams) (k : ℕ)
    → IsBounded p
    → positional_params_get (positional_params_clone p) k ≡ positional_params_get p k
unfolding positional_params_get positional_params_clone
get-clone p k v = rw (whole p.params p.count v.counted) refl

-- "$*" of the parameters.
abbrev pub join : ℕ → List Text → Text
join sep [] = []
join sep (param ∷ []) = param
join sep (param ∷ next ∷ rest) = param ++ sep ∷ join sep (next ∷ rest)

joined-join :
    (sep : ℕ) (result param : Text) (rest : List Text)
    → joined sep false (result ++ param) rest ≡ result ++ join sep (param ∷ rest)
unfolding joined
joined-join sep result param [] = refl
joined-join sep result param (next ∷ rest) =
    joined-join sep ((result ++ param) ++ sep ∷ []) next rest
    ∙ append_assoc (result ++ param) (sep ∷ []) (join sep (next ∷ rest))
    ∙ append_assoc result param (sep ∷ join sep (next ∷ rest))

joined-join_all : (sep : ℕ) (params : List Text) → joined sep true [] params ≡ join sep params
unfolding joined
joined-join_all sep [] = refl
joined-join_all sep (param ∷ rest) = joined-join sep [] param rest

-- The accumulating loop of `positional_params_get_all_joined` writes the parameters with the
-- separator between every two neighbours, and nothing where there are none.
pub get_all_joined-join :
    (p : PositionalParams) (sep : ℕ)
    → positional_params_get_all_joined p sep ≡ join sep (positional_params_get_all p)
unfolding positional_params_get_all_joined positional_params_get_all
get_all_joined-join p sep = go (p.count == 0)
  where
    go :
        (b : Bool)
        → (if b then [] else joined sep true [] (copied p.params 0 p.count))
          ≡ join sep (if b then [] else copied p.params 0 p.count)
    go true = refl
    go false = joined-join_all sep (copied p.params 0 p.count)

get_elem?-beyond : (xs : List Text) (i : ℕ) → length xs ≤ i → none ≡ get_elem? xs i
get_elem?-beyond [] i h = refl
get_elem?-beyond (x ∷ xs) zero h = absurd (omega arith)
get_elem?-beyond (x ∷ xs) (suc i) h = get_elem?-beyond xs i (omega arith)

get_suc :
    (p : PositionalParams) (k : ℕ)
    → length p.params ≡ p.count
    → positional_params_get p (suc k) ≡ get_elem? p.params k
unfolding positional_params_get
get_suc p k c =
    let start : ltb (suc k) 1 ≡ false = ground arith in
    let left : suc k - 1 ≡ k = omega arith in rw (start, left) (go (ltb p.count (suc k)) refl)
  where
    go :
        (b : Bool)
        → ltb p.count (suc k) ≡ b
        → (if b then none else get_elem? p.params k) ≡ get_elem? p.params k
    go true e = get_elem?-beyond p.params k (omega (arith, ltb→lt p.count (suc k) e, c))
    go false e = refl

-- A successful `positional_params_replace` makes $k the k-th new parameter for every k from 1 on;
-- it fails, and changes nothing, exactly where there are more than the maximum.
pub get-replace :
    (p : PositionalParams) (new_params : List Text) (k : ℕ)
    → let r = positional_params_replace p new_params (length new_params) in
      (r.1 ≡ not (ltb p.max_params (length new_params)))
      × (positional_params_get r.0 (suc k) ≡ (
          if ltb p.max_params (length new_params)
          then positional_params_get p (suc k)
          else get_elem? new_params k))
unfolding positional_params_replace
get-replace p new_params k = go (ltb p.max_params (length new_params))
  where
    go :
        (b : Bool)
        → let r : PositionalParams × Bool =
            if b
            then (p, false)
            else (record p { params = new_params; count = length new_params }, true) in
          (r.1 ≡ not b)
          × (positional_params_get r.0 (suc k)
              ≡ (if b then positional_params_get p (suc k) else get_elem? new_params k))
    go true = (refl, refl)
    go false = (refl, get_suc (record p { params = new_params; count = length new_params }) k refl)
