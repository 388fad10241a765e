-- ===== src/VariableMap/Valid.antt =====
-- Well-formed maps, and the search in them.
use mathlib.Core.Path.{subst}
use migash.Prelude.{
  ℕ, ◌*◌, ◌≤◌, ◌<◌, ◌≡◌, refl, sym, ap, ◌∙◌, inl, inr, ◌↔◌, Bool, true, false, Option, none, some,
  arith, if◌then◌else◌, Text, string_eq_iff,
}
use migash.VariableMap.{
  Mapped, Entry, Entries, VariableMap, occupied, find_slot, probe_map, variable_map_find,
  variable_map_at, variable_map_create,
}
use migash.VariableMap.Ring.{passes, passes_trichotomy}
use migash.VariableMap.Probe.{IsProbed, IsTaken, IsFree, Found, differs, probe-home}
use migash.VariableMap.Count.{used, used-lt, used-vacant}
use migash.VariableMap.Insert.{Holds, Lacks, some-eq}

pub record IsValid (map : VariableMap) : Type 0 where
  pub probed : IsProbed map.capacity map.entries
  pub counted : used map.entries map.capacity ≡ map.size
  pub load : 4 * map.size ≤ 3 * map.capacity
  pub room : 16 ≤ map.capacity

pub vacancy :
    (map : VariableMap) → IsValid map → (z : ℕ) × (z < map.capacity) × (map.entries z ≡ none)
vacancy map v = used-lt map.entries map.capacity (omega (arith, v.counted, v.load, v.room))

-- A search that ends at a vacant slot misses no entry.
pub IsFree-Lacks :
    (capacity : ℕ) (t : Entries) (key : Text) (p : ℕ)
    → IsProbed capacity t
    → IsFree capacity t key p
    → Lacks capacity t key
IsFree-Lacks capacity t key p v o q f hq b same =
    elim (passes_trichotomy (find_slot key capacity) p q) [
      | inl on_way ↦ cc (o.walked q hq on_way, ap (differs key) b, (string_eq_iff f.key key).1 same)
      | inr (inl here) ↦ cc (b, o.at, ap t here)
      | inr (inr beyond) ↦ cc (
        v.path q p f hq o.within b
            (subst (λ x. passes (find_slot x capacity) q p ≡ true) (sym same) beyond),
        ap occupied o.at,
      )
    ]

pub probe_map-Found :
    (map : VariableMap) (key : Text)
    → IsValid map
    → Found map.capacity map.entries key (probe_map map key)
unfolding probe_map
probe_map-Found map key v =
    let (z, hz, a) = vacancy map v in probe-home map.capacity map.entries key z hz a

-- What `variable_map_find` gives: -1 where no entry has the key, or the entry's index.
abbrev pub Located : VariableMap → Text → Option ℕ → Type 0
Located map key none = Lacks map.capacity map.entries key
Located map key (some p) = IsTaken map.capacity map.entries key p

pub variable_map_find-Located :
    (map : VariableMap) (key : Text) → IsValid map → Located map key (variable_map_find map key)
unfolding variable_map_find
variable_map_find-Located map key v = go (probe_map map key) (probe_map-Found map key v)
  where
    go :
        (o : Option (ℕ × Bool))
        → Found map.capacity map.entries key o
        → Located map key
            (elim o [ none ↦ none | some found ↦ if found.1 then some found.0 else none ])
    go none h = absurd h
    go (some (p, false)) h = IsFree-Lacks map.capacity map.entries key p v.probed h
    go (some (p, true)) h = h

-- What the search finds: nothing, and no entry has the key, or the entry with the key.
abbrev pub Looked : VariableMap → Text → Option Mapped → Type 0
Looked map key none = Lacks map.capacity map.entries key
Looked map key (some m) =
    (e : Entry) × Holds map.capacity map.entries e × (e.key ≡ key) × (e.mapped ≡ m)

pub variable_map_at-Looked :
    (map : VariableMap) (key : Text) → IsValid map → Looked map key (variable_map_at map key)
unfolding variable_map_at
variable_map_at-Looked map key v = go (probe_map map key) (probe_map-Found map key v)
  where
    go :
        (o : Option (ℕ × Bool))
        → Found map.capacity map.entries key o
        → Looked map key (elim o [
          | none ↦ none
          | some found ↦
              if found.1
              then elim (map.entries found.0) [ none ↦ none | some e ↦ some e.mapped ]
              else none
        ])
    go none h = absurd h
    go (some (p, false)) h = IsFree-Lacks map.capacity map.entries key p v.probed h
    go (some (p, true)) h =
        subst (λ o. Looked map key (elim o [ none ↦ none | some e ↦ some e.mapped ])) (sym h.at)
          (h.entry, (p, h.within, h.at), h.same, refl)

Holds-unique :
    (map : VariableMap) (e f : Entry)
    → IsValid map
    → Holds map.capacity map.entries e
    → Holds map.capacity map.entries f
    → e.key ≡ f.key
    → e ≡ f
Holds-unique map e f v (p, hp, a) (q, hq, b) same =
    some-eq e f (sym a ∙ ap map.entries (v.probed.unique p q e f hp hq a b same) ∙ b)

-- An entry that stands in the map is what a search for its key finds.
pub variable_map_at-Holds :
    (map : VariableMap) (e : Entry)
    → IsValid map
    → Holds map.capacity map.entries e
    → variable_map_at map e.key ≡ some e.mapped
variable_map_at-Holds map e v h =
    go (variable_map_at map e.key) (variable_map_at-Looked map e.key v)
  where
    go : (o : Option Mapped) → Looked map e.key o → o ≡ some e.mapped
    go none l = absurd (l h.0 e h.1 h.2 refl)
    go (some m) (f, g, same, is) =
        ap some (sym is ∙ ap (λ x. x.mapped) (Holds-unique map f e v g h same))

pub variable_map_at-Lacks :
    (map : VariableMap) (key : Text)
    → IsValid map
    → Lacks map.capacity map.entries key
    → variable_map_at map key ≡ none
variable_map_at-Lacks map key v l = go (variable_map_at map key) (variable_map_at-Looked map key v)
  where
    go : (o : Option Mapped) → Looked map key o → o ≡ none
    go none h = refl
    go (some m) (f, (p, hp, a), same, is) = absurd (l p f hp a same)

-- Maps that hold the same entries with a key find the same for it.
pub variable_map_at-congr :
    (map map' : VariableMap) (key : Text)
    → IsValid map
    → IsValid map'
    → ((e : Entry)
        → e.key ≡ key
        → Holds map.capacity map.entries e ↔ Holds map'.capacity map'.entries e)
    → variable_map_at map' key ≡ variable_map_at map key
variable_map_at-congr map map' key v v' same =
    go (variable_map_at map key) (variable_map_at-Looked map key v)
  where
    go : (o : Option Mapped) → Looked map key o → variable_map_at map' key ≡ o
    go none l =
        variable_map_at-Lacks map' key v'
          (λ q f hq b e. let (p, hp, a) = (same f e).1 (q, hq, b) in l p f hp a e)
    go (some m) (f, h, e, is) =
        ap (variable_map_at map') (sym e)
        ∙ variable_map_at-Holds map' f v' ((same f e).0 h)
        ∙ ap some is

pub variable_map_create-IsValid : IsValid variable_map_create
unfolding variable_map_create
variable_map_create-IsValid = record {
  probed = record { path = λ p q e a b c. cc; unique = λ p q e f a b c. cc };
  counted = used-vacant 16;
  load = omega arith;
  room = omega arith;
}
