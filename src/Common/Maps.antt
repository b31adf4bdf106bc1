-- ===== src/Common/Maps.antt =====
-- `HashMap<String, V>` and `HashSet<String>` as association lists. The program relies on no order of
-- iteration; the model iterates in the order of first insertion.
use mathlib.Core.Path.{◌≡◌, refl}
use mathlib.Core.Bool.{Bool, false, not, ◌&&◌, ◌||◌}
use mathlib.Core.Logic.{inl, inr}
use mathlib.Core.Option.{Option, none, some}
use mathlib.Core.List.{List, [], ◌∷◌}
use native.Mathlib.Omega.{arith}
use light_discord.Common.Tests.{if◌then◌else◌, Bool-cases, is_some}
use light_discord.Common.Texts.{Text, text_eq, text_eq_refl, text_eq_iff}

abbrev pub Map {ℓ} : Type ℓ → Type ℓ
Map V = List (Text × V)

module _ {ℓ} {V : Type ℓ} where
  -- `map.get(key)`
  unfoldable pub get : Text → Map V → Option V
  get k [] = none
  get k ((j, v) ∷ m) = if text_eq j k then some v else get k m

  -- `map.insert(key, value)`
  unfoldable pub insert : Text → V → Map V → Map V
  insert k v [] = (k, v) ∷ []
  insert k v ((j, w) ∷ m) = if text_eq j k then (k, v) ∷ m else (j, w) ∷ insert k v m

  -- `map.remove(key)`
  unfoldable pub remove : Text → Map V → Map V
  remove k [] = []
  remove k ((j, v) ∷ m) = let rest = remove k m in if text_eq j k then rest else (j, v) ∷ rest

  -- `map.contains_key(key)`
  abbrev pub contains_key : Text → Map V → Bool
  contains_key k m = is_some (get k m)

  pub get-insert :
      (k j : Text) (v : V) (m : Map V)
      → get j (insert k v m) ≡ (if text_eq k j then some v else get j m)
  unfolding get insert
  get-insert k j v [] = refl
  get-insert k j v ((i, w) ∷ m) =
      ground (arith, text_eq_iff k j, text_eq_iff i k, text_eq_iff i j, get-insert k j v m)

  pub get-remove :
      (k j : Text) (m : Map V) → get j (remove k m) ≡ (if text_eq k j then none else get j m)
  unfolding get remove
  get-remove k j [] = ground arith
  get-remove k j ((i, w) ∷ m) =
      ground (arith, text_eq_iff k j, text_eq_iff i k, text_eq_iff i j, get-remove k j m)

  pub get-insert_self : (k : Text) (v : V) (m : Map V) → get k (insert k v m) ≡ some v
  get-insert_self k v m = simp (get-insert, text_eq_refl)

  pub get-remove_self : (k : Text) (m : Map V) → get k (remove k m) ≡ none
  get-remove_self k m = simp (get-remove, text_eq_refl)

-- `HashSet<String>`
abbrev pub Set : Type 0
Set = List Text

unfoldable pub contains : Text → Set → Bool
contains k [] = false
contains k (j ∷ s) = text_eq j k || contains k s

-- `set.insert(value)`
unfoldable pub include : Text → Set → Set
include k s = if contains k s then s else k ∷ s

-- What `set.remove(value)` leaves; it answers `contains`.
unfoldable pub exclude : Text → Set → Set
exclude k [] = []
exclude k (j ∷ s) = let rest = exclude k s in if text_eq j k then rest else j ∷ rest

pub contains-include :
    (k j : Text) (s : Set) → contains j (include k s) ≡ (text_eq k j || contains j s)
unfolding contains include
contains-include k j s = elim (Bool-cases (contains k s)) [
  | inl old ↦ ground (arith, old, text_eq_iff k j)
  | inr new ↦ rw new
]

pub contains-exclude :
    (k j : Text) (s : Set) → contains j (exclude k s) ≡ (not (text_eq k j) && contains j s)
unfolding contains exclude
contains-exclude k j [] = ground arith
contains-exclude k j (i ∷ s) =
    ground (arith, text_eq_iff k j, text_eq_iff i k, text_eq_iff i j, contains-exclude k j s)

pub exclude-absent : (k : Text) (s : Set) → contains k s ≡ false → exclude k s ≡ s
unfolding contains exclude
exclude-absent k [] h = refl
exclude-absent k (i ∷ s) h = ground (arith, exclude-absent k s)
