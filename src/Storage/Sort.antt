-- ===== src/Storage/Sort.antt =====
-- `sort_by_key`, a stable sort by a number, and the last `limit` entries (`split_off`).

use light_discord.Common.{
  List, [], ap, arith, drop, if-elim, if◌then◌else◌, leb, length, length-drop, ltb, min, refl, suc,
  sym, take, take-append-drop, zero, ℕ, ◌++◌, ◌-◌, ◌∙◌, ◌∷◌, ◌≡◌, ◌≤◌,
}
use mathlib.Core.List.{Perm}
use mathlib.Core.List.Perm

module _ {ℓ} {A : Type ℓ} (key : A → ℕ) where
  -- Before the first entry whose key is not smaller, so that equal keys keep their order.
  unfoldable pub place : A → List A → List A
  place x [] = x ∷ []
  place x (y ∷ ys) = let rest = place x ys in if leb (key x) (key y) then x ∷ y ∷ ys else y ∷ rest

  unfoldable pub sort_by_key : List A → List A
  unfolding place
  sort_by_key [] = []
  sort_by_key (x ∷ xs) = place x (sort_by_key xs)

  -- The keys do not fall, and none is below `n`.
  abbrev pub Sorted : ℕ → List A → Type 0
  Sorted n [] = Unit {0}
  Sorted n (x ∷ xs) = (n ≤ key x) × Sorted (key x) xs

  pub Sorted-mono : (i n : ℕ) (xs : List A) → i ≤ n → Sorted n xs → Sorted i xs
  Sorted-mono i n [] h s = tt
  Sorted-mono i n (x ∷ xs) h s = (omega arith, s.1)

  place-Sorted : (n : ℕ) (x : A) (xs : List A) → n ≤ key x → Sorted n xs → Sorted n (place x xs)
  unfolding place
  place-Sorted n x [] h s = (h, tt)
  place-Sorted n x (y ∷ ys) h s =
      if-elim (Sorted n) (leb (key x) (key y)) (λ le. (h, (ground arith, s.1)))
        (λ gt. (s.0, place-Sorted (key y) x ys (ground arith) s.1))

  pub sort_by_key-Sorted : (xs : List A) → Sorted 0 (sort_by_key xs)
  unfolding sort_by_key
  sort_by_key-Sorted [] = tt
  sort_by_key-Sorted (x ∷ xs) =
      place-Sorted 0 x (sort_by_key xs) (omega arith) (sort_by_key-Sorted xs)

  length-place : (x : A) (xs : List A) → length (place x xs) ≡ suc (length xs)
  unfolding place
  length-place x [] = refl
  length-place x (y ∷ ys) = ground (arith, length-place x ys)

  pub length-sort_by_key : (xs : List A) → length (sort_by_key xs) ≡ length xs
  unfolding sort_by_key
  length-sort_by_key [] = refl
  length-sort_by_key (x ∷ xs) = length-place x (sort_by_key xs) ∙ ap suc (length-sort_by_key xs)

  place-perm : (x : A) (xs : List A) → Perm (place x xs) (x ∷ xs)
  unfolding place
  place-perm x [] = Perm.refl (x ∷ [])
  place-perm x (y ∷ ys) =
      if-elim (λ l. Perm l (x ∷ y ∷ ys)) (leb (key x) (key y)) (λ _. Perm.refl _)
        (λ _. Perm.trans (Perm.cons y (place-perm x ys)) (Perm.swap x y ys))

  -- Sorting keeps the entries.
  pub sort_by_key-perm : (xs : List A) → Perm (sort_by_key xs) xs
  unfolding sort_by_key
  sort_by_key-perm [] = Perm.refl []
  sort_by_key-perm (x ∷ xs) =
      Perm.trans (place-perm x (sort_by_key xs)) (Perm.cons x (sort_by_key-perm xs))

  pub drop-Sorted : (k n : ℕ) (xs : List A) → Sorted n xs → Sorted n (drop k xs)
  drop-Sorted zero n xs s = s
  drop-Sorted (suc k) n [] s = tt
  drop-Sorted (suc k) n (x ∷ xs) s = drop-Sorted k n xs (Sorted-mono n (key x) xs s.0 s.1)

module _ {ℓ} {A : Type ℓ} where
  -- `if v.len() > limit { v.split_off(v.len() - limit) } else { v }`
  unfoldable pub last : ℕ → List A → List A
  last limit xs = if ltb limit (length xs) then drop (length xs - limit) xs else xs

  pub length-last : (limit : ℕ) (xs : List A) → length (last limit xs) ≡ min limit (length xs)
  unfolding last
  length-last limit xs = ground (arith, length-drop (length xs - limit) xs)

  -- The entries that are left out come before those that are kept.
  pub last-suffix : (limit : ℕ) (xs : List A) → (front : List A) × (xs ≡ front ++ last limit xs)
  unfolding last
  last-suffix limit xs =
      if-elim (λ l. (front : List A) × (xs ≡ front ++ l)) (ltb limit (length xs))
        (λ _. (take (length xs - limit) xs, sym (take-append-drop (length xs - limit) xs)))
        (λ _. ([], refl))

  pub last-Sorted :
      (key : A → ℕ) (limit n : ℕ) (xs : List A) → Sorted key n xs → Sorted key n (last limit xs)
  unfolding last
  last-Sorted key limit n xs s =
      if-elim (Sorted key n) (ltb limit (length xs))
        (λ _. drop-Sorted key (length xs - limit) n xs s) (λ _. s)
