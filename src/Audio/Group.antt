-- ===== src/Audio/Group.antt =====
-- The two loops of `deduplicate_devices` (crates/light-discord-platform/src/audio.rs), which differ
-- in the key that they group by and in what a device adds to the entry of its key. Positions come
-- from a map; the reference `absorb` searches for the key.
pub mod Counts
pub mod Laws
use light_discord.Common.{
  List, Option, Option-cases, Text, [], ap, arith, if◌then◌else◌, inl, inr, length, none, refl,
  some, suc, sym, text_eq, text_eq_iff, zero, ℕ, ◌++◌, ◌∙◌, ◌∷◌, ◌≡◌,
}
use mathlib.Core.Option
use light_discord.Common.Maps.{Map, get, insert, get-insert}

-- `vec[idx]` is changed; an index out of range, where Rust panics, changes nothing.
unfoldable pub modify {ℓ} : {A : Type ℓ} → ℕ → (A → A) → List A → List A
modify i f [] = []
modify zero f (x ∷ xs) = f x ∷ xs
modify (suc i) f (x ∷ xs) = x ∷ modify i f xs

abbrev pub next : Option ℕ → Option ℕ
next none = none
next (some i) = some (suc i)

module _ {ℓ} {A : Type ℓ} (key : A → Text) (merge : A → A → A) where
  -- The branches on the position of the key, if the map has it.
  unfoldable pub add_at : A → List A × Map ℕ → Option ℕ → List A × Map ℕ
  unfolding modify
  add_at d (out, index) (some i) = (modify i (merge d) out, index)
  add_at d (out, index) none = (out ++ (d ∷ []), insert (key d) (length out) index)

  unfoldable pub add : List A × Map ℕ → A → List A × Map ℕ
  unfolding add_at
  add (out, index) d = add_at d (out, index) (get (key d) index)

  -- The loop over the devices.
  unfoldable pub add_all : List A × Map ℕ → List A → List A × Map ℕ
  unfolding add
  add_all s [] = s
  add_all s (d ∷ ds) = add_all (add s d) ds

  unfoldable pub group : List A → List A
  unfolding add_all
  group ds = (add_all ([], []) ds).0

  -- The reference: a device is merged into the first entry with its key, or put at the end.
  unfoldable pub absorb : A → List A → List A
  absorb d [] = d ∷ []
  absorb d (x ∷ xs) =
      let rest = absorb d xs in if text_eq (key x) (key d) then merge d x ∷ xs else x ∷ rest

  unfoldable pub absorb_all : List A → List A → List A
  unfolding absorb
  absorb_all out [] = out
  absorb_all out (d ∷ ds) = absorb_all (absorb d out) ds

  -- The first position of the key.
  unfoldable pub position : Text → List A → Option ℕ
  position k [] = none
  position k (x ∷ xs) = let rest = position k xs in if text_eq (key x) k then some 0 else next rest

  abbrev IsIndex : List A → Map ℕ → Type 0
  IsIndex out index = (k : Text) → get k index ≡ position k out

  module _ (merge-key : (d x : A) → key (merge d x) ≡ key x) where
    modify-absorb :
        (d : A) (out : List A) (i : ℕ)
        → position (key d) out ≡ some i
        → modify i (merge d) out ≡ absorb d out
    unfolding modify absorb position
    modify-absorb d [] i h = absurd (ground (arith, h))
    modify-absorb d (x ∷ xs) zero h = elim (Option-cases (position (key d) xs)) [
      | inl e ↦ ground (arith, h, e)
      | inr (j, e) ↦ ground (arith, h, e)
    ]
    modify-absorb d (x ∷ xs) (suc i) h = elim (Option-cases (position (key d) xs)) [
      | inl e ↦ ground (arith, h, e)
      | inr (j, e) ↦ ground (arith, h, e, modify-absorb d xs i)
    ]

    append-absorb :
        (d : A) (out : List A) → position (key d) out ≡ none → out ++ (d ∷ []) ≡ absorb d out
    unfolding absorb position
    append-absorb d [] h = refl
    append-absorb d (x ∷ xs) h = elim (Option-cases (position (key d) xs)) [
      | inl e ↦ ground (arith, h, e, append-absorb d xs)
      | inr (j, e) ↦ ground (arith, h, e)
    ]

    position-modify :
        (k : Text) (d : A) (i : ℕ) (out : List A)
        → position k (modify i (merge d) out) ≡ position k out
    unfolding modify position
    position-modify k d i [] = refl
    position-modify k d zero (x ∷ xs) =
        ap (λ t. if text_eq t k then some 0 else next (position k xs)) (merge-key d x)
    position-modify k d (suc i) (x ∷ xs) =
        ap (λ o. if text_eq (key x) k then some 0 else next o) (position-modify k d i xs)

    position-append :
        (k : Text) (d : A) (out : List A)
        → position k (out ++ (d ∷ []))
          ≡ Option.or_else (position k out) (if text_eq (key d) k then some (length out) else none)
    unfolding position Option.or_else
    position-append k d [] = ground arith
    position-append k d (x ∷ xs) = elim (Option-cases (position k xs)) [
      | inl e ↦ ground (arith, position-append k d xs, e)
      | inr (i, e) ↦ ground (arith, position-append k d xs, e)
    ]

    add_at-IsIndex :
        (out : List A) (index : Map ℕ) (d : A) (o : Option ℕ)
        → IsIndex out index
        → position (key d) out ≡ o
        → IsIndex (add_at d (out, index) o).0 (add_at d (out, index) o).1
    unfolding add_at Option.or_else
    add_at-IsIndex out index d (some i) is e k = is k ∙ sym (position-modify k d i out)
    add_at-IsIndex out index d none is e k =
        get-insert (key d) k (length out) index
        ∙ ap (λ o. if text_eq (key d) k then some (length out) else o) (is k)
        ∙ found (position k out) refl
        ∙ sym (position-append k d out)
      where
        found :
            (o : Option ℕ)
            → position k out ≡ o
            → (if text_eq (key d) k then some (length out) else o)
              ≡ Option.or_else o (if text_eq (key d) k then some (length out) else none)
        found none p = ground arith
        found (some i) p = ground (arith, e, p, text_eq_iff (key d) k)

    add_at-absorb :
        (out : List A) (index : Map ℕ) (d : A) (o : Option ℕ)
        → position (key d) out ≡ o
        → (add_at d (out, index) o).0 ≡ absorb d out
    unfolding add_at
    add_at-absorb out index d (some i) e = modify-absorb d out i e
    add_at-absorb out index d none e = append-absorb d out e

    add_all-absorb_all :
        (ds out : List A) (index : Map ℕ)
        → IsIndex out index
        → (add_all (out, index) ds).0 ≡ absorb_all out ds
    unfolding add_all add absorb_all
    add_all-absorb_all [] out index is = refl
    add_all-absorb_all (d ∷ ds) out index is =
        add_all-absorb_all ds (add_at d (out, index) (get (key d) index)).0
          (add_at d (out, index) (get (key d) index)).1
          (add_at-IsIndex out index d (get (key d) index) is (sym (is (key d))))
        ∙ ap (λ l. absorb_all l ds)
            (add_at-absorb out index d (get (key d) index) (sym (is (key d))))

    -- The loop with the map is the loop that searches.
    pub group-absorb_all : (ds : List A) → group ds ≡ absorb_all [] ds
    unfolding group get position
    group-absorb_all ds = add_all-absorb_all ds [] [] (λ k. refl)
