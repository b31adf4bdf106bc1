-- ===== src/Audio/Group/Counts.antt =====
-- What the grouping of crates/light-discord-platform/src/audio.rs by a key adds up under the label of
-- the first entry of each key.
use light_discord.Common.{
  Bool, Bool-cases, List, Option, Text, [], ap, arith, false, if-elim, if◌then◌else◌, inl, inr,
  none, refl, some, sym, text_eq, text_eq_iff, text_eq_refl, ℕ, ◌++◌, ◌+◌, ◌∙◌, ◌∷◌, ◌≡◌,
}
use light_discord.Audio.Group.{absorb, absorb_all, group, group-absorb_all}
use light_discord.Audio.Group.Laws.{total}

module _ {ℓ} {A : Type ℓ} (key label : A → Text) (measure : A → ℕ) where
  -- The label of the first entry with the key.
  unfoldable pub label_by : Text → List A → Option Text
  label_by i [] = none
  label_by i (x ∷ xs) =
      let rest = label_by i xs in if text_eq (key x) i then some (label x) else rest

  abbrev pub is_label : Text → Option Text → Bool
  is_label k none = false
  is_label k (some l) = text_eq l k

  -- The measure of an entry that has the label `k`, and nothing of others.
  abbrev pub under : Text → A → ℕ
  under k d = if text_eq (label d) k then measure d else 0

  -- The measure of an entry whose key has the label `k` among `owners`.
  abbrev pub owned : Text → List A → A → ℕ
  owned k owners d = if is_label k (label_by (key d) owners) then measure d else 0

  total-ext : (f g : A → ℕ) (xs : List A) → ((d : A) → f d ≡ g d) → total f xs ≡ total g xs
  total-ext f g [] h = refl
  total-ext f g (x ∷ xs) h = omega (arith, h x, total-ext f g xs h)

  label_by-skip :
      (i : Text) (d : A) (xs ds : List A)
      → text_eq (key d) i ≡ false
      → label_by i (xs ++ d ∷ ds) ≡ label_by i (xs ++ ds)
  unfolding label_by
  label_by-skip i d [] ds apart = rw apart refl
  label_by-skip i d (x ∷ xs) ds apart =
      ap (λ o. if text_eq (key x) i then some (label x) else o) (label_by-skip i d xs ds apart)

  module _ (merge : A → A → A) (merge-key : (d x : A) → key (merge d x) ≡ key x)
      (merge-label : (d x : A) → label (merge d x) ≡ label x)
      (adds : (d x : A) → measure (merge d x) ≡ measure x + measure d) where
    -- Whether an entry is absorbed or put at the end, the labels of the keys are the same.
    label_by-absorb :
        (i : Text) (d : A) (out ds : List A)
        → label_by i (absorb key merge d out ++ ds) ≡ label_by i (out ++ d ∷ ds)
    unfolding label_by absorb
    label_by-absorb i d [] ds = refl
    label_by-absorb i d (x ∷ xs) ds = elim (Bool-cases (text_eq (key x) (key d))) [
      | inl same ↦
          rw (same, merge-key d x, merge-label d x)
            (if-elim
              (λ (o : Option Text).
                (if text_eq (key x) i then some (label x) else label_by i (xs ++ ds)) ≡ o)
              (text_eq (key x) i) (λ hit. rw hit refl)
              (λ miss. rw miss (
                sym (
                  label_by-skip i d xs ds
                    (ground (arith, same, miss, text_eq_iff (key x) (key d)))))))
      | inr other ↦
          rw other
            (ap (λ o. if text_eq (key x) i then some (label x) else o) (label_by-absorb i d xs ds))
    ]

    total-absorb-under :
        (k : Text) (d : A) (out ds : List A)
        → total (under k) (absorb key merge d out) ≡ total (under k) out + owned k (out ++ d ∷ ds) d
    unfolding label_by absorb
    total-absorb-under k d [] ds = rw (text_eq_refl (key d)) (omega arith)
    total-absorb-under k d (x ∷ xs) ds = elim (Bool-cases (text_eq (key x) (key d))) [
      | inl same ↦ rw (same, merge-label d x) (ground (arith, adds d x))
      | inr other ↦ rw other (omega (arith, total-absorb-under k d xs ds))
    ]

    total-absorb_all-under :
        (k : Text) (ds out : List A)
        → total (under k) (absorb_all key merge out ds)
          ≡ total (under k) out + total (owned k (out ++ ds)) ds
    unfolding absorb_all
    total-absorb_all-under k [] out = omega arith
    total-absorb_all-under k (d ∷ ds) out = omega (
      arith,
      total-absorb_all-under k ds (absorb key merge d out),
      total-absorb-under k d out ds,
      total-ext (owned k (absorb key merge d out ++ ds)) (owned k (out ++ d ∷ ds)) ds
          (λ e. ap (λ o. if is_label k o then measure e else 0) (label_by-absorb (key e) d out ds)),
    )

    -- The entries with a label have the measure of all whose key that label stands for.
    pub total-group-under :
        (k : Text) (ds : List A) → total (under k) (group key merge ds) ≡ total (owned k ds) ds
    total-group-under k ds =
        ap (total (under k)) (group-absorb_all key merge merge-key ds)
        ∙ omega (arith, total-absorb_all-under k ds [])
