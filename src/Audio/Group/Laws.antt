-- ===== src/Audio/Group/Laws.antt =====
-- What the grouping of crates/light-discord-platform/src/audio.rs keeps: one entry for each key, and
-- what merging adds up.
use light_discord.Common.{
  Bool, List, Option-cases, Text, [], ap, arith, false, if-elim, inl, inr, none, refl, subst, sym,
  text_eq, text_eq_iff, true, ℕ, ◌+◌, ◌||◌, ◌∙◌, ◌∷◌, ◌≡◌,
}
use light_discord.Audio.Group.{absorb, absorb_all, position, group, group-absorb_all}

abbrev pub total {ℓ} : {A : Type ℓ} → (A → ℕ) → List A → ℕ
total weight [] = 0
total weight (x ∷ xs) = weight x + total weight xs

abbrev pub any {ℓ} : {A : Type ℓ} → (A → Bool) → List A → Bool
any flag [] = false
any flag (x ∷ xs) = flag x || any flag xs

module _ {ℓ} {A : Type ℓ} (key : A → Text) (merge : A → A → A) where
  abbrev pub IsAbsent : Text → List A → Type 0
  IsAbsent k xs = position key merge k xs ≡ none

  -- No key occurs twice.
  abbrev pub Distinct : List A → Type 0
  Distinct [] = Unit {0}
  Distinct (x ∷ xs) = IsAbsent (key x) xs × Distinct xs

  IsAbsent-cons :
      (k : Text) (x : A) (xs : List A)
      → text_eq (key x) k ≡ false
      → IsAbsent k xs
      → IsAbsent k (x ∷ xs)
  unfolding position
  IsAbsent-cons k x xs apart h = rw (apart, h) refl

  IsAbsent-tail :
      (k : Text) (x : A) (xs : List A)
      → IsAbsent k (x ∷ xs)
      → (text_eq (key x) k ≡ false) × IsAbsent k xs
  unfolding position
  IsAbsent-tail k x xs h = elim (Option-cases (position key merge k xs)) [
    | inl e ↦ (ground (arith, h), e)
    | inr (i, e) ↦ absurd (ground (arith, h, e))
  ]

  module _ (merge-key : (d x : A) → key (merge d x) ≡ key x) where
    absorb-IsAbsent :
        (k : Text) (d : A) (xs : List A)
        → text_eq (key d) k ≡ false
        → IsAbsent k xs
        → IsAbsent k (absorb key merge d xs)
    unfolding absorb
    absorb-IsAbsent k d [] apart h = IsAbsent-cons k d [] apart h
    absorb-IsAbsent k d (x ∷ xs) apart h =
        let (other, rest) = IsAbsent-tail k x xs h in
        if-elim (IsAbsent k) (text_eq (key x) (key d))
          (λ _.
            IsAbsent-cons k (merge d x) xs
              (subst (λ t. text_eq t k ≡ false) (sym (merge-key d x)) other) rest)
          (λ _. IsAbsent-cons k x (absorb key merge d xs) other (absorb-IsAbsent k d xs apart rest))

    absorb-Distinct : (d : A) (xs : List A) → Distinct xs → Distinct (absorb key merge d xs)
    unfolding absorb position
    absorb-Distinct d [] h = (refl, tt)
    absorb-Distinct d (x ∷ xs) h =
        if-elim Distinct (text_eq (key x) (key d))
          (λ same. (subst (λ t. IsAbsent t xs) (sym (merge-key d x)) h.0, h.1))
          (λ other. (
            absorb-IsAbsent (key x) d xs
                (ground (arith, other, text_eq_iff (key x) (key d), text_eq_iff (key d) (key x)))
                h.0,
            absorb-Distinct d xs h.1,
          ))

    absorb_all-Distinct : (ds out : List A) → Distinct out → Distinct (absorb_all key merge out ds)
    unfolding absorb_all
    absorb_all-Distinct [] out h = h
    absorb_all-Distinct (d ∷ ds) out h =
        absorb_all-Distinct ds (absorb key merge d out) (absorb-Distinct d out h)

    -- The result of the loop has one entry for each key.
    pub group-Distinct : (ds : List A) → Distinct (group key merge ds)
    group-Distinct ds =
        subst Distinct (sym (group-absorb_all key merge merge-key ds))
          (absorb_all-Distinct ds [] tt)

    module _ (weight : A → ℕ)
        (adds : (d x : A)
          → text_eq (key x) (key d) ≡ true
          → weight (merge d x) ≡ weight x + weight d) where
      total-absorb :
          (d : A) (out : List A)
          → total weight (absorb key merge d out) ≡ total weight out + weight d
      unfolding absorb
      total-absorb d [] = omega arith
      total-absorb d (x ∷ xs) =
          if-elim (λ l. total weight l ≡ weight x + total weight xs + weight d)
            (text_eq (key x) (key d)) (λ same. omega (arith, adds d x same))
            (λ _. omega (arith, total-absorb d xs))

      total-absorb_all :
          (ds out : List A)
          → total weight (absorb_all key merge out ds) ≡ total weight out + total weight ds
      unfolding absorb_all
      total-absorb_all [] out = omega arith
      total-absorb_all (d ∷ ds) out =
          omega (arith, total-absorb_all ds (absorb key merge d out), total-absorb d out)

      -- What a merge adds up stays the same in sum.
      pub total-group : (ds : List A) → total weight (group key merge ds) ≡ total weight ds
      total-group ds =
          ap (total weight) (group-absorb_all key merge merge-key ds)
          ∙ omega (arith, total-absorb_all ds [])

    module _ (flag : A → Bool) (joins : (d x : A) → flag (merge d x) ≡ (flag x || flag d)) where
      any-absorb :
          (d : A) (out : List A) → any flag (absorb key merge d out) ≡ (any flag out || flag d)
      unfolding absorb
      any-absorb d [] = ground arith
      any-absorb d (x ∷ xs) =
          if-elim (λ l. any flag l ≡ ((flag x || any flag xs) || flag d)) (text_eq (key x) (key d))
            (λ _. ground (arith, joins d x)) (λ _. ground (arith, any-absorb d xs))

      any-absorb_all :
          (ds out : List A) → any flag (absorb_all key merge out ds) ≡ (any flag out || any flag ds)
      unfolding absorb_all
      any-absorb_all [] out = ground arith
      any-absorb_all (d ∷ ds) out =
          ground (arith, any-absorb_all ds (absorb key merge d out), any-absorb d out)

      -- What a merge joins holds of some entry exactly when it held of some.
      pub any-group : (ds : List A) → any flag (group key merge ds) ≡ any flag ds
      any-group ds = ap (any flag) (group-absorb_all key merge merge-key ds) ∙ any-absorb_all ds []
