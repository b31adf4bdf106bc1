-- ===== src/Storage/Postgres/Unique.antt =====
-- The unique index on `lower(display_name)` of
-- crates/light-discord-storage/migrations/0001_init.sql, as an invariant of the users' table.
use light_discord.Common.{
  Bool, Bool-cases, List, Option, Text, [], ap, arith, false, if-elim, inl, inr, is_some, keep,
  length, length-keep-le, map, none, not, ok, refl, some, subst, suc, sym, text, text_eq,
  text_eq_iff, true, ◌∙◌, ◌∷◌, ◌≡◌, ◌≢◌, ◌≤◌,
}
use light_discord.Common.Maps.{Map, get, insert, get-insert}
use light_discord.Storage.Types.{Account}
use light_discord.Storage.Postgres.{
  UserRow, Tables, named, query_opt, account, find_user_by_display_name,
}

some-injective {ℓ} : {A : Type ℓ} (x y : A) → some x ≡ some y → x ≡ y
some-injective x y e = cc

module _ (lower : Text → Text) where
  -- No key and no name, as the index reads it, occurs twice.
  abbrev pub IsUnique : Map UserRow → Type 0
  IsUnique [] = Unit {0}
  IsUnique ((k, row) ∷ m) = (named lower row.display_name m ≡ []) × (get k m ≡ none) × IsUnique m

  -- The rows under the name whose key is another.
  abbrev pub others : Text → Text → Map UserRow → Map UserRow
  others k name m = keep (λ e. not (text_eq e.0 k)) (named lower name m)

  others-absent :
      (k name : Text) (m : Map UserRow) → get k m ≡ none → others k name m ≡ named lower name m
  unfolding get named
  others-absent k name [] h = refl
  others-absent k name ((j, w) ∷ m) h = ground (arith, text_eq_iff j k, others-absent k name m)

  named-insert :
      (k name : Text) (row : UserRow) (m : Map UserRow)
      → named lower name m ≡ []
      → text_eq (lower row.display_name) (lower name) ≡ false
      → named lower name (insert k row m) ≡ []
  unfolding insert named
  named-insert k name row [] h apart = ground arith
  named-insert k name row ((j, w) ∷ m) h apart = ground (arith, named-insert k name row m)

  others-same :
      (k name : Text) (j : Text) (w : UserRow) (m : Map UserRow)
      → text_eq j k ≡ true
      → others k name ((j, w) ∷ m) ≡ others k name m
  unfolding named
  others-same k name j w m same = ground (arith, same)

  others-apart :
      (k name : Text) (j : Text) (w : UserRow) (m : Map UserRow)
      → text_eq (lower w.display_name) (lower name) ≡ false
      → others k name ((j, w) ∷ m) ≡ others k name m
  unfolding named
  others-apart k name j w m apart = ground (arith, apart)

  others-other :
      (k name : Text) (j : Text) (w : UserRow) (m : Map UserRow)
      → text_eq j k ≡ false
      → others k name ((j, w) ∷ m) ≡ []
      → (text_eq (lower w.display_name) (lower name) ≡ false) × (others k name m ≡ [])
  unfolding named
  others-other k name j w m other h = ground (arith, h)

  -- A row under the name of no other leaves the table unique.
  pub insert-IsUnique :
      (k : Text) (row : UserRow) (m : Map UserRow)
      → others k row.display_name m ≡ []
      → IsUnique m
      → IsUnique (insert k row m)
  unfolding insert get named
  insert-IsUnique k row [] h u = (refl, refl, tt)
  insert-IsUnique k row ((j, w) ∷ m) h u =
      if-elim IsUnique (text_eq j k)
        (λ same. (
          sym (others-absent k row.display_name m (absent same))
              ∙ sym (others-same k row.display_name j w m same)
              ∙ h,
          absent same,
          u.2,
        ))
        (λ other.
          let apart = others-other k row.display_name j w m other h in
          (
            named-insert k w.display_name row m u.0 (
                ground (
                  arith,
                  apart.0,
                  text_eq_iff (lower w.display_name) (lower row.display_name),
                  text_eq_iff (lower row.display_name) (lower w.display_name),
                )),
            ground (arith, u.1, other, text_eq_iff j k, text_eq_iff k j, get-insert k j row m),
            insert-IsUnique k row m apart.1 u.2,
          ))
    where
      absent : text_eq j k ≡ true → get k m ≡ none
      absent same = ground (arith, u.1, text_eq_iff j k)

  named-same :
      (a b : Text) (m : Map UserRow)
      → text_eq (lower a) (lower b) ≡ true
      → named lower a m ≡ named lower b m
  unfolding named
  named-same a b m e =
      ap (λ t. keep (λ (r : Text × UserRow). text_eq (lower (r.1).display_name) t) m)
        ((text_eq_iff (lower a) (lower b)).0 e)

  named-present :
      (k name : Text) (row : UserRow) (m : Map UserRow)
      → get k m ≡ some row
      → text_eq (lower row.display_name) (lower name) ≡ true
      → named lower name m ≢ []
  unfolding get named
  named-present k name row [] h same = absurd (ground (arith, h))
  named-present k name row ((j, w) ∷ m) h same = ground (arith, named-present k name row m)

  -- A row keeps its own name.
  pub others-own :
      (k name : Text) (row : UserRow) (m : Map UserRow)
      → IsUnique m
      → get k m ≡ some row
      → text_eq (lower row.display_name) (lower name) ≡ true
      → others k name m ≡ []
  unfolding get
  others-own k name row [] u h same = ground (arith, others-absent k name [] refl)
  others-own k name row ((j, w) ∷ m) u h same = elim (Bool-cases (text_eq j k)) [
    | inl e ↦
        others-same k name j w m e
        ∙ ap (keep λ r. not (text_eq r.0 k))
            (sym (named-same row.display_name name m same) ∙ mine e)
    | inr ne ↦
        others-apart k name j w m (not_mine ne)
        ∙ others-own k name row m u.2 (ground (arith, h)) same
  ]
    where
      own_row : text_eq j k ≡ true → w ≡ row
      own_row e = some-injective w row (ground (arith, h))

      mine : text_eq j k ≡ true → named lower row.display_name m ≡ []
      mine e = subst (λ r. named lower r.display_name m ≡ []) (own_row e) u.0

      not_mine : text_eq j k ≡ false → text_eq (lower w.display_name) (lower name) ≡ false
      not_mine ne = elim (Bool-cases (text_eq (lower w.display_name) (lower name))) [
        | inr apart ↦ apart
        | inl e ↦ absurd (
            named-present k w.display_name row m (ground (arith, h))
              (ground (
                arith,
                text_eq_iff (lower w.display_name) (lower name),
                text_eq_iff (lower row.display_name) (lower name),
                text_eq_iff (lower row.display_name) (lower w.display_name),
              ))
              u.0)
      ]

  length-named-le : (name : Text) (m : Map UserRow) → IsUnique m → length (named lower name m) ≤ 1
  unfolding named
  length-named-le name [] u = omega arith
  length-named-le name ((j, w) ∷ m) u =
      if-elim (λ l. length l ≤ 1) (text_eq (lower w.display_name) (lower name))
        {x = (j, w) ∷ named lower name m}
        (λ same. omega (arith, ap length (sym (named-same w.display_name name m same) ∙ u.0)))
        (λ _. length-named-le name m u.2)

  query_opt-ok {ℓ} :
      {A : Type ℓ} (context : Text) (rows : List A)
      → length rows ≤ 1
      → (found : Option A) × (query_opt context rows ≡ ok found)
  unfolding query_opt
  query_opt-ok context [] h = (none, refl)
  query_opt-ok context (row ∷ []) h = (some row, refl)
  query_opt-ok context (row ∷ other ∷ rows) h = absurd (omega arith)

  length-map {ℓ κ} :
      {A : Type ℓ} {B : Type κ} (f : A → B) (xs : List A) → length (map f xs) ≡ length xs
  length-map f [] = refl
  length-map f (x ∷ xs) = ap suc (length-map f xs)

  -- A lookup by name in a unique table never meets two rows.
  pub find_user_by_display_name-ok :
      (s : Tables) (name : Text)
      → IsUnique s.users
      → (found : Option Account) × (find_user_by_display_name lower s name ≡ ok found)
  unfolding find_user_by_display_name
  find_user_by_display_name-ok s name u =
      query_opt-ok (text "failed to find user by display name")
        (map account (keep is_enabled (named lower name s.users)))
        (omega (
          arith,
          length-map account (keep is_enabled (named lower name s.users)),
          length-keep-le is_enabled (named lower name s.users),
          length-named-le name s.users u,
        ))
    where
      is_enabled : Text × UserRow → Bool
      is_enabled e = not (is_some (e.1).disabled_at_unix_ms)
