-- ===== src/Storage/Memory/Deletion.antt =====
-- `soft_delete_message`: who may delete, what a deletion changes and what a refusal leaves.
use light_discord.Common.{
  Bool, Option, Text, arith, false, if-elim, inl, inr, is_some, none, not, refl, some, subst,
  text_eq, text_eq_iff, true, ℕ, ◌&&◌, ◌↔◌, ◌≡◌, ◌⊎◌,
}
use light_discord.Common.Maps.{get}
use light_discord.Storage.Types.{DeletedMessage, DeleteMessageResult, deleted, forbidden, not_found}
use light_discord.Storage.Memory.{MemoryInner, MemoryMessage}
use light_discord.Storage.Memory.Messages.{delete_stored, delete_found, soft_delete_message}

-- The message has not been deleted, and the actor wrote it or is an administrator.
abbrev pub IsAllowed : Text → Bool → MemoryMessage → Type 0
IsAllowed actor admin stored =
    (stored.deleted_at_unix_ms ≡ none) × ((stored.message.user_id ≡ actor) ⊎ (admin ≡ true))

-- The message is there and the actor may delete it.
abbrev pub MayDelete : MemoryInner → Text → Text → Bool → Type 0
MayDelete s message_id actor admin =
    (stored : MemoryMessage) × (get message_id s.messages ≡ some stored)
    × IsAllowed actor admin stored

abbrev pub IsDeleted : DeleteMessageResult × MemoryInner → Type 0
IsDeleted r = (d : DeletedMessage) × (r.0 ≡ deleted d)

abbrev IsRefused : DeleteMessageResult × MemoryInner → Type 0
IsRefused r = (r.0 ≡ forbidden) ⊎ (r.0 ≡ not_found)

pub forbidden-apart : (d : DeletedMessage) → ¬ (forbidden ≡ deleted d)
forbidden-apart d e = absurd cc

pub not_found-apart : (d : DeletedMessage) → ¬ (not_found ≡ deleted d)
not_found-apart d e = absurd cc

some-injective {ℓ} : {A : Type ℓ} (x y : A) → some y ≡ some x → x ≡ y
some-injective x y e = cc

deleted-not_refused : (d : DeletedMessage) → (deleted d ≡ forbidden) ⊎ (deleted d ≡ not_found) → ⊥
deleted-not_refused d (inl e) = absurd cc
deleted-not_refused d (inr e) = absurd cc

not_refused : (a b : Bool) → (not a && not b) ≡ false → (a ≡ true) ⊎ (b ≡ true)
not_refused true b h = inl refl
not_refused false b h = inr (ground arith)

not_refused_back : (a b : Bool) → (a ≡ true) ⊎ (b ≡ true) → (not a && not b) ≡ false
not_refused_back true b h = refl
not_refused_back false b (inl h) = absurd cc
not_refused_back false b (inr h) = rw h refl

is_some-false {ℓ} : {A : Type ℓ} (o : Option A) → is_some o ≡ false → o ≡ none
is_some-false none h = refl
is_some-false (some a) h = absurd cc

module _ (now : ℕ) (new_id : Text) (s : MemoryInner) (message_id actor : Text) (admin : Bool) where
  abbrev outcome : DeleteMessageResult × MemoryInner
  outcome = soft_delete_message now new_id s message_id actor admin

  abbrev Result_of : Option MemoryMessage → DeleteMessageResult × MemoryInner
  Result_of = delete_found now new_id s message_id actor admin

  author_or_admin :
      (a : Text) → (text_eq a actor ≡ true) ⊎ (admin ≡ true) → (a ≡ actor) ⊎ (admin ≡ true)
  author_or_admin a (inl e) = inl ((text_eq_iff a actor).0 e)
  author_or_admin a (inr e) = inr e

  deleted→allowed :
      (stored : MemoryMessage) → IsDeleted (Result_of (some stored)) → IsAllowed actor admin stored
  unfolding delete_found delete_stored
  deleted→allowed stored =
      if-elim (λ r. IsDeleted r → IsAllowed actor admin stored) (is_some stored.deleted_at_unix_ms)
        (λ _ h. absurd (not_found-apart h.0 h.1))
        (λ fresh.
          if-elim (λ r. IsDeleted r → IsAllowed actor admin stored)
            (not (text_eq stored.message.user_id actor) && not admin)
            (λ _ h. absurd (forbidden-apart h.0 h.1))
            (λ may _. (
              is_some-false stored.deleted_at_unix_ms fresh,
              author_or_admin stored.message.user_id
                  (not_refused (text_eq stored.message.user_id actor) admin may),
            )))

  allowed→deleted :
      (stored : MemoryMessage) → IsAllowed actor admin stored → IsDeleted (Result_of (some stored))
  unfolding delete_found delete_stored
  allowed→deleted stored h =
      if-elim IsDeleted (is_some stored.deleted_at_unix_ms) (λ gone. absurd (ground (arith, h.0)))
        (λ _.
          if-elim IsDeleted (not (text_eq stored.message.user_id actor) && not admin)
            (λ no_right. absurd (elim h.1 [
              | inl e ↦ ground (arith, text_eq_iff stored.message.user_id actor)
              | inr e ↦ ground arith
            ]))
            (λ _. (_, refl)))

  found-IsDeleted_iff :
      (o : Option MemoryMessage)
      → IsDeleted (Result_of o)
        ↔ ((stored : MemoryMessage) × (o ≡ some stored) × IsAllowed actor admin stored)
  unfolding delete_found
  found-IsDeleted_iff none =
      (λ h. absurd (not_found-apart h.0 h.1), λ h. absurd (ground (arith, h.1)))
  found-IsDeleted_iff (some stored) = (
    λ h. (stored, refl, deleted→allowed stored h),
    λ (x, e, h).
        allowed→deleted stored (subst (IsAllowed actor admin) (some-injective x stored e) h),
  )

  -- A deletion goes through exactly when the message is there, is not deleted yet, and the actor
  -- is its author or an administrator.
  pub deleted_iff :
      ((d : DeletedMessage) × (outcome.0 ≡ deleted d)) ↔ MayDelete s message_id actor admin
  unfolding soft_delete_message
  deleted_iff = found-IsDeleted_iff (get message_id s.messages)

  delete_found-unchanged :
      (o : Option MemoryMessage) → IsRefused (Result_of o) → (Result_of o).1 ≡ s
  unfolding delete_found delete_stored
  delete_found-unchanged none h = refl
  delete_found-unchanged (some stored) h =
      if-elim (λ r. IsRefused r → r.1 ≡ s) (is_some stored.deleted_at_unix_ms) (λ _ _. refl)
        (λ _.
          if-elim (λ r. IsRefused r → r.1 ≡ s)
            (not (text_eq stored.message.user_id actor) && not admin) (λ _ _. refl)
            (λ _ refused. absurd (deleted-not_refused _ refused)))
        h

  -- A deletion that is refused as forbidden or not found changes nothing.
  pub refused_unchanged : (outcome.0 ≡ forbidden) ⊎ (outcome.0 ≡ not_found) → outcome.1 ≡ s
  unfolding soft_delete_message
  refused_unchanged = delete_found-unchanged (get message_id s.messages)
