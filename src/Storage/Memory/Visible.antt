-- ===== src/Storage/Memory/Visible.antt =====
-- What deletions and purges do to the messages that a channel shows.
use light_discord.Common.{
  Bool, List, Option, Text, [], arith, false, if-elim, is_some, keep, leb, map, none, not, refl,
  some, text_eq, text_eq_iff, ℕ, ◌&&◌, ◌++◌, ◌∷◌, ◌≡◌, ◌≤◌,
}
use light_discord.Common.Maps.{Map, get, insert}
use light_discord.Protocol.{ChatMessage}
use light_discord.Storage.Memory.{MemoryInner, MemoryMessage}
use light_discord.Storage.Memory.Messages.{
  deletion_entry, is_visible, visible, values, delete_stored, delete_found, soft_delete_message,
}
use light_discord.Storage.Types.{DeleteMessageResult}
use light_discord.Storage.Memory.Deletion.{IsDeleted, not_found-apart, forbidden-apart}

-- Every entry stands under the identifier of its message, and no key occurs twice.
abbrev pub Keyed : Map MemoryMessage → Type 0
Keyed [] = Unit {0}
Keyed ((k, stored) ∷ m) = (stored.message.id ≡ k) × (get k m ≡ none) × Keyed m

abbrev pub is_other : Text → ChatMessage → Bool
is_other id m = not (text_eq m.id id)

module _ (cutoff : ℕ) (channel_id : Text) where
  abbrev pub shown : Map MemoryMessage → List ChatMessage
  shown m =
      map (λ (stored : MemoryMessage). stored.message)
        (keep (is_visible cutoff channel_id) (values m))

  pub keep-absent :
      (id : Text) (m : Map MemoryMessage)
      → Keyed m
      → get id m ≡ none
      → keep (is_other id) (shown m) ≡ shown m
  unfolding get
  keep-absent id [] k gone = refl
  keep-absent id ((j, stored) ∷ m) k gone =
      ground (arith, k.0, text_eq_iff j id, text_eq_iff stored.message.id id, keep-absent id m k.2)

  pub shown-insert_hidden :
      (id : Text) (hidden : MemoryMessage) (old : MemoryMessage) (m : Map MemoryMessage)
      → is_visible cutoff channel_id hidden ≡ false
      → Keyed m
      → get id m ≡ some old
      → shown (insert id hidden m) ≡ keep (is_other id) (shown m)
  unfolding get insert
  shown-insert_hidden id hidden old [] h k there = absurd (ground (arith, there))
  shown-insert_hidden id hidden old ((j, stored) ∷ m) h k there = ground (
    arith,
    k.0,
    k.1,
    h,
    text_eq_iff j id,
    text_eq_iff stored.message.id id,
    keep-absent id m k.2,
    shown-insert_hidden id hidden old m h k.2,
  )

  pub shown-purge :
      (c : ℕ) (m : Map MemoryMessage)
      → c ≤ cutoff
      → shown (keep (λ e. leb c (e.1).message.unix_ms) m) ≡ shown m
  unfolding is_visible
  shown-purge c [] h = refl
  shown-purge c ((j, stored) ∷ m) h = ground (arith, shown-purge c m h)

module _ (now : ℕ) (new_id : Text) (s : MemoryInner) (message_id actor : Text) (admin : Bool) where
  abbrev Hides : ℕ → Text → DeleteMessageResult × MemoryInner → Type 0
  Hides cutoff channel_id r =
      IsDeleted r
      → (visible cutoff channel_id r.1 ≡ keep (is_other message_id) (visible cutoff channel_id s))
        × ((stored : MemoryMessage) × (get message_id s.messages ≡ some stored)
            × (r.1.audit_log
                ≡ s.audit_log ++ (deletion_entry now new_id actor stored.message ∷ [])))

  delete_found-Hides :
      (cutoff : ℕ) (channel_id : Text)
      → Keyed s.messages
      → (o : Option MemoryMessage) → get message_id s.messages ≡ o
      → Hides cutoff channel_id (delete_found now new_id s message_id actor admin o)
  unfolding delete_found delete_stored visible is_visible
  delete_found-Hides cutoff channel_id k none e h = absurd (not_found-apart h.0 h.1)
  delete_found-Hides cutoff channel_id k (some stored) e deletes =
      if-elim (Hides cutoff channel_id) (is_some stored.deleted_at_unix_ms)
        (λ _ h. absurd (not_found-apart h.0 h.1))
        (λ _.
          if-elim (Hides cutoff channel_id)
            (not (text_eq stored.message.user_id actor) && not admin)
            (λ _ h. absurd (forbidden-apart h.0 h.1))
            (λ _ _. (
              shown-insert_hidden cutoff channel_id message_id
                  (record stored { deleted_at_unix_ms = some now; deleted_by_user_id = some actor })
                  stored s.messages (ground arith) k e,
              (stored, e, refl),
            )))
        deletes

  -- When a deletion goes through in a table keyed by message identifiers, every channel shows what
  -- it showed less that message, and the audit log gains one entry, which holds the body and the
  -- author of the message.
  pub visible-soft_delete :
      (cutoff : ℕ) (channel_id : Text)
      → Keyed s.messages
      → IsDeleted (soft_delete_message now new_id s message_id actor admin)
      → (visible cutoff channel_id (soft_delete_message now new_id s message_id actor admin).1
          ≡ keep (is_other message_id) (visible cutoff channel_id s))
        × ((stored : MemoryMessage) × (get message_id s.messages ≡ some stored)
            × ((soft_delete_message now new_id s message_id actor admin).1.audit_log
                ≡ s.audit_log ++ (deletion_entry now new_id actor stored.message ∷ [])))
  unfolding soft_delete_message
  visible-soft_delete cutoff channel_id k =
      delete_found-Hides cutoff channel_id k (get message_id s.messages) refl
