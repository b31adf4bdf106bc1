-- ===== src/Storage/Memory/Keyed.antt =====
-- The table of messages stays keyed by the messages' identifiers.
use light_discord.Common.{
  Bool, Option, Text, [], arith, if-elim, is_some, keep, none, not, refl, some, text_eq,
  text_eq_iff, ℕ, ◌&&◌, ◌∷◌, ◌≡◌,
}
use light_discord.Common.Maps.{Map, get, insert, get-insert}
use light_discord.Protocol.{ChatMessage}
use light_discord.Storage.Types.{RetentionPolicy, DeleteMessageResult}
use light_discord.Storage.Memory.{MemoryInner, MemoryMessage}
use light_discord.Storage.Memory.Messages.{
  delete_stored, delete_found, soft_delete_message, save_message, purge_expired,
}
use light_discord.Storage.Memory.Visible.{Keyed}

Keyed-insert :
    (id : Text) (v : MemoryMessage) (m : Map MemoryMessage)
    → v.message.id ≡ id
    → Keyed m
    → Keyed (insert id v m)
unfolding insert get
Keyed-insert id v [] e k = (e, refl, tt)
Keyed-insert id v ((j, w) ∷ m) e k =
    if-elim Keyed (text_eq j id) (λ same. (e, ground (arith, k.1, text_eq_iff j id), k.2))
      (λ other. (
        k.0,
        ground (arith, k.1, other, text_eq_iff j id, text_eq_iff id j, get-insert id j v m),
        Keyed-insert id v m e k.2,
      ))

get-keep :
    (p : Text × MemoryMessage → Bool) (j : Text) (m : Map MemoryMessage)
    → get j m ≡ none
    → get j (keep p m) ≡ none
unfolding get
get-keep p j [] h = refl
get-keep p j ((i, w) ∷ m) h = ground (arith, get-keep p j m)

Keyed-keep : (p : Text × MemoryMessage → Bool) (m : Map MemoryMessage) → Keyed m → Keyed (keep p m)
Keyed-keep p [] k = tt
Keyed-keep p ((j, w) ∷ m) k =
    if-elim Keyed (p (j, w)) (λ _. (k.0, get-keep p j m k.1, Keyed-keep p m k.2))
      (λ _. Keyed-keep p m k.2)

get-Keyed :
    (id : Text) (v : MemoryMessage) (m : Map MemoryMessage)
    → Keyed m
    → get id m ≡ some v
    → v.message.id ≡ id
unfolding get
get-Keyed id v [] k h = absurd (ground (arith, h))
get-Keyed id v ((j, w) ∷ m) k h = ground (arith, k.0, text_eq_iff j id, get-Keyed id v m k.2)

pub save_message-Keyed :
    (s : MemoryInner) (m : ChatMessage) → Keyed s.messages → Keyed (save_message s m).messages
unfolding save_message
save_message-Keyed s m k = Keyed-insert m.id _ s.messages refl k

pub purge_expired-Keyed :
    (now : ℕ) (policy : RetentionPolicy) (s : MemoryInner)
    → Keyed s.messages
    → Keyed (purge_expired now policy s).messages
unfolding purge_expired
purge_expired-Keyed now policy s k = Keyed-keep _ s.messages k

module _ (now : ℕ) (new_id : Text) (s : MemoryInner) (message_id actor : Text) (admin : Bool) where
  delete_found-Keyed :
      Keyed s.messages
      → (o : Option MemoryMessage) → get message_id s.messages ≡ o
      → Keyed (delete_found now new_id s message_id actor admin o).1.messages
  unfolding delete_found delete_stored
  delete_found-Keyed k none e = k
  delete_found-Keyed k (some stored) e =
      if-elim (λ (r : DeleteMessageResult × MemoryInner). Keyed r.1.messages)
        (is_some stored.deleted_at_unix_ms) (λ _. k)
        (λ _.
          if-elim (λ (r : DeleteMessageResult × MemoryInner). Keyed r.1.messages)
            (not (text_eq stored.message.user_id actor) && not admin) (λ _. k)
            (λ _.
              Keyed-insert message_id _ s.messages (get-Keyed message_id stored s.messages k e) k))

  -- A deletion leaves a table of messages that is keyed by their identifiers, each once, so keyed.
  pub soft_delete_message-Keyed :
      Keyed s.messages → Keyed (soft_delete_message now new_id s message_id actor admin).1.messages
  unfolding soft_delete_message
  soft_delete_message-Keyed k = delete_found-Keyed k (get message_id s.messages) refl
