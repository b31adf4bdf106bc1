-- ===== src/Storage/Memory/Messages.antt =====
-- The methods of `MemoryStorage` on messages and the audit log
-- (crates/light-discord-storage/src/lib.rs).
use light_discord.Common.{
  Bool, List, Option, Text, [], if◌then◌else◌, is_some, keep, leb, map, none, not, some, text,
  text_eq, ℕ, ◌&&◌, ◌++◌, ◌∷◌,
}
use light_discord.Common.Maps.{Map, get, insert}
use light_discord.Protocol.{ChatMessage, AuditLogSummary}
use light_discord.Storage.Sort.{sort_by_key, last}
use light_discord.Storage.Types.{
  RetentionPolicy, cutoff_unix_ms, DeleteMessageResult, deleted, forbidden, not_found,
}
use light_discord.Storage.Memory.{MemoryInner, MemoryMessage}

unfoldable pub save_message : MemoryInner → ChatMessage → MemoryInner
save_message s m = record s {
  messages =
      insert m.id (record { message = m; deleted_at_unix_ms = none; deleted_by_user_id = none })
        s.messages;
}

-- The filters of `recent_messages`.
unfoldable pub is_visible : ℕ → Text → MemoryMessage → Bool
is_visible cutoff channel_id stored =
    text_eq stored.message.channel_id channel_id
    && (not (is_some stored.deleted_at_unix_ms) && leb cutoff stored.message.unix_ms)

abbrev pub values {ℓ} : {V : Type ℓ} → Map V → List V
values = map λ e. e.1

unfoldable pub visible : ℕ → Text → MemoryInner → List ChatMessage
unfolding is_visible
visible cutoff channel_id s =
    map (λ (stored : MemoryMessage). stored.message)
      (keep (is_visible cutoff channel_id) (values s.messages))

unfoldable pub recent_messages : ℕ → RetentionPolicy → MemoryInner → Text → ℕ → List ChatMessage
recent_messages now policy s channel_id limit = last limit (
    sort_by_key (λ m. m.unix_ms)
      (visible (cutoff_unix_ms now policy.visible_history_days) channel_id s))

-- The audit entry of a deletion.
unfoldable pub deletion_entry : ℕ → Text → Text → ChatMessage → AuditLogSummary
deletion_entry now new_id actor_user_id m = record {
  id = new_id;
  action = text "message.deleted";
  actor_user_id = actor_user_id;
  target_user_id = some m.user_id;
  target_message_id = some m.id;
  channel_id = some m.channel_id;
  message_body_snapshot = some m.body;
  unix_ms = now;
}

-- The branches on a message that is stored.
unfoldable pub delete_stored :
    ℕ → Text → MemoryInner → Text → Text → Bool → MemoryMessage → DeleteMessageResult × MemoryInner
delete_stored now new_id s message_id actor_user_id actor_is_admin stored =
    let m = stored.message in
    if is_some stored.deleted_at_unix_ms
    then (not_found, s)
    else if not (text_eq m.user_id actor_user_id) && not actor_is_admin
    then (forbidden, s)
    else (
      deleted (record {
        message_id = message_id;
        channel_id = m.channel_id;
        deleted_by_user_id = actor_user_id;
        deleted_at_unix_ms = now;
      }),
      record s {
        messages =
            insert message_id
              (record stored {
                deleted_at_unix_ms = some now;
                deleted_by_user_id = some actor_user_id;
              })
              s.messages;
        audit_log = s.audit_log ++ (deletion_entry now new_id actor_user_id m ∷ []);
      },
    )

-- The branches on what the map holds.
unfoldable pub delete_found :
    ℕ
    → Text
    → MemoryInner
    → Text
    → Text
    → Bool
    → Option MemoryMessage
    → DeleteMessageResult × MemoryInner
unfolding delete_stored
delete_found now new_id s message_id actor_user_id actor_is_admin none = (not_found, s)
delete_found now new_id s message_id actor_user_id actor_is_admin (some stored) =
    delete_stored now new_id s message_id actor_user_id actor_is_admin stored

unfoldable pub soft_delete_message :
    ℕ → Text → MemoryInner → Text → Text → Bool → DeleteMessageResult × MemoryInner
unfolding delete_found
soft_delete_message now new_id s message_id actor_user_id actor_is_admin =
    delete_found now new_id s message_id actor_user_id actor_is_admin (get message_id s.messages)

unfoldable pub purge_expired : ℕ → RetentionPolicy → MemoryInner → MemoryInner
purge_expired now policy s =
    let visible_cutoff = cutoff_unix_ms now policy.visible_history_days in
    let audit_cutoff = cutoff_unix_ms now policy.audit_log_days in
    record s {
      messages = keep (λ e. leb visible_cutoff (e.1).message.unix_ms) s.messages;
      audit_log = keep (λ entry. leb audit_cutoff entry.unix_ms) s.audit_log;
    }

unfoldable pub recent_audit_log : MemoryInner → ℕ → List AuditLogSummary
recent_audit_log s limit = last limit (sort_by_key (λ entry. entry.unix_ms) s.audit_log)
