-- ===== src/Storage/Postgres/Messages.antt =====
-- The methods of `PostgresStorage` on messages and the audit log
-- (crates/light-discord-storage/src/lib.rs). Rows that ORDER BY does not tell apart come in the
-- order of the table.
use light_discord.Common.{
  Bool, List, Option, Result, Text, [], err, false, if◌then◌else◌, is_some, keep, leb, ltb, map,
  none, not, ok, some, take, text, text_eq, ℕ, ◌&&◌, ◌++◌, ◌^◌, ◌||◌, ◌∷◌,
}
use mathlib.Core.List.{reverse}
use light_discord.Common.Maps.{get, insert, contains_key, contains}
use light_discord.Protocol.{ChatMessage, AuditLogSummary}
use light_discord.Storage.Sort.{sort_by_key}
use light_discord.Storage.Types.{
  RetentionPolicy, cutoff_unix_ms, DeleteMessageResult, deleted, forbidden, not_found,
}
use light_discord.Storage.Postgres.{MessageRow, AuditRow, Tables}

abbrev pub default_guild_id : Text
default_guild_id = text "default"

-- The primary key and the reference to `channels` may refuse the row.
unfoldable pub save_message : Tables → ChatMessage → Result (Unit {0}) Text × Tables
save_message s m =
    let row : MessageRow = record {
      guild_id = default_guild_id;
      channel_id = m.channel_id;
      user_id = m.user_id;
      display_name_snapshot = m.display_name;
      body = m.body;
      created_at_unix_ms = m.unix_ms;
      deleted_at_unix_ms = none;
      deleted_by_user_id = none;
    } in
    if contains_key m.id s.messages || not (contains m.channel_id s.channels)
    then (err (text "failed to save message"), s)
    else (ok tt, record s { messages = insert m.id row s.messages })

abbrev pub chat_message : Text × MessageRow → ChatMessage
chat_message (id, row) = record {
  id = id;
  channel_id = row.channel_id;
  user_id = row.user_id;
  display_name = row.display_name_snapshot;
  body = row.body;
  unix_ms = row.created_at_unix_ms;
}

-- The WHERE of `recent_messages`.
unfoldable pub is_selected : ℕ → Text → MessageRow → Bool
is_selected cutoff channel_id row =
    text_eq row.channel_id channel_id
    && (not (is_some row.deleted_at_unix_ms) && leb cutoff row.created_at_unix_ms)

unfoldable pub selected : ℕ → Text → Tables → List ChatMessage
unfolding is_selected
selected cutoff channel_id s =
    map chat_message (keep (λ e. is_selected cutoff channel_id e.1) s.messages)

-- `limit as i64`, which LIMIT refuses when it is negative.
abbrev pub is_limit : ℕ → Bool
is_limit limit = ltb limit (2 ^ 63)

unfoldable pub recent_messages :
    ℕ → RetentionPolicy → Tables → Text → ℕ → Result (List ChatMessage) Text
unfolding selected
recent_messages now policy s channel_id limit =
    let rows = selected (cutoff_unix_ms now policy.visible_history_days) channel_id s in
    if is_limit limit
    then ok (take limit (sort_by_key (λ m. m.unix_ms) rows))
    else err (text "failed to load recent messages")

abbrev pub deletion_row : ℕ → Text → Text → Text → MessageRow → AuditRow
deletion_row now new_id message_id actor_user_id row = record {
  guild_id = row.guild_id;
  metadata_json = text "{\"source\":\"client\"}";
  entry = record {
    id = new_id;
    action = text "message.deleted";
    actor_user_id = actor_user_id;
    target_user_id = some row.user_id;
    target_message_id = some message_id;
    channel_id = some row.channel_id;
    message_body_snapshot = some row.body;
    unix_ms = now;
  };
}

-- Whether the primary key of `audit_log` is taken.
unfoldable pub is_logged : Text → List AuditRow → Bool
is_logged id [] = false
is_logged id (row ∷ rows) = text_eq row.entry.id id || is_logged id rows

-- The insertion into `audit_log`, after the message has been updated.
unfoldable pub log_deletion :
    ℕ → Text → Tables → Text → Text → MessageRow → Result DeleteMessageResult Text × Tables
unfolding is_logged
log_deletion now new_id s message_id actor_user_id row =
    if is_logged new_id s.audit_log
    then (err (text "failed to write message delete audit log"), s)
    else (
      ok (
          deleted (record {
            message_id = message_id;
            channel_id = row.channel_id;
            deleted_by_user_id = actor_user_id;
            deleted_at_unix_ms = now;
          })),
      record s {
        audit_log = s.audit_log ++ (deletion_row now new_id message_id actor_user_id row ∷ []);
      },
    )

-- The branches on a row that the first query selects. The update then finds that row, since nothing
-- comes between, so that it counts one.
unfoldable pub delete_row :
    ℕ → Text → Tables → Text → Text → Bool → MessageRow → Result DeleteMessageResult Text × Tables
unfolding log_deletion
delete_row now new_id s message_id actor_user_id actor_is_admin row =
    if is_some row.deleted_at_unix_ms
    then (ok not_found, s)
    else if not (text_eq row.user_id actor_user_id) && not actor_is_admin
    then (ok forbidden, s)
    else log_deletion now new_id
        (record s {
          messages =
              insert message_id
                (record row {
                  deleted_at_unix_ms = some now;
                  deleted_by_user_id = some actor_user_id;
                })
                s.messages;
        })
        message_id actor_user_id row

unfoldable pub delete_found :
    ℕ
    → Text
    → Tables
    → Text
    → Text
    → Bool
    → Option MessageRow
    → Result DeleteMessageResult Text × Tables
unfolding delete_row
delete_found now new_id s message_id actor_user_id actor_is_admin none = (ok not_found, s)
delete_found now new_id s message_id actor_user_id actor_is_admin (some row) =
    delete_row now new_id s message_id actor_user_id actor_is_admin row

unfoldable pub soft_delete_message :
    ℕ → Text → Tables → Text → Text → Bool → Result DeleteMessageResult Text × Tables
unfolding delete_found
soft_delete_message now new_id s message_id actor_user_id actor_is_admin =
    delete_found now new_id s message_id actor_user_id actor_is_admin (get message_id s.messages)

unfoldable pub purge_expired : ℕ → RetentionPolicy → Tables → Tables
purge_expired now policy s =
    let visible_cutoff = cutoff_unix_ms now policy.visible_history_days in
    let audit_cutoff = cutoff_unix_ms now policy.audit_log_days in
    record s {
      messages = keep (λ e. leb visible_cutoff (e.1).created_at_unix_ms) s.messages;
      audit_log = keep (λ row. leb audit_cutoff row.entry.unix_ms) s.audit_log;
    }

-- The latest `limit` entries by ORDER BY .. DESC, and the sort of the answer.
unfoldable pub recent_audit_log : Tables → ℕ → Result (List AuditLogSummary) Text
recent_audit_log s limit =
    let latest =
      reverse (sort_by_key (λ entry. entry.unix_ms) (map (λ row. row.entry) s.audit_log)) in
    if is_limit limit
    then ok (sort_by_key (λ entry. entry.unix_ms) (take limit latest))
    else err (text "failed to load audit log")
