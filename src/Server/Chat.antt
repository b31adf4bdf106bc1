-- ===== src/Server/Chat.antt =====
-- Chat messages, invitations and the audit log (crates/light-discord-server/src/main.rs). `Draws`
-- holds what a handler reads from clocks and random generators: `now` for the server, `stored_now`
-- and `stored_id` for the storage, `id` for `Uuid::new_v4()` in the server, `secret` for the
-- identifier in an invitation code or a session token.
use light_discord.Common.{
  List, Option, Result, Text, [], err, if◌then◌else◌, is_empty, max, min, none, not, ok, some, trim,
  ℕ, ◌∷◌,
}
use light_discord.Protocol.{
  ChatMessage, new_chat_message, AuditLogSummary, error, channel_joined, message, message_deleted,
  invite_created, audit_log, failed_to_load_history, failed_to_save_message,
  failed_to_delete_message, failed_to_create_invite, failed_to_load_audit_log, only_own_messages,
  message_not_found, admin_permission_required,
}
use light_discord.Auth.{Hashes, new_invite_code, hash_token}
use light_discord.Storage.Types.{DeleteMessageResult, deleted, forbidden, not_found}
use light_discord.Storage.Interface.{Storage}
use light_discord.Server.State.{World, send_to, broadcast, name_of, is_admin}

pub record Draws : Type 0 where
  pub now : ℕ
  pub stored_now : ℕ
  pub id : Text
  pub stored_id : Text
  pub secret : Text

-- `limit.clamp(1, 200)`
unfoldable pub clamp_limit : ℕ → ℕ
clamp_limit limit = min (max limit 1) 200

-- The loop of `send_channel_history`.
unfoldable pub send_all : {S : Type 0} → World S → Text → List ChatMessage → World S
send_all w user_id [] = w
send_all w user_id (m ∷ ms) = send_all (send_to w user_id (message m)) user_id ms

module _ {S : Type 0} (api : Storage S) (draws : Draws) where
  abbrev pub storing : World S → S → World S
  storing w s = record w { storage = s }

  unfoldable pub send_history : World S → Text → Text → Result (List ChatMessage) Text → World S
  unfolding send_all
  send_history w user_id channel_id (ok messages) =
      send_all (send_to w user_id (channel_joined channel_id)) user_id messages
  send_history w user_id channel_id (err e) =
      send_to (send_to w user_id (error (failed_to_load_history e))) user_id
        (channel_joined channel_id)

  unfoldable pub send_channel_history : World S → Text → Text → World S
  unfolding send_history
  send_channel_history w user_id channel_id =
      send_history w user_id channel_id
        (api.recent_messages draws.stored_now w.storage channel_id 200)

  -- After `save_message` has answered.
  unfoldable pub announce : World S → Text → ChatMessage → Result (Unit {0}) Text → World S
  announce w user_id m (ok done) = broadcast w (message m)
  announce w user_id m (err e) = send_to w user_id (error (failed_to_save_message e))

  unfoldable pub save_and_announce : World S → Text → ChatMessage → World S
  unfolding announce
  save_and_announce w user_id m =
      let saved = api.save_message w.storage m in announce (storing w saved.1) user_id m saved.0

  unfoldable pub send_named : World S → Text → Text → Text → Option Text → World S
  unfolding save_and_announce
  send_named w user_id channel_id body none = w
  send_named w user_id channel_id body (some display_name) =
      let trimmed = trim body in
      if is_empty trimmed
      then w
      else save_and_announce w user_id
          (new_chat_message draws.now draws.id channel_id user_id display_name trimmed)

  unfoldable pub send_chat_message : World S → Text → Text → Text → World S
  unfolding send_named
  send_chat_message w user_id channel_id body =
      send_named w user_id channel_id body (name_of w user_id)

  unfoldable pub answer_deletion : World S → Text → Result DeleteMessageResult Text → World S
  answer_deletion w user_id (ok (deleted d)) =
      broadcast w
        (message_deleted d.message_id d.channel_id d.deleted_by_user_id d.deleted_at_unix_ms)
  answer_deletion w user_id (ok forbidden) = send_to w user_id (error only_own_messages)
  answer_deletion w user_id (ok not_found) = send_to w user_id (error message_not_found)
  answer_deletion w user_id (err e) = send_to w user_id (error (failed_to_delete_message e))

  unfoldable pub delete_chat_message : World S → Text → Text → World S
  unfolding answer_deletion
  delete_chat_message w user_id message_id =
      let result =
        api.soft_delete_message draws.stored_now draws.stored_id w.storage message_id user_id
          (is_admin w user_id) in
      answer_deletion (storing w result.1) user_id result.0

  unfoldable pub answer_invite : World S → Text → Text → Result (Unit {0}) Text → World S
  answer_invite w user_id code (ok done) = send_to w user_id (invite_created code)
  answer_invite w user_id code (err e) = send_to w user_id (error (failed_to_create_invite e))

  unfoldable pub create_invite : Hashes → World S → Text → Text → World S
  unfolding answer_invite
  create_invite hashes w user_id note =
      let code = new_invite_code draws.secret in
      let result =
        api.create_invite w.storage (hash_token hashes code) (some user_id) (trim note) in
      if not (is_admin w user_id)
      then send_to w user_id (error admin_permission_required)
      else answer_invite (storing w result.1) user_id code result.0

  unfoldable pub answer_audit_log : World S → Text → Result (List AuditLogSummary) Text → World S
  answer_audit_log w user_id (ok entries) = send_to w user_id (audit_log entries)
  answer_audit_log w user_id (err e) = send_to w user_id (error (failed_to_load_audit_log e))

  unfoldable pub send_audit_log : World S → Text → ℕ → World S
  unfolding answer_audit_log clamp_limit
  send_audit_log w user_id limit =
      if not (is_admin w user_id)
      then send_to w user_id (error admin_permission_required)
      else answer_audit_log w user_id (api.audit_log w.storage (clamp_limit limit))
