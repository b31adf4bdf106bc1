-- ===== src/Server/Sent/ChatHandlers.antt =====
-- The frames that the chat handlers of crates/light-discord-server/src/main.rs add.
use light_discord.Common.{
  List, Option, Result, Text, ap, arith, err, if-elim, inr, is_empty, none, not, ok, refl, some,
  sym, trim, true, ℕ, ◌∙◌, ◌≡◌,
}
use light_discord.Common.Maps.{Map, get}
use light_discord.Protocol.{
  ChatMessage, AuditLogSummary, ServerFrame, invite_created, audit_log, message, channel_joined,
  error, failed_to_load_history, failed_to_save_message, new_chat_message,
  admin_permission_required, only_own_messages, message_not_found, failed_to_delete_message,
  failed_to_create_invite, failed_to_load_audit_log,
}
use light_discord.Auth.{Hashes, new_invite_code}
use light_discord.Storage.Types.{DeleteMessageResult, deleted, forbidden, not_found}
use light_discord.Storage.Interface.{Storage}
use light_discord.Server.State.{UserConnection, World, send_to, name_of, is_admin, admin_of}
use light_discord.Server.Chat as Chat
use light_discord.Server.Chat.{Draws}
use light_discord.Server.Unchanged.{deletion, invitation}
use light_discord.Server.Sent.Handlers.{
  IsPermitted, Permits, to_one, to_all, then_more, quiet-IsPermitted,
}
use light_discord.Server.Sent.{Adds, Adds-none, send_on-Grows, send_all-Grows}

module _ {S : Type 0} (api : Storage S) (draws : Draws) (users : Map UserConnection) where
  send_history-Permits :
      (w : World S) (u channel : Text) (r : Result (List ChatMessage) Text)
      → Permits users w (Chat.send_history api draws w u channel r)
  unfolding Chat.send_history
  send_history-Permits w u channel (ok ms) =
      then_more users w.sent (send_to w u (channel_joined channel)).sent _
        (to_one users w u (channel_joined channel) refl)
        (send_all-Grows (IsPermitted users) (quiet-IsPermitted users)
          (send_to w u (channel_joined channel)) u ms)
  send_history-Permits w u channel (err e) =
      then_more users w.sent (send_to w u (error (failed_to_load_history e))).sent _
        (to_one users w u (error (failed_to_load_history e)) refl)
        (to_one users (send_to w u (error (failed_to_load_history e))) u (channel_joined channel)
          refl)

  pub send_channel_history-Permits :
      (w : World S) (u channel : Text)
      → Permits users w (Chat.send_channel_history api draws w u channel)
  unfolding Chat.send_channel_history
  send_channel_history-Permits w u channel =
      send_history-Permits w u channel (api.recent_messages draws.stored_now w.storage channel 200)

  announce-Permits :
      (w : World S) (u : Text) (m : ChatMessage) (r : Result (Unit {0}) Text)
      → Permits users w (Chat.announce api draws w u m r)
  unfolding Chat.announce
  announce-Permits w u m (ok done) = to_all users w (message m) refl
  announce-Permits w u m (err e) = to_one users w u (error (failed_to_save_message e)) refl

  save_and_announce-Permits :
      (w : World S) (u : Text) (m : ChatMessage)
      → Permits users w (Chat.save_and_announce api draws w u m)
  unfolding Chat.save_and_announce
  save_and_announce-Permits w u m =
      announce-Permits (record w { storage = (api.save_message w.storage m).1 }) u m
        (api.save_message w.storage m).0

  send_named-Permits :
      (w : World S) (u channel body : Text) (o : Option Text)
      → Permits users w (Chat.send_named api draws w u channel body o)
  unfolding Chat.send_named
  send_named-Permits w u channel body none =
      Adds-none (IsPermitted users) (quiet-IsPermitted users) w.sent
  send_named-Permits w u channel body (some name) =
      if-elim (λ (x : World S). Permits users w x) (is_empty (trim body))
        (λ _. Adds-none (IsPermitted users) (quiet-IsPermitted users) w.sent)
        (λ _.
          save_and_announce-Permits w u
            (new_chat_message draws.now draws.id channel u name (trim body)))

  pub send_chat_message-Permits :
      (w : World S) (u channel body : Text)
      → Permits users w (Chat.send_chat_message api draws w u channel body)
  unfolding Chat.send_chat_message
  send_chat_message-Permits w u channel body = send_named-Permits w u channel body (name_of w u)

  answer_deletion-Permits :
      (w : World S) (u : Text) (r : Result DeleteMessageResult Text)
      → Permits users w (Chat.answer_deletion api draws w u r)
  unfolding Chat.answer_deletion
  answer_deletion-Permits w u (ok (deleted d)) = to_all users w _ refl
  answer_deletion-Permits w u (ok forbidden) = to_one users w u (error only_own_messages) refl
  answer_deletion-Permits w u (ok not_found) = to_one users w u (error message_not_found) refl
  answer_deletion-Permits w u (err e) = to_one users w u (error (failed_to_delete_message e)) refl

  pub delete_chat_message-Permits :
      (w : World S) (u id : Text) → Permits users w (Chat.delete_chat_message api draws w u id)
  unfolding Chat.delete_chat_message
  delete_chat_message-Permits w u id =
      answer_deletion-Permits (record w { storage = (deletion api draws w u id).1 }) u
        (deletion api draws w u id).0

-- The handlers for administrators.
module _ {S : Type 0} (api : Storage S) (draws : Draws) where
  admin_of-some :
      (o : Option UserConnection) (c : UserConnection)
      → o ≡ some c
      → admin_of o ≡ true
      → c.is_admin ≡ true
  admin_of-some none c e h = absurd cc
  admin_of-some (some d) c e h = ap admin_of (sym e) ∙ h

  -- What goes to a user who is an administrator is permitted.
  to_admin :
      (w x : World S) (u : Text) (f : ServerFrame)
      → x.inner ≡ w.inner
      → is_admin w u ≡ true
      → Adds (IsPermitted w.inner.users) x.sent (send_to x u f).sent
  unfolding is_admin send_to
  to_admin w x u f same h =
      send_on-Grows (IsPermitted w.inner.users) (quiet-IsPermitted w.inner.users) x
        (get u x.inner.users) f
        (λ c e. inr (u, c, there c e, refl, admin_of-some (get u w.inner.users) c (there c e) h))
    where
      there : (c : UserConnection) → get u x.inner.users ≡ some c → get u w.inner.users ≡ some c
      there c e = ap (λ i. get u i.users) (sym same) ∙ e

  answer_invite-Permits :
      (w x : World S) (u code : Text) (r : Result (Unit {0}) Text)
      → x.inner ≡ w.inner
      → is_admin w u ≡ true
      → Permits w.inner.users x (Chat.answer_invite api draws x u code r)
  unfolding Chat.answer_invite
  answer_invite-Permits w x u code (ok done) same h = to_admin w x u (invite_created code) same h
  answer_invite-Permits w x u code (err e) same h =
      to_one w.inner.users x u (error (failed_to_create_invite e)) refl

  pub create_invite-Permits :
      (hashes : Hashes) (w : World S) (u note : Text)
      → Permits w.inner.users w (Chat.create_invite api draws hashes w u note)
  unfolding Chat.create_invite
  create_invite-Permits hashes w u note =
      if-elim (λ (x : World S). Permits w.inner.users w x) (not (is_admin w u))
        (λ _. to_one w.inner.users w u (error admin_permission_required) refl)
        (λ admin.
          answer_invite-Permits w (record w { storage = (invitation api draws hashes w u note).1 })
            u (new_invite_code draws.secret) (invitation api draws hashes w u note).0 refl
            (ground (arith, admin)))

  answer_audit_log-Permits :
      (w : World S) (u : Text) (r : Result (List AuditLogSummary) Text)
      → is_admin w u ≡ true
      → Permits w.inner.users w (Chat.answer_audit_log api draws w u r)
  unfolding Chat.answer_audit_log
  answer_audit_log-Permits w u (ok entries) h = to_admin w w u (audit_log entries) refl h
  answer_audit_log-Permits w u (err e) h =
      to_one w.inner.users w u (error (failed_to_load_audit_log e)) refl

  pub send_audit_log-Permits :
      (w : World S) (u : Text) (limit : ℕ)
      → Permits w.inner.users w (Chat.send_audit_log api draws w u limit)
  unfolding Chat.send_audit_log
  send_audit_log-Permits w u limit =
      if-elim (λ (x : World S). Permits w.inner.users w x) (not (is_admin w u))
        (λ _. to_one w.inner.users w u (error admin_permission_required) refl)
        (λ admin.
          answer_audit_log-Permits w u (api.audit_log w.storage (Chat.clamp_limit limit))
            (ground (arith, admin)))
