-- ===== src/Server/Unchanged.antt =====
-- Which handlers leave `InnerState` alone: those that only send frames or call the storage
-- (crates/light-discord-server/src/main.rs).
use light_discord.Common.{
  List, Option, Result, Text, [], err, if-elim, is_empty, none, not, ok, refl, some, trim, ℕ, ◌>>=◌,
  ◌∙◌, ◌∷◌, ◌≡◌,
}
use light_discord.Common.Maps.{get}
use light_discord.Protocol.{
  ChatMessage, AuditLogSummary, ServerFrame, ErrorMessage, message, channel_joined, error,
  failed_to_load_history, failed_to_save_message, new_chat_message, admin_permission_required,
  ScreenShareFramePayload,
}
use light_discord.Auth.{Hashes, hash_token, new_invite_code}
use light_discord.Storage.Types.{DeleteMessageResult, deleted, forbidden, not_found}
use light_discord.Storage.Interface.{Storage}
use light_discord.Server.State.{
  UserConnection, ScreenShareInfo, World, send_on, send_to, broadcast, broadcast_except, name_of,
  is_admin,
}
use light_discord.Server.Screen as Screen
use light_discord.Server.Chat as Chat
use light_discord.Server.Chat.{Draws}
use light_discord.Server.Voice as Voice

-- Sending leaves the server's state alone.
module _ {S : Type 0} where
  pub send_on-inner :
      (w : World S) (o : Option UserConnection) (f : ServerFrame) → (send_on w o f).inner ≡ w.inner
  unfolding send_on
  send_on-inner w none f = refl
  send_on-inner w (some user) f = refl

  pub send_to-inner : (w : World S) (u : Text) (f : ServerFrame) → (send_to w u f).inner ≡ w.inner
  unfolding send_to
  send_to-inner w u f = send_on-inner w (get u w.inner.users) f

  send_all-inner :
      (w : World S) (u : Text) (ms : List ChatMessage) → (Chat.send_all w u ms).inner ≡ w.inner
  unfolding Chat.send_all
  send_all-inner w u [] = refl
  send_all-inner w u (m ∷ ms) =
      send_all-inner (send_to w u (message m)) u ms ∙ send_to-inner w u (message m)

  pub broadcast_voice_states-inner :
      (w : World S) (rooms : List Text) → (Voice.broadcast_voice_states w rooms).inner ≡ w.inner
  unfolding Voice.broadcast_voice_states Voice.broadcast_voice_state broadcast
  broadcast_voice_states-inner w [] = refl
  broadcast_voice_states-inner w (r ∷ rooms) =
      broadcast_voice_states-inner (Voice.broadcast_voice_state w r) rooms

-- The handlers of Chat leave the server's state alone.
module _ {S : Type 0} (api : Storage S) (draws : Draws) where
  send_history-inner :
      (w : World S) (u channel : Text) (r : Result (List ChatMessage) Text)
      → (Chat.send_history api draws w u channel r).inner ≡ w.inner
  unfolding Chat.send_history
  send_history-inner w u channel (ok ms) =
      send_all-inner (send_to w u (channel_joined channel)) u ms
      ∙ send_to-inner w u (channel_joined channel)
  send_history-inner w u channel (err e) =
      send_to-inner (send_to w u (error (failed_to_load_history e))) u (channel_joined channel)
      ∙ send_to-inner w u (error (failed_to_load_history e))

  pub send_channel_history-inner :
      (w : World S) (u channel : Text)
      → (Chat.send_channel_history api draws w u channel).inner ≡ w.inner
  unfolding Chat.send_channel_history
  send_channel_history-inner w u channel =
      send_history-inner w u channel (api.recent_messages draws.stored_now w.storage channel 200)

  announce-inner :
      (w : World S) (u : Text) (m : ChatMessage) (r : Result (Unit {0}) Text)
      → (Chat.announce api draws w u m r).inner ≡ w.inner
  unfolding Chat.announce broadcast
  announce-inner w u m (ok done) = refl
  announce-inner w u m (err e) = send_to-inner w u (error (failed_to_save_message e))

  save_and_announce-inner :
      (w : World S) (u : Text) (m : ChatMessage)
      → (Chat.save_and_announce api draws w u m).inner ≡ w.inner
  unfolding Chat.save_and_announce
  save_and_announce-inner w u m =
      announce-inner (record w { storage = (api.save_message w.storage m).1 }) u m
        (api.save_message w.storage m).0

  send_named-inner :
      (w : World S) (u channel body : Text) (o : Option Text)
      → (Chat.send_named api draws w u channel body o).inner ≡ w.inner
  unfolding Chat.send_named
  send_named-inner w u channel body none = refl
  send_named-inner w u channel body (some name) =
      if-elim (λ (x : World S). x.inner ≡ w.inner) (is_empty (trim body)) (λ _. refl)
        (λ _.
          save_and_announce-inner w u
            (new_chat_message draws.now draws.id channel u name (trim body)))

  pub send_chat_message-inner :
      (w : World S) (u channel body : Text)
      → (Chat.send_chat_message api draws w u channel body).inner ≡ w.inner
  unfolding Chat.send_chat_message
  send_chat_message-inner w u channel body = send_named-inner w u channel body (name_of w u)

  answer_deletion-inner :
      (w : World S) (u : Text) (r : Result DeleteMessageResult Text)
      → (Chat.answer_deletion api draws w u r).inner ≡ w.inner
  unfolding Chat.answer_deletion broadcast
  answer_deletion-inner w u (ok (deleted d)) = refl
  answer_deletion-inner w u (ok forbidden) = send_to-inner w u _
  answer_deletion-inner w u (ok not_found) = send_to-inner w u _
  answer_deletion-inner w u (err e) = send_to-inner w u _

  abbrev pub deletion : World S → Text → Text → Result DeleteMessageResult Text × S
  deletion w u id =
      api.soft_delete_message draws.stored_now draws.stored_id w.storage id u (is_admin w u)

  pub delete_chat_message-inner :
      (w : World S) (u id : Text) → (Chat.delete_chat_message api draws w u id).inner ≡ w.inner
  unfolding Chat.delete_chat_message
  delete_chat_message-inner w u id =
      answer_deletion-inner (record w { storage = (deletion w u id).1 }) u (deletion w u id).0

  answer_invite-inner :
      (w : World S) (u code : Text) (r : Result (Unit {0}) Text)
      → (Chat.answer_invite api draws w u code r).inner ≡ w.inner
  unfolding Chat.answer_invite
  answer_invite-inner w u code (ok done) = send_to-inner w u _
  answer_invite-inner w u code (err e) = send_to-inner w u _

  abbrev pub invitation : Hashes → World S → Text → Text → Result (Unit {0}) Text × S
  invitation hashes w u note =
      api.create_invite w.storage (hash_token hashes (new_invite_code draws.secret)) (some u)
        (trim note)

  pub create_invite-inner :
      (hashes : Hashes) (w : World S) (u note : Text)
      → (Chat.create_invite api draws hashes w u note).inner ≡ w.inner
  unfolding Chat.create_invite
  create_invite-inner hashes w u note =
      if-elim (λ (x : World S). x.inner ≡ w.inner) (not (is_admin w u))
        (λ _. send_to-inner w u (error admin_permission_required))
        (λ _.
          answer_invite-inner (record w { storage = (invitation hashes w u note).1 }) u
            (new_invite_code draws.secret) (invitation hashes w u note).0)

  answer_audit_log-inner :
      (w : World S) (u : Text) (r : Result (List AuditLogSummary) Text)
      → (Chat.answer_audit_log api draws w u r).inner ≡ w.inner
  unfolding Chat.answer_audit_log
  answer_audit_log-inner w u (ok entries) = send_to-inner w u _
  answer_audit_log-inner w u (err e) = send_to-inner w u _

  pub send_audit_log-inner :
      (w : World S) (u : Text) (limit : ℕ)
      → (Chat.send_audit_log api draws w u limit).inner ≡ w.inner
  unfolding Chat.send_audit_log
  send_audit_log-inner w u limit =
      if-elim (λ (x : World S). x.inner ≡ w.inner) (not (is_admin w u))
        (λ _. send_to-inner w u (error admin_permission_required))
        (λ _. answer_audit_log-inner w u (api.audit_log w.storage (Chat.clamp_limit limit)))

-- So does a frame of a screen share.
module _ {S : Type 0} where
  relay_named-inner :
      (w : World S) (u : Text) (f : ScreenShareFramePayload) (share : ScreenShareInfo)
      (o : Option Text)
      → (Screen.relay_named w u f share o).inner ≡ w.inner
  unfolding Screen.relay_named broadcast_except
  relay_named-inner w u f share none = refl
  relay_named-inner w u f share (some name) = refl

  relay_checked-inner :
      (w : World S) (u : Text) (f : ScreenShareFramePayload)
      (r : Result ScreenShareInfo ErrorMessage)
      → (Screen.relay_checked w u f r).inner ≡ w.inner
  unfolding Screen.relay_checked
  relay_checked-inner w u f (err e) = send_to-inner w u (error e)
  relay_checked-inner w u f (ok share) = relay_named-inner w u f share (name_of w u)

  pub broadcast_screen_share_frame-inner :
      (w : World S) (u : Text) (f : ScreenShareFramePayload)
      → (Screen.broadcast_screen_share_frame w u f).inner ≡ w.inner
  unfolding Screen.broadcast_screen_share_frame
  broadcast_screen_share_frame-inner w u f =
      relay_checked-inner w u f
        (Screen.check_frame f >>= Screen.check_share f (get u w.inner.screen_shares))
