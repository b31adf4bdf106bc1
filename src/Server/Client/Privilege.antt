-- ===== src/Server/Client/Privilege.antt =====
-- Who is sent invitation codes and the audit log (crates/light-discord-server/src/main.rs).
use light_discord.Common.{Bool, List, Result, Text, err, ok, refl, subst, sym, text, ℕ, ◌≡◌}
use light_discord.Protocol.{
  ClientFrame, ErrorMessage, hello, register, login, resume_session, join_channel, send_message,
  delete_message, admin_list_audit_log, admin_create_invite, join_voice, leave_voice,
  voice_heartbeat, start_screen_share, stop_screen_share, screen_share_frame, disconnect, error,
  invalid_client_frame, already_authenticated,
}
use light_discord.Common.Maps.{Map}
use light_discord.Auth.{Hashes}
use light_discord.Wire.Packet.{VoicePacket, VoicePacketBinaryError}
use light_discord.Wire.Decode.{decode_voice_packet_binary}
use light_discord.Storage.Interface.{Storage}
use light_discord.Server.State.{
  SocketAddr, UserConnection, World, broadcast_user_list, register_connection,
}
use light_discord.Server.Chat.{Draws, send_channel_history}
use light_discord.Server.Voice as Voice
use light_discord.Server.Sent.{Adds, Adds-none, Adds-one, join_voice-Grows, leave_voice-Grows}
use light_discord.Server.Sent.Handlers.{
  IsPermitted, Permits, to_one, to_all, then_more, quiet-IsPermitted, disconnect_user-Permits,
  start_screen_share-Permits, stop_screen_share-Permits, broadcast_screen_share_frame-Permits,
}
use light_discord.Server.Sent.ChatHandlers.{
  send_channel_history-Permits, send_chat_message-Permits, delete_chat_message-Permits,
  create_invite-Permits, send_audit_log-Permits,
}
use light_discord.Server.Client.Changes.{welcome_to, welcomed, listed}
use light_discord.Server.Login.{AuthenticatedUser, authenticate_first_frame}
use light_discord.Server.Client.{
  Event, accept, line, closed, datagram, purge, handle, handle_frame, open_connection, greet,
  answer_first,
}

module _ {S : Type 0} where
  relay_decoded-sent :
      (w : World S) (buf : List ℕ) (from : SocketAddr)
      (r : Result VoicePacket VoicePacketBinaryError)
      → (Voice.relay_decoded w buf from r).0.sent ≡ w.sent
  unfolding Voice.relay_decoded Voice.relay_packet Voice.remember_voice_addr
  relay_decoded-sent w buf from (ok p) = refl
  relay_decoded-sent w buf from (err e) = refl

module _ {S : Type 0} (api : Storage S) (hashes : Hashes) (allow_dev_auth : Bool) where
  nothing : (users : Map UserConnection) (w : World S) → Permits users w w
  nothing users w = Adds-none (IsPermitted users) (quiet-IsPermitted users) w.sent

  greet-Permits :
      (users : Map UserConnection) (draws : Draws) (w : World S) (tx : ℕ) (udp : Text)
      (a : AuthenticatedUser)
      → Permits users w (greet api hashes allow_dev_auth draws w tx udp a)
  unfolding greet broadcast_user_list register_connection
  greet-Permits users draws w tx udp a =
      then_more users w.sent (listed api hashes allow_dev_auth w tx udp a).sent _
        (then_more users w.sent (welcomed api hashes allow_dev_auth w tx udp a).sent _
          (Adds-one (IsPermitted users) (quiet-IsPermitted users) w.sent
            (tx, welcome_to api hashes allow_dev_auth udp a)
            (quiet-IsPermitted users tx (welcome_to api hashes allow_dev_auth udp a) refl))
          (to_all users (welcomed api hashes allow_dev_auth w tx udp a) _ refl))
        (then_more users (listed api hashes allow_dev_auth w tx udp a).sent
          (send_channel_history api draws (listed api hashes allow_dev_auth w tx udp a) a.user_id
            (text "general")).sent
          _
          (send_channel_history-Permits api draws users
            (listed api hashes allow_dev_auth w tx udp a) a.user_id (text "general"))
          (to_all users
            (send_channel_history api draws (listed api hashes allow_dev_auth w tx udp a) a.user_id
              (text "general"))
            _ refl))

  answer_first-Permits :
      (users : Map UserConnection) (draws : Draws) (w : World S) (tx : ℕ) (udp : Text)
      (r : Result AuthenticatedUser ErrorMessage)
      → Permits users w (answer_first api hashes allow_dev_auth draws w tx udp r)
  unfolding answer_first
  answer_first-Permits users draws w tx udp (err e) =
      Adds-one (IsPermitted users) (quiet-IsPermitted users) w.sent (tx, error e)
        (quiet-IsPermitted users tx (error e) refl)
  answer_first-Permits users draws w tx udp (ok a) = greet-Permits users draws w tx udp a

  handle_frame-Permits :
      (draws : Draws) (w : World S) (u : Text) (f : Result ClientFrame Text)
      → Permits w.inner.users w (handle_frame api hashes allow_dev_auth draws w u f)
  unfolding handle_frame
  handle_frame-Permits draws w u (ok (hello name)) =
      to_one w.inner.users w u (error already_authenticated) refl
  handle_frame-Permits draws w u (ok (register code name password)) =
      to_one w.inner.users w u (error already_authenticated) refl
  handle_frame-Permits draws w u (ok (login name password)) =
      to_one w.inner.users w u (error already_authenticated) refl
  handle_frame-Permits draws w u (ok (resume_session token)) =
      to_one w.inner.users w u (error already_authenticated) refl
  handle_frame-Permits draws w u (ok (join_channel channel)) =
      send_channel_history-Permits api draws w.inner.users w u channel
  handle_frame-Permits draws w u (ok (send_message channel body)) =
      send_chat_message-Permits api draws w.inner.users w u channel body
  handle_frame-Permits draws w u (ok (delete_message id)) =
      delete_chat_message-Permits api draws w.inner.users w u id
  handle_frame-Permits draws w u (ok (admin_list_audit_log limit)) =
      send_audit_log-Permits api draws w u limit
  handle_frame-Permits draws w u (ok (admin_create_invite note)) =
      create_invite-Permits api draws hashes w u note
  handle_frame-Permits draws w u (ok (join_voice r)) =
      join_voice-Grows (IsPermitted w.inner.users) (quiet-IsPermitted w.inner.users) w u r
  handle_frame-Permits draws w u (ok leave_voice) =
      leave_voice-Grows (IsPermitted w.inner.users) (quiet-IsPermitted w.inner.users) w u
  handle_frame-Permits draws w u (ok (voice_heartbeat r)) =
      join_voice-Grows (IsPermitted w.inner.users) (quiet-IsPermitted w.inner.users) w u r
  handle_frame-Permits draws w u (ok (start_screen_share r)) =
      start_screen_share-Permits w.inner.users w u r
  handle_frame-Permits draws w u (ok stop_screen_share) =
      stop_screen_share-Permits w.inner.users w u
  handle_frame-Permits draws w u (ok (screen_share_frame f)) =
      broadcast_screen_share_frame-Permits w.inner.users w u f
  handle_frame-Permits draws w u (ok disconnect) = disconnect_user-Permits w.inner.users w u
  handle_frame-Permits draws w u (err e) =
      to_one w.inner.users w u (error (invalid_client_frame e)) refl

  -- Whatever the event, an invitation code or the audit log goes to a channel only if it is that
  -- of a connection whose user is an administrator.
  pub handle-IsPermitted :
      (draws : Draws) (w : World S) (e : Event)
      → Adds (IsPermitted w.inner.users) w.sent (handle api hashes allow_dev_auth draws w e).sent
  unfolding handle open_connection Voice.relay_step
  handle-IsPermitted draws w (accept tx udp frame) =
      answer_first-Permits w.inner.users draws
        (record w {
          storage = (authenticate_first_frame api hashes draws allow_dev_auth w.storage frame).1;
        })
        tx udp (authenticate_first_frame api hashes draws allow_dev_auth w.storage frame).0
  handle-IsPermitted draws w (line u parsed) = handle_frame-Permits draws w u parsed
  handle-IsPermitted draws w (closed u) = disconnect_user-Permits w.inner.users w u
  handle-IsPermitted draws w (datagram buf from) =
      subst (Adds (IsPermitted w.inner.users) w.sent)
        (sym (relay_decoded-sent w buf from (decode_voice_packet_binary buf)))
        (nothing w.inner.users w)
  handle-IsPermitted draws w purge = nothing w.inner.users w
