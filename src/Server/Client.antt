-- ===== src/Server/Client.antt =====
-- The events that the server's tasks handle (crates/light-discord-server/src/main.rs): a connection
-- and its first frame, a line of a connected client, the end of a connection, a voice datagram and
-- the hourly purge. Each handler runs as one step. The tasks interleave between the locks that a
-- handler takes, so that a run of events shows the orders in which handlers follow each other, not
-- those in which they overlap.
use light_discord.Common.{Bool, List, Result, Text, [], err, ok, text, ℕ, ◌++◌, ◌∷◌}
use light_discord.Protocol.{
  ClientFrame, hello, register, login, resume_session, join_channel, send_message, delete_message,
  admin_list_audit_log, admin_create_invite, join_voice, leave_voice, voice_heartbeat,
  start_screen_share, stop_screen_share, screen_share_frame, disconnect, new_chat_message,
  ErrorMessage, error, welcome, message, already_authenticated, invalid_client_frame, ServerFrame,
}
use light_discord.Auth.{Hashes}
use light_discord.Storage.Interface.{Storage}
use light_discord.Server.State.{
  SocketAddr, World, register_connection, send_to, broadcast, broadcast_user_list,
}
use light_discord.Server.Chat as Chat
use light_discord.Server.Chat.{Draws, send_channel_history}
use light_discord.Server.Voice as Voice
use light_discord.Server.Voice.{disconnect_user, relay_step}
use light_discord.Server.Screen as Screen
use light_discord.Server.Login.{AuthenticatedUser, authenticate_first_frame}
pub mod Changes
pub mod Privilege
pub mod Rooms
mod Examples

pub data Event : Type 0 where
  accept : ℕ → Text → ClientFrame → Event
  line : Text → Result ClientFrame Text → Event
  closed : Text → Event
  datagram : List ℕ → SocketAddr → Event
  purge : Event

module _ {S : Type 0} (api : Storage S) (hashes : Hashes) (allow_dev_auth : Bool) where
  -- `tx.send(frame)` on the handler's own channel.
  abbrev pub send_own : World S → ℕ → ServerFrame → World S
  send_own w tx frame = record w { sent = w.sent ++ ((tx, frame) ∷ []) }

  -- From `register_connection` to the loop.
  unfoldable pub greet : Draws → World S → ℕ → Text → AuthenticatedUser → World S
  greet draws w tx udp_voice_addr a =
      let registered = register_connection w a.user_id a.display_name a.is_admin tx in
      let welcomed = send_own registered tx (
        welcome (record {
          user_id = a.user_id;
          server_name = text "Light Discord Local";
          default_channel = text "general";
          udp_voice_addr = udp_voice_addr;
          session_token = a.session_token;
          is_admin = a.is_admin;
        })) in
      let listed = broadcast_user_list welcomed in
      let shown = send_channel_history api draws listed a.user_id (text "general") in
      broadcast shown (
        message (
          new_chat_message draws.now draws.id (text "general") (text "server") (text "server")
            (a.display_name ++ text " joined")))

  unfoldable pub answer_first :
      Draws → World S → ℕ → Text → Result AuthenticatedUser ErrorMessage → World S
  unfolding greet
  answer_first draws w tx udp_voice_addr (err e) = send_own w tx (error e)
  answer_first draws w tx udp_voice_addr (ok a) = greet draws w tx udp_voice_addr a

  -- `handle_client` up to its loop.
  unfoldable pub open_connection : Draws → World S → ℕ → Text → ClientFrame → World S
  unfolding answer_first
  open_connection draws w tx udp_voice_addr frame =
      let result = authenticate_first_frame api hashes draws allow_dev_auth w.storage frame in
      answer_first draws (record w { storage = result.1 }) tx udp_voice_addr result.0

  -- The `match` of the loop, on what `serde_json` makes of the line. `Disconnect` ends the loop.
  unfoldable pub handle_frame : Draws → World S → Text → Result ClientFrame Text → World S
  handle_frame draws w user_id (ok (hello name)) = send_to w user_id (error already_authenticated)
  handle_frame draws w user_id (ok (register code name password)) =
      send_to w user_id (error already_authenticated)
  handle_frame draws w user_id (ok (login name password)) =
      send_to w user_id (error already_authenticated)
  handle_frame draws w user_id (ok (resume_session token)) =
      send_to w user_id (error already_authenticated)
  handle_frame draws w user_id (ok (join_channel channel_id)) =
      send_channel_history api draws w user_id channel_id
  handle_frame draws w user_id (ok (send_message channel_id body)) =
      Chat.send_chat_message api draws w user_id channel_id body
  handle_frame draws w user_id (ok (delete_message message_id)) =
      Chat.delete_chat_message api draws w user_id message_id
  handle_frame draws w user_id (ok (admin_list_audit_log limit)) =
      Chat.send_audit_log api draws w user_id limit
  handle_frame draws w user_id (ok (admin_create_invite note)) =
      Chat.create_invite api draws hashes w user_id note
  handle_frame draws w user_id (ok (join_voice room_id)) = Voice.join_voice w user_id room_id
  handle_frame draws w user_id (ok leave_voice) = Voice.leave_voice w user_id
  handle_frame draws w user_id (ok (voice_heartbeat room_id)) = Voice.join_voice w user_id room_id
  handle_frame draws w user_id (ok (start_screen_share r)) = Screen.start_screen_share w user_id r
  handle_frame draws w user_id (ok stop_screen_share) = Screen.stop_screen_share w user_id
  handle_frame draws w user_id (ok (screen_share_frame f)) =
      Screen.broadcast_screen_share_frame w user_id f
  handle_frame draws w user_id (ok disconnect) = disconnect_user w user_id
  handle_frame draws w user_id (err e) = send_to w user_id (error (invalid_client_frame e))

  unfoldable pub handle : Draws → World S → Event → World S
  unfolding open_connection handle_frame
  handle draws w (accept tx udp_voice_addr frame) = open_connection draws w tx udp_voice_addr frame
  handle draws w (line user_id parsed) = handle_frame draws w user_id parsed
  handle draws w (closed user_id) = disconnect_user w user_id
  handle draws w (datagram buf from) = (relay_step w buf from).0
  handle draws w purge = record w { storage = (api.purge_expired draws.stored_now w.storage).1 }

  -- A run of events, each with what its handler draws.
  unfoldable pub serve : World S → List (Draws × Event) → World S
  unfolding handle
  serve w [] = w
  serve w ((draws, event) ∷ events) = serve (handle draws w event) events
