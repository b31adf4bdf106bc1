-- ===== src/Server/Client/Changes.antt =====
-- The changes that a handler makes to `InnerState` (crates/light-discord-server/src/main.rs): each
-- handler takes the write lock at most once, so that it makes at most one of them.
use light_discord.Common.{
  Bool, List, Option, Result, Text, [], err, if-elim, inl, inr, none, ok, refl, some, subst, sym,
  text, ℕ, ◌∷◌, ◌≡◌, ◌⊎◌,
}
use light_discord.Common.Maps.{insert, remove, contains_key}
use light_discord.Protocol.{
  ServerFrame, ClientFrame, ErrorMessage, hello, register, login, resume_session, join_channel,
  send_message, delete_message, admin_list_audit_log, admin_create_invite, join_voice, leave_voice,
  voice_heartbeat, start_screen_share, stop_screen_share, screen_share_frame, disconnect,
  ShareRequest, error, welcome, invalid_client_frame, already_authenticated, screen_share_stopped,
}
use light_discord.Auth.{Hashes}
use light_discord.Wire.Packet.{VoicePacket, VoicePacketBinaryError}
use light_discord.Wire.Decode.{decode_voice_packet_binary}
use light_discord.Storage.Interface.{Storage}
use light_discord.Server.State.{
  SocketAddr, UserConnection, InnerState, ScreenShareInfo, World, broadcast, broadcast_except,
  broadcast_user_list, name_of, register_connection,
}
use light_discord.Server.Chat.{Draws}
use light_discord.Server.Voice as Voice
use light_discord.Server.Voice.{leave_rooms, joined, rooms_of, forgotten}
use light_discord.Server.Screen as Screen
use light_discord.Server.Screen.Relay.{IsValidShare, check_start-IsValidShare}
use light_discord.Server.Login.{AuthenticatedUser, authenticate_first_frame}
use light_discord.Server.Unchanged.{
  broadcast_screen_share_frame-inner, send_to-inner, broadcast_voice_states-inner,
  send_channel_history-inner, send_chat_message-inner, delete_chat_message-inner,
  create_invite-inner, send_audit_log-inner,
}
use light_discord.Server.Client.{
  send_own, Event, accept, line, closed, datagram, purge, handle, handle_frame, serve,
  open_connection, greet, answer_first,
}

pub data Change : InnerState → InnerState → Type 0 where
  registers :
      {i : InnerState} (u : Text) (c : UserConnection)
      → Change i (record i { users = insert u c i.users })
  forgets :
      {i : InnerState} (u : Text)
      → Change i (record {
        users = remove u i.users;
        voice_rooms = leave_rooms u i.voice_rooms;
        voice_addrs = remove u i.voice_addrs;
        screen_shares = remove u i.screen_shares;
      })
  joins :
      {i : InnerState} (u r : Text) → Change i (record i { voice_rooms = joined u r i.voice_rooms })
  leaves :
      {i : InnerState} (u : Text)
      → Change i (record i { voice_rooms = leave_rooms u i.voice_rooms })
  remembers :
      {i : InnerState} (u : Text) (a : SocketAddr)
      → Change i (record i { voice_addrs = insert u a i.voice_addrs })
  shares :
      {i : InnerState} (u : Text) (share : ScreenShareInfo)
      → IsValidShare share
      → Change i (record i { screen_shares = insert u share i.screen_shares })
  unshares :
      {i : InnerState} (u : Text) → Change i (record i { screen_shares = remove u i.screen_shares })

abbrev pub AtMostOne : InnerState → InnerState → Type 0
AtMostOne i j = (j ≡ i) ⊎ Change i j

module _ {S : Type 0} where
  pub disconnect_user-inner :
      (w : World S) (u : Text) → (Voice.disconnect_user w u).inner ≡ (forgotten w u).inner
  unfolding Voice.disconnect_user broadcast_user_list broadcast
  disconnect_user-inner w u =
      if-elim
        (λ (x : World S).
          (Voice.broadcast_voice_states (broadcast_user_list x)
            (rooms_of u w.inner.voice_rooms)).inner
          ≡ (forgotten w u).inner)
        (contains_key u w.inner.screen_shares)
        (λ _.
          broadcast_voice_states-inner
            (broadcast_user_list (broadcast (forgotten w u) (screen_share_stopped u)))
            (rooms_of u w.inner.voice_rooms))
        (λ _.
          broadcast_voice_states-inner (broadcast_user_list (forgotten w u))
            (rooms_of u w.inner.voice_rooms))

  leave_voice-Change : (w : World S) (u : Text) → Change w.inner (Voice.leave_voice w u).inner
  unfolding Voice.leave_voice
  leave_voice-Change w u =
      subst (Change w.inner)
        (sym (
          broadcast_voice_states-inner (Voice.with_rooms w (leave_rooms u w.inner.voice_rooms))
            (rooms_of u w.inner.voice_rooms)))
        (leaves u)

  disconnect_user-Change :
      (w : World S) (u : Text) → Change w.inner (Voice.disconnect_user w u).inner
  unfolding forgotten
  disconnect_user-Change w u = subst (Change w.inner) (sym (disconnect_user-inner w u)) (forgets u)

  join_voice-Change : (w : World S) (u r : Text) → Change w.inner (Voice.join_voice w u r).inner
  unfolding Voice.join_voice Voice.broadcast_voice_state broadcast
  join_voice-Change w u r = joins u r

  start_named-AtMostOne :
      (w : World S) (u : Text) (r : ShareRequest) (requested : List Text) (codec : Text)
      (o : Option Text)
      → IsValidShare (Screen.share_info r codec)
      → AtMostOne w.inner (Screen.start_named w u r requested codec o).inner
  unfolding Screen.start_named Screen.with_share broadcast_except
  start_named-AtMostOne w u r requested codec none v = inl refl
  start_named-AtMostOne w u r requested codec (some name) v =
      inr (shares u (Screen.share_info r codec) v)

  start_checked-AtMostOne :
      (w : World S) (u : Text) (r : ShareRequest) (c : Result (List Text × Text) ErrorMessage)
      → Screen.check_start r ≡ c
      → AtMostOne w.inner (Screen.start_checked w u r c).inner
  unfolding Screen.start_checked
  start_checked-AtMostOne w u r (err e) h = inl (send_to-inner w u (error e))
  start_checked-AtMostOne w u r (ok (requested, codec)) h =
      start_named-AtMostOne w u r requested codec (name_of w u)
        (check_start-IsValidShare r requested codec h)

  start_screen_share-AtMostOne :
      (w : World S) (u : Text) (r : ShareRequest)
      → AtMostOne w.inner (Screen.start_screen_share w u r).inner
  unfolding Screen.start_screen_share
  start_screen_share-AtMostOne w u r = start_checked-AtMostOne w u r (Screen.check_start r) refl

  stop_screen_share-Change :
      (w : World S) (u : Text) → Change w.inner (Screen.stop_screen_share w u).inner
  unfolding Screen.stop_screen_share broadcast_except
  stop_screen_share-Change w u =
      if-elim (λ (x : World S). Change w.inner x.inner) (contains_key u w.inner.screen_shares)
        (λ _. unshares u) (λ _. unshares u)

  relay_decoded-AtMostOne :
      (w : World S) (buf : List ℕ) (from : SocketAddr)
      (r : Result VoicePacket VoicePacketBinaryError)
      → AtMostOne w.inner (Voice.relay_decoded w buf from r).0.inner
  unfolding Voice.relay_decoded Voice.relay_packet Voice.remember_voice_addr
  relay_decoded-AtMostOne w buf from (ok p) = inr (remembers p.user_id from)
  relay_decoded-AtMostOne w buf from (err e) = inl refl

module _ {S : Type 0} (api : Storage S) (hashes : Hashes) (allow_dev_auth : Bool) where
  -- The `Welcome` of a new connection.
  abbrev pub welcome_to : Text → AuthenticatedUser → ServerFrame
  welcome_to udp a = welcome (record {
    user_id = a.user_id;
    server_name = text "Light Discord Local";
    default_channel = text "general";
    udp_voice_addr = udp;
    session_token = a.session_token;
    is_admin = a.is_admin;
  })

  abbrev pub welcomed : World S → ℕ → Text → AuthenticatedUser → World S
  welcomed w tx udp a =
      send_own api hashes allow_dev_auth
        (register_connection w a.user_id a.display_name a.is_admin tx) tx (welcome_to udp a)

  abbrev pub listed : World S → ℕ → Text → AuthenticatedUser → World S
  listed w tx udp a = broadcast_user_list (welcomed w tx udp a)

  greet-Change :
      (draws : Draws) (w : World S) (tx : ℕ) (udp : Text) (a : AuthenticatedUser)
      → Change w.inner (greet api hashes allow_dev_auth draws w tx udp a).inner
  unfolding greet broadcast broadcast_user_list register_connection
  greet-Change draws w tx udp a =
      subst (Change w.inner)
        (sym (send_channel_history-inner api draws (listed w tx udp a) a.user_id (text "general")))
        (registers a.user_id
          (record { display_name = a.display_name; is_admin = a.is_admin; tx = tx }))

  answer_first-AtMostOne :
      (draws : Draws) (w : World S) (tx : ℕ) (udp : Text)
      (r : Result AuthenticatedUser ErrorMessage)
      → AtMostOne w.inner (answer_first api hashes allow_dev_auth draws w tx udp r).inner
  unfolding answer_first
  answer_first-AtMostOne draws w tx udp (err e) = inl refl
  answer_first-AtMostOne draws w tx udp (ok a) = inr (greet-Change draws w tx udp a)

  handle_frame-AtMostOne :
      (draws : Draws) (w : World S) (u : Text) (f : Result ClientFrame Text)
      → AtMostOne w.inner (handle_frame api hashes allow_dev_auth draws w u f).inner
  unfolding handle_frame
  handle_frame-AtMostOne draws w u (ok (hello name)) =
      inl (send_to-inner w u (error already_authenticated))
  handle_frame-AtMostOne draws w u (ok (register code name password)) =
      inl (send_to-inner w u (error already_authenticated))
  handle_frame-AtMostOne draws w u (ok (login name password)) =
      inl (send_to-inner w u (error already_authenticated))
  handle_frame-AtMostOne draws w u (ok (resume_session token)) =
      inl (send_to-inner w u (error already_authenticated))
  handle_frame-AtMostOne draws w u (ok (join_channel channel)) =
      inl (send_channel_history-inner api draws w u channel)
  handle_frame-AtMostOne draws w u (ok (send_message channel body)) =
      inl (send_chat_message-inner api draws w u channel body)
  handle_frame-AtMostOne draws w u (ok (delete_message id)) =
      inl (delete_chat_message-inner api draws w u id)
  handle_frame-AtMostOne draws w u (ok (admin_list_audit_log limit)) =
      inl (send_audit_log-inner api draws w u limit)
  handle_frame-AtMostOne draws w u (ok (admin_create_invite note)) =
      inl (create_invite-inner api draws hashes w u note)
  handle_frame-AtMostOne draws w u (ok (join_voice r)) = inr (join_voice-Change w u r)
  handle_frame-AtMostOne draws w u (ok leave_voice) = inr (leave_voice-Change w u)
  handle_frame-AtMostOne draws w u (ok (voice_heartbeat r)) = inr (join_voice-Change w u r)
  handle_frame-AtMostOne draws w u (ok (start_screen_share r)) = start_screen_share-AtMostOne w u r
  handle_frame-AtMostOne draws w u (ok stop_screen_share) = inr (stop_screen_share-Change w u)
  handle_frame-AtMostOne draws w u (ok (screen_share_frame f)) =
      inl (broadcast_screen_share_frame-inner w u f)
  handle_frame-AtMostOne draws w u (ok disconnect) = inr (disconnect_user-Change w u)
  handle_frame-AtMostOne draws w u (err e) =
      inl (send_to-inner w u (error (invalid_client_frame e)))

  -- Every event changes the state of the server by at most one of seven changes: a connection
  -- registered, a user forgotten, a room joined, the rooms left, a voice address remembered, a
  -- screen share that passed the checks recorded, or one removed.
  pub handle-AtMostOne :
      (draws : Draws) (w : World S) (e : Event)
      → AtMostOne w.inner (handle api hashes allow_dev_auth draws w e).inner
  unfolding handle open_connection Voice.relay_step
  handle-AtMostOne draws w (accept tx udp frame) =
      answer_first-AtMostOne draws
        (record w {
          storage = (authenticate_first_frame api hashes draws allow_dev_auth w.storage frame).1;
        })
        tx udp (authenticate_first_frame api hashes draws allow_dev_auth w.storage frame).0
  handle-AtMostOne draws w (line u parsed) = handle_frame-AtMostOne draws w u parsed
  handle-AtMostOne draws w (closed u) = inr (disconnect_user-Change w u)
  handle-AtMostOne draws w (datagram buf from) =
      relay_decoded-AtMostOne w buf from (decode_voice_packet_binary buf)
  handle-AtMostOne draws w purge = inl refl

  -- What every change keeps, every run of events keeps.
  pub serve-keeps :
      (P : InnerState → Type 0)
      → ((i j : InnerState) → Change i j → P i → P j)
      → (w : World S) (events : List (Draws × Event)) → P w.inner
      → P (serve api hashes allow_dev_auth w events).inner
  unfolding serve
  serve-keeps P keeps w [] p = p
  serve-keeps P keeps w ((draws, event) ∷ events) p =
      serve-keeps P keeps (handle api hashes allow_dev_auth draws w event) events
        (elim (handle-AtMostOne draws w event) [
          | inl same ↦ subst P (sym same) p
          | inr change ↦ keeps _ _ change p
        ])
