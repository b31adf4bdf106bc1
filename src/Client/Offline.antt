-- ===== src/Client/Offline.antt =====
-- A client without a network (crates/light-discord-client/src/app.rs) has nothing that lives on one.
use light_discord.Common.{
  Bool, List, Option, Option-cases, Text, [], false, if-elim, inl, inr, is_empty, none, refl, some,
  subst, sym, trim, true, ◌∙◌, ◌∷◌, ◌≡◌,
}
use light_discord.Protocol.{
  ClientFrame, WelcomeFields, welcome, invite_created, audit_log, channel_joined, user_list,
  message, message_deleted, voice_state, screen_share_started, screen_share_stopped,
  screen_share_frame_sent, error, leave_voice, delete_message, admin_list_audit_log,
  admin_create_invite,
}
use light_discord.Client.{LightDiscordApp, NetworkHandle}
use light_discord.Client.Settings.{ScreenShareSettings}
use light_discord.Client.Frames.{
  Host, apply_server_frame, apply_welcome, save_and_update_session_token,
}
use light_discord.Client.Commands.{
  Action, connects, disconnects, sends, joins_voice, leaves_voice, stops_sharing, deletes,
  requests_audit_log, creates_invite, shares, polled, ClientEvent, connected, disconnected, server,
  failed, act, act_all, connect, lacks_token, send, disconnect_app, send_body, send_input,
  start_voice, join_voice_room, leave_voice_room, start_sharing, stop_sharing, apply_event, poll,
}

-- No connection, no identity, no rights, no voice, and no screen shares.
abbrev pub IsOffline : LightDiscordApp → Type 0
IsOffline app =
    (app.connected ≡ false)
    × (app.user_id ≡ none)
    × (app.is_admin ≡ false)
    × (app.voice ≡ none)
    × (app.local_screen_share ≡ none)
    × (app.remote_screen_shares ≡ [])

abbrev OfflineIf : LightDiscordApp → Option NetworkHandle → Type 0
OfflineIf app none = IsOffline app
OfflineIf app (some network) = Unit {0}

-- Without a network the client is offline.
abbrev pub IsQuiet : LightDiscordApp → Type 0
IsQuiet app = OfflineIf app app.network

abbrev Kept : LightDiscordApp → Option NetworkHandle → LightDiscordApp → Type 0
Kept app o after = app.network ≡ o → IsQuiet app → IsQuiet after

send-Kept :
    (app : LightDiscordApp) (f : ClientFrame) (o : Option NetworkHandle) → Kept app o (send app f o)
unfolding send
send-Kept app f none e q = q
send-Kept app f (some network) e q = tt

send_body-Kept :
    (app : LightDiscordApp) (body : Text) (o : Option NetworkHandle)
    → Kept app o (send_body app body o)
unfolding send_body
send_body-Kept app body none e q = q
send_body-Kept app body (some network) e q = tt

send_input-IsQuiet : (app : LightDiscordApp) → IsQuiet app → IsQuiet (send_input app)
unfolding send_input
send_input-IsQuiet app q =
    if-elim IsQuiet (is_empty (trim app.input)) (λ _. q)
      (λ _. send_body-Kept app (trim app.input) app.network refl q)

silent-OfflineIf :
    (app : LightDiscordApp) (o : Option NetworkHandle)
    → OfflineIf app o
    → OfflineIf (record app { voice = none }) o
silent-OfflineIf app none q = (q.0, q.1, q.2, refl, q.4, q.5)
silent-OfflineIf app (some network) q = tt

leave_voice_room-IsQuiet : (app : LightDiscordApp) → IsQuiet app → IsQuiet (leave_voice_room app)
unfolding leave_voice_room
leave_voice_room-IsQuiet app q =
    silent-OfflineIf (send app leave_voice app.network) (send app leave_voice app.network).network
      (send-Kept app leave_voice app.network refl q)

start_voice-Kept :
    (app : LightDiscordApp) (o : Option NetworkHandle) (user_id udp_addr : Option Text)
    → Kept app o (start_voice app o user_id udp_addr)
unfolding start_voice
start_voice-Kept app none user_id udp_addr e q = q
start_voice-Kept app (some network) none udp_addr e q = q
start_voice-Kept app (some network) (some user_id) none e q = q
start_voice-Kept app (some network) (some user_id) (some udp_addr) e q = tt

connect-IsQuiet : (app : LightDiscordApp) → IsQuiet app → IsQuiet (connect app)
unfolding connect
connect-IsQuiet app q =
    if-elim IsQuiet app.connected (λ _. q)
      (λ _. if-elim IsQuiet (lacks_token app.auth_mode app.session_token) (λ _. q) (λ _. tt))

start_sharing-Kept :
    (app : LightDiscordApp) (selected : Bool) (settings : ScreenShareSettings)
    (o : Option NetworkHandle)
    → Kept app o (start_sharing app selected settings o)
unfolding start_sharing
start_sharing-Kept app false settings o e q = q
start_sharing-Kept app true settings none e q = q
start_sharing-Kept app true settings (some network) e q =
    subst (OfflineIf (start_sharing app true settings (some network))) (sym e) tt

stop_sharing-IsQuiet : (app : LightDiscordApp) → IsQuiet app → IsQuiet (stop_sharing app)
unfolding stop_sharing
stop_sharing-IsQuiet app q = stopped app.network q
  where
    stopped : (o : Option NetworkHandle) → OfflineIf app o → OfflineIf (stop_sharing app) o
    stopped none h = (h.0, h.1, h.2, h.3, refl, h.5)
    stopped (some network) h = tt

apply_welcome-network :
    (host : Host) (app : LightDiscordApp) (w : WelcomeFields)
    → (apply_welcome host app w).network ≡ app.network
unfolding apply_welcome save_and_update_session_token
apply_welcome-network host app w = elim (Option-cases w.session_token) [
  | inl e ↦ rw e refl
  | inr (token, e) ↦ rw e refl
]

-- What the server sends does not touch the handle of the network.
apply_event-network :
    (host : Host) (app : LightDiscordApp) (event : ClientEvent)
    → (apply_event host app event).network ≡ app.network
unfolding apply_event apply_server_frame
apply_event-network host app connected = refl
apply_event-network host app (disconnected reason) = refl
apply_event-network host app (failed m) = refl
apply_event-network host app (server (welcome w)) = apply_welcome-network host app w
apply_event-network host app (server (invite_created code)) = refl
apply_event-network host app (server (audit_log entries)) = refl
apply_event-network host app (server (channel_joined channel_id)) = refl
apply_event-network host app (server (user_list users)) = refl
apply_event-network host app (server (message m)) = refl
apply_event-network host app (server (message_deleted id channel_id by at)) = refl
apply_event-network host app (server (voice_state room_id users)) = refl
apply_event-network host app (server (screen_share_started f)) = refl
apply_event-network host app (server (screen_share_stopped user_id)) = refl
apply_event-network host app (server (screen_share_frame_sent f)) = refl
apply_event-network host app (server (error m)) = refl

poll-Kept :
    (host : Host) (app : LightDiscordApp) (event : ClientEvent) (o : Option NetworkHandle)
    → Kept app o (poll host app event o)
unfolding poll
poll-Kept host app event none e q = q
poll-Kept host app event (some network) e q =
    subst (OfflineIf (apply_event host app event)) (sym (apply_event-network host app event ∙ e)) tt

act-IsQuiet :
    (host : Host) (app : LightDiscordApp) (a : Action) → IsQuiet app → IsQuiet (act host app a)
unfolding act disconnect_app join_voice_room
act-IsQuiet host app connects q = connect-IsQuiet app q
act-IsQuiet host app disconnects q = (refl, refl, refl, refl, refl, refl)
act-IsQuiet host app sends q = send_input-IsQuiet app q
act-IsQuiet host app joins_voice q =
    start_voice-Kept app app.network app.user_id app.udp_voice_addr refl q
act-IsQuiet host app leaves_voice q = leave_voice_room-IsQuiet app q
act-IsQuiet host app stops_sharing q = stop_sharing-IsQuiet app q
act-IsQuiet host app (deletes id) q = send-Kept app (delete_message id) app.network refl q
act-IsQuiet host app requests_audit_log q =
    send-Kept app (admin_list_audit_log 50) app.network refl q
act-IsQuiet host app creates_invite q =
    send-Kept app (admin_create_invite app.invite_note) app.network refl q
act-IsQuiet host app (shares selected settings) q =
    start_sharing-Kept app selected settings app.network refl q
act-IsQuiet host app (polled event) q = poll-Kept host app event app.network refl q

-- Whatever the user does and whatever events are polled, from a client that is offline when it has
-- no network: whenever it has no network it is not connected, has no identity, no administrator's
-- rights, no voice and no screen share, its own or a remote one.
pub act_all-IsQuiet :
    (host : Host) (app : LightDiscordApp) (actions : List Action)
    → IsQuiet app
    → IsQuiet (act_all host app actions)
unfolding act_all
act_all-IsQuiet host app [] q = q
act_all-IsQuiet host app (a ∷ actions) q =
    act_all-IsQuiet host (act host app a) actions (act-IsQuiet host app a q)
