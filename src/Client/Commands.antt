-- ===== src/Client/Commands.antt =====
-- What the user and the network thread do to the client (crates/light-discord-client/src/app.rs):
-- connections, chat, voice and the local screen share, and the events that are polled.
use light_discord.Common.{
  Bool, List, Option, Text, [], false, if◌then◌else◌, is_empty, none, some, text, trim, true, ◌++◌,
  ◌∷◌,
}
use light_discord.Common.Decimal.{decimal}
use light_discord.Protocol.{
  ScreenShareMode, text_mode, game_mode, ScreenShareResolution, p1080, p720, ClientFrame,
  ServerFrame, hello, resume_session, send_message, delete_message, admin_list_audit_log,
  admin_create_invite, join_voice, leave_voice,
}
use light_discord.Client.{LightDiscordApp, AuthMode, NetworkHandle, shown}
use light_discord.Client as Client
use light_discord.Client.Settings.{ScreenShareSettings, target_fps}
use light_discord.Client.Frames.{Host, apply_server_frame}

unfoldable pub auth_frame : LightDiscordApp → AuthMode → ClientFrame
auth_frame app Client.login = ClientFrame.login app.display_name app.password
auth_frame app Client.register = ClientFrame.register app.invite_code app.display_name app.password
auth_frame app Client.session = resume_session app.session_token
auth_frame app Client.dev = hello app.display_name

-- `auth_mode == AuthMode::Session && session_token.trim().is_empty()`
unfoldable pub lacks_token : AuthMode → Text → Bool
lacks_token Client.session token = is_empty (trim token)
lacks_token Client.login token = false
lacks_token Client.register token = false
lacks_token Client.dev token = false

unfoldable pub connect : LightDiscordApp → LightDiscordApp
unfolding auth_frame lacks_token
connect app =
    let dialed : LightDiscordApp = record app {
      status = shown (text "connecting");
      messages = [];
      users = [];
      voice_users = [];
      audit_entries = [];
      latest_invite_code = [];
      network = some (record {
        addr = app.server_addr;
        auth_frame = auth_frame app app.auth_mode;
        commands = [];
      });
    } in
    if app.connected
    then app
    else if lacks_token app.auth_mode app.session_token
    then record app { status = shown (text "session token is empty") }
    else dialed

-- `network.send(frame)`, if there is a network.
unfoldable pub send : LightDiscordApp → ClientFrame → Option NetworkHandle → LightDiscordApp
send app frame none = app
send app frame (some network) = record app {
  network = some (record network { commands = frame ∷ network.commands });
}

-- `network.shutdown()` hands `Disconnect` to the thread of a handle that is dropped then.
unfoldable pub disconnect_app : LightDiscordApp → LightDiscordApp
disconnect_app app = record app {
  network = none;
  connected = false;
  is_admin = false;
  user_id = none;
  udp_voice_addr = none;
  users = [];
  voice_users = [];
  voice = none;
  local_screen_share = none;
  remote_screen_shares = [];
  status = shown (text "offline");
}

-- `send_message` of a body that is not empty.
unfoldable pub send_body : LightDiscordApp → Text → Option NetworkHandle → LightDiscordApp
send_body app body none = app
send_body app body (some network) = record app {
  network =
      some (record network { commands = send_message app.channel_id body ∷ network.commands });
  input = [];
}

unfoldable pub send_input : LightDiscordApp → LightDiscordApp
unfolding send_body
send_input app =
    let body = trim app.input in if is_empty body then app else send_body app body app.network

unfoldable pub start_voice :
    LightDiscordApp → Option NetworkHandle → Option Text → Option Text → LightDiscordApp
start_voice app none user_id udp_addr = app
start_voice app (some network) none udp_addr = app
start_voice app (some network) (some user_id) none = app
start_voice app (some network) (some user_id) (some udp_addr) = record app {
  network = some (record network { commands = join_voice app.voice_room_id ∷ network.commands });
  voice = some (record {
    udp_addr = udp_addr;
    user_id = user_id;
    room_id = app.voice_room_id;
    input_device_id = app.selected_input_device_id;
    output_device_id = app.selected_output_device_id;
  });
}

unfoldable pub join_voice_room : LightDiscordApp → LightDiscordApp
unfolding start_voice
join_voice_room app = start_voice app app.network app.user_id app.udp_voice_addr

unfoldable pub leave_voice_room : LightDiscordApp → LightDiscordApp
unfolding send
leave_voice_room app = record (send app leave_voice app.network) { voice = none }

abbrev pub screen_mode_label : ScreenShareMode → Text
screen_mode_label text_mode = text "Text"
screen_mode_label game_mode = text "Game"

abbrev pub screen_resolution_label : ScreenShareResolution → Text
screen_resolution_label p1080 = text "1080p"
screen_resolution_label p720 = text "720p"

unfoldable pub started_status : ScreenShareSettings → Text
unfolding target_fps decimal
started_status settings =
    text "sharing started: "
    ++ screen_mode_label settings.mode
    ++ text " / "
    ++ screen_resolution_label settings.resolution
    ++ text " / "
    ++ decimal (target_fps settings)
    ++ text " fps"

-- `start_screen_share` for the source that is selected, if it is in the list; the mode and the rate
-- are those of the settings.
unfoldable pub start_sharing :
    LightDiscordApp → Bool → ScreenShareSettings → Option NetworkHandle → LightDiscordApp
unfolding started_status
start_sharing app false settings network = record app {
  screen_share_status = text "no source selected";
}
start_sharing app true settings none = record app { screen_share_status = text "not connected" }
start_sharing app true settings (some network) = record app {
  local_screen_share = some settings;
  screen_share_status = started_status settings;
}

unfoldable pub stop_sharing : LightDiscordApp → LightDiscordApp
stop_sharing app = record app {
  local_screen_share = none;
  screen_share_status = text "sharing stopped";
}

pub data ClientEvent : Type 0 where
  connected : ClientEvent
  disconnected : Text → ClientEvent
  server : ServerFrame → ClientEvent
  failed : Text → ClientEvent

unfoldable pub apply_event : Host → LightDiscordApp → ClientEvent → LightDiscordApp
unfolding apply_server_frame
apply_event host app connected = record app { status = shown (text "connected"); connected = true }
apply_event host app (disconnected reason) = record app {
  status = shown reason;
  connected = false;
  voice = none;
  local_screen_share = none;
  remote_screen_shares = [];
}
apply_event host app (failed message) = record app { status = shown message }
apply_event host app (server frame) = apply_server_frame host app frame

-- `poll_network`, for one event: without a network there is none.
unfoldable pub poll : Host → LightDiscordApp → ClientEvent → Option NetworkHandle → LightDiscordApp
unfolding apply_event
poll host app event none = app
poll host app event (some network) = apply_event host app event

-- What may happen to the client.
pub data Action : Type 0 where
  connects disconnects sends joins_voice leaves_voice stops_sharing : Action
  deletes : Text → Action
  requests_audit_log : Action
  creates_invite : Action
  shares : Bool → ScreenShareSettings → Action
  polled : ClientEvent → Action

unfoldable pub act : Host → LightDiscordApp → Action → LightDiscordApp
unfolding connect disconnect_app send_input join_voice_room leave_voice_room stop_sharing
    start_sharing poll send
act host app connects = connect app
act host app disconnects = disconnect_app app
act host app sends = send_input app
act host app joins_voice = join_voice_room app
act host app leaves_voice = leave_voice_room app
act host app stops_sharing = stop_sharing app
act host app (deletes message_id) = send app (delete_message message_id) app.network
act host app requests_audit_log = send app (admin_list_audit_log 50) app.network
act host app creates_invite = send app (admin_create_invite app.invite_note) app.network
act host app (shares selected settings) = start_sharing app selected settings app.network
act host app (polled event) = poll host app event app.network

unfoldable pub act_all : Host → LightDiscordApp → List Action → LightDiscordApp
unfolding act
act_all host app [] = app
act_all host app (a ∷ as') = act_all host (act host app a) as'
