-- ===== src/Client/Frames.antt =====
-- `apply_server_frame` of crates/light-discord-client/src/app.rs. The saving of the session token and
-- the decoders of base64 and of pictures are arguments.
use light_discord.Common.{
  Bool, List, Option, Result, Text, [], err, false, if◌then◌else◌, keep, leb, none, not, ok, some,
  text, text_eq, true, ℕ, ◌++◌, ◌∷◌,
}
use light_discord.Common.Decimal.{decimal}
use light_discord.Common.Maps.{Map, get, insert, remove}
use light_discord.Protocol.{
  ServerFrame, WelcomeFields, ShareStarted, ShareFrame, welcome, invite_created, audit_log,
  channel_joined, user_list, message, message_deleted, voice_state, screen_share_started,
  screen_share_stopped, screen_share_frame_sent, error, screen_share_codec_jpeg,
}
use light_discord.SessionToken.{SessionTokenStore, keyring, file}
use light_discord.Client.{LightDiscordApp, RemoteScreenShare, ColorImage, shown, refused}

pub record Host : Type 0 where
  -- `save_session_token`, of the server's address and the token
  pub save : Text → Text → Result SessionTokenStore Text
  pub decode_base64 : Text → Result (List ℕ) Text
  pub decode_image : List ℕ → Result ColorImage Text

abbrev pub store_name : SessionTokenStore → Text
store_name keyring = text "keyring"
store_name file = text "file"

unfoldable pub saved_status : Result SessionTokenStore Text → Text
saved_status (ok store) = text "saved to " ++ store_name store
saved_status (err e) = text "failed to save token"

unfoldable pub save_and_update_session_token : Host → LightDiscordApp → Text → LightDiscordApp
unfolding saved_status
save_and_update_session_token host app token = record app {
  session_token_status = saved_status (host.save app.server_addr token);
}

abbrev with_token : Host → Option Text → LightDiscordApp → LightDiscordApp
with_token host none app = app
with_token host (some token) app =
    save_and_update_session_token host (record app { session_token = token }) token

unfoldable pub apply_welcome : Host → LightDiscordApp → WelcomeFields → LightDiscordApp
unfolding save_and_update_session_token
apply_welcome host app w =
    record (with_token host w.session_token (record app {
      user_id = some w.user_id;
      is_admin = w.is_admin;
      channel_id = w.default_channel;
      udp_voice_addr = some w.udp_voice_addr;
    })) { connected = true; status = shown (text "connected") }

unfoldable pub share_of_start : ShareStarted → RemoteScreenShare
share_of_start f = record {
  display_name = f.display_name;
  source_name = f.source_name;
  width = f.width;
  height = f.height;
  mode = f.mode;
  resolution = f.resolution;
  target_fps = f.target_fps;
  codec = f.active_codec;
  transport = f.transport;
  latest_frame = none;
  latest_sequence = none;
  status = text "waiting for frame";
}

unfoldable pub share_of_frame : ShareFrame → RemoteScreenShare
share_of_frame f = record {
  display_name = f.display_name;
  source_name = text "Screen share";
  width = f.width;
  height = f.height;
  mode = f.mode;
  resolution = f.resolution;
  target_fps = f.target_fps;
  codec = f.codec;
  transport = f.transport;
  latest_frame = none;
  latest_sequence = none;
  status = text "waiting for frame";
}

-- `entry(user_id).or_insert_with(..)`
abbrev pub share_or_new : ShareFrame → Option RemoteScreenShare → RemoteScreenShare
share_or_new f none = share_of_frame f
share_or_new f (some share) = share

-- A frame that is no newer than the latest.
unfoldable pub is_stale : ℕ → Option ℕ → Bool
is_stale sequence none = false
is_stale sequence (some latest) = leb sequence latest

-- The picture and the status after the two decoders.
unfoldable pub decoded : ℕ → Result ColorImage Text → Option ColorImage × Text
decoded sequence (ok picture) = (some picture, text "frame " ++ decimal sequence)
decoded sequence (err e) = (none, text "decode failed: " ++ e)

unfoldable pub decoded_base64 : Host → ℕ → Result (List ℕ) Text → Option ColorImage × Text
unfolding decoded
decoded_base64 host sequence (ok bytes) = decoded sequence (host.decode_image bytes)
decoded_base64 host sequence (err e) = (none, text "base64 failed: " ++ e)

-- A frame that is newer.
unfoldable pub with_frame : Host → ShareFrame → RemoteScreenShare → RemoteScreenShare
unfolding decoded_base64
with_frame host f share =
    let (picture, status) =
      if not (text_eq f.codec screen_share_codec_jpeg)
      then (none, text "unsupported codec: " ++ f.codec)
      else decoded_base64 host f.sequence (host.decode_base64 f.data_base64) in
    record share {
      display_name = f.display_name;
      width = f.width;
      height = f.height;
      mode = f.mode;
      resolution = f.resolution;
      target_fps = f.target_fps;
      codec = f.codec;
      transport = f.transport;
      latest_sequence = some f.sequence;
      latest_frame = picture;
      status = status;
    }

unfoldable pub apply_share_frame : Host → ShareFrame → Map RemoteScreenShare → Map RemoteScreenShare
unfolding is_stale with_frame share_of_frame
apply_share_frame host f shares =
    let share = share_or_new f (get f.user_id shares) in
    if is_stale f.sequence share.latest_sequence
    then shares
    else insert f.user_id (with_frame host f share) shares

unfoldable pub apply_server_frame : Host → LightDiscordApp → ServerFrame → LightDiscordApp
unfolding apply_welcome share_of_start apply_share_frame
apply_server_frame host app (welcome w) = apply_welcome host app w
apply_server_frame host app (invite_created code) = record app {
  latest_invite_code = code;
  status = shown (text "invite created");
}
apply_server_frame host app (audit_log entries) = record app {
  audit_entries = entries;
  status = shown (text "audit log loaded");
}
apply_server_frame host app (channel_joined channel_id) = record app {
  channel_id = channel_id;
  messages = [];
}
apply_server_frame host app (user_list users) = record app { users = users }
apply_server_frame host app (message m) = record app {
  messages = if text_eq m.channel_id app.channel_id then app.messages ++ (m ∷ []) else app.messages;
}
apply_server_frame host app (message_deleted message_id channel_id by at) = record app {
  messages =
      if text_eq channel_id app.channel_id
      then keep (λ m. not (text_eq m.id message_id)) app.messages
      else app.messages;
}
apply_server_frame host app (voice_state room_id users) = record app {
  voice_users = if text_eq room_id app.voice_room_id then users else app.voice_users;
}
apply_server_frame host app (screen_share_started f) = record app {
  remote_screen_shares = insert f.user_id (share_of_start f) app.remote_screen_shares;
}
apply_server_frame host app (screen_share_stopped user_id) = record app {
  remote_screen_shares = remove user_id app.remote_screen_shares;
}
apply_server_frame host app (screen_share_frame_sent f) = record app {
  remote_screen_shares = apply_share_frame host f app.remote_screen_shares;
}
apply_server_frame host app (error m) = record app { status = refused m }

unfoldable pub apply_all : Host → LightDiscordApp → List ServerFrame → LightDiscordApp
unfolding apply_server_frame
apply_all host app [] = app
apply_all host app (f ∷ fs) = apply_all host (apply_server_frame host app f) fs
