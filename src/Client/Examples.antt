-- ===== src/Client/Examples.antt =====
-- A client of one channel on which the theorems about the client are applied.
use light_discord.Common.{
  List, Text, [], arith, false, map, none, ok, refl, text, text_eq, trim, ◌∷◌, ◌≡◌,
}
use light_discord.Protocol.{ShareFrame, text_mode, game_mode, p720, p1080, screen_share_codec_jpeg}
use light_discord.Protocol.Defaults.{default_screen_share_requested_codecs}
use light_discord.Server.Screen.{check_start}
use light_discord.SessionToken.{file}
use light_discord.Storage.Memory.{MemoryInner, empty_inner}
use light_discord.Client.{LightDiscordApp, login, shown}
use light_discord.Client.Accepted.{start_request-accepted}
use light_discord.Client.Commands.{
  connects, joins_voice, polled, disconnected, disconnects, act_all,
}
use light_discord.Client.Frames.{Host, apply_share_frame, apply_all, apply_server_frame}
use light_discord.Client.Live.{Tracks}
use light_discord.Client.Live.Runs.{
  ChatCall, AreFresh, answered, says, erases, reaches, run, run-Tracks,
}
use light_discord.Server.State.{World, new_inner, name_of, is_admin, broadcast, send_to, send_on}
use light_discord.Server.Chat.{Draws}
use light_discord.Server.Chat as Chat
use light_discord.Server.Screen.Relay.Frames.{inbox}
use light_discord.Storage.Memory.Messages.{
  save_message, soft_delete_message, delete_found, delete_stored,
}
use light_discord.Common.Maps.{get, insert}
use light_discord.Protocol.{new_chat_message}
use light_discord.Storage.Types.{RetentionPolicy}
use light_discord.Client.Offline.{IsQuiet, act_all-IsQuiet}
use light_discord.Client.Settings.{new_settings}
use light_discord.Client.Shares.{IsUpdate, apply_share_frame-IsUpdate}
use light_discord.Client.Sharing.{ScreenShareSource, start_request}

abbrev host : Host
host = record {
  save = λ addr token. ok file;
  decode_base64 = λ t. ok t;
  decode_image = λ bytes. ok (record { width = 1; height = 1; rgba = bytes });
}

abbrev new_app : LightDiscordApp
new_app = record {
  server_addr = text "s";
  display_name = text "Ann";
  password = text "p";
  invite_code = [];
  session_token = [];
  session_token_status = [];
  auth_mode = login;
  status = shown (text "offline");
  channel_id = text "general";
  voice_room_id = text "voice-general";
  input = [];
  connected = false;
  is_admin = false;
  user_id = none;
  udp_voice_addr = none;
  users = [];
  voice_users = [];
  messages = [];
  audit_entries = [];
  invite_note = [];
  latest_invite_code = [];
  selected_input_device_id = none;
  selected_output_device_id = none;
  network = none;
  voice = none;
  voice_muted = false;
  voice_deafened = false;
  screen_share_status = [];
  local_screen_share = none;
  remote_screen_shares = [];
}

abbrev source : ScreenShareSource
source = record { id = text "display:1"; title = text "Screen"; width = 3840; height = 2160 }

start_request-accepted_example :
    check_start (start_request source (new_settings game_mode p1080 144))
    ≡ ok (default_screen_share_requested_codecs, screen_share_codec_jpeg)
unfolding trim
start_request-accepted_example =
    start_request-accepted source game_mode p1080 144 refl (omega arith) (omega arith)

act_all-IsQuiet_example :
    IsQuiet
      (act_all host new_app (connects ∷ joins_voice ∷ polled (disconnected []) ∷ disconnects ∷ []))
act_all-IsQuiet_example =
    act_all-IsQuiet host new_app
      (connects ∷ joins_voice ∷ polled (disconnected []) ∷ disconnects ∷ [])
      (refl, refl, refl, refl, refl, refl)

abbrev frame : ShareFrame
frame = record {
  user_id = text "u2";
  display_name = text "Bob";
  width = 4;
  height = 3;
  image_format = text "jpeg";
  mode = text_mode;
  resolution = p720;
  target_fps = 5;
  codec = text "jpeg";
  transport = text "sfu_relay";
  data_base64 = text "AA";
  sequence = 0;
  unix_ms = 1;
}

apply_share_frame-IsUpdate_example : IsUpdate frame [] (apply_share_frame host frame [])
apply_share_frame-IsUpdate_example = apply_share_frame-IsUpdate host frame []

abbrev one_day : RetentionPolicy
one_day = record { visible_history_days = 1; audit_log_days = 1 }

abbrev drawn : Text → Draws
drawn id = record { now = 5; stored_now = 5; id = id; stored_id = text "e"; secret = text "s" }

-- Ann, whose client it is, has the channel 1.
abbrev chat_server : World MemoryInner
chat_server = record {
  inner = record new_inner {
    users =
        (text "ann", record { display_name = text "Ann"; is_admin = false; tx = 1 })
        ∷ (text "bob", record { display_name = text "Bob"; is_admin = false; tx = 2 })
        ∷ [];
  };
  storage = empty_inner;
  sent = [];
}

abbrev chat : List ChatCall
chat =
    says (drawn (text "m1")) (text "ann") (text "general") (text "hi")
    ∷ says (drawn (text "m2")) (text "bob") (text "other") (text "ho")
    ∷ says (drawn (text "m3")) (text "bob") (text "general") (text " x ")
    ∷ erases (drawn (text "m4")) (text "bob") (text "m1")
    ∷ erases (drawn (text "m5")) (text "ann") (text "m1")
    ∷ []

abbrev chatted : World MemoryInner × LightDiscordApp
chatted = run host one_day 1 chat_server new_app chat

chat-AreFresh : AreFresh one_day chat_server chat
unfolding answered Chat.send_chat_message Chat.send_named Chat.save_and_announce Chat.announce
    Chat.delete_chat_message Chat.answer_deletion name_of is_admin broadcast send_to send_on inbox
    apply_all apply_server_frame save_message soft_delete_message delete_found delete_stored
    new_chat_message get insert text_eq trim
chat-AreFresh = (refl, (refl, (refl, (tt, (tt, tt)))))

run-Tracks_example :
    Tracks chat_server.storage.messages
      (run host one_day 1 chat_server new_app chat).0.storage.messages
      (run host one_day 1 chat_server new_app chat).1
unfolding reaches
run-Tracks_example = run-Tracks host one_day 1 chat_server new_app chat refl tt chat-AreFresh

-- Bob may not delete the message of Ann, and Ann may.
left_over : map (λ m. m.id) (chatted.1).messages ≡ text "m3" ∷ []
unfolding run answered Chat.send_chat_message Chat.send_named Chat.save_and_announce Chat.announce
    Chat.delete_chat_message Chat.answer_deletion name_of is_admin broadcast send_to send_on inbox
    apply_all apply_server_frame save_message soft_delete_message delete_found delete_stored
    new_chat_message get insert text_eq trim
left_over = refl
