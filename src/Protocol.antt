-- ===== src/Protocol.antt =====
-- The data of crates/light-discord-core/src/protocol.rs: messages, screen-share options and the
-- frames that client and server exchange. `u64`, `u32` and `usize` are numbers, a `String` is a
-- `Text`, and `Vec<T>` is a list.
pub mod Defaults
use light_discord.Common.{Bool, List, Option, Text, text, ℕ}

pub record UserSummary : Type 0 where
  pub user_id : Text
  pub display_name : Text

pub record VoiceUser : Type 0 where
  pub user_id : Text
  pub display_name : Text

pub record ChatMessage : Type 0 where
  pub id : Text
  pub channel_id : Text
  pub user_id : Text
  pub display_name : Text
  pub body : Text
  pub unix_ms : ℕ

-- `ChatMessage::new`, at the time `now` that `now_unix_ms()` reads.
unfoldable pub new_chat_message : ℕ → Text → Text → Text → Text → Text → ChatMessage
new_chat_message now id channel_id user_id display_name body = record {
  id = id;
  channel_id = channel_id;
  user_id = user_id;
  display_name = display_name;
  body = body;
  unix_ms = now;
}

pub record AuditLogSummary : Type 0 where
  pub id : Text
  pub action : Text
  pub actor_user_id : Text
  pub target_user_id : Option Text
  pub target_message_id : Option Text
  pub channel_id : Option Text
  pub message_body_snapshot : Option Text
  pub unix_ms : ℕ

pub data ScreenShareMode : Type 0 where
  text_mode game_mode : ScreenShareMode

-- `ScreenShareMode::default` and `default_fps`
abbrev pub default_mode : ScreenShareMode
default_mode = text_mode

unfoldable pub default_fps : ScreenShareMode → ℕ
default_fps text_mode = 5
default_fps game_mode = 30

pub data ScreenShareResolution : Type 0 where
  p1080 p720 : ScreenShareResolution

abbrev pub default_resolution : ScreenShareResolution
default_resolution = p720

unfoldable pub max_dimensions : ScreenShareResolution → ℕ × ℕ
max_dimensions p1080 = (1920, 1080)
max_dimensions p720 = (1280, 720)

-- `SCREEN_SHARE_CODEC_AV1`, `_VP9`, `_JPEG` and `SCREEN_SHARE_TRANSPORT_SFU_RELAY`
abbrev pub screen_share_codec_av1 : Text
screen_share_codec_av1 = text "av1"

abbrev pub screen_share_codec_vp9 : Text
screen_share_codec_vp9 = text "vp9"

abbrev pub screen_share_codec_jpeg : Text
screen_share_codec_jpeg = text "jpeg"

abbrev pub screen_share_transport_sfu_relay : Text
screen_share_transport_sfu_relay = text "sfu_relay"

-- The fields of a `StartScreenShare` frame.
pub record ShareRequest : Type 0 where
  pub source_name : Text
  pub width : ℕ
  pub height : ℕ
  pub mode : ScreenShareMode
  pub resolution : ScreenShareResolution
  pub target_fps : ℕ
  pub requested_codecs : List Text
  pub transport : Text

-- The fields of a client's `ScreenShareFrame`, `ScreenShareFramePayload` in the server.
pub record ScreenShareFramePayload : Type 0 where
  pub width : ℕ
  pub height : ℕ
  pub image_format : Text
  pub codec : Text
  pub transport : Text
  pub data_base64 : Text
  pub sequence : ℕ
  pub unix_ms : ℕ

pub data ClientFrame : Type 0 where
  hello : Text → ClientFrame
  register : Text → Text → Text → ClientFrame
  login : Text → Text → ClientFrame
  resume_session : Text → ClientFrame
  join_channel : Text → ClientFrame
  send_message : Text → Text → ClientFrame
  delete_message : Text → ClientFrame
  admin_list_audit_log : ℕ → ClientFrame
  admin_create_invite : Text → ClientFrame
  join_voice : Text → ClientFrame
  leave_voice : ClientFrame
  voice_heartbeat : Text → ClientFrame
  start_screen_share : ShareRequest → ClientFrame
  stop_screen_share : ClientFrame
  screen_share_frame : ScreenShareFramePayload → ClientFrame
  disconnect : ClientFrame

-- The fields of the server's `ScreenShareStarted` and `ScreenShareFrame`.
pub record ShareStarted : Type 0 where
  pub user_id : Text
  pub display_name : Text
  pub source_name : Text
  pub width : ℕ
  pub height : ℕ
  pub mode : ScreenShareMode
  pub resolution : ScreenShareResolution
  pub target_fps : ℕ
  pub requested_codecs : List Text
  pub active_codec : Text
  pub transport : Text

pub record ShareFrame : Type 0 where
  pub user_id : Text
  pub display_name : Text
  pub width : ℕ
  pub height : ℕ
  pub image_format : Text
  pub mode : ScreenShareMode
  pub resolution : ScreenShareResolution
  pub target_fps : ℕ
  pub codec : Text
  pub transport : Text
  pub data_base64 : Text
  pub sequence : ℕ
  pub unix_ms : ℕ

pub record WelcomeFields : Type 0 where
  pub user_id : Text
  pub server_name : Text
  pub default_channel : Text
  pub udp_voice_addr : Text
  pub session_token : Option Text
  pub is_admin : Bool

-- The texts of `Error { message }` frames: a constructor for each message that the server writes,
-- with the values that its format string shows. An error of storage or of the JSON reader is kept as
-- its text.
pub data ErrorMessage : Type 0 where
  failed_to_load_history failed_to_save_message failed_to_delete_message failed_to_create_invite
        failed_to_load_audit_log invalid_client_frame :
      Text → ErrorMessage
  only_own_messages message_not_found admin_permission_required already_authenticated : ErrorMessage
  source_name_empty zero_dimension unsupported_transport no_supported_codec : ErrorMessage
  invalid_fps : ℕ → ScreenShareMode → ErrorMessage
  image_format_empty codec_empty data_empty no_active_share jpeg_format_required : ErrorMessage
  codec_mismatch : Text → Text → ErrorMessage
  frame_too_large : Text → ErrorMessage
  login_required invalid_login no_password_login session_invalid first_frame_must_authenticate :
      ErrorMessage
  password_too_short display_name_taken invite_invalid : ErrorMessage
  failed_to_create_dev_user failed_to_hash_password registration_failed session_creation_failed
        login_failed session_validation_failed :
      Text → ErrorMessage

pub data ServerFrame : Type 0 where
  welcome : WelcomeFields → ServerFrame
  invite_created : Text → ServerFrame
  audit_log : List AuditLogSummary → ServerFrame
  channel_joined : Text → ServerFrame
  user_list : List UserSummary → ServerFrame
  message : ChatMessage → ServerFrame
  message_deleted : Text → Text → Text → ℕ → ServerFrame
  voice_state : Text → List VoiceUser → ServerFrame
  screen_share_started : ShareStarted → ServerFrame
  screen_share_stopped : Text → ServerFrame
  screen_share_frame_sent : ShareFrame → ServerFrame
  error : ErrorMessage → ServerFrame
