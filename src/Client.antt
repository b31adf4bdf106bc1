-- ===== src/Client.antt =====
-- The client's state of crates/light-discord-client/src/app.rs. Threads, sockets and the views are
-- outside: the network is the list of the frames that were handed to its thread, a voice session is
-- what it was started with, and a screen share is what its worker was started with. The texture of a
-- remote share belongs to the view.
pub mod Accepted
pub mod Commands
mod Examples
pub mod Frames
pub mod Network
pub mod Live
pub mod Offline
pub mod Settings
pub mod Shares
pub mod Sharing
pub mod Voice
use light_discord.Common.{Bool, List, Option, Text, ℕ}
use light_discord.Common.Maps.{Map}
use light_discord.Protocol.{
  UserSummary, VoiceUser, ChatMessage, AuditLogSummary, ScreenShareMode, ScreenShareResolution,
  ClientFrame, ErrorMessage,
}
use light_discord.Client.Settings.{ScreenShareSettings}

pub data AuthMode : Type 0 where
  login register session dev : AuthMode

-- A decoded picture, of `egui::ColorImage`.
pub record ColorImage : Type 0 where
  pub width : ℕ
  pub height : ℕ
  pub rgba : List ℕ

pub record RemoteScreenShare : Type 0 where
  pub display_name : Text
  pub source_name : Text
  pub width : ℕ
  pub height : ℕ
  pub mode : ScreenShareMode
  pub resolution : ScreenShareResolution
  pub target_fps : ℕ
  pub codec : Text
  pub transport : Text
  pub latest_frame : Option ColorImage
  pub latest_sequence : Option ℕ
  pub status : Text

-- The status line: a text of the client, or the message of an error frame.
pub data Status : Type 0 where
  shown : Text → Status
  refused : ErrorMessage → Status

-- `NetworkHandle`: what its thread was started with, and the commands sent to it, the last first.
pub record NetworkHandle : Type 0 where
  pub addr : Text
  pub auth_frame : ClientFrame
  pub commands : List ClientFrame

-- `VoiceSession`, of a worker that runs.
pub record VoiceStart : Type 0 where
  pub udp_addr : Text
  pub user_id : Text
  pub room_id : Text
  pub input_device_id : Option Text
  pub output_device_id : Option Text

pub record LightDiscordApp : Type 0 where
  pub server_addr : Text
  pub display_name : Text
  pub password : Text
  pub invite_code : Text
  pub session_token : Text
  pub session_token_status : Text
  pub auth_mode : AuthMode
  pub status : Status
  pub channel_id : Text
  pub voice_room_id : Text
  pub input : Text
  pub connected : Bool
  pub is_admin : Bool
  pub user_id : Option Text
  pub udp_voice_addr : Option Text
  pub users : List UserSummary
  pub voice_users : List VoiceUser
  pub messages : List ChatMessage
  pub audit_entries : List AuditLogSummary
  pub invite_note : Text
  pub latest_invite_code : Text
  pub selected_input_device_id : Option Text
  pub selected_output_device_id : Option Text
  pub network : Option NetworkHandle
  pub voice : Option VoiceStart
  pub voice_muted : Bool
  pub voice_deafened : Bool
  pub screen_share_status : Text
  pub local_screen_share : Option ScreenShareSettings
  pub remote_screen_shares : Map RemoteScreenShare
