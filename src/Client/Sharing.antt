-- ===== src/Client/Sharing.antt =====
-- `run_screen_share_worker` of crates/light-discord-client/src/screen_share.rs: the frames that it
-- hands to the network thread. What the captures give is an argument, one result for each round of
-- the loop until the share is stopped, with the clock's reading; the network thread is there.
use light_discord.Common.{List, Result, Text, [], err, ok, ℕ, ◌%◌, ◌+◌, ◌^◌, ◌∷◌}
use light_discord.Protocol.{
  ClientFrame, start_screen_share, stop_screen_share, screen_share_frame, ShareRequest,
  ScreenShareFramePayload, max_dimensions, screen_share_codec_jpeg,
  screen_share_transport_sfu_relay,
}
use light_discord.Protocol.Defaults.{default_screen_share_requested_codecs}
use light_discord.Capture.{fit_screen_share_dimensions}
use light_discord.Client.Settings.{ScreenShareSettings, target_fps}

-- `ScreenShareSource`, of the fields that the worker reads.
pub record ScreenShareSource : Type 0 where
  pub id : Text
  pub title : Text
  pub width : ℕ
  pub height : ℕ

pub record ScreenCaptureFrame : Type 0 where
  pub width : ℕ
  pub height : ℕ
  pub image_format : Text
  pub image_data : List ℕ

pub data ScreenShareEvent : Type 0 where
  failed : Text → ScreenShareEvent
  stopped : ScreenShareEvent

unfoldable pub start_request : ScreenShareSource → ScreenShareSettings → ShareRequest
unfolding fit_screen_share_dimensions max_dimensions target_fps
    default_screen_share_requested_codecs
start_request source settings =
    let (max_width, max_height) = max_dimensions settings.resolution in
    let (width, height) =
      fit_screen_share_dimensions source.width source.height max_width max_height in
    record {
      source_name = source.title;
      width = width;
      height = height;
      mode = settings.mode;
      resolution = settings.resolution;
      target_fps = target_fps settings;
      requested_codecs = default_screen_share_requested_codecs;
      transport = screen_share_transport_sfu_relay;
    }

module _ (encode_base64 : List ℕ → Text) where
  unfoldable pub frame_payload : ℕ → ℕ → ScreenCaptureFrame → ScreenShareFramePayload
  frame_payload sequence now frame = record {
    width = frame.width;
    height = frame.height;
    image_format = frame.image_format;
    codec = screen_share_codec_jpeg;
    transport = screen_share_transport_sfu_relay;
    data_base64 = encode_base64 frame.image_data;
    sequence = sequence;
    unix_ms = now;
  }

  -- The loop from the given sequence number on: the frames and the events that it sends.
  unfoldable pub share_loop :
      ℕ → List (Result ScreenCaptureFrame Text × ℕ) → List ClientFrame × List ScreenShareEvent
  unfolding frame_payload
  share_loop sequence [] = (stop_screen_share ∷ [], stopped ∷ [])
  share_loop sequence ((err e, now) ∷ captures) = (stop_screen_share ∷ [], failed e ∷ stopped ∷ [])
  share_loop sequence ((ok frame, now) ∷ captures) =
      let rest = share_loop ((sequence + 1) % 2 ^ 64) captures in
      (screen_share_frame (frame_payload sequence now frame) ∷ rest.0, rest.1)

  unfoldable pub run_screen_share_worker :
      ScreenShareSource
      → ScreenShareSettings
      → List (Result ScreenCaptureFrame Text × ℕ)
      → List ClientFrame × List ScreenShareEvent
  unfolding start_request share_loop
  run_screen_share_worker source settings captures =
      let rest = share_loop 0 captures in
      (start_screen_share (start_request source settings) ∷ rest.0, rest.1)
