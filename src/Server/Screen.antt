-- ===== src/Server/Screen.antt =====
-- Screen sharing: `start_screen_share`, `stop_screen_share` and `broadcast_screen_share_frame`
-- (crates/light-discord-server/src/main.rs). A check that fails is an error for the sender alone.
use light_discord.Common.{
  List, Option, Result, Text, err, guard, if◌then◌else◌, is_empty, leb, none, not, ok, some,
  text_eq, to_ascii_lowercase, trim, ◌&&◌, ◌==◌, ◌>>=◌, ◌>>◌, ◌||◌,
}
use light_discord.Common.Maps.{get, insert, remove, contains_key}
use light_discord.Protocol.{
  ShareRequest, ScreenShareFramePayload, ShareStarted, ShareFrame, ErrorMessage, error,
  screen_share_started, screen_share_stopped, screen_share_frame_sent, screen_share_codec_jpeg,
  screen_share_transport_sfu_relay, source_name_empty, zero_dimension, unsupported_transport,
  no_supported_codec, invalid_fps, image_format_empty, codec_empty, data_empty, no_active_share,
  jpeg_format_required, codec_mismatch, frame_too_large,
}
use light_discord.Server.Codecs.{
  normalize_screen_share_codec, normalize_requested_screen_share_codecs,
  negotiate_screen_share_codec, is_valid_screen_share_fps,
}
use light_discord.Server.State.{ScreenShareInfo, World, send_to, broadcast_except, name_of}
pub mod Relay

abbrev pub with_codec : List Text → Option Text → Result (List Text × Text) ErrorMessage
with_codec requested none = err no_supported_codec
with_codec requested (some codec) = ok (requested, codec)

unfoldable pub settle : List Text → Result (List Text × Text) ErrorMessage
settle requested = with_codec requested (negotiate_screen_share_codec requested)

-- The checks of `start_screen_share`, in their order, and the codecs that it settles on.
unfoldable pub check_start : ShareRequest → Result (List Text × Text) ErrorMessage
unfolding settle
check_start r = do
  guard (not (is_empty (trim r.source_name))) source_name_empty
  guard (not (r.width == 0 || r.height == 0)) zero_dimension
  guard (is_valid_screen_share_fps r.mode r.target_fps) (invalid_fps r.target_fps r.mode)
  guard (text_eq (trim r.transport) screen_share_transport_sfu_relay) unsupported_transport
  settle (normalize_requested_screen_share_codecs r.requested_codecs)

-- The checks of `broadcast_screen_share_frame` on the frame alone; they give its codec.
unfoldable pub check_frame : ScreenShareFramePayload → Result Text ErrorMessage
check_frame f = do
  guard (not (f.width == 0 || f.height == 0)) zero_dimension
  guard (not (is_empty (trim f.image_format))) image_format_empty
  guard (not (is_empty (normalize_screen_share_codec f.codec))) codec_empty
  guard (text_eq (trim f.transport) screen_share_transport_sfu_relay) unsupported_transport
  guard (not (is_empty (trim f.data_base64))) data_empty
  ok (normalize_screen_share_codec f.codec)

-- The checks against the sender's share.
unfoldable pub check_share :
    ScreenShareFramePayload → Option ScreenShareInfo → Text → Result ScreenShareInfo ErrorMessage
check_share f none codec = err no_active_share
check_share f (some share) codec = do
  guard (text_eq codec share.active_codec) (codec_mismatch codec share.active_codec)
  guard
      (not (
        text_eq share.active_codec screen_share_codec_jpeg
        && not (text_eq (to_ascii_lowercase (trim f.image_format)) screen_share_codec_jpeg)))
      jpeg_format_required
  guard (leb f.width share.width && leb f.height share.height) (frame_too_large share.source_name)
  ok share

-- The `ScreenShareFrame` that the others get.
unfoldable pub share_frame : Text → Text → ScreenShareFramePayload → ScreenShareInfo → ShareFrame
share_frame user_id display_name f share = record {
  user_id = user_id;
  display_name = display_name;
  width = f.width;
  height = f.height;
  image_format = f.image_format;
  mode = share.mode;
  resolution = share.resolution;
  target_fps = share.target_fps;
  codec = share.active_codec;
  transport = share.transport;
  data_base64 = f.data_base64;
  sequence = f.sequence;
  unix_ms = f.unix_ms;
}

unfoldable pub share_info : ShareRequest → Text → ScreenShareInfo
share_info r active_codec = record {
  source_name = trim r.source_name;
  width = r.width;
  height = r.height;
  mode = r.mode;
  resolution = r.resolution;
  target_fps = r.target_fps;
  active_codec = active_codec;
  transport = screen_share_transport_sfu_relay;
}

unfoldable pub share_started : Text → Text → ShareRequest → List Text → Text → ShareStarted
share_started user_id display_name r requested active_codec = record {
  user_id = user_id;
  display_name = display_name;
  source_name = trim r.source_name;
  width = r.width;
  height = r.height;
  mode = r.mode;
  resolution = r.resolution;
  target_fps = r.target_fps;
  requested_codecs = requested;
  active_codec = active_codec;
  transport = screen_share_transport_sfu_relay;
}

module _ {S : Type 0} where
  unfoldable pub with_share : World S → Text → ScreenShareInfo → World S
  with_share w user_id share = record w {
    inner = record w.inner { screen_shares = insert user_id share w.inner.screen_shares };
  }

  unfoldable pub start_named :
      World S → Text → ShareRequest → List Text → Text → Option Text → World S
  unfolding with_share share_info share_started
  start_named w user_id r requested codec none = w
  start_named w user_id r requested codec (some display_name) =
      broadcast_except (with_share w user_id (share_info r codec)) user_id
        (screen_share_started (share_started user_id display_name r requested codec))

  unfoldable pub start_checked :
      World S → Text → ShareRequest → Result (List Text × Text) ErrorMessage → World S
  unfolding start_named
  start_checked w user_id r (err e) = send_to w user_id (error e)
  start_checked w user_id r (ok (requested, codec)) =
      start_named w user_id r requested codec (name_of w user_id)

  unfoldable pub start_screen_share : World S → Text → ShareRequest → World S
  unfolding start_checked check_start
  start_screen_share w user_id r = start_checked w user_id r (check_start r)

  unfoldable pub stop_screen_share : World S → Text → World S
  stop_screen_share w user_id =
      let stopped : World S = record w {
        inner = record w.inner { screen_shares = remove user_id w.inner.screen_shares };
      } in
      if contains_key user_id w.inner.screen_shares
      then broadcast_except stopped user_id (screen_share_stopped user_id)
      else stopped

  unfoldable pub relay_named :
      World S → Text → ScreenShareFramePayload → ScreenShareInfo → Option Text → World S
  unfolding share_frame
  relay_named w user_id f share none = w
  relay_named w user_id f share (some display_name) =
      broadcast_except w user_id
        (screen_share_frame_sent (share_frame user_id display_name f share))

  unfoldable pub relay_checked :
      World S → Text → ScreenShareFramePayload → Result ScreenShareInfo ErrorMessage → World S
  unfolding relay_named
  relay_checked w user_id f (err e) = send_to w user_id (error e)
  relay_checked w user_id f (ok share) = relay_named w user_id f share (name_of w user_id)

  unfoldable pub broadcast_screen_share_frame : World S → Text → ScreenShareFramePayload → World S
  unfolding relay_checked check_frame check_share
  broadcast_screen_share_frame w user_id f =
      relay_checked w user_id f
        (check_frame f >>= check_share f (get user_id w.inner.screen_shares))
