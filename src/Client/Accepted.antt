-- ===== src/Client/Accepted.antt =====
-- The client's request for a screen share (crates/light-discord-client/src/screen_share.rs) against the
-- checks of the server (crates/light-discord-server/src/main.rs).
use light_discord.Common.{
  arith, false, is_empty, ok, refl, text_eq, to_ascii_lowercase, trim, true, ℕ, ◌==◌, ◌||◌, ◌≡◌,
  ◌≤◌,
}
use light_discord.Common.Maps.{contains}
use light_discord.Protocol.{
  ScreenShareMode, text_mode, game_mode, ScreenShareResolution, p1080, p720, max_dimensions,
  screen_share_codec_jpeg, screen_share_transport_sfu_relay, ShareRequest,
}
use light_discord.Protocol.Defaults.{default_screen_share_requested_codecs}
use light_discord.Capture.{Fits, fit_screen_share_dimensions-Fits}
use light_discord.Server.Codecs.{
  is_valid_screen_share_fps, normalize_requested_screen_share_codecs, collect,
  normalize_screen_share_codec, negotiate_screen_share_codec,
}
use light_discord.Server.Screen.{check_start, settle}
use light_discord.Client.Settings.{new_settings, normalize_game_fps, target_fps}
use light_discord.Client.Sharing.{ScreenShareSource, start_request}

settings-valid_fps :
    (mode : ScreenShareMode) (resolution : ScreenShareResolution) (fps : ℕ)
    → is_valid_screen_share_fps mode (target_fps (new_settings mode resolution fps)) ≡ true
unfolding is_valid_screen_share_fps target_fps new_settings normalize_game_fps
settings-valid_fps text_mode resolution fps = refl
settings-valid_fps game_mode resolution fps = ground arith

max_dimensions-pos :
    (resolution : ScreenShareResolution)
    → (1 ≤ (max_dimensions resolution).0) × (1 ≤ (max_dimensions resolution).1)
unfolding max_dimensions
max_dimensions-pos p1080 = (omega arith, omega arith)
max_dimensions-pos p720 = (omega arith, omega arith)

-- The request's codecs settle on JPEG.
default-settle :
    settle (normalize_requested_screen_share_codecs default_screen_share_requested_codecs)
    ≡ ok (default_screen_share_requested_codecs, screen_share_codec_jpeg)
unfolding settle normalize_requested_screen_share_codecs collect normalize_screen_share_codec
    negotiate_screen_share_codec default_screen_share_requested_codecs trim to_ascii_lowercase
    contains text_eq
default-settle = refl

transport-kept :
    text_eq (trim screen_share_transport_sfu_relay) screen_share_transport_sfu_relay ≡ true
unfolding trim text_eq
transport-kept = refl

checks-ok :
    (r : ShareRequest)
    → is_empty (trim r.source_name) ≡ false
    → (r.width == 0 || r.height == 0) ≡ false
    → is_valid_screen_share_fps r.mode r.target_fps ≡ true
    → r.transport ≡ screen_share_transport_sfu_relay
    → r.requested_codecs ≡ default_screen_share_requested_codecs
    → check_start r ≡ ok (default_screen_share_requested_codecs, screen_share_codec_jpeg)
unfolding check_start
checks-ok r title size fps transport codecs =
    rw (title, size, fps, transport, transport-kept, codecs, default-settle) refl

-- Whatever the source, if it has a title that is not blank and at least one pixel each way, and
-- whatever mode, resolution and frame rate the user picks, the request that the client sends
-- passes all checks of the server, which settles on JPEG.
pub start_request-accepted :
    (source : ScreenShareSource) (mode : ScreenShareMode) (resolution : ScreenShareResolution)
    (game_fps : ℕ)
    → is_empty (trim source.title) ≡ false
    → 1 ≤ source.width
    → 1 ≤ source.height
    → check_start (start_request source (new_settings mode resolution game_fps))
      ≡ ok (default_screen_share_requested_codecs, screen_share_codec_jpeg)
unfolding start_request new_settings
start_request-accepted source mode resolution game_fps title w h =
    checks-ok (start_request source (new_settings mode resolution game_fps)) title
      (not_zero (
        fit_screen_share_dimensions-Fits source.width source.height (max_dimensions resolution).0
          (max_dimensions resolution).1 w h (max_dimensions-pos resolution).0
          (max_dimensions-pos resolution).1))
      (settings-valid_fps mode resolution game_fps) refl refl
  where
    not_zero :
        {size : ℕ × ℕ}
        → Fits (max_dimensions resolution).0 (max_dimensions resolution).1 size
        → (size.0 == 0 || size.1 == 0) ≡ false
    not_zero f = ground (arith, f)
