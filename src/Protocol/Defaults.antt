-- ===== src/Protocol/Defaults.antt =====
-- The default values that serde fills in for frames of older clients (protocol.rs).
use light_discord.Common.{List, Text, [], ℕ, ◌∷◌}
use light_discord.Protocol.{
  default_mode, default_fps, screen_share_codec_av1, screen_share_codec_vp9,
  screen_share_codec_jpeg, screen_share_transport_sfu_relay,
}

unfoldable pub default_screen_share_target_fps : ℕ
default_screen_share_target_fps = default_fps default_mode

unfoldable pub default_screen_share_requested_codecs : List Text
default_screen_share_requested_codecs =
    screen_share_codec_av1 ∷ screen_share_codec_vp9 ∷ screen_share_codec_jpeg ∷ []

unfoldable pub default_screen_share_active_codec : Text
default_screen_share_active_codec = screen_share_codec_jpeg

unfoldable pub default_screen_share_transport : Text
default_screen_share_transport = screen_share_transport_sfu_relay
