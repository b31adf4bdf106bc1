-- ===== src/Client/Settings.antt =====
-- `ScreenShareSettings` of crates/light-discord-client/src/screen_share.rs.
use light_discord.Common.{if◌then◌else◌, max, ℕ, ◌/◌, ◌==◌}
use light_discord.Protocol.{
  ScreenShareMode, text_mode, game_mode, ScreenShareResolution, default_fps, default_resolution,
}

abbrev pub text_mode_fps : ℕ
text_mode_fps = 5

abbrev pub text_mode_jpeg_quality : ℕ
text_mode_jpeg_quality = 84

abbrev pub game_mode_30fps_jpeg_quality : ℕ
game_mode_30fps_jpeg_quality = 56

abbrev pub game_mode_60fps_jpeg_quality : ℕ
game_mode_60fps_jpeg_quality = 46

pub record ScreenShareSettings : Type 0 where
  pub mode : ScreenShareMode
  pub resolution : ScreenShareResolution
  pub game_fps : ℕ

unfoldable pub normalize_game_fps : ℕ → ℕ
normalize_game_fps fps = if fps == 60 then 60 else 30

-- `ScreenShareSettings::new`
unfoldable pub new_settings : ScreenShareMode → ScreenShareResolution → ℕ → ScreenShareSettings
unfolding normalize_game_fps
new_settings mode resolution game_fps = record {
  mode = mode;
  resolution = resolution;
  game_fps = normalize_game_fps game_fps;
}

abbrev fps_of : ScreenShareMode → ℕ → ℕ
fps_of text_mode game_fps = text_mode_fps
fps_of game_mode game_fps = game_fps

unfoldable pub target_fps : ScreenShareSettings → ℕ
target_fps settings = fps_of settings.mode settings.game_fps

abbrev quality_of : ScreenShareMode → ℕ → ℕ
quality_of text_mode fps = text_mode_jpeg_quality
quality_of game_mode fps =
    if fps == 60 then game_mode_60fps_jpeg_quality else game_mode_30fps_jpeg_quality

unfoldable pub jpeg_quality : ScreenShareSettings → ℕ
unfolding target_fps
jpeg_quality settings = quality_of settings.mode (target_fps settings)

-- In milliseconds.
unfoldable pub frame_interval : ScreenShareSettings → ℕ
unfolding target_fps
frame_interval settings = 1000 / max (target_fps settings) 1

-- `ScreenShareSettings::default`
unfoldable pub default_settings : ScreenShareSettings
unfolding new_settings default_fps
default_settings = new_settings text_mode default_resolution (default_fps game_mode)
