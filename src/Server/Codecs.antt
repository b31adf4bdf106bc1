-- ===== src/Server/Codecs.antt =====
-- Codec names and frame rates of screen sharing (crates/light-discord-server/src/main.rs).
use light_discord.Common.{
  Bool, List, Option, Text, [], if◌then◌else◌, is_empty, leb, none, some, text_eq,
  to_ascii_lowercase, trim, ℕ, ◌&&◌, ◌++◌, ◌==◌, ◌||◌, ◌∷◌,
}
use light_discord.Common.Maps.{contains}
use light_discord.Protocol.{
  ScreenShareMode, text_mode, game_mode, screen_share_codec_av1, screen_share_codec_vp9,
  screen_share_codec_jpeg,
}
pub mod Negotiation

unfoldable pub normalize_screen_share_codec : Text → Text
normalize_screen_share_codec codec = to_ascii_lowercase (trim codec)

-- The loop of `normalize_requested_screen_share_codecs`, from the names collected so far.
unfoldable pub collect : List Text → List Text → List Text
unfolding normalize_screen_share_codec
collect normalized [] = normalized
collect normalized (codec ∷ codecs) =
    let name = normalize_screen_share_codec codec in
    let skipped = collect normalized codecs in
    let pushed = collect (normalized ++ (name ∷ [])) codecs in
    if is_empty name || contains name normalized then skipped else pushed

abbrev pub supported_codecs : List Text
supported_codecs = screen_share_codec_av1 ∷ screen_share_codec_vp9 ∷ screen_share_codec_jpeg ∷ []

unfoldable pub normalize_requested_screen_share_codecs : List Text → List Text
unfolding collect
normalize_requested_screen_share_codecs codecs =
    let normalized = collect [] codecs in
    if is_empty normalized then supported_codecs else normalized

unfoldable pub negotiate_screen_share_codec : List Text → Option Text
unfolding normalize_screen_share_codec
negotiate_screen_share_codec [] = none
negotiate_screen_share_codec (codec ∷ codecs) =
    let rest = negotiate_screen_share_codec codecs in
    if text_eq (normalize_screen_share_codec codec) screen_share_codec_jpeg
    then some screen_share_codec_jpeg
    else rest

unfoldable pub is_valid_screen_share_fps : ScreenShareMode → ℕ → Bool
is_valid_screen_share_fps text_mode target_fps = leb 1 target_fps && leb target_fps 15
is_valid_screen_share_fps game_mode target_fps = target_fps == 30 || target_fps == 60
