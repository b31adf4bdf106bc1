-- ===== src/Capture/Examples.antt =====
-- A screen of 3840 by 2160 in frames of at most 1280 by 700, and identifiers of sources.
use light_discord.Common.{arith, ok, refl, text, text_eq, ◌≡◌}
use light_discord.Common.Decimal.{parse_u32, parse_after_sign, parse_digits}
use light_discord.Capture.Sources.{
  window, parse_source_id, split_once, with_parts, with_number, with_kind,
}
use light_discord.Capture.{fit_screen_share_dimensions, Fits, fit_screen_share_dimensions-Fits}

fitted : fit_screen_share_dimensions 3840 2160 1280 700 ≡ (1244, 700)
unfolding fit_screen_share_dimensions
fitted = refl

fit_screen_share_dimensions-Fits_example :
    Fits 1280 700 (fit_screen_share_dimensions 3840 2160 1280 700)
fit_screen_share_dimensions-Fits_example =
    fit_screen_share_dimensions-Fits 3840 2160 1280 700 (omega arith) (omega arith) (omega arith)
      (omega arith)

-- The numbers of a display and of a window in their identifiers.
window_parsed : parse_source_id (text "window:12") ≡ ok (window, 12)
unfolding parse_source_id split_once with_parts with_number with_kind parse_u32 parse_after_sign
    parse_digits text_eq
window_parsed = refl
