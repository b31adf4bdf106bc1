-- ===== src/Capture.antt =====
-- The sizes of captured frames (crates/light-discord-platform/src/screen.rs).
use light_discord.Common.{
  Bool-cases, arith, if-elim, if◌then◌else◌, inl, inr, leb, ltb, max, min, zero, ℕ, ◌&&◌, ◌*◌, ◌+◌,
  ◌/◌, ◌<◌, ◌==◌, ◌||◌, ◌≤◌,
}
use light_discord.Wire.Packet.{u32_max}
use native.Mathlib.Nat.{div-lt_iff_lt-mul}
mod Examples
pub mod Sources

-- `clamp_jpeg_quality`
unfoldable pub clamp_jpeg_quality : ℕ → ℕ
clamp_jpeg_quality quality = min (max quality 1) 100

-- `(a as u64 * b as u64) / c as u64`, at least one, as a `u32`. The product of two `u32`s fits `u64`.
unfoldable pub scaled : ℕ → ℕ → ℕ → ℕ
scaled a b c = min (max (a * b / c) 1) u32_max

unfoldable pub fit_screen_share_dimensions : ℕ → ℕ → ℕ → ℕ → ℕ × ℕ
unfolding scaled
fit_screen_share_dimensions width height max_width max_height =
    let width_limited_height = scaled height max_width width in
    if width == 0 || (height == 0 || (max_width == 0 || max_height == 0))
    then (width, height)
    else if leb width max_width && leb height max_height
    then (width, height)
    else if leb width_limited_height max_height
    then (max_width, width_limited_height)
    else (scaled width max_height height, max_height)

-- The size is not empty and is within the limits.
abbrev pub Fits : ℕ → ℕ → ℕ × ℕ → Type 0
Fits max_width max_height (w, h) = (1 ≤ w) × (w ≤ max_width) × (1 ≤ h) × (h ≤ max_height)

scaled_pos : (a b c : ℕ) → 1 ≤ scaled a b c
unfolding scaled
scaled_pos a b c = omega arith

-- When the height is the tighter limit, the scaled width is within its own.
scaled_width :
    (width height max_width max_height : ℕ)
    → 1 ≤ width
    → 1 ≤ height
    → 1 ≤ max_width
    → 1 ≤ max_height
    → max_height < scaled height max_width width
    → scaled width max_height height ≤ max_width
unfolding scaled
scaled_width width height max_width max_height hw hh hmw hmh tight =
    elim (Bool-cases (ltb (height * max_width) ((max_height + 1) * width))) [
      | inl low ↦ absurd (not_tight ((div-lt_iff_lt-mul hw).1 (ground (arith, low))))
      | inr high ↦ small ((div-lt_iff_lt-mul hh).1 (ground (arith, high)))
    ]
  where
    not_tight : height * max_width / width < max_height + 1 → ⊥
    not_tight h = omega arith

    small :
        width * max_height / height < max_width
        → min (max (width * max_height / height) 1) u32_max ≤ max_width
    small h = omega arith

-- The size that a captured frame of a size and with limits of at least one pixel each way is
-- scaled to has at least one pixel each way and is within both limits.
pub fit_screen_share_dimensions-Fits :
    (width height max_width max_height : ℕ)
    → 1 ≤ width
    → 1 ≤ height
    → 1 ≤ max_width
    → 1 ≤ max_height
    → Fits max_width max_height (fit_screen_share_dimensions width height max_width max_height)
unfolding fit_screen_share_dimensions
fit_screen_share_dimensions-Fits width height max_width max_height hw hh hmw hmh =
    if-elim (Fits max_width max_height)
      (width == 0 || (height == 0 || (max_width == 0 || max_height == 0)))
      (λ zero. absurd (ground (arith, zero)))
      (λ _.
        if-elim (Fits max_width max_height) (leb width max_width && leb height max_height)
          (λ small. (hw, ground (arith, small), hh, ground (arith, small)))
          (λ _.
            if-elim (Fits max_width max_height) (leb (scaled height max_width width) max_height)
              (λ low. (hmw, omega arith, scaled_pos height max_width width, ground (arith, low)))
              (λ high. (
                scaled_pos width max_height height,
                scaled_width width height max_width max_height hw hh hmw hmh (ground (arith, high)),
                hmh,
                omega arith,
              ))))
