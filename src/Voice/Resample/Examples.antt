-- ===== src/Voice/Resample/Examples.antt =====
-- Three samples on which the theorem about `resample_linear_mono` is applied.
use light_discord.Common.{List, [], arith, refl, some, ◌∷◌, ◌≡◌}
use light_discord.Common.Int.{ℤ, pos, negsuc, ◌+ℤ◌, ◌-ℤ◌, ◌*ℤ◌, div_ℤ, wrap_i32, of_i32_pattern}
use light_discord.Voice.Resample.{
  resample_linear_mono, resample_from, resample_at, interpolate, at_least_one, clamp_i16, IsOutput,
  resample_linear_mono-IsOutput,
}

abbrev samples : List ℤ
samples = pos 0 ∷ pos 10 ∷ negsuc 9 ∷ []

-- Twice as many samples, with those between interpolated.
doubled :
    resample_linear_mono samples 24000 48000
    ≡ some (pos 0 ∷ pos 5 ∷ pos 10 ∷ pos 0 ∷ negsuc 9 ∷ negsuc 9 ∷ [])
unfolding resample_linear_mono resample_from resample_at interpolate at_least_one clamp_i16 wrap_i32
    of_i32_pattern div_ℤ ◌+ℤ◌ ◌-ℤ◌ ◌*ℤ◌
doubled = refl

-- The product overflows an i32 at the usual rates, so that the second sample is the lowest instead of 27442.
overflowed :
    resample_linear_mono (negsuc 32767 ∷ pos 32767 ∷ []) 44100 48000
    ≡ some (negsuc 32767 ∷ negsuc 32767 ∷ [])
unfolding resample_linear_mono resample_from resample_at interpolate at_least_one clamp_i16 wrap_i32
    of_i32_pattern div_ℤ ◌+ℤ◌ ◌-ℤ◌ ◌*ℤ◌
overflowed = refl

resample_linear_mono-IsOutput_example : IsOutput 6 (resample_linear_mono samples 24000 48000)
resample_linear_mono-IsOutput_example =
    resample_linear_mono-IsOutput samples 24000 48000 (omega arith) (omega arith)
      (omega arith, (omega arith, (omega arith, tt)))
