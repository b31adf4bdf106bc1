-- ===== src/Audio/Playback.antt =====
-- `prepare_playback_frame` of crates/light-discord-platform/src/audio.rs.
use light_discord.Common.{List, Option, if◌then◌else◌, none, not, some, ℕ, ◌==◌, ◌||◌}
use light_discord.Common.Int.{ℤ}
use light_discord.Audio.Channels.{adapt_channels}
use light_discord.Voice.Resample.{resample_linear_mono}

pub record AudioFrame : Type 0 where
  pub sample_rate : ℕ
  pub channels : ℕ
  pub pcm : List ℤ

abbrev map_option : (List ℤ → List ℤ) → Option (List ℤ) → Option (List ℤ)
map_option f none = none
map_option f (some out) = some (f out)

-- `none` is a panic of the resampling.
unfoldable pub prepare_playback_frame : AudioFrame → ℕ → ℕ → Option (List ℤ)
prepare_playback_frame frame device_sample_rate device_channels =
    let mono =
      if not (frame.channels == 1) then adapt_channels frame.pcm frame.channels 1 else frame.pcm in
    let resampled =
      if frame.sample_rate == 0 || frame.sample_rate == device_sample_rate
      then some mono
      else resample_linear_mono mono frame.sample_rate device_sample_rate in
    if device_channels == 1
    then resampled
    else map_option (λ out. adapt_channels out 1 device_channels) resampled
