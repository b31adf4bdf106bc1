-- ===== src/Audio/Examples.antt =====
-- Small devices, buffers and queues on which the theorems about the audio helpers are applied.
use light_discord.Common.{
  Bool, List, Text, [], arith, false, length, refl, text, text_eq, true, ℕ, ◌*◌, ◌∷◌, ◌≡◌, ◌≤◌,
}
use light_discord.Common.Int.{ℤ, pos, negsuc}
use light_discord.Audio.Pcm.{encode_pcm_le}
use light_discord.Wire.Bytes.{to_le_bytes}
use light_discord.Audio.Channels.{adapt_channels, adapt_channels-adapt_channels}
use light_discord.Audio.Devices.{
  AudioDeviceInfo, deduplicate_devices, IsGrouped, deduplicate_devices-IsGrouped, is_system_default,
  merge_id, merge_name,
}
use light_discord.Audio.Group.{group, add_all, add, add_at, modify}
use light_discord.Common.Maps.{get, insert}
use light_discord.Audio.Schedule.{IsScheduled, run-IsScheduled}
use light_discord.Audio.Queue.{Step, fed, played, run, Follows, feed, fill, cap_playback_queue}

abbrev device : Text → Text → Bool → AudioDeviceInfo
device id name is_default = record {
  id = id;
  name = name;
  is_default = is_default;
  grouped_count = 1;
}

abbrev three_devices : List AudioDeviceInfo
three_devices =
    device (text "id1") (text "Mic A") false
    ∷ device (text "id1") (text "Mic A") false
    ∷ device (text "id2") (text "Mic A") true
    ∷ []

-- The default device gives its identifier to the group.
grouped :
    deduplicate_devices three_devices
    ≡ record { id = text "id2"; name = text "Mic A"; is_default = true; grouped_count = 3 } ∷ []
unfolding deduplicate_devices is_system_default group add_all add add_at modify merge_id merge_name
    get insert text_eq
grouped = refl

deduplicate_devices-IsGrouped_example : IsGrouped three_devices (deduplicate_devices three_devices)
deduplicate_devices-IsGrouped_example = deduplicate_devices-IsGrouped three_devices

abbrev two_samples : List ℤ
two_samples = pos 7 ∷ negsuc 8 ∷ []

adapt_channels-adapt_channels_example :
    adapt_channels (adapt_channels two_samples 1 2) 2 1 ≡ two_samples
adapt_channels-adapt_channels_example =
    adapt_channels-adapt_channels 2 two_samples (omega arith) (omega arith, (omega arith, tt))

encoded : encode_pcm_le two_samples ≡ 7 ∷ 0 ∷ 247 ∷ 255 ∷ []
unfolding encode_pcm_le to_le_bytes
encoded = refl

abbrev steps : List (Step ℕ)
steps = played 1 ∷ fed (5 ∷ 6 ∷ []) ∷ played 3 ∷ []

-- Silence comes out before the first frame and after the last sample.
heard_samples : run 0 steps [] ≡ (0 ∷ 5 ∷ 6 ∷ 0 ∷ [], [])
unfolding run feed fill cap_playback_queue
heard_samples = refl

run-IsScheduled_example :
    IsScheduled 0 steps 0 0 (5 ∷ 6 ∷ []) (run 0 steps [])
    × Follows 0 (run 0 steps []).0 (5 ∷ 6 ∷ [])
    × (length (run 0 steps []).1 ≤ 48000 * 2)
run-IsScheduled_example = run-IsScheduled 0 steps
