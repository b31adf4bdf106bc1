-- ===== src/Client/Voice/Legacy.antt =====
-- `decode_legacy_pcm` of crates/light-discord-client/src/voice.rs, for peers that send raw samples.
use light_discord.Common.{
  All, Bool, List, Option, [], ap, ap₂, arith, drop, false, if-elim, if◌then◌else◌, is_empty,
  length, ltb, max, none, not, refl, some, subst, suc, take, true, zero, ℕ, ◌%◌, ◌*◌, ◌/◌, ◌==◌,
  ◌||◌, ◌∙◌, ◌∷◌, ◌≡◌,
}
use light_discord.Common.Int.{ℤ, pos, negsuc, div_ℤ}
use light_discord.Audio.Pcm.{IsI16, of_i16_pattern, decode_pcm_le}
use light_discord.Audio.Channels.{as_i16, average, mix_down, sum}
use light_discord.Voice.Resample.{IsOutput, resample_linear_mono, resample_linear_mono-IsOutput}
use light_discord.Wire.Packet.{VoicePacket}
use light_discord.Client.Voice.Microphone.{opus_sample_rate}

-- `None`, `Some`, and an index out of range.
pub data LegacyPcm : Type 0 where
  refused : LegacyPcm
  decoded : List ℤ → LegacyPcm
  panicked : LegacyPcm

abbrev of_resampled : Option (List ℤ) → LegacyPcm
of_resampled none = panicked
of_resampled (some pcm) = decoded pcm

-- `payload.is_empty() || !payload.len().is_multiple_of(2)`
abbrev pub is_refused : List ℕ → Bool
is_refused payload = is_empty payload || not (length payload % 2 == 0)

abbrev pub mono_of : ℕ → List ℤ → List ℤ
mono_of channels samples =
    if ltb 1 channels then mix_down (length samples / channels) channels samples else samples

unfoldable pub decode_legacy_pcm : VoicePacket → LegacyPcm
unfolding decode_pcm_le mix_down resample_linear_mono
decode_legacy_pcm p =
    let mono = mono_of p.channels (decode_pcm_le p.payload) in
    if is_refused p.payload
    then refused
    else if p.sample_rate == opus_sample_rate || p.sample_rate == 0
    then decoded mono
    else of_resampled (resample_linear_mono mono p.sample_rate opus_sample_rate)

of_i16_pattern-IsI16 : (w : ℕ) → IsI16 (of_i16_pattern w)
of_i16_pattern-IsI16 w =
    if-elim IsI16 (ltb w 32768) (λ h. ground (arith, h)) (λ h. ground (arith, h))

decode_pcm_le-IsI16 : (bytes : List ℕ) → All IsI16 (decode_pcm_le bytes)
unfolding decode_pcm_le
decode_pcm_le-IsI16 [] = tt
decode_pcm_le-IsI16 (b ∷ []) = tt
decode_pcm_le-IsI16 (a ∷ b ∷ bytes) = (of_i16_pattern-IsI16 _, decode_pcm_le-IsI16 bytes)

length-decode_pcm_le : (bytes : List ℕ) → length (decode_pcm_le bytes) ≡ length bytes / 2
unfolding decode_pcm_le
length-decode_pcm_le [] = refl
length-decode_pcm_le (b ∷ []) = refl
length-decode_pcm_le (a ∷ b ∷ bytes) = omega (arith, length-decode_pcm_le bytes)

as_i16-IsI16 : (s : ℤ) → IsI16 (as_i16 s)
unfolding as_i16
as_i16-IsI16 (pos n) = of_i16_pattern-IsI16 _
as_i16-IsI16 (negsuc n) = of_i16_pattern-IsI16 _

average-IsI16 : (src : ℕ) (samples : List ℤ) → IsI16 (average src samples)
unfolding average
average-IsI16 src samples = as_i16-IsI16 (div_ℤ (sum samples) src)

mix_down-IsI16 :
    (frames src : ℕ) (pcm : List ℤ)
    → All IsI16 (mix_down frames src pcm) × (length (mix_down frames src pcm) ≡ frames)
unfolding mix_down
mix_down-IsI16 zero src pcm = (tt, refl)
mix_down-IsI16 (suc frames) src pcm =
    let rest = mix_down-IsI16 frames src (drop src pcm) in
    ((average-IsI16 src (take src pcm), rest.0), ap suc rest.1)

-- The samples of each channel in a payload.
abbrev pub frames_of : VoicePacket → ℕ
frames_of p = length p.payload / 2 / max p.channels 1

abbrev IsMono : ℕ → List ℤ → Type 0
IsMono count pcm = All IsI16 pcm × (length pcm ≡ count)

mono_of-IsMono :
    (p : VoicePacket) → IsMono (frames_of p) (mono_of p.channels (decode_pcm_le p.payload))
mono_of-IsMono p =
    let samples = decode_pcm_le p.payload in
    let count = length-decode_pcm_le p.payload in
    if-elim (IsMono (frames_of p)) (ltb 1 p.channels)
      (λ many.
        let mixed = mix_down-IsI16 (length samples / p.channels) p.channels samples in
        (mixed.0, mixed.1 ∙ ap₂ ◌/◌ count (ground (arith, many))))
      (λ one.
        let single : max p.channels 1 ≡ 1 = ground (arith, one) in
        (decode_pcm_le-IsI16 p.payload, count ∙ rw single (omega arith)))

-- The samples that are played of a payload.
abbrev pub played_of : VoicePacket → ℕ
played_of p =
    if p.sample_rate == opus_sample_rate || p.sample_rate == 0
    then frames_of p
    else frames_of p * opus_sample_rate / p.sample_rate

abbrev pub IsLegacyPcm : VoicePacket → LegacyPcm → Type 0
IsLegacyPcm p refused = is_refused p.payload ≡ true
IsLegacyPcm p (decoded pcm) =
    (is_refused p.payload ≡ false) × (length pcm ≡ played_of p) × All IsI16 pcm
IsLegacyPcm p panicked = ⊥

resampled-IsOutput :
    (p : VoicePacket) (mono : List ℤ)
    → (p.sample_rate == opus_sample_rate || p.sample_rate == 0) ≡ false
    → IsMono (frames_of p) mono
    → IsOutput (played_of p) (resample_linear_mono mono p.sample_rate opus_sample_rate)
resampled-IsOutput p mono h is =
    let rounds = length mono * opus_sample_rate / p.sample_rate in
    let count : rounds ≡ played_of p = rw (h, is.1) refl in
    subst (λ n. IsOutput n (resample_linear_mono mono p.sample_rate opus_sample_rate)) count
      (resample_linear_mono-IsOutput mono p.sample_rate opus_sample_rate (ground (arith, h))
        (omega arith) is.0)

of_resampled-IsLegacyPcm :
    (p : VoicePacket) (o : Option (List ℤ))
    → is_refused p.payload ≡ false
    → IsOutput (played_of p) o
    → IsLegacyPcm p (of_resampled o)
of_resampled-IsLegacyPcm p none kept out = absurd out
of_resampled-IsLegacyPcm p (some pcm) kept out = (kept, out.0, out.1)

-- Raw samples of any packet, whatever its rate and its channels say, are refused only when the
-- payload is empty or of an odd length, and otherwise give as many samples of sixteen bits as the
-- payload holds for each channel, counted at 48 kHz when the packet names another rate that is not
-- zero; no index is out of range.
pub decode_legacy_pcm-IsLegacyPcm : (p : VoicePacket) → IsLegacyPcm p (decode_legacy_pcm p)
unfolding decode_legacy_pcm
decode_legacy_pcm-IsLegacyPcm p =
    let mono = mono_of-IsMono p in
    let plain = p.sample_rate == opus_sample_rate || p.sample_rate == 0 in
    if-elim (IsLegacyPcm p) (is_refused p.payload) (λ h. h)
      (λ kept.
        if-elim (IsLegacyPcm p) plain (λ h. (kept, mono.1 ∙ rw h refl, mono.0))
          (λ h. of_resampled-IsLegacyPcm p _ kept (resampled-IsOutput p _ h mono)))
