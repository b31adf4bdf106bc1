-- ===== src/Audio/Pcm.antt =====
-- `encode_pcm_le` and `decode_pcm_le` of crates/light-discord-platform/src/audio.rs. A sample is an
-- integer; as an i16 it is its pattern of sixteen bits.
use light_discord.Common.{
  All, List, [], ap, ap₂, arith, if◌then◌else◌, length, ltb, refl, ℕ, ◌++◌, ◌-◌, ◌<◌, ◌^◌, ◌∙◌, ◌∷◌,
  ◌≡◌, ◌≤◌,
}
use light_discord.Common.Int.{ℤ, pos, negsuc}
use light_discord.Wire.Bytes.{to_le_bytes, from_le_bytes, from_le_bytes-to_le_bytes}

abbrev pub IsI16 : ℤ → Type 0
IsI16 (pos n) = n < 32768
IsI16 (negsuc n) = n < 32768

abbrev pub i16_pattern : ℤ → ℕ
i16_pattern (pos n) = n
i16_pattern (negsuc n) = 65535 - n

abbrev pub of_i16_pattern : ℕ → ℤ
of_i16_pattern w = if ltb w 32768 then pos w else negsuc (65535 - w)

unfoldable pub encode_pcm_le : List ℤ → List ℕ
unfolding to_le_bytes
encode_pcm_le [] = []
encode_pcm_le (s ∷ samples) = to_le_bytes 2 (i16_pattern s) ++ encode_pcm_le samples

-- `chunks_exact(2)` leaves out an odd byte at the end.
unfoldable pub decode_pcm_le : List ℕ → List ℤ
unfolding from_le_bytes
decode_pcm_le [] = []
decode_pcm_le (b ∷ []) = []
decode_pcm_le (a ∷ b ∷ bytes) = of_i16_pattern (from_le_bytes (a ∷ b ∷ [])) ∷ decode_pcm_le bytes

i16_pattern-lt : (s : ℤ) → IsI16 s → i16_pattern s < 256 ^ 2
i16_pattern-lt (pos n) h = omega arith
i16_pattern-lt (negsuc n) h = omega arith

of_i16_pattern-i16_pattern : (s : ℤ) → IsI16 s → of_i16_pattern (i16_pattern s) ≡ s
of_i16_pattern-i16_pattern (pos n) h = ground arith
of_i16_pattern-i16_pattern (negsuc n) h = ground arith

-- Samples that were encoded are decoded to themselves, also with one odd byte behind them.
pub decode_pcm_le-encode_pcm_le :
    (samples : List ℤ) (odd : List ℕ)
    → All IsI16 samples
    → length odd ≤ 1
    → decode_pcm_le (encode_pcm_le samples ++ odd) ≡ samples
unfolding encode_pcm_le decode_pcm_le to_le_bytes
decode_pcm_le-encode_pcm_le [] [] h l = refl
decode_pcm_le-encode_pcm_le [] (b ∷ []) h l = refl
decode_pcm_le-encode_pcm_le [] (a ∷ b ∷ odd) h l = absurd (omega arith)
decode_pcm_le-encode_pcm_le (s ∷ samples) odd h l =
    ap₂ ◌∷◌
      (ap of_i16_pattern (from_le_bytes-to_le_bytes 2 (i16_pattern s) (i16_pattern-lt s h.0))
        ∙ of_i16_pattern-i16_pattern s h.0)
      (decode_pcm_le-encode_pcm_le samples odd h.1 l)
