-- ===== src/Wire/Encode.antt =====
-- `encode_voice_packet_binary` of protocol.rs.
use light_discord.Common.{
  List, Result, Text, [], arith, err, guard, if◌then◌else◌, leb, length, ok, refl, text_eq, ℕ, ◌%◌,
  ◌++◌, ◌>>=◌, ◌>>◌, ◌^◌, ◌∷◌, ◌≡◌, ◌≤◌,
}
use light_discord.Wire.Bytes.{to_le_bytes}
use light_discord.Wire.Utf8.{as_bytes}
use light_discord.Wire.Packet.{
  VoicePacket, VoicePacketBinaryError, unsupported_codec_string, field_too_long,
  voice_codec_pcm_s16le, voice_codec_opus, magic, wire_version, codec_byte_pcm_s16le,
  codec_byte_opus, u16_max, u32_max,
}

-- `match packet.codec.as_str()`
unfoldable pub codec_byte : Text → Result ℕ VoicePacketBinaryError
codec_byte codec =
    if text_eq codec voice_codec_pcm_s16le
    then ok codec_byte_pcm_s16le
    else if text_eq codec voice_codec_opus
    then ok codec_byte_opus
    else err (unsupported_codec_string codec)

-- A length and the bytes; `as u16` and `as u32` keep the low `k` bytes of the length.
unfoldable pub prefixed : ℕ → List ℕ → List ℕ
prefixed k bytes = to_le_bytes k (length bytes % 256 ^ k) ++ bytes

-- The buffer, once the checks have passed.
unfoldable pub packet_bytes : VoicePacket → ℕ → List ℕ
packet_bytes p codec =
    magic
    ++ ((wire_version ∷ [])
        ++ (prefixed 2 (as_bytes p.user_id)
            ++ (prefixed 2 (as_bytes p.room_id)
                ++ (to_le_bytes 8 p.sequence
                    ++ (to_le_bytes 4 p.sample_rate
                        ++ (to_le_bytes 2 p.channels
                            ++ ((codec ∷ [])
                                ++ (to_le_bytes 4 p.frame_samples ++ prefixed 4 p.payload))))))))

unfoldable pub encode_voice_packet_binary : VoicePacket → Result (List ℕ) VoicePacketBinaryError
encode_voice_packet_binary p = do
  guard (leb (length (as_bytes p.user_id)) u16_max) (field_too_long "user_id")
  guard (leb (length (as_bytes p.room_id)) u16_max) (field_too_long "room_id")
  guard (leb (length p.payload) u32_max) (field_too_long "payload")
  codec ← codec_byte p.codec
  ok (packet_bytes p codec)

-- What the encoder wants of a packet.
pub record IsEncodable (p : VoicePacket) (codec : ℕ) : Type 0 where
  pub user_fits : length (as_bytes p.user_id) ≤ u16_max
  pub room_fits : length (as_bytes p.room_id) ≤ u16_max
  pub payload_fits : length p.payload ≤ u32_max
  pub codec_known : codec_byte p.codec ≡ ok codec

-- The encoder succeeds only on packets that it wants, and then writes the fields in order.
pub encode_inv :
    (p : VoicePacket) (bytes : List ℕ)
    → encode_voice_packet_binary p ≡ ok bytes
    → (codec : ℕ) × IsEncodable p codec × (bytes ≡ packet_bytes p codec)
unfolding encode_voice_packet_binary
encode_inv p bytes e = go (codec_byte p.codec) refl
  where
    go :
        (r : Result ℕ VoicePacketBinaryError)
        → codec_byte p.codec ≡ r
        → (codec : ℕ) × IsEncodable p codec × (bytes ≡ packet_bytes p codec)
    go (ok codec) k = (codec, ground arith, ground arith)
    go (err x) k = absurd (ground arith)

pub encode_ok :
    (p : VoicePacket) (codec : ℕ)
    → IsEncodable p codec
    → encode_voice_packet_binary p ≡ ok (packet_bytes p codec)
unfolding encode_voice_packet_binary
encode_ok p codec h = ground arith
