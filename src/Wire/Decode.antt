-- ===== src/Wire/Decode.antt =====
-- `decode_voice_packet_binary` of protocol.rs.
use light_discord.Common.{
  List, Option, Result, Text, [], err, if◌then◌else◌, none, ok, some, text_eq, ℕ, ◌==◌, ◌∷◌,
}
use Prim.Native.String.{String}
use light_discord.Wire.Bytes.{from_le_bytes}
use light_discord.Wire.Utf8.{from_utf8}
use light_discord.Wire.Packet.{
  VoicePacket, VoicePacketBinaryError, invalid_magic, unsupported_version, truncated,
  unsupported_codec_byte, invalid_utf8, trailing_data, voice_codec_pcm_s16le, voice_codec_opus,
  magic, wire_version, codec_byte_pcm_s16le, codec_byte_opus,
}
use light_discord.Wire.Reader.{Reader, take_bytes, pure, fail, ◌>>=◌}

-- `need!(1); bytes[pos]`
unfoldable pub read_byte : Reader ℕ
read_byte [] = err truncated
read_byte (b ∷ rest) = ok (b, rest)

-- `need!(k)` and `from_le_bytes`
unfoldable pub read_le : ℕ → Reader ℕ
read_le k = do xs ← take_bytes k; pure (from_le_bytes xs)

-- A length of `k` bytes, and so many bytes.
unfoldable pub read_prefixed : ℕ → Reader (List ℕ)
read_prefixed k = do n ← read_le k; take_bytes n

unfoldable pub or_invalid_utf8 : String → Option Text → Reader Text
or_invalid_utf8 field none = fail (invalid_utf8 field)
or_invalid_utf8 field (some s) = pure s

unfoldable pub read_text : String → Reader Text
unfolding or_invalid_utf8
read_text field = do xs ← read_prefixed 2; or_invalid_utf8 field (from_utf8 xs)

unfoldable pub read_magic : Reader (Unit {0})
read_magic = do xs ← take_bytes 4; if text_eq xs magic then pure tt else fail invalid_magic

unfoldable pub read_version : Reader (Unit {0})
read_version = do
  version ← read_byte
  if version == wire_version then pure tt else fail (unsupported_version version)

-- `match codec_byte`
unfoldable pub codec_name : ℕ → Reader Text
codec_name b =
    if b == codec_byte_pcm_s16le
    then pure voice_codec_pcm_s16le
    else if b == codec_byte_opus
    then pure voice_codec_opus
    else fail (unsupported_codec_byte b)

unfoldable pub read_codec : Reader Text
unfolding codec_name
read_codec = do b ← read_byte; codec_name b

-- Everything up to the check for trailing bytes.
unfoldable pub read_packet : Reader VoicePacket
read_packet = do
  _ ← read_magic
  _ ← read_version
  user_id ← read_text "user_id"
  room_id ← read_text "room_id"
  sequence ← read_le 8
  sample_rate ← read_le 4
  channels ← read_le 2
  codec ← read_codec
  frame_samples ← read_le 4
  payload ← read_prefixed 4
  pure (record {
    user_id = user_id;
    room_id = room_id;
    sequence = sequence;
    sample_rate = sample_rate;
    channels = channels;
    codec = codec;
    frame_samples = frame_samples;
    payload = payload;
  })

-- `if pos != bytes.len()`
abbrev pub finish :
    Result (VoicePacket × List ℕ) VoicePacketBinaryError → Result VoicePacket VoicePacketBinaryError
finish (err e) = err e
finish (ok (p, [])) = ok p
finish (ok (p, b ∷ rest)) = err trailing_data

unfoldable pub decode_voice_packet_binary : List ℕ → Result VoicePacket VoicePacketBinaryError
decode_voice_packet_binary bytes = finish (read_packet bytes)
