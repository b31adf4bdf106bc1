-- ===== src/Wire/Examples.antt =====
-- Runs of the voice packet codec, and its theorems at concrete packets.
use light_discord.Common.{
  List, [], arith, drop, err, ok, refl, take, text, text_eq, ℕ, ◌++◌, ◌∷◌, ◌≡◌,
}
use light_discord.Wire.Bytes.{to_le_bytes, from_le_bytes}
use light_discord.Wire.Utf8.{as_bytes, encode_char, from_utf8}
use light_discord.Wire.Packet.{
  VoicePacket, IsTyped, voice_codec_opus, truncated, invalid_magic, unsupported_version,
  unsupported_codec_string, invalid_utf8,
}
use light_discord.Wire.Reader.{take_bytes}
use light_discord.Wire.Encode.{codec_byte, prefixed, packet_bytes, encode_voice_packet_binary}
use light_discord.Wire.Decode.{
  read_byte, read_le, read_prefixed, read_text, read_magic, read_version, codec_name, read_codec,
  read_packet, decode_voice_packet_binary,
}
use light_discord.Wire.RoundTrip.{decode-encode}
use light_discord.Wire.Canonical.{encode-decode}
use light_discord.Wire.Prefixes.{decode_prefix}

abbrev opus_packet : VoicePacket
opus_packet = record {
  user_id = text "u1";
  room_id = text "café-1";
  sequence = 7;
  sample_rate = 48000;
  channels = 1;
  codec = voice_codec_opus;
  frame_samples = 960;
  payload = 1 ∷ 2 ∷ 250 ∷ 4 ∷ [];
}

abbrev opus_front : List ℕ
opus_front =
    76 ∷ 68 ∷ 86 ∷ 80 ∷ 1 ∷ 2 ∷ 0 ∷ 117 ∷ 49 ∷ 7 ∷ 0 ∷ 99 ∷ 97 ∷ 102 ∷ 195 ∷ 169 ∷ 45 ∷ 49 ∷ 7 ∷ 0
    ∷ []

abbrev opus_back : List ℕ
opus_back =
    0 ∷ 0 ∷ 0 ∷ 0 ∷ 0 ∷ 128 ∷ 187 ∷ 0 ∷ 0 ∷ 1 ∷ 0 ∷ 1 ∷ 192 ∷ 3 ∷ 0 ∷ 0 ∷ 4 ∷ 0 ∷ 0 ∷ 0 ∷ 1 ∷ 2
    ∷ 250 ∷ 4 ∷ []

abbrev opus_bytes : List ℕ
opus_bytes = opus_front ++ (0 ∷ opus_back)

opus_encodes : encode_voice_packet_binary opus_packet ≡ ok opus_bytes
unfolding encode_voice_packet_binary codec_byte text_eq packet_bytes prefixed to_le_bytes as_bytes
    encode_char
opus_encodes = refl

opus_decodes : decode_voice_packet_binary opus_bytes ≡ ok opus_packet
unfolding decode_voice_packet_binary read_packet read_magic read_version read_text read_prefixed
    read_le read_codec read_byte codec_name take_bytes text_eq from_le_bytes from_utf8
opus_decodes = refl

abbrev flac_packet : VoicePacket
flac_packet = record opus_packet { codec = text "flac" }

flac_refused : encode_voice_packet_binary flac_packet ≡ err (unsupported_codec_string (text "flac"))
unfolding encode_voice_packet_binary codec_byte text_eq as_bytes encode_char
flac_refused = refl

wrong_magic : decode_voice_packet_binary (b'X' ∷ drop 1 opus_bytes) ≡ err invalid_magic
unfolding decode_voice_packet_binary read_packet read_magic take_bytes text_eq
wrong_magic = refl

wrong_version :
    decode_voice_packet_binary (take 4 opus_bytes ++ (255 ∷ drop 5 opus_bytes))
    ≡ err (unsupported_version 255)
unfolding decode_voice_packet_binary read_packet read_magic read_version read_byte take_bytes
    text_eq
wrong_version = refl

wrong_utf8 :
    decode_voice_packet_binary (take 7 opus_bytes ++ (255 ∷ drop 8 opus_bytes))
    ≡ err (invalid_utf8 "user_id")
unfolding decode_voice_packet_binary read_packet read_magic read_version read_text read_prefixed
    read_le read_byte take_bytes text_eq from_le_bytes from_utf8
wrong_utf8 = refl

opus-IsTyped : IsTyped opus_packet
opus-IsTyped = record {
  user_scalars = omega arith;
  room_scalars = omega arith;
  sequence_u64 = omega arith;
  sample_rate_u32 = omega arith;
  channels_u16 = omega arith;
  frame_samples_u32 = omega arith;
  payload_bytes = omega arith;
}

decode-encode_example : decode_voice_packet_binary opus_bytes ≡ ok opus_packet
decode-encode_example = decode-encode opus_packet opus_bytes opus-IsTyped opus_encodes

encode-decode_example :
    IsTyped opus_packet × (encode_voice_packet_binary opus_packet ≡ ok opus_bytes)
encode-decode_example = encode-decode opus_bytes opus_packet (omega arith) opus_decodes

decode_prefix_example : decode_voice_packet_binary opus_front ≡ err truncated
decode_prefix_example = decode_prefix opus_packet opus_front 0 opus_back opus-IsTyped opus_encodes
