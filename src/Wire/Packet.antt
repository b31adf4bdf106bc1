-- ===== src/Wire/Packet.antt =====
-- The voice packet, its codec names and the codec's errors (protocol.rs, `VoicePacket`,
-- `VoicePacketBinaryError`).
use light_discord.Common.{All, List, Text, text, ℕ, ◌<◌, ◌^◌}
use Prim.Native.String.{String}
use light_discord.Wire.Bytes.{IsByte}
use light_discord.Wire.Utf8.{IsScalar}

-- `VOICE_CODEC_PCM_S16LE` and `VOICE_CODEC_OPUS`
abbrev pub voice_codec_pcm_s16le : Text
voice_codec_pcm_s16le = text "pcm_s16le"

abbrev pub voice_codec_opus : Text
voice_codec_opus = text "opus"

pub record VoicePacket : Type 0 where
  pub user_id : Text
  pub room_id : Text
  pub sequence : ℕ
  pub sample_rate : ℕ
  pub channels : ℕ
  pub codec : Text
  pub frame_samples : ℕ
  pub payload : List ℕ

pub data VoicePacketBinaryError : Type 0 where
  invalid_magic : VoicePacketBinaryError
  unsupported_version : ℕ → VoicePacketBinaryError
  truncated : VoicePacketBinaryError
  unsupported_codec_byte : ℕ → VoicePacketBinaryError
  unsupported_codec_string : Text → VoicePacketBinaryError
  invalid_utf8 : String → VoicePacketBinaryError
  field_too_long : String → VoicePacketBinaryError
  trailing_data : VoicePacketBinaryError

-- `default_voice_codec`
unfoldable pub default_voice_codec : Text
default_voice_codec = voice_codec_pcm_s16le

-- `MAGIC`, `WIRE_VERSION`, `CODEC_BYTE_PCM_S16LE`, `CODEC_BYTE_OPUS`
abbrev pub magic : List ℕ
magic = text "LDVP"

abbrev pub wire_version : ℕ
wire_version = 0x01

abbrev pub codec_byte_pcm_s16le : ℕ
codec_byte_pcm_s16le = 0x00

abbrev pub codec_byte_opus : ℕ
codec_byte_opus = 0x01

-- `u16::MAX` and `u32::MAX`
abbrev pub u16_max : ℕ
u16_max = 65535

abbrev pub u32_max : ℕ
u32_max = 4294967295

-- The values that the Rust types of the fields hold: Unicode scalar values, unsigned integers and
-- bytes.
pub record IsTyped (p : VoicePacket) : Type 0 where
  pub user_scalars : All IsScalar p.user_id
  pub room_scalars : All IsScalar p.room_id
  pub sequence_u64 : p.sequence < 256 ^ 8
  pub sample_rate_u32 : p.sample_rate < 256 ^ 4
  pub channels_u16 : p.channels < 256 ^ 2
  pub frame_samples_u32 : p.frame_samples < 256 ^ 4
  pub payload_bytes : All IsByte p.payload
