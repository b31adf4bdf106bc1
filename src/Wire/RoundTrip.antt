-- ===== src/Wire/RoundTrip.antt =====
-- Decoding reads back what encoding wrote.
use light_discord.Common.{
  All, List, Text, [], ap, append-nil, append_assoc, arith, length, ok, refl, text_eq, text_eq_iff,
  ℕ, ◌++◌, ◌<◌, ◌^◌, ◌∙◌, ◌∷◌, ◌≡◌,
}
use Prim.Native.String.{String}
use light_discord.Wire.Bytes.{
  to_le_bytes, from_le_bytes, length-to_le_bytes, from_le_bytes-to_le_bytes,
}
use light_discord.Wire.Utf8.{IsScalar, as_bytes}
use light_discord.Wire.Utf8.Reading.{from_utf8-as_bytes}
use light_discord.Wire.Packet.{
  VoicePacket, IsTyped, voice_codec_pcm_s16le, voice_codec_opus, magic, wire_version,
}
use light_discord.Wire.Reader.{Reader, take_bytes, take_bytes-append, pure, ◌>>=◌}
use light_discord.Wire.Encode.{
  codec_byte, prefixed, packet_bytes, encode_voice_packet_binary, IsEncodable, encode_inv,
}
use light_discord.Wire.Decode.{
  read_byte, read_le, read_prefixed, read_text, read_magic, read_version, read_codec, read_packet,
  finish, decode_voice_packet_binary,
}
use native.Mathlib.Nat.{mod-eq_of_lt}

-- One step of a chain of readers.
bind_ok {ℓ κ} :
    {A : Type ℓ} {B : Type κ} (m : Reader A) (f : A → Reader B) {bytes rest : List ℕ} {a : A}
    → m bytes ≡ ok (a, rest)
    → (m >>= f) bytes ≡ f a rest
bind_ok m f e = rw (e, ◌>>=◌)

take_bytes-append_eq :
    (k : ℕ) (xs rest : List ℕ) → length xs ≡ k → take_bytes k (xs ++ rest) ≡ ok (xs, rest)
take_bytes-append_eq k xs rest h = rw (← h) (take_bytes-append xs rest)

read_le-to_le_bytes :
    (k n : ℕ) (rest : List ℕ) → n < 256 ^ k → read_le k (to_le_bytes k n ++ rest) ≡ ok (n, rest)
unfolding read_le
read_le-to_le_bytes k n rest h =
    bind_ok (take_bytes k) (λ xs. pure (from_le_bytes xs))
      (take_bytes-append_eq k (to_le_bytes k n) rest (length-to_le_bytes k n))
    ∙ ap (λ v. ok (v, rest)) (from_le_bytes-to_le_bytes k n h)

read_prefixed-prefixed :
    (k : ℕ) (xs rest : List ℕ)
    → length xs < 256 ^ k
    → read_prefixed k (prefixed k xs ++ rest) ≡ ok (xs, rest)
unfolding read_prefixed prefixed
read_prefixed-prefixed k xs rest h =
    rw (mod-eq_of_lt h, append_assoc)
      (bind_ok (read_le k) take_bytes (read_le-to_le_bytes k (length xs) (xs ++ rest) h)
        ∙ take_bytes-append xs rest)

read_text-prefixed :
    (field : String) (s : Text) (rest : List ℕ)
    → All IsScalar s
    → length (as_bytes s) < 256 ^ 2
    → read_text field (prefixed 2 (as_bytes s) ++ rest) ≡ ok (s, rest)
unfolding read_text
read_text-prefixed field s rest h fits =
    bind_ok (read_prefixed 2) _ (read_prefixed-prefixed 2 (as_bytes s) rest fits)
    ∙ rw (from_utf8-as_bytes s h)

read_codec-codec_byte :
    (codec : Text) (b : ℕ) (rest : List ℕ)
    → codec_byte codec ≡ ok b
    → read_codec (b ∷ rest) ≡ ok (codec, rest)
unfolding read_codec read_byte codec_byte
read_codec-codec_byte codec b rest h =
    ground (arith, text_eq_iff codec voice_codec_pcm_s16le, text_eq_iff codec voice_codec_opus)

read_magic-magic : (rest : List ℕ) → read_magic (magic ++ rest) ≡ ok (tt, rest)
unfolding read_magic take_bytes text_eq
read_magic-magic rest = ground arith

read_version-wire_version : (rest : List ℕ) → read_version (wire_version ∷ rest) ≡ ok (tt, rest)
unfolding read_version read_byte
read_version-wire_version rest = refl

-- The reader takes the encoded packet and leaves what follows it.
pub read_packet-packet_bytes :
    (p : VoicePacket) (codec : ℕ) (rest : List ℕ)
    → IsTyped p
    → IsEncodable p codec
    → read_packet (packet_bytes p codec ++ rest) ≡ ok (p, rest)
unfolding read_packet packet_bytes
read_packet-packet_bytes p codec rest t h = simp append_assoc (
    bind_ok read_magic _ (read_magic-magic _)
    ∙ bind_ok read_version _ (read_version-wire_version _)
    ∙ bind_ok (read_text "user_id") _
        (read_text-prefixed "user_id" p.user_id _ t.user_scalars (omega arith))
    ∙ bind_ok (read_text "room_id") _
        (read_text-prefixed "room_id" p.room_id _ t.room_scalars (omega arith))
    ∙ bind_ok (read_le 8) _ (read_le-to_le_bytes 8 p.sequence _ t.sequence_u64)
    ∙ bind_ok (read_le 4) _ (read_le-to_le_bytes 4 p.sample_rate _ t.sample_rate_u32)
    ∙ bind_ok (read_le 2) _ (read_le-to_le_bytes 2 p.channels _ t.channels_u16)
    ∙ bind_ok read_codec _ (read_codec-codec_byte p.codec codec _ h.codec_known)
    ∙ bind_ok (read_le 4) _ (read_le-to_le_bytes 4 p.frame_samples _ t.frame_samples_u32)
    ∙ bind_ok (read_prefixed 4) _ (read_prefixed-prefixed 4 p.payload rest (omega arith)))

-- Decoding what the encoder wrote for a packet whose fields are of their Rust types gives the
-- packet back.
pub decode-encode :
    (p : VoicePacket) (bytes : List ℕ)
    → IsTyped p
    → encode_voice_packet_binary p ≡ ok bytes
    → decode_voice_packet_binary bytes ≡ ok p
unfolding decode_voice_packet_binary
decode-encode p bytes t e =
    let (codec, h, shape) = encode_inv p bytes e in
    rw (shape, ← append-nil (packet_bytes p codec))
      (ap finish (read_packet-packet_bytes p codec [] t h))
