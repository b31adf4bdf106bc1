-- ===== src/Wire/Canonical.antt =====
-- Bytes that decode are exactly the encoding of the packet that they decode to.
use light_discord.Common.{
  All, List, Result, Text, [], ap, append-nil, append_assoc, err, length, ok, refl, subst, sym, ℕ,
  ◌++◌, ◌<◌, ◌^◌, ◌∙◌, ◌∷◌, ◌≡◌,
}
use Prim.Native.String.{String}
use light_discord.Wire.Bytes.{IsByte, to_le_bytes}
use light_discord.Wire.Utf8.{IsScalar, as_bytes}
use light_discord.Wire.Packet.{VoicePacket, VoicePacketBinaryError, IsTyped, magic, wire_version}
use light_discord.Wire.Reader.{Reader, pure, ◌>>=◌}
use light_discord.Wire.Encode.{
  codec_byte, prefixed, packet_bytes, encode_voice_packet_binary, IsEncodable, encode_ok,
}
use light_discord.Wire.Decode.{
  read_le, read_prefixed, read_text, read_magic, read_version, read_codec, read_packet, finish,
  decode_voice_packet_binary,
}
use light_discord.Wire.Pieces.{
  fits_u16, fits_u32, bind_inv, read_le-Took, read_prefixed-Took, read_text-Took, read_magic-Took,
  read_version-Took, read_codec-Took,
}

module _ {ℓ} {A : Type ℓ} {p q : A} {r s : List ℕ} where
  ok_fst : ◌≡◌ {A = Result (A × List ℕ) VoicePacketBinaryError} (ok (p, r)) (ok (q, s)) → p ≡ q
  ok_fst e = cc e

  ok_snd : ◌≡◌ {A = Result (A × List ℕ) VoicePacketBinaryError} (ok (p, r)) (ok (q, s)) → r ≡ s
  ok_snd e = cc e

-- Two pieces, one after the other.
join : (w v d : List ℕ) {b c : List ℕ} → b ≡ w ++ c → c ≡ v ++ d → b ≡ (w ++ v) ++ d
join w v d e f = e ∙ ap (λ r. w ++ r) f ∙ sym (append_assoc w v d)

-- What a reader that succeeds took, `w`, satisfies `P` with the value that it read, and the rest are
-- bytes.
abbrev Sound {ℓ κ} : {A : Type ℓ} → Reader A → (A → List ℕ → Type κ) → Type (ℓ ⊔ κ)
Sound {A = A} m P =
    (bytes : List ℕ) (a : A) (rest : List ℕ)
    → All IsByte bytes
    → m bytes ≡ ok (a, rest)
    → (w : List ℕ) × P a w × (bytes ≡ w ++ rest) × All IsByte rest

pure-Sound {ℓ κ} : {A : Type ℓ} (P : A → List ℕ → Type κ) (a : A) → P a [] → Sound (pure a) P
pure-Sound P a h bytes b rest bs e =
    ([], subst (λ x. P x []) (ok_fst e) h, ok_snd e, subst (All IsByte) (ok_snd e) bs)

bind-Sound {ℓ κ ν ξ} :
    {A : Type ℓ} {B : Type κ} {m : Reader A} {f : A → Reader B} {P : A → List ℕ → Type ν}
    (Q : B → List ℕ → Type ξ)
    → Sound m P
    → ((a : A) (w : List ℕ) → P a w → Sound (f a) (λ b v. Q b (w ++ v)))
    → Sound (m >>= f) Q
bind-Sound {m = m} {f = f} Q hm hf bytes b rest bs e =
    let (a, mid, e1, e2) = bind_inv m f bytes e in
    let (w, p, s1, b1) = hm bytes a mid bs e1 in
    let (v, q, s2, b2) = hf a w p mid b rest b1 e2 in (w ++ v, q, join w v rest s1 s2, b2)

-- The readers of `decode_voice_packet_binary` are sound for the pieces that the encoder writes.
abbrev IsNumber : ℕ → ℕ → List ℕ → Type 0
IsNumber k n w = (w ≡ to_le_bytes k n) × (n < 256 ^ k)

abbrev IsText : Text → List ℕ → Type 0
IsText s w = (w ≡ prefixed 2 (as_bytes s)) × All IsScalar s × (length (as_bytes s) < 256 ^ 2)

abbrev IsPayload : List ℕ → List ℕ → Type 0
IsPayload xs w = (w ≡ prefixed 4 xs) × All IsByte xs × (length xs < 256 ^ 4)

abbrev IsCodec : Text → List ℕ → Type 0
IsCodec codec w = (b : ℕ) × (w ≡ b ∷ []) × (codec_byte codec ≡ ok b)

abbrev IsExactly : List ℕ → Unit {0} → List ℕ → Type 0
IsExactly v u w = w ≡ v

magic-Sound : Sound read_magic (IsExactly magic)
magic-Sound bytes u rest h e =
    let (shape, left) = read_magic-Took bytes u rest h e in (_, refl, shape, left)

version-Sound : Sound read_version (IsExactly (wire_version ∷ []))
version-Sound bytes u rest h e =
    let (shape, left) = read_version-Took bytes u rest h e in (_, refl, shape, left)

le-Sound : (k : ℕ) → Sound (read_le k) (IsNumber k)
le-Sound k bytes n rest h e =
    let ((shape, left), fits) = read_le-Took k bytes n rest h e in (_, (refl, fits), shape, left)

IsText-Sound : (field : String) → Sound (read_text field) IsText
IsText-Sound field bytes s rest h e =
    let ((shape, left), scalars, fits) = read_text-Took field bytes s rest h e in
    (_, (refl, scalars, fits), shape, left)

IsCodec-Sound : Sound read_codec IsCodec
IsCodec-Sound bytes codec rest h e =
    let (b, (shape, left), named) = read_codec-Took bytes codec rest h e in
    (_, (b, refl, named), shape, left)

IsPayload-Sound : Sound (read_prefixed 4) IsPayload
IsPayload-Sound bytes xs rest h e =
    let ((shape, left), small, fits) = read_prefixed-Took 4 bytes xs rest h e in
    (_, (refl, small, fits), shape, left)

abbrev IsPacket : VoicePacket → List ℕ → Type 0
IsPacket p w = (codec : ℕ) × IsTyped p × IsEncodable p codec × (w ≡ packet_bytes p codec)

-- What the reader took is the encoding of the packet that it read, which has the Rust types.
read_packet-Sound : Sound read_packet IsPacket
unfolding read_packet packet_bytes
read_packet-Sound = bind-Sound _ magic-Sound λ _ w1 e1. bind-Sound _ version-Sound λ _ w2 e2.
    bind-Sound _ (IsText-Sound "user_id") λ user_id w3 user.
      bind-Sound _ (IsText-Sound "room_id") λ room_id w4 room.
        bind-Sound _ (le-Sound 8) λ sequence w5 seq.
          bind-Sound _ (le-Sound 4) λ sample_rate w6 rate.
            bind-Sound _ (le-Sound 2) λ channels w7 chan. bind-Sound _ IsCodec-Sound λ codec w8 cod.
              bind-Sound _ (le-Sound 4) λ frame_samples w9 samples.
                bind-Sound _ IsPayload-Sound λ payload w10 body. pure-Sound _ _ (
                  cod.0,
                  record {
                    user_scalars = user.1;
                    room_scalars = room.1;
                    sequence_u64 = seq.1;
                    sample_rate_u32 = rate.1;
                    channels_u16 = chan.1;
                    frame_samples_u32 = samples.1;
                    payload_bytes = body.1;
                  },
                  record {
                    user_fits = fits_u16 _ user.2;
                    room_fits = fits_u16 _ room.2;
                    payload_fits = fits_u32 _ body.2;
                    codec_known = cod.2;
                  },
                  rw (
                    e1, e2, user.0, room.0, seq.0, rate.0, chan.0, cod.1, samples.0, body.0,
                    append-nil,
                  ),
                )

finish_inv :
    (r : Result (VoicePacket × List ℕ) VoicePacketBinaryError) (p : VoicePacket)
    → finish r ≡ ok p
    → r ≡ ok (p, [])
finish_inv (err e) p h = cc
finish_inv (ok (q, [])) p h = cc
finish_inv (ok (q, b ∷ rest)) p h = cc

-- Bytes that the decoder accepts are exactly what the encoder writes for the decoded packet, and
-- the fields of that packet are of their Rust types.
pub encode-decode :
    (bytes : List ℕ) (p : VoicePacket)
    → All IsByte bytes
    → decode_voice_packet_binary bytes ≡ ok p
    → IsTyped p × (encode_voice_packet_binary p ≡ ok bytes)
unfolding decode_voice_packet_binary
encode-decode bytes p h e =
    let (w, (codec, typed, encodable, shape), whole, _) =
      read_packet-Sound bytes p [] h (finish_inv _ p e) in
    (typed, encode_ok p codec encodable ∙ ap ok (sym (whole ∙ append-nil w ∙ shape)))
