-- ===== src/Client/Voice/Numbered.antt =====
-- What a listener decodes of the datagrams that the capture path sends
-- (crates/light-discord-client/src/voice.rs, crates/light-discord-core/src/protocol.rs).
use light_discord.Common.{
  All, Bool, List, Result, Text, [], arith, err, if-elim, length, not, ok, refl, subst, sym,
  text_eq, ℕ, ◌%◌, ◌++◌, ◌+◌, ◌<◌, ◌^◌, ◌||◌, ◌∷◌, ◌≡◌, ◌≤◌,
}
use light_discord.Common.Int.{ℤ}
use light_discord.Voice.Frames.{drain_frames}
use light_discord.Wire.Bytes.{IsByte}
use light_discord.Wire.Utf8.{as_bytes, IsScalar}
use light_discord.Wire.Packet.{
  VoicePacket, IsTyped, voice_codec_opus, codec_byte_opus, u16_max, u32_max,
}
use light_discord.Wire.Encode.{encode_voice_packet_binary, packet_bytes, codec_byte, encode_ok}
use light_discord.Wire.Decode.{decode_voice_packet_binary}
use light_discord.Wire.RoundTrip.{decode-encode}
use light_discord.Client.Voice.Microphone.{
  Sender, voice_packet, opus_frame_samples, datagrams_of, send_encoded, send_frame, send_frames,
  capture, capture_all,
}

-- A name that a packet can carry.
abbrev pub IsName : Text → Type 0
IsName t = All IsScalar t × (length (as_bytes t) ≤ u16_max)

-- What the encoder gives: bytes, no more than a packet can carry.
abbrev pub IsPayload : Result (List ℕ) Text → Type 0
IsPayload (ok payload) = All IsByte payload × (length payload ≤ u32_max)
IsPayload (err e) = Unit {0}

-- The number after `n`, in 64 bits.
abbrev pub next_number : ℕ → ℕ
next_number n = (n + 1) % 2 ^ 64

-- The datagrams decode to packets of the user and the room, numbered from `n` on, and end before `k`.
abbrev pub Numbered : Text → Text → ℕ → ℕ → List (List ℕ) → Type 0
Numbered user_id room_id n k [] = n ≡ k
Numbered user_id room_id n k (bytes ∷ datagrams) =
    ((payload : List ℕ) × (decode_voice_packet_binary bytes
        ≡ ok (voice_packet user_id room_id n opus_frame_samples payload)))
    × Numbered user_id room_id (next_number n) k datagrams

Numbered-append :
    (user_id room_id : Text) (n m k : ℕ) (xs ys : List (List ℕ))
    → Numbered user_id room_id n m xs
    → Numbered user_id room_id m k ys
    → Numbered user_id room_id n k (xs ++ ys)
Numbered-append user_id room_id n m k [] ys h g =
    subst (λ i. Numbered user_id room_id i k ys) (sym h) g
Numbered-append user_id room_id n m k (x ∷ xs) ys h g =
    (h.0, Numbered-append user_id room_id (next_number n) m k xs ys h.1 g)

opus_codec : codec_byte voice_codec_opus ≡ ok codec_byte_opus
unfolding codec_byte text_eq
opus_codec = refl

-- A packet of the worker is written, and decodes to itself.
abbrev pub Travels : VoicePacket → Type 0
Travels p =
    (bytes : List ℕ) × (encode_voice_packet_binary p ≡ ok bytes)
    × (decode_voice_packet_binary bytes ≡ ok p)

pub voice_packet-Travels :
    (user_id room_id : Text) (n frame_samples : ℕ) (payload : List ℕ)
    → IsName user_id
    → IsName room_id
    → n < 2 ^ 64
    → frame_samples < 2 ^ 32
    → IsPayload (ok payload)
    → Travels (voice_packet user_id room_id n frame_samples payload)
unfolding voice_packet
voice_packet-Travels user_id room_id n frame_samples payload user room h l p =
    let packet = voice_packet user_id room_id n frame_samples payload in
    let encoded = encode_ok packet codec_byte_opus (record {
      user_fits = user.1;
      room_fits = room.1;
      payload_fits = p.1;
      codec_known = opus_codec;
    }) in
    let typed : IsTyped packet = record {
      user_scalars = user.0;
      room_scalars = room.0;
      sequence_u64 = h;
      sample_rate_u32 = omega arith;
      channels_u16 = omega arith;
      frame_samples_u32 = l;
      payload_bytes = p.0;
    } in
    let bytes = packet_bytes packet codec_byte_opus in
    (bytes, encoded, decode-encode packet bytes typed encoded)

module _ {F E : Type 0} (shape : F → List ℤ → (List ℤ × Bool) × F)
    (encode : E → List ℤ → Result (List ℕ) Text × E) (user_id room_id : Text)
    (encodes : (e : E) (frame : List ℤ) → IsPayload (encode e frame).0) (user : IsName user_id)
    (room : IsName room_id) where
  packet-decoded :
      (n : ℕ) (payload : List ℕ)
      → n < 2 ^ 64
      → IsPayload (ok payload)
      → Numbered user_id room_id n (next_number n) (
          datagrams_of (
            encode_voice_packet_binary (voice_packet user_id room_id n opus_frame_samples payload)))
  packet-decoded n payload h p =
      let (bytes, encoded, decoded) =
        voice_packet-Travels user_id room_id n opus_frame_samples payload user room h (omega arith)
          p in
      subst (λ r. Numbered user_id room_id n (next_number n) (datagrams_of r)) (sym encoded)
        ((payload, decoded), refl)

  abbrev Goes : Sender F E → List (List ℕ) × Sender F E → Type 0
  Goes st r = Numbered user_id room_id st.sequence r.1.sequence r.0 × (r.1.sequence < 2 ^ 64)

  send_encoded-Goes :
      (st : Sender F E) (r : Result (List ℕ) Text × E)
      → st.sequence < 2 ^ 64
      → IsPayload r.0
      → Goes st (send_encoded shape encode user_id room_id st r)
  unfolding send_encoded
  send_encoded-Goes st (err e, encoder) h p = (refl, h)
  send_encoded-Goes st (ok payload, encoder) h p =
      (packet-decoded st.sequence payload h p, omega arith)

  send_frame-Goes :
      (muted : Bool) (st : Sender F E) (frame : List ℤ)
      → st.sequence < 2 ^ 64
      → Goes st (send_frame shape encode user_id room_id muted st frame)
  unfolding send_frame
  send_frame-Goes muted st frame h =
      let shaped = shape st.filters frame in
      if-elim (Goes st) (muted || not shaped.0.1) (λ _. (refl, h))
        (λ _.
          send_encoded-Goes (record st { filters = shaped.1 }) (encode st.encoder shaped.0.0) h
            (encodes st.encoder shaped.0.0))

  send_frames-Goes :
      (muted : Bool) (st : Sender F E) (frames : List (List ℤ))
      → st.sequence < 2 ^ 64
      → Goes st (send_frames shape encode user_id room_id muted st frames)
  unfolding send_frames
  send_frames-Goes muted st [] h = (refl, h)
  send_frames-Goes muted st (frame ∷ frames) h =
      let one = send_frame shape encode user_id room_id muted st frame in
      let first = send_frame-Goes muted st frame h in
      let rest = send_frames-Goes muted one.1 frames first.1 in
      (Numbered-append user_id room_id st.sequence one.1.sequence _ one.0 _ first.0 rest.0, rest.1)

  capture-Goes :
      (muted : Bool) (st : Sender F E) (samples : List ℤ)
      → st.sequence < 2 ^ 64
      → Goes st (capture shape encode user_id room_id muted st samples)
  unfolding capture
  capture-Goes muted st samples h =
      send_frames-Goes muted
        (record st {
          capture_buffer = (drain_frames (st.capture_buffer ++ samples) opus_frame_samples).1;
        })
        (drain_frames (st.capture_buffer ++ samples) opus_frame_samples).0 h

  -- With an encoder that gives bytes, and names that fit a packet: whatever the microphone records
  -- and however the mute switch is turned, what the worker sends of it decodes at a listener to
  -- packets of the user and the room, numbered one after the other in 64 bits from the number of
  -- the sender on, without a gap.
  pub capture_all-Numbered :
      (st : Sender F E) (rounds : List (Bool × List ℤ))
      → st.sequence < 2 ^ 64
      → Numbered user_id room_id st.sequence
          (capture_all shape encode user_id room_id st rounds).1.sequence
          (capture_all shape encode user_id room_id st rounds).0
        × ((capture_all shape encode user_id room_id st rounds).1.sequence < 2 ^ 64)
  unfolding capture_all
  capture_all-Numbered st [] h = (refl, h)
  capture_all-Numbered st ((muted, samples) ∷ rounds) h =
      let one = capture shape encode user_id room_id muted st samples in
      let first = capture-Goes muted st samples h in
      let rest = capture_all-Numbered one.1 rounds first.1 in
      (Numbered-append user_id room_id st.sequence one.1.sequence _ one.0 _ first.0 rest.0, rest.1)
