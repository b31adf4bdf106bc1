-- ===== src/Client/Voice/Microphone.antt =====
-- The capture path of `run_voice_worker` (crates/light-discord-client/src/voice.rs). `shape` is the
-- filters, the ducking and the noise gate on one frame, and `encode` the Opus encoder, each with its
-- state; a datagram is sent or lost outside. The mark that the user speaks and the timer of the keep-alive
-- are left out.
use light_discord.Common.{
  Bool, List, Result, Text, [], err, if◌then◌else◌, not, ok, ℕ, ◌%◌, ◌++◌, ◌+◌, ◌^◌, ◌||◌, ◌∷◌,
}
use light_discord.Common.Int.{ℤ}
use light_discord.Voice.Frames.{drain_frames}
use light_discord.Wire.Packet.{VoicePacket, VoicePacketBinaryError, voice_codec_opus}
use light_discord.Wire.Encode.{encode_voice_packet_binary}

abbrev pub opus_sample_rate : ℕ
opus_sample_rate = 48000

abbrev pub opus_frame_samples : ℕ
opus_frame_samples = 960

unfoldable pub voice_packet : Text → Text → ℕ → ℕ → List ℕ → VoicePacket
voice_packet user_id room_id sequence frame_samples payload = record {
  user_id = user_id;
  room_id = room_id;
  sequence = sequence;
  sample_rate = opus_sample_rate;
  channels = 1;
  codec = voice_codec_opus;
  frame_samples = frame_samples;
  payload = payload;
}

-- `if let Ok(bytes) = .. { socket.send(&bytes) }`
abbrev pub datagrams_of : Result (List ℕ) VoicePacketBinaryError → List (List ℕ)
datagrams_of (ok bytes) = bytes ∷ []
datagrams_of (err e) = []

pub record Sender (F E : Type 0) : Type 0 where
  pub filters : F
  pub encoder : E
  pub sequence : ℕ
  pub capture_buffer : List ℤ

module _ {F E : Type 0} (shape : F → List ℤ → (List ℤ × Bool) × F)
    (encode : E → List ℤ → Result (List ℕ) Text × E) (user_id room_id : Text) where
  -- What is sent of an encoded frame; an encoder that fails sends nothing and numbers nothing.
  unfoldable pub send_encoded : Sender F E → Result (List ℕ) Text × E → List (List ℕ) × Sender F E
  unfolding voice_packet
  send_encoded st (err e, encoder) = ([], record st { encoder = encoder })
  send_encoded st (ok payload, encoder) = (
    datagrams_of (
        encode_voice_packet_binary
          (voice_packet user_id room_id st.sequence opus_frame_samples payload)),
    record st { encoder = encoder; sequence = (st.sequence + 1) % 2 ^ 64 },
  )

  -- One frame of the loop over the frames.
  unfoldable pub send_frame : Bool → Sender F E → List ℤ → List (List ℕ) × Sender F E
  unfolding send_encoded
  send_frame muted st frame =
      let ((shaped, gate_open), filters) = shape st.filters frame in
      let st' = record st { filters = filters } in
      if muted || not gate_open then ([], st') else send_encoded st' (encode st.encoder shaped)

  unfoldable pub send_frames : Bool → Sender F E → List (List ℤ) → List (List ℕ) × Sender F E
  unfolding send_frame
  send_frames muted st [] = ([], st)
  send_frames muted st (frame ∷ frames) =
      let (sent, st') = send_frame muted st frame in
      let (more, after) = send_frames muted st' frames in (sent ++ more, after)

  -- The capture path of one round, of the samples that have come, resampled.
  unfoldable pub capture : Bool → Sender F E → List ℤ → List (List ℕ) × Sender F E
  unfolding send_frames
  capture muted st samples =
      let (frames, rest) = drain_frames (st.capture_buffer ++ samples) opus_frame_samples in
      send_frames muted (record st { capture_buffer = rest }) frames

  -- The keep-alive, which has the current number and no payload.
  unfoldable pub heartbeat : Sender F E → List (List ℕ)
  unfolding voice_packet
  heartbeat st =
      datagrams_of (encode_voice_packet_binary (voice_packet user_id room_id st.sequence 0 []))

  -- The capture paths of several rounds, each with its mute switch.
  unfoldable pub capture_all : Sender F E → List (Bool × List ℤ) → List (List ℕ) × Sender F E
  unfolding capture
  capture_all st [] = ([], st)
  capture_all st ((muted, samples) ∷ rounds) =
      let (sent, st') = capture muted st samples in
      let (more, after) = capture_all st' rounds in (sent ++ more, after)
