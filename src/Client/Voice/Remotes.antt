-- ===== src/Client/Voice/Remotes.antt =====
-- The receive path of `run_voice_worker` (crates/light-discord-client/src/voice.rs):
-- `handle_remote_packet`, `pop_decoded_frame` and the loops that call them. The Opus decoder and the
-- loudness of samples, which is a floating-point number, are parameters. The estimate of how loud the
-- peers were, which the capture path ducks by, is left out.
use light_discord.Common.{
  Bool, List, Option, Result, Text, [], err, false, if◌then◌else◌, is_empty, ltb, max, none, not,
  ok, some, suc, text_eq, true, zero, ℕ, ◌++◌, ◌-◌, ◌||◌, ◌∷◌,
}
use light_discord.Common.Maps.{Map, get, insert}
use light_discord.Common.Int.{ℤ}
use light_discord.Audio.Playback.{AudioFrame}
use light_discord.Voice.Jitter.{JitterBuffer, JitterPop, packet, lost, empty}
use light_discord.Voice.Jitter as Jitter
use light_discord.Wire.Packet.{VoicePacket, VoicePacketBinaryError, voice_codec_opus}
use light_discord.Wire.Decode.{decode_voice_packet_binary}
use light_discord.Client.Voice.Microphone.{opus_sample_rate}
use light_discord.Client.Voice.Legacy.{LegacyPcm, refused, decoded, panicked, decode_legacy_pcm}

abbrev pub jitter_target_depth : ℕ
jitter_target_depth = 3

abbrev pub jitter_max_depth : ℕ
jitter_max_depth = 20

-- Nanoseconds.
abbrev pub active_hold : ℕ
active_hold = 350000000

-- `VoiceShared`, less the switches, which the UI sets: when each user was last heard.
abbrev pub Speakers : Type 0
Speakers = Map ℕ

unfoldable pub mark_active : Text → ℕ → Speakers → Speakers
mark_active user_id now speakers = insert user_id now speakers

abbrev is_recent : ℕ → Option ℕ → Bool
is_recent now none = false
is_recent now (some t) = ltb (now - t) active_hold

unfoldable pub is_active : Text → ℕ → Speakers → Bool
is_active user_id now speakers = is_recent now (get user_id speakers)

pub record RemoteVoice (D : Type 0) : Type 0 where
  pub decoder : D
  pub jitter : JitterBuffer

-- What it has sent to the playback stream, and who was heard.
pub record Output : Type 0 where
  pub played : List AudioFrame
  pub speakers : Speakers

pub record Receiver (D : Type 0) : Type 0 where
  pub remotes : Map (RemoteVoice D)
  pub output : Output

-- `playback_tx.send`
abbrev pub play : AudioFrame → Output → Output
play frame out = record out { played = out.played ++ frame ∷ [] }

abbrev pub mark_if : Bool → Text → ℕ → Output → Output
mark_if audible user_id now out =
    if audible then record out { speakers = mark_active user_id now out.speakers } else out

abbrev pub before :
    {D : Type 0}
    → List ℤ
    → Option (List (List ℤ) × RemoteVoice D)
    → Option (List (List ℤ) × RemoteVoice D)
before pcm none = none
before pcm (some (frames, a)) = some (pcm ∷ frames, a)

-- A datagram of the socket, or a drain of the jitter buffers, each with the deafen switch and the time.
pub data VoiceEvent : Type 0 where
  datagram : Bool → ℕ → List ℕ → VoiceEvent
  drained : Bool → ℕ → VoiceEvent

module _ {D : Type 0} (decode : D → List ℕ → Bool → Result (List ℤ) Text × D)
    (new_decoder : Result D Text) (is_loud : List ℤ → Bool) where
  unfoldable pub play_legacy : VoicePacket → ℕ → LegacyPcm → Output → Output
  unfolding mark_active
  play_legacy p now refused out = out
  play_legacy p now panicked out = out
  play_legacy p now (decoded pcm) out =
      if is_empty pcm
      then out
      else play
          (record { sample_rate = max p.sample_rate 8000; channels = max p.channels 1; pcm = pcm })
          (mark_if (is_loud pcm) p.user_id now out)

  -- The packet goes into the jitter buffer of `remote`.
  abbrev pub push_to : VoicePacket → RemoteVoice D → Receiver D → Receiver D
  push_to p remote st = record st {
    remotes =
        insert p.user_id (record remote { jitter = Jitter.push remote.jitter p.sequence p.payload })
          st.remotes;
  }

  abbrev pub push_new : VoicePacket → Result D Text → Receiver D → Receiver D
  push_new p (err e) st = st
  push_new p (ok decoder) st =
      push_to p
        (record { decoder = decoder; jitter = Jitter.new jitter_target_depth jitter_max_depth }) st

  abbrev pub push_entry : VoicePacket → Option (RemoteVoice D) → Receiver D → Receiver D
  push_entry p (some remote) st = push_to p remote st
  push_entry p none st = push_new p new_decoder st

  unfoldable pub handle_remote_packet : VoicePacket → ℕ → Receiver D → Receiver D
  unfolding play_legacy Jitter.push Jitter.new decode_legacy_pcm
  handle_remote_packet p now st =
      if not (text_eq p.codec voice_codec_opus)
      then record st { output = play_legacy p now (decode_legacy_pcm p) st.output }
      else push_entry p (get p.user_id st.remotes) st

  unfoldable pub on_packet :
      Text → Bool → ℕ → Result VoicePacket VoicePacketBinaryError → Receiver D → Receiver D
  unfolding handle_remote_packet
  on_packet user_id deafened now (err e) st = st
  on_packet user_id deafened now (ok p) st =
      if text_eq p.user_id user_id || is_empty p.payload || deafened
      then st
      else handle_remote_packet p now st

  -- One datagram of the receive loop.
  unfoldable pub receive : Text → Bool → ℕ → List ℕ → Receiver D → Receiver D
  unfolding on_packet
  receive user_id deafened now bytes st =
      on_packet user_id deafened now (decode_voice_packet_binary bytes) st

  abbrev pub decoded_frame :
      Result (List ℤ) Text × D → JitterBuffer → Option (List ℤ) × RemoteVoice D
  decoded_frame (ok pcm, decoder) jitter = (some pcm, record { decoder = decoder; jitter = jitter })
  decoded_frame (err e, decoder) jitter = (none, record { decoder = decoder; jitter = jitter })

  abbrev pub decode_pop : D → JitterPop × JitterBuffer → Option (List ℤ) × RemoteVoice D
  decode_pop decoder (empty, jitter) = (none, record { decoder = decoder; jitter = jitter })
  decode_pop decoder (packet s payload, jitter) =
      decoded_frame (decode decoder payload false) jitter
  decode_pop decoder (lost s (some next), jitter) = decoded_frame (decode decoder next true) jitter
  decode_pop decoder (lost s none, jitter) = decoded_frame (decode decoder [] false) jitter

  unfoldable pub pop_decoded_frame : RemoteVoice D → Bool → Option (List ℤ) × RemoteVoice D
  unfolding Jitter.pop
  pop_decoded_frame remote force_drain =
      decode_pop remote.decoder (Jitter.pop remote.jitter force_drain)

  abbrev pub after_frame :
      (RemoteVoice D → Option (List (List ℤ) × RemoteVoice D))
      → Option (List ℤ) × RemoteVoice D
      → Option (List (List ℤ) × RemoteVoice D)
  after_frame rest (none, remote) = some ([], remote)
  after_frame rest (some pcm, remote) = before pcm (rest remote)

  -- `while let Some(pcm) = pop_decoded_frame(remote, false)`: the frames, in order, and the peer
  -- after; `none` when the fuel runs out first.
  unfoldable pub drain_remote : ℕ → RemoteVoice D → Option (List (List ℤ) × RemoteVoice D)
  unfolding pop_decoded_frame
  drain_remote zero remote = none
  drain_remote (suc fuel) remote = after_frame (drain_remote fuel) (pop_decoded_frame remote false)

  -- The frames of a peer are played, and the peer marked active for each that is loud.
  unfoldable pub play_frames : Text → ℕ → List (List ℤ) → Output → Output
  unfolding mark_active
  play_frames peer_id now [] out = out
  play_frames peer_id now (pcm ∷ frames) out = play_frames peer_id now frames (
      if is_empty pcm
      then out
      else play (record { sample_rate = opus_sample_rate; channels = 1; pcm = pcm })
          (mark_if (is_loud pcm) peer_id now out))

  abbrev pub with_peer : Text × RemoteVoice D → Option (Receiver D) → Option (Receiver D)
  with_peer peer none = none
  with_peer peer (some st) = some (record st { remotes = peer ∷ st.remotes })

  abbrev pub drain_next :
      Text
      → ℕ
      → Output
      → (Output → Option (Receiver D))
      → Option (List (List ℤ) × RemoteVoice D)
      → Option (Receiver D)
  drain_next peer_id now out rest none = none
  drain_next peer_id now out rest (some (frames, remote)) =
      with_peer (peer_id, remote) (rest (play_frames peer_id now frames out))

  -- `for (peer_id, remote) in remotes.iter_mut()`; `fuel_of` gives the rounds of each inner loop.
  unfoldable pub drain_peers :
      (JitterBuffer → ℕ) → ℕ → Map (RemoteVoice D) → Output → Option (Receiver D)
  unfolding drain_remote play_frames
  drain_peers fuel_of now [] out = some (record { remotes = []; output = out })
  drain_peers fuel_of now ((peer_id, remote) ∷ peers) out =
      drain_next peer_id now out (drain_peers fuel_of now peers)
        (drain_remote (fuel_of remote.jitter) remote)

  -- The drain of the jitter buffers in one round of the worker.
  unfoldable pub drain_remotes : (JitterBuffer → ℕ) → Bool → ℕ → Receiver D → Option (Receiver D)
  unfolding drain_peers
  drain_remotes fuel_of deafened now st =
      if deafened then some st else drain_peers fuel_of now st.remotes st.output

  abbrev pub and_then :
      (Receiver D → Option (Receiver D)) → Option (Receiver D) → Option (Receiver D)
  and_then rest none = none
  and_then rest (some st) = rest st

  -- What the receiving half of the worker does in an order of events.
  unfoldable pub run :
      (JitterBuffer → ℕ) → Text → List VoiceEvent → Receiver D → Option (Receiver D)
  unfolding receive drain_remotes
  run fuel_of user_id [] st = some st
  run fuel_of user_id (datagram deafened now bytes ∷ events) st =
      run fuel_of user_id events (receive user_id deafened now bytes st)
  run fuel_of user_id (drained deafened now ∷ events) st =
      and_then (run fuel_of user_id events) (drain_remotes fuel_of deafened now st)
