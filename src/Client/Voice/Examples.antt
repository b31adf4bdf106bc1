-- ===== src/Client/Voice/Examples.antt =====
-- One peer of a room on which the theorems about the voice worker are applied.
use light_discord.Common.{
  All, Bool, List, Option, Result, Text, [], arith, err, false, length, none, ok, refl, some, suc,
  text, text_eq, true, ℕ, ◌<◌, ◌^◌, ◌∷◌, ◌≡◌,
}
use light_discord.Common.Int.{ℤ, pos, div_ℤ, ◌+ℤ◌}
use light_discord.Audio.Channels.{replicate, mix_down, average, sum, as_i16}
use light_discord.Audio.Pcm.{decode_pcm_le}
use light_discord.Wire.Bytes.{from_le_bytes}
use light_discord.Wire.Utf8.{as_bytes, encode_char, from_utf8}
use light_discord.Wire.Packet.{VoicePacket, voice_codec_pcm_s16le}
use light_discord.Wire.Decode.{
  read_byte, read_le, read_prefixed, read_text, read_magic, read_version, codec_name, read_codec,
  read_packet, decode_voice_packet_binary,
}
use light_discord.Wire.Reader.{take_bytes}
use light_discord.Voice.Jitter.{is_stale, evict, emit, pop_from, pop_on}
use light_discord.Voice.Jitter as Jitter
use light_discord.Voice.Jitter.Pending.{find, put, erase}
use light_discord.Voice.Jitter.Drain.{span}
use light_discord.Voice.Jitter.Ends.{rounds}
use light_discord.Common.Maps.{get, insert}
use light_discord.Client.Voice.Microphone.{Sender, capture_all}
use light_discord.Client.Voice.Numbered.{IsPayload, IsName, Numbered, capture_all-Numbered}
use light_discord.Client.Voice.Legacy.{
  decoded, IsLegacyPcm, decode_legacy_pcm, decode_legacy_pcm-IsLegacyPcm,
}
use light_discord.Client.Voice.Remotes.{
  Receiver, VoiceEvent, datagram, drained, run, receive, on_packet, handle_remote_packet,
  drain_remotes, drain_peers, drain_remote, pop_decoded_frame, play_frames, mark_active,
}
use light_discord.Client.Voice.Peers.{Runs, IsBytes}
use light_discord.Client.Voice.Rounds.{run-Runs}

-- Filters that change nothing, a gate that is open, and an encoder with one answer.
abbrev shape : ℕ → List ℤ → (List ℤ × Bool) × ℕ
shape filters frame = ((frame, true), filters)

abbrev encode : ℕ → List ℤ → Result (List ℕ) Text × ℕ
encode encoder frame = (ok (10 ∷ 20 ∷ []), suc encoder)

encode-IsPayload : (e : ℕ) (frame : List ℤ) → IsPayload (encode e frame).0
encode-IsPayload e frame = (omega arith, omega arith)

abbrev ann : Text
ann = text "u1"

abbrev room : Text
room = text "r"

ann-IsName : IsName ann
unfolding as_bytes encode_char
ann-IsName = (omega arith, omega arith)

room-IsName : IsName room
unfolding as_bytes encode_char
room-IsName = (omega arith, omega arith)

abbrev sender : Sender ℕ ℕ
sender = record { filters = 0; encoder = 0; sequence = 18446744073709551615; capture_buffer = [] }

-- A frame and a half, and then the other half while muted.
abbrev spoken : List (Bool × List ℤ)
spoken = (false, replicate 1440 (pos 3)) ∷ (true, replicate 480 (pos 3)) ∷ []

capture_all-Numbered_example :
    Numbered ann room 18446744073709551615
      (capture_all shape encode ann room sender spoken).1.sequence
      (capture_all shape encode ann room sender spoken).0
    × ((capture_all shape encode ann room sender spoken).1.sequence < 2 ^ 64)
capture_all-Numbered_example =
    capture_all-Numbered shape encode ann room encode-IsPayload ann-IsName room-IsName sender spoken
      (omega arith)

abbrev legacy_packet : VoicePacket
legacy_packet = record {
  user_id = ann;
  room_id = room;
  sequence = 1;
  sample_rate = 48000;
  channels = 2;
  codec = voice_codec_pcm_s16le;
  frame_samples = 0;
  payload = 1 ∷ 0 ∷ 3 ∷ 0 ∷ [];
}

-- The two channels are averaged.
legacy_mixed : decode_legacy_pcm legacy_packet ≡ decoded (pos 2 ∷ [])
unfolding decode_legacy_pcm decode_pcm_le mix_down average sum as_i16 div_ℤ from_le_bytes ◌+ℤ◌
legacy_mixed = refl

decode_legacy_pcm-IsLegacyPcm_example : IsLegacyPcm legacy_packet (decode_legacy_pcm legacy_packet)
decode_legacy_pcm-IsLegacyPcm_example = decode_legacy_pcm-IsLegacyPcm legacy_packet

-- A datagram of three that come before the buffer of the peer is primed, numbered `n`.
abbrev peer_bytes : ℕ → List ℕ
peer_bytes n =
    76 ∷ 68 ∷ 86 ∷ 80 ∷ 1 ∷ 2 ∷ 0 ∷ 117 ∷ 50 ∷ 1 ∷ 0 ∷ 114 ∷ n ∷ 0 ∷ 0 ∷ 0 ∷ 0 ∷ 0 ∷ 0 ∷ 0 ∷ 128
    ∷ 187 ∷ 0 ∷ 0 ∷ 1 ∷ 0 ∷ 1 ∷ 192 ∷ 3 ∷ 0 ∷ 0 ∷ 2 ∷ 0 ∷ 0 ∷ 0 ∷ 1 ∷ 2 ∷ []

-- The second packet is lost on the way.
abbrev events : List VoiceEvent
events =
    datagram false 0 (peer_bytes 4)
    ∷ datagram false 1 (peer_bytes 7)
    ∷ drained false 2
    ∷ datagram false 3 (peer_bytes 6)
    ∷ drained false 4
    ∷ datagram true 5 (peer_bytes 8)
    ∷ drained true 6
    ∷ []

-- A decoder that gives one sample for a packet and none for a loss without the next packet.
abbrev decode : ℕ → List ℕ → Bool → Result (List ℤ) Text × ℕ
decode decoder [] fec = (err (text "loss"), decoder)
decode decoder (b ∷ payload) fec = (ok (pos b ∷ []), suc decoder)

abbrev is_loud : List ℤ → Bool
is_loud pcm = true

abbrev new_receiver : Receiver ℕ
new_receiver = record { remotes = []; output = record { played = []; speakers = [] } }

abbrev received : Option (Receiver ℕ)
received = run decode (ok 0) is_loud rounds ann events new_receiver

abbrev count_played : Option (Receiver ℕ) → ℕ
count_played none = 0
count_played (some st) = length st.output.played

run-Runs_example : Runs (run decode (ok 0) is_loud rounds ann events new_receiver)
run-Runs_example = run-Runs decode (ok 0) is_loud ann events new_receiver events-IsBytes (tt, tt)
  where
    events-IsBytes : All IsBytes events
    events-IsBytes = omega arith

-- Packets 4, 6 and 7 and the loss of 5 are played.
four_played : count_played received ≡ 4
unfolding run receive on_packet handle_remote_packet drain_remotes drain_peers drain_remote rounds
    span decode_voice_packet_binary read_packet read_magic read_version read_text read_prefixed
    read_le read_codec read_byte codec_name take_bytes text_eq from_le_bytes from_utf8 get insert
    Jitter.push is_stale evict put Jitter.new find erase emit pop_from pop_on Jitter.pop
    pop_decoded_frame play_frames mark_active
four_played = refl
