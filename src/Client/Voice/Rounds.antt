-- ===== src/Client/Voice/Rounds.antt =====
-- The receiving half of `run_voice_worker` (crates/light-discord-client/src/voice.rs) over any
-- datagrams and any decoder.
use light_discord.Common.{
  All, Bool, List, Option, Result, Text, [], ap, arith, err, false, if-elim, is_empty, none, not,
  ok, refl, some, text_eq, true, ℕ, ◌<◌, ◌^◌, ◌||◌, ◌∙◌, ◌∷◌, ◌≡◌,
}
use light_discord.Common.Maps.{Map, get}
use light_discord.Common.Int.{ℤ}
use light_discord.Wire.Bytes.{IsByte}
use light_discord.Wire.Packet.{VoicePacket, VoicePacketBinaryError, voice_codec_opus}
use light_discord.Wire.Decode.{decode_voice_packet_binary}
use light_discord.Wire.Canonical.{encode-decode}
use light_discord.Voice.Jitter.{u64_mod}
use light_discord.Voice.Jitter.Ends.{rounds, drain-Ends}
use light_discord.Client.Voice.Legacy.{LegacyPcm, refused, decoded, panicked, decode_legacy_pcm}
use light_discord.Client.Voice.Remotes.{
  Output, Receiver, RemoteVoice, VoiceEvent, datagram, drained, mark_if, play_legacy, push_to,
  push_new, push_entry, handle_remote_packet, on_packet, receive, play_frames, with_peer,
  drain_next, drain_peers, drain_remotes, and_then, run,
}
use light_discord.Client.Voice.Microphone.{Sender, voice_packet, datagrams_of, heartbeat}
use light_discord.Client.Voice.Numbered.{IsName, voice_packet-Travels}
use light_discord.Client.Voice.Peers.{
  IsBuffer, ArePlayable, push-IsBuffer, new-IsBuffer, play-ArePlayable, mark_if-ArePlayable,
  IsBytes, IsPeer, IsSound, Drained, Runs, IsPeer-insert, IsBuffer-get, drain_remote-Drained,
}

module _ {D : Type 0} (decode : D → List ℕ → Bool → Result (List ℤ) Text × D)
    (new_decoder : Result D Text) (is_loud : List ℤ → Bool) where
  play_frames-ArePlayable :
      (peer_id : Text) (now : ℕ) (frames : List (List ℤ)) (out : Output)
      → ArePlayable out
      → ArePlayable (play_frames decode new_decoder is_loud peer_id now frames out)
  unfolding play_frames
  play_frames-ArePlayable peer_id now [] out h = h
  play_frames-ArePlayable peer_id now (pcm ∷ frames) out h =
      play_frames-ArePlayable peer_id now frames _ (
        if-elim ArePlayable (is_empty pcm) (λ _. h)
          (λ some_pcm.
            play-ArePlayable _ (mark_if (is_loud pcm) peer_id now out)
              (omega arith, omega arith, some_pcm)
              (mark_if-ArePlayable (is_loud pcm) peer_id now out h)))

  with_peer-Runs :
      (peer : Text × RemoteVoice D) (o : Option (Receiver D))
      → IsPeer peer
      → Runs o
      → Runs (with_peer decode new_decoder is_loud peer o)
  with_peer-Runs peer none p h = h
  with_peer-Runs peer (some st) p h = ((p, h.0), h.1)

  drain_next-Runs :
      (peer_id : Text) (now : ℕ) (out : Output) (rest : Output → Option (Receiver D))
      → ArePlayable out
      → ((out' : Output) → ArePlayable out' → Runs (rest out'))
      → (o : Option (List (List ℤ) × RemoteVoice D)) → Drained o
      → Runs (drain_next decode new_decoder is_loud peer_id now out rest o)
  drain_next-Runs peer_id now out rest h k none d = absurd d
  drain_next-Runs peer_id now out rest h k (some (frames, remote)) d =
      with_peer-Runs (peer_id, remote) _ d (k _ (play_frames-ArePlayable peer_id now frames out h))

  drain_peers-Runs :
      (now : ℕ) (peers : Map (RemoteVoice D)) (out : Output)
      → All IsPeer peers
      → ArePlayable out
      → Runs (drain_peers decode new_decoder is_loud rounds now peers out)
  unfolding drain_peers
  drain_peers-Runs now [] out p h = (tt, h)
  drain_peers-Runs now ((peer_id, remote) ∷ peers) out p h =
      drain_next-Runs peer_id now out _ h (λ out' h'. drain_peers-Runs now peers out' p.1 h') _
        (drain_remote-Drained decode new_decoder is_loud (rounds remote.jitter) remote p.0
          (drain-Ends remote.jitter p.0.0 p.0.1))

  drain_remotes-Runs :
      (deafened : Bool) (now : ℕ) (st : Receiver D)
      → IsSound st
      → Runs (drain_remotes decode new_decoder is_loud rounds deafened now st)
  unfolding drain_remotes
  drain_remotes-Runs true now st h = h
  drain_remotes-Runs false now st h = drain_peers-Runs now st.remotes st.output h.0 h.1

  play_legacy-ArePlayable :
      (p : VoicePacket) (now : ℕ) (l : LegacyPcm) (out : Output)
      → ArePlayable out
      → ArePlayable (play_legacy decode new_decoder is_loud p now l out)
  unfolding play_legacy
  play_legacy-ArePlayable p now refused out h = h
  play_legacy-ArePlayable p now panicked out h = h
  play_legacy-ArePlayable p now (decoded pcm) out h =
      if-elim ArePlayable (is_empty pcm) (λ _. h)
        (λ some_pcm.
          play-ArePlayable _ (mark_if (is_loud pcm) p.user_id now out)
            (omega arith, omega arith, some_pcm)
            (mark_if-ArePlayable (is_loud pcm) p.user_id now out h))

  push_to-IsSound :
      (p : VoicePacket) (remote : RemoteVoice D) (st : Receiver D)
      → p.sequence < u64_mod
      → IsBuffer remote.jitter
      → IsSound st
      → IsSound (push_to decode new_decoder is_loud p remote st)
  push_to-IsSound p remote st u b h = (
    IsPeer-insert p.user_id _ st.remotes h.0 (push-IsBuffer remote.jitter p.sequence p.payload u b),
    h.1,
  )

  push_new-IsSound :
      (p : VoicePacket) (r : Result D Text) (st : Receiver D)
      → p.sequence < u64_mod
      → IsSound st
      → IsSound (push_new decode new_decoder is_loud p r st)
  push_new-IsSound p (err e) st u h = h
  push_new-IsSound p (ok d) st u h = push_to-IsSound p _ st u new-IsBuffer h

  push_entry-IsSound :
      (p : VoicePacket) (o : Option (RemoteVoice D)) (st : Receiver D)
      → get p.user_id st.remotes ≡ o
      → p.sequence < u64_mod
      → IsSound st
      → IsSound (push_entry decode new_decoder is_loud p o st)
  push_entry-IsSound p none st e u h = push_new-IsSound p new_decoder st u h
  push_entry-IsSound p (some remote) st e u h =
      push_to-IsSound p remote st u (IsBuffer-get p.user_id remote st.remotes e h.0) h

  on_packet-IsSound :
      (user_id : Text) (deafened : Bool) (now : ℕ) (r : Result VoicePacket VoicePacketBinaryError)
      → ((p : VoicePacket) → r ≡ ok p → p.sequence < u64_mod)
      → (st : Receiver D) → IsSound st
      → IsSound (on_packet decode new_decoder is_loud user_id deafened now r st)
  unfolding on_packet handle_remote_packet
  on_packet-IsSound user_id deafened now (err e) u st h = h
  on_packet-IsSound user_id deafened now (ok p) u st h =
      if-elim IsSound (text_eq p.user_id user_id || is_empty p.payload || deafened) (λ _. h)
        (λ _.
          if-elim IsSound (not (text_eq p.codec voice_codec_opus))
            (λ _. (h.0, play_legacy-ArePlayable p now (decode_legacy_pcm p) st.output h.1))
            (λ _. push_entry-IsSound p (get p.user_id st.remotes) st refl (u p refl) h))

  receive-IsSound :
      (user_id : Text) (deafened : Bool) (now : ℕ) (bytes : List ℕ) (st : Receiver D)
      → All IsByte bytes
      → IsSound st
      → IsSound (receive decode new_decoder is_loud user_id deafened now bytes st)
  unfolding receive
  receive-IsSound user_id deafened now bytes st b h =
      on_packet-IsSound user_id deafened now (decode_voice_packet_binary bytes)
        (λ p e. (encode-decode bytes p b e).0.sequence_u64) st h

  and_then-Runs :
      (rest : Receiver D → Option (Receiver D)) (o : Option (Receiver D))
      → ((st : Receiver D) → IsSound st → Runs (rest st))
      → Runs o
      → Runs (and_then decode new_decoder is_loud rest o)
  and_then-Runs rest none k h = absurd h
  and_then-Runs rest (some st) k h = k st h

  -- Whatever bytes come in as datagrams, whatever the decoder answers and however the deafen
  -- switch is turned, from a sound state the receiving half of the worker runs on: each drain of
  -- the jitter buffers ends within the rounds that the waiting numbers ask for, the buffer of each
  -- peer keeps its order and holds at most 20 packets, and what is played has samples, a rate of
  -- at least 8000 and a channel.
  pub run-Runs :
      (user_id : Text) (events : List VoiceEvent) (st : Receiver D)
      → All IsBytes events
      → IsSound st
      → Runs (run decode new_decoder is_loud rounds user_id events st)
  unfolding run
  run-Runs user_id [] st b h = h
  run-Runs user_id (datagram deafened now bytes ∷ events) st b h =
      run-Runs user_id events _ b.1 (receive-IsSound user_id deafened now bytes st b.0 h)
  run-Runs user_id (drained deafened now ∷ events) st b h =
      and_then-Runs _ _ (λ st' h'. run-Runs user_id events st' b.1 h')
        (drain_remotes-Runs deafened now st h)

module _ {F E D : Type 0} (shape : F → List ℤ → (List ℤ × Bool) × F)
    (encode : E → List ℤ → Result (List ℕ) Text × E)
    (decode : D → List ℕ → Bool → Result (List ℤ) Text × D) (new_decoder : Result D Text)
    (is_loud : List ℤ → Bool) where
  on_packet-empty :
      (listener : Text) (deafened : Bool) (now : ℕ) (p : VoicePacket) (st : Receiver D)
      → is_empty p.payload ≡ true
      → on_packet decode new_decoder is_loud listener deafened now (ok p) st ≡ st
  unfolding on_packet
  on_packet-empty listener deafened now p st e =
      if-elim (λ r. r ≡ st) (text_eq p.user_id listener || is_empty p.payload || deafened)
        (λ _. refl) (λ miss. absurd (ground (arith, e, miss)))

  -- The keep-alive of a worker is one datagram, and no listener, deafened or not, does anything with
  -- it.
  pub receive-heartbeat :
      (user_id room_id listener : Text) (deafened : Bool) (now : ℕ) (sender : Sender F E)
      (st : Receiver D)
      → IsName user_id
      → IsName room_id
      → sender.sequence < 2 ^ 64
      → (bytes : List ℕ) × (heartbeat shape encode user_id room_id sender ≡ bytes ∷ [])
        × (receive decode new_decoder is_loud listener deafened now bytes st ≡ st)
  unfolding heartbeat receive voice_packet
  receive-heartbeat user_id room_id listener deafened now sender st user room h =
      let (bytes, written, arrives) =
        voice_packet-Travels user_id room_id sender.sequence 0 [] user room h (omega arith)
          (tt, omega arith) in
      (
        bytes,
        ap datagrams_of written,
        ap (λ r. on_packet decode new_decoder is_loud listener deafened now r st) arrives
            ∙ on_packet-empty listener deafened now
                (voice_packet user_id room_id sender.sequence 0 []) st refl,
      )
