-- ===== src/Client/Voice/Peers.antt =====
-- What the receiving half of `run_voice_worker` (crates/light-discord-client/src/voice.rs) keeps true
-- of its peers, and that the loop over the jitter buffer of one of them ends.
use light_discord.Common.{
  All, All-append, Bool, Bool-cases, List, Option, Result, Text, [], arith, err, false, if-elim,
  inl, inr, is_empty, none, ok, refl, some, subst, suc, sym, text_eq, true, zero, ℕ, ◌<◌, ◌∙◌, ◌∷◌,
  ◌≡◌, ◌≤◌,
}
use mathlib.Core.Option
use light_discord.Common.Maps.{Map, get, insert}
use light_discord.Common.Int.{ℤ}
use light_discord.Audio.Playback.{AudioFrame}
use light_discord.Wire.Bytes.{IsByte}
use light_discord.Voice.Jitter.{JitterBuffer, JitterPop, packet, lost, empty, pop, u64_mod}
use light_discord.Voice.Jitter as Jitter
use light_discord.Voice.Jitter.Valid.{IsValid, new-IsValid, push-IsValid, pop-IsValid}
use light_discord.Voice.Jitter.Drain.{drain, after_pop, drain_step, AreU64}
use light_discord.Voice.Jitter.Ends.{Ends, push-AreU64, pop-Keeps}
use light_discord.Client.Voice.Remotes.{
  jitter_target_depth, jitter_max_depth, Output, Receiver, RemoteVoice, VoiceEvent, datagram,
  drained, play, mark_if, decoded_frame, decode_pop, before, after_frame, pop_decoded_frame,
  drain_remote,
}

-- The jitter buffer keeps its invariant, its numbers are of 64 bits, and it holds at most 20 packets.
abbrev pub IsBuffer : JitterBuffer → Type 0
IsBuffer b = IsValid b × AreU64 b.pending × (b.max_depth ≡ jitter_max_depth)

-- What the playback stream gets: samples, at a rate and a number of channels that are not zero.
abbrev pub IsPlayable : AudioFrame → Type 0
IsPlayable f = (8000 ≤ f.sample_rate) × (1 ≤ f.channels) × (is_empty f.pcm ≡ false)

abbrev pub ArePlayable : Output → Type 0
ArePlayable out = All IsPlayable out.played

pub pop-IsBuffer : (b : JitterBuffer) → IsBuffer b → IsBuffer (pop b false).1
pop-IsBuffer b h =
    let keeps = pop-Keeps b false h.1 in (pop-IsValid b false h.0, keeps.0, keeps.1 ∙ h.2)

pub push-IsBuffer :
    (b : JitterBuffer) (sequence : ℕ) (payload : List ℕ)
    → sequence < u64_mod
    → IsBuffer b
    → IsBuffer (Jitter.push b sequence payload)
push-IsBuffer b sequence payload u h =
    let keeps = push-AreU64 b sequence payload u h.1 in
    (push-IsValid b sequence payload h.0, keeps.0, keeps.1 ∙ h.2)

pub new-IsBuffer : IsBuffer (Jitter.new jitter_target_depth jitter_max_depth)
unfolding Jitter.new
new-IsBuffer = (new-IsValid jitter_target_depth jitter_max_depth, tt, refl)

pub play-ArePlayable :
    (f : AudioFrame) (out : Output) → IsPlayable f → ArePlayable out → ArePlayable (play f out)
play-ArePlayable f out p h = All-append IsPlayable out.played (f ∷ []) h (p, tt)

pub mark_if-ArePlayable :
    (audible : Bool) (user_id : Text) (now : ℕ) (out : Output)
    → ArePlayable out
    → ArePlayable (mark_if audible user_id now out)
mark_if-ArePlayable true user_id now out h = h
mark_if-ArePlayable false user_id now out h = h

-- The datagrams of the events are bytes.
abbrev pub IsBytes : VoiceEvent → Type 0
IsBytes (datagram deafened now bytes) = All IsByte bytes
IsBytes (drained deafened now) = Unit {0}

-- What is left of the loop after an answer.
abbrev Continues : ℕ → JitterPop × JitterBuffer → Type 0
Continues fuel (empty, b) = Unit {0}
Continues fuel (packet s payload, b) = Ends fuel b
Continues fuel (lost s next, b) = Ends fuel b

map_inv :
    (f : List JitterPop → List JitterPop) (o : Option (List JitterPop)) (out : List JitterPop)
    → Option.map f o ≡ some out
    → (out' : List JitterPop) × (o ≡ some out')
map_inv f none out e = absurd cc
map_inv f (some out') out e = (out', refl)

after_pop-Continues :
    (fuel : ℕ) (r : JitterPop × JitterBuffer) (out : List JitterPop)
    → after_pop (λ b. drain fuel b false) r ≡ some out
    → Continues fuel r
unfolding after_pop
after_pop-Continues fuel (empty, b) out e = tt
after_pop-Continues fuel (packet s payload, b) out e = map_inv _ _ out e
after_pop-Continues fuel (lost s next, b) out e = map_inv _ _ out e

Ends-Continues : (fuel : ℕ) (b : JitterBuffer) → Ends (suc fuel) b → Continues fuel (pop b false)
Ends-Continues fuel b h =
    after_pop-Continues fuel (pop b false) h.0 (sym (drain_step fuel b false _ refl) ∙ h.1)

no_rounds : (b : JitterBuffer) → Ends 0 b → ⊥
unfolding drain
no_rounds b e = ground (arith, e.1)

module _ {D : Type 0} where
  abbrev pub IsPeer : Text × RemoteVoice D → Type 0
  IsPeer peer = IsBuffer peer.1.jitter

  -- What the worker keeps true of its peers and of what it plays.
  abbrev pub IsSound : Receiver D → Type 0
  IsSound st = All IsPeer st.remotes × ArePlayable st.output

  abbrev pub Drained : Option (List (List ℤ) × RemoteVoice D) → Type 0
  Drained none = ⊥
  Drained (some r) = IsBuffer r.1.jitter

  abbrev pub Runs : Option (Receiver D) → Type 0
  Runs none = ⊥
  Runs (some st) = IsSound st

  pub IsPeer-insert :
      (k : Text) (v : RemoteVoice D) (m : Map (RemoteVoice D))
      → All IsPeer m
      → IsBuffer v.jitter
      → All IsPeer (insert k v m)
  unfolding insert
  IsPeer-insert k v [] h b = (b, tt)
  IsPeer-insert k v ((j, w) ∷ m) h b =
      if-elim (All IsPeer) (text_eq j k) (λ _. (b, h.1)) (λ _. (h.0, IsPeer-insert k v m h.1 b))

  pub IsBuffer-get :
      (k : Text) (v : RemoteVoice D) (m : Map (RemoteVoice D))
      → get k m ≡ some v
      → All IsPeer m
      → IsBuffer v.jitter
  unfolding get
  IsBuffer-get k v [] e h = absurd cc
  IsBuffer-get k v ((j, w) ∷ m) e h = elim (Bool-cases (text_eq j k)) [
    | inl hit ↦ let same : w ≡ v = ground (arith, e, hit) in subst (λ r. IsBuffer r.jitter) same h.0
    | inr miss ↦ IsBuffer-get k v m (ground (arith, e, miss)) h.1
  ]

module _ {D : Type 0} (decode : D → List ℕ → Bool → Result (List ℤ) Text × D)
    (new_decoder : Result D Text) (is_loud : List ℤ → Bool) where
  abbrev Rest : ℕ → (RemoteVoice D → Option (List (List ℤ) × RemoteVoice D)) → Type 0
  Rest fuel rest =
      (remote : RemoteVoice D)
      → IsBuffer remote.jitter
      → Ends fuel remote.jitter
      → Drained (rest remote)

  before-Drained :
      (pcm : List ℤ) (o : Option (List (List ℤ) × RemoteVoice D))
      → Drained o
      → Drained (before pcm o)
  before-Drained pcm none h = h
  before-Drained pcm (some r) h = h

  decoded_frame-Drained :
      (fuel : ℕ) (rest : RemoteVoice D → Option (List (List ℤ) × RemoteVoice D))
      → Rest fuel rest
      → (x : Result (List ℤ) Text × D) (b : JitterBuffer) → IsBuffer b
      → Ends fuel b
      → Drained (
          after_frame decode new_decoder is_loud rest
            (decoded_frame decode new_decoder is_loud x b))
  decoded_frame-Drained fuel rest k (ok pcm, d) b h e = before-Drained pcm _ (k _ h e)
  decoded_frame-Drained fuel rest k (err x, d) b h e = h

  decode_pop-Drained :
      (fuel : ℕ) (rest : RemoteVoice D → Option (List (List ℤ) × RemoteVoice D))
      → Rest fuel rest
      → (d : D) (r : JitterPop × JitterBuffer) → IsBuffer r.1
      → Continues fuel r
      → Drained
          (after_frame decode new_decoder is_loud rest (decode_pop decode new_decoder is_loud d r))
  decode_pop-Drained fuel rest k d (empty, b) h c = h
  decode_pop-Drained fuel rest k d (packet s payload, b) h c =
      decoded_frame-Drained fuel rest k (decode d payload false) b h c
  decode_pop-Drained fuel rest k d (lost s (some next), b) h c =
      decoded_frame-Drained fuel rest k (decode d next true) b h c
  decode_pop-Drained fuel rest k d (lost s none, b) h c =
      decoded_frame-Drained fuel rest k (decode d [] false) b h c

  -- The loop ends within the rounds that pop the buffer until it is empty, whatever the decoder says.
  pub drain_remote-Drained :
      (fuel : ℕ) (remote : RemoteVoice D)
      → IsBuffer remote.jitter
      → Ends fuel remote.jitter
      → Drained (drain_remote decode new_decoder is_loud fuel remote)
  unfolding drain_remote pop_decoded_frame
  drain_remote-Drained zero remote h e = absurd (no_rounds remote.jitter e)
  drain_remote-Drained (suc fuel) remote h e =
      decode_pop-Drained fuel (drain_remote decode new_decoder is_loud fuel)
        (drain_remote-Drained fuel) remote.decoder (pop remote.jitter false)
        (pop-IsBuffer remote.jitter h) (Ends-Continues fuel remote.jitter e)
