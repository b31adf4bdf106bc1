-- ===== src/Voice/Jitter/Drain.antt =====
-- What a drain of the jitter buffer (crates/light-discord-platform/src/voice.rs) emits: pops until the
-- buffer answers `Empty`, as the client's voice worker does while its decoder accepts what it gets.
use light_discord.Common.{
  Bool, List, Option, [], ap, arith, leb, length, length-append, none, refl, some, subst, suc, sym,
  true, zero, ℕ, ◌%◌, ◌++◌, ◌+◌, ◌-◌, ◌<◌, ◌||◌, ◌∙◌, ◌∷◌, ◌≡◌,
}
use mathlib.Core.Option
use native.Mathlib.Decide.{dec_lt}
use light_discord.Voice.Jitter.Pending.{Entries, find, erase, Rising, find_below}
use light_discord.Voice.Jitter.{
  JitterBuffer, JitterPop, packet, lost, empty, emit, pop_from, pop_on, pop, u64_mod,
}

-- What the loop does with an answer, `rest` being its further rounds.
unfoldable pub after_pop :
    (JitterBuffer → Option (List JitterPop)) → JitterPop × JitterBuffer → Option (List JitterPop)
after_pop rest (empty, b) = some []
after_pop rest (packet s payload, b) = Option.map (λ out. packet s payload ∷ out) (rest b)
after_pop rest (lost s fec, b) = Option.map (λ out. lost s fec ∷ out) (rest b)

-- Pops until `Empty`; `none` when the fuel runs out first.
unfoldable pub drain : ℕ → JitterBuffer → Bool → Option (List JitterPop)
unfolding after_pop
drain zero b force_drain = none
drain (suc fuel) b force_drain = after_pop (λ b'. drain fuel b' force_drain) (pop b force_drain)

-- Losses from `n` on, `count` of them, each with the payload `v` of the next packet.
abbrev gap : ℕ → ℕ → List ℕ → List JitterPop
gap n zero v = []
gap n (suc count) v = lost n (some v) ∷ gap (suc n) count v

-- The independent description: from `n` up to the last waiting number, each number once, the packet
-- if it waits and else its loss.
unfoldable pub timeline : ℕ → Entries → List JitterPop
timeline n [] = []
timeline n ((k, v) ∷ m) = gap n (k - n) v ++ (packet k v ∷ timeline (suc k) m)

-- How many answers that is.
unfoldable pub span : ℕ → Entries → ℕ
span n [] = 0
span n ((k, v) ∷ m) = suc (k - n) + span (suc k) m

-- The keys are `u64`s.
abbrev pub AreU64 : Entries → Type 0
AreU64 [] = Unit {0}
AreU64 ((k, v) ∷ m) = (k < u64_mod) × AreU64 m

-- A buffer that has emitted, over its parts.
abbrev buffer : ℕ → ℕ → ℕ → Entries → Bool → JitterBuffer
buffer target limit n m primed = record {
  target_depth = target;
  max_depth = limit;
  next_expected = some n;
  pending = m;
  primed = primed;
}

-- The buffer answers: it is forced, has been primed, or holds enough packets.
abbrev IsReady : ℕ → Entries → Bool → Bool → Type 0
IsReady target m primed force_drain = (force_drain || (primed || leb target (length m))) ≡ true

module _ (target limit : ℕ) (force_drain : Bool) where
  pop_packet :
      (n : ℕ) (v : List ℕ) (m : Entries) (primed : Bool)
      → IsReady target ((n, v) ∷ m) primed force_drain
      → pop (buffer target limit n ((n, v) ∷ m) primed) force_drain ≡ (
        packet n v,
        buffer target limit ((n + 1) % u64_mod) m (primed || leb target (length ((n, v) ∷ m))),
      )
  unfolding pop pop_on pop_from find erase emit
  pop_packet n v m primed r = ground arith

  pop_lost :
      (n k : ℕ) (v : List ℕ) (m : Entries) (primed : Bool)
      → n < k
      → Rising (suc k) m
      → IsReady target ((k, v) ∷ m) primed force_drain
      → pop (buffer target limit n ((k, v) ∷ m) primed) force_drain ≡ (
        lost n (some v),
        buffer target limit
            ((n + 1) % u64_mod)
            ((k, v) ∷ m)
            (primed || leb target (length ((k, v) ∷ m))),
      )
  unfolding pop pop_on pop_from find emit
  pop_lost n k v m primed h r ready = ground (arith, find_below n (suc k) m)

  still-IsReady :
      (e : ℕ × List ℕ) (m m' : Entries) (primed : Bool)
      → IsReady target (e ∷ m) primed force_drain
      → IsReady target m' (primed || leb target (length (e ∷ m))) force_drain
  still-IsReady e m m' primed r = ground arith

pub drain_step :
    (fuel : ℕ) (b : JitterBuffer) (force_drain : Bool) (r : JitterPop × JitterBuffer)
    → pop b force_drain ≡ r
    → drain (suc fuel) b force_drain ≡ after_pop (λ b'. drain fuel b' force_drain) r
unfolding drain
drain_step fuel b force_drain r e = ap (after_pop (λ b'. drain fuel b' force_drain)) e

-- Past a packet the next number may wrap, but then no packet waits.
next_number :
    (k : ℕ) (m : Entries)
    → Rising (suc k) m
    → AreU64 m
    → Rising ((k + 1) % u64_mod) m
      × (timeline ((k + 1) % u64_mod) m ≡ timeline (suc k) m)
      × (span ((k + 1) % u64_mod) m ≡ span (suc k) m)
unfolding timeline span
next_number k [] r u = (tt, refl, refl)
next_number k ((j, v) ∷ m) r u =
    let same : (k + 1) % u64_mod ≡ suc k = omega arith in (rw same r, rw same, rw same)

-- One step of the description.
timeline_packet :
    (n : ℕ) (v : List ℕ) (m : Entries)
    → (timeline n ((n, v) ∷ m) ≡ packet n v ∷ timeline (suc n) m)
      × (span n ((n, v) ∷ m) ≡ suc (span (suc n) m))
unfolding timeline span
timeline_packet n v m =
    let zero_gap : n - n ≡ 0 = omega arith in (rw zero_gap, rw zero_gap (omega arith))

timeline_lost :
    (n k : ℕ) (v : List ℕ) (m : Entries)
    → n < k
    → (timeline n ((k, v) ∷ m) ≡ lost n (some v) ∷ timeline (suc n) ((k, v) ∷ m))
      × (span n ((k, v) ∷ m) ≡ suc (span (suc n) ((k, v) ∷ m)))
unfolding timeline span
timeline_lost n k v m h = let step : k - n ≡ suc (k - suc n) = omega arith in (rw step, omega arith)

drain_on :
    (target limit fuel n : ℕ) (m : Entries) (primed force_drain : Bool)
    → Rising n m
    → AreU64 m
    → IsReady target m primed force_drain
    → span n m < fuel
    → drain fuel (buffer target limit n m primed) force_drain ≡ some (timeline n m)
unfolding after_pop
drain_on target limit zero n m primed f r u ready h = absurd (omega arith)
drain_on target limit (suc fuel) n [] primed f r u ready h =
    unfold drain pop pop_on timeline in refl
drain_on target limit (suc fuel) n ((k, v) ∷ m) primed f r u ready h = elim (dec_lt n k) [
  | yes before ↦
      let (line, count) = timeline_lost n k v m before in
      let same : (n + 1) % u64_mod ≡ suc n = omega arith in
      drain_step fuel _ f _ (pop_lost target limit f n k v m primed before r.1 ready)
      ∙ rw (same, line)
          (ap (Option.map (λ out. lost n (some v) ∷ out)) (
            drain_on target limit fuel (suc n) ((k, v) ∷ m) _ f (omega arith, r.1) u
              (still-IsReady target limit f (k, v) m ((k, v) ∷ m) primed ready) (omega arith)))
  | no later ↦
      let hit : k ≡ n = omega arith in
      let (line, count) = timeline_packet n v m in
      let (rising, line', count') = next_number n m (subst (λ j. Rising (suc j) m) hit r.1) u.1 in
      let ready' = subst (λ j. IsReady target ((j, v) ∷ m) primed f) hit ready in
      let h' : span n ((n, v) ∷ m) < suc fuel = subst (λ j. span n ((j, v) ∷ m) < suc fuel) hit h in
      rw (hit, line)
        (drain_step fuel _ f _ (pop_packet target limit f n v m primed ready')
          ∙ ap (Option.map (λ out. packet n v ∷ out)) (
              drain_on target limit fuel ((n + 1) % u64_mod) m _ f rising u.1
                (still-IsReady target limit f (n, v) m m primed ready') (omega arith))
          ∙ ap (λ out. some (packet n v ∷ out)) line')
]

-- Popping a buffer that is ready and has emitted before, whose keys rise from the expected one,
-- until it answers Empty ends, and emits each number from the expected one to the last that waits
-- exactly once and in order: the packet if it waits, and otherwise its loss with the payload of
-- the next packet.
pub drain-timeline :
    (b : JitterBuffer) (n fuel : ℕ) (force_drain : Bool)
    → b.next_expected ≡ some n
    → Rising n b.pending
    → AreU64 b.pending
    → (force_drain || (b.primed || leb b.target_depth (length b.pending))) ≡ true
    → span n b.pending < fuel
    → drain fuel b force_drain ≡ some (timeline n b.pending)
drain-timeline b n fuel force_drain e r u ready h =
    subst
      (λ o. drain fuel (record b { next_expected = o }) force_drain ≡ some (timeline n b.pending))
      (sym e)
      (drain_on b.target_depth b.max_depth fuel n b.pending b.primed force_drain r u ready h)

-- How long a drain is: the distance from the expected number to the last one that waits, however few
-- packets wait.
pub length-timeline : (n : ℕ) (m : Entries) → length (timeline n m) ≡ span n m
unfolding timeline span
length-timeline n [] = refl
length-timeline n ((k, v) ∷ m) =
    length-append (gap n (k - n) v) _
    ∙ omega (arith, length-gap n (k - n) v, length-timeline (suc k) m)
  where
    length-gap : (n count : ℕ) (v : List ℕ) → length (gap n count v) ≡ count
    length-gap n zero v = refl
    length-gap n (suc count) v = ap suc (length-gap (suc n) count v)
