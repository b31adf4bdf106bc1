-- ===== src/Audio/Schedule.antt =====
-- What each slot of the output plays of the playback queue (crates/light-discord-platform/src/audio.rs),
-- by positions in the stream of all samples that were fed.
use light_discord.Common.{
  Bool-cases, List, Option, [], ap, append-nil, append_assoc, ap₂, arith, drop, drop-append,
  get_elem?, if-elim, if◌then◌else◌, inl, inr, length, length-append, length-drop, ltb, map, max,
  min, none, refl, some, subst, suc, sym, zero, ℕ, ◌++◌, ◌+◌, ◌-◌, ◌<◌, ◌∙◌, ◌∷◌, ◌≡◌, ◌≤◌,
}
use mathlib.Core.List.{map-append}
use light_discord.Audio.Queue.{
  Step, fed, played, cap_playback_queue, playback_queue_cap_samples, feed, fill, run, fed_samples,
  Follows, run-IsPlayback,
}

abbrev pub cap : ℕ
cap = playback_queue_cap_samples

-- `n` slots when the samples from the position `h` up to `t` wait: their positions in turn, and then
-- nothing.
abbrev pub slots_from : ℕ → ℕ → ℕ → List (Option ℕ)
slots_from zero h t = []
slots_from (suc n) h t =
    if ltb h t then some h ∷ slots_from n (suc h) t else none ∷ slots_from n h t

-- The samples up to `t` have been fed, and those before `h` have been played or dropped. More than the
-- capacity that wait push the oldest out, and no others.
unfoldable pub schedule {ℓ} : {A : Type ℓ} → List (Step A) → ℕ → ℕ → List (Option ℕ)
schedule [] h t = []
schedule (fed prepared ∷ steps) h t =
    schedule steps (max h (t + length prepared - cap)) (t + length prepared)
schedule (played n ∷ steps) h t = slots_from n h t ++ schedule steps (min t (h + n)) t

-- The position of the first sample that waits after the steps.
unfoldable pub front {ℓ} : {A : Type ℓ} → List (Step A) → ℕ → ℕ → ℕ
front [] h t = h
front (fed prepared ∷ steps) h t =
    front steps (max h (t + length prepared - cap)) (t + length prepared)
front (played n ∷ steps) h t = front steps (min t (h + n)) t

module _ {ℓ} {A : Type ℓ} (silence : A) where
  abbrev or_silence : Option A → A
  or_silence none = silence
  or_silence (some a) = a

  -- The sample at a position, and silence for none.
  abbrev pub sample_at : List A → Option ℕ → A
  sample_at samples none = silence
  sample_at samples (some i) = or_silence (get_elem? samples i)

  drop-cons :
      (i : ℕ) (past more : List A)
      → i < length past
      → (x : A) × (drop i past ≡ x ∷ drop (suc i) past) × (get_elem? (past ++ more) i ≡ some x)
  drop-cons i [] more h = absurd (omega arith)
  drop-cons zero (x ∷ past) more h = (x, refl, refl)
  drop-cons (suc i) (x ∷ past) more h = drop-cons i past more (omega arith)

  drop-past : (i : ℕ) (past : List A) → length past ≤ i → drop i past ≡ []
  drop-past zero [] h = refl
  drop-past (suc i) [] h = refl
  drop-past zero (x ∷ past) h = absurd (omega arith)
  drop-past (suc i) (x ∷ past) h = drop-past i past (omega arith)

  drop-drop : (i j : ℕ) (xs : List A) → drop i (drop j xs) ≡ drop (j + i) xs
  drop-drop i zero xs = ap (λ k. drop k xs) (omega arith)
  drop-drop i (suc j) [] =
      drop-past i [] (omega arith) ∙ sym (drop-past (suc j + i) [] (omega arith))
  drop-drop i (suc j) (x ∷ xs) = drop-drop i j xs ∙ ap (λ k. drop k (x ∷ xs)) after
    where
      after : suc (j + i) ≡ suc j + i
      after = omega arith

  -- The capacity pushes out the oldest samples beyond it.
  cap-drop :
      (limit h : ℕ) (xs : List A)
      → h ≤ length xs
      → cap_playback_queue (drop h xs) limit ≡ drop (max h (length xs - limit)) xs
  unfolding cap_playback_queue
  cap-drop limit h xs le =
      if-elim (λ l. l ≡ drop (max h (length xs - limit)) xs) (ltb limit (length (drop h xs)))
        (λ more.
          drop-drop (length (drop h xs) - limit) h xs
          ∙ ap (λ k. drop k xs) (ground (arith, more, length-drop h xs)))
        (λ fits. ap (λ k. drop k xs) (ground (arith, fits, length-drop h xs)))

  feed-drop :
      (h : ℕ) (prepared past : List A)
      → h ≤ length past
      → feed prepared (drop h past)
        ≡ drop (max h (length past + length prepared - cap)) (past ++ prepared)
  unfolding feed
  feed-drop h prepared past le =
      ap (λ q. cap_playback_queue q cap) (sym (drop-append h past prepared le))
      ∙ cap-drop cap h (past ++ prepared) (omega (arith, length-append past prepared))
      ∙ ap (λ t. drop (max h (t - cap)) (past ++ prepared)) (length-append past prepared)

  abbrev IsFilled : ℕ → ℕ → List A → List A → List A × List A → Type ℓ
  IsFilled n h past more r =
      (r.0 ≡ map (sample_at (past ++ more)) (slots_from n h (length past)))
      × (r.1 ≡ drop (min (length past) (h + n)) past)

  fill-IsFilled :
      (n h : ℕ) (past more : List A)
      → h ≤ length past
      → IsFilled n h past more (fill silence n (drop h past))
  unfolding fill
  fill-IsFilled zero h past more le = (refl, ap (λ k. drop k past) (omega arith))
  fill-IsFilled (suc n) h past more le = elim (Bool-cases (ltb h (length past))) [
    | inl waits ↦
        let (x, queue, found) = drop-cons h past more (ground (arith, waits)) in
        let rest = fill-IsFilled n (suc h) past more (ground (arith, waits)) in
        subst (λ q. IsFilled (suc n) h past more (fill silence (suc n) q)) (sym queue)
          (
            ap₂ ◌∷◌ (sym (ap or_silence found)) rest.0 ∙ rw waits refl,
            rest.1 ∙ ap (λ k. drop k past) (omega arith),
          )
    | inr dry ↦
        let queue = drop-past h past (ground (arith, dry)) in
        let rest =
          subst (λ q. IsFilled n h past more (fill silence n q)) queue
            (fill-IsFilled n h past more le) in
        subst (λ q. IsFilled (suc n) h past more (fill silence (suc n) q)) (sym queue)
          (
            ap (◌∷◌ silence) rest.0 ∙ rw dry refl,
            rest.1 ∙ ap (λ k. drop k past) (ground (arith, dry)),
          )
  ]

  -- What a run plays and leaves, by the positions.
  abbrev pub IsScheduled : List (Step A) → ℕ → ℕ → List A → List A × List A → Type ℓ
  IsScheduled steps h t samples r =
      (r.0 ≡ map (sample_at samples) (schedule steps h t)) × (r.1 ≡ drop (front steps h t) samples)

  run-from :
      (steps : List (Step A)) (h : ℕ) (past : List A)
      → h ≤ length past
      → IsScheduled steps h
          (length past)
          (past ++ fed_samples silence steps)
          (run silence steps (drop h past))
  unfolding run schedule front
  run-from [] h past le = (refl, ap (drop h) (sym (append-nil past)))
  run-from (fed prepared ∷ steps) h past le =
      let whole = length-append past prepared in
      let waiting = max h (length past + length prepared - cap) in
      let more = fed_samples silence steps in
      let rest = run-from steps waiting (past ++ prepared) (omega (arith, whole)) in
      subst
        (λ q.
          IsScheduled steps waiting (length past + length prepared) (past ++ (prepared ++ more))
            (run silence steps q))
        (sym (feed-drop h prepared past le))
        (subst
          (λ l.
            IsScheduled steps waiting (length past + length prepared) l
              (run silence steps (drop waiting (past ++ prepared))))
          (append_assoc past prepared more)
          (subst
            (λ t.
              IsScheduled steps waiting t ((past ++ prepared) ++ more)
                (run silence steps (drop waiting (past ++ prepared))))
            whole rest))
  run-from (played n ∷ steps) h past le =
      let more = fed_samples silence steps in
      let filled = fill-IsFilled n h past more le in
      let left = min (length past) (h + n) in
      let rest =
        subst (λ q. IsScheduled steps left (length past) (past ++ more) (run silence steps q))
          (sym filled.1) (run-from steps left past (omega arith)) in
      (
        ap₂ ◌++◌ filled.0 rest.0
            ∙ sym (
                map-append (sample_at (past ++ more)) (slots_from n h (length past))
                  (schedule steps left (length past))),
        rest.1,
      )

  -- In every run from the empty queue, however the two threads interleave, each slot of the output
  -- plays the sample that its position in the stream of the fed samples says, or silence exactly
  -- when no sample waits: every sample in turn, but for the oldest ones that a feed pushes out,
  -- which are as many as there are beyond the capacity. What is left are the samples that wait, at
  -- most the capacity.
  pub run-IsScheduled :
      (steps : List (Step A))
      → IsScheduled steps 0 0 (fed_samples silence steps) (run silence steps [])
        × Follows silence (run silence steps []).0 (fed_samples silence steps)
        × (length (run silence steps []).1 ≤ cap)
  run-IsScheduled steps =
      let playback = run-IsPlayback silence steps in
      (run-from steps 0 [] (omega arith), playback.0, playback.2)
