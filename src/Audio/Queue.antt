-- ===== src/Audio/Queue.antt =====
-- The playback queue of crates/light-discord-platform/src/audio.rs: what `feed_playback_queue` puts in
-- for a frame and what the callback of the output stream takes out. Both hold the lock, so that
-- every interleaving of the two threads is a run of such steps.
use light_discord.Common.{
  List, [], ap, append_assoc, arith, drop, if-elim, if◌then◌else◌, length, length-append,
  length-drop, ltb, refl, subst, suc, zero, ℕ, ◌*◌, ◌++◌, ◌+◌, ◌-◌, ◌∷◌, ◌≡◌, ◌≤◌,
}

abbrev pub playback_queue_cap_samples : ℕ
playback_queue_cap_samples = 48000 * 2

module _ {ℓ} {A : Type ℓ} where
  -- The oldest samples go.
  unfoldable pub cap_playback_queue : List A → ℕ → List A
  cap_playback_queue queue cap =
      if ltb cap (length queue) then drop (length queue - cap) queue else queue

  -- What the feeding thread does with a prepared frame.
  unfoldable pub feed : List A → List A → List A
  unfolding cap_playback_queue
  feed prepared queue = cap_playback_queue (queue ++ prepared) playback_queue_cap_samples

  abbrev pop_front : A → List A → A × List A
  pop_front silence [] = (silence, [])
  pop_front silence (s ∷ queue) = (s, queue)

  -- The callback fills `n` slots, with silence when the queue is empty.
  unfoldable pub fill : A → ℕ → List A → List A × List A
  fill silence zero queue = ([], queue)
  fill silence (suc n) queue =
      let (sample, left) = pop_front silence queue in
      let (samples, rest) = fill silence n left in (sample ∷ samples, rest)

pub data Step {ℓ} (A : Type ℓ) : Type ℓ where
  fed : List A → Step A
  played : ℕ → Step A

-- `Follows silence out samples`: `out` has samples of `samples`, in their order and each at most once,
-- and silence between them.
pub data Follows {ℓ} {A : Type ℓ} (silence : A) : List A → List A → Type ℓ where
  done : (samples : List A) → Follows silence [] samples
  silent :
      (out samples : List A) → Follows silence out samples → Follows silence (silence ∷ out) samples
  heard :
      (s : A) (out samples : List A)
      → Follows silence out samples
      → Follows silence (s ∷ out) (s ∷ samples)
  dropped :
      (s : A) (out samples : List A)
      → Follows silence out samples
      → Follows silence out (s ∷ samples)

module _ {ℓ} {A : Type ℓ} (silence : A) where
  -- The samples that were played in a run, and the queue after it.
  unfoldable pub run : List (Step A) → List A → List A × List A
  unfolding feed fill
  run [] queue = ([], queue)
  run (fed prepared ∷ steps) queue = run steps (feed prepared queue)
  run (played n ∷ steps) queue =
      let (samples, left) = fill silence n queue in
      let (more, rest) = run steps left in (samples ++ more, rest)

  abbrev pub fed_samples : List (Step A) → List A
  fed_samples [] = []
  fed_samples (fed prepared ∷ steps) = prepared ++ fed_samples steps
  fed_samples (played n ∷ steps) = fed_samples steps

  abbrev pub slots : List (Step A) → ℕ
  slots [] = 0
  slots (fed prepared ∷ steps) = slots steps
  slots (played n ∷ steps) = n + slots steps

  Follows-drop :
      (k : ℕ) (out xs ys : List A)
      → Follows silence out (drop k xs ++ ys)
      → Follows silence out (xs ++ ys)
  Follows-drop zero out xs ys f = f
  Follows-drop (suc k) out [] ys f = f
  Follows-drop (suc k) out (x ∷ xs) ys f = dropped x out (xs ++ ys) (Follows-drop k out xs ys f)

  Follows-cap :
      (cap : ℕ) (out xs ys : List A)
      → Follows silence out (cap_playback_queue xs cap ++ ys)
      → Follows silence out (xs ++ ys)
  unfolding cap_playback_queue
  Follows-cap cap out xs ys =
      if-elim (λ l. Follows silence out (l ++ ys) → Follows silence out (xs ++ ys))
        (ltb cap (length xs)) (λ _. Follows-drop (length xs - cap) out xs ys) (λ _ f. f)

  Follows-fill :
      (n : ℕ) (queue more ys : List A)
      → Follows silence more ((fill silence n queue).1 ++ ys)
      → Follows silence ((fill silence n queue).0 ++ more) (queue ++ ys)
  unfolding fill
  Follows-fill zero queue more ys f = f
  Follows-fill (suc n) [] more ys f = silent _ ys (Follows-fill n [] more ys f)
  Follows-fill (suc n) (q ∷ queue) more ys f =
      heard q _ (queue ++ ys) (Follows-fill n queue more ys f)

  run-Follows :
      (steps : List (Step A)) (queue : List A)
      → Follows silence (run steps queue).0 (queue ++ fed_samples steps)
  unfolding run feed
  run-Follows [] queue = done (queue ++ [])
  run-Follows (fed prepared ∷ steps) queue =
      subst (Follows silence (run steps (feed prepared queue)).0)
        (append_assoc queue prepared (fed_samples steps))
        (Follows-cap playback_queue_cap_samples (run steps (feed prepared queue)).0
          (queue ++ prepared) (fed_samples steps) (run-Follows steps (feed prepared queue)))
  run-Follows (played n ∷ steps) queue =
      Follows-fill n queue (run steps (fill silence n queue).1).0 (fed_samples steps)
        (run-Follows steps (fill silence n queue).1)

  abbrev IsCapped : List A → Type 0
  IsCapped queue = length queue ≤ playback_queue_cap_samples

  feed-IsCapped : (prepared queue : List A) → IsCapped (feed prepared queue)
  unfolding feed cap_playback_queue
  feed-IsCapped prepared queue =
      if-elim IsCapped (ltb playback_queue_cap_samples (length (queue ++ prepared)))
        (λ more. ground (
          arith,
          more,
          length-drop (length (queue ++ prepared) - playback_queue_cap_samples) (queue ++ prepared),
        ))
        (λ fits. ground (arith, fits))

  fill-lengths :
      (n : ℕ) (queue : List A)
      → (length (fill silence n queue).0 ≡ n) × (length (fill silence n queue).1 ≤ length queue)
  unfolding fill
  fill-lengths zero queue = (refl, omega arith)
  fill-lengths (suc n) [] = (ap suc (fill-lengths n []).0, (fill-lengths n []).1)
  fill-lengths (suc n) (q ∷ queue) =
      (ap suc (fill-lengths n queue).0, omega (arith, (fill-lengths n queue).1))

  run-lengths :
      (steps : List (Step A)) (queue : List A)
      → IsCapped queue
      → (length (run steps queue).0 ≡ slots steps) × IsCapped (run steps queue).1
  unfolding run
  run-lengths [] queue h = (refl, h)
  run-lengths (fed prepared ∷ steps) queue h =
      run-lengths steps (feed prepared queue) (feed-IsCapped prepared queue)
  run-lengths (played n ∷ steps) queue h =
      let rest =
        run-lengths steps (fill silence n queue).1 (omega (arith, (fill-lengths n queue).1)) in
      (
        omega (
          arith,
          length-append (fill silence n queue).0 (run steps (fill silence n queue).1).0,
          (fill-lengths n queue).0,
          rest.0,
        ),
        rest.1,
      )

  -- In every run from the empty queue, however the two threads interleave, every slot of the
  -- output is filled, with samples that were fed, in their order and each at most once, and with
  -- silence between them; and the queue never holds more than its capacity.
  pub run-IsPlayback :
      (steps : List (Step A))
      → Follows silence (run steps []).0 (fed_samples steps)
        × (length (run steps []).0 ≡ slots steps)
        × (length (run steps []).1 ≤ playback_queue_cap_samples)
  run-IsPlayback steps = (
    run-Follows steps [],
    (run-lengths steps [] (omega arith)).0,
    (run-lengths steps [] (omega arith)).1,
  )
