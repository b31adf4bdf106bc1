-- ===== src/Voice/Frames.antt =====
-- `drain_frames` of crates/light-discord-platform/src/voice.rs, which cuts samples into frames. The
-- code does not look at the samples, so that the model takes any type of them.
use light_discord.Common.{
  All, List, [], ap, append_assoc, arith, drop, if-elim, if◌then◌else◌, leb, length, length-drop,
  length-take, ltb, refl, suc, take, take-append-drop, true, zero, ℕ, ◌++◌, ◌<◌, ◌==◌, ◌||◌, ◌∙◌,
  ◌∷◌, ◌≡◌, ◌≤◌,
}
mod Examples

module _ {ℓ} {A : Type ℓ} where
  -- The loop `while buffer.len() >= frame`, on fuel: the frames cut off, and what is left.
  unfoldable pub cut : ℕ → ℕ → List A → List (List A) × List A
  cut zero frame buffer = ([], buffer)
  cut (suc fuel) frame buffer =
      let rest = cut fuel frame (drop frame buffer) in
      if leb frame (length buffer) then (take frame buffer ∷ rest.0, rest.1) else ([], buffer)

  -- Every round takes at least one sample, so that as many rounds as samples are enough.
  unfoldable pub drain_frames : List A → ℕ → List (List A) × List A
  unfolding cut
  drain_frames buffer frame =
      if frame == 0 || ltb (length buffer) frame
      then ([], buffer)
      else cut (length buffer) frame buffer

  abbrev pub concatenated : List (List A) → List A
  concatenated [] = []
  concatenated (xs ∷ xss) = xs ++ concatenated xss

  -- The frames and the rest are the buffer, each frame is full, and the rest is not.
  abbrev pub IsCut : ℕ → List A → List (List A) × List A → Type ℓ
  IsCut frame buffer r =
      (concatenated r.0 ++ r.1 ≡ buffer) × All (λ xs. length xs ≡ frame) r.0 × (length r.1 < frame)

  cut-IsCut :
      (fuel frame : ℕ) (buffer : List A)
      → 1 ≤ frame
      → length buffer ≤ fuel
      → IsCut frame buffer (cut fuel frame buffer)
  unfolding cut
  cut-IsCut zero frame buffer h l = (refl, tt, omega arith)
  cut-IsCut (suc fuel) frame buffer h l =
      if-elim (IsCut frame buffer) (leb frame (length buffer))
        (λ full.
          more full
            (cut-IsCut fuel frame (drop frame buffer) h (ground (arith, length-drop frame buffer))))
        (λ short. (refl, tt, ground (arith, short)))
    where
      more :
          leb frame (length buffer) ≡ true
          → IsCut frame (drop frame buffer) (cut fuel frame (drop frame buffer))
          → IsCut frame buffer (
            take frame buffer ∷ (cut fuel frame (drop frame buffer)).0,
            (cut fuel frame (drop frame buffer)).1,
          )
      more full (whole, frames, rest) = (
        append_assoc (take frame buffer) _ _
            ∙ ap (λ l. take frame buffer ++ l) whole
            ∙ take-append-drop frame buffer,
        (ground (arith, full, length-take frame buffer), frames),
        rest,
      )

  -- Cutting a buffer into frames of at least one sample loses no sample, keeps their order, makes
  -- every frame full and leaves less than a frame.
  pub drain_frames-IsCut :
      (buffer : List A) (frame : ℕ) → 1 ≤ frame → IsCut frame buffer (drain_frames buffer frame)
  unfolding drain_frames
  drain_frames-IsCut buffer frame h =
      if-elim (IsCut frame buffer) (frame == 0 || ltb (length buffer) frame)
        (λ short. (refl, tt, ground (arith, short)))
        (λ _. cut-IsCut (length buffer) frame buffer h (omega arith))
