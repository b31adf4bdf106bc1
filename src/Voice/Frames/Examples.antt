-- ===== src/Voice/Frames/Examples.antt =====
-- A buffer of five samples in frames of two.
use light_discord.Common.{List, [], arith, refl, ℕ, ◌∷◌, ◌≡◌}
use light_discord.Voice.Frames.{drain_frames, IsCut, drain_frames-IsCut}

abbrev five : List ℕ
five = 1 ∷ 2 ∷ 3 ∷ 4 ∷ 5 ∷ []

five_cut : drain_frames five 2 ≡ ((1 ∷ 2 ∷ []) ∷ (3 ∷ 4 ∷ []) ∷ [], 5 ∷ [])
unfolding drain_frames
five_cut = refl

drain_frames-IsCut_example : IsCut 2 five (drain_frames five 2)
drain_frames-IsCut_example = drain_frames-IsCut five 2 (omega arith)
