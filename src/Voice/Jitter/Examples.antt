-- ===== src/Voice/Jitter/Examples.antt =====
-- Runs of the jitter buffer, and its theorems at concrete histories.
use light_discord.Common.{List, [], arith, false, refl, some, true, ◌∷◌, ◌≡◌}
use light_discord.Voice.Jitter.Pending.{find, put, erase}
use light_discord.Voice.Jitter.{
  JitterBuffer, packet, lost, empty, new, is_stale, evict, push, emit, pop_from, pop,
}
use light_discord.Voice.Jitter.Order.{Call, pushes, pops, outputs, Consecutive, outputs-Consecutive}
use light_discord.Voice.Jitter.Drain.{drain, timeline, span, drain-timeline}

-- Packets 1, 0 and 3 arrive; 2 is lost.
abbrev arrivals : List Call
arrivals =
    pushes 1 (11 ∷ [])
    ∷ pushes 0 (10 ∷ [])
    ∷ pops false
    ∷ pushes 3 (13 ∷ [])
    ∷ pops false
    ∷ pops false
    ∷ pops false
    ∷ pops false
    ∷ pops false
    ∷ []

arrivals_out :
    outputs (new 3 20) arrivals
    ≡ empty
      ∷ packet 0 (10 ∷ [])
      ∷ packet 1 (11 ∷ [])
      ∷ lost 2 (some (13 ∷ []))
      ∷ packet 3 (13 ∷ [])
      ∷ empty
      ∷ []
unfolding outputs new push is_stale evict put pop pop_from emit find erase
arrivals_out = refl

-- The buffer after the first three calls and a forced pop.
abbrev resumed : JitterBuffer
resumed = record {
  target_depth = 1;
  max_depth = 8;
  next_expected = some 1;
  pending = (2, 12 ∷ []) ∷ (4, 14 ∷ []) ∷ [];
  primed = true;
}

outputs-Consecutive_example : Consecutive (some 1) (outputs resumed arrivals)
outputs-Consecutive_example = outputs-Consecutive resumed arrivals

drain-timeline_example : drain 9 resumed false ≡ some (timeline 1 resumed.pending)
drain-timeline_example =
    drain-timeline resumed 1 9 false refl (omega arith) (omega arith) refl
      (unfold span in omega arith)
