-- ===== src/Storage/Memory/History.antt =====
-- `recent_messages`: which messages a channel's history holds and in which order.
use light_discord.Common.{List, Text, ap, arith, length, min, subst, ℕ, ◌++◌, ◌∙◌, ◌≡◌, ◌≤◌}
use mathlib.Core.List.{Perm}
use light_discord.Protocol.{ChatMessage}
use light_discord.Storage.Types.{RetentionPolicy, cutoff_unix_ms}
use light_discord.Storage.Sort.{
  sort_by_key, Sorted, sort_by_key-Sorted, sort_by_key-perm, length-sort_by_key, last, last-suffix,
  length-last,
}
use light_discord.Storage.Memory.{MemoryInner}
use light_discord.Storage.Memory.Messages.{visible, recent_messages, purge_expired}
use light_discord.Storage.Memory.Visible.{shown-purge}

abbrev sent_at : ChatMessage → ℕ
sent_at m = m.unix_ms

-- What `recent_messages` answers: the last `limit` of the channel's visible messages in the order of
-- their times. `front` are the visible messages that the limit leaves out.
abbrev pub IsHistory : ℕ → List ChatMessage → List ChatMessage → Type 0
IsHistory limit shown answer =
    (front : List ChatMessage) × Perm (front ++ answer) shown
    × Sorted sent_at 0 (front ++ answer)
    × (length answer ≡ min limit (length shown))

latest-IsHistory :
    (limit : ℕ) (shown : List ChatMessage)
    → IsHistory limit shown (last limit (sort_by_key sent_at shown))
latest-IsHistory limit shown = (
  suffix.0,
  subst (λ l. Perm l shown) suffix.1 (sort_by_key-perm sent_at shown),
  subst (Sorted sent_at 0) suffix.1 (sort_by_key-Sorted sent_at shown),
  length-last limit (sort_by_key sent_at shown) ∙ ap (min limit) (length-sort_by_key sent_at shown),
)
  where
    suffix :
        (front : List ChatMessage) × (sort_by_key sent_at shown
          ≡ front ++ last limit (sort_by_key sent_at shown))
    suffix = last-suffix limit (sort_by_key sent_at shown)

-- The history of a channel is the latest of its visible messages, as many as the limit allows and
-- all of them when there are no more, sorted by their times; the messages that the limit leaves
-- out come before those in it.
pub recent_messages-IsHistory :
    (now : ℕ) (policy : RetentionPolicy) (s : MemoryInner) (channel_id : Text) (limit : ℕ)
    → IsHistory limit
        (visible (cutoff_unix_ms now policy.visible_history_days) channel_id s)
        (recent_messages now policy s channel_id limit)
unfolding recent_messages
recent_messages-IsHistory now policy s channel_id limit =
    latest-IsHistory limit (visible (cutoff_unix_ms now policy.visible_history_days) channel_id s)

-- A purge changes nothing in the history that a channel shows then or later.
pub recent_messages-purge_expired :
    (purged_at now : ℕ) (policy : RetentionPolicy) (s : MemoryInner) (channel_id : Text) (limit : ℕ)
    → purged_at ≤ now
    → recent_messages now policy (purge_expired purged_at policy s) channel_id limit
      ≡ recent_messages now policy s channel_id limit
unfolding recent_messages purge_expired visible cutoff_unix_ms
recent_messages-purge_expired purged_at now policy s channel_id limit h =
    ap (λ shown. last limit (sort_by_key sent_at shown))
      (shown-purge (cutoff_unix_ms now policy.visible_history_days) channel_id
        (cutoff_unix_ms purged_at policy.visible_history_days) s.messages (omega arith))
