-- ===== src/Storage/Postgres/Recent.antt =====
-- The histories and the audit logs that `PostgresStorage` and `MemoryStorage` answer from the same
-- rows (crates/light-discord-storage/src/lib.rs).
use light_discord.Common.{
  List, Result, Text, ap, arith, drop, if-elim, length, length-drop, length-reverse, length-take,
  ltb, map, ok, refl, subst, sym, take, take-all, take-append-drop, take-exact, ℕ, ◌-◌, ◌<◌, ◌^◌,
  ◌∙◌, ◌≡◌, ◌≤◌,
}
use mathlib.Core.List.{Perm, reverse, reverse-append, reverse_perm}
use mathlib.Core.List.Perm
use light_discord.Protocol.{ChatMessage, AuditLogSummary}
use light_discord.Storage.Types.{RetentionPolicy, cutoff_unix_ms}
use light_discord.Storage.Sort.{
  sort_by_key, Sorted, sort_by_key-Sorted, sort_by_key-perm, length-sort_by_key, last, length-last,
}
use light_discord.Storage.Memory.{MemoryInner}
use light_discord.Storage.Memory.Messages as Memory
use light_discord.Storage.Postgres.{AuditRow, Tables}
use light_discord.Storage.Postgres.Messages as Postgres
use light_discord.Storage.Postgres.Agreement.{view, selected-visible}

abbrev sent_at : ChatMessage → ℕ
sent_at m = m.unix_ms

abbrev logged_at : AuditLogSummary → ℕ
logged_at entry = entry.unix_ms

-- A prefix of the reversed list is the end of the list, reversed.
take-reverse {ℓ} : {A : Type ℓ} (n : ℕ) (xs : List A) → take n (reverse xs) ≡ reverse (last n xs)
unfolding last
take-reverse n xs =
    if-elim (λ l. take n (reverse xs) ≡ reverse l) (ltb n (length xs))
      (λ more.
        ap (λ l. take n (reverse l)) (sym (take-append-drop (length xs - n) xs))
        ∙ ap (take n) (reverse-append (take (length xs - n) xs) (drop (length xs - n) xs))
        ∙ take-exact n (reverse (drop (length xs - n) xs)) (reverse (take (length xs - n) xs)) (
            ground
              (arith, length-reverse (drop (length xs - n) xs), length-drop (length xs - n) xs)))
      (λ all. take-all n (reverse xs) (ground (arith, length-reverse xs)))

-- What the two answer for a channel whose selected rows are `rows`: the tables give the first and the
-- memory the last of the rows in the order of their times. Each breaks ties in its own way, since
-- neither ORDER BY nor the iteration of a HashMap says how.
abbrev pub IsFromBothEnds :
    ℕ → List ChatMessage → Result (List ChatMessage) Text → List ChatMessage → Type 0
IsFromBothEnds limit rows in_tables in_memory =
    (by_tables : List ChatMessage) × (by_memory : List ChatMessage) × (answer : List ChatMessage)
    × Perm by_tables rows
    × Sorted sent_at 0 by_tables
    × Perm by_memory rows
    × Sorted sent_at 0 by_memory
    × (in_tables ≡ ok answer)
    × (answer ≡ take limit by_tables)
    × (in_memory ≡ last limit by_memory)
    × (length answer ≡ length in_memory)
    × (length rows ≤ limit → Perm answer in_memory)

last-all {ℓ} : {A : Type ℓ} (n : ℕ) (xs : List A) → length xs ≤ n → last n xs ≡ xs
unfolding last
last-all n xs h = ground arith

sorted_ends :
    (limit : ℕ) (rows : List ChatMessage)
    → IsFromBothEnds limit rows
        (ok (take limit (sort_by_key sent_at rows)))
        (last limit (sort_by_key sent_at rows))
sorted_ends limit rows = (
  sorted,
  sorted,
  take limit sorted,
  sort_by_key-perm sent_at rows,
  sort_by_key-Sorted sent_at rows,
  sort_by_key-perm sent_at rows,
  sort_by_key-Sorted sent_at rows,
  refl,
  refl,
  refl,
  length-take limit sorted ∙ sym (length-last limit sorted),
  λ h.
      subst (λ l. Perm l (last limit sorted)) (sym (take-all limit sorted (fits h)))
        (subst (Perm sorted) (sym (last-all limit sorted (fits h))) (Perm.refl sorted)),
)
  where
    sorted : List ChatMessage
    sorted = sort_by_key sent_at rows

    fits : length rows ≤ limit → length sorted ≤ limit
    fits h = omega (arith, length-sort_by_key sent_at rows)

module _ (now : ℕ) (policy : RetentionPolicy) (base : MemoryInner) (s : Tables) where
  -- The histories of a channel that the tables and the memory answer from the same messages,
  -- within the limits of the database, are the two ends of its visible messages in the order of
  -- their times, however each orders those of one time: the tables give the first and the memory
  -- the last, equally many, so that they have the same messages when there are no more than the
  -- limit.
  pub recent_messages-IsFromBothEnds :
      (channel_id : Text) (limit : ℕ)
      → limit < 2 ^ 63
      → IsFromBothEnds limit
          (Postgres.selected (cutoff_unix_ms now policy.visible_history_days) channel_id s)
          (Postgres.recent_messages now policy s channel_id limit)
          (Memory.recent_messages now policy (view base s) channel_id limit)
  unfolding Postgres.recent_messages Memory.recent_messages
  recent_messages-IsFromBothEnds channel_id limit h =
      if-elim (λ r. IsFromBothEnds limit rows r (last limit (sort_by_key sent_at (shown))))
        (ltb limit (2 ^ 63))
        (λ _.
          subst
            (λ l.
              IsFromBothEnds limit rows (ok (take limit (sort_by_key sent_at rows)))
                (last limit (sort_by_key sent_at l)))
            (selected-visible base s cutoff channel_id) (sorted_ends limit rows))
        (λ no. absurd (ground arith))
    where
      cutoff : ℕ
      cutoff = cutoff_unix_ms now policy.visible_history_days

      rows : List ChatMessage
      rows = Postgres.selected cutoff channel_id s

      shown : List ChatMessage
      shown = Memory.visible cutoff channel_id (view base s)

-- An audit log from the tables: the entries of the one in memory, in the order of their times.
abbrev pub IsSameLog : Result (List AuditLogSummary) Text → List AuditLogSummary → Type 0
IsSameLog in_tables in_memory =
    (entries : List AuditLogSummary) × (in_tables ≡ ok entries)
    × Perm entries in_memory
    × Sorted logged_at 0 entries

module _ (base : MemoryInner) (s : Tables) where
  -- The audit log of the tables has, within the limits of the database, the entries that it has in
  -- memory, and they are in the order of their times.
  pub recent_audit_log-IsSameLog :
      (limit : ℕ)
      → limit < 2 ^ 63
      → IsSameLog (Postgres.recent_audit_log s limit) (Memory.recent_audit_log (view base s) limit)
  unfolding Postgres.recent_audit_log Memory.recent_audit_log
  recent_audit_log-IsSameLog limit h =
      let entries = map (λ (row : AuditRow). row.entry) s.audit_log in
      let sorted = sort_by_key logged_at entries in
      if-elim (λ r. IsSameLog r (last limit sorted)) (ltb limit (2 ^ 63))
        (λ _. (
          sort_by_key logged_at (take limit (reverse sorted)),
          refl,
          Perm.trans (sort_by_key-perm logged_at (take limit (reverse sorted))) (
              subst (λ l. Perm l (last limit sorted)) (sym (take-reverse limit sorted))
                (reverse_perm (last limit sorted))),
          sort_by_key-Sorted logged_at (take limit (reverse sorted)),
        ))
        (λ no. absurd (ground arith))
