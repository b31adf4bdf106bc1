-- ===== src/Storage/Postgres/Examples.antt =====
-- A small database on which the theorems about `PostgresStorage` are applied.
use light_discord.Common.{
  Option, Text, [], arith, false, none, ok, refl, some, text, text_eq, to_ascii_lowercase, ℕ, ◌∷◌,
  ◌≡◌,
}
use light_discord.Common.Maps.{get}
use light_discord.Protocol.{ChatMessage}
use light_discord.Storage.Types.{RetentionPolicy, Account, created, invalid_invite, cutoff_unix_ms}
use light_discord.Storage.Sort.{sort_by_key, place, last}
use light_discord.Storage.Memory.{empty_inner}
use light_discord.Storage.Memory.Messages as Memory
use light_discord.Storage.Postgres.{
  MessageRow, AuditRow, Tables, migrated, named, is_open, query_opt, consume, insert_account,
  create_unless_found, create_user_with_password_hash, create_user_with_invite,
  find_user_by_display_name,
}
use light_discord.Storage.Postgres.Messages as Postgres
use light_discord.Storage.Postgres.Agreement.{view, soft_delete_message-Agrees}
use light_discord.Storage.Postgres.Recent.{
  IsFromBothEnds, recent_messages-IsFromBothEnds, IsSameLog, recent_audit_log-IsSameLog,
}
use light_discord.Storage.Postgres.Calls.{with_password, ephemeral, invite, run}
use light_discord.Storage.Postgres.Unique.{IsUnique}
use light_discord.Storage.Postgres.Runs.{run-Finds}
use light_discord.Storage.Postgres.Invites.{create_user_with_invite-refused_again}

abbrev one_day : RetentionPolicy
one_day = record { visible_history_days = 1; audit_log_days = 1 }

abbrev row : Text → ℕ → MessageRow
row body time = record {
  guild_id = text "default";
  channel_id = text "general";
  user_id = text "u1";
  display_name_snapshot = text "Ann";
  body = body;
  created_at_unix_ms = time;
  deleted_at_unix_ms = none;
  deleted_by_user_id = none;
}

abbrev two_rows : Tables
two_rows = record migrated {
  messages = (text "m1", row (text "hi") 7) ∷ (text "m2", row (text "yo") 5) ∷ [];
}

abbrev chat : Text → Text → ℕ → ChatMessage
chat id body time = Postgres.chat_message (id, row body time)

-- The tables answer the oldest message, the memory the latest.
oldest_and_latest :
    (Postgres.recent_messages 9 one_day two_rows (text "general") 1
      ≡ ok (chat (text "m2") (text "yo") 5 ∷ []))
    × (Memory.recent_messages 9 one_day (view empty_inner two_rows) (text "general") 1
        ≡ chat (text "m1") (text "hi") 7 ∷ [])
unfolding Postgres.recent_messages Postgres.selected Postgres.is_selected Memory.recent_messages
    Memory.visible Memory.is_visible sort_by_key place last cutoff_unix_ms text_eq
oldest_and_latest = (refl, refl)

recent_messages-IsFromBothEnds_example :
    IsFromBothEnds 1
      (Postgres.selected (cutoff_unix_ms 9 1) (text "general") two_rows)
      (Postgres.recent_messages 9 one_day two_rows (text "general") 1)
      (Memory.recent_messages 9 one_day (view empty_inner two_rows) (text "general") 1)
recent_messages-IsFromBothEnds_example =
    recent_messages-IsFromBothEnds 9 one_day empty_inner two_rows (text "general") 1 (omega arith)

soft_delete_message-Agrees_example :
    let in_tables =
      Postgres.soft_delete_message 9 (text "a1") two_rows (text "m2") (text "u1") false in
    let in_memory =
      Memory.soft_delete_message 9
        (text "a1")
        (view empty_inner two_rows)
        (text "m2")
        (text "u1")
        false in
    (in_tables.0 ≡ ok in_memory.0) × (view empty_inner in_tables.1 ≡ in_memory.1)
unfolding Postgres.is_logged
soft_delete_message-Agrees_example =
    soft_delete_message-Agrees 9 (text "a1") empty_inner two_rows (text "m2") (text "u1") false
      fresh
  where
    fresh : Postgres.is_logged (text "a1") [] ≡ false
    fresh = refl

abbrev logged : Text → ℕ → AuditRow
logged id time = Postgres.deletion_row time id (text "m1") (text "u1") (row (text "hi") 7)

abbrev two_logged : Tables
two_logged = record migrated { audit_log = logged (text "a1") 9 ∷ logged (text "a2") 8 ∷ [] }

recent_audit_log-IsSameLog_example :
    IsSameLog
      (Postgres.recent_audit_log two_logged 1)
      (Memory.recent_audit_log (view empty_inner two_logged) 1)
recent_audit_log-IsSameLog_example =
    recent_audit_log-IsSameLog empty_inner two_logged 1 (omega arith)

run-Finds_example :
    let after = run to_ascii_lowercase migrated (
      with_password 1 (text "u1") (text "Ann") (text "h") false
      ∷ ephemeral 2 (text "u2") (text "ANN")
      ∷ []) in
    IsUnique to_ascii_lowercase after.users
    × ((found : Option Account) × (find_user_by_display_name to_ascii_lowercase after (text "ann")
          ≡ ok found))
run-Finds_example =
    run-Finds to_ascii_lowercase
      (with_password 1 (text "u1") (text "Ann") (text "h") false
        ∷ ephemeral 2 (text "u2") (text "ANN")
        ∷ [])
      (text "ann")

abbrev invited : Tables
invited = record migrated {
  invite_codes =
      (
        text "c",
        record {
          created_by_user_id = none;
          note = [];
          created_at_unix_ms = 1;
          consumed_by_user_id = none;
          consumed_at_unix_ms = none;
        },
      )
      ∷ [];
}

abbrev ann : Account
ann = record {
  user_id = text "u1";
  display_name = text "Ann";
  password_hash = some (text "h");
  is_admin = false;
}

registers :
    (create_user_with_invite to_ascii_lowercase 2
      (text "u1")
      invited
      (text "Ann")
      (text "h")
      (text "c")).0
    ≡ ok (created ann)
unfolding create_user_with_invite create_user_with_password_hash create_unless_found insert_account
    find_user_by_display_name named query_opt is_open consume get text_eq
registers = refl

create_user_with_invite-refused_again_example :
    let after =
      run to_ascii_lowercase
        (create_user_with_invite to_ascii_lowercase 2
          (text "u1")
          invited
          (text "Ann")
          (text "h")
          (text "c")).1
        (invite 3 (text "c") none [] ∷ []) in
    create_user_with_invite to_ascii_lowercase 4
      (text "u2")
      after
      (text "Bob")
      (text "k")
      (text "c")
    ≡ (ok invalid_invite, after)
create_user_with_invite-refused_again_example =
    create_user_with_invite-refused_again to_ascii_lowercase (text "c") 2 (text "u1") invited
      (text "Ann") (text "h") ann (invite 3 (text "c") none [] ∷ []) 4 (text "u2") (text "Bob")
      (text "k") registers
