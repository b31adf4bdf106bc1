-- ===== src/Storage/Memory/Examples.antt =====
-- A small store on which the theorems about `MemoryStorage` are applied.
use light_discord.Common.{
  Text, [], false, keep, none, ok, refl, some, text, text_eq, true, ◌++◌, ◌↔◌, ◌∷◌, ◌≡◌,
}
use light_discord.Common.Maps.{get}
use light_discord.Protocol.{ChatMessage}
use light_discord.Storage.Types.{
  SessionInfo, RetentionPolicy, DeletedMessage, deleted, forbidden, created, invalid_invite,
  display_name_key, Account, cutoff_unix_ms,
}
use light_discord.Storage.Memory.{
  create_session, session_for, validate_session, MemoryInner, MemoryMessage, empty_inner,
  create_user_with_invite, is_open, find_user_by_display_name,
}
use light_discord.Storage.Memory.Messages.{
  soft_delete_message, visible, recent_messages, deletion_entry,
}
use light_discord.Storage.Memory.Deletion.{MayDelete, deleted_iff}
use light_discord.Storage.Memory.Visible.{Keyed, visible-soft_delete, is_other}
use light_discord.Storage.Memory.History.{IsHistory, recent_messages-IsHistory}
use light_discord.Storage.Memory.Sessions.{create_session-validate}
use light_discord.Storage.Memory.Calls.{session, save, run}
use light_discord.Storage.Memory.Invites.{IsUsed, create_user_with_invite-used, register-stores}

abbrev one_day : RetentionPolicy
one_day = record { visible_history_days = 1; audit_log_days = 1 }

abbrev hello_1 : ChatMessage
hello_1 = record {
  id = text "m1";
  channel_id = text "general";
  user_id = text "u1";
  display_name = text "Ann";
  body = text "hi";
  unix_ms = 7;
}

abbrev hello_2 : ChatMessage
hello_2 = record {
  id = text "m2";
  channel_id = text "general";
  user_id = text "u2";
  display_name = text "Bob";
  body = text "yo";
  unix_ms = 5;
}

abbrev two_stored : MemoryInner
two_stored = record empty_inner {
  messages =
      (
        text "m1",
        record { message = hello_1; deleted_at_unix_ms = none; deleted_by_user_id = none },
      )
      ∷ (
        text "m2",
        record { message = hello_2; deleted_at_unix_ms = none; deleted_by_user_id = none },
      )
      ∷ [];
}

two_stored-Keyed : Keyed two_stored.messages
unfolding get text_eq
two_stored-Keyed = (refl, refl, (refl, refl, tt))

deleted_iff_example :
    ((d : DeletedMessage) × ((soft_delete_message 9
          (text "a")
          two_stored
          (text "m1")
          (text "u1")
          false).0
        ≡ deleted d))
    ↔ MayDelete two_stored (text "m1") (text "u1") false
deleted_iff_example = deleted_iff 9 (text "a") two_stored (text "m1") (text "u1") false

forbidden_run :
    (soft_delete_message 9 (text "a") two_stored (text "m1") (text "u2") false).0 ≡ forbidden
unfolding soft_delete_message get text_eq
forbidden_run = refl

deleted_run :
    (d : DeletedMessage) × ((soft_delete_message 9
        (text "a")
        two_stored
        (text "m1")
        (text "u1")
        false).0
      ≡ deleted d)
unfolding soft_delete_message get text_eq
deleted_run = (_, refl)

visible-soft_delete_example :
    (visible 3
        (text "general")
        (soft_delete_message 9 (text "a") two_stored (text "m1") (text "u1") false).1
      ≡ keep (is_other (text "m1")) (visible 3 (text "general") two_stored))
    × ((stored : MemoryMessage) × (get (text "m1") two_stored.messages ≡ some stored)
        × ((soft_delete_message 9 (text "a") two_stored (text "m1") (text "u1") false).1.audit_log
            ≡ two_stored.audit_log
              ++ (deletion_entry 9 (text "a") (text "u1") stored.message ∷ [])))
visible-soft_delete_example =
    visible-soft_delete 9 (text "a") two_stored (text "m1") (text "u1") false 3 (text "general")
      two_stored-Keyed deleted_run

recent_messages-IsHistory_example :
    IsHistory 1
      (visible (cutoff_unix_ms 9 1) (text "general") two_stored)
      (recent_messages 9 one_day two_stored (text "general") 1)
recent_messages-IsHistory_example =
    recent_messages-IsHistory 9 one_day two_stored (text "general") 1

abbrev invited : MemoryInner
invited = record empty_inner {
  invite_codes = (text "code", record { consumed_by_user_id = none }) ∷ [];
}

registered_run :
    (a : Account) × ((create_user_with_invite
        (text "u1")
        invited
        (text "Ann")
        (text "hash")
        (text "code")).0
      ≡ created a)
unfolding create_user_with_invite is_open get text_eq
registered_run = (_, refl)

register-stores_example :
    (is_open (get (text "code") invited.invite_codes) ≡ true)
    × IsUsed
        (text "code")
        (create_user_with_invite (text "u1") invited (text "Ann") (text "hash") (text "code")).1
    × ((spelling : Text)
        → display_name_key spelling ≡ display_name_key (text "Ann")
        → find_user_by_display_name
            (create_user_with_invite (text "u1") invited (text "Ann") (text "hash") (text "code")).1
            spelling
          ≡ some registered_run.0)
register-stores_example =
    register-stores (text "u1") (text "Ann") (text "hash") (text "code") invited registered_run.0
      registered_run.1

abbrev spent : MemoryInner
spent = record empty_inner {
  invite_codes = (text "code", record { consumed_by_user_id = some (text "u1") }) ∷ [];
}

spent-IsUsed : IsUsed (text "code") spent
unfolding get text_eq
spent-IsUsed = (_, refl, refl)

create_user_with_invite-used_example :
    create_user_with_invite
      (text "u2")
      (run spent (save hello_1 ∷ []))
      (text "Bob")
      (text "h")
      (text "code")
    ≡ (invalid_invite, run spent (save hello_1 ∷ []))
create_user_with_invite-used_example =
    create_user_with_invite-used (text "code") (text "u2") (text "Bob") (text "h") spent
      (save hello_1 ∷ []) spent-IsUsed (refl, tt)

differ : text_eq (text "s") (text "t") ≡ false
unfolding text_eq
differ = refl

abbrev with_ann : MemoryInner
with_ann = record empty_inner {
  users =
      (text "u1", record { display_name = text "Ann"; password_hash = none; is_admin = false })
      ∷ [];
}

opened : (info : SessionInfo) × ((create_session with_ann (text "t") (text "u1")).0 ≡ ok info)
unfolding create_session session_for get text_eq
opened = (_, refl)

create_session-validate_example :
    (later : SessionInfo) × (validate_session
        (run
          (create_session with_ann (text "t") (text "u1")).1
          (session (text "s") (text "u1") ∷ save hello_1 ∷ []))
        (text "t")
      ≡ some later)
    × (later.user_id ≡ text "u1")
create_session-validate_example =
    create_session-validate (text "t") (text "u1") with_ann
      (session (text "s") (text "u1") ∷ save hello_1 ∷ []) opened.0 opened.1 (differ, (refl, tt))
