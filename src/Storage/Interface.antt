-- ===== src/Storage/Interface.antt =====
-- `Storage` of crates/light-discord-storage/src/lib.rs: the methods, over the
-- state `S` of the backend that is chosen when the server starts. A method that writes, or that may
-- fail and leave something written, answers with the state it leaves. `now` is what the backend's
-- clock reads and `new_id` the identifier that it draws. An error is its text.
use light_discord.Common.{Bool, List, Option, Result, Text, false, ok, ℕ}
use light_discord.Protocol.{ChatMessage, AuditLogSummary}
use light_discord.Storage.Types.{
  RetentionPolicy, Account, SessionInfo, CreateAccountResult, DeleteMessageResult,
}
use light_discord.Storage.Memory as Memory
use light_discord.Storage.Memory.Messages as Messages
use light_discord.Storage.Memory.{MemoryInner}

pub record Storage (S : Type 0) : Type 0 where
  pub is_persistent : Bool
  pub ensure_bootstrap_admin : Text → S → Text → Text → Result Account Text × S
  pub create_invite : S → Text → Option Text → Text → Result (Unit {0}) Text × S
  pub create_user_with_invite : Text → S → Text → Text → Text → Result CreateAccountResult Text × S
  pub create_user_with_password_hash :
      Text → S → Text → Text → Bool → Result CreateAccountResult Text × S
  pub find_user_by_display_name : S → Text → Result (Option Account) Text
  pub register_ephemeral_user : S → Text → Text → Result (Unit {0}) Text × S
  pub create_session : S → Text → Text → Result SessionInfo Text × S
  pub validate_session : S → Text → Result (Option SessionInfo) Text
  pub save_message : S → ChatMessage → Result (Unit {0}) Text × S
  pub recent_messages : ℕ → S → Text → ℕ → Result (List ChatMessage) Text
  pub soft_delete_message : ℕ → Text → S → Text → Text → Bool → Result DeleteMessageResult Text × S
  pub purge_expired : ℕ → S → Result (Unit {0}) Text × S
  pub audit_log : S → ℕ → Result (List AuditLogSummary) Text

abbrev succeeds {ℓ κ} : {A : Type ℓ} {S : Type κ} → A × S → Result A Text × S
succeeds (a, s) = (ok a, s)

-- `Storage::Memory`, whose methods do not fail but for `create_session`.
abbrev pub memory_storage : RetentionPolicy → Storage MemoryInner
memory_storage policy = record {
  is_persistent = false;
  ensure_bootstrap_admin =
      λ new_id s name hash. succeeds (Memory.ensure_bootstrap_admin new_id s name hash);
  create_invite = λ s code creator note. (ok tt, Memory.create_invite s code);
  create_user_with_invite =
      λ new_id s name hash code. succeeds (Memory.create_user_with_invite new_id s name hash code);
  create_user_with_password_hash = λ new_id s name hash admin.
      succeeds (Memory.create_user_with_password_hash new_id s name hash admin);
  find_user_by_display_name = λ s name. ok (Memory.find_user_by_display_name s name);
  register_ephemeral_user = λ s id name. (ok tt, Memory.register_ephemeral_user s id name);
  create_session = Memory.create_session;
  validate_session = λ s token. ok (Memory.validate_session s token);
  save_message = λ s m. (ok tt, Messages.save_message s m);
  recent_messages = λ now s channel limit. ok (Messages.recent_messages now policy s channel limit);
  soft_delete_message = λ now new_id s id actor admin.
      succeeds (Messages.soft_delete_message now new_id s id actor admin);
  purge_expired = λ now s. (ok tt, Messages.purge_expired now policy s);
  audit_log = λ s limit. ok (Messages.recent_audit_log s limit);
}
