-- ===== src/Storage/Postgres/Calls.antt =====
-- The calls of `PostgresStorage` that write (crates/light-discord-storage/src/lib.rs) and a run of such
-- calls. The statements of one call are not interleaved with those of another.
use light_discord.Common.{Bool, List, Option, Text, [], ℕ, ◌∷◌}
use light_discord.Protocol.{ChatMessage}
use light_discord.Storage.Types.{RetentionPolicy}
use light_discord.Storage.Postgres.{
  Tables, create_invite, create_user_with_password_hash, create_user_with_invite,
}
use light_discord.Storage.Postgres.Sessions.{
  ensure_bootstrap_admin, register_ephemeral_user, create_session, validate_session,
}
use light_discord.Storage.Postgres.Messages.{save_message, soft_delete_message, purge_expired}

pub data Call : Type 0 where
  bootstrap : ℕ → Text → Text → Text → Call
  invite : ℕ → Text → Option Text → Text → Call
  with_password : ℕ → Text → Text → Text → Bool → Call
  with_invite : ℕ → Text → Text → Text → Text → Call
  ephemeral : ℕ → Text → Text → Call
  session : ℕ → Text → Text → Call
  validate : ℕ → Text → Call
  save : ChatMessage → Call
  soft_delete : ℕ → Text → Text → Text → Bool → Call
  purge : ℕ → RetentionPolicy → Call

module _ (lower : Text → Text) where
  unfoldable pub step : Tables → Call → Tables
  step s (bootstrap now id name hash) = (ensure_bootstrap_admin lower now id s name hash).1
  step s (invite now code creator note) = (create_invite now s code creator note).1
  step s (with_password now id name hash admin) =
      (create_user_with_password_hash lower now id s name hash admin).1
  step s (with_invite now id name hash code) =
      (create_user_with_invite lower now id s name hash code).1
  step s (ephemeral now id name) = (register_ephemeral_user lower now s id name).1
  step s (session now token id) = (create_session now s token id).1
  step s (validate now token) = (validate_session now s token).1
  step s (save m) = (save_message s m).1
  step s (soft_delete now id message actor admin) =
      (soft_delete_message now id s message actor admin).1
  step s (purge now policy) = purge_expired now policy s

  unfoldable pub run : Tables → List Call → Tables
  unfolding step
  run s [] = s
  run s (c ∷ cs) = run (step s c) cs
