-- ===== src/Storage/Memory/Calls.antt =====
-- The calls of `MemoryStorage` that change its state, and a run of such calls. The lock serialises
-- them, so every interleaving of the server's tasks is such a run.
use light_discord.Common.{Bool, List, Text, [], ℕ, ◌∷◌}
use light_discord.Protocol.{ChatMessage}
use light_discord.Storage.Types.{RetentionPolicy}
use light_discord.Storage.Memory.{
  MemoryInner, ensure_bootstrap_admin, create_invite, create_user_with_password_hash,
  create_user_with_invite, register_ephemeral_user, create_session,
}
use light_discord.Storage.Memory.Messages.{save_message, soft_delete_message, purge_expired}

pub data Call : Type 0 where
  bootstrap : Text → Text → Text → Call
  invite : Text → Call
  with_password : Text → Text → Text → Bool → Call
  with_invite : Text → Text → Text → Text → Call
  ephemeral : Text → Text → Call
  session : Text → Text → Call
  save : ChatMessage → Call
  soft_delete : ℕ → Text → Text → Text → Bool → Call
  purge : ℕ → RetentionPolicy → Call

unfoldable pub step : MemoryInner → Call → MemoryInner
step s (bootstrap new_id name hash) = (ensure_bootstrap_admin new_id s name hash).1
step s (invite code) = create_invite s code
step s (with_password new_id name hash admin) =
    (create_user_with_password_hash new_id s name hash admin).1
step s (with_invite new_id name hash code) = (create_user_with_invite new_id s name hash code).1
step s (ephemeral id name) = register_ephemeral_user s id name
step s (session token id) = (create_session s token id).1
step s (save m) = save_message s m
step s (soft_delete now new_id id actor admin) = (soft_delete_message now new_id s id actor admin).1
step s (purge now policy) = purge_expired now policy s

unfoldable pub run : MemoryInner → List Call → MemoryInner
unfolding step
run s [] = s
run s (c ∷ cs) = run (step s c) cs
