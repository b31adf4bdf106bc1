-- ===== src/Server/Bootstrap.antt =====
-- `bootstrap_auth` of crates/light-discord-server/src/main.rs: the administrator and the invitation
-- that the environment asks for. The variables are `none` when they are not set.
mod Examples
use light_discord.Common.{
  Bool, Option, Result, Text, arith, err, false, if-elim, if◌then◌else◌, is_empty, none, ok, refl,
  some, subst, sym, text, trim, true, ◌≡◌,
}
use light_discord.Common.Maps.{get, get-insert_self}
use light_discord.Protocol as Protocol
use light_discord.Protocol.{ErrorMessage, login}
use light_discord.Auth.{Hashes, hash_password, hash_token, verify_password}
use light_discord.Storage.Types.{RetentionPolicy, Account, display_name_key}
use light_discord.Storage.Memory as Memory
use light_discord.Storage.Memory.{account, MemoryInner, StoredUser, add_user, unwrap_or}
use light_discord.Storage.Interface.{Storage, memory_storage}
use light_discord.Server.Chat.{Draws}
use light_discord.Server.Login.{normalize_display_name, validate_password, authenticate_first_frame}
use light_discord.Server.Login.Outcomes.{err-apart}
use light_discord.Server.Login.Registered.{IsStored, Answers, login-IsStored}

-- LD_BOOTSTRAP_ADMIN_PASSWORD, LD_BOOTSTRAP_ADMIN_NAME and LD_BOOTSTRAP_INVITE_CODE
pub record BootstrapEnv : Type 0 where
  pub admin_password : Option Text
  pub admin_name : Option Text
  pub invite_code : Option Text

-- The errors that stop the server: a password that is too short, a failed hash, a failed storage.
pub data BootstrapError : Type 0 where
  password_rejected : BootstrapError
  hash_failed storage_failed : Text → BootstrapError

abbrev pub name_or_admin : Option Text → Text
name_or_admin none = text "admin"
name_or_admin (some name) = name

module _ {S : Type 0} (api : Storage S) (hashes : Hashes) (draws : Draws) where
  -- The invitation; an error is printed and passed over.
  unfoldable pub bootstrap_invite : S → Account → Option Text → S
  bootstrap_invite s admin none = s
  bootstrap_invite s admin (some code) =
      let issued =
        api.create_invite s (hash_token hashes (trim code)) (some admin.user_id)
          (text "bootstrap invite") in
      if is_empty (trim code) then s else issued.1

  unfoldable pub after_admin :
      Option Text → Result Account Text × S → Result (Unit {0}) BootstrapError × S
  unfolding bootstrap_invite
  after_admin code (err e, s) = (err (storage_failed e), s)
  after_admin code (ok admin, s) = (ok tt, bootstrap_invite s admin code)

  unfoldable pub with_hash :
      BootstrapEnv → S → Result Text Text → Result (Unit {0}) BootstrapError × S
  unfolding after_admin
  with_hash env s (err e) = (err (hash_failed e), s)
  with_hash env s (ok hash) = after_admin env.invite_code (
      api.ensure_bootstrap_admin draws.stored_id s
        (normalize_display_name (name_or_admin env.admin_name)) hash)

  unfoldable pub validated :
      BootstrapEnv
      → S
      → Text
      → Result (Unit {0}) ErrorMessage
      → Result (Unit {0}) BootstrapError × S
  unfolding with_hash
  validated env s password (err e) = (err password_rejected, s)
  validated env s password (ok done) = with_hash env s (hash_password hashes password)

  unfoldable pub bootstrap_on :
      BootstrapEnv → S → Option Text → Result (Unit {0}) BootstrapError × S
  unfolding validated
  bootstrap_on env s none = (ok tt, s)
  bootstrap_on env s (some password) =
      let done = validated env s password (validate_password password) in
      if is_empty (trim password) then (ok tt, s) else done

  unfoldable pub bootstrap_auth : BootstrapEnv → S → Result (Unit {0}) BootstrapError × S
  unfolding bootstrap_on
  bootstrap_auth env s = bootstrap_on env s env.admin_password

-- The administrator that the bootstrap stores in memory.
module _ (policy : RetentionPolicy) (hashes : Hashes) (draws : Draws) (s : MemoryInner) where
  abbrev key_of : BootstrapEnv → Text
  key_of env = display_name_key (normalize_display_name (name_or_admin env.admin_name))

  abbrev stored_admin : BootstrapEnv → Text → StoredUser
  stored_admin env hash = record {
    display_name = normalize_display_name (name_or_admin env.admin_name);
    password_hash = some hash;
    is_admin = true;
  }

  abbrev admin_id : BootstrapEnv → Text
  admin_id env = unwrap_or (get (key_of env) s.display_name_index) draws.stored_id

  -- The administrator stands in the state with a hash of the password.
  abbrev HasAdmin : BootstrapEnv → Text → MemoryInner → Type 0
  HasAdmin env password t =
      (hash : Text) × (hash_password hashes password ≡ ok hash)
      × IsStored (key_of env) (admin_id env) (stored_admin env hash) t

  bootstrap_invite-IsStored :
      (t : MemoryInner) (admin : Account) (code : Option Text) (key id : Text) (user : StoredUser)
      → IsStored key id user t
      → IsStored key id user (bootstrap_invite (memory_storage policy) hashes draws t admin code)
  unfolding bootstrap_invite Memory.create_invite
  bootstrap_invite-IsStored t admin none key id user h = h
  bootstrap_invite-IsStored t admin (some code) key id user h =
      if-elim (IsStored key id user) (is_empty (trim code)) (λ _. h) (λ _. h)

  with_hash-HasAdmin :
      (env : BootstrapEnv) (password : Text) (r : Result Text Text)
      → hash_password hashes password ≡ r
      → (with_hash (memory_storage policy) hashes draws env s r).0 ≡ ok tt
      → HasAdmin env password (with_hash (memory_storage policy) hashes draws env s r).1
  unfolding with_hash after_admin Memory.ensure_bootstrap_admin add_user
  with_hash-HasAdmin env password (err e) f h = absurd (err-apart (hash_failed e) tt h)
  with_hash-HasAdmin env password (ok hash) f h = (
    hash,
    f,
    bootstrap_invite-IsStored _ (account (admin_id env) (stored_admin env hash)) env.invite_code
        (key_of env) (admin_id env) (stored_admin env hash)
        (
          get-insert_self (key_of env) (admin_id env) s.display_name_index,
          get-insert_self (admin_id env) (stored_admin env hash) s.users,
        ),
  )

  validated-HasAdmin :
      (env : BootstrapEnv) (password : Text) (r : Result (Unit {0}) ErrorMessage)
      → (validated (memory_storage policy) hashes draws env s password r).0 ≡ ok tt
      → HasAdmin env password (validated (memory_storage policy) hashes draws env s password r).1
  unfolding validated
  validated-HasAdmin env password (err e) h = absurd (err-apart password_rejected tt h)
  validated-HasAdmin env password (ok done) h =
      with_hash-HasAdmin env password (hash_password hashes password) refl h

  bootstrap_on-HasAdmin :
      (env : BootstrapEnv) (password : Text)
      → is_empty (trim password) ≡ false
      → (bootstrap_on (memory_storage policy) hashes draws env s (some password)).0 ≡ ok tt
      → HasAdmin env password
          (bootstrap_on (memory_storage policy) hashes draws env s (some password)).1
  unfolding bootstrap_on
  bootstrap_on-HasAdmin env password full =
      if-elim
        (λ (r : Result (Unit {0}) BootstrapError × MemoryInner).
          r.0 ≡ ok tt → HasAdmin env password r.1)
        (is_empty (trim password)) (λ blank _. absurd (ground (arith, full, blank)))
        (λ _ h. validated-HasAdmin env password (validate_password password) h)

  -- With hash functions that verify a password against its own hash: when a bootstrap with a
  -- password that is not blank succeeds on the store in memory, that password logs the
  -- administrator in, with the rights of an administrator, under any spelling of the configured
  -- name with the same key.
  pub bootstrap-login :
      (later : Draws) (allow : Bool) (env : BootstrapEnv) (password spelling : Text)
      → ((p h : Text) → hash_password hashes p ≡ ok h → verify_password hashes p h ≡ true)
      → env.admin_password ≡ some password
      → is_empty (trim password) ≡ false
      → (bootstrap_auth (memory_storage policy) hashes draws env s).0 ≡ ok tt
      → display_name_key spelling
        ≡ display_name_key (normalize_display_name (name_or_admin env.admin_name))
      → (id : Text) × Answers policy hashes later id true
          (authenticate_first_frame
            (memory_storage policy)
            hashes
            later
            allow
            (bootstrap_auth (memory_storage policy) hashes draws env s).1
            (login spelling password)).0
  unfolding bootstrap_auth
  bootstrap-login later allow env password spelling verifies set full done same_key = logs_in (
      subst
        (λ o. HasAdmin env password (bootstrap_on (memory_storage policy) hashes draws env s o).1)
        (sym set)
        (bootstrap_on-HasAdmin env password full (
          subst (λ o. (bootstrap_on (memory_storage policy) hashes draws env s o).0 ≡ ok tt) set
            done)))
    where
      after : MemoryInner
      after = (bootstrap_on (memory_storage policy) hashes draws env s env.admin_password).1

      logs_in :
          HasAdmin env password after
          → (id : Text) × Answers policy hashes later id true
              (authenticate_first_frame
                (memory_storage policy)
                hashes
                later
                allow
                after
                (login spelling password)).0
      logs_in (hash, e, stored) = (
        admin_id env,
        login-IsStored policy hashes later allow after spelling password hash (admin_id env)
            (stored_admin env hash)
            (subst (λ k. IsStored k (admin_id env) (stored_admin env hash) after) (sym same_key)
              stored)
            refl (verifies password hash e),
      )
