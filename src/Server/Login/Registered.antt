-- ===== src/Server/Login/Registered.antt =====
-- Registration and login together, on the store in memory.
use light_discord.Common.{
  Bool, Option, Result, Text, ap, arith, err, false, if-elim, length, ltb, none, not, ok, refl,
  some, subst, sym, trim, true, ◌>>◌, ◌≡◌,
}
use light_discord.Common.Maps.{get, get-insert_self}
use light_discord.Protocol as Protocol
use light_discord.Wire.Utf8.{as_bytes}
use light_discord.Protocol.{register, login, ErrorMessage}
use light_discord.Auth.{Hashes, hash_password, verify_password, hash_token, new_session_token}
use light_discord.Storage.Types.{
  RetentionPolicy, CreateAccountResult, created, display_name_taken, invalid_invite,
  display_name_key,
}
use light_discord.Storage.Memory as Memory
use light_discord.Storage.Memory.{MemoryInner, StoredUser, account, session_for, session_info}
use light_discord.Storage.Memory.Invites.{
  find-indexed, newcomer, admitted, create_user_with_invite-created,
}
use light_discord.Storage.Interface.{Storage, memory_storage}
use light_discord.Server.Chat.{Draws}
use light_discord.Server.Login.{
  AuthenticatedUser, normalize_display_name, validate_password, map_err, with_session,
  authenticated_with_session, after_create, register_hashed, checked_hash, login_with_hash,
  login_found, authenticate_first_frame, session_user,
}
use light_discord.Server.Login.Outcomes.{err-apart}

-- The name's entry in the index, and the user that it names.
abbrev pub IsStored : Text → Text → StoredUser → MemoryInner → Type 0
IsStored key id user s = (get key s.display_name_index ≡ some id) × (get id s.users ≡ some user)

module _ (policy : RetentionPolicy) (hashes : Hashes) (draws : Draws) where
  abbrev api : Storage MemoryInner
  api = memory_storage policy

  abbrev pub Answers : Text → Bool → Result AuthenticatedUser ErrorMessage → Type 0
  Answers id admin r =
      (b : AuthenticatedUser) × (r ≡ ok b) × (b.user_id ≡ id) × (b.is_admin ≡ admin)

  session-Answers :
      (s : MemoryInner) (id : Text) (user : StoredUser) (token : Text)
      → get id s.users ≡ some user
      → Answers id user.is_admin (
          with_session api hashes draws token
            (Memory.create_session s (hash_token hashes token) id).0)
  unfolding Memory.create_session session_for with_session
  session-Answers s id user token e = (
    session_user api hashes draws token (session_info id user),
    ap (λ o. with_session api hashes draws token (session_for s (hash_token hashes token) id o).0)
        e,
    refl,
    refl,
  )

  -- A user whom the store in memory holds with a password is logged in by that password under any
  -- spelling of the name with the same key, with the identity and the rights of the user.
  pub login-IsStored :
      (allow : Bool) (s : MemoryInner) (spelling password hash id : Text) (user : StoredUser)
      → IsStored (display_name_key spelling) id user s
      → user.password_hash ≡ some hash
      → verify_password hashes password hash ≡ true
      → Answers id user.is_admin
          (authenticate_first_frame api hashes draws allow s (login spelling password)).0
  unfolding authenticate_first_frame login_found login_with_hash authenticated_with_session
  login-IsStored allow s spelling password hash id user stored e v =
      subst (λ o. Answers id user.is_admin (login_found api hashes draws s password (ok o)).0)
        (sym (find-indexed s id user spelling stored.0 stored.1))
        (subst
          (λ o.
            Answers id user.is_admin
              (login_with_hash api hashes draws s password (account id user) o).0)
          (sym e)
          (if-elim
            (λ (r : Result AuthenticatedUser ErrorMessage × MemoryInner).
              Answers id user.is_admin r.0)
            (not (verify_password hashes password hash))
            (λ wrong. absurd (ground (arith, wrong, v)))
            (λ _. session-Answers s id user (new_session_token draws.secret) stored.1)))

  session_for-IsStored :
      (s : MemoryInner) (key id token user_id : Text) (user : StoredUser) (o : Option StoredUser)
      → IsStored key id user s
      → IsStored key id user (session_for s token user_id o).1
  unfolding session_for
  session_for-IsStored s key id token user_id user none h = h
  session_for-IsStored s key id token user_id user (some u) h = h

  hashed :
      (password hash : Text)
      → checked_hash api hashes draws password ≡ ok hash
      → hash_password hashes password ≡ ok hash
  unfolding checked_hash validate_password
  hashed password hash =
      if-elim
        (λ (v : Result (Unit {0}) ErrorMessage).
          (v >> map_err Protocol.failed_to_hash_password (hash_password hashes password)) ≡ ok hash
          → hash_password hashes password ≡ ok hash)
        (ltb (length (as_bytes password)) 8)
        (λ _ e. absurd (err-apart Protocol.password_too_short hash e))
        (λ _ e. unmapped (hash_password hashes password) e)
    where
      unmapped :
          (r : Result Text Text)
          → map_err Protocol.failed_to_hash_password r ≡ ok hash
          → r ≡ ok hash
      unmapped (ok h) e = cc
      unmapped (err x) e = absurd cc

  module _ (s : MemoryInner) (code name hash : Text) where
    abbrev registered : CreateAccountResult × MemoryInner
    registered =
        Memory.create_user_with_invite draws.stored_id s (normalize_display_name name) hash
          (hash_token hashes (trim code))

    abbrev Settled : Result AuthenticatedUser ErrorMessage × MemoryInner → Type 0
    Settled r =
        IsStored (display_name_key (normalize_display_name name)) draws.stored_id
          (newcomer (normalize_display_name name) hash) r.1

    admitted-IsStored :
        IsStored
          (display_name_key (normalize_display_name name))
          draws.stored_id
          (newcomer (normalize_display_name name) hash)
          (admitted draws.stored_id
            (normalize_display_name name)
            hash
            (hash_token hashes (trim code))
            s)
    admitted-IsStored = (
      get-insert_self (display_name_key (normalize_display_name name)) draws.stored_id
          s.display_name_index,
      get-insert_self draws.stored_id (newcomer (normalize_display_name name) hash) s.users,
    )

    after_create-Settled :
        (c : CreateAccountResult) (a : AuthenticatedUser)
        → registered.0 ≡ c
        → (after_create api hashes draws registered.1 (ok c)).0 ≡ ok a
        → Settled (after_create api hashes draws registered.1 (ok c))
    unfolding after_create authenticated_with_session Memory.create_session
    after_create-Settled (created acc) a e h =
        session_for-IsStored registered.1 _ _ _ acc.user_id _ (get acc.user_id registered.1.users) (
          subst
            (IsStored (display_name_key (normalize_display_name name)) draws.stored_id
              (newcomer (normalize_display_name name) hash))
            (sym
              (create_user_with_invite-created draws.stored_id (normalize_display_name name) hash
                (hash_token hashes (trim code)) s acc e).1)
            admitted-IsStored)
    after_create-Settled display_name_taken a e h = absurd (err-apart _ a h)
    after_create-Settled invalid_invite a e h = absurd (err-apart _ a h)

  register_hashed-Settled :
      (s : MemoryInner) (code name password : Text) (r : Result Text ErrorMessage)
      (a : AuthenticatedUser)
      → checked_hash api hashes draws password ≡ r
      → (register_hashed api hashes draws s code name r).0 ≡ ok a
      → (hash : Text) × (hash_password hashes password ≡ ok hash)
        × Settled s code name hash (register_hashed api hashes draws s code name r)
  unfolding register_hashed
  register_hashed-Settled s code name password (err e) a f h = absurd (err-apart e a h)
  register_hashed-Settled s code name password (ok hash) a f h = (
    hash,
    hashed password hash f,
    after_create-Settled s code name hash (registered s code name hash).0 a refl h,
  )

-- With hash functions that verify a password against its own hash, whoever registers with an
-- invitation on the store in memory can log in, in the state that the registration leaves, by the
-- same password under any spelling of the registered name with the same key, and is no
-- administrator.
pub register-login :
    (policy : RetentionPolicy) (hashes : Hashes) (draws later : Draws) (allow : Bool)
    (s : MemoryInner) (code name password spelling : Text) (a : AuthenticatedUser)
    → ((p h : Text) → hash_password hashes p ≡ ok h → verify_password hashes p h ≡ true)
    → (authenticate_first_frame
        (memory_storage policy)
        hashes
        draws
        allow
        s
        (register code name password)).0
      ≡ ok a
    → display_name_key spelling ≡ display_name_key (normalize_display_name name)
    → Answers policy hashes later draws.stored_id false
        (authenticate_first_frame
          (memory_storage policy)
          hashes
          later
          allow
          (authenticate_first_frame
            (memory_storage policy)
            hashes
            draws
            allow
            s
            (register code name password)).1
          (login spelling password)).0
unfolding authenticate_first_frame
register-login policy hashes draws later allow s code name password spelling a verifies h same_key =
    conclude (
      register_hashed-Settled policy hashes draws s code name password
        (checked_hash (memory_storage policy) hashes draws password) a refl h)
  where
    after : MemoryInner
    after =
        (register_hashed (memory_storage policy) hashes draws s code name
          (checked_hash (memory_storage policy) hashes draws password)).1

    conclude :
        (hash : Text) × (hash_password hashes password ≡ ok hash)
          × IsStored
              (display_name_key (normalize_display_name name))
              draws.stored_id
              (newcomer (normalize_display_name name) hash)
              after
        → Answers policy hashes later draws.stored_id false
            (authenticate_first_frame
              (memory_storage policy)
              hashes
              later
              allow
              after
              (login spelling password)).0
    conclude (hash, e, stored) =
        login-IsStored policy hashes later allow after spelling password hash draws.stored_id
          (newcomer (normalize_display_name name) hash)
          (subst
            (λ k. IsStored k draws.stored_id (newcomer (normalize_display_name name) hash) after)
            (sym same_key) stored)
          refl (verifies password hash e)
