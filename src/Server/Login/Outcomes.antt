-- ===== src/Server/Login/Outcomes.antt =====
-- Who is admitted by a first frame.
use light_discord.Common.{
  Bool, Option, Result, Text, arith, err, false, if-elim, length, ltb, none, not, ok, refl, some,
  trim, true, ◌>>◌, ◌≡◌, ◌≤◌,
}
use light_discord.Protocol.{
  ClientFrame, hello, register, login, resume_session, join_channel, send_message, delete_message,
  admin_list_audit_log, admin_create_invite, join_voice, leave_voice, voice_heartbeat,
  start_screen_share, stop_screen_share, screen_share_frame, disconnect, ErrorMessage,
}
use light_discord.Protocol as Protocol
use light_discord.Wire.Utf8.{as_bytes}
use light_discord.Auth.{Hashes, hash_password, verify_password, hash_token, new_session_token}
use light_discord.Storage.Types.{
  Account, SessionInfo, CreateAccountResult, created, display_name_taken, invalid_invite,
}
use light_discord.Storage.Interface.{Storage}
use light_discord.Server.Chat.{Draws}
use light_discord.Server.Login.{
  AuthenticatedUser, normalize_display_name, validate_password, map_err, with_session,
  authenticated_with_session, say_hello, after_create, register_hashed, checked_hash,
  login_with_hash, login_found, resumed, authenticate_first_frame,
}

pub err-apart {ℓ κ} :
    {A : Type ℓ} {E : Type κ} (e : E) (a : A) → ¬ (◌≡◌ {A = Result A E} (err e) (ok a))
err-apart e a h = absurd cc

module _ {S : Type 0} (api : Storage S) (hashes : Hashes) (draws : Draws) where
  abbrev token : Text
  token = new_session_token draws.secret

  -- A session of the account was opened, and the answer holds what the session says.
  abbrev pub HasSession : S → Text → AuthenticatedUser → Type 0
  HasSession s user_id a =
      (session : SessionInfo) × ((api.create_session s (hash_token hashes token) user_id).0
        ≡ ok session)
      × (a.user_id ≡ session.user_id)
      × (a.is_admin ≡ session.is_admin)
      × (a.session_token ≡ some token)

  -- The storage's answer when the user registers.
  abbrev pub registration : S → Text → Text → Text → Result CreateAccountResult Text × S
  registration s code name hash =
      api.create_user_with_invite draws.stored_id s (normalize_display_name name) hash
        (hash_token hashes (trim code))

  -- What must hold for the frame to admit `a`.
  abbrev pub IsAdmitted : Bool → S → ClientFrame → AuthenticatedUser → Type 0
  IsAdmitted allow s (hello name) a =
      (allow ≡ true) × (a.user_id ≡ draws.id) × (a.is_admin ≡ false) × (a.session_token ≡ none)
  IsAdmitted allow s (register code name password) a =
      (hash : Text) × (account : Account) × (8 ≤ length (as_bytes password))
      × ((registration s code name hash).0 ≡ ok (created account))
      × HasSession (registration s code name hash).1 account.user_id a
  IsAdmitted allow s (login name password) a =
      (account : Account) × (hash : Text) × (api.find_user_by_display_name s name
        ≡ ok (some account))
      × (account.password_hash ≡ some hash)
      × (verify_password hashes password hash ≡ true)
      × HasSession s account.user_id a
  IsAdmitted allow s (resume_session session_token) a =
      (session : SessionInfo) × (api.validate_session s (hash_token hashes (trim session_token))
        ≡ ok (some session))
      × (a.user_id ≡ session.user_id)
      × (a.is_admin ≡ session.is_admin)
  IsAdmitted allow s _ a = ⊥

  with_session-HasSession :
      (s : S) (user_id : Text) (a : AuthenticatedUser) (r : Result SessionInfo Text)
      → (api.create_session s (hash_token hashes token) user_id).0 ≡ r
      → with_session api hashes draws token r ≡ ok a
      → HasSession s user_id a
  unfolding with_session
  with_session-HasSession s user_id a (ok session) e h = (session, e, cc, cc, cc)
  with_session-HasSession s user_id a (err x) e h = absurd cc

  authenticated-HasSession :
      (s : S) (account : Account) (a : AuthenticatedUser)
      → (authenticated_with_session api hashes draws s account).0 ≡ ok a
      → HasSession s account.user_id a
  unfolding authenticated_with_session
  authenticated-HasSession s account a h = with_session-HasSession s account.user_id a _ refl h

  say_hello-user :
      (name : Text) (r : Result (Unit {0}) Text) (a : AuthenticatedUser)
      → say_hello api hashes draws name r ≡ ok a
      → (a.user_id ≡ draws.id) × (a.is_admin ≡ false) × (a.session_token ≡ none)
  unfolding say_hello
  say_hello-user name (ok done) a h = (cc, cc, cc)
  say_hello-user name (err e) a h = absurd cc

  login_with_hash-verified :
      (s : S) (password : Text) (account : Account) (o : Option Text) (a : AuthenticatedUser)
      → (login_with_hash api hashes draws s password account o).0 ≡ ok a
      → (hash : Text) × (o ≡ some hash)
        × (verify_password hashes password hash ≡ true)
        × HasSession s account.user_id a
  unfolding login_with_hash
  login_with_hash-verified s password account none a h = absurd cc
  login_with_hash-verified s password account (some hash) a h =
      if-elim
        (λ (r : Result AuthenticatedUser ErrorMessage × S).
          r.0 ≡ ok a
          → (x : Text) × (◌≡◌ {A = Option Text} (some hash) (some x))
            × (verify_password hashes password x ≡ true)
            × HasSession s account.user_id a)
        (not (verify_password hashes password hash))
        (λ _ e. absurd (err-apart Protocol.invalid_login a e))
        (λ verified e.
          (hash, refl, ground (arith, verified), authenticated-HasSession s account a e))
        h

  login_found-IsAdmitted :
      (allow : Bool) (s : S) (name password : Text) (r : Result (Option Account) Text)
      (a : AuthenticatedUser)
      → api.find_user_by_display_name s name ≡ r
      → (login_found api hashes draws s password r).0 ≡ ok a
      → IsAdmitted allow s (login name password) a
  unfolding login_found
  login_found-IsAdmitted allow s name password (err e) a f h = absurd cc
  login_found-IsAdmitted allow s name password (ok none) a f h = absurd cc
  login_found-IsAdmitted allow s name password (ok (some account)) a f h =
      with_account (login_with_hash-verified s password account account.password_hash a h)
    where
      with_account :
          (hash : Text) × (account.password_hash ≡ some hash)
            × (verify_password hashes password hash ≡ true)
            × HasSession s account.user_id a
          → IsAdmitted allow s (login name password) a
      with_account (hash, e, v, session) = (account, hash, f, e, v, session)

  pub after_create-created :
      (s : S) (r : Result CreateAccountResult Text) (a : AuthenticatedUser)
      → (after_create api hashes draws s r).0 ≡ ok a
      → (account : Account) × (r ≡ ok (created account)) × HasSession s account.user_id a
  unfolding after_create
  after_create-created s (err e) a h = absurd cc
  after_create-created s (ok (created account)) a h =
      (account, refl, authenticated-HasSession s account a h)
  after_create-created s (ok display_name_taken) a h = absurd cc
  after_create-created s (ok invalid_invite) a h = absurd cc

  register_hashed-IsAdmitted :
      (allow : Bool) (s : S) (code name password : Text) (r : Result Text ErrorMessage)
      (a : AuthenticatedUser)
      → ((hash : Text) → r ≡ ok hash → 8 ≤ length (as_bytes password))
      → (register_hashed api hashes draws s code name r).0 ≡ ok a
      → IsAdmitted allow s (register code name password) a
  unfolding register_hashed
  register_hashed-IsAdmitted allow s code name password (err e) a long h = absurd cc
  register_hashed-IsAdmitted allow s code name password (ok hash) a long h =
      with_account (
        after_create-created (registration s code name hash).1 (registration s code name hash).0 a
          h)
    where
      with_account :
          (account : Account) × ((registration s code name hash).0 ≡ ok (created account))
            × HasSession (registration s code name hash).1 account.user_id a
          → IsAdmitted allow s (register code name password) a
      with_account (account, e, session) = (hash, account, long hash refl, e, session)

  checked_hash-long :
      (password hash : Text)
      → checked_hash api hashes draws password ≡ ok hash
      → 8 ≤ length (as_bytes password)
  unfolding checked_hash validate_password
  checked_hash-long password hash h =
      if-elim
        (λ (v : Result (Unit {0}) ErrorMessage).
          (v >> map_err Protocol.failed_to_hash_password (hash_password hashes password)) ≡ ok hash
          → 8 ≤ length (as_bytes password))
        (ltb (length (as_bytes password)) 8)
        (λ _ e. absurd (err-apart Protocol.password_too_short hash e))
        (λ long _. ground (arith, long)) h

  resumed-session :
      (r : Result (Option SessionInfo) Text) (a : AuthenticatedUser)
      → resumed api hashes draws r ≡ ok a
      → (session : SessionInfo) × (r ≡ ok (some session))
        × (a.user_id ≡ session.user_id)
        × (a.is_admin ≡ session.is_admin)
  unfolding resumed
  resumed-session (err e) a h = absurd cc
  resumed-session (ok none) a h = absurd cc
  resumed-session (ok (some session)) a h = (session, refl, cc, cc)

  -- A first frame that admits a user is a Hello while development logins are allowed, a
  -- registration with a password of at least eight bytes for which the storage created an account,
  -- a login with a password that verifies against the hash of the account, or the token of a
  -- session that the storage knows; the identity and the rights are those that the storage
  -- answers.
  pub authenticate_first_frame-IsAdmitted :
      (allow : Bool) (s : S) (frame : ClientFrame) (a : AuthenticatedUser)
      → (authenticate_first_frame api hashes draws allow s frame).0 ≡ ok a
      → IsAdmitted allow s frame a
  unfolding authenticate_first_frame
  authenticate_first_frame-IsAdmitted allow s (hello name) a h =
      if-elim
        (λ (r : Result AuthenticatedUser ErrorMessage × S).
          r.0 ≡ ok a → IsAdmitted allow s (hello name) a)
        allow (λ allowed e. admit allowed (say_hello-user (normalize_display_name name) _ a e))
        (λ _ e. absurd (err-apart Protocol.login_required a e)) h
    where
      admit :
          allow ≡ true
          → (a.user_id ≡ draws.id) × (a.is_admin ≡ false) × (a.session_token ≡ none)
          → IsAdmitted allow s (hello name) a
      admit allowed (same, plain, bare) = (allowed, same, plain, bare)
  authenticate_first_frame-IsAdmitted allow s (register code name password) a h =
      register_hashed-IsAdmitted allow s code name password (checked_hash api hashes draws password)
        a (checked_hash-long password) h
  authenticate_first_frame-IsAdmitted allow s (login name password) a h =
      login_found-IsAdmitted allow s name password (api.find_user_by_display_name s name) a refl h
  authenticate_first_frame-IsAdmitted allow s (resume_session session_token) a h =
      resumed-session (api.validate_session s (hash_token hashes (trim session_token))) a h
  authenticate_first_frame-IsAdmitted allow s (join_channel c) a h = absurd cc
  authenticate_first_frame-IsAdmitted allow s (send_message c b) a h = absurd cc
  authenticate_first_frame-IsAdmitted allow s (delete_message m) a h = absurd cc
  authenticate_first_frame-IsAdmitted allow s (admin_list_audit_log n) a h = absurd cc
  authenticate_first_frame-IsAdmitted allow s (admin_create_invite n) a h = absurd cc
  authenticate_first_frame-IsAdmitted allow s (join_voice r) a h = absurd cc
  authenticate_first_frame-IsAdmitted allow s leave_voice a h = absurd cc
  authenticate_first_frame-IsAdmitted allow s (voice_heartbeat r) a h = absurd cc
  authenticate_first_frame-IsAdmitted allow s (start_screen_share r) a h = absurd cc
  authenticate_first_frame-IsAdmitted allow s stop_screen_share a h = absurd cc
  authenticate_first_frame-IsAdmitted allow s (screen_share_frame f) a h = absurd cc
  authenticate_first_frame-IsAdmitted allow s disconnect a h = absurd cc
