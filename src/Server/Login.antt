-- ===== src/Server/Login.antt =====
-- Authentication: `authenticate_first_frame`, `authenticated_with_session`, `bootstrap_auth` and
-- `allow_dev_auth` (crates/light-discord-server/src/main.rs). They use the storage only.
use light_discord.Common.{
  Bool, Option, Result, Text, err, false, if◌then◌else◌, is_empty, length, ltb, none, not, ok, some,
  take, text, text_eq, trim, true, ◌>>◌, ◌||◌,
}
use light_discord.Protocol.{
  ClientFrame, hello, register, login, resume_session, ErrorMessage, login_required, invalid_login,
  no_password_login, session_invalid, first_frame_must_authenticate, password_too_short,
  invite_invalid, failed_to_create_dev_user, failed_to_hash_password, registration_failed,
  session_creation_failed, login_failed, session_validation_failed,
}
use light_discord.Protocol as Protocol
use light_discord.Wire.Utf8.{as_bytes}
use light_discord.Auth.{Hashes, hash_password, verify_password, hash_token, new_session_token}
use light_discord.Storage.Types.{
  Account, SessionInfo, CreateAccountResult, created, display_name_taken, invalid_invite,
}
use light_discord.Storage.Interface.{Storage}
use light_discord.Server.Chat.{Draws}
pub mod Outcomes
pub mod Registered
mod Examples

pub record AuthenticatedUser : Type 0 where
  pub user_id : Text
  pub display_name : Text
  pub is_admin : Bool
  pub session_token : Option Text

unfoldable pub normalize_display_name : Text → Text
normalize_display_name name =
    let trimmed = trim name in if is_empty trimmed then text "guest" else take 32 trimmed

-- `password.len()` counts bytes.
unfoldable pub validate_password : Text → Result (Unit {0}) ErrorMessage
validate_password password =
    if ltb (length (as_bytes password)) 8 then err password_too_short else ok tt

-- `Result::map_err` on the value, with the state left alone.
abbrev pub map_err {ℓ κ ν} :
    {A : Type ℓ} {E : Type κ} {F : Type ν} → (E → F) → Result A E → Result A F
map_err f (ok a) = ok a
map_err f (err e) = err (f e)

module _ {S : Type 0} (api : Storage S) (hashes : Hashes) (draws : Draws) where
  abbrev Answer : Type 0
  Answer = Result AuthenticatedUser ErrorMessage × S

  abbrev pub session_user : Text → SessionInfo → AuthenticatedUser
  session_user token session = record {
    user_id = session.user_id;
    display_name = session.display_name;
    is_admin = session.is_admin;
    session_token = some token;
  }

  unfoldable pub with_session :
      Text → Result SessionInfo Text → Result AuthenticatedUser ErrorMessage
  with_session token (ok session) = ok (session_user token session)
  with_session token (err e) = err (session_creation_failed e)

  -- With the callers' `map_err`.
  unfoldable pub authenticated_with_session : S → Account → Answer
  unfolding with_session
  authenticated_with_session s account =
      let token = new_session_token draws.secret in
      let result = api.create_session s (hash_token hashes token) account.user_id in
      (with_session token result.0, result.1)

  unfoldable pub say_hello : Text → Result (Unit {0}) Text → Result AuthenticatedUser ErrorMessage
  say_hello display_name (ok done) = ok (record {
    user_id = draws.id;
    display_name = display_name;
    is_admin = false;
    session_token = none;
  })
  say_hello display_name (err e) = err (failed_to_create_dev_user e)

  unfoldable pub after_create : S → Result CreateAccountResult Text → Answer
  unfolding authenticated_with_session
  after_create s (err e) = (err (registration_failed e), s)
  after_create s (ok (created account)) = authenticated_with_session s account
  after_create s (ok display_name_taken) = (err Protocol.display_name_taken, s)
  after_create s (ok invalid_invite) = (err invite_invalid, s)

  unfoldable pub register_hashed : S → Text → Text → Result Text ErrorMessage → Answer
  unfolding after_create
  register_hashed s invite_code display_name (err e) = (err e, s)
  register_hashed s invite_code display_name (ok password_hash) =
      let result =
        api.create_user_with_invite draws.stored_id s (normalize_display_name display_name)
          password_hash (hash_token hashes (trim invite_code)) in
      after_create result.1 result.0

  -- `validate_password(..)?` and then `hash_password(..)?`.
  unfoldable pub checked_hash : Text → Result Text ErrorMessage
  checked_hash password =
      validate_password password >> map_err failed_to_hash_password (hash_password hashes password)

  unfoldable pub login_with_hash : S → Text → Account → Option Text → Answer
  unfolding authenticated_with_session
  login_with_hash s password account none = (err no_password_login, s)
  login_with_hash s password account (some password_hash) =
      if not (verify_password hashes password password_hash)
      then (err invalid_login, s)
      else authenticated_with_session s account

  unfoldable pub login_found : S → Text → Result (Option Account) Text → Answer
  unfolding login_with_hash
  login_found s password (err e) = (err (login_failed e), s)
  login_found s password (ok none) = (err invalid_login, s)
  login_found s password (ok (some account)) =
      login_with_hash s password account account.password_hash

  unfoldable pub resumed : Result (Option SessionInfo) Text → Result AuthenticatedUser ErrorMessage
  resumed (err e) = err (session_validation_failed e)
  resumed (ok none) = err session_invalid
  resumed (ok (some session)) = ok (record {
    user_id = session.user_id;
    display_name = session.display_name;
    is_admin = session.is_admin;
    session_token = none;
  })

  unfoldable pub authenticate_first_frame : Bool → S → ClientFrame → Answer
  unfolding say_hello register_hashed checked_hash login_found resumed
  authenticate_first_frame allow_dev_auth s (hello name) =
      let display_name = normalize_display_name name in
      let result = api.register_ephemeral_user s draws.id display_name in
      if allow_dev_auth
      then (say_hello display_name result.0, result.1)
      else (err login_required, s)
  authenticate_first_frame allow_dev_auth s (register invite_code display_name password) =
      register_hashed s invite_code display_name (checked_hash password)
  authenticate_first_frame allow_dev_auth s (login display_name password) =
      login_found s password (api.find_user_by_display_name s display_name)
  authenticate_first_frame allow_dev_auth s (resume_session session_token) =
      (resumed (api.validate_session s (hash_token hashes (trim session_token))), s)
  authenticate_first_frame allow_dev_auth s _ = (err first_frame_must_authenticate, s)

-- `matches!(value.as_str(), "1" | "true" | "TRUE" | "yes" | "YES")`
is_truthy : Text → Bool
is_truthy v =
    text_eq v (text "1")
    || (text_eq v (text "true")
        || (text_eq v (text "TRUE") || (text_eq v (text "yes") || text_eq v (text "YES"))))

-- `allow_dev_auth`, of the variable LD_DEV_AUTH.
unfoldable pub allow_dev_auth : {S : Type 0} → Storage S → Option Text → Bool
unfolding is_truthy
allow_dev_auth api none = not api.is_persistent
allow_dev_auth api (some value) = is_truthy value
