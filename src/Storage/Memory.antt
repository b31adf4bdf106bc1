-- ===== src/Storage/Memory.antt =====
-- `MemoryStorage` of crates/light-discord-storage/src/lib.rs. Each method holds the lock for its whole
-- body, so it is a function of the state. `now` is what `now_unix_ms()` reads and `new_id` what
-- `Uuid::new_v4()` draws. Methods that cannot fail return their value without `Ok`.
pub mod Deletion
pub mod Messages
pub mod Calls
pub mod History
pub mod Invites
pub mod Sessions
pub mod Keyed
pub mod Visible
mod Examples
use light_discord.Common.{
  Bool, List, Option, Result, Text, [], err, false, if◌then◌else◌, is_some, none, not, ok, some,
  text, true, ℕ,
}
use light_discord.Common.Maps.{Map, get, insert, contains_key}
use light_discord.Protocol.{ChatMessage, AuditLogSummary}
use light_discord.Storage.Types.{
  Account, SessionInfo, CreateAccountResult, created, display_name_taken, invalid_invite,
  display_name_key,
}

pub record StoredUser : Type 0 where
  pub display_name : Text
  pub password_hash : Option Text
  pub is_admin : Bool

pub record MemoryInvite : Type 0 where
  pub consumed_by_user_id : Option Text

pub record MemoryMessage : Type 0 where
  pub message : ChatMessage
  pub deleted_at_unix_ms : Option ℕ
  pub deleted_by_user_id : Option Text

pub record MemoryInner : Type 0 where
  pub users : Map StoredUser
  pub display_name_index : Map Text
  pub invite_codes : Map MemoryInvite
  pub sessions : Map Text
  pub messages : Map MemoryMessage
  pub audit_log : List AuditLogSummary

abbrev pub empty_inner : MemoryInner
empty_inner = record {
  users = [];
  display_name_index = [];
  invite_codes = [];
  sessions = [];
  messages = [];
  audit_log = [];
}

-- `option.cloned().unwrap_or_else(..)`
abbrev pub unwrap_or : Option Text → Text → Text
unwrap_or none d = d
unwrap_or (some t) d = t

abbrev pub account : Text → StoredUser → Account
account user_id user = record {
  user_id = user_id;
  display_name = user.display_name;
  password_hash = user.password_hash;
  is_admin = user.is_admin;
}

-- The name's entry in the index and the user's record.
unfoldable pub add_user : MemoryInner → Text → Text → StoredUser → MemoryInner
add_user s key user_id user = record s {
  users = insert user_id user s.users;
  display_name_index = insert key user_id s.display_name_index;
}

unfoldable pub ensure_bootstrap_admin : Text → MemoryInner → Text → Text → Account × MemoryInner
unfolding add_user
ensure_bootstrap_admin new_id s display_name password_hash =
    let key = display_name_key display_name in
    let user_id = unwrap_or (get key s.display_name_index) new_id in
    let user : StoredUser = record {
      display_name = display_name;
      password_hash = some password_hash;
      is_admin = true;
    } in
    (account user_id user, add_user s key user_id user)

unfoldable pub create_invite : MemoryInner → Text → MemoryInner
create_invite s code_hash = record s {
  invite_codes = insert code_hash (record { consumed_by_user_id = none }) s.invite_codes;
}

-- An invitation that is there and has not been used.
unfoldable pub is_open : Option MemoryInvite → Bool
is_open none = false
is_open (some invite) = not (is_some invite.consumed_by_user_id)

unfoldable pub create_user_with_password_hash :
    Text → MemoryInner → Text → Text → Bool → CreateAccountResult × MemoryInner
unfolding add_user
create_user_with_password_hash new_id s display_name password_hash is_admin =
    let key = display_name_key display_name in
    let user : StoredUser = record {
      display_name = display_name;
      password_hash = some password_hash;
      is_admin = is_admin;
    } in
    if contains_key key s.display_name_index
    then (display_name_taken, s)
    else (created (account new_id user), add_user s key new_id user)

unfoldable pub create_user_with_invite :
    Text → MemoryInner → Text → Text → Text → CreateAccountResult × MemoryInner
unfolding add_user is_open
create_user_with_invite new_id s display_name password_hash invite_code_hash =
    let key = display_name_key display_name in
    let user : StoredUser = record {
      display_name = display_name;
      password_hash = some password_hash;
      is_admin = false;
    } in
    let s' = add_user s key new_id user in
    if not (is_open (get invite_code_hash s.invite_codes))
    then (invalid_invite, s)
    else if contains_key key s.display_name_index
    then (display_name_taken, s)
    else (
      created (account new_id user),
      record s' {
        invite_codes =
            insert invite_code_hash (record { consumed_by_user_id = some new_id }) s.invite_codes;
      },
    )

-- `Some(Account { .. })` of the user that an index entry names, if there is one.
unfoldable pub account_of : Text → Option StoredUser → Option Account
account_of user_id none = none
account_of user_id (some user) = some (account user_id user)

unfoldable pub find_account : MemoryInner → Option Text → Option Account
unfolding account_of
find_account s none = none
find_account s (some user_id) = account_of user_id (get user_id s.users)

unfoldable pub find_user_by_display_name : MemoryInner → Text → Option Account
unfolding find_account
find_user_by_display_name s display_name =
    find_account s (get (display_name_key display_name) s.display_name_index)

unfoldable pub register_ephemeral_user : MemoryInner → Text → Text → MemoryInner
register_ephemeral_user s user_id display_name = record s {
  users =
      insert user_id
        (record { display_name = display_name; password_hash = none; is_admin = false }) s.users;
}

abbrev pub session_info : Text → StoredUser → SessionInfo
session_info user_id user = record {
  user_id = user_id;
  display_name = user.display_name;
  is_admin = user.is_admin;
}

-- The branches on the user that the map holds, or not.
unfoldable pub session_for :
    MemoryInner → Text → Text → Option StoredUser → Result SessionInfo Text × MemoryInner
session_for s token_hash user_id none = (err (text "cannot create session for missing user"), s)
session_for s token_hash user_id (some user) =
    (ok (session_info user_id user), record s { sessions = insert token_hash user_id s.sessions })

unfoldable pub create_session : MemoryInner → Text → Text → Result SessionInfo Text × MemoryInner
unfolding session_for
create_session s token_hash user_id = session_for s token_hash user_id (get user_id s.users)

unfoldable pub info_of : Text → Option StoredUser → Option SessionInfo
info_of user_id none = none
info_of user_id (some user) = some (session_info user_id user)

unfoldable pub session_of : MemoryInner → Option Text → Option SessionInfo
unfolding info_of
session_of s none = none
session_of s (some user_id) = info_of user_id (get user_id s.users)

unfoldable pub validate_session : MemoryInner → Text → Option SessionInfo
unfolding session_of
validate_session s token_hash = session_of s (get token_hash s.sessions)
