-- ===== src/Storage/Postgres/Sessions.antt =====
-- The methods of `PostgresStorage` on the bootstrap administrator, development users and sessions
-- (crates/light-discord-storage/src/lib.rs).
use light_discord.Common.{
  Bool, Option, Result, Text, err, false, if◌then◌else◌, is_empty, is_some, keep, none, not, ok,
  some, text, text_eq, true, ℕ,
}
use light_discord.Common.Maps.{Map, get, insert, contains_key}
use light_discord.Storage.Types.{
  Account, SessionInfo, CreateAccountResult, created, display_name_taken, invalid_invite,
}
use light_discord.Storage.Postgres.{
  UserRow, SessionRow, Tables, account, insert_member, named, find_user_by_display_name,
  create_user_with_password_hash,
}

-- `UPDATE users SET ..` of the bootstrap, on the row of the identifier.
unfoldable pub promote_row : Text → Text → Option UserRow → Map UserRow → Map UserRow
promote_row user_id password_hash none users = users
promote_row user_id password_hash (some row) users =
    insert user_id
      (record row {
        password_hash = some password_hash;
        is_admin = true;
        disabled_at_unix_ms = none;
      })
      users

-- What the bootstrap makes of a new account; `invalid_invite` is `unreachable!`.
unfoldable pub bootstrap_created :
    Result CreateAccountResult Text × Tables → Result Account Text × Tables
bootstrap_created (err e, s) = (err e, s)
bootstrap_created (ok (created a), s) = (ok a, s)
bootstrap_created (ok display_name_taken, s) =
    (err (text "bootstrap admin display name is already taken"), s)
bootstrap_created (ok invalid_invite, s) = (err (text "invite is not used here"), s)

module _ (lower : Text → Text) where
  -- The branches on what the lookup of the name answers.
  unfoldable pub bootstrap_found :
      ℕ → Text → Tables → Text → Text → Result (Option Account) Text → Result Account Text × Tables
  unfolding promote_row bootstrap_created
  bootstrap_found now new_id s name password_hash (err e) = (err e, s)
  bootstrap_found now new_id s name password_hash (ok none) =
      bootstrap_created (create_user_with_password_hash lower now new_id s name password_hash true)
  bootstrap_found now new_id s name password_hash (ok (some a)) = (
    ok (record a { password_hash = some password_hash; is_admin = true }),
    record s { users = promote_row a.user_id password_hash (get a.user_id s.users) s.users },
  )

  unfoldable pub ensure_bootstrap_admin :
      ℕ → Text → Tables → Text → Text → Result Account Text × Tables
  unfolding bootstrap_found
  ensure_bootstrap_admin now new_id s name password_hash =
      bootstrap_found now new_id s name password_hash (find_user_by_display_name lower s name)

  -- Whether a row other than the user's own has the name.
  unfoldable pub is_name_of_other : Text → Text → Map UserRow → Bool
  is_name_of_other user_id name users =
      not (is_empty (keep (λ e. not (text_eq e.0 user_id)) (named lower name users)))

  -- `INSERT INTO users .. ON CONFLICT (id) DO UPDATE SET display_name`
  unfoldable pub ephemeral_row : ℕ → Text → Option UserRow → UserRow
  ephemeral_row now name none = record {
    display_name = name;
    password_hash = none;
    is_admin = false;
    created_at_unix_ms = now;
    disabled_at_unix_ms = none;
  }
  ephemeral_row now name (some row) = record row { display_name = name }

  unfoldable pub register_ephemeral_user :
      ℕ → Tables → Text → Text → Result (Unit {0}) Text × Tables
  unfolding is_name_of_other ephemeral_row
  register_ephemeral_user now s user_id name =
      if is_name_of_other user_id name s.users
      then (err (text "failed to register ephemeral user"), s)
      else (
        ok tt,
        record s {
          users = insert user_id (ephemeral_row now name (get user_id s.users)) s.users;
          members = insert_member now user_id (get user_id s.members) s.members;
        },
      )

-- The user that a lookup finds, unless it is disabled.
unfoldable pub enabled : Text → Option UserRow → Option Account
enabled user_id none = none
enabled user_id (some row) =
    if is_some row.disabled_at_unix_ms then none else some (account (user_id, row))

unfoldable pub find_user_by_id : Tables → Text → Option Account
unfolding enabled
find_user_by_id s user_id = enabled user_id (get user_id s.users)

abbrev pub session_info : Account → SessionInfo
session_info a = record {
  user_id = a.user_id;
  display_name = a.display_name;
  is_admin = a.is_admin;
}

-- The branches on the user that is found.
unfoldable pub session_for : ℕ → Tables → Text → Option Account → Result SessionInfo Text × Tables
session_for now s token_hash none = (err (text "cannot create session for missing user"), s)
session_for now s token_hash (some a) =
    let row : SessionRow = record {
      user_id = a.user_id;
      created_at_unix_ms = now;
      last_seen_at_unix_ms = now;
      revoked_at_unix_ms = none;
    } in
    if contains_key token_hash s.sessions
    then (err (text "failed to create session"), s)
    else (ok (session_info a), record s { sessions = insert token_hash row s.sessions })

unfoldable pub create_session : ℕ → Tables → Text → Text → Result SessionInfo Text × Tables
unfolding session_for find_user_by_id
create_session now s token_hash user_id = session_for now s token_hash (find_user_by_id s user_id)

-- The user of a session that is not revoked.
unfoldable pub session_user : Tables → Option SessionRow → Option Account
unfolding find_user_by_id
session_user s none = none
session_user s (some row) =
    if is_some row.revoked_at_unix_ms then none else find_user_by_id s row.user_id

-- `UPDATE sessions SET last_seen_at_unix_ms = $2 WHERE token_hash = $1`
unfoldable pub seen : ℕ → Text → Option SessionRow → Map SessionRow → Map SessionRow
seen now token_hash none sessions = sessions
seen now token_hash (some row) sessions =
    insert token_hash (record row { last_seen_at_unix_ms = now }) sessions

unfoldable pub validated : ℕ → Tables → Text → Option Account → Option SessionInfo × Tables
unfolding seen
validated now s token_hash none = (none, s)
validated now s token_hash (some a) = (
  some (session_info a),
  record s { sessions = seen now token_hash (get token_hash s.sessions) s.sessions },
)

unfoldable pub validate_session : ℕ → Tables → Text → Option SessionInfo × Tables
unfolding validated session_user
validate_session now s token_hash =
    validated now s token_hash (session_user s (get token_hash s.sessions))
