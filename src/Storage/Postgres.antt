-- ===== src/Storage/Postgres.antt =====
-- `PostgresStorage` of crates/light-discord-storage/src/lib.rs, over the tables of
-- crates/light-discord-storage/migrations/0001_init.sql. A table with a primary key is a map from the
-- key to the other columns; `members` holds those of the guild `default`, the only one that a
-- statement names. A statement that a constraint refuses is an error, with the text of its
-- `context`, and changes nothing; what earlier statements of the method wrote stays. `lower` is the
-- database's function on texts. Times are below 2 ^ 63, so that they survive the cast to `i64`.
pub mod Agreement
mod Examples
pub mod Calls
pub mod Consumed
pub mod Invites
pub mod Messages
pub mod Recent
pub mod Runs
pub mod Unique
pub mod Sessions
use light_discord.Common.{
  Bool, List, Option, Result, Text, [], err, false, if◌then◌else◌, is_empty, is_some, keep, map,
  none, not, ok, some, text, text_eq, ℕ, ◌||◌, ◌∷◌,
}
use light_discord.Common.Maps.{Map, Set, get, insert, contains_key}
use light_discord.Protocol.{AuditLogSummary}
use light_discord.Storage.Types.{
  Account, CreateAccountResult, created, display_name_taken, invalid_invite,
}

pub record UserRow : Type 0 where
  pub display_name : Text
  pub password_hash : Option Text
  pub is_admin : Bool
  pub created_at_unix_ms : ℕ
  pub disabled_at_unix_ms : Option ℕ

pub record InviteRow : Type 0 where
  pub created_by_user_id : Option Text
  pub note : Text
  pub created_at_unix_ms : ℕ
  pub consumed_by_user_id : Option Text
  pub consumed_at_unix_ms : Option ℕ

pub record SessionRow : Type 0 where
  pub user_id : Text
  pub created_at_unix_ms : ℕ
  pub last_seen_at_unix_ms : ℕ
  pub revoked_at_unix_ms : Option ℕ

pub record MemberRow : Type 0 where
  pub role_name : Text
  pub joined_at_unix_ms : ℕ

pub record MessageRow : Type 0 where
  pub guild_id : Text
  pub channel_id : Text
  pub user_id : Text
  pub display_name_snapshot : Text
  pub body : Text
  pub created_at_unix_ms : ℕ
  pub deleted_at_unix_ms : Option ℕ
  pub deleted_by_user_id : Option Text

-- `entry` has the columns that the audit log answers, its identifier among them.
pub record AuditRow : Type 0 where
  pub guild_id : Text
  pub metadata_json : Text
  pub entry : AuditLogSummary

pub record Tables : Type 0 where
  pub users : Map UserRow
  pub members : Map MemberRow
  pub invite_codes : Map InviteRow
  pub sessions : Map SessionRow
  pub channels : Set
  pub messages : Map MessageRow
  pub audit_log : List AuditRow

-- What the migration leaves in a new database.
abbrev pub migrated : Tables
migrated = record {
  users = [];
  members = [];
  invite_codes = [];
  sessions = [];
  channels = text "general" ∷ [];
  messages = [];
  audit_log = [];
}

-- `query_opt`, of the rows that the query selects: more than one is an error.
unfoldable pub query_opt {ℓ} : {A : Type ℓ} → Text → List A → Result (Option A) Text
query_opt context [] = ok none
query_opt context (row ∷ []) = ok (some row)
query_opt context (row ∷ other ∷ rows) = err context

abbrev pub account : Text × UserRow → Account
account (user_id, row) = record {
  user_id = user_id;
  display_name = row.display_name;
  password_hash = row.password_hash;
  is_admin = row.is_admin;
}

-- `INSERT INTO members .. ON CONFLICT (guild_id, user_id) DO UPDATE SET role_name`
unfoldable pub upsert_member : ℕ → Text → Text → Option MemberRow → Map MemberRow → Map MemberRow
upsert_member now user_id role_name none =
    insert user_id (record { role_name = role_name; joined_at_unix_ms = now })
upsert_member now user_id role_name (some row) =
    insert user_id (record row { role_name = role_name })

-- `INSERT INTO members .. ON CONFLICT (guild_id, user_id) DO NOTHING`
unfoldable pub insert_member : ℕ → Text → Option MemberRow → Map MemberRow → Map MemberRow
insert_member now user_id none members =
    insert user_id (record { role_name = text "member"; joined_at_unix_ms = now }) members
insert_member now user_id (some row) members = members

unfoldable pub create_invite :
    ℕ → Tables → Text → Option Text → Text → Result (Unit {0}) Text × Tables
create_invite now s code_hash created_by_user_id note =
    let row : InviteRow = record {
      created_by_user_id = created_by_user_id;
      note = note;
      created_at_unix_ms = now;
      consumed_by_user_id = none;
      consumed_at_unix_ms = none;
    } in
    if contains_key code_hash s.invite_codes
    then (ok tt, s)
    else (ok tt, record s { invite_codes = insert code_hash row s.invite_codes })

-- `consumed_at_unix_ms IS NULL`, of a row that is there.
unfoldable pub is_open : Option InviteRow → Bool
is_open none = false
is_open (some row) = not (is_some row.consumed_at_unix_ms)

-- `UPDATE invite_codes SET ..` on the row of the code, if it is open.
unfoldable pub consume_row : ℕ → Text → Text → Option InviteRow → Map InviteRow → Map InviteRow
consume_row now code_hash user_id none invites = invites
consume_row now code_hash user_id (some row) invites =
    if is_some row.consumed_at_unix_ms
    then invites
    else insert code_hash
        (record row { consumed_by_user_id = some user_id; consumed_at_unix_ms = some now }) invites

-- What is done with the outcome of the creation; `invalid_invite` is `unreachable!`.
unfoldable pub consume :
    ℕ → Text → Result CreateAccountResult Text × Tables → Result CreateAccountResult Text × Tables
unfolding consume_row
consume now code_hash (err e, s) = (err e, s)
consume now code_hash (ok display_name_taken, s) = (ok display_name_taken, s)
consume now code_hash (ok invalid_invite, s) = (err (text "invite is checked separately"), s)
consume now code_hash (ok (created a), s) = (
  ok (created a),
  record s {
    invite_codes =
        consume_row now code_hash a.user_id (get code_hash s.invite_codes) s.invite_codes;
  },
)

module _ (lower : Text → Text) where
  -- The rows that the unique index on `lower(display_name)` sees under the name.
  unfoldable pub named : Text → Map UserRow → Map UserRow
  named name users = keep (λ e. text_eq (lower (e.1).display_name) (lower name)) users

  unfoldable pub find_user_by_display_name : Tables → Text → Result (Option Account) Text
  unfolding named query_opt
  find_user_by_display_name s name =
      query_opt (text "failed to find user by display name")
        (map account (keep (λ e. not (is_some (e.1).disabled_at_unix_ms)) (named name s.users)))

  -- The two insertions, the first of which the primary key or the index may refuse.
  unfoldable pub insert_account :
      ℕ → Text → Tables → Text → Text → Bool → Result CreateAccountResult Text × Tables
  unfolding named upsert_member
  insert_account now user_id s name password_hash is_admin =
      let row : UserRow = record {
        display_name = name;
        password_hash = some password_hash;
        is_admin = is_admin;
        created_at_unix_ms = now;
        disabled_at_unix_ms = none;
      } in
      let role_name = if is_admin then text "admin" else text "member" in
      if contains_key user_id s.users || not (is_empty (named name s.users))
      then (err (text "failed to create user"), s)
      else (
        ok (created (account (user_id, row))),
        record s {
          users = insert user_id row s.users;
          members = upsert_member now user_id role_name (get user_id s.members) s.members;
        },
      )

  -- The branches on what the lookup of the name answers.
  unfoldable pub create_unless_found :
      ℕ
      → Text
      → Tables
      → Text
      → Text
      → Bool
      → Result (Option Account) Text
      → Result CreateAccountResult Text × Tables
  unfolding insert_account
  create_unless_found now new_id s name password_hash is_admin (err e) = (err e, s)
  create_unless_found now new_id s name password_hash is_admin (ok (some a)) =
      (ok display_name_taken, s)
  create_unless_found now new_id s name password_hash is_admin (ok none) =
      insert_account now new_id s name password_hash is_admin

  unfoldable pub create_user_with_password_hash :
      ℕ → Text → Tables → Text → Text → Bool → Result CreateAccountResult Text × Tables
  unfolding create_unless_found find_user_by_display_name
  create_user_with_password_hash now new_id s name password_hash is_admin =
      create_unless_found now new_id s name password_hash is_admin
        (find_user_by_display_name s name)

  unfoldable pub create_user_with_invite :
      ℕ → Text → Tables → Text → Text → Text → Result CreateAccountResult Text × Tables
  unfolding is_open consume create_user_with_password_hash
  create_user_with_invite now new_id s name password_hash invite_code_hash =
      if not (is_open (get invite_code_hash s.invite_codes))
      then (ok invalid_invite, s)
      else consume now invite_code_hash
          (create_user_with_password_hash now new_id s name password_hash false)
