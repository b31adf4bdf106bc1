-- ===== src/SessionToken.antt =====
-- The store of session tokens of crates/light-discord-platform/src/session_token.rs: the system's
-- keyring, and files for when it fails. The keyring and the file system are the platform's: an
-- argument of each call says whether the keyring works, in which directory the files are and with
-- which error a file operation fails. A write that fails is taken to leave the file as it was.
mod Examples
pub mod Load
use light_discord.Common.{
  Bool, List, Option, Result, Text, err, if◌then◌else◌, is_empty, none, not, ok, some, text, trim,
  ℕ, ◌++◌, ◌/◌, ◌>>=◌,
}
use light_discord.Common.Maps.{Map, get, insert, remove}
use light_discord.Wire.Utf8.{as_bytes}
use light_discord.Auth.{hex}

pub data SessionTokenStore : Type 0 where
  keyring file : SessionTokenStore

pub record StoredSessionToken : Type 0 where
  pub token : Text
  pub store : SessionTokenStore

pub record Tokens : Type 0 where
  pub keyring_entries : Map Text
  pub files : Map Text

pub record Platform : Type 0 where
  pub keyring_works : Bool
  pub fallback_dir : Result Text Text
  pub file_error : Option Text

abbrev pub Answer : Type 0 → Type 0
Answer A = Result A Text

abbrev pub optional_ok : Option Text → Answer (Option StoredSessionToken)
optional_ok none = ok none
optional_ok (some token) = ok (some (record { token = token; store = file }))

-- A file operation, which fails with the error of the platform, if there is one.
abbrev pub attempt {ℓ} : {A : Type ℓ} → Option Text → A → Result A Text
attempt none a = ok a
attempt (some e) a = err e

abbrev pub empty_token : Text
empty_token = text "session token must not be empty or whitespace-only"

module _ (sha256 : List ℕ → List ℕ) where
  unfoldable pub derive_key : Text → Text
  unfolding hex as_bytes
  derive_key server_addr = hex (sha256 (as_bytes server_addr))

  unfoldable pub fallback_path : Platform → Text → Result Text Text
  fallback_path p key = do dir ← p.fallback_dir; ok (dir ++ text "/" ++ key ++ text ".token")

  unfoldable pub read_fallback_file : Platform → Tokens → Text → Answer (Option StoredSessionToken)
  read_fallback_file p s path = do
    found ← attempt p.file_error (get path s.files)
    optional_ok found

  -- The file, when the keyring has nothing.
  unfoldable pub load_fallback :
      Platform → Tokens → Text → Option Text → Answer (Option StoredSessionToken)
  unfolding fallback_path read_fallback_file
  load_fallback p s key (some token) = ok (some (record { token = token; store = keyring }))
  load_fallback p s key none = do path ← fallback_path p key; read_fallback_file p s path

  unfoldable pub keyring_load : Platform → Tokens → Text → Option Text
  keyring_load p s key = if p.keyring_works then get key s.keyring_entries else none

  unfoldable pub load_session_token : Platform → Tokens → Text → Answer (Option StoredSessionToken)
  unfolding load_fallback keyring_load derive_key
  load_session_token p s server_addr =
      let key = derive_key server_addr in load_fallback p s key (keyring_load p s key)

  -- What a written file leaves.
  unfoldable pub write_fallback_file :
      Tokens → Text → Result Text Text → Result SessionTokenStore Text × Tokens
  write_fallback_file s token (err e) = (err e, s)
  write_fallback_file s token (ok path) = (ok file, record s { files = insert path token s.files })

  unfoldable pub save_session_token :
      Platform → Tokens → Text → Text → Result SessionTokenStore Text × Tokens
  unfolding write_fallback_file fallback_path derive_key
  save_session_token p s server_addr session_token =
      let key = derive_key server_addr in
      if is_empty (trim session_token)
      then (err empty_token, s)
      else if p.keyring_works
      then (ok keyring, record s { keyring_entries = insert key session_token s.keyring_entries })
      else write_fallback_file s session_token
          (do path ← fallback_path p key; attempt p.file_error path)

  unfoldable pub delete_fallback_file : Tokens → Result Text Text → Result (Unit {0}) Text × Tokens
  delete_fallback_file s (err e) = (err e, s)
  delete_fallback_file s (ok path) = (ok tt, record s { files = remove path s.files })

  unfoldable pub delete_session_token : Platform → Tokens → Text → Result (Unit {0}) Text × Tokens
  unfolding delete_fallback_file fallback_path derive_key
  delete_session_token p s server_addr =
      let key = derive_key server_addr in
      let left = if p.keyring_works then remove key s.keyring_entries else s.keyring_entries in
      delete_fallback_file (record s { keyring_entries = left })
        (do path ← fallback_path p key; attempt p.file_error path)
