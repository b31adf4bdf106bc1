-- ===== src/SessionToken/Examples.antt =====
-- A token for one server, with and without a keyring.
use light_discord.Common.{
  Bool, List, [], false, none, ok, refl, some, text, text_eq, trim, true, ℕ, ◌∷◌, ◌≡◌,
}
use light_discord.Common.Maps.{get, insert}
use light_discord.SessionToken.{
  Tokens, Platform, keyring, file, save_session_token, load_session_token, write_fallback_file,
  fallback_path, read_fallback_file, load_fallback, keyring_load, derive_key,
}
use light_discord.Auth.{hex, hex_byte}
use light_discord.SessionToken.Load.{save_session_token-load}

abbrev first_bytes : List ℕ → List ℕ
first_bytes bytes = 1 ∷ 2 ∷ []

abbrev platform : Bool → Platform
platform works = record { keyring_works = works; fallback_dir = ok (text "/c"); file_error = none }

abbrev no_tokens : Tokens
no_tokens = record { keyring_entries = []; files = [] }

abbrev old_token : Tokens
old_token = record { keyring_entries = (text "0102", text "old") ∷ []; files = [] }

saved_to_file :
    (save_session_token first_bytes (platform false) no_tokens (text "s") (text "t")).0 ≡ ok file
unfolding save_session_token write_fallback_file fallback_path derive_key hex hex_byte trim
saved_to_file = refl

save_session_token-load_example :
    load_session_token first_bytes
      (platform false)
      (save_session_token first_bytes (platform false) no_tokens (text "s") (text "t")).1
      (text "s")
    ≡ ok (some (record { token = text "t"; store = file }))
save_session_token-load_example =
    save_session_token-load first_bytes (platform false) no_tokens (text "s") (text "t") file
      saved_to_file

-- A token that is saved while the keyring fails is hidden by an older one when the keyring works
-- again.
hidden_by_older :
    load_session_token first_bytes
      (platform true)
      (save_session_token first_bytes (platform false) old_token (text "s") (text "new")).1
      (text "s")
    ≡ ok (some (record { token = text "old"; store = keyring }))
unfolding save_session_token load_session_token load_fallback keyring_load read_fallback_file
    write_fallback_file fallback_path derive_key hex hex_byte trim get insert text_eq
hidden_by_older = refl
