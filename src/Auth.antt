-- ===== src/Auth.antt =====
-- crates/light-discord-auth/src/lib.rs. The hash functions are parameters: SHA-256, and Argon2 with
-- the salt that a call draws.
use light_discord.Common.{
  Bool, List, Option, Result, Text, [], false, if◌then◌else◌, ltb, none, some, text, ℕ, ◌%◌, ◌++◌,
  ◌+◌, ◌-◌, ◌/◌, ◌∷◌,
}
use light_discord.Wire.Utf8.{as_bytes}

pub record Hashes : Type 0 where
  pub sha256 : List ℕ → List ℕ
  pub argon2_hash : Text → Result Text Text
  pub parse_hash : Text → Option Text
  pub argon2_verify : Text → Text → Bool

unfoldable pub hash_password : Hashes → Text → Result Text Text
hash_password h password = h.argon2_hash password

unfoldable pub verify_parsed : Hashes → Text → Option Text → Bool
verify_parsed h password none = false
verify_parsed h password (some parsed) = h.argon2_verify password parsed

unfoldable pub verify_password : Hashes → Text → Text → Bool
unfolding verify_parsed
verify_password h password password_hash = verify_parsed h password (h.parse_hash password_hash)

-- `id` is the text of `Uuid::new_v4().simple()`.
unfoldable pub new_invite_code : Text → Text
new_invite_code id = text "invite_" ++ id

unfoldable pub new_session_token : Text → Text
new_session_token id = text "session_" ++ id

hex_digit : ℕ → ℕ
hex_digit d = if ltb d 10 then b'0' + d else b'a' + (d - 10)

-- `{byte:02x}`
unfoldable pub hex_byte : ℕ → Text
unfolding hex_digit
hex_byte b = hex_digit (b / 16) ∷ hex_digit (b % 16) ∷ []

unfoldable pub hex : List ℕ → Text
unfolding hex_byte
hex [] = []
hex (b ∷ bs) = hex_byte b ++ hex bs

unfoldable pub hash_token : Hashes → Text → Text
unfolding hex
hash_token h token = hex (h.sha256 (as_bytes token))
