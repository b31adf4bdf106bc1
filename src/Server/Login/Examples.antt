-- ===== src/Server/Login/Examples.antt =====
-- A registration with an invitation and logins afterwards, with hash functions that keep their input.
use light_discord.Common.{
  Result, Text, [], false, ok, refl, some, text, text_eq, text_eq_iff, text_eq_refl,
  to_ascii_lowercase, trim, true, ◌∷◌, ◌≡◌,
}
use light_discord.Common.Maps.{get, insert}
use light_discord.Protocol.{register, login}
use light_discord.Wire.Utf8.{as_bytes, encode_char}
use light_discord.Auth.{Hashes, hash_password, verify_password, verify_parsed, hash_token}
use light_discord.Storage.Types.{RetentionPolicy, display_name_key}
use light_discord.Storage.Memory.{
  MemoryInner, StoredUser, empty_inner, is_open, create_session, create_invite,
  create_user_with_invite,
}
use light_discord.Storage.Interface.{memory_storage}
use light_discord.Server.Chat.{Draws}
use light_discord.Server.Login.{
  validate_password, normalize_display_name, AuthenticatedUser, authenticate_first_frame,
}
use light_discord.Server.Login.Registered.{IsStored, Answers, register-login}

abbrev month : RetentionPolicy
month = record { visible_history_days = 30; audit_log_days = 30 }

abbrev kept : Hashes
kept = record {
  sha256 = λ bytes. bytes;
  argon2_hash = λ password. ok password;
  parse_hash = λ hash. some hash;
  argon2_verify = λ password hash. text_eq password hash;
}

ok-text : (a b : Text) → ◌≡◌ {A = Result Text Text} (ok a) (ok b) → a ≡ b
ok-text a b e = cc

kept_verifies : (p h : Text) → hash_password kept p ≡ ok h → verify_password kept p h ≡ true
unfolding hash_password verify_password verify_parsed
kept_verifies p h e = (text_eq_iff p h).1 (ok-text p h e)

abbrev first : Draws
first = record {
  now = 5;
  stored_now = 5;
  id = text "x";
  stored_id = text "ann";
  secret = text "s1";
}

abbrev second : Draws
second = record first { secret = text "s2" }

abbrev invited : MemoryInner
invited = create_invite empty_inner (hash_token kept (text "code"))

register_run :
    (a : AuthenticatedUser) × ((authenticate_first_frame
        (memory_storage month)
        kept
        first
        false
        invited
        (register (text "code") (text " Ann") (text "longenough"))).0
      ≡ ok a)
unfolding authenticate_first_frame validate_password create_user_with_invite create_invite
    create_session get insert text_eq trim as_bytes encode_char hash_password hash_token
    normalize_display_name display_name_key is_open
register_run = (_, refl)

spelled : display_name_key (text "ANN") ≡ display_name_key (normalize_display_name (text " Ann"))
unfolding normalize_display_name trim display_name_key to_ascii_lowercase
spelled = refl

register-login_example :
    Answers month kept second
      (text "ann")
      false
      (authenticate_first_frame
        (memory_storage month)
        kept
        second
        false
        (authenticate_first_frame
          (memory_storage month)
          kept
          first
          false
          invited
          (register (text "code") (text " Ann") (text "longenough"))).1
        (login (text "ANN") (text "longenough"))).0
register-login_example =
    register-login month kept first second false invited (text "code") (text " Ann")
      (text "longenough") (text "ANN") register_run.0 kept_verifies register_run.1 spelled

abbrev bob : StoredUser
bob = record { display_name = text "Bob"; password_hash = some (text "hunter22"); is_admin = true }

abbrev with_bob : MemoryInner
with_bob = record empty_inner {
  users = (text "b1", bob) ∷ [];
  display_name_index = (text "bob", text "b1") ∷ [];
}

bob-IsStored : IsStored (display_name_key (text "BOB ")) (text "b1") bob with_bob
unfolding get text_eq display_name_key to_ascii_lowercase trim
bob-IsStored = (refl, refl)

bob_verifies : verify_password kept (text "hunter22") (text "hunter22") ≡ true
unfolding verify_password verify_parsed
bob_verifies = text_eq_refl (text "hunter22")
