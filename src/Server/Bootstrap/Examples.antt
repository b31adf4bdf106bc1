-- ===== src/Server/Bootstrap/Examples.antt =====
-- A bootstrap of an empty store.
use light_discord.Common.{
  Result, Text, false, is_empty, none, ok, refl, some, text, text_eq, text_eq_iff,
  to_ascii_lowercase, trim, true, ◌≡◌,
}
use light_discord.Protocol.{login}
use light_discord.Wire.Utf8.{as_bytes, encode_char}
use light_discord.Auth.{Hashes, hash_password, verify_password, verify_parsed}
use light_discord.Storage.Types.{RetentionPolicy, display_name_key}
use light_discord.Storage.Memory.{empty_inner, ensure_bootstrap_admin}
use light_discord.Storage.Interface.{memory_storage}
use light_discord.Server.Chat.{Draws}
use light_discord.Server.Login.{authenticate_first_frame, validate_password, normalize_display_name}
use light_discord.Server.Login.Registered.{Answers}
use light_discord.Server.Bootstrap.{BootstrapEnv, bootstrap_auth, bootstrap-login}

abbrev week : RetentionPolicy
week = record { visible_history_days = 7; audit_log_days = 7 }

abbrev bare : Hashes
bare = record {
  sha256 = λ bytes. bytes;
  argon2_hash = λ password. ok password;
  parse_hash = λ hash. some hash;
  argon2_verify = λ password hash. text_eq password hash;
}

ok_text : (a b : Text) → ◌≡◌ {A = Result Text Text} (ok a) (ok b) → a ≡ b
ok_text a b e = cc

bare_verifies : (p h : Text) → hash_password bare p ≡ ok h → verify_password bare p h ≡ true
unfolding hash_password verify_password verify_parsed
bare_verifies p h e = (text_eq_iff p h).1 (ok_text p h e)

abbrev once : Draws
once = record {
  now = 5;
  stored_now = 5;
  id = text "x";
  stored_id = text "root";
  secret = text "s1";
}

abbrev configured : BootstrapEnv
configured = record {
  admin_password = some (text "correct horse");
  admin_name = none;
  invite_code = none;
}

not_blank : is_empty (trim (text "correct horse")) ≡ false
unfolding trim
not_blank = refl

bootstrapped : (bootstrap_auth (memory_storage week) bare once configured empty_inner).0 ≡ ok tt
unfolding bootstrap_auth validate_password as_bytes encode_char hash_password trim
    ensure_bootstrap_admin
bootstrapped = refl

spelled : display_name_key (text "Admin") ≡ display_name_key (normalize_display_name (text "admin"))
unfolding normalize_display_name trim display_name_key to_ascii_lowercase
spelled = refl

bootstrap-login_example :
    (id : Text) × Answers week bare once id true
      (authenticate_first_frame
        (memory_storage week)
        bare
        once
        false
        (bootstrap_auth (memory_storage week) bare once configured empty_inner).1
        (login (text "Admin") (text "correct horse"))).0
bootstrap-login_example =
    bootstrap-login week bare once empty_inner once false configured (text "correct horse")
      (text "Admin") bare_verifies refl not_blank bootstrapped spelled
