-- ===== src/SessionToken/Load.antt =====
-- What a load of a session token answers after a save or a deletion
-- (crates/light-discord-platform/src/session_token.rs).
use light_discord.Common.{
  Bool, List, Option, Result, Text, ap, ap₂, err, false, if-elim, if◌then◌else◌, is_empty, none, ok,
  refl, some, text, trim, true, ℕ, ◌++◌, ◌>>=◌, ◌∙◌, ◌≡◌,
}
use light_discord.Common.Maps.{Map, get, insert, remove, get-insert_self, get-remove_self}
use light_discord.SessionToken.{
  SessionTokenStore, keyring, file, StoredSessionToken, Tokens, Platform, Answer, optional_ok,
  attempt, empty_token,
}
use light_discord.SessionToken as Store

gone_from :
    (works : Bool) (key : Text) (entries : Map Text)
    → (if works then get key (if works then remove key entries else entries) else none) ≡ none
gone_from true key entries = get-remove_self key entries
gone_from false key entries = refl

module _ (sha256 : List ℕ → List ℕ) where
  ok-apart :
      (m : Text) (store : SessionTokenStore) (r : Result SessionTokenStore Text)
      → r ≡ err m
      → ¬ (r ≡ ok store)
  ok-apart m store r e h = absurd cc

  ok-injective :
      (a b : SessionTokenStore) (r : Result SessionTokenStore Text) → r ≡ ok a → r ≡ ok b → a ≡ b
  ok-injective a b r e h = cc

  unit-apart : (m : Text) (r : Result (Unit {0}) Text) → r ≡ err m → ¬ (r ≡ ok tt)
  unit-apart m r e h = absurd cc

  -- Both the path and the operation are there when the operation has gone through.
  attempted-ok :
      (dir : Result Text Text) (e : Option Text) (f : Text → Text) (x : Text)
      → (dir >>= (λ d. ok (f d)) >>= λ path. attempt e path) ≡ ok x
      → (dir >>= (λ d. ok (f d)) ≡ ok x) × (e ≡ none)
  attempted-ok (err m) e f x h = absurd cc
  attempted-ok (ok d) (some m) f x h = absurd cc
  attempted-ok (ok d) none f x h = (h, refl)

  abbrev stored : Text → SessionTokenStore → Answer (Option StoredSessionToken)
  stored token store = ok (some (record { token = token; store = store }))

  written-load :
      (p : Platform) (s : Tokens) (key token : Text) (r : Result Text Text)
      (store : SessionTokenStore)
      → (Store.fallback_path sha256 p key >>= λ path. attempt p.file_error path) ≡ r
      → (Store.write_fallback_file sha256 s token r).0 ≡ ok store
      → Store.load_fallback sha256 p (Store.write_fallback_file sha256 s token r).1 key none
        ≡ stored token store
  unfolding Store.write_fallback_file Store.load_fallback Store.fallback_path
      Store.read_fallback_file
  written-load p s key token (err m) store e h = absurd (ok-apart m store (err m) refl h)
  written-load p s key token (ok path) store e h =
      ap (λ r. r >>= λ q. Store.read_fallback_file sha256 p after q) went.0
      ∙ ap₂ (λ m found. attempt m found >>= optional_ok) went.1 (get-insert_self path token s.files)
      ∙ ap (stored token) (ok-injective file store (ok file) refl h)
    where
      after : Tokens
      after = record s { files = insert path token s.files }

      went : (Store.fallback_path sha256 p key ≡ ok path) × (p.file_error ≡ none)
      went =
          attempted-ok p.fallback_dir p.file_error (λ dir. dir ++ text "/" ++ key ++ text ".token")
            path e

  keyring_load-works :
      (p : Platform) (s : Tokens) (key : Text)
      → p.keyring_works ≡ true
      → Store.keyring_load sha256 p s key ≡ get key s.keyring_entries
  unfolding Store.keyring_load
  keyring_load-works p s key e = ap (λ b. if b then get key s.keyring_entries else none) e

  keyring_load-fails :
      (p : Platform) (s : Tokens) (key : Text)
      → p.keyring_works ≡ false
      → Store.keyring_load sha256 p s key ≡ none
  unfolding Store.keyring_load
  keyring_load-fails p s key e = ap (λ b. if b then get key s.keyring_entries else none) e

  abbrev Loads :
      Platform → Text → Text → SessionTokenStore → Result SessionTokenStore Text × Tokens → Type 0
  Loads p key token store r =
      r.0 ≡ ok store
      → Store.load_fallback sha256 p r.1 key (Store.keyring_load sha256 p r.1 key)
        ≡ stored token store

  kept-Loads :
      (p : Platform) (s : Tokens) (key token : Text) (store : SessionTokenStore)
      → p.keyring_works ≡ true
      → Loads p key token store
          (ok keyring, record s { keyring_entries = insert key token s.keyring_entries })
  unfolding Store.load_fallback
  kept-Loads p s key token store works h =
      ap (Store.load_fallback sha256 p after key)
        (keyring_load-works p after key works ∙ get-insert_self key token s.keyring_entries)
      ∙ ap (stored token) (ok-injective keyring store (ok keyring) refl h)
    where
      after : Tokens
      after = record s { keyring_entries = insert key token s.keyring_entries }

  written-Loads :
      (p : Platform) (s : Tokens) (key token : Text) (store : SessionTokenStore)
      → p.keyring_works ≡ false
      → Loads p key token store (
          Store.write_fallback_file sha256 s token
            (Store.fallback_path sha256 p key >>= λ path. attempt p.file_error path))
  written-Loads p s key token store fails h =
      ap (Store.load_fallback sha256 p after key) (keyring_load-fails p after key fails)
      ∙ written-load p s key token outcome store refl h
    where
      outcome : Result Text Text
      outcome = Store.fallback_path sha256 p key >>= λ path. attempt p.file_error path

      after : Tokens
      after = (Store.write_fallback_file sha256 s token outcome).1

  -- The token that has been saved for a server is the one that is loaded for it, from the store
  -- that it was saved to, while the keyring and the files work as they did.
  pub save_session_token-load :
      (p : Platform) (s : Tokens) (server_addr token : Text) (store : SessionTokenStore)
      → (Store.save_session_token sha256 p s server_addr token).0 ≡ ok store
      → Store.load_session_token sha256 p
          (Store.save_session_token sha256 p s server_addr token).1
          server_addr
        ≡ ok (some (record { token = token; store = store }))
  unfolding Store.save_session_token Store.load_session_token
  save_session_token-load p s server_addr token store =
      if-elim (Loads p (Store.derive_key sha256 server_addr) token store) (is_empty (trim token))
        (λ _ h. absurd (ok-apart empty_token store (err empty_token) refl h))
        (λ _.
          if-elim (Loads p (Store.derive_key sha256 server_addr) token store) p.keyring_works
            (kept-Loads p s (Store.derive_key sha256 server_addr) token store)
            (written-Loads p s (Store.derive_key sha256 server_addr) token store))

  deleted-load :
      (p : Platform) (s : Tokens) (key : Text) (r : Result Text Text)
      → (Store.fallback_path sha256 p key >>= λ path. attempt p.file_error path) ≡ r
      → Store.keyring_load sha256 p s key ≡ none
      → (Store.delete_fallback_file sha256 s r).0 ≡ ok tt
      → Store.load_fallback sha256 p
          (Store.delete_fallback_file sha256 s r).1
          key
          (Store.keyring_load sha256 p (Store.delete_fallback_file sha256 s r).1 key)
        ≡ ok none
  unfolding Store.delete_fallback_file Store.load_fallback Store.fallback_path
      Store.read_fallback_file Store.keyring_load
  deleted-load p s key (err m) e gone h = absurd (unit-apart m (err m) refl h)
  deleted-load p s key (ok path) e gone h =
      ap (Store.load_fallback sha256 p after key) gone
      ∙ ap (λ r. r >>= λ q. Store.read_fallback_file sha256 p after q) went.0
      ∙ ap₂ (λ m found. attempt m found >>= optional_ok) went.1 (get-remove_self path s.files)
    where
      after : Tokens
      after = record s { files = remove path s.files }

      went : (Store.fallback_path sha256 p key ≡ ok path) × (p.file_error ≡ none)
      went =
          attempted-ok p.fallback_dir p.file_error (λ dir. dir ++ text "/" ++ key ++ text ".token")
            path e

  -- After a deletion that goes through no token is loaded for the server, while the keyring and the
  -- files work as they did.
  pub delete_session_token-load :
      (p : Platform) (s : Tokens) (server_addr : Text)
      → (Store.delete_session_token sha256 p s server_addr).0 ≡ ok tt
      → Store.load_session_token sha256 p
          (Store.delete_session_token sha256 p s server_addr).1
          server_addr
        ≡ ok none
  unfolding Store.delete_session_token Store.load_session_token Store.keyring_load
  delete_session_token-load p s server_addr =
      deleted-load p left (Store.derive_key sha256 server_addr) _ refl
        (gone_from p.keyring_works (Store.derive_key sha256 server_addr) s.keyring_entries)
    where
      left : Tokens
      left = record s {
        keyring_entries =
            if p.keyring_works
            then remove (Store.derive_key sha256 server_addr) s.keyring_entries
            else s.keyring_entries;
      }
