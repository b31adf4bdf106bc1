-- ===== src/Storage/Postgres/Runs.antt =====
-- What the users' table keeps over the calls of `PostgresStorage`
-- (crates/light-discord-storage/src/lib.rs).
use light_discord.Common.{
  Bool, List, Option, Result, Text, [], ap, arith, err, false, if-elim, is_empty, is_some, keep,
  none, not, ok, refl, some, subst, sym, text_eq, text_eq_refl, true, ℕ, ◌&&◌, ◌||◌, ◌∷◌, ◌≡◌,
}
use light_discord.Common.Maps.{Map, get, contains, contains_key}
use light_discord.Protocol.{ChatMessage}
use light_discord.Storage.Types.{
  Account, CreateAccountResult, created, display_name_taken, invalid_invite,
}
use light_discord.Storage.Postgres.{
  UserRow, MessageRow, Tables, migrated, named, create_invite, consume, is_open, insert_account,
  create_unless_found, create_user_with_password_hash, create_user_with_invite,
  find_user_by_display_name,
}
use light_discord.Storage.Postgres.Sessions.{
  promote_row, bootstrap_created, bootstrap_found, ensure_bootstrap_admin, is_name_of_other,
  ephemeral_row, register_ephemeral_user, session_for, find_user_by_id, session_user,
  create_session, validated, validate_session,
}
use light_discord.Storage.Postgres.Messages.{
  save_message, soft_delete_message, delete_found, delete_row, log_deletion, is_logged,
  purge_expired,
}
use light_discord.Storage.Postgres.Calls.{
  Call, bootstrap, invite, with_password, with_invite, ephemeral, session, validate, save,
  soft_delete, purge, step, run,
}
use light_discord.Storage.Postgres.Unique.{
  IsUnique, others, insert-IsUnique, others-own, find_user_by_display_name-ok,
}

is_empty→nil {ℓ} : {A : Type ℓ} (xs : List A) → is_empty xs ≡ true → xs ≡ []
is_empty→nil [] h = refl
is_empty→nil (x ∷ xs) h = absurd cc

module _ (lower : Text → Text) where
  abbrev Keeps {ℓ} : {A : Type ℓ} → A × Tables → Type 0
  Keeps r = IsUnique lower r.1.users

  insert_account-Keeps :
      (now : ℕ) (id : Text) (s : Tables) (name hash : Text) (admin : Bool)
      → IsUnique lower s.users
      → Keeps (insert_account lower now id s name hash admin)
  unfolding insert_account
  insert_account-Keeps now id s name hash admin u =
      if-elim Keeps (contains_key id s.users || not (is_empty (named lower name s.users))) (λ _. u)
        (λ new.
          insert-IsUnique lower id _ s.users
            (ap (keep λ e. not (text_eq e.0 id))
              (is_empty→nil (named lower name s.users) (ground (arith, new))))
            u)

  create_unless_found-Keeps :
      (now : ℕ) (id : Text) (s : Tables) (name hash : Text) (admin : Bool)
      (found : Result (Option Account) Text)
      → IsUnique lower s.users
      → Keeps (create_unless_found lower now id s name hash admin found)
  unfolding create_unless_found
  create_unless_found-Keeps now id s name hash admin (err e) u = u
  create_unless_found-Keeps now id s name hash admin (ok (some a)) u = u
  create_unless_found-Keeps now id s name hash admin (ok none) u =
      insert_account-Keeps now id s name hash admin u

  create_user_with_password_hash-Keeps :
      (now : ℕ) (id : Text) (s : Tables) (name hash : Text) (admin : Bool)
      → IsUnique lower s.users
      → Keeps (create_user_with_password_hash lower now id s name hash admin)
  unfolding create_user_with_password_hash
  create_user_with_password_hash-Keeps now id s name hash admin u =
      create_unless_found-Keeps now id s name hash admin (find_user_by_display_name lower s name) u

  consume-Keeps :
      (now : ℕ) (code : Text) (r : Result CreateAccountResult Text × Tables)
      → Keeps r
      → Keeps (consume now code r)
  unfolding consume
  consume-Keeps now code (err e, s) u = u
  consume-Keeps now code (ok display_name_taken, s) u = u
  consume-Keeps now code (ok invalid_invite, s) u = u
  consume-Keeps now code (ok (created a), s) u = u

  create_user_with_invite-Keeps :
      (now : ℕ) (id : Text) (s : Tables) (name hash code : Text)
      → IsUnique lower s.users
      → Keeps (create_user_with_invite lower now id s name hash code)
  unfolding create_user_with_invite
  create_user_with_invite-Keeps now id s name hash code u =
      if-elim Keeps (not (is_open (get code s.invite_codes))) (λ _. u)
        (λ _.
          consume-Keeps now code (create_user_with_password_hash lower now id s name hash false)
            (create_user_with_password_hash-Keeps now id s name hash false u))

  promote_row-IsUnique :
      (id hash : Text) (users : Map UserRow) (o : Option UserRow)
      → get id users ≡ o
      → IsUnique lower users
      → IsUnique lower (promote_row id hash o users)
  unfolding promote_row
  promote_row-IsUnique id hash users none e u = u
  promote_row-IsUnique id hash users (some row) e u =
      insert-IsUnique lower id _ users
        (others-own lower id row.display_name row users u e (text_eq_refl (lower row.display_name)))
        u

  bootstrap_created-Keeps :
      (r : Result CreateAccountResult Text × Tables) → Keeps r → Keeps (bootstrap_created r)
  unfolding bootstrap_created
  bootstrap_created-Keeps (err e, s) u = u
  bootstrap_created-Keeps (ok display_name_taken, s) u = u
  bootstrap_created-Keeps (ok invalid_invite, s) u = u
  bootstrap_created-Keeps (ok (created a), s) u = u

  bootstrap_found-Keeps :
      (now : ℕ) (id : Text) (s : Tables) (name hash : Text) (found : Result (Option Account) Text)
      → IsUnique lower s.users
      → Keeps (bootstrap_found lower now id s name hash found)
  unfolding bootstrap_found
  bootstrap_found-Keeps now id s name hash (err e) u = u
  bootstrap_found-Keeps now id s name hash (ok none) u =
      bootstrap_created-Keeps (create_user_with_password_hash lower now id s name hash true)
        (create_user_with_password_hash-Keeps now id s name hash true u)
  bootstrap_found-Keeps now id s name hash (ok (some a)) u =
      promote_row-IsUnique a.user_id hash s.users (get a.user_id s.users) refl u

  ephemeral_row-display_name :
      (now : ℕ) (name : Text) (o : Option UserRow)
      → (ephemeral_row lower now name o).display_name ≡ name
  unfolding ephemeral_row
  ephemeral_row-display_name now name none = refl
  ephemeral_row-display_name now name (some row) = refl

  register_ephemeral_user-Keeps :
      (now : ℕ) (s : Tables) (id name : Text)
      → IsUnique lower s.users
      → Keeps (register_ephemeral_user lower now s id name)
  unfolding register_ephemeral_user is_name_of_other
  register_ephemeral_user-Keeps now s id name u =
      if-elim Keeps (not (is_empty (others lower id name s.users))) (λ _. u)
        (λ free.
          insert-IsUnique lower id (ephemeral_row lower now name (get id s.users)) s.users
            (subst (λ n. others lower id n s.users ≡ [])
              (sym (ephemeral_row-display_name now name (get id s.users)))
              (is_empty→nil (others lower id name s.users) (ground (arith, free))))
            u)

  abbrev SameUsers {ℓ} : {A : Type ℓ} → Tables → A × Tables → Type 0
  SameUsers s r = r.1.users ≡ s.users

  create_invite-users :
      (now : ℕ) (s : Tables) (code : Text) (creator : Option Text) (note : Text)
      → (create_invite now s code creator note).1.users ≡ s.users
  unfolding create_invite
  create_invite-users now s code creator note =
      if-elim (SameUsers s) (contains_key code s.invite_codes) (λ _. refl) (λ _. refl)

  session_for-users :
      (now : ℕ) (s : Tables) (token : Text) (found : Option Account)
      → (session_for now s token found).1.users ≡ s.users
  unfolding session_for
  session_for-users now s token none = refl
  session_for-users now s token (some a) =
      if-elim (SameUsers s) (contains_key token s.sessions) (λ _. refl) (λ _. refl)

  validated-users :
      (now : ℕ) (s : Tables) (token : Text) (found : Option Account)
      → (validated now s token found).1.users ≡ s.users
  unfolding validated
  validated-users now s token none = refl
  validated-users now s token (some a) = refl

  save_message-users : (s : Tables) (m : ChatMessage) → (save_message s m).1.users ≡ s.users
  unfolding save_message
  save_message-users s m =
      if-elim (SameUsers s) (contains_key m.id s.messages || not (contains m.channel_id s.channels))
        (λ _. refl) (λ _. refl)

  delete_found-users :
      (now : ℕ) (id : Text) (s : Tables) (message actor : Text) (admin : Bool)
      (o : Option MessageRow)
      → (delete_found now id s message actor admin o).1.users ≡ s.users
  unfolding delete_found delete_row log_deletion
  delete_found-users now id s message actor admin none = refl
  delete_found-users now id s message actor admin (some row) =
      if-elim (SameUsers s) (is_some row.deleted_at_unix_ms) (λ _. refl)
        (λ _.
          if-elim (SameUsers s) (not (text_eq row.user_id actor) && not admin) (λ _. refl)
            (λ _. if-elim (SameUsers s) (is_logged id s.audit_log) (λ _. refl) (λ _. refl)))

  kept :
      (s after : Tables)
      → after.users ≡ s.users
      → IsUnique lower s.users
      → IsUnique lower after.users
  kept s after e u = subst (IsUnique lower) (sym e) u

  pub step-IsUnique :
      (s : Tables) (c : Call) → IsUnique lower s.users → IsUnique lower (step lower s c).users
  unfolding step ensure_bootstrap_admin create_session validate_session soft_delete_message
      purge_expired
  step-IsUnique s (bootstrap now id name hash) u =
      bootstrap_found-Keeps now id s name hash (find_user_by_display_name lower s name) u
  step-IsUnique s (invite now code creator note) u =
      kept s (step lower s (invite now code creator note))
        (create_invite-users now s code creator note) u
  step-IsUnique s (with_password now id name hash admin) u =
      create_user_with_password_hash-Keeps now id s name hash admin u
  step-IsUnique s (with_invite now id name hash code) u =
      create_user_with_invite-Keeps now id s name hash code u
  step-IsUnique s (ephemeral now id name) u = register_ephemeral_user-Keeps now s id name u
  step-IsUnique s (session now token id) u =
      kept s (step lower s (session now token id))
        (session_for-users now s token (find_user_by_id s id)) u
  step-IsUnique s (validate now token) u =
      kept s (step lower s (validate now token))
        (validated-users now s token (session_user s (get token s.sessions))) u
  step-IsUnique s (save m) u = kept s (step lower s (save m)) (save_message-users s m) u
  step-IsUnique s (soft_delete now id message actor admin) u =
      kept s (step lower s (soft_delete now id message actor admin))
        (delete_found-users now id s message actor admin (get message s.messages)) u
  step-IsUnique s (purge now policy) u = u

  run-IsUnique :
      (s : Tables) (cs : List Call) → IsUnique lower s.users → IsUnique lower (run lower s cs).users
  unfolding run
  run-IsUnique s [] u = u
  run-IsUnique s (c ∷ cs) u = run-IsUnique (step lower s c) cs (step-IsUnique s c u)

  -- After any calls on a new database no two users have names that the index takes for one, and a
  -- lookup of any name ends without an error.
  pub run-Finds :
      (cs : List Call) (name : Text)
      → IsUnique lower (run lower migrated cs).users
        × ((found : Option Account) × (find_user_by_display_name lower (run lower migrated cs) name
              ≡ ok found))
  run-Finds cs name = (
    run-IsUnique migrated cs tt,
    find_user_by_display_name-ok lower (run lower migrated cs) name (run-IsUnique migrated cs tt),
  )
