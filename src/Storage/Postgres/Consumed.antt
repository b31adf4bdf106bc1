-- ===== src/Storage/Postgres/Consumed.antt =====
-- Consumed invitations in the tables of `PostgresStorage` (crates/light-discord-storage/src/lib.rs).
use light_discord.Common.{
  Bool, List, Option, Result, Text, [], arith, err, false, if-elim, is_empty, is_some, none, not,
  ok, refl, some, subst, sym, text_eq, text_eq_iff, text_eq_refl, true, ℕ, ◌&&◌, ◌||◌, ◌∷◌, ◌≡◌,
}
use light_discord.Common.Maps.{Map, get, get-insert, contains, contains_key}
use light_discord.Protocol.{ChatMessage}
use light_discord.Storage.Types.{
  Account, CreateAccountResult, created, display_name_taken, invalid_invite,
}
use light_discord.Storage.Postgres.{
  InviteRow, MessageRow, Tables, named, create_invite, consume_row, consume, is_open,
  insert_account, create_unless_found, create_user_with_password_hash, create_user_with_invite,
  find_user_by_display_name,
}
use light_discord.Storage.Postgres.Sessions.{
  bootstrap_created, bootstrap_found, ensure_bootstrap_admin, is_name_of_other,
  register_ephemeral_user, session_for, find_user_by_id, session_user, create_session, validated,
  validate_session,
}
use light_discord.Storage.Postgres.Messages.{
  save_message, soft_delete_message, delete_found, delete_row, log_deletion, is_logged,
  purge_expired,
}
use light_discord.Storage.Postgres.Calls.{
  Call, bootstrap, invite, with_password, with_invite, ephemeral, session, validate, save,
  soft_delete, purge, step, run,
}

-- The code's invitation is there and has been consumed.
abbrev pub is_consumed : Option InviteRow → Bool
is_consumed none = false
is_consumed (some row) = is_some row.consumed_at_unix_ms

abbrev pub IsConsumed : Text → Map InviteRow → Type 0
IsConsumed code invites = is_consumed (get code invites) ≡ true

consume_row-IsConsumed :
    (now : ℕ) (code other user_id : Text) (invites : Map InviteRow) (o : Option InviteRow)
    → IsConsumed code invites
    → IsConsumed code (consume_row now other user_id o invites)
unfolding consume_row
consume_row-IsConsumed now code other user_id invites none h = h
consume_row-IsConsumed now code other user_id invites (some row) h =
    if-elim (IsConsumed code) (is_some row.consumed_at_unix_ms) (λ _. h)
      (λ _.
        subst (λ r. is_consumed r ≡ true) (sym (get-insert other code _ invites))
          (ground (arith, h)))

-- The row that is updated has been consumed then.
pub consume_row_self :
    (now : ℕ) (code user_id : Text) (invites : Map InviteRow) (o : Option InviteRow)
    → get code invites ≡ o
    → is_open o ≡ true
    → IsConsumed code (consume_row now code user_id o invites)
unfolding consume_row is_open
consume_row_self now code user_id invites none e h = absurd (ground (arith, h))
consume_row_self now code user_id invites (some row) e h =
    if-elim (IsConsumed code) (is_some row.consumed_at_unix_ms) (λ c. absurd (ground (arith, h)))
      (λ _.
        subst (λ r. is_consumed r ≡ true) (sym (get-insert code code _ invites))
          (ground (arith, text_eq_refl code)))

consumed-present : (o : Option InviteRow) → is_some o ≡ false → is_consumed o ≡ true → ⊥
consumed-present none e h = cc
consumed-present (some row) e h = cc

abbrev SameInvites {ℓ} : {A : Type ℓ} → Tables → A × Tables → Type 0
SameInvites s r = r.1.invite_codes ≡ s.invite_codes

pub create_unless_found-invites :
    (lower : Text → Text) (now : ℕ) (id : Text) (s : Tables) (name hash : Text) (admin : Bool)
    (found : Result (Option Account) Text)
    → (create_unless_found lower now id s name hash admin found).1.invite_codes ≡ s.invite_codes
unfolding create_unless_found insert_account
create_unless_found-invites lower now id s name hash admin (err e) = refl
create_unless_found-invites lower now id s name hash admin (ok (some a)) = refl
create_unless_found-invites lower now id s name hash admin (ok none) =
    if-elim (SameInvites s) (contains_key id s.users || not (is_empty (named lower name s.users)))
      (λ _. refl) (λ _. refl)

module _ (code : Text) where
  abbrev Stays {ℓ} : {A : Type ℓ} → A × Tables → Type 0
  Stays r = IsConsumed code r.1.invite_codes

  create_invite-Stays :
      (now : ℕ) (s : Tables) (new : Text) (creator : Option Text) (note : Text)
      → IsConsumed code s.invite_codes
      → Stays (create_invite now s new creator note)
  unfolding create_invite
  create_invite-Stays now s new creator note h =
      if-elim Stays (contains_key new s.invite_codes) (λ _. h)
        (λ absent.
          subst (λ r. is_consumed r ≡ true) (sym (get-insert new code _ s.invite_codes))
            (if-elim (λ r. is_consumed r ≡ true) (text_eq new code)
              (λ same. absurd (
                consumed-present (get code s.invite_codes)
                  (subst (λ c. is_some (get c s.invite_codes) ≡ false)
                    ((text_eq_iff new code).0 same) absent)
                  h))
              (λ _. h)))

  consume-Stays :
      (now : ℕ) (other : Text) (r : Result CreateAccountResult Text × Tables)
      → Stays r
      → Stays (consume now other r)
  unfolding consume
  consume-Stays now other (err e, s) h = h
  consume-Stays now other (ok display_name_taken, s) h = h
  consume-Stays now other (ok invalid_invite, s) h = h
  consume-Stays now other (ok (created a), s) h =
      consume_row-IsConsumed now code other a.user_id s.invite_codes (get other s.invite_codes) h

  session_for-Stays :
      (now : ℕ) (s : Tables) (token : Text) (found : Option Account)
      → IsConsumed code s.invite_codes
      → Stays (session_for now s token found)
  unfolding session_for
  session_for-Stays now s token none h = h
  session_for-Stays now s token (some a) h =
      if-elim Stays (contains_key token s.sessions) (λ _. h) (λ _. h)

  validated-Stays :
      (now : ℕ) (s : Tables) (token : Text) (found : Option Account)
      → IsConsumed code s.invite_codes
      → Stays (validated now s token found)
  unfolding validated
  validated-Stays now s token none h = h
  validated-Stays now s token (some a) h = h

  save_message-Stays :
      (s : Tables) (m : ChatMessage) → IsConsumed code s.invite_codes → Stays (save_message s m)
  unfolding save_message
  save_message-Stays s m h =
      if-elim Stays (contains_key m.id s.messages || not (contains m.channel_id s.channels))
        (λ _. h) (λ _. h)

  delete_found-Stays :
      (now : ℕ) (id : Text) (s : Tables) (message actor : Text) (admin : Bool)
      (o : Option MessageRow)
      → IsConsumed code s.invite_codes
      → Stays (delete_found now id s message actor admin o)
  unfolding delete_found delete_row log_deletion
  delete_found-Stays now id s message actor admin none h = h
  delete_found-Stays now id s message actor admin (some row) h =
      if-elim Stays (is_some row.deleted_at_unix_ms) (λ _. h)
        (λ _.
          if-elim Stays (not (text_eq row.user_id actor) && not admin) (λ _. h)
            (λ _. if-elim Stays (is_logged id s.audit_log) (λ _. h) (λ _. h)))

  module _ (lower : Text → Text) where
    create_unless_found-Stays :
        (now : ℕ) (id : Text) (s : Tables) (name hash : Text) (admin : Bool)
        (found : Result (Option Account) Text)
        → IsConsumed code s.invite_codes
        → Stays (create_unless_found lower now id s name hash admin found)
    create_unless_found-Stays now id s name hash admin found h =
        subst (IsConsumed code)
          (sym (create_unless_found-invites lower now id s name hash admin found)) h

    create_user_with_invite-Stays :
        (now : ℕ) (id : Text) (s : Tables) (name hash other : Text)
        → IsConsumed code s.invite_codes
        → Stays (create_user_with_invite lower now id s name hash other)
    unfolding create_user_with_invite create_user_with_password_hash
    create_user_with_invite-Stays now id s name hash other h =
        if-elim Stays (not (is_open (get other s.invite_codes))) (λ _. h)
          (λ _.
            consume-Stays now other
              (create_unless_found lower now id s name hash false
                (find_user_by_display_name lower s name))
              (create_unless_found-Stays now id s name hash false
                (find_user_by_display_name lower s name) h))

    bootstrap_created-Stays :
        (r : Result CreateAccountResult Text × Tables) → Stays r → Stays (bootstrap_created r)
    unfolding bootstrap_created
    bootstrap_created-Stays (err e, s) h = h
    bootstrap_created-Stays (ok display_name_taken, s) h = h
    bootstrap_created-Stays (ok invalid_invite, s) h = h
    bootstrap_created-Stays (ok (created a), s) h = h

    bootstrap_found-Stays :
        (now : ℕ) (id : Text) (s : Tables) (name hash : Text) (found : Result (Option Account) Text)
        → IsConsumed code s.invite_codes
        → Stays (bootstrap_found lower now id s name hash found)
    unfolding bootstrap_found create_user_with_password_hash
    bootstrap_found-Stays now id s name hash (err e) h = h
    bootstrap_found-Stays now id s name hash (ok none) h =
        bootstrap_created-Stays
          (create_unless_found lower now id s name hash true
            (find_user_by_display_name lower s name))
          (create_unless_found-Stays now id s name hash true
            (find_user_by_display_name lower s name) h)
    bootstrap_found-Stays now id s name hash (ok (some a)) h = h

    register_ephemeral_user-Stays :
        (now : ℕ) (s : Tables) (id name : Text)
        → IsConsumed code s.invite_codes
        → Stays (register_ephemeral_user lower now s id name)
    unfolding register_ephemeral_user
    register_ephemeral_user-Stays now s id name h =
        if-elim Stays (is_name_of_other lower id name s.users) (λ _. h) (λ _. h)

    step-IsConsumed :
        (s : Tables) (c : Call)
        → IsConsumed code s.invite_codes
        → IsConsumed code (step lower s c).invite_codes
    unfolding step ensure_bootstrap_admin create_user_with_password_hash create_session
        validate_session soft_delete_message purge_expired
    step-IsConsumed s (bootstrap now id name hash) h =
        bootstrap_found-Stays now id s name hash (find_user_by_display_name lower s name) h
    step-IsConsumed s (invite now new creator note) h = create_invite-Stays now s new creator note h
    step-IsConsumed s (with_password now id name hash admin) h =
        create_unless_found-Stays now id s name hash admin (find_user_by_display_name lower s name)
          h
    step-IsConsumed s (with_invite now id name hash other) h =
        create_user_with_invite-Stays now id s name hash other h
    step-IsConsumed s (ephemeral now id name) h = register_ephemeral_user-Stays now s id name h
    step-IsConsumed s (session now token id) h =
        session_for-Stays now s token (find_user_by_id s id) h
    step-IsConsumed s (validate now token) h =
        validated-Stays now s token (session_user s (get token s.sessions)) h
    step-IsConsumed s (save m) h = save_message-Stays s m h
    step-IsConsumed s (soft_delete now id message actor admin) h =
        delete_found-Stays now id s message actor admin (get message s.messages) h
    step-IsConsumed s (purge now policy) h = h

    pub run-IsConsumed :
        (s : Tables) (cs : List Call)
        → IsConsumed code s.invite_codes
        → IsConsumed code (run lower s cs).invite_codes
    unfolding run
    run-IsConsumed s [] h = h
    run-IsConsumed s (c ∷ cs) h = run-IsConsumed (step lower s c) cs (step-IsConsumed s c h)
