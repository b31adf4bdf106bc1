-- ===== src/Storage/Postgres/Invites.antt =====
-- Registrations by invitation in the tables of `PostgresStorage`
-- (crates/light-discord-storage/src/lib.rs).
use light_discord.Common.{
  List, Option, Result, Text, arith, err, false, if-elim, none, not, ok, refl, some, subst, sym,
  text, true, ℕ, ◌≡◌,
}
use light_discord.Common.Maps.{get}
use light_discord.Storage.Types.{
  Account, CreateAccountResult, created, display_name_taken, invalid_invite,
}
use light_discord.Storage.Postgres.{
  InviteRow, Tables, consume, is_open, create_unless_found, create_user_with_password_hash,
  create_user_with_invite, find_user_by_display_name,
}
use light_discord.Storage.Postgres.Calls.{Call, run}
use light_discord.Storage.Postgres.Consumed.{
  is_consumed, IsConsumed, consume_row_self, create_unless_found-invites, run-IsConsumed,
}

consumed-not_open : (o : Option InviteRow) → is_consumed o ≡ true → is_open o ≡ false
unfolding is_open
consumed-not_open none h = refl
consumed-not_open (some row) h = ground (arith, h)

abbrev Outcome : Type 0
Outcome = Result CreateAccountResult Text

taken-apart : (a : Account) (r : Outcome) → r ≡ ok display_name_taken → ¬ (r ≡ ok (created a))
taken-apart a r e h = absurd cc

invalid-apart : (a : Account) (r : Outcome) → r ≡ ok invalid_invite → ¬ (r ≡ ok (created a))
invalid-apart a r e h = absurd cc

err-apart : (e : Text) (a : Account) (r : Outcome) → r ≡ err e → ¬ (r ≡ ok (created a))
err-apart e a r p h = absurd cc

abbrev Serves : Text → Account → Result CreateAccountResult Text × Tables → Type 0
Serves code a r = r.0 ≡ ok (created a) → IsConsumed code r.1.invite_codes

consume-Serves :
    (now : ℕ) (code : Text) (a : Account) (r : Result CreateAccountResult Text × Tables)
    → is_open (get code r.1.invite_codes) ≡ true
    → Serves code a (consume now code r)
unfolding consume
consume-Serves now code a (err e, s) open_row h = absurd (err-apart e a (err e) refl h)
consume-Serves now code a (ok display_name_taken, s) open_row h =
    absurd (taken-apart a (ok display_name_taken) refl h)
consume-Serves now code a (ok invalid_invite, s) open_row h = absurd (
    err-apart (text "invite is checked separately") a (err (text "invite is checked separately"))
      refl h)
consume-Serves now code a (ok (created b), s) open_row h =
    consume_row_self now code b.user_id s.invite_codes (get code s.invite_codes) refl open_row

module _ (lower : Text → Text) (code : Text) where
  create_user_with_invite-Serves :
      (now : ℕ) (id : Text) (s : Tables) (name hash : Text) (a : Account)
      → Serves code a (create_user_with_invite lower now id s name hash code)
  unfolding create_user_with_invite create_user_with_password_hash
  create_user_with_invite-Serves now id s name hash a =
      if-elim (Serves code a) (not (is_open (get code s.invite_codes)))
        (λ _ h. absurd (invalid-apart a (ok invalid_invite) refl h))
        (λ open_row.
          consume-Serves now code a
            (create_unless_found lower now id s name hash false
              (find_user_by_display_name lower s name))
            (subst (λ invites. is_open (get code invites) ≡ true)
              (sym (
                create_unless_found-invites lower now id s name hash false
                  (find_user_by_display_name lower s name)))
              (ground (arith, open_row))))

  consumed-refused :
      (now : ℕ) (id : Text) (s : Tables) (name hash : Text)
      → IsConsumed code s.invite_codes
      → create_user_with_invite lower now id s name hash code ≡ (ok invalid_invite, s)
  unfolding create_user_with_invite
  consumed-refused now id s name hash h =
      if-elim (λ r. r ≡ (ok invalid_invite, s)) (not (is_open (get code s.invite_codes)))
        (λ _. refl)
        (λ open_row. absurd (ground (arith, consumed-not_open (get code s.invite_codes) h)))

  -- After a registration in the tables that an invitation served, and after any calls, issues of
  -- the same code among them, the invitation is refused as invalid and the refusal changes
  -- nothing.
  pub create_user_with_invite-refused_again :
      (now : ℕ) (id : Text) (s : Tables) (name hash : Text) (a : Account) (cs : List Call)
      (now' : ℕ) (id' name' hash' : Text)
      → (create_user_with_invite lower now id s name hash code).0 ≡ ok (created a)
      → let after = run lower (create_user_with_invite lower now id s name hash code).1 cs in
        create_user_with_invite lower now' id' after name' hash' code ≡ (ok invalid_invite, after)
  create_user_with_invite-refused_again now id s name hash a cs now' id' name' hash' h =
      consumed-refused now' id'
        (run lower (create_user_with_invite lower now id s name hash code).1 cs) name' hash'
        (run-IsConsumed code lower (create_user_with_invite lower now id s name hash code).1 cs
          (create_user_with_invite-Serves now id s name hash a h))
