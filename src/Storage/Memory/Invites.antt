-- ===== src/Storage/Memory/Invites.antt =====
-- Registration with an invitation: what it stores, and that an invitation serves once.
use light_discord.Common.{
  All, Bool, Bool-cases, List, Option, Text, [], ap, arith, false, if-elim, inl, inr, is_some, none,
  not, refl, some, subst, sym, text_eq, true, ℕ, ◌&&◌, ◌∙◌, ◌∷◌, ◌≡◌,
}
use light_discord.Common.Maps.{Map, get, insert, get-insert, get-insert_self, contains_key}
use light_discord.Storage.Types.{
  Account, CreateAccountResult, DeleteMessageResult, created, invalid_invite, display_name_taken,
  display_name_key,
}
use light_discord.Storage.Memory.{
  MemoryInner, MemoryInvite, MemoryMessage, StoredUser, account, account_of, add_user, is_open,
  ensure_bootstrap_admin, create_invite, create_user_with_password_hash, create_user_with_invite,
  find_account, find_user_by_display_name, register_ephemeral_user, session_for, create_session,
}
use light_discord.Storage.Memory.Messages.{
  save_message, delete_found, delete_stored, soft_delete_message, purge_expired,
}
use light_discord.Storage.Memory.Calls.{
  Call, bootstrap, invite, with_password, with_invite, ephemeral, session, save, soft_delete, purge,
  step, run,
}

abbrev UsedIn : Text → Map MemoryInvite → Type 0
UsedIn code codes =
    (used : MemoryInvite) × (get code codes ≡ some used) × (is_some used.consumed_by_user_id ≡ true)

-- The invitation is there and has served.
abbrev pub IsUsed : Text → MemoryInner → Type 0
IsUsed code s = UsedIn code s.invite_codes

-- No call of the list creates the invitation anew.
abbrev pub reissues : Text → Call → Bool
reissues code (invite other) = text_eq other code
reissues code _ = false

module _ (code : Text) where
  soft_delete-invite_codes :
      (now : ℕ) (new_id : Text) (s : MemoryInner) (id actor : Text) (admin : Bool)
      → (o : Option MemoryMessage)
      → (delete_found now new_id s id actor admin o).1.invite_codes ≡ s.invite_codes
  unfolding delete_found delete_stored
  soft_delete-invite_codes now new_id s id actor admin none = refl
  soft_delete-invite_codes now new_id s id actor admin (some stored) =
      if-elim (λ (r : DeleteMessageResult × MemoryInner). r.1.invite_codes ≡ s.invite_codes)
        (is_some stored.deleted_at_unix_ms) (λ _. refl)
        (λ _.
          if-elim (λ (r : DeleteMessageResult × MemoryInner). r.1.invite_codes ≡ s.invite_codes)
            (not (text_eq stored.message.user_id actor) && not admin) (λ _. refl) (λ _. refl))

  session_for-invite_codes :
      (s : MemoryInner) (token id : Text) (o : Option StoredUser)
      → (session_for s token id o).1.invite_codes ≡ s.invite_codes
  unfolding session_for
  session_for-invite_codes s token id none = refl
  session_for-invite_codes s token id (some user) = refl

  insert-UsedIn :
      (other : Text) (v : MemoryInvite) (codes : Map MemoryInvite)
      → (text_eq other code ≡ true → is_some v.consumed_by_user_id ≡ true)
      → UsedIn code codes
      → UsedIn code (insert other v codes)
  insert-UsedIn other v codes h u = elim (Bool-cases (text_eq other code)) [
    | inl same ↦ (v, rw (get-insert other code v codes, same) refl, h same)
    | inr different ↦ (u.0, rw (get-insert other code v codes, different) u.1, u.2)
  ]

  step-IsUsed :
      (s : MemoryInner) (c : Call)
      → reissues code c ≡ false
      → IsUsed code s
      → IsUsed code (step s c)
  unfolding step ensure_bootstrap_admin add_user create_invite create_user_with_password_hash
      create_user_with_invite register_ephemeral_user create_session save_message
      soft_delete_message purge_expired
  step-IsUsed s (bootstrap new_id name hash) h u = u
  step-IsUsed s (invite other) h u =
      insert-UsedIn other _ s.invite_codes (λ same. absurd (ground (arith, h, same))) u
  step-IsUsed s (with_password new_id name hash admin) h u =
      if-elim (λ (r : CreateAccountResult × MemoryInner). IsUsed code r.1)
        (contains_key (display_name_key name) s.display_name_index) (λ _. u) (λ _. u)
  step-IsUsed s (with_invite new_id name hash other) h u =
      if-elim (λ (r : CreateAccountResult × MemoryInner). IsUsed code r.1)
        (not (is_open (get other s.invite_codes))) (λ _. u)
        (λ _.
          if-elim (λ (r : CreateAccountResult × MemoryInner). IsUsed code r.1)
            (contains_key (display_name_key name) s.display_name_index) (λ _. u)
            (λ _.
              insert-UsedIn other (record { consumed_by_user_id = some new_id }) s.invite_codes
                (λ _. refl) u))
  step-IsUsed s (ephemeral id name) h u = u
  step-IsUsed s (session token id) h u =
      subst (UsedIn code) (sym (session_for-invite_codes s token id (get id s.users))) u
  step-IsUsed s (save m) h u = u
  step-IsUsed s (soft_delete now new_id id actor admin) h u =
      subst (UsedIn code)
        (sym (soft_delete-invite_codes now new_id s id actor admin (get id s.messages))) u
  step-IsUsed s (purge now policy) h u = u

  pub run-IsUsed :
      (s : MemoryInner) (cs : List Call)
      → All (λ c. reissues code c ≡ false) cs
      → IsUsed code s
      → IsUsed code (run s cs)
  unfolding run
  run-IsUsed s [] h u = u
  run-IsUsed s (c ∷ cs) h u = run-IsUsed (step s c) cs h.1 (step-IsUsed s c h.0 u)

  is_open-used :
      (o : Option MemoryInvite) (used : MemoryInvite)
      → o ≡ some used
      → is_some used.consumed_by_user_id ≡ true
      → is_open o ≡ false
  unfolding is_open
  is_open-used none used e h = refl
  is_open-used (some i) used e h = ground (arith, e, h)

  used-invalid_invite :
      (new_id name hash : Text) (s : MemoryInner)
      → IsUsed code s
      → create_user_with_invite new_id s name hash code ≡ (invalid_invite, s)
  unfolding create_user_with_invite is_open
  used-invalid_invite new_id name hash s u =
      rw (is_open-used (get code s.invite_codes) u.0 u.1 u.2) refl

  -- After any calls that do not issue it anew, an invitation that has served is refused as
  -- invalid, and the refusal changes nothing.
  pub create_user_with_invite-used :
      (new_id name hash : Text) (s : MemoryInner) (cs : List Call)
      → IsUsed code s
      → All (λ c. reissues code c ≡ false) cs
      → create_user_with_invite new_id (run s cs) name hash code ≡ (invalid_invite, run s cs)
  create_user_with_invite-used new_id name hash s cs u h =
      used-invalid_invite new_id name hash (run s cs) (run-IsUsed s cs h u)

invalid-apart : (a : Account) → invalid_invite ≡ created a → ⊥
invalid-apart a e = absurd cc

taken-apart : (a : Account) → display_name_taken ≡ created a → ⊥
taken-apart a e = absurd cc

created-injective : (b a : Account) → created b ≡ created a → b ≡ a
created-injective b a e = cc

pub find-indexed :
    (s : MemoryInner) (id : Text) (user : StoredUser) (spelling : Text)
    → get (display_name_key spelling) s.display_name_index ≡ some id
    → get id s.users ≡ some user
    → find_user_by_display_name s spelling ≡ some (account id user)
unfolding find_user_by_display_name find_account account_of
find-indexed s id user spelling e f = ap (find_account s) e ∙ ap (account_of id) f

abbrev pub newcomer : Text → Text → StoredUser
newcomer name hash = record { display_name = name; password_hash = some hash; is_admin = false }

-- The state that a registration leaves.
abbrev pub admitted : Text → Text → Text → Text → MemoryInner → MemoryInner
admitted new_id name hash code s = record s {
  users = insert new_id (newcomer name hash) s.users;
  display_name_index = insert (display_name_key name) new_id s.display_name_index;
  invite_codes = insert code (record { consumed_by_user_id = some new_id }) s.invite_codes;
}

abbrev Registered : Text → MemoryInner → Text → Account → CreateAccountResult × MemoryInner → Type 0
Registered code s name a r =
    r.0 ≡ created a
    → (is_open (get code s.invite_codes) ≡ true)
      × IsUsed code r.1
      × ((spelling : Text)
          → display_name_key spelling ≡ display_name_key name
          → find_user_by_display_name r.1 spelling ≡ some a)

-- A registration that succeeds had an open invitation, uses it up, and makes the account the one
-- that a lookup of any name with the same key finds.
pub register-stores :
    (new_id name hash code : Text) (s : MemoryInner) (a : Account)
    → (create_user_with_invite new_id s name hash code).0 ≡ created a
    → (is_open (get code s.invite_codes) ≡ true)
      × IsUsed code (create_user_with_invite new_id s name hash code).1
      × ((spelling : Text)
          → display_name_key spelling ≡ display_name_key name
          → find_user_by_display_name (create_user_with_invite new_id s name hash code).1 spelling
            ≡ some a)
unfolding create_user_with_invite find_user_by_display_name
register-stores new_id name hash code s a =
    if-elim (Registered code s name a) (not (is_open (get code s.invite_codes)))
      (λ _ e. absurd (invalid-apart a e))
      (λ was_open.
        if-elim (Registered code s name a)
          (contains_key (display_name_key name) s.display_name_index)
          (λ _ e. absurd (taken-apart a e))
          (λ _ e. (
            ground (arith, was_open),
            (
              record { consumed_by_user_id = some new_id },
              get-insert_self code (record { consumed_by_user_id = some new_id }) s.invite_codes,
              refl,
            ),
            λ spelling same_key.
                find-indexed (admitted new_id name hash code s) new_id (newcomer name hash) spelling
                  (subst
                    (λ k.
                      get k (insert (display_name_key name) new_id s.display_name_index)
                      ≡ some new_id)
                    (sym same_key)
                    (get-insert_self (display_name_key name) new_id s.display_name_index))
                  (get-insert_self new_id (newcomer name hash) s.users)
                ∙ ap some (created-injective _ a e),
          )))

-- The account and the state of a registration that succeeds.
pub create_user_with_invite-created :
    (new_id name hash code : Text) (s : MemoryInner) (a : Account)
    → (create_user_with_invite new_id s name hash code).0 ≡ created a
    → (a ≡ account new_id (newcomer name hash))
      × ((create_user_with_invite new_id s name hash code).1 ≡ admitted new_id name hash code s)
unfolding create_user_with_invite
create_user_with_invite-created new_id name hash code s a =
    if-elim (Shape new_id name hash code s a) (not (is_open (get code s.invite_codes)))
      (λ _ e. absurd (invalid-apart a e))
      (λ _.
        if-elim (Shape new_id name hash code s a)
          (contains_key (display_name_key name) s.display_name_index)
          (λ _ e. absurd (taken-apart a e)) (λ _ e. (sym (created-injective _ a e), refl)))
  where
    Shape :
        Text
        → Text
        → Text
        → Text
        → MemoryInner
        → Account
        → CreateAccountResult × MemoryInner
        → Type 0
    Shape new_id name hash code s a r =
        r.0 ≡ created a
        → (a ≡ account new_id (newcomer name hash)) × (r.1 ≡ admitted new_id name hash code s)
