-- ===== src/Storage/Memory/Sessions.antt =====
-- A session of `MemoryStorage` from its creation on (crates/light-discord-storage/src/lib.rs).
use light_discord.Common.{
  All, Bool, Bool-cases, List, Option, Text, [], ap, false, if-elim, inl, inr, is_some, none, not,
  ok, refl, some, text_eq, ℕ, ◌&&◌, ◌∙◌, ◌∷◌, ◌≡◌,
}
use light_discord.Common.Maps.{Map, get, insert, get-insert, get-insert_self, contains_key}
use light_discord.Storage.Types.{
  SessionInfo, CreateAccountResult, DeleteMessageResult, display_name_key,
}
use light_discord.Storage.Memory.{
  MemoryInner, MemoryMessage, StoredUser, add_user, is_open, ensure_bootstrap_admin, create_invite,
  create_user_with_password_hash, create_user_with_invite, register_ephemeral_user, session_for,
  create_session, session_of, info_of, validate_session, session_info,
}
use light_discord.Storage.Memory.Messages.{
  save_message, delete_found, delete_stored, soft_delete_message, purge_expired,
}
use light_discord.Storage.Memory.Calls.{
  Call, bootstrap, invite, with_password, with_invite, ephemeral, session, save, soft_delete, purge,
  step, run,
}

abbrev HasUser : Text → Map StoredUser → Type 0
HasUser id users = (user : StoredUser) × (get id users ≡ some user)

-- The token is that of a session of the user, who is there.
abbrev pub IsLive : Text → Text → MemoryInner → Type 0
IsLive token id s = (get token s.sessions ≡ some id) × HasUser id s.users

-- The call opens a session with the token.
abbrev pub reopens : Text → Call → Bool
reopens token (session other user_id) = text_eq other token
reopens token _ = false

insert-HasUser :
    (j id : Text) (v : StoredUser) (users : Map StoredUser)
    → HasUser id users
    → HasUser id (insert j v users)
insert-HasUser j id v users h = elim (Bool-cases (text_eq j id)) [
  | inl same ↦ (v, rw (get-insert j id v users, same) refl)
  | inr other ↦ (h.0, rw (get-insert j id v users, other) h.1)
]

module _ (token id : Text) where
  session_for-IsLive :
      (s : MemoryInner) (other user_id : Text) (o : Option StoredUser)
      → text_eq other token ≡ false
      → IsLive token id s
      → IsLive token id (session_for s other user_id o).1
  unfolding session_for
  session_for-IsLive s other user_id none h l = l
  session_for-IsLive s other user_id (some user) h l =
      (rw (get-insert other token user_id s.sessions, h) l.0, l.1)

  delete_found-IsLive :
      (now : ℕ) (new_id : Text) (s : MemoryInner) (m actor : Text) (admin : Bool)
      (o : Option MemoryMessage)
      → IsLive token id s
      → IsLive token id (delete_found now new_id s m actor admin o).1
  unfolding delete_found delete_stored
  delete_found-IsLive now new_id s m actor admin none l = l
  delete_found-IsLive now new_id s m actor admin (some stored) l =
      if-elim (λ (r : DeleteMessageResult × MemoryInner). IsLive token id r.1)
        (is_some stored.deleted_at_unix_ms) (λ _. l)
        (λ _.
          if-elim (λ (r : DeleteMessageResult × MemoryInner). IsLive token id r.1)
            (not (text_eq stored.message.user_id actor) && not admin) (λ _. l) (λ _. l))

  step-IsLive :
      (s : MemoryInner) (c : Call)
      → reopens token c ≡ false
      → IsLive token id s
      → IsLive token id (step s c)
  unfolding step ensure_bootstrap_admin add_user create_invite create_user_with_password_hash
      create_user_with_invite register_ephemeral_user create_session save_message
      soft_delete_message purge_expired
  step-IsLive s (bootstrap new_id name hash) h l = (l.0, insert-HasUser _ id _ s.users l.1)
  step-IsLive s (invite code) h l = l
  step-IsLive s (with_password new_id name hash admin) h l =
      if-elim (λ (r : CreateAccountResult × MemoryInner). IsLive token id r.1)
        (contains_key (display_name_key name) s.display_name_index) (λ _. l)
        (λ _. (l.0, insert-HasUser new_id id _ s.users l.1))
  step-IsLive s (with_invite new_id name hash code) h l =
      if-elim (λ (r : CreateAccountResult × MemoryInner). IsLive token id r.1)
        (not (is_open (get code s.invite_codes))) (λ _. l)
        (λ _.
          if-elim (λ (r : CreateAccountResult × MemoryInner). IsLive token id r.1)
            (contains_key (display_name_key name) s.display_name_index) (λ _. l)
            (λ _. (l.0, insert-HasUser new_id id _ s.users l.1)))
  step-IsLive s (ephemeral user_id name) h l = (l.0, insert-HasUser user_id id _ s.users l.1)
  step-IsLive s (session other user_id) h l =
      session_for-IsLive s other user_id (get user_id s.users) h l
  step-IsLive s (save m) h l = l
  step-IsLive s (soft_delete now new_id m actor admin) h l =
      delete_found-IsLive now new_id s m actor admin (get m s.messages) l
  step-IsLive s (purge now policy) h l = l

  run-IsLive :
      (s : MemoryInner) (cs : List Call)
      → All (λ c. reopens token c ≡ false) cs
      → IsLive token id s
      → IsLive token id (run s cs)
  unfolding run
  run-IsLive s [] h l = l
  run-IsLive s (c ∷ cs) h l = run-IsLive (step s c) cs h.1 (step-IsLive s c h.0 l)

  validate-IsLive :
      (s : MemoryInner)
      → IsLive token id s
      → (info : SessionInfo) × (validate_session s token ≡ some info) × (info.user_id ≡ id)
  unfolding validate_session session_of info_of
  validate-IsLive s (e, (user, f)) =
      (session_info id user, ap (session_of s) e ∙ ap (info_of id) f, refl)

  create_session-IsLive :
      (s : MemoryInner) (o : Option StoredUser) (info : SessionInfo)
      → get id s.users ≡ o
      → (session_for s token id o).0 ≡ ok info
      → IsLive token id (session_for s token id o).1
  unfolding session_for
  create_session-IsLive s none info e h = absurd cc
  create_session-IsLive s (some user) info e h = (get-insert_self token id s.sessions, (user, e))

  -- Once a session has been opened, its token is valid for the same user after any calls that open
  -- no session with that token.
  pub create_session-validate :
      (s : MemoryInner) (cs : List Call) (info : SessionInfo)
      → (create_session s token id).0 ≡ ok info
      → All (λ c. reopens token c ≡ false) cs
      → (later : SessionInfo) × (validate_session (run (create_session s token id).1 cs) token
          ≡ some later)
        × (later.user_id ≡ id)
  unfolding create_session
  create_session-validate s cs info h quiet =
      validate-IsLive (run (create_session s token id).1 cs) (
        run-IsLive (create_session s token id).1 cs quiet
          (create_session-IsLive s (get id s.users) info refl h))
