-- ===== src/Storage/Postgres/Agreement.antt =====
-- What `PostgresStorage` and `MemoryStorage` of crates/light-discord-storage/src/lib.rs do alike on
-- messages and the audit log. `view` reads the tables as the state of `MemoryStorage`.
use light_discord.Common.{
  Bool, List, Option, Result, Text, [], ap, ap₂, arith, false, keep, map, none, ok, refl, some,
  subst, sym, text_eq_iff, ℕ, ◌++◌, ◌∷◌, ◌≡◌,
}
use light_discord.Common.Maps.{Map, get, insert}
use light_discord.Storage.Types.{RetentionPolicy, DeleteMessageResult}
use light_discord.Storage.Memory.{MemoryInner, MemoryMessage}
use light_discord.Storage.Memory.Messages as Memory
use light_discord.Storage.Postgres.{MessageRow, AuditRow, Tables}
use light_discord.Storage.Postgres.Messages as Postgres

abbrev pub stored_message : Text × MessageRow → MemoryMessage
stored_message (id, row) = record {
  message = Postgres.chat_message (id, row);
  deleted_at_unix_ms = row.deleted_at_unix_ms;
  deleted_by_user_id = row.deleted_by_user_id;
}

abbrev pub stored_messages : Map MessageRow → Map MemoryMessage
stored_messages = map λ e. (e.0, stored_message e)

-- The rest of the state is that of `base`.
abbrev pub view : MemoryInner → Tables → MemoryInner
view base s = record base {
  messages = stored_messages s.messages;
  audit_log = map (λ (row : AuditRow). row.entry) s.audit_log;
}

abbrev stored_option : Text → Option MessageRow → Option MemoryMessage
stored_option id none = none
stored_option id (some row) = some (stored_message (id, row))

get-stored_messages :
    (id : Text) (m : Map MessageRow) → get id (stored_messages m) ≡ stored_option id (get id m)
unfolding get
get-stored_messages id [] = refl
get-stored_messages id ((j, row) ∷ m) = ground (arith, text_eq_iff j id, get-stored_messages id m)

insert-stored_messages :
    (id : Text) (row : MessageRow) (m : Map MessageRow)
    → stored_messages (insert id row m) ≡ insert id (stored_message (id, row)) (stored_messages m)
unfolding insert
insert-stored_messages id row [] = refl
insert-stored_messages id row ((j, old) ∷ m) =
    ground (arith, text_eq_iff j id, insert-stored_messages id row m)

map-append {ℓ κ} :
    {A : Type ℓ} {B : Type κ} (f : A → B) (xs ys : List A) → map f (xs ++ ys) ≡ map f xs ++ map f ys
map-append f [] ys = refl
map-append f (x ∷ xs) ys = ap (◌∷◌ (f x)) (map-append f xs ys)

map-keep {ℓ κ} :
    {A : Type ℓ} {B : Type κ} (f : A → B) (p : A → Bool) (q : B → Bool) (xs : List A)
    → ((x : A) → p x ≡ q (f x))
    → map f (keep p xs) ≡ keep q (map f xs)
map-keep f p q [] e = refl
map-keep f p q (x ∷ xs) e = ground (arith, e x, map-keep f p q xs e)

module _ (now : ℕ) (new_id : Text) (base : MemoryInner) (s : Tables) (message_id actor : Text)
    (admin : Bool) where
  abbrev pub Agrees :
      Result DeleteMessageResult Text × Tables → DeleteMessageResult × MemoryInner → Type 0
  Agrees in_tables in_memory =
      (in_tables.0 ≡ ok in_memory.0) × (view base in_tables.1 ≡ in_memory.1)

  delete_found-Agrees :
      Postgres.is_logged new_id s.audit_log ≡ false
      → (o : Option MessageRow)
      → Agrees (Postgres.delete_found now new_id s message_id actor admin o) (
          Memory.delete_found now new_id
            (view base s)
            message_id
            actor
            admin
            (stored_option message_id o))
  unfolding Postgres.delete_found Postgres.delete_row Postgres.log_deletion Memory.delete_found
      Memory.delete_stored Memory.deletion_entry
  delete_found-Agrees fresh none = (refl, refl)
  delete_found-Agrees fresh (some row) = ground (
    arith,
    fresh,
    insert-stored_messages message_id
        (record row { deleted_at_unix_ms = some now; deleted_by_user_id = some actor }) s.messages,
    map-append (λ (r : AuditRow). r.entry) s.audit_log
        (Postgres.deletion_row now new_id message_id actor row ∷ []),
  )

  -- On the tables, a deletion whose audit entry has a new identifier answers what it answers in
  -- memory, and leaves the messages and the audit log that it leaves in memory.
  pub soft_delete_message-Agrees :
      Postgres.is_logged new_id s.audit_log ≡ false
      → Agrees
          (Postgres.soft_delete_message now new_id s message_id actor admin)
          (Memory.soft_delete_message now new_id (view base s) message_id actor admin)
  unfolding Postgres.soft_delete_message Memory.soft_delete_message
  soft_delete_message-Agrees fresh =
      subst
        (λ o.
          Agrees
            (Postgres.delete_found now new_id s message_id actor admin (get message_id s.messages))
            (Memory.delete_found now new_id (view base s) message_id actor admin o))
        (sym (get-stored_messages message_id s.messages))
        (delete_found-Agrees fresh (get message_id s.messages))

selected-shown :
    (cutoff : ℕ) (channel_id : Text) (m : Map MessageRow)
    → map Postgres.chat_message (keep (λ e. Postgres.is_selected cutoff channel_id e.1) m)
      ≡ map
          (λ (stored : MemoryMessage). stored.message)
          (keep (Memory.is_visible cutoff channel_id) (Memory.values (stored_messages m)))
unfolding Postgres.is_selected Memory.is_visible
selected-shown cutoff channel_id [] = refl
selected-shown cutoff channel_id ((j, row) ∷ m) = ground (arith, selected-shown cutoff channel_id m)

module _ (now : ℕ) (policy : RetentionPolicy) (base : MemoryInner) (s : Tables) where
  -- A purge removes from the tables what it removes in memory.
  pub purge_expired-agrees :
      view base (Postgres.purge_expired now policy s)
      ≡ Memory.purge_expired now policy (view base s)
  unfolding Postgres.purge_expired Memory.purge_expired
  purge_expired-agrees =
      ap₂ (λ messages log. record base { messages = messages; audit_log = log })
        (map-keep (λ (e : Text × MessageRow). (e.0, stored_message e)) _ _ s.messages (λ e. refl))
        (map-keep (λ (r : AuditRow). r.entry) _ _ s.audit_log (λ r. refl))

module _ (base : MemoryInner) (s : Tables) where
  pub selected-visible :
      (cutoff : ℕ) (channel_id : Text)
      → Postgres.selected cutoff channel_id s ≡ Memory.visible cutoff channel_id (view base s)
  unfolding Postgres.selected Memory.visible
  selected-visible cutoff channel_id = selected-shown cutoff channel_id s.messages
