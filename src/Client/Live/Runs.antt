-- ===== src/Client/Live/Runs.antt =====
-- A client that is connected while users send and delete messages: the handlers
-- `send_chat_message` and `delete_chat_message` of crates/light-discord-server/src/main.rs over
-- `MemoryStorage`, and the client's side of crates/light-discord-client/src/app.rs.
use light_discord.Common.{
  All, Bool, Bool-cases, List, Option, Text, [], arith, false, if-elim, inl, inr, is_empty, is_some,
  none, not, ok, refl, some, subst, sym, text_eq, trim, true, ℕ, ◌&&◌, ◌==◌, ◌||◌, ◌∷◌, ◌≡◌,
}
use light_discord.Common.Maps.{Map, get, insert}
use light_discord.Protocol.{
  ChatMessage, new_chat_message, ServerFrame, ErrorMessage, message, message_deleted, error,
}
use light_discord.Storage.Types.{RetentionPolicy, DeleteMessageResult}
use light_discord.Storage.Interface.{memory_storage}
use light_discord.Storage.Memory.{MemoryInner, MemoryMessage}
use light_discord.Storage.Memory.Messages.{
  save_message, delete_stored, delete_found, soft_delete_message,
}
use light_discord.Server.State.{
  InnerState, UserConnection, World, broadcast, send_on, send_to, copies, name_of, is_admin,
}
use light_discord.Server.Chat as Chat
use light_discord.Server.Chat.{Draws}
use light_discord.Server.Screen.Relay.Frames.{inbox}
use light_discord.Client.{LightDiscordApp}
use light_discord.Client.Frames.{Host, apply_server_frame, apply_all}
use light_discord.Client.Live.{AllLive, Tracks}
use light_discord.Client.Live.Told.{
  apply_all-same, saved-Tracks, resaved-Tracks, erased-Tracks, re-erased-Tracks,
}

-- A `SendMessage` of a user to a channel, and a `DeleteMessage`.
pub data ChatCall : Type 0 where
  says : Draws → Text → Text → Text → ChatCall
  erases : Draws → Text → Text → ChatCall

-- Some connection has the channel `t`.
unfoldable pub reaches : ℕ → Map UserConnection → Bool
reaches t [] = false
reaches t ((j, user) ∷ users) = user.tx == t || reaches t users

module _ (policy : RetentionPolicy) where
  -- The call, on a server that has sent nothing yet.
  unfoldable pub answered : World MemoryInner → ChatCall → World MemoryInner
  unfolding Chat.send_chat_message Chat.delete_chat_message
  answered w (says d user_id channel_id body) =
      Chat.send_chat_message (memory_storage policy) d (record w { sent = [] }) user_id channel_id
        body
  answered w (erases d user_id message_id) =
      Chat.delete_chat_message (memory_storage policy) d (record w { sent = [] }) user_id message_id

  -- A message that is sent gets an identifier that is not in the storage.
  abbrev pub IsFresh : World MemoryInner → ChatCall → Type 0
  IsFresh w (says d user_id channel_id body) = get d.id w.storage.messages ≡ none
  IsFresh w (erases d user_id message_id) = Unit {0}

  abbrev pub AreFresh : World MemoryInner → List ChatCall → Type 0
  AreFresh w [] = Unit {0}
  AreFresh w (c ∷ cs) = IsFresh w c × AreFresh (answered w c) cs

module _ (host : Host) (policy : RetentionPolicy) (t : ℕ) where
  -- The server and the client, which gets what comes on the channel `t`, after the calls.
  unfoldable pub run :
      World MemoryInner → LightDiscordApp → List ChatCall → World MemoryInner × LightDiscordApp
  unfolding answered inbox apply_all
  run w app [] = (w, app)
  run w app (c ∷ cs) =
      let w' = answered policy w c in run w' (apply_all host app (inbox t w'.sent)) cs

  inbox-same :
      (f : ServerFrame) (users : Map UserConnection) → All (λ g. g ≡ f) (inbox t (copies users f))
  unfolding inbox
  inbox-same f [] = tt
  inbox-same f ((j, user) ∷ users) =
      if-elim (All (λ g. g ≡ f)) (user.tx == t) (λ _. (refl, inbox-same f users))
        (λ _. inbox-same f users)

  inbox-reached :
      (f : ServerFrame) (users : Map UserConnection)
      → reaches t users ≡ true
      → (rest : List ServerFrame) × (inbox t (copies users f) ≡ f ∷ rest) × All (λ g. g ≡ f) rest
  unfolding inbox reaches
  inbox-reached f [] r = absurd cc
  inbox-reached f ((j, user) ∷ users) r = elim (Bool-cases (user.tx == t)) [
    | inl here ↦ (inbox t (copies users f), rw here refl, inbox-same f users)
    | inr there ↦
        let (rest, is, same) = inbox-reached f users (ground (arith, r, there)) in
        (rest, rw there is, same)
  ]

  -- A frame for all connections reaches this one once or more often.
  told :
      (P : LightDiscordApp → Type 0) (f : ServerFrame) (users : Map UserConnection)
      (app : LightDiscordApp)
      → reaches t users ≡ true
      → P (apply_server_frame host app f)
      → ((a : LightDiscordApp) → P a → P (apply_server_frame host a f))
      → P (apply_all host app (inbox t (copies users f)))
  unfolding apply_all
  told P f users app r first more =
      let (rest, is, same) = inbox-reached f users r in
      subst (λ l. P (apply_all host app l)) (sym is)
        (apply_all-same host P f rest more same (apply_server_frame host app f) first)

  module _ (before : Map MemoryMessage) (app : LightDiscordApp) where
    -- The connections are those of `w`, and the client tracks the storage.
    abbrev Goes : World MemoryInner → World MemoryInner → Type 0
    Goes w x =
        (x.inner ≡ w.inner) × Tracks before x.storage.messages (apply_all host app (inbox t x.sent))

    -- Nothing sent, and this stored.
    abbrev with_storage : World MemoryInner → MemoryInner → World MemoryInner
    with_storage w s = record w { storage = s; sent = [] }

    send_on-Goes :
        (w : World MemoryInner) (s : MemoryInner) (o : Option UserConnection) (e : ErrorMessage)
        → Tracks before s.messages app
        → Goes w (send_on (with_storage w s) o (error e))
    unfolding send_on inbox apply_all apply_server_frame
    send_on-Goes w s none e h = (refl, h)
    send_on-Goes w s (some user) e h = (
      refl,
      if-elim (λ l. Tracks before s.messages (apply_all host app l)) (user.tx == t) (λ _. h)
          (λ _. h),
    )

    error-Goes :
        (w : World MemoryInner) (s : MemoryInner) (u : Text) (e : ErrorMessage)
        → Tracks before s.messages app
        → Goes w (send_to (with_storage w s) u (error e))
    unfolding send_to
    error-Goes w s u e h = send_on-Goes w s (get u w.inner.users) e h

    module _ (w : World MemoryInner) (r : reaches t w.inner.users ≡ true)
        (h : Tracks before w.storage.messages app) where
      save-Goes :
          (d : Draws) (u : Text) (m : ChatMessage)
          → get m.id w.storage.messages ≡ none
          → Goes w (Chat.save_and_announce (memory_storage policy) d (with_storage w w.storage) u m)
      unfolding Chat.save_and_announce Chat.announce broadcast
      save-Goes d u m new = (
        refl,
        told (Tracks before (save_message w.storage m).messages) (message m) w.inner.users app r
            (saved-Tracks host before w.storage m app new h)
            (λ a k. resaved-Tracks host before w.storage m a k),
      )

      send_named-Goes :
          (d : Draws) (u channel body : Text) (o : Option Text)
          → get d.id w.storage.messages ≡ none
          → Goes w (
              Chat.send_named (memory_storage policy) d (with_storage w w.storage) u channel body o)
      unfolding Chat.send_named inbox apply_all new_chat_message
      send_named-Goes d u channel body none new = (refl, h)
      send_named-Goes d u channel body (some name) new =
          if-elim (Goes w) (is_empty (trim body)) (λ _. (refl, h))
            (λ _. save-Goes d u (new_chat_message d.now d.id channel u name (trim body)) new)

      abbrev Deletes : Draws → Text → DeleteMessageResult × MemoryInner → Type 0
      Deletes d u x =
          Goes w (Chat.answer_deletion (memory_storage policy) d (with_storage w x.1) u (ok x.0))

      delete_found-Goes :
          (d : Draws) (u id : Text) (admin : Bool) (o : Option MemoryMessage)
          → get id w.storage.messages ≡ o
          → Deletes d u (delete_found d.stored_now d.stored_id w.storage id u admin o)
      unfolding delete_found delete_stored Chat.answer_deletion broadcast
      delete_found-Goes d u id admin none there = error-Goes w w.storage u _ h
      delete_found-Goes d u id admin (some stored) there =
          if-elim (Deletes d u) (is_some stored.deleted_at_unix_ms)
            (λ _. error-Goes w w.storage u _ h)
            (λ _.
              if-elim (Deletes d u) (not (text_eq stored.message.user_id u) && not admin)
                (λ _. error-Goes w w.storage u _ h)
                (λ _. (
                  refl,
                  told (Tracks before (insert id gone w.storage.messages))
                      (message_deleted id stored.message.channel_id u d.stored_now) w.inner.users
                      app r
                      (erased-Tracks host before w.storage id u d.stored_now stored gone app there
                        refl h)
                      (λ a k.
                        re-erased-Tracks host before w.storage id u stored.message.channel_id
                          d.stored_now gone a refl k),
                )))
        where
          gone : MemoryMessage
          gone = record stored {
            deleted_at_unix_ms = some d.stored_now;
            deleted_by_user_id = some u;
          }

      answered-Goes : (c : ChatCall) → IsFresh policy w c → Goes w (answered policy w c)
      unfolding answered Chat.send_chat_message Chat.delete_chat_message name_of is_admin
          soft_delete_message
      answered-Goes (says d u channel body) new = send_named-Goes d u channel body _ new
      answered-Goes (erases d u id) new =
          delete_found-Goes d u id _ (get id w.storage.messages) refl

  abbrev Shown : Map MemoryMessage → World MemoryInner × LightDiscordApp → Type 0
  Shown before x = Tracks before x.0.storage.messages x.1

  run-Shown :
      (before : Map MemoryMessage) (cs : List ChatCall) (w : World MemoryInner)
      (app : LightDiscordApp)
      → reaches t w.inner.users ≡ true
      → Tracks before w.storage.messages app
      → AreFresh policy w cs
      → Shown before (run w app cs)
  unfolding run
  run-Shown before [] w app r h new = h
  run-Shown before (c ∷ cs) w app r h new =
      let (same, tracks) = answered-Goes before app w r h c new.0 in
      run-Shown before cs (answered policy w c)
        (apply_all host app (inbox t (answered policy w c).sent))
        (subst (λ (i : InnerState). reaches t i.users ≡ true) (sym same) r) tracks new.1

  -- While users send and delete messages in any channels, each new message with an identifier that
  -- is not stored, on a server that stores in memory, a client whose connection is among those of
  -- the server gets the frames of its channel in order. If at first every message that it shows is
  -- stored in the channel it is in and is not deleted, then so is every message that it shows
  -- afterwards, and it shows every message of its channel that was stored since and is not
  -- deleted.
  pub run-Tracks :
      (w : World MemoryInner) (app : LightDiscordApp) (cs : List ChatCall)
      → reaches t w.inner.users ≡ true
      → AllLive w.storage.messages app
      → AreFresh policy w cs
      → Tracks w.storage.messages (run w app cs).0.storage.messages (run w app cs).1
  run-Tracks w app cs r live fresh =
      run-Shown w.storage.messages cs w app r
        (live, λ id v at _ _ gone. absurd (ground (arith, at, gone))) fresh
