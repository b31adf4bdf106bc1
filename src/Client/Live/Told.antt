-- ===== src/Client/Live/Told.antt =====
-- What the frames of a message that is saved or deleted do to what a client shows
-- (crates/light-discord-client/src/app.rs).
use light_discord.Common.{
  All, All-append, Bool-cases, List, Text, [], ap, arith, false, if-elim, inl, inr, is_some, none,
  refl, some, subst, sym, text_eq, true, ℕ, ◌∙◌, ◌∷◌, ◌≡◌,
}
use light_discord.Common.Maps.{Map, get, insert, get-insert, get-insert_self}
use light_discord.Protocol.{ChatMessage, ServerFrame, message, message_deleted}
use light_discord.Storage.Memory.{MemoryInner, MemoryMessage}
use light_discord.Storage.Memory.Messages.{save_message}
use light_discord.Client.{LightDiscordApp}
use light_discord.Client.Frames.{Host, apply_server_frame, apply_all}
use light_discord.Client.Live.{
  IsLive, shows, AllLive, Knows, Tracks, some-injective, shows-append, is_other, All-keep,
  shows-keep, AllLive-insert_new, AllLive-keep, AllLive-other,
}

module _ (host : Host) where
  -- A frame that comes once or more often, when the first makes true what every further one keeps.
  pub apply_all-same :
      (P : LightDiscordApp → Type 0) (f : ServerFrame) (fs : List ServerFrame)
      → ((app : LightDiscordApp) → P app → P (apply_server_frame host app f))
      → All (λ g. g ≡ f) fs
      → (app : LightDiscordApp) → P app
      → P (apply_all host app fs)
  unfolding apply_all
  apply_all-same P f [] keeps same app p = p
  apply_all-same P f (g ∷ fs) keeps same app p =
      apply_all-same P f fs keeps same.1 (apply_server_frame host app g)
        (subst (λ h. P (apply_server_frame host app h)) (sym same.0) (keeps app p))

  message-AllLive :
      (stored : Map MemoryMessage) (m : ChatMessage) (app : LightDiscordApp)
      → (text_eq m.channel_id app.channel_id ≡ true → IsLive stored app.channel_id m)
      → AllLive stored app
      → AllLive stored (apply_server_frame host app (message m))
  unfolding apply_server_frame
  message-AllLive stored m app self h =
      if-elim (All (IsLive stored app.channel_id)) (text_eq m.channel_id app.channel_id)
        (λ here. All-append (IsLive stored app.channel_id) app.messages (m ∷ []) h (self here, tt))
        (λ _. h)

  message-shows :
      (id : Text) (m : ChatMessage) (app : LightDiscordApp)
      → shows id app.messages ≡ true
      → shows id (apply_server_frame host app (message m)).messages ≡ true
  unfolding apply_server_frame
  message-shows id m app h =
      if-elim (λ l. shows id l ≡ true) (text_eq m.channel_id app.channel_id)
        (λ _. ground (arith, h, shows-append id app.messages (m ∷ []))) (λ _. h)

  message-shows_itself :
      (id : Text) (m : ChatMessage) (app : LightDiscordApp)
      → text_eq m.id id ≡ true
      → text_eq m.channel_id app.channel_id ≡ true
      → shows id (apply_server_frame host app (message m)).messages ≡ true
  unfolding apply_server_frame shows
  message-shows_itself id m app same here =
      rw here (ground (arith, same, shows-append id app.messages (m ∷ [])))

  module _ (before : Map MemoryMessage) (s : MemoryInner) where
    saved-IsLive :
        (m : ChatMessage) (channel_id : Text)
        → text_eq m.channel_id channel_id ≡ true
        → IsLive (save_message s m).messages channel_id m
    unfolding save_message
    saved-IsLive m channel_id here = (
      record { message = m; deleted_at_unix_ms = none; deleted_by_user_id = none },
      get-insert_self m.id _ s.messages,
      refl,
      refl,
      here,
    )

    saved-Knows :
        (m : ChatMessage) (app : LightDiscordApp)
        → Knows before s.messages app
        → Knows before (save_message s m).messages (apply_server_frame host app (message m))
    unfolding save_message apply_server_frame
    saved-Knows m app h id v at live here fresh =
        let told : MemoryMessage = record {
          message = m;
          deleted_at_unix_ms = none;
          deleted_by_user_id = none;
        } in
        let found = get-insert m.id id told s.messages in
        elim (Bool-cases (text_eq m.id id)) [
          | inl same ↦
              let one = some-injective told v (sym (found ∙ rw same refl) ∙ at) in
              message-shows_itself id m app same (
                subst (λ (x : MemoryMessage). text_eq x.message.channel_id app.channel_id ≡ true)
                  (sym one) here)
          | inr other ↦
              message-shows id m app (h id v (sym (found ∙ rw other refl) ∙ at) live here fresh)
        ]

    -- A saved message, told to the client.
    pub saved-Tracks :
        (m : ChatMessage) (app : LightDiscordApp)
        → get m.id s.messages ≡ none
        → Tracks before s.messages app
        → Tracks before (save_message s m).messages (apply_server_frame host app (message m))
    unfolding save_message apply_server_frame
    saved-Tracks m app new h = (
      message-AllLive (save_message s m).messages m app (saved-IsLive m app.channel_id) (
          AllLive-insert_new s.messages app.channel_id m.id
            (record { message = m; deleted_at_unix_ms = none; deleted_by_user_id = none })
            app.messages new h.0),
      λ id v at live here fresh. saved-Knows m app h.1 id v at live here fresh,
    )

    pub resaved-Tracks :
        (m : ChatMessage) (app : LightDiscordApp)
        → Tracks before (save_message s m).messages app
        → Tracks before (save_message s m).messages (apply_server_frame host app (message m))
    unfolding apply_server_frame
    resaved-Tracks m app h = (
      message-AllLive (save_message s m).messages m app (saved-IsLive m app.channel_id) h.0,
      λ id v at live here fresh. message-shows id m app (h.1 id v at live here fresh),
    )

    before_deletion :
        (id j : Text) (gone v : MemoryMessage)
        → is_some gone.deleted_at_unix_ms ≡ true
        → get j (insert id gone s.messages) ≡ some v
        → v.deleted_at_unix_ms ≡ none
        → (text_eq id j ≡ false) × (get j s.messages ≡ some v)
    before_deletion id j gone v dead stored live = elim (Bool-cases (text_eq id j)) [
      | inl same ↦
          let one =
            some-injective gone v (sym (get-insert id j gone s.messages ∙ rw same refl) ∙ stored) in
          absurd (
            ground (
              arith,
              subst (λ (x : MemoryMessage). is_some x.deleted_at_unix_ms ≡ true) one dead,
              ap is_some live,
            ))
      | inr other ↦ (other, sym (get-insert id j gone s.messages ∙ rw other refl) ∙ stored)
    ]

    deleted-shows :
        (id by channel_id : Text) (at : ℕ) (app : LightDiscordApp) (j : Text)
        → text_eq id j ≡ false
        → shows j app.messages ≡ true
        → shows j (apply_server_frame host app (message_deleted id channel_id by at)).messages
          ≡ true
    unfolding apply_server_frame
    deleted-shows id by channel_id at app j apart h =
        if-elim (λ l. shows j l ≡ true) (text_eq channel_id app.channel_id)
          (λ _. shows-keep id j app.messages apart ∙ h) (λ _. h)

    pub erased-Tracks :
        (id by : Text) (at : ℕ) (w gone : MemoryMessage) (app : LightDiscordApp)
        → get id s.messages ≡ some w
        → is_some gone.deleted_at_unix_ms ≡ true
        → Tracks before s.messages app
        → Tracks before
            (insert id gone s.messages)
            (apply_server_frame host app (message_deleted id w.message.channel_id by at))
    unfolding apply_server_frame
    erased-Tracks id by at w gone app there dead h = (
      if-elim (All (IsLive (insert id gone s.messages) app.channel_id))
          (text_eq w.message.channel_id app.channel_id)
          (λ _. AllLive-keep s.messages app.channel_id id gone app.messages h.0)
          (λ apart. AllLive-other s.messages app.channel_id id gone w app.messages there apart h.0),
      λ j v stored live here fresh.
          let (other, old) = before_deletion id j gone v dead stored live in
          deleted-shows id by w.message.channel_id at app j other (h.1 j v old live here fresh),
    )

    pub re-erased-Tracks :
        (id by channel_id : Text) (at : ℕ) (gone : MemoryMessage) (app : LightDiscordApp)
        → is_some gone.deleted_at_unix_ms ≡ true
        → Tracks before (insert id gone s.messages) app
        → Tracks before
            (insert id gone s.messages)
            (apply_server_frame host app (message_deleted id channel_id by at))
    unfolding apply_server_frame
    re-erased-Tracks id by channel_id at gone app dead h = (
      if-elim (All (IsLive (insert id gone s.messages) app.channel_id))
          (text_eq channel_id app.channel_id)
          (λ _.
            All-keep (IsLive (insert id gone s.messages) app.channel_id) (is_other id) app.messages
              h.0)
          (λ _. h.0),
      λ j v stored live here fresh.
          deleted-shows id by channel_id at app j (before_deletion id j gone v dead stored live).0
            (h.1 j v stored live here fresh),
    )
