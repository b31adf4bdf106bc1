-- ===== src/Server/Screen/Relay/Frames.antt =====
-- Which frames of a screen share the server relays, and what each connection gets of one
-- (`broadcast_screen_share_frame` of crates/light-discord-server/src/main.rs).
use light_discord.Common.{
  List, Option, Result, Text, [], ap, append-nil, arith, err, if◌then◌else◌, inl, inr, none, not,
  ok, refl, some, sym, text_eq, ℕ, ◌&&◌, ◌++◌, ◌==◌, ◌∙◌, ◌∷◌, ◌≡◌, ◌⊎◌,
}
use light_discord.Common.Maps.{Map, get}
use light_discord.Protocol.{
  ServerFrame, ScreenShareFramePayload, ErrorMessage, error, screen_share_frame_sent,
}
use light_discord.Server.State.{
  UserConnection, ScreenShareInfo, World, display_name_of, send_on, send_to, broadcast_except,
  copies, others, name_of,
}
use light_discord.Server.Screen.{
  relay_named, relay_checked, broadcast_screen_share_frame, share_frame,
}
use light_discord.Server.Screen.Relay.Checks.{
  IsFrameOf, checked, checked-IsFrameOf, IsFrameOf-checked,
}

-- The frames that the channel `t` has got, in their order.
unfoldable pub inbox : ℕ → List (ℕ × ServerFrame) → List ServerFrame
inbox t [] = []
inbox t ((tx, frame) ∷ sent) = let rest = inbox t sent in if tx == t then frame ∷ rest else rest

-- The frame, once for each connection with the channel `t` that is not the user's.
unfoldable pub for_others : Text → ℕ → ServerFrame → Map UserConnection → List ServerFrame
for_others u t frame [] = []
for_others u t frame ((j, user) ∷ users) =
    let rest = for_others u t frame users in
    if user.tx == t && not (text_eq j u) then frame ∷ rest else rest

-- The frame, if the connection is there and its channel is `t`.
abbrev pub for_user : ℕ → ServerFrame → Option UserConnection → List ServerFrame
for_user t frame none = []
for_user t frame (some user) = if user.tx == t then frame ∷ [] else []

inbox-append :
    (t : ℕ) (xs ys : List (ℕ × ServerFrame)) → inbox t (xs ++ ys) ≡ inbox t xs ++ inbox t ys
unfolding inbox
inbox-append t [] ys = refl
inbox-append t ((tx, frame) ∷ xs) ys = ground (arith, inbox-append t xs ys)

inbox-one :
    (t : ℕ) (user : UserConnection) (frame : ServerFrame)
    → inbox t ((user.tx, frame) ∷ []) ≡ for_user t frame (some user)
unfolding inbox
inbox-one t user frame = refl

err-apart {ℓ κ} : {A : Type ℓ} {E : Type κ} (e : E) (a : A) → ¬ (err e ≡ ok a)
err-apart e a h = absurd cc

inbox-copies :
    (u : Text) (t : ℕ) (frame : ServerFrame) (users : Map UserConnection)
    → inbox t (copies (others u users) frame) ≡ for_others u t frame users
unfolding inbox others for_others
inbox-copies u t frame [] = refl
inbox-copies u t frame ((j, user) ∷ users) = ground (arith, inbox-copies u t frame users)

module _ {S : Type 0} (w : World S) (u : Text) (f : ScreenShareFramePayload) where
  -- The share of the sender, if the frame is of it.
  abbrev pub IsRelayable : ScreenShareInfo → Type 0
  IsRelayable share = (get u w.inner.screen_shares ≡ some share) × IsFrameOf f share

  -- The frame that the others get: the picture as it came, and the rest as the share has it.
  abbrev pub relayed_frame : Text → ScreenShareInfo → ServerFrame
  relayed_frame display_name share = screen_share_frame_sent (record {
    user_id = u;
    display_name = display_name;
    width = f.width;
    height = f.height;
    image_format = f.image_format;
    mode = share.mode;
    resolution = share.resolution;
    target_fps = share.target_fps;
    codec = share.active_codec;
    transport = share.transport;
    data_base64 = f.data_base64;
    sequence = f.sequence;
    unix_ms = f.unix_ms;
  })

  -- Each channel gets what `extra` says of it, and nothing else changes.
  abbrev pub Gets : World S → (ℕ → List ServerFrame) → Type 0
  Gets x extra =
      (x.inner ≡ w.inner)
      × (x.storage ≡ w.storage)
      × ((t : ℕ) → inbox t x.sent ≡ inbox t w.sent ++ extra t)

  -- What the others get of a frame of the share, by the connection of the sender.
  abbrev pub relayed : ScreenShareInfo → Option UserConnection → ℕ → List ServerFrame
  relayed share none t = []
  relayed share (some user) t = for_others u t (relayed_frame user.display_name share) w.inner.users

  abbrev pub Outcome : World S → Type 0
  Outcome x =
      ((¬ ((share : ScreenShareInfo) × IsRelayable share))
        × ((e : ErrorMessage) × Gets x (λ t. for_user t (error e) (get u w.inner.users))))
      ⊎ ((share : ScreenShareInfo) × IsRelayable share
          × Gets x (relayed share (get u w.inner.users)))

  send_on-Gets :
      (o : Option UserConnection) (frame : ServerFrame)
      → Gets (send_on w o frame) (λ t. for_user t frame o)
  unfolding send_on
  send_on-Gets none frame = (refl, refl, λ t. sym (append-nil (inbox t w.sent)))
  send_on-Gets (some user) frame = (
    refl,
    refl,
    λ t.
        inbox-append t w.sent ((user.tx, frame) ∷ [])
        ∙ ap (λ l. inbox t w.sent ++ l) (inbox-one t user frame),
  )

  relay_named-Gets :
      (share : ScreenShareInfo) (o : Option UserConnection)
      → Gets (relay_named w u f share (display_name_of o)) (relayed share o)
  unfolding relay_named share_frame broadcast_except
  relay_named-Gets share none = (refl, refl, λ t. sym (append-nil (inbox t w.sent)))
  relay_named-Gets share (some user) = (
    refl,
    refl,
    λ t.
        inbox-append t w.sent
          (copies (others u w.inner.users) (relayed_frame user.display_name share))
        ∙ ap (λ l. inbox t w.sent ++ l)
            (inbox-copies u t (relayed_frame user.display_name share) w.inner.users),
  )

  relay_checked-Outcome :
      (r : Result ScreenShareInfo ErrorMessage)
      → checked f (get u w.inner.screen_shares) ≡ r
      → Outcome (relay_checked w u f r)
  unfolding relay_checked send_to name_of
  relay_checked-Outcome (err e) h = inl (refused, (e, send_on-Gets (get u w.inner.users) (error e)))
    where
      refused : ¬ ((share : ScreenShareInfo) × IsRelayable share)
      refused (share, (there, is)) =
          err-apart e share (sym h ∙ ap (checked f) there ∙ IsFrameOf-checked f share is)
  relay_checked-Outcome (ok share) h = inr (
    share,
    checked-IsFrameOf f (get u w.inner.screen_shares) share h,
    relay_named-Gets share (get u w.inner.users),
  )

  -- A frame of a screen share that is not whole, or is larger than the active share of its sender
  -- or of another codec, or for which there is no share, earns the sender an error and nobody else
  -- anything. Every other frame, with the data of the share, goes once to each connection but the
  -- sender's and to no other channel, and nothing at all is sent when the sender has no
  -- connection. The state of the server and of the storage stays as it was.
  pub broadcast_screen_share_frame-Outcome : Outcome (broadcast_screen_share_frame w u f)
  unfolding broadcast_screen_share_frame
  broadcast_screen_share_frame-Outcome =
      relay_checked-Outcome (checked f (get u w.inner.screen_shares)) refl
