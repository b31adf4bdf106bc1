-- ===== src/Server/Sent/Handlers.antt =====
-- The frames that each handler of crates/light-discord-server/src/main.rs adds.
use light_discord.Common.{
  List, Option, Result, Text, err, if-elim, inl, none, ok, refl, some, true, ℕ, ◌>>=◌, ◌≡◌, ◌⊎◌,
}
use light_discord.Common.Maps.{Map, get, contains_key}
use light_discord.Protocol.{
  ServerFrame, ErrorMessage, ShareRequest, ScreenShareFramePayload, error, screen_share_stopped,
}
use light_discord.Server.State.{
  ScreenShareInfo, UserConnection, World, send_to, broadcast, broadcast_except, broadcast_user_list,
  name_of,
}
use light_discord.Server.Voice as Voice
use light_discord.Server.Screen as Screen
use light_discord.Server.Sent.{
  Adds, IsQuiet, Adds-none, Adds-trans, send_to-Grows, broadcast-Grows, broadcast_except-Grows,
  broadcast_voice_states-Grows,
}

-- The frame is not privileged, or its channel is that of an administrator's connection.
abbrev pub IsPermitted : Map UserConnection → ℕ × ServerFrame → Type 0
IsPermitted users (tx, f) =
    IsQuiet f
    ⊎ ((u : Text) × (c : UserConnection) × (get u users ≡ some c)
        × (c.tx ≡ tx)
        × (c.is_admin ≡ true))

module _ (users : Map UserConnection) where
  pub quiet-IsPermitted : (tx : ℕ) (f : ServerFrame) → IsQuiet f → IsPermitted users (tx, f)
  quiet-IsPermitted tx f h = inl h

  pub then_more :
      (a b c : List (ℕ × ServerFrame))
      → Adds (IsPermitted users) a b
      → Adds (IsPermitted users) b c
      → Adds (IsPermitted users) a c
  then_more = Adds-trans (IsPermitted users) quiet-IsPermitted

  module _ {S : Type 0} where
    -- The frames that the handler adds are permitted.
    abbrev pub Permits : World S → World S → Type 0
    Permits w x = Adds (IsPermitted users) w.sent x.sent

    pub to_one : (w : World S) (u : Text) (f : ServerFrame) → IsQuiet f → Permits w (send_to w u f)
    to_one = send_to-Grows (IsPermitted users) quiet-IsPermitted

    pub to_all : (w : World S) (f : ServerFrame) → IsQuiet f → Permits w (broadcast w f)
    to_all = broadcast-Grows (IsPermitted users) quiet-IsPermitted

    to_others :
        (w : World S) (u : Text) (f : ServerFrame) → IsQuiet f → Permits w (broadcast_except w u f)
    to_others = broadcast_except-Grows (IsPermitted users) quiet-IsPermitted

    pub disconnect_user-Permits : (w : World S) (u : Text) → Permits w (Voice.disconnect_user w u)
    unfolding Voice.disconnect_user broadcast_user_list
    disconnect_user-Permits w u =
        if-elim
          (λ (x : World S).
            Permits w x
            → Permits w (
                Voice.broadcast_voice_states (broadcast_user_list x)
                  (Voice.rooms_of u w.inner.voice_rooms)))
          (contains_key u w.inner.screen_shares) (λ _. end _) (λ _. end _)
          (if-elim (λ (x : World S). Permits w x) (contains_key u w.inner.screen_shares)
            (λ _. to_all (Voice.forgotten w u) (screen_share_stopped u) refl)
            (λ _. Adds-none (IsPermitted users) quiet-IsPermitted w.sent))
      where
        end :
            (x : World S)
            → Permits w x
            → Permits w (
                Voice.broadcast_voice_states
                  (broadcast_user_list x)
                  (Voice.rooms_of u w.inner.voice_rooms))
        end x h = then_more w.sent x.sent _ h (
            then_more x.sent (broadcast_user_list x).sent _ (to_all x _ refl) (
              broadcast_voice_states-Grows (IsPermitted users) quiet-IsPermitted
                (broadcast_user_list x) (Voice.rooms_of u w.inner.voice_rooms)))

    start_named-Permits :
        (w : World S) (u : Text) (r : ShareRequest) (requested : List Text) (codec : Text)
        (o : Option Text)
        → Permits w (Screen.start_named w u r requested codec o)
    unfolding Screen.start_named Screen.with_share
    start_named-Permits w u r requested codec none =
        Adds-none (IsPermitted users) quiet-IsPermitted w.sent
    start_named-Permits w u r requested codec (some name) =
        to_others (Screen.with_share w u (Screen.share_info r codec)) u _ refl

    start_checked-Permits :
        (w : World S) (u : Text) (r : ShareRequest) (c : Result (List Text × Text) ErrorMessage)
        → Permits w (Screen.start_checked w u r c)
    unfolding Screen.start_checked
    start_checked-Permits w u r (err e) = to_one w u (error e) refl
    start_checked-Permits w u r (ok (requested, codec)) =
        start_named-Permits w u r requested codec (name_of w u)

    pub start_screen_share-Permits :
        (w : World S) (u : Text) (r : ShareRequest) → Permits w (Screen.start_screen_share w u r)
    unfolding Screen.start_screen_share
    start_screen_share-Permits w u r = start_checked-Permits w u r (Screen.check_start r)

    pub stop_screen_share-Permits :
        (w : World S) (u : Text) → Permits w (Screen.stop_screen_share w u)
    unfolding Screen.stop_screen_share
    stop_screen_share-Permits w u =
        if-elim (λ (x : World S). Permits w x) (contains_key u w.inner.screen_shares)
          (λ _. to_others _ u (screen_share_stopped u) refl)
          (λ _. Adds-none (IsPermitted users) quiet-IsPermitted w.sent)

    relay_named-Permits :
        (w : World S) (u : Text) (f : ScreenShareFramePayload) (share : ScreenShareInfo)
        (o : Option Text)
        → Permits w (Screen.relay_named w u f share o)
    unfolding Screen.relay_named
    relay_named-Permits w u f share none = Adds-none (IsPermitted users) quiet-IsPermitted w.sent
    relay_named-Permits w u f share (some name) = to_others w u _ refl

    relay_checked-Permits :
        (w : World S) (u : Text) (f : ScreenShareFramePayload)
        (r : Result ScreenShareInfo ErrorMessage)
        → Permits w (Screen.relay_checked w u f r)
    unfolding Screen.relay_checked
    relay_checked-Permits w u f (err e) = to_one w u (error e) refl
    relay_checked-Permits w u f (ok share) = relay_named-Permits w u f share (name_of w u)

    pub broadcast_screen_share_frame-Permits :
        (w : World S) (u : Text) (f : ScreenShareFramePayload)
        → Permits w (Screen.broadcast_screen_share_frame w u f)
    unfolding Screen.broadcast_screen_share_frame
    broadcast_screen_share_frame-Permits w u f =
        relay_checked-Permits w u f
          (Screen.check_frame f >>= Screen.check_share f (get u w.inner.screen_shares))
