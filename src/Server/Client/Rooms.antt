-- ===== src/Server/Client/Rooms.antt =====
-- Nobody is in two voice rooms, whatever the clients send; and what a disconnection leaves.
use light_discord.Common.{
  Bool, List, Text, arith, false, none, subst, sym, text_eq, text_eq_refl, ◌≡◌,
}
use light_discord.Common.Maps.{get, get-remove_self, get-remove}
use light_discord.Auth.{Hashes}
use light_discord.Storage.Interface.{Storage}
use light_discord.Server.State.{InnerState, World}
use light_discord.Server.Chat.{Draws}
use light_discord.Server.Voice as Voice
use light_discord.Server.Client.Changes.{
  Change, registers, forgets, joins, leaves, remembers, shares, unshares, disconnect_user-inner,
  serve-keeps,
}
use light_discord.Server.Voice.{forgotten}
use light_discord.Server.Voice.Rooms.{
  OneRoom, leave_rooms-OneRoom, joined-OneRoom, member, member-leave_rooms,
}
use light_discord.Server.Screen.Relay.{SharesValid, insert-SharesValid, remove-SharesValid}
use light_discord.Server.Client.{Event, serve}

Change-OneRoom : (i j : InnerState) → Change i j → OneRoom i.voice_rooms → OneRoom j.voice_rooms
Change-OneRoom i _ (registers u c) one = one
Change-OneRoom i _ (forgets u) one = leave_rooms-OneRoom u i.voice_rooms one
Change-OneRoom i _ (joins u r) one = joined-OneRoom u r i.voice_rooms one
Change-OneRoom i _ (leaves u) one = leave_rooms-OneRoom u i.voice_rooms one
Change-OneRoom i _ (remembers u a) one = one
Change-OneRoom i _ (shares u share v) one = one
Change-OneRoom i _ (unshares u) one = one

Change-SharesValid :
    (i j : InnerState) → Change i j → SharesValid i.screen_shares → SharesValid j.screen_shares
Change-SharesValid i _ (registers u c) all = all
Change-SharesValid i _ (forgets u) all = remove-SharesValid u i.screen_shares all
Change-SharesValid i _ (joins u r) all = all
Change-SharesValid i _ (leaves u) all = all
Change-SharesValid i _ (remembers u a) all = all
Change-SharesValid i _ (shares u share v) all = insert-SharesValid u share i.screen_shares v all
Change-SharesValid i _ (unshares u) all = remove-SharesValid u i.screen_shares all

module _ {S : Type 0} (api : Storage S) (hashes : Hashes) (allow_dev_auth : Bool) where
  -- In every run of events from a state where nobody is in two voice rooms, nobody ever is.
  pub serve-OneRoom :
      (w : World S) (events : List (Draws × Event))
      → OneRoom w.inner.voice_rooms
      → OneRoom (serve api hashes allow_dev_auth w events).inner.voice_rooms
  serve-OneRoom = serve-keeps api hashes allow_dev_auth (λ i. OneRoom i.voice_rooms) Change-OneRoom

  -- In every run of events from a state where each screen share has a name, a size, a frame rate
  -- that its mode allows, the codec JPEG and the relay as its transport, each always has.
  pub serve-SharesValid :
      (w : World S) (events : List (Draws × Event))
      → SharesValid w.inner.screen_shares
      → SharesValid (serve api hashes allow_dev_auth w events).inner.screen_shares
  serve-SharesValid =
      serve-keeps api hashes allow_dev_auth (λ i. SharesValid i.screen_shares) Change-SharesValid

-- Nothing of the user is left in the state.
abbrev pub IsGone : Text → InnerState → Type 0
IsGone u i =
    (get u i.users ≡ none)
    × (get u i.voice_addrs ≡ none)
    × (get u i.screen_shares ≡ none)
    × ((r : Text) → member u r i.voice_rooms ≡ false)

-- Another user's connection, address, share and rooms are the same in both states.
abbrev pub SameFor : Text → InnerState → InnerState → Type 0
SameFor v i j =
    (get v i.users ≡ get v j.users)
    × (get v i.voice_addrs ≡ get v j.voice_addrs)
    × (get v i.screen_shares ≡ get v j.screen_shares)
    × ((r : Text) → member v r i.voice_rooms ≡ member v r j.voice_rooms)

forgotten-IsGone : {S : Type 0} (w : World S) (u : Text) → IsGone u (forgotten w u).inner
unfolding forgotten
forgotten-IsGone w u = (
  get-remove_self u w.inner.users,
  get-remove_self u w.inner.voice_addrs,
  get-remove_self u w.inner.screen_shares,
  λ r. ground (arith, text_eq_refl u, member-leave_rooms u u r w.inner.voice_rooms),
)

forgotten-SameFor :
    {S : Type 0} (w : World S) (u v : Text)
    → text_eq u v ≡ false
    → SameFor v (forgotten w u).inner w.inner
unfolding forgotten
forgotten-SameFor w u v other = (
  ground (arith, other, get-remove u v w.inner.users),
  ground (arith, other, get-remove u v w.inner.voice_addrs),
  ground (arith, other, get-remove u v w.inner.screen_shares),
  λ r. ground (arith, other, member-leave_rooms u v r w.inner.voice_rooms),
)

-- After a disconnection no connection, voice address, screen share or room membership of the user
-- is left, and those of everybody else are what they were.
pub disconnect_user-IsGone :
    {S : Type 0} (w : World S) (u : Text)
    → IsGone u (Voice.disconnect_user w u).inner
      × ((v : Text) → text_eq u v ≡ false → SameFor v (Voice.disconnect_user w u).inner w.inner)
disconnect_user-IsGone w u = (
  subst (IsGone u) (sym (disconnect_user-inner w u)) (forgotten-IsGone w u),
  λ v other.
      subst (λ i. SameFor v i w.inner) (sym (disconnect_user-inner w u))
        (forgotten-SameFor w u v other),
)
