-- ===== src/Server/Voice.antt =====
-- Voice rooms and the relay of voice packets (crates/light-discord-server/src/main.rs), and
-- `disconnect_user`, which leaves them.
use light_discord.Common.{
  List, Option, Result, Text, [], err, if◌then◌else◌, keep, map, none, not, ok, some, text_eq, ℕ,
  ◌∷◌,
}
use light_discord.Common.Maps.{
  Map, Set, get, insert, remove, contains, include, exclude, contains_key,
}
use light_discord.Protocol.{VoiceUser, voice_state, screen_share_stopped}
use light_discord.Wire.Packet.{VoicePacket, VoicePacketBinaryError}
use light_discord.Wire.Decode.{decode_voice_packet_binary}
use light_discord.Server.State.{SocketAddr, UserConnection, World, broadcast, broadcast_user_list}
pub mod Rooms

-- `members.remove(user_id)` in every room.
unfoldable pub leave_rooms : Text → Map Set → Map Set
leave_rooms user_id rooms = map (λ e. (e.0, exclude user_id e.1)) rooms

-- The rooms of which the user was a member.
unfoldable pub rooms_of : Text → Map Set → List Text
rooms_of user_id rooms = map (λ e. e.0) (keep (λ e. contains user_id e.1) rooms)

abbrev members_of : Option Set → Set
members_of none = []
members_of (some members) = members

-- `voice_rooms.get(room_id)`, empty if there is no such room.
unfoldable pub room : Text → Map Set → Set
room room_id rooms = members_of (get room_id rooms)

-- What a `filter_map` keeps of one item.
unfoldable pub push_found {ℓ} : {A : Type ℓ} → Option A → List A → List A
push_found none rest = rest
push_found (some a) rest = a ∷ rest

-- `filter_map`
unfoldable pub found {ℓ κ} : {A : Type ℓ} {B : Type κ} → (A → Option B) → List A → List B
unfolding push_found
found f [] = []
found f (a ∷ rest) = push_found (f a) (found f rest)

abbrev shown_as : Text → Option UserConnection → Option VoiceUser
shown_as user_id none = none
shown_as user_id (some user) = some (record { user_id = user_id; display_name = user.display_name })

abbrev voice_user : Map UserConnection → Text → Option VoiceUser
voice_user users user_id = shown_as user_id (get user_id users)

-- The rooms after `join_voice`.
unfoldable pub joined : Text → Text → Map Set → Map Set
unfolding leave_rooms room
joined user_id room_id rooms =
    let left = leave_rooms user_id rooms in
    insert room_id (include user_id (room room_id left)) left

module _ {S : Type 0} where
  unfoldable pub broadcast_voice_state : World S → Text → World S
  unfolding room found
  broadcast_voice_state w room_id =
      broadcast w
        (voice_state room_id (found (voice_user w.inner.users) (room room_id w.inner.voice_rooms)))

  unfoldable pub broadcast_voice_states : World S → List Text → World S
  unfolding broadcast_voice_state
  broadcast_voice_states w [] = w
  broadcast_voice_states w (room_id ∷ rooms) =
      broadcast_voice_states (broadcast_voice_state w room_id) rooms

  abbrev pub with_rooms : World S → Map Set → World S
  with_rooms w rooms = record w { inner = record w.inner { voice_rooms = rooms } }

  unfoldable pub join_voice : World S → Text → Text → World S
  unfolding broadcast_voice_state joined
  join_voice w user_id room_id =
      broadcast_voice_state (with_rooms w (joined user_id room_id w.inner.voice_rooms)) room_id

  unfoldable pub leave_voice : World S → Text → World S
  unfolding broadcast_voice_states leave_rooms rooms_of
  leave_voice w user_id =
      broadcast_voice_states (with_rooms w (leave_rooms user_id w.inner.voice_rooms))
        (rooms_of user_id w.inner.voice_rooms)

  -- What `disconnect_user` takes out under the lock.
  unfoldable pub forgotten : World S → Text → World S
  unfolding leave_rooms
  forgotten w user_id = record w {
    inner = record {
      users = remove user_id w.inner.users;
      voice_rooms = leave_rooms user_id w.inner.voice_rooms;
      voice_addrs = remove user_id w.inner.voice_addrs;
      screen_shares = remove user_id w.inner.screen_shares;
    };
  }

  unfoldable pub disconnect_user : World S → Text → World S
  unfolding forgotten broadcast_voice_states rooms_of
  disconnect_user w user_id =
      let gone = forgotten w user_id in
      let stopped =
        if contains_key user_id w.inner.screen_shares
        then broadcast gone (screen_share_stopped user_id)
        else gone in
      broadcast_voice_states (broadcast_user_list stopped) (rooms_of user_id w.inner.voice_rooms)

  unfoldable pub remember_voice_addr : World S → Text → SocketAddr → World S
  remember_voice_addr w user_id addr = record w {
    inner = record w.inner { voice_addrs = insert user_id addr w.inner.voice_addrs };
  }

  unfoldable pub voice_targets : World S → Text → Text → List SocketAddr
  unfolding room found
  voice_targets w room_id sender_id =
      found (λ user_id. get user_id w.inner.voice_addrs)
        (keep (λ user_id. not (text_eq user_id sender_id)) (room room_id w.inner.voice_rooms))

  -- One turn of `run_voice_relay`: the state that it leaves and the datagrams that it sends, for a
  -- datagram received from `from`.
  unfoldable pub relay_packet :
      World S → List ℕ → SocketAddr → VoicePacket → World S × List (SocketAddr × List ℕ)
  unfolding remember_voice_addr voice_targets
  relay_packet w buf from packet =
      let known = remember_voice_addr w packet.user_id from in
      (known, map (λ target. (target, buf)) (voice_targets known packet.room_id packet.user_id))

  unfoldable pub relay_decoded :
      World S
      → List ℕ
      → SocketAddr
      → Result VoicePacket VoicePacketBinaryError
      → World S × List (SocketAddr × List ℕ)
  unfolding relay_packet
  relay_decoded w buf from (err e) = (w, [])
  relay_decoded w buf from (ok packet) = relay_packet w buf from packet

  unfoldable pub relay_step : World S → List ℕ → SocketAddr → World S × List (SocketAddr × List ℕ)
  unfolding relay_decoded
  relay_step w buf from = relay_decoded w buf from (decode_voice_packet_binary buf)
