-- ===== src/Server/State.antt =====
-- `InnerState` and the sending of frames (crates/light-discord-server/src/main.rs). A connection's
-- `tx` is the number of its channel. `sent` lists the frames put into the channels, oldest first. An
-- unbounded channel takes every frame while its receiver lives, and the server ignores the error of
-- `tx.send`, so that only the order matters.
use light_discord.Common.{
  Bool, List, Option, Text, [], false, keep, map, none, not, some, text_eq, ℕ, ◌++◌, ◌∷◌,
}
use light_discord.Common.Maps.{Map, Set, get, insert}
use light_discord.Protocol.{
  UserSummary, ScreenShareMode, ScreenShareResolution, ServerFrame, user_list,
}

-- An address: the IP address as a number, and the port.
abbrev pub SocketAddr : Type 0
SocketAddr = ℕ × ℕ

pub record ScreenShareInfo : Type 0 where
  pub source_name : Text
  pub width : ℕ
  pub height : ℕ
  pub mode : ScreenShareMode
  pub resolution : ScreenShareResolution
  pub target_fps : ℕ
  pub active_codec : Text
  pub transport : Text

pub record UserConnection : Type 0 where
  pub display_name : Text
  pub is_admin : Bool
  pub tx : ℕ

pub record InnerState : Type 0 where
  pub users : Map UserConnection
  pub voice_rooms : Map Set
  pub voice_addrs : Map SocketAddr
  pub screen_shares : Map ScreenShareInfo

abbrev pub new_inner : InnerState
new_inner = record { users = []; voice_rooms = []; voice_addrs = []; screen_shares = [] }

-- The server: its state, the storage's, and the frames sent.
pub record World (S : Type 0) : Type 0 where
  pub inner : InnerState
  pub storage : S
  pub sent : List (ℕ × ServerFrame)

-- The frame for each connection of the list.
abbrev pub copies : Map UserConnection → ServerFrame → List (ℕ × ServerFrame)
copies targets frame = map (λ e. ((e.1).tx, frame)) targets

unfoldable pub others : Text → Map UserConnection → Map UserConnection
others user_id users = keep (λ e. not (text_eq e.0 user_id)) users

abbrev summary : Text × UserConnection → UserSummary
summary e = record { user_id = e.0; display_name = (e.1).display_name }

abbrev pub display_name_of : Option UserConnection → Option Text
display_name_of none = none
display_name_of (some user) = some user.display_name

abbrev pub admin_of : Option UserConnection → Bool
admin_of none = false
admin_of (some user) = user.is_admin

module _ {S : Type 0} where
  unfoldable pub register_connection : World S → Text → Text → Bool → ℕ → World S
  register_connection w user_id display_name is_admin tx = record w {
    inner = record w.inner {
      users =
          insert user_id (record { display_name = display_name; is_admin = is_admin; tx = tx })
            w.inner.users;
    };
  }

  -- `tx.send(frame)` if there is a connection.
  unfoldable pub send_on : World S → Option UserConnection → ServerFrame → World S
  send_on w none frame = w
  send_on w (some user) frame = record w { sent = w.sent ++ ((user.tx, frame) ∷ []) }

  unfoldable pub send_to : World S → Text → ServerFrame → World S
  unfolding send_on
  send_to w user_id frame = send_on w (get user_id w.inner.users) frame

  unfoldable pub broadcast : World S → ServerFrame → World S
  broadcast w frame = record w { sent = w.sent ++ copies w.inner.users frame }

  unfoldable pub broadcast_except : World S → Text → ServerFrame → World S
  unfolding others
  broadcast_except w user_id frame = record w {
    sent = w.sent ++ copies (others user_id w.inner.users) frame;
  }

  unfoldable pub broadcast_user_list : World S → World S
  unfolding broadcast
  broadcast_user_list w = broadcast w (user_list (map summary w.inner.users))

  -- `inner.users.get(user_id).map(|user| user.display_name.clone())`
  unfoldable pub name_of : World S → Text → Option Text
  name_of w user_id = display_name_of (get user_id w.inner.users)

  unfoldable pub is_admin : World S → Text → Bool
  is_admin w user_id = admin_of (get user_id w.inner.users)
