-- ===== src/Server/Client/Examples.antt =====
-- A server with two users on which the theorems about it are applied, with the store in memory.
use light_discord.Common.{
  List, Text, [], false, not, ok, refl, some, text, text_eq, true, ◌↔◌, ◌∷◌, ◌≡◌,
}
use mathlib.Core.List.{Memᴰ}
use light_discord.Common.Maps.{get, contains}
use light_discord.Protocol.{
  hello, admin_create_invite, join_voice, ScreenShareFramePayload, game_mode, default_resolution,
  screen_share_transport_sfu_relay, screen_share_codec_jpeg,
}
use light_discord.Auth.{Hashes}
use light_discord.Storage.Types.{RetentionPolicy}
use light_discord.Storage.Memory.{MemoryInner, empty_inner}
use light_discord.Storage.Interface.{Storage, memory_storage}
use light_discord.Server.State.{World, new_inner, ScreenShareInfo}
use light_discord.Server.Chat.{Draws}
use light_discord.Server.Voice.{voice_targets, disconnect_user, room}
use light_discord.Server.Voice.Rooms.{OneRoom, member, voice_targets_iff}
use light_discord.Server.Screen.{broadcast_screen_share_frame}
use light_discord.Server.Screen.Relay.{SharesValid}
use light_discord.Server.Screen.Relay.Frames.{Outcome, broadcast_screen_share_frame-Outcome}
use light_discord.Server.Login.{AuthenticatedUser, authenticate_first_frame}
use light_discord.Server.Login.Outcomes.{IsAdmitted, authenticate_first_frame-IsAdmitted}
use light_discord.Server.Sent.{Adds}
use light_discord.Server.Sent.Handlers.{IsPermitted}
use light_discord.Server.Client.Privilege.{handle-IsPermitted}
use light_discord.Server.Client.{Event, line, handle, serve}
use light_discord.Server.Client.Rooms.{
  serve-OneRoom, serve-SharesValid, IsGone, SameFor, disconnect_user-IsGone,
}

abbrev month : RetentionPolicy
month = record { visible_history_days = 30; audit_log_days = 30 }

abbrev store : Storage MemoryInner
store = memory_storage month

-- Hash functions that keep their input.
abbrev plain : Hashes
plain = record {
  sha256 = λ bytes. bytes;
  argon2_hash = λ password. ok password;
  parse_hash = λ hash. some hash;
  argon2_verify = λ password hash. text_eq password hash;
}

abbrev drawn : Draws
drawn = record {
  now = 5;
  stored_now = 5;
  id = text "u1";
  stored_id = text "a1";
  secret = text "s1";
}

abbrev share : ScreenShareInfo
share = record {
  source_name = text "desk";
  width = 4;
  height = 3;
  mode = game_mode;
  resolution = default_resolution;
  target_fps = 30;
  active_codec = screen_share_codec_jpeg;
  transport = screen_share_transport_sfu_relay;
}

-- Ann and Bob are connected, both in one room, and Ann shares her screen.
abbrev two_users : World MemoryInner
two_users = record {
  inner = record {
    users =
        (text "ann", record { display_name = text "Ann"; is_admin = true; tx = 1 })
        ∷ (text "bob", record { display_name = text "Bob"; is_admin = false; tx = 2 })
        ∷ [];
    voice_rooms = (text "lobby", text "ann" ∷ text "bob" ∷ []) ∷ [];
    voice_addrs = (text "bob", (9, 41612)) ∷ [];
    screen_shares = (text "ann", share) ∷ [];
  };
  storage = empty_inner;
  sent = [];
}

abbrev start : World MemoryInner
start = record { inner = new_inner; storage = empty_inner; sent = [] }

start-OneRoom : OneRoom start.inner.voice_rooms
unfolding get contains room
start-OneRoom u r q hr hq = absurd cc

start-SharesValid : SharesValid start.inner.screen_shares
unfolding get
start-SharesValid u i h = absurd cc

abbrev events : List (Draws × Event)
events = (drawn, line (text "ann") (ok (join_voice (text "lobby")))) ∷ []

serve-OneRoom_example : OneRoom (serve store plain true start events).inner.voice_rooms
serve-OneRoom_example = serve-OneRoom store plain true start events start-OneRoom

serve-SharesValid_example : SharesValid (serve store plain true start events).inner.screen_shares
serve-SharesValid_example = serve-SharesValid store plain true start events start-SharesValid

disconnect_user-IsGone_example :
    IsGone (text "ann") (disconnect_user two_users (text "ann")).inner
    × ((v : Text)
        → text_eq (text "ann") v ≡ false
        → SameFor v (disconnect_user two_users (text "ann")).inner two_users.inner)
disconnect_user-IsGone_example = disconnect_user-IsGone two_users (text "ann")

voice_targets_iff_example :
    Memᴰ (9, 41612) (voice_targets two_users (text "lobby") (text "ann")) ↔ (
      (user_id : Text) × (member user_id (text "lobby") two_users.inner.voice_rooms ≡ true)
      × (not (text_eq user_id (text "ann")) ≡ true)
      × (get user_id two_users.inner.voice_addrs ≡ some (9, 41612)))
voice_targets_iff_example = voice_targets_iff two_users (text "lobby") (text "ann") (9, 41612)

abbrev requested : List Text
requested = text " AV1" ∷ text "JPEG" ∷ text "jpeg" ∷ []

abbrev frame : ScreenShareFramePayload
frame = record {
  width = 4;
  height = 3;
  image_format = text "jpeg";
  codec = text "JPEG";
  transport = text "sfu_relay";
  data_base64 = text "AAAA";
  sequence = 0;
  unix_ms = 5;
}

broadcast_screen_share_frame-Outcome_example :
    Outcome two_users (text "ann") frame (broadcast_screen_share_frame two_users (text "ann") frame)
broadcast_screen_share_frame-Outcome_example =
    broadcast_screen_share_frame-Outcome two_users (text "ann") frame

hello_run :
    (a : AuthenticatedUser) × ((authenticate_first_frame store plain drawn true empty_inner
        (hello (text "Ann"))).0
      ≡ ok a)
unfolding authenticate_first_frame
hello_run = (_, refl)

authenticate_first_frame-IsAdmitted_example :
    IsAdmitted store plain drawn true empty_inner (hello (text "Ann")) hello_run.0
authenticate_first_frame-IsAdmitted_example =
    authenticate_first_frame-IsAdmitted store plain drawn true empty_inner (hello (text "Ann"))
      hello_run.0 hello_run.1

handle-IsPermitted_example :
    Adds
      (IsPermitted two_users.inner.users)
      two_users.sent
      (handle store plain true drawn two_users
        (line (text "ann") (ok (admin_create_invite (text "for Eve"))))).sent
handle-IsPermitted_example =
    handle-IsPermitted store plain true drawn two_users
      (line (text "ann") (ok (admin_create_invite (text "for Eve"))))
