-- ===== src/Server/Voice/Rooms.antt =====
-- Membership of voice rooms under `join_voice` and `leave_voice`, and the targets of the relay.
use light_discord.Common.{
  Bool, Bool-cases, List, Option, Text, [], ap, arith, if-elim, if◌then◌else◌, inl, inr, keep, none,
  not, refl, some, sym, text_eq, text_eq_iff, text_eq_refl, true, ◌&&◌, ◌↔◌, ◌∙◌, ◌∷◌, ◌≡◌, ◌⊎◌,
}
use mathlib.Core.List.{Memᴰ}
use mathlib.Core.List.Memᴰ.{head, tail}
use light_discord.Common.Maps.{
  Map, Set, get, insert, get-insert, contains, include, exclude, contains-include, contains-exclude,
}
use light_discord.Server.State.{SocketAddr, World}
use light_discord.Server.Voice.{leave_rooms, room, joined, push_found, found, voice_targets}

-- The user is in the room.
abbrev pub member : Text → Text → Map Set → Bool
member user_id room_id rooms = contains user_id (room room_id rooms)

-- Nobody is in two rooms.
abbrev pub OneRoom : Map Set → Type 0
OneRoom rooms =
    (user_id r q : Text) → member user_id r rooms ≡ true → member user_id q rooms ≡ true → r ≡ q

room-leave_rooms :
    (user_id r : Text) (rooms : Map Set)
    → room r (leave_rooms user_id rooms) ≡ exclude user_id (room r rooms)
unfolding room leave_rooms get exclude
room-leave_rooms user_id r [] = refl
room-leave_rooms user_id r ((j, members) ∷ rooms) = ground (arith, room-leave_rooms user_id r rooms)

room-insert :
    (r q : Text) (members : Set) (rooms : Map Set)
    → room q (insert r members rooms) ≡ (if text_eq r q then members else room q rooms)
unfolding room
room-insert r q members rooms = ground (arith, get-insert r q members rooms)

pub member-leave_rooms :
    (u v r : Text) (rooms : Map Set)
    → member v r (leave_rooms u rooms) ≡ (not (text_eq u v) && member v r rooms)
member-leave_rooms u v r rooms =
    ap (contains v) (room-leave_rooms u r rooms) ∙ contains-exclude u v (room r rooms)

-- After a join the user is in that room and in no other, and everybody else is where they were.
pub member-joined :
    (u v r q : Text) (rooms : Map Set)
    → member v q (joined u r rooms) ≡ (if text_eq u v then text_eq r q else member v q rooms)
unfolding joined
member-joined u v r q rooms =
    ap (contains v)
      (room-insert r q (include u (room r (leave_rooms u rooms))) (leave_rooms u rooms))
    ∙ ground (
      arith,
      text_eq_iff r q,
      text_eq_iff u v,
      member-leave_rooms u v r rooms,
      member-leave_rooms u v q rooms,
      contains-include u v (room r (leave_rooms u rooms)),
    )

pub leave_rooms-OneRoom :
    (u : Text) (rooms : Map Set) → OneRoom rooms → OneRoom (leave_rooms u rooms)
leave_rooms-OneRoom u rooms one v r q hr hq =
    one v r q (ground (arith, hr, member-leave_rooms u v r rooms))
      (ground (arith, hq, member-leave_rooms u v q rooms))

pub joined-OneRoom : (u r : Text) (rooms : Map Set) → OneRoom rooms → OneRoom (joined u r rooms)
joined-OneRoom u r rooms one v p q hp hq = elim (Bool-cases (text_eq u v)) [
  | inl same ↦
      sym ((text_eq_iff r p).0 (ground (arith, hp, same, member-joined u v r p rooms)))
      ∙ (text_eq_iff r q).0 (ground (arith, hq, same, member-joined u v r q rooms))
  | inr other ↦
      one v p q (ground (arith, hp, other, member-joined u v r p rooms))
        (ground (arith, hq, other, member-joined u v r q rooms))
]

contains_head : (u : Text) (users : Set) → contains u (u ∷ users) ≡ true
unfolding contains
contains_head u users = ground (arith, text_eq_refl u)

-- What `voice_targets` collects from a set of users.
module _ {ℓ} {B : Type ℓ} (f : Text → Option B) (p : Text → Bool) where
  -- The value belongs to a user of the set that passes the test.
  abbrev pub BelongsTo : Set → B → Type ℓ
  BelongsTo users b =
      (user_id : Text) × (contains user_id users ≡ true) × (p user_id ≡ true) × (f user_id ≡ some b)

  abbrev chosen : Set → List B
  chosen users = found f (keep p users)

  BelongsTo-cons : (u : Text) (users : Set) (b : B) → BelongsTo users b → BelongsTo (u ∷ users) b
  unfolding contains
  BelongsTo-cons u users b (v, h, hp, hf) = (v, ground (arith, h), hp, hf)

  Memᴰ-push :
      (b : B) (o : Option B) (rest : List B)
      → Memᴰ b (push_found o rest)
      → (o ≡ some b) ⊎ Memᴰ b rest
  unfolding push_found
  Memᴰ-push b none rest m = inr m
  Memᴰ-push b (some a) rest (head e) = inl (ap some (sym e))
  Memᴰ-push b (some a) rest (tail m) = inr m

  chosen_sound : (users : Set) (b : B) → Memᴰ b (chosen users) → BelongsTo users b
  unfolding found contains
  chosen_sound [] b m = elim m [ ]
  chosen_sound (u ∷ users) b mem =
      if-elim (λ (l : Set). Memᴰ b (found f l) → BelongsTo (u ∷ users) b) (p u)
        (λ hp m. elim (Memᴰ-push b (f u) (chosen users) m) [
          | inl e ↦ (u, contains_head u users, hp, e)
          | inr m' ↦ BelongsTo-cons u users b (chosen_sound users b m')
        ])
        (λ _ m. BelongsTo-cons u users b (chosen_sound users b m)) mem

  push-Memᴰ :
      (b : B) (o : Option B) (rest : List B)
      → (o ≡ some b) ⊎ Memᴰ b rest
      → Memᴰ b (push_found o rest)
  unfolding push_found
  push-Memᴰ b none rest (inl e) = absurd cc
  push-Memᴰ b none rest (inr m) = m
  push-Memᴰ b (some a) rest (inl e) = head cc
  push-Memᴰ b (some a) rest (inr m) = tail m

  chosen_complete :
      (users : Set) (u : Text) (b : B)
      → contains u users ≡ true
      → p u ≡ true
      → f u ≡ some b
      → Memᴰ b (chosen users)
  unfolding found contains
  chosen_complete [] u b h hp hf = absurd cc
  chosen_complete (v ∷ users) u b h hp hf = elim (Bool-cases (text_eq v u)) [
    | inl same ↦
        if-elim (λ (l : Set). Memᴰ b (found f l)) (p v)
          (λ _. push-Memᴰ b (f v) (chosen users) (inl (ap f ((text_eq_iff v u).0 same) ∙ hf)))
          (λ refused. absurd (ground (arith, refused, ap p ((text_eq_iff v u).0 same) ∙ hp)))
    | inr other ↦
        if-elim (λ (l : Set). Memᴰ b (found f l)) (p v)
          (λ _.
            push-Memᴰ b (f v) (chosen users)
              (inr (chosen_complete users u b (ground (arith, h, other)) hp hf)))
          (λ _. chosen_complete users u b (ground (arith, h, other)) hp hf)
  ]

-- A packet goes to an address exactly when some user other than the sender is in the room of the
-- packet and the relay remembers that address for the user.
pub voice_targets_iff :
    {S : Type 0} (w : World S) (room_id sender_id : Text) (addr : SocketAddr)
    → Memᴰ addr (voice_targets w room_id sender_id) ↔ (
        (user_id : Text) × (member user_id room_id w.inner.voice_rooms ≡ true)
        × (not (text_eq user_id sender_id) ≡ true)
        × (get user_id w.inner.voice_addrs ≡ some addr))
unfolding voice_targets
voice_targets_iff w room_id sender_id addr = (
  chosen_sound _ _ (room room_id w.inner.voice_rooms) addr,
  λ (u, h, hp, hf). chosen_complete _ _ (room room_id w.inner.voice_rooms) u addr h hp hf,
)
