-- ===== src/Client/Shares.antt =====
-- The remote screen shares of the client (crates/light-discord-client/src/app.rs).
use light_discord.Common.{
  Option, Text, ap, arith, false, if-elim, if◌then◌else◌, inl, inr, none, refl, some, subst,
  text_eq, true, ℕ, ◌<◌, ◌∙◌, ◌≡◌, ◌≤◌, ◌⊎◌,
}
use light_discord.Common.Maps.{Map, get, get-insert, get-insert_self}
use light_discord.Protocol.{ShareFrame}
use light_discord.Client.{RemoteScreenShare}
use light_discord.Client.Frames.{
  Host, share_or_new, share_of_frame, is_stale, with_frame, apply_share_frame,
}

-- The number of the latest frame of a user's share, if there is one.
abbrev latest_of : Option RemoteScreenShare → Option ℕ
latest_of none = none
latest_of (some share) = share.latest_sequence

abbrev pub latest : Text → Map RemoteScreenShare → Option ℕ
latest user_id shares = latest_of (get user_id shares)

-- A number, or none yet, is not beyond another.
abbrev pub AtMost : Option ℕ → Option ℕ → Type 0
AtMost none o = Unit {0}
AtMost (some n) none = ⊥
AtMost (some n) (some k) = n ≤ k

-- A number, or none yet, is before another.
abbrev pub Before : Option ℕ → ℕ → Type 0
Before none n = Unit {0}
Before (some k) n = k < n

-- What a frame does to the shares: those of other users stay; if a frame of its user came that is not
-- before it, nothing changes, and if all of them are before it, it is the latest then.
abbrev pub IsUpdate : ShareFrame → Map RemoteScreenShare → Map RemoteScreenShare → Type 0
IsUpdate f before after =
    ((j : Text) → text_eq f.user_id j ≡ false → get j after ≡ get j before)
    × (((after ≡ before) × AtMost (some f.sequence) (latest f.user_id before))
        ⊎ ((latest f.user_id after ≡ some f.sequence)
            × Before (latest f.user_id before) f.sequence))

stale-AtMost : (n : ℕ) (o : Option ℕ) → is_stale n o ≡ true → AtMost (some n) o
unfolding is_stale
stale-AtMost n none h = absurd cc
stale-AtMost n (some k) h = ground (arith, h)

fresh-Before : (n : ℕ) (o : Option ℕ) → is_stale n o ≡ false → Before o n
unfolding is_stale
fresh-Before n none h = tt
fresh-Before n (some k) h = ground (arith, h)

latest-share_or_new :
    (f : ShareFrame) (o : Option RemoteScreenShare)
    → (share_or_new f o).latest_sequence ≡ latest_of o
unfolding share_of_frame
latest-share_or_new f none = refl
latest-share_or_new f (some share) = refl

with_frame-latest :
    (host : Host) (f : ShareFrame) (share : RemoteScreenShare)
    → (with_frame host f share).latest_sequence ≡ some f.sequence
unfolding with_frame
with_frame-latest host f share = refl

-- A frame of a remote screen share leaves the shares of other users as they were. If its number is
-- at most that of the latest frame of its user, it changes nothing; it is the latest then exactly
-- when there is none yet or its number is greater.
pub apply_share_frame-IsUpdate :
    (host : Host) (f : ShareFrame) (shares : Map RemoteScreenShare)
    → IsUpdate f shares (apply_share_frame host f shares)
unfolding apply_share_frame
apply_share_frame-IsUpdate host f shares =
    if-elim (IsUpdate f shares) (is_stale f.sequence share.latest_sequence)
      (λ old. (
        λ j apart. refl,
        inl (
          refl,
          subst (AtMost (some f.sequence)) (latest-share_or_new f (get f.user_id shares))
              (stale-AtMost f.sequence share.latest_sequence old),
        ),
      ))
      (λ new. (
        λ j apart.
            get-insert f.user_id j (with_frame host f share) shares
            ∙ ap (λ b. if b then some (with_frame host f share) else get j shares) apart,
        inr (
          ap latest_of (get-insert_self f.user_id (with_frame host f share) shares) ∙ numbered,
          subst (λ o. Before o f.sequence) (latest-share_or_new f (get f.user_id shares))
              (fresh-Before f.sequence share.latest_sequence new),
        ),
      ))
  where
    share : RemoteScreenShare
    share = share_or_new f (get f.user_id shares)

    numbered : (with_frame host f share).latest_sequence ≡ some f.sequence
    numbered = with_frame-latest host f share
