-- ===== src/Server/Screen/Relay.antt =====
-- The shares that the server accepts (`start_screen_share` of crates/light-discord-server/src/main.rs).
pub mod Checks
pub mod Frames
use light_discord.Common.{
  Bool, Bool-cases, List, Option, Result, Text, ap, arith, false, guard, if-elim, inl, inr,
  is_empty, none, not, ok, refl, some, subst, sym, text_eq, trim, true, ◌==◌, ◌>>◌, ◌||◌, ◌∙◌, ◌≡◌,
  ◌≤◌,
}
use light_discord.Common.Maps.{Map, get, insert, remove, get-insert, get-remove}
use light_discord.Protocol.{
  ShareRequest, screen_share_codec_jpeg, source_name_empty, zero_dimension, invalid_fps,
  unsupported_transport, screen_share_transport_sfu_relay,
}
use light_discord.Server.Codecs.{
  normalize_requested_screen_share_codecs, negotiate_screen_share_codec, is_valid_screen_share_fps,
}
use light_discord.Server.Codecs.Negotiation.{negotiate-jpeg, names}
use light_discord.Server.State.{ScreenShareInfo}
use light_discord.Server.Screen.{with_codec, check_start, settle, share_info}

-- A share that passed the checks.
abbrev pub IsValidShare : ScreenShareInfo → Type 0
IsValidShare i =
    (is_empty i.source_name ≡ false)
    × (1 ≤ i.width)
    × (1 ≤ i.height)
    × (is_valid_screen_share_fps i.mode i.target_fps ≡ true)
    × (i.active_codec ≡ screen_share_codec_jpeg)
    × (i.transport ≡ screen_share_transport_sfu_relay)

abbrev pub SharesValid : Map ScreenShareInfo → Type 0
SharesValid shares = (u : Text) (i : ScreenShareInfo) → get u shares ≡ some i → IsValidShare i

-- What a `guard` before a result says, when the whole is `ok`.
pub guard-then {ℓ κ ν} :
    {A : Type ℓ} {E : Type κ} {P : Type ν} (b : Bool) (e : E) {r : Result A E} {a : A}
    → (b ≡ true → r ≡ ok a → P)
    → (guard b e >> r) ≡ ok a
    → P
guard-then true e k h = k refl h
guard-then false e k h = absurd cc

with_codec-some :
    (requested rs : List Text) (codec : Text) (o : Option Text)
    → with_codec requested o ≡ ok (rs, codec)
    → o ≡ some codec
with_codec-some requested rs codec none h = absurd cc
with_codec-some requested rs codec (some c) h = ap some cc

none-apart {ℓ} : {A : Type ℓ} (a : A) → none ≡ some a → ⊥
none-apart a e = absurd cc

negotiated-jpeg :
    (codecs : List Text) (codec : Text)
    → negotiate_screen_share_codec codecs ≡ some codec
    → codec ≡ screen_share_codec_jpeg
negotiated-jpeg codecs codec h =
    if-elim (λ (o : Option Text). o ≡ some codec → codec ≡ screen_share_codec_jpeg)
      (names screen_share_codec_jpeg codecs)
      (λ _ (e : some screen_share_codec_jpeg ≡ some codec). cc) (λ _ e. absurd (none-apart codec e))
      (sym (negotiate-jpeg codecs) ∙ h)

settle-jpeg :
    (requested rs : List Text) (codec : Text)
    → settle requested ≡ ok (rs, codec)
    → codec ≡ screen_share_codec_jpeg
unfolding settle
settle-jpeg requested rs codec h =
    negotiated-jpeg requested codec
      (with_codec-some requested rs codec (negotiate_screen_share_codec requested) h)

pub check_start-IsValidShare :
    (r : ShareRequest) (rs : List Text) (codec : Text)
    → check_start r ≡ ok (rs, codec)
    → IsValidShare (share_info r codec)
unfolding check_start share_info
check_start-IsValidShare r rs codec =
    guard-then (not (is_empty (trim r.source_name))) source_name_empty (λ named.
      guard-then (not (r.width == 0 || r.height == 0)) zero_dimension (λ sized.
        guard-then (is_valid_screen_share_fps r.mode r.target_fps) (invalid_fps r.target_fps r.mode)
          (λ paced.
            guard-then (text_eq (trim r.transport) screen_share_transport_sfu_relay)
              unsupported_transport
              (λ _ h. (
                ground (arith, named),
                ground (arith, sized),
                ground (arith, sized),
                paced,
                settle-jpeg (normalize_requested_screen_share_codecs r.requested_codecs) rs codec h,
                refl,
              )))))

pub insert-SharesValid :
    (u : Text) (i : ScreenShareInfo) (shares : Map ScreenShareInfo)
    → IsValidShare i
    → SharesValid shares
    → SharesValid (insert u i shares)
insert-SharesValid u i shares v all t j e = elim (Bool-cases (text_eq u t)) [
  | inl same ↦ subst IsValidShare (given same) v
  | inr other ↦ all t j (ground (arith, e, other, get-insert u t i shares))
]
  where
    given : text_eq u t ≡ true → i ≡ j
    given same = ground (arith, e, same, get-insert u t i shares)

pub remove-SharesValid :
    (u : Text) (shares : Map ScreenShareInfo) → SharesValid shares → SharesValid (remove u shares)
remove-SharesValid u shares all t j e = elim (Bool-cases (text_eq u t)) [
  | inl same ↦ absurd (ground (arith, e, same, get-remove u t shares))
  | inr other ↦ all t j (ground (arith, e, other, get-remove u t shares))
]
