-- ===== src/Server/Screen/Relay/Checks.antt =====
-- The checks of `broadcast_screen_share_frame` (crates/light-discord-server/src/main.rs) against an
-- independent account of them.
use light_discord.Common.{
  Option, Result, Text, ap, arith, err, false, is_empty, leb, none, not, ok, refl, some, subst, sym,
  text_eq, to_ascii_lowercase, trim, true, ◌&&◌, ◌==◌, ◌>>=◌, ◌||◌, ◌≡◌, ◌≤◌,
}
use light_discord.Protocol.{
  ScreenShareFramePayload, ErrorMessage, screen_share_codec_jpeg, zero_dimension,
  unsupported_transport, image_format_empty, codec_empty, data_empty, jpeg_format_required,
  codec_mismatch, frame_too_large, screen_share_transport_sfu_relay,
}
use light_discord.Server.Codecs.{normalize_screen_share_codec}
use light_discord.Server.State.{ScreenShareInfo}
use light_discord.Server.Screen.{check_frame, check_share}
use light_discord.Server.Screen.Relay.{guard-then}

-- The frame is whole, of the codec of the share and no larger than it.
pub record IsFrameOf (f : ScreenShareFramePayload) (share : ScreenShareInfo) : Type 0 where
  pub width_pos : 1 ≤ f.width
  pub width_fits : f.width ≤ share.width
  pub height_pos : 1 ≤ f.height
  pub height_fits : f.height ≤ share.height
  pub has_format : is_empty (trim f.image_format) ≡ false
  pub has_codec : is_empty (normalize_screen_share_codec f.codec) ≡ false
  pub has_transport : text_eq (trim f.transport) screen_share_transport_sfu_relay ≡ true
  pub has_data : is_empty (trim f.data_base64) ≡ false
  pub same_codec : text_eq (normalize_screen_share_codec f.codec) share.active_codec ≡ true
  pub jpeg_named :
      (text_eq share.active_codec screen_share_codec_jpeg
        && not (text_eq (to_ascii_lowercase (trim f.image_format)) screen_share_codec_jpeg))
      ≡ false

ok-injective {ℓ κ} :
    {A : Type ℓ} {E : Type κ} (a b : A) → ◌≡◌ {A = Result A E} (ok a) (ok b) → a ≡ b
ok-injective a b e = cc

bind-then {ℓ κ ν μ} :
    {A : Type ℓ} {B : Type κ} {E : Type ν} {P : Type μ} (r : Result A E) (k : A → Result B E)
    {b : B}
    → ((a : A) → r ≡ ok a → k a ≡ ok b → P)
    → (r >>= k) ≡ ok b
    → P
bind-then (ok a) k f h = f a refl h
bind-then (err e) k f h = absurd cc

abbrev pub checked :
    ScreenShareFramePayload → Option ScreenShareInfo → Result ScreenShareInfo ErrorMessage
checked f o = check_frame f >>= check_share f o

-- What the checks on the frame alone say.
check_frame-checks :
    (f : ScreenShareFramePayload) (codec : Text)
    → check_frame f ≡ ok codec
    → ((f.width == 0 || f.height == 0) ≡ false)
      × (is_empty (trim f.image_format) ≡ false)
      × (is_empty (normalize_screen_share_codec f.codec) ≡ false)
      × (text_eq (trim f.transport) screen_share_transport_sfu_relay ≡ true)
      × (is_empty (trim f.data_base64) ≡ false)
      × (normalize_screen_share_codec f.codec ≡ codec)
unfolding check_frame
check_frame-checks f codec =
    guard-then (not (f.width == 0 || f.height == 0)) zero_dimension (λ sized.
      guard-then (not (is_empty (trim f.image_format))) image_format_empty (λ formatted.
        guard-then (not (is_empty (normalize_screen_share_codec f.codec))) codec_empty (λ coded.
          guard-then (text_eq (trim f.transport) screen_share_transport_sfu_relay)
            unsupported_transport
            (λ relayed. guard-then (not (is_empty (trim f.data_base64))) data_empty (λ filled e. (
              ground (arith, sized),
              ground (arith, formatted),
              ground (arith, coded),
              relayed,
              ground (arith, filled),
              ok-injective (normalize_screen_share_codec f.codec) codec e,
            ))))))

-- What the checks against the share say.
check_share-checks :
    (f : ScreenShareFramePayload) (i share : ScreenShareInfo) (codec : Text)
    → check_share f (some i) codec ≡ ok share
    → (i ≡ share)
      × (text_eq codec i.active_codec ≡ true)
      × ((text_eq i.active_codec screen_share_codec_jpeg
            && not (text_eq (to_ascii_lowercase (trim f.image_format)) screen_share_codec_jpeg))
          ≡ false)
      × ((leb f.width i.width && leb f.height i.height) ≡ true)
unfolding check_share
check_share-checks f i share codec =
    guard-then (text_eq codec i.active_codec) (codec_mismatch codec i.active_codec) (λ same.
      guard-then _ jpeg_format_required (λ named.
        guard-then (leb f.width i.width && leb f.height i.height) (frame_too_large i.source_name)
          (λ small e. (ok-injective i share e, same, ground (arith, named), small))))

share-IsFrameOf :
    (f : ScreenShareFramePayload) (o : Option ScreenShareInfo) (share : ScreenShareInfo)
    (codec : Text)
    → check_frame f ≡ ok codec
    → check_share f o codec ≡ ok share
    → (o ≡ some share) × IsFrameOf f share
unfolding check_share
share-IsFrameOf f none share codec framed shared = absurd cc
share-IsFrameOf f (some i) share codec framed shared =
    let (sized, formatted, coded, relayed, filled, is_codec) = check_frame-checks f codec framed in
    let (is_share, same, named, small) = check_share-checks f i share codec shared in
    (
      ap some is_share,
      subst (IsFrameOf f) is_share (record {
        width_pos = ground (arith, sized);
        width_fits = ground (arith, small);
        height_pos = ground (arith, sized);
        height_fits = ground (arith, small);
        has_format = formatted;
        has_codec = coded;
        has_transport = relayed;
        has_data = filled;
        same_codec = subst (λ c. text_eq c i.active_codec ≡ true) (sym is_codec) same;
        jpeg_named = named;
      }),
    )

pub checked-IsFrameOf :
    (f : ScreenShareFramePayload) (o : Option ScreenShareInfo) (share : ScreenShareInfo)
    → checked f o ≡ ok share
    → (o ≡ some share) × IsFrameOf f share
checked-IsFrameOf f o share =
    bind-then (check_frame f) (check_share f o) (λ codec. share-IsFrameOf f o share codec)

-- A frame that is of the share passes all checks.
pub IsFrameOf-checked :
    (f : ScreenShareFramePayload) (share : ScreenShareInfo)
    → IsFrameOf f share
    → checked f (some share) ≡ ok share
unfolding check_frame check_share
IsFrameOf-checked f share h =
    let sized : (f.width == 0 || f.height == 0) ≡ false =
      ground (arith, h.width_pos, h.height_pos) in
    let small : (leb f.width share.width && leb f.height share.height) ≡ true =
      ground (arith, h.width_fits, h.height_fits) in
    rw
      (
        sized, h.has_format, h.has_codec, h.has_transport, h.has_data, h.same_codec, h.jpeg_named,
        small,
      )
      refl
