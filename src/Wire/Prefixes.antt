-- ===== src/Wire/Prefixes.antt =====
-- A packet that is cut short, or followed by more bytes, is refused as such.
use light_discord.Common.{
  Bool, List, Option, Result, Text, [], ap, append-nil, arith, drop-append, err, false,
  if◌then◌else◌, inl, inr, length-append, none, ok, refl, some, sym, take-append, text_eq, true, ℕ,
  ◌++◌, ◌==◌, ◌∙◌, ◌∷◌, ◌≡◌, ◌≢◌, ◌⊎◌,
}
use Prim.Native.String.{String}
use light_discord.Wire.Utf8.{from_utf8}
use light_discord.Wire.Packet.{
  VoicePacket, VoicePacketBinaryError, IsTyped, truncated, trailing_data, magic, wire_version,
  codec_byte_pcm_s16le, codec_byte_opus, invalid_magic, unsupported_version, unsupported_codec_byte,
  unsupported_codec_string, invalid_utf8, field_too_long,
}
use light_discord.Wire.Reader.{Reader, take_bytes, pure, fail, ◌>>=◌}
use light_discord.Wire.Encode.{packet_bytes, encode_voice_packet_binary, encode_inv}
use light_discord.Wire.Decode.{
  read_byte, read_le, read_prefixed, read_text, or_invalid_utf8, read_magic, read_version,
  codec_name, read_codec, read_packet, finish, decode_voice_packet_binary,
}
use light_discord.Wire.RoundTrip.{read_packet-packet_bytes}

-- A reader that does not look past what it takes: more input changes no answer but `truncated`.
record IsStable {ℓ} {A : Type ℓ} (m : Reader A) : Type ℓ where
  grows :
      (xs ys : List ℕ) (a : A) (rest : List ℕ)
      → m xs ≡ ok (a, rest)
      → m (xs ++ ys) ≡ ok (a, rest ++ ys)
  fails :
      (xs ys : List ℕ) (e : VoicePacketBinaryError)
      → e ≢ truncated
      → m xs ≡ err e
      → m (xs ++ ys) ≡ err e

Result-cases {ℓ} :
    {A : Type ℓ} (r : Result (A × List ℕ) VoicePacketBinaryError)
    → ((a : A) × (rest : List ℕ) × (r ≡ ok (a, rest)))
      ⊎ ((e : VoicePacketBinaryError) × (r ≡ err e))
Result-cases (ok (a, rest)) = inl (a, rest, refl)
Result-cases (err e) = inr (e, refl)

pure-IsStable {ℓ} : {A : Type ℓ} (a : A) → IsStable (pure a)
pure-IsStable a = record { grows = λ xs ys b rest e. cc e; fails = λ xs ys x n e. absurd (cc e) }

fail-IsStable {ℓ} : {A : Type ℓ} (e : VoicePacketBinaryError) → IsStable (fail {A = A} e)
fail-IsStable x = record { grows = λ xs ys b rest e. absurd (cc e); fails = λ xs ys y n e. cc e }

if-IsStable {ℓ} :
    {A : Type ℓ} (b : Bool) {m n : Reader A}
    → IsStable m
    → IsStable n
    → IsStable (if b then m else n)
if-IsStable true h k = h
if-IsStable false h k = k

module _ {ℓ κ} {A : Type ℓ} {B : Type κ} {m : Reader A} {f : A → Reader B} where
  bind_grows :
      IsStable m
      → ((a : A) → IsStable (f a))
      → (xs ys : List ℕ) (b : B) (rest : List ℕ) → (m >>= f) xs ≡ ok (b, rest)
      → (m >>= f) (xs ++ ys) ≡ ok (b, rest ++ ys)
  bind_grows h k xs ys b rest e = elim (Result-cases (m xs)) [
    | inl (a, mid, first) ↦
        rw (h.grows xs ys a mid first, ◌>>=◌) ((k a).grows mid ys b rest (rw (first, ◌>>=◌) at e))
    | inr (x, first) ↦ absurd (cc (rw (first, ◌>>=◌) at e))
  ]

  bind_fails :
      IsStable m
      → ((a : A) → IsStable (f a))
      → (xs ys : List ℕ) (x : VoicePacketBinaryError) → x ≢ truncated
      → (m >>= f) xs ≡ err x
      → (m >>= f) (xs ++ ys) ≡ err x
  bind_fails h k xs ys x n e = elim (Result-cases (m xs)) [
    | inl (a, mid, first) ↦
        rw (h.grows xs ys a mid first, ◌>>=◌) ((k a).fails mid ys x n (rw (first, ◌>>=◌) at e))
    | inr (y, first) ↦
        let same : y ≡ x = cc (rw (first, ◌>>=◌) at e) in
        rw (h.fails xs ys y (λ t. n (sym same ∙ t)) first, ◌>>=◌) (ap err same)
  ]

  bind-IsStable : IsStable m → ((a : A) → IsStable (f a)) → IsStable (m >>= f)
  bind-IsStable h k = record { grows = bind_grows h k; fails = bind_fails h k }

take_bytes-IsStable : (n : ℕ) → IsStable (take_bytes n)
unfolding take_bytes
take_bytes-IsStable n = record {
  grows = λ xs ys a rest e.
      ground (arith, length-append xs ys, take-append n xs ys, drop-append n xs ys);
  fails = λ xs ys x t e. ground arith;
}

read_byte_grows :
    (xs ys : List ℕ) (a : ℕ) (rest : List ℕ)
    → read_byte xs ≡ ok (a, rest)
    → read_byte (xs ++ ys) ≡ ok (a, rest ++ ys)
unfolding read_byte
read_byte_grows [] ys a rest e = cc
read_byte_grows (b ∷ xs) ys a rest e = ground arith

read_byte_fails :
    (xs ys : List ℕ) (x : VoicePacketBinaryError)
    → x ≢ truncated
    → read_byte xs ≡ err x
    → read_byte (xs ++ ys) ≡ err x
unfolding read_byte
read_byte_fails [] ys x n e = ground arith
read_byte_fails (b ∷ xs) ys x n e = cc

read_byte-IsStable : IsStable read_byte
read_byte-IsStable = record { grows = read_byte_grows; fails = read_byte_fails }

read_le-IsStable : (k : ℕ) → IsStable (read_le k)
unfolding read_le
read_le-IsStable k = bind-IsStable (take_bytes-IsStable k) λ xs. pure-IsStable _

read_prefixed-IsStable : (k : ℕ) → IsStable (read_prefixed k)
unfolding read_prefixed
read_prefixed-IsStable k = bind-IsStable (read_le-IsStable k) take_bytes-IsStable

or_invalid_utf8-IsStable : (field : String) (o : Option Text) → IsStable (or_invalid_utf8 field o)
unfolding or_invalid_utf8
or_invalid_utf8-IsStable field none = fail-IsStable _
or_invalid_utf8-IsStable field (some s) = pure-IsStable s

read_text-IsStable : (field : String) → IsStable (read_text field)
unfolding read_text
read_text-IsStable field =
    bind-IsStable (read_prefixed-IsStable 2) λ xs. or_invalid_utf8-IsStable field (from_utf8 xs)

read_magic-IsStable : IsStable read_magic
unfolding read_magic
read_magic-IsStable =
    bind-IsStable (take_bytes-IsStable 4)
      λ xs. if-IsStable (text_eq xs magic) (pure-IsStable tt) (fail-IsStable invalid_magic)

read_version-IsStable : IsStable read_version
unfolding read_version
read_version-IsStable =
    bind-IsStable read_byte-IsStable λ b.
      if-IsStable (b == wire_version) (pure-IsStable tt) (fail-IsStable (unsupported_version b))

read_codec-IsStable : IsStable read_codec
unfolding read_codec codec_name
read_codec-IsStable = bind-IsStable read_byte-IsStable λ b.
    if-IsStable (b == codec_byte_pcm_s16le) (pure-IsStable _) (
      if-IsStable (b == codec_byte_opus) (pure-IsStable _)
        (fail-IsStable (unsupported_codec_byte b)))

read_packet-IsStable : IsStable read_packet
unfolding read_packet
read_packet-IsStable = bind-IsStable read_magic-IsStable λ _.
    bind-IsStable read_version-IsStable λ _. bind-IsStable (read_text-IsStable _) λ _.
      bind-IsStable (read_text-IsStable _) λ _. bind-IsStable (read_le-IsStable 8) λ _.
        bind-IsStable (read_le-IsStable 4) λ _. bind-IsStable (read_le-IsStable 2) λ _.
          bind-IsStable read_codec-IsStable λ _.
            bind-IsStable (read_le-IsStable 4)
              λ _. bind-IsStable (read_prefixed-IsStable 4) λ _. pure-IsStable _

append_cons_ne_nil : (xs : List ℕ) (x : ℕ) (ys : List ℕ) → xs ++ (x ∷ ys) ≢ []
append_cons_ne_nil [] x ys e = cc
append_cons_ne_nil (a ∷ xs) x ys e = cc

error_cases : (e : VoicePacketBinaryError) → (e ≡ truncated) ⊎ (e ≢ truncated)
error_cases truncated = inl refl
error_cases invalid_magic = inr (λ h. cc)
error_cases (unsupported_version v) = inr (λ h. cc)
error_cases (unsupported_codec_byte b) = inr (λ h. cc)
error_cases (unsupported_codec_string s) = inr (λ h. cc)
error_cases (invalid_utf8 f) = inr (λ h. cc)
error_cases (field_too_long f) = inr (λ h. cc)
error_cases trailing_data = inr (λ h. cc)

-- Every proper prefix of an encoded packet whose fields are of their Rust types is refused as
-- truncated.
pub decode_prefix :
    (p : VoicePacket) (front : List ℕ) (x : ℕ) (back : List ℕ)
    → IsTyped p
    → encode_voice_packet_binary p ≡ ok (front ++ (x ∷ back))
    → decode_voice_packet_binary front ≡ err truncated
unfolding decode_voice_packet_binary
decode_prefix p front x back t e =
    let (codec, h, shape) = encode_inv p _ e in
    let whole : read_packet (front ++ (x ∷ back)) ≡ ok (p, []) =
      rw (shape, ← append-nil (packet_bytes p codec)) (read_packet-packet_bytes p codec [] t h) in
    elim (Result-cases (read_packet front)) [
      | inl (q, rest, read) ↦ absurd (
          append_cons_ne_nil rest x back
            (cc (sym (read_packet-IsStable.grows front (x ∷ back) q rest read) ∙ whole)))
      | inr (y, read) ↦ elim (error_cases y) [
        | inl cut ↦ rw (read, cut)
        | inr other ↦
            absurd (cc (sym (read_packet-IsStable.fails front (x ∷ back) y other read) ∙ whole))
      ]
    ]

-- An encoded packet whose fields are of their Rust types, with any bytes behind it, is refused for
-- its trailing data.
pub decode-append :
    (p : VoicePacket) (bytes : List ℕ) (x : ℕ) (more : List ℕ)
    → IsTyped p
    → encode_voice_packet_binary p ≡ ok bytes
    → decode_voice_packet_binary (bytes ++ (x ∷ more)) ≡ err trailing_data
unfolding decode_voice_packet_binary
decode-append p bytes x more t e =
    let (codec, h, shape) = encode_inv p bytes e in
    rw shape (ap finish (read_packet-packet_bytes p codec (x ∷ more) t h))
