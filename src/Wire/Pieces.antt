-- ===== src/Wire/Pieces.antt =====
-- What each reader of the decoder took when it succeeds.
use light_discord.Common.{
  All, All-append_left, All-append_right, List, Option, Result, Text, [], ap, append_assoc, arith,
  err, false, length, none, ok, refl, some, subst, text_eq, text_eq_iff, true, ℕ, ◌++◌, ◌<◌, ◌^◌,
  ◌∙◌, ◌∷◌, ◌≡◌, ◌≤◌,
}
use Prim.Native.String.{String}
use light_discord.Wire.Bytes.{
  IsByte, to_le_bytes, from_le_bytes, to_le_bytes-from_le_bytes, from_le_bytes-lt,
}
use light_discord.Wire.Utf8.{IsScalar, as_bytes, from_utf8}
use light_discord.Wire.Utf8.Reading.{as_bytes-from_utf8}
use light_discord.Wire.Packet.{
  VoicePacketBinaryError, magic, wire_version, voice_codec_pcm_s16le, voice_codec_opus, u16_max,
  u32_max,
}
use light_discord.Wire.Reader.{Reader, take_bytes, take_bytes_sound, ◌>>=◌}
use light_discord.Wire.Encode.{codec_byte, prefixed}
use light_discord.Wire.Decode.{
  read_byte, read_le, read_prefixed, read_text, or_invalid_utf8, read_magic, read_version,
  codec_name, read_codec,
}
use native.Mathlib.Nat.{mod-eq_of_lt}

-- A chain of readers that succeeds, taken apart.
pub bind_inv {ℓ κ} :
    {A : Type ℓ} {B : Type κ} (m : Reader A) (f : A → Reader B) (bytes : List ℕ) {out : B × List ℕ}
    → (m >>= f) bytes ≡ ok out
    → (a : A) × (rest : List ℕ) × (m bytes ≡ ok (a, rest)) × (f a rest ≡ ok out)
bind_inv {A = A} {B = B} m f bytes {out} e = go (m bytes) refl
  where
    go :
        (r : Result (A × List ℕ) VoicePacketBinaryError)
        → m bytes ≡ r
        → (a : A) × (rest : List ℕ) × (m bytes ≡ ok (a, rest)) × (f a rest ≡ ok out)
    go (ok (a, rest)) h = (a, rest, h, rw (h, ◌>>=◌) at e)
    go (err x) h = absurd (cc (e, h))

-- `w` was taken from the front, and bytes are left.
abbrev Took : List ℕ → List ℕ → List ℕ → Type 0
Took w bytes rest = (bytes ≡ w ++ rest) × All IsByte rest

take_bytes-Took :
    (n : ℕ) (bytes xs rest : List ℕ)
    → All IsByte bytes
    → take_bytes n bytes ≡ ok (xs, rest)
    → Took xs bytes rest × All IsByte xs × (length xs ≡ n)
take_bytes-Took n bytes xs rest h e =
    let (shape, size) = take_bytes_sound n bytes xs rest e in
    let parts : All IsByte (xs ++ rest) = subst (All IsByte) shape h in
    ((shape, All-append_right IsByte xs rest parts), All-append_left IsByte xs rest parts, size)

pub read_le-Took :
    (k : ℕ) (bytes : List ℕ) (n : ℕ) (rest : List ℕ)
    → All IsByte bytes
    → read_le k bytes ≡ ok (n, rest)
    → Took (to_le_bytes k n) bytes rest × (n < 256 ^ k)
unfolding read_le
read_le-Took k bytes n rest h e =
    let (xs, rest', taken, value) = bind_inv (take_bytes k) _ bytes e in
    let ((shape, left), small, size) = take_bytes-Took k bytes xs rest' h taken in
    let digits : to_le_bytes k (from_le_bytes xs) ≡ xs =
      rw (← size) (to_le_bytes-from_le_bytes xs small) in
    let value' : from_le_bytes xs ≡ n = cc value in
    let rest_eq : rest' ≡ rest = cc value in
    let bound : from_le_bytes xs < 256 ^ k = rw (← size) (from_le_bytes-lt xs small) in
    (
      (rw (← value', digits, ← rest_eq) shape, subst (All IsByte) rest_eq left),
      subst (λ v. v < 256 ^ k) value' bound,
    )

pub read_prefixed-Took :
    (k : ℕ) (bytes xs rest : List ℕ)
    → All IsByte bytes
    → read_prefixed k bytes ≡ ok (xs, rest)
    → Took (prefixed k xs) bytes rest × All IsByte xs × (length xs < 256 ^ k)
unfolding read_prefixed prefixed
read_prefixed-Took k bytes xs rest h e =
    let (n, rest', number, taken) = bind_inv (read_le k) take_bytes bytes e in
    let ((shape, left), fits) = read_le-Took k bytes n rest' h number in
    let ((shape', left'), small, size) = take_bytes-Took n rest' xs rest left taken in
    let bound : length xs < 256 ^ k = rw size fits in
    ((rw (mod-eq_of_lt bound, append_assoc, size, ← shape') shape, left'), small, bound)

pub read_text-Took :
    (field : String) (bytes : List ℕ) (s : Text) (rest : List ℕ)
    → All IsByte bytes
    → read_text field bytes ≡ ok (s, rest)
    → Took (prefixed 2 (as_bytes s)) bytes rest × All IsScalar s × (length (as_bytes s) < 256 ^ 2)
unfolding read_text or_invalid_utf8
read_text-Took field bytes s rest h e =
    let (xs, rest', taken, value) = bind_inv (read_prefixed 2) _ bytes e in
    let (took, small, size) = read_prefixed-Took 2 bytes xs rest' h taken in
    go xs rest' took size (from_utf8 xs) refl value
  where
    go :
        (xs rest' : List ℕ)
        → Took (prefixed 2 xs) bytes rest'
        → length xs < 256 ^ 2
        → (o : Option Text) → from_utf8 xs ≡ o
        → or_invalid_utf8 field o rest' ≡ ok (s, rest)
        → Took (prefixed 2 (as_bytes s)) bytes rest
          × All IsScalar s
          × (length (as_bytes s) < 256 ^ 2)
    go xs rest' took size none u e = cc
    go xs rest' took size (some t) u e =
        let (scalars, shape) = as_bytes-from_utf8 xs t u in
        let same : t ≡ s = cc e in
        let rest_eq : rest' ≡ rest = cc e in
        (
          (cc (took.0, shape, same, rest_eq), subst (All IsByte) rest_eq took.1),
          subst (All IsScalar) same scalars,
          subst (λ v. length v < 256 ^ 2) (shape ∙ ap as_bytes same) size,
        )

pub read_magic-Took :
    (bytes : List ℕ) (u : Unit {0}) (rest : List ℕ)
    → All IsByte bytes
    → read_magic bytes ≡ ok (u, rest)
    → Took magic bytes rest
unfolding read_magic
read_magic-Took bytes u rest h e =
    let (xs, rest', taken, value) = bind_inv (take_bytes 4) _ bytes e in
    let (took, small, size) = take_bytes-Took 4 bytes xs rest' h taken in
    let fact : (xs ≡ magic) × (rest' ≡ rest) = ground (arith, text_eq_iff xs magic) in
    (cc (took.0, fact.0, fact.1), subst (All IsByte) fact.1 took.1)

pub read_version-Took :
    (bytes : List ℕ) (u : Unit {0}) (rest : List ℕ)
    → All IsByte bytes
    → read_version bytes ≡ ok (u, rest)
    → Took (wire_version ∷ []) bytes rest
unfolding read_version read_byte
read_version-Took [] u rest h e = cc
read_version-Took (b ∷ bytes) u rest h e =
    let fact : (b ≡ wire_version) × (bytes ≡ rest) = ground arith in
    (cc (fact.0, fact.1), subst (All IsByte) fact.1 h.1)

pub read_codec-Took :
    (bytes : List ℕ) (codec : Text) (rest : List ℕ)
    → All IsByte bytes
    → read_codec bytes ≡ ok (codec, rest)
    → (b : ℕ) × Took (b ∷ []) bytes rest × (codec_byte codec ≡ ok b)
unfolding read_codec codec_name read_byte codec_byte
read_codec-Took [] codec rest h e = cc
read_codec-Took (b ∷ bytes) codec rest h e =
    let same : bytes ≡ rest = ground arith in
    (b, (cc same, subst (All IsByte) same h.1), ground (arith, names))
  where
    names :
        (text_eq voice_codec_pcm_s16le voice_codec_pcm_s16le ≡ true)
        × (text_eq voice_codec_opus voice_codec_pcm_s16le ≡ false)
        × (text_eq voice_codec_opus voice_codec_opus ≡ true)
    names = unfold text_eq in (refl, refl, refl)

pub fits_u16 : (n : ℕ) → n < 256 ^ 2 → n ≤ u16_max
fits_u16 n h = omega arith

pub fits_u32 : (n : ℕ) → n < 256 ^ 4 → n ≤ u32_max
fits_u32 n h = omega arith
