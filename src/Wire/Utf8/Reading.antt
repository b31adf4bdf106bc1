-- ===== src/Wire/Utf8/Reading.antt =====
-- Reading UTF-8 inverts writing it.
use light_discord.Common.{
  All, List, Option, Option-cases, Text, [], ap, arith, if◌then◌else◌, inl, inr, leb, length, ltb,
  none, refl, some, suc, sym, zero, ℕ, ◌%◌, ◌&&◌, ◌*◌, ◌++◌, ◌+◌, ◌-◌, ◌/◌, ◌<◌, ◌∙◌, ◌∷◌, ◌≡◌, ◌≤◌,
}
use light_discord.Wire.Utf8.{
  IsScalar, encode_char, as_bytes, two_bytes, three_bytes, four_bytes, next_char, cons_char,
  decode_chars, from_utf8,
}

next_char-encode_char :
    (c : ℕ) (rest : List ℕ) → IsScalar c → next_char (encode_char c ++ rest) ≡ some (c, rest)
unfolding next_char encode_char
next_char-encode_char c rest h = ground arith

-- What was read is the encoding of a scalar value, in each width.
abbrev Read : List ℕ → ℕ → List ℕ → Type 0
Read bs c rest = IsScalar c × (bs ≡ encode_char c ++ rest)

two_bytes_sound :
    (a : ℕ) (bs : List ℕ) (c : ℕ) (rest : List ℕ)
    → 0xc2 ≤ a
    → a ≤ 0xdf
    → two_bytes a bs ≡ some (c, rest)
    → Read (a ∷ bs) c rest
unfolding two_bytes encode_char
two_bytes_sound a [] c rest lo hi e = cc
two_bytes_sound a (b ∷ bs) c rest lo hi e = ground arith

three_bytes_sound :
    (a : ℕ) (bs : List ℕ) (c : ℕ) (rest : List ℕ)
    → 0xe0 ≤ a
    → a ≤ 0xef
    → three_bytes a bs ≡ some (c, rest)
    → Read (a ∷ bs) c rest
unfolding three_bytes encode_char
three_bytes_sound a [] c rest lo hi e = cc
three_bytes_sound a (b ∷ []) c rest lo hi e = cc
three_bytes_sound a (b ∷ d ∷ bs) c rest lo hi e = ground arith

-- What the tests on four bytes leave.
abbrev FourBytes : ℕ → ℕ → ℕ → ℕ → ℕ → Type 0
FourBytes a b d f c =
    (0x80 ≤ b)
    × (b ≤ 0xbf)
    × (0x80 ≤ d)
    × (d ≤ 0xbf)
    × (0x80 ≤ f)
    × (f ≤ 0xbf)
    × (0x10000 ≤ c)
    × (c < 0x110000)
    × (c ≡ (a - 0xf0) * 262144 + (b - 0x80) * 4096 + (d - 0x80) * 64 + (f - 0x80))

four_bytes_facts :
    (a b d f : ℕ) (bs : List ℕ) (c : ℕ) (rest : List ℕ)
    → 0xf0 ≤ a
    → a ≤ 0xf4
    → four_bytes a (b ∷ d ∷ f ∷ bs) ≡ some (c, rest)
    → FourBytes a b d f c × (rest ≡ bs)
unfolding four_bytes
four_bytes_facts a b d f bs c rest lo hi e = ground arith

encode_four : (a b d f c : ℕ) → 0xf0 ≤ a → FourBytes a b d f c → encode_char c ≡ a ∷ b ∷ d ∷ f ∷ []
unfolding encode_char
encode_four a b d f c lo h = ground (arith, digits.0, digits.1, digits.2, digits.3)
  where
    digits :
        (0xf0 + c / 262144 ≡ a)
        × (0x80 + c / 4096 % 64 ≡ b)
        × (0x80 + c / 64 % 64 ≡ d)
        × (0x80 + c % 64 ≡ f)
    digits = (omega arith, omega arith, omega arith, omega arith)

four_bytes_sound :
    (a : ℕ) (bs : List ℕ) (c : ℕ) (rest : List ℕ)
    → 0xf0 ≤ a
    → a ≤ 0xf4
    → four_bytes a bs ≡ some (c, rest)
    → Read (a ∷ bs) c rest
four_bytes_sound a [] c rest lo hi e = unfold four_bytes in cc
four_bytes_sound a (b ∷ []) c rest lo hi e = unfold four_bytes in cc
four_bytes_sound a (b ∷ d ∷ []) c rest lo hi e = unfold four_bytes in cc
four_bytes_sound a (b ∷ d ∷ f ∷ bs) c rest lo hi e =
    let facts = four_bytes_facts a b d f bs c rest lo hi e in
    (inr (omega arith), rw (encode_four a b d f c lo facts.0, facts.1))

next_char_step : ℕ → List ℕ → Option (ℕ × List ℕ)
next_char_step a rest =
    if ltb a 0x80
    then some (a, rest)
    else if leb 0xc2 a && leb a 0xdf
    then two_bytes a rest
    else if leb 0xe0 a && leb a 0xef
    then three_bytes a rest
    else if leb 0xf0 a && leb a 0xf4
    then four_bytes a rest
    else none

next_char_step_sound :
    (a : ℕ) (bs : List ℕ) (c : ℕ) (rest : List ℕ)
    → next_char_step a bs ≡ some (c, rest)
    → Read (a ∷ bs) c rest
unfolding next_char_step
next_char_step_sound a bs c rest e = ground (
  arith,
  one,
  two_bytes_sound a bs c rest,
  three_bytes_sound a bs c rest,
  four_bytes_sound a bs c rest,
)
  where
    one : a < 0x80 → c ≡ a → rest ≡ bs → Read (a ∷ bs) c rest
    one lo f g = unfold encode_char in ground arith

next_char_sound :
    (bs : List ℕ) (c : ℕ) (rest : List ℕ) → next_char bs ≡ some (c, rest) → Read bs c rest
unfolding next_char_step next_char
next_char_sound [] c rest e = cc
next_char_sound (a ∷ bs) c rest e = next_char_step_sound a bs c rest e

encode_char_shorter : (c : ℕ) (rest : List ℕ) → length rest < length (encode_char c ++ rest)
unfolding encode_char
encode_char_shorter c rest = ground arith

-- One round on an encoded character.
decode_chars_step :
    (fuel : ℕ) (bs : List ℕ) (c : ℕ) (rest : List ℕ)
    → next_char bs ≡ some (c, rest)
    → decode_chars (suc fuel) bs ≡ cons_char c (decode_chars fuel rest)
unfolding decode_chars
decode_chars_step fuel [] c rest e = unfold next_char in cc
decode_chars_step fuel (a ∷ bs) c rest e = rw (e, decode_chars)

decode_chars-as_bytes :
    (s : Text) (fuel : ℕ)
    → All IsScalar s
    → length (as_bytes s) ≤ fuel
    → decode_chars fuel (as_bytes s) ≡ some s
unfolding as_bytes
decode_chars-as_bytes [] fuel h f = unfold decode_chars in refl
decode_chars-as_bytes (c ∷ s) zero h f = absurd (omega (arith, encode_char_shorter c (as_bytes s)))
decode_chars-as_bytes (c ∷ s) (suc fuel) h f =
    decode_chars_step fuel _ c (as_bytes s) (next_char-encode_char c (as_bytes s) h.0)
    ∙ ap (cons_char c)
        (decode_chars-as_bytes s fuel h.1 (omega (arith, encode_char_shorter c (as_bytes s))))

-- A text of scalar values is read back from its bytes.
pub from_utf8-as_bytes : (s : Text) → All IsScalar s → from_utf8 (as_bytes s) ≡ some s
unfolding from_utf8
from_utf8-as_bytes s h = decode_chars-as_bytes s (length (as_bytes s)) h (omega arith)

decode_chars_sound :
    (fuel : ℕ) (bs : List ℕ) (s : Text)
    → decode_chars fuel bs ≡ some s
    → All IsScalar s × (bs ≡ as_bytes s)
unfolding decode_chars as_bytes
decode_chars_sound fuel [] [] e = (tt, refl)
decode_chars_sound fuel [] (c ∷ s) e = cc
decode_chars_sound zero (a ∷ bs) s e = cc
decode_chars_sound (suc fuel) (a ∷ bs) s e = elim (Option-cases (next_char (a ∷ bs))) [
  | inl n ↦ cc (e, n)
  | inr ((c, rest), n) ↦
      let step = sym (decode_chars_step fuel (a ∷ bs) c rest n) ∙ e in
      elim (Option-cases (decode_chars fuel rest)) [
        | inl m ↦ cc (step, m)
        | inr (t, m) ↦
            let (scalars, shape) = decode_chars_sound fuel rest t m in
            let (scalar, front) = next_char_sound (a ∷ bs) c rest n in
            let whole : s ≡ c ∷ t = cc (step, m) in
            rw whole ((scalar, scalars), front ∙ ap (λ r. encode_char c ++ r) shape)
      ]
]

-- Bytes that are read are exactly the bytes of the text.
pub as_bytes-from_utf8 :
    (bs : List ℕ) (s : Text) → from_utf8 bs ≡ some s → All IsScalar s × (bs ≡ as_bytes s)
unfolding from_utf8
as_bytes-from_utf8 bs s e = decode_chars_sound (length bs) bs s e
