-- ===== src/Wire/Utf8.antt =====
-- UTF-8 as Rust's standard library reads and writes it: `str::as_bytes` and `str::from_utf8`.
pub mod Reading
use light_discord.Common.{
  Bool, List, Option, Text, [], if◌then◌else◌, leb, length, ltb, none, some, suc, zero, ℕ, ◌%◌,
  ◌&&◌, ◌*◌, ◌++◌, ◌+◌, ◌-◌, ◌/◌, ◌<◌, ◌==◌, ◌∷◌, ◌≤◌, ◌⊎◌,
}

-- A Unicode scalar value.
abbrev pub IsScalar : ℕ → Type 0
IsScalar c = (c < 0xd800) ⊎ ((0xe000 ≤ c) × (c < 0x110000))

unfoldable pub encode_char : ℕ → List ℕ
encode_char c =
    if ltb c 0x80
    then c ∷ []
    else if ltb c 0x800
    then (0xc0 + c / 64) ∷ (0x80 + c % 64) ∷ []
    else if ltb c 0x10000
    then (0xe0 + c / 4096) ∷ (0x80 + c / 64 % 64) ∷ (0x80 + c % 64) ∷ []
    else (0xf0 + c / 262144) ∷ (0x80 + c / 4096 % 64) ∷ (0x80 + c / 64 % 64) ∷ (0x80 + c % 64) ∷ []

-- `str::as_bytes`
unfoldable pub as_bytes : Text → List ℕ
as_bytes [] = []
as_bytes (c ∷ s) = encode_char c ++ as_bytes s

is_continuation : ℕ → Bool
is_continuation b = leb 0x80 b && leb b 0xbf

-- Which second byte may follow the first byte of three, and of four.
second_of_three : ℕ → ℕ → Bool
second_of_three a b =
    if a == 0xe0
    then leb 0xa0 b && leb b 0xbf
    else if a == 0xed
    then leb 0x80 b && leb b 0x9f
    else leb 0x80 b && leb b 0xbf

second_of_four : ℕ → ℕ → Bool
second_of_four a b =
    if a == 0xf0
    then leb 0x90 b && leb b 0xbf
    else if a == 0xf4
    then leb 0x80 b && leb b 0x8f
    else leb 0x80 b && leb b 0xbf

two_bytes : ℕ → List ℕ → Option (ℕ × List ℕ)
unfolding is_continuation
two_bytes a [] = none
two_bytes a (b ∷ rest) =
    if is_continuation b then some ((a - 0xc0) * 64 + (b - 0x80), rest) else none

three_bytes : ℕ → List ℕ → Option (ℕ × List ℕ)
unfolding is_continuation second_of_three
three_bytes a [] = none
three_bytes a (b ∷ []) = none
three_bytes a (b ∷ c ∷ rest) =
    if second_of_three a b && is_continuation c
    then some ((a - 0xe0) * 4096 + (b - 0x80) * 64 + (c - 0x80), rest)
    else none

four_bytes : ℕ → List ℕ → Option (ℕ × List ℕ)
unfolding is_continuation second_of_four
four_bytes a [] = none
four_bytes a (b ∷ []) = none
four_bytes a (b ∷ c ∷ []) = none
four_bytes a (b ∷ c ∷ d ∷ rest) =
    if second_of_four a b && (is_continuation c && is_continuation d)
    then some ((a - 0xf0) * 262144 + (b - 0x80) * 4096 + (c - 0x80) * 64 + (d - 0x80), rest)
    else none

next_char : List ℕ → Option (ℕ × List ℕ)
unfolding two_bytes three_bytes four_bytes
next_char [] = none
next_char (a ∷ rest) =
    if ltb a 0x80
    then some (a, rest)
    else if leb 0xc2 a && leb a 0xdf
    then two_bytes a rest
    else if leb 0xe0 a && leb a 0xef
    then three_bytes a rest
    else if leb 0xf0 a && leb a 0xf4
    then four_bytes a rest
    else none

abbrev cons_char : ℕ → Option Text → Option Text
cons_char c none = none
cons_char c (some s) = some (c ∷ s)

decode_chars : ℕ → List ℕ → Option Text
decode_chars fuel [] = some []
decode_chars zero (a ∷ rest) = none
decode_chars (suc fuel) (a ∷ rest) = elim (next_char (a ∷ rest)) [
  | none ↦ none
  | some (c, rest') ↦ cons_char c (decode_chars fuel rest')
]

-- `str::from_utf8`. Each round takes a byte at least, so `length bytes` rounds are enough.
unfoldable pub from_utf8 : List ℕ → Option Text
unfolding decode_chars next_char
from_utf8 bytes = decode_chars (length bytes) bytes
