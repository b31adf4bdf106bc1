-- ===== src/Common/Decimal.antt =====
-- `{n}` of an unsigned number, and `str::parse::<u32>`.
use Prim.Native.Nat.{ℕ, zero, suc, ◌+◌, ◌-◌, ◌*◌, ◌/◌, ◌%◌, ◌≤◌, ◌<◌}
use mathlib.Core.Path.{◌≡◌, ap, ◌∙◌}
use mathlib.Core.Bool.{◌&&◌}
use mathlib.Core.List.{[], ◌∷◌, ◌++◌}
use mathlib.Core.Option.{Option, none, some}
use native.Mathlib.Omega.{arith}
use light_discord.Common.Tests.{if◌then◌else◌, ltb, leb, ◌==◌, if-elim}
use light_discord.Common.Texts.{Text}

-- Every round divides by ten, so that as much fuel as the number and one more is enough.
unfoldable pub digits : ℕ → ℕ → Text
digits zero n = []
digits (suc fuel) n =
    let front = digits fuel (n / 10) in
    if ltb n 10 then (48 + n) ∷ [] else front ++ (48 + n % 10) ∷ []

unfoldable pub decimal : ℕ → Text
unfolding digits
decimal n = digits (suc n) n

abbrev pub u32_max : ℕ
u32_max = 4294967295

-- One digit after the number `acc`, unless it is none or the result does not fit.
unfoldable pub parse_digits : ℕ → Text → Option ℕ
parse_digits acc [] = some acc
parse_digits acc (c ∷ cs) =
    let rest = parse_digits (acc * 10 + (c - 48)) cs in
    if leb 48 c && leb c 57 then if leb (acc * 10 + (c - 48)) u32_max then rest else none else none

unfoldable pub parse_after_sign : Text → Option ℕ
unfolding parse_digits
parse_after_sign [] = none
parse_after_sign (c ∷ cs) = parse_digits 0 (c ∷ cs)

-- A `+` may come first.
unfoldable pub parse_u32 : Text → Option ℕ
unfolding parse_after_sign
parse_u32 [] = none
parse_u32 (c ∷ cs) = if c == 43 then parse_after_sign cs else parse_after_sign (c ∷ cs)

parse_digits-append :
    (a b : ℕ) (xs ys : Text)
    → parse_digits a xs ≡ some b
    → parse_digits a (xs ++ ys) ≡ parse_digits b ys
unfolding parse_digits
parse_digits-append a b [] ys h = ground (arith, h)
parse_digits-append a b (x ∷ xs) ys h =
    ground (arith, h, parse_digits-append (a * 10 + (x - 48)) b xs ys)

parse_digits-one :
    (a d : ℕ) → d < 10 → a * 10 + d ≤ u32_max → parse_digits a ((48 + d) ∷ []) ≡ some (a * 10 + d)
unfolding parse_digits
parse_digits-one a d h fits = ground arith

parse_digits-digits :
    (fuel n : ℕ) → n < fuel → n ≤ u32_max → parse_digits 0 (digits fuel n) ≡ some n
unfolding digits
parse_digits-digits zero n h fits = absurd (omega arith)
parse_digits-digits (suc fuel) n h fits =
    if-elim (λ t. parse_digits 0 t ≡ some n) (ltb n 10)
      (λ small. parse_digits-one 0 n (ground (arith, small)) (omega arith) ∙ ap some (omega arith))
      (λ large.
        parse_digits-append 0 (n / 10) (digits fuel (n / 10)) ((48 + n % 10) ∷ [])
          (parse_digits-digits fuel (n / 10) (ground (arith, large)) (omega arith))
        ∙ parse_digits-one (n / 10) (n % 10) (omega arith) (omega arith)
        ∙ ap some (omega arith))

-- A text that starts with a digit.
abbrev StartsWithDigit : Text → Type 0
StartsWithDigit [] = ⊥
StartsWithDigit (c ∷ cs) = 48 ≤ c

StartsWithDigit-append : (xs ys : Text) → StartsWithDigit xs → StartsWithDigit (xs ++ ys)
StartsWithDigit-append (x ∷ xs) ys h = h
StartsWithDigit-append [] ys h = absurd h

digits-StartsWithDigit : (fuel n : ℕ) → n < fuel → StartsWithDigit (digits fuel n)
unfolding digits
digits-StartsWithDigit zero n h = absurd (omega arith)
digits-StartsWithDigit (suc fuel) n h =
    if-elim StartsWithDigit (ltb n 10) (λ small. omega arith)
      (λ large.
        StartsWithDigit-append (digits fuel (n / 10)) _
          (digits-StartsWithDigit fuel (n / 10) (ground (arith, large))))

parse_u32-unsigned : (t : Text) → StartsWithDigit t → parse_u32 t ≡ parse_digits 0 t
unfolding parse_u32 parse_after_sign
parse_u32-unsigned [] h = absurd h
parse_u32-unsigned (c ∷ cs) h = ground arith

-- A printed number is read back.
pub parse_u32-decimal : (n : ℕ) → n ≤ u32_max → parse_u32 (decimal n) ≡ some n
unfolding decimal
parse_u32-decimal n fits =
    parse_u32-unsigned (digits (suc n) n) (digits-StartsWithDigit (suc n) n (omega arith))
    ∙ parse_digits-digits (suc n) n (omega arith) fits
