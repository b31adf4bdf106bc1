-- ===== src/Voice/Resample.antt =====
-- `resample_linear_mono` of crates/light-discord-platform/src/voice.rs. An i32 keeps the wrapped value
-- of a product or a sum, as in a release build. `none` stands for an index out of range, where Rust
-- panics. The product of the length and the rate is a u64 in the code, which wraps only beyond 2 ^ 32
-- samples.
mod Examples
use light_discord.Common.{
  ==_iff, All, List, Option, [], ap, arith, get_elem?, if-elim, if◌then◌else◌, is_empty, length,
  max, min, none, refl, some, suc, sym, true, zero, ℕ, ◌*◌, ◌+◌, ◌-◌, ◌/◌, ◌<◌, ◌==◌, ◌||◌, ◌∙◌,
  ◌∷◌, ◌≡◌, ◌≤◌,
}
use light_discord.Common.Int.{ℤ, pos, negsuc, ◌+ℤ◌, ◌-ℤ◌, ◌*ℤ◌, div_ℤ, wrap_i32}
use light_discord.Audio.Pcm.{IsI16}
use native.Mathlib.Nat.{div-lt_iff_lt-mul, div-mul-le_self, mul-div_cancel}

-- `.max(1)` of an i32, as a number.
unfoldable pub at_least_one : ℤ → ℕ
at_least_one (pos n) = max n 1
at_least_one (negsuc n) = 1

-- `clamp(i16::MIN as i32, i16::MAX as i32)`
unfoldable pub clamp_i16 : ℤ → ℤ
clamp_i16 (pos n) = pos (min n 32767)
clamp_i16 (negsuc n) = negsuc (min n 32767)

unfoldable pub interpolate : ℤ → ℤ → ℕ → ℕ → ℤ
unfolding wrap_i32 at_least_one clamp_i16
interpolate s0 s1 frac_num step_den =
    let product = wrap_i32 ((s1 -ℤ s0) *ℤ wrap_i32 (pos frac_num)) in
    let quotient = div_ℤ product (at_least_one (wrap_i32 (pos step_den))) in
    clamp_i16 (wrap_i32 (s0 +ℤ quotient))

-- The sample after, or the last one again.
abbrev or_last : Option ℤ → ℤ → ℤ
or_last none s0 = s0
or_last (some s1) s0 = s1

abbrev interpolated : Option ℤ → Option ℤ → ℕ → ℕ → Option ℤ
interpolated none next frac_num step_den = none
interpolated (some s0) next frac_num step_den =
    some (interpolate s0 (or_last next s0) frac_num step_den)

-- One round of the loop.
unfoldable pub resample_at : List ℤ → ℕ → ℕ → ℕ → Option ℤ
unfolding interpolate
resample_at samples step_num step_den i =
    let pos_num = i * step_num in
    let src_index = pos_num / step_den in
    let frac_num = pos_num - src_index * step_den in
    interpolated (get_elem? samples src_index) (get_elem? samples (src_index + 1)) frac_num step_den

abbrev push : Option ℤ → Option (List ℤ) → Option (List ℤ)
push none out = none
push (some s) none = none
push (some s) (some out) = some (s ∷ out)

-- `count` rounds from the round `i` on.
unfoldable pub resample_from : List ℤ → ℕ → ℕ → ℕ → ℕ → Option (List ℤ)
unfolding resample_at
resample_from samples step_num step_den i zero = some []
resample_from samples step_num step_den i (suc count) =
    push (resample_at samples step_num step_den i)
      (resample_from samples step_num step_den (i + 1) count)

unfoldable pub resample_linear_mono : List ℤ → ℕ → ℕ → Option (List ℤ)
unfolding resample_from
resample_linear_mono samples src_rate dst_rate =
    let out_len = length samples * dst_rate / src_rate in
    let out = resample_from samples src_rate dst_rate 0 out_len in
    if src_rate == 0 || dst_rate == 0 || is_empty samples
    then some []
    else if src_rate == dst_rate
    then some samples
    else if out_len == 0
    then some []
    else out

get_elem-some : (xs : List ℤ) (i : ℕ) → i < length xs → (x : ℤ) × (get_elem? xs i ≡ some x)
get_elem-some [] i h = absurd (omega arith)
get_elem-some (x ∷ xs) zero h = (x, refl)
get_elem-some (x ∷ xs) (suc i) h = get_elem-some xs i (omega arith)

clamp_i16-IsI16 : (s : ℤ) → IsI16 (clamp_i16 s)
unfolding clamp_i16
clamp_i16-IsI16 (pos n) = omega arith
clamp_i16-IsI16 (negsuc n) = omega arith

-- What a number of samples of sixteen bits each is.
abbrev pub IsOutput : ℕ → Option (List ℤ) → Type 0
IsOutput count none = ⊥
IsOutput count (some out) = (length out ≡ count) × All IsI16 out

abbrev IsSample : Option ℤ → Type 0
IsSample none = ⊥
IsSample (some s) = IsI16 s

push-IsOutput :
    (o : Option ℤ) (count : ℕ) (out : Option (List ℤ))
    → IsSample o
    → IsOutput count out
    → IsOutput (suc count) (push o out)
push-IsOutput none count out h k = absurd h
push-IsOutput (some s) count none h k = absurd k
push-IsOutput (some s) count (some out) h k = (ap suc k.0, (h, k.1))

interpolated-IsSample :
    (o next : Option ℤ) (frac_num step_den : ℕ)
    → ((s : ℤ) × (o ≡ some s))
    → IsSample (interpolated o next frac_num step_den)
unfolding interpolate
interpolated-IsSample none next frac_num step_den h = absurd (ground (arith, h.1))
interpolated-IsSample (some s) next frac_num step_den h = clamp_i16-IsI16 _

length-is_empty : (xs : List ℤ) → is_empty xs ≡ true → length xs ≡ 0
length-is_empty [] e = refl
length-is_empty (x ∷ xs) e = absurd cc

zero_rounds : (a b : ℕ) → 0 * a / b ≡ 0
zero_rounds a b = omega arith

mul_mono : (a b c : ℕ) → a ≤ b → a * c ≤ b * c
mul_mono a b c h = grind arith

suc_mul : (a b : ℕ) → suc a * b ≡ a * b + b
suc_mul a b = grind arith

module _ (samples : List ℤ) (src dst : ℕ) (has_src : 1 ≤ src) (has_dst : 1 ≤ dst) where
  -- The position of a round that is run lies within the samples.
  src_index-lt : (i : ℕ) → i < length samples * dst / src → i * src / dst < length samples
  src_index-lt i h = (div-lt_iff_lt-mul has_dst).1 below
    where
      rounds : ℕ
      rounds = length samples * dst / src

      upto : suc i * src ≤ rounds * src
      upto = mul_mono (suc i) rounds src h

      below : i * src < length samples * dst
      below = omega (arith, upto, div-mul-le_self (length samples * dst) src, suc_mul i src)

  resample_from-IsOutput :
      (i count : ℕ)
      → i + count ≤ length samples * dst / src
      → IsOutput count (resample_from samples src dst i count)
  unfolding resample_from resample_at
  resample_from-IsOutput i zero h = (refl, tt)
  resample_from-IsOutput i (suc count) h =
      push-IsOutput (resample_at samples src dst i) count
        (resample_from samples src dst (i + 1) count)
        (interpolated-IsSample (get_elem? samples (i * src / dst)) _ _ dst
          (get_elem-some samples (i * src / dst) (src_index-lt i (omega arith))))
        (resample_from-IsOutput (i + 1) count (omega arith))

  abbrev rounds : ℕ
  rounds = length samples * dst / src

  no_rounds : length samples ≡ 0 → 0 ≡ rounds
  no_rounds e = sym (ap (λ l. l * dst / src) e ∙ zero_rounds dst src)

  same_rounds : src ≡ dst → length samples ≡ rounds
  same_rounds e =
      sym (ap (λ r. length samples * r / src) (sym e) ∙ mul-div_cancel (length samples) has_src)

  -- Resampling between rates that are not zero gives the number of samples that the rates ask for,
  -- rounded down, each of sixteen bits, and reads no sample out of range.
  pub resample_linear_mono-IsOutput :
      All IsI16 samples → IsOutput rounds (resample_linear_mono samples src dst)
  unfolding resample_linear_mono
  resample_linear_mono-IsOutput all =
      if-elim (IsOutput rounds) (src == 0 || dst == 0 || is_empty samples)
        (λ e. (no_rounds (length-is_empty samples (ground (arith, e))), tt))
        (λ _.
          if-elim (IsOutput rounds) (src == dst)
            (λ same. (same_rounds ((==_iff src dst).0 same), all))
            (λ _.
              if-elim (IsOutput rounds) (rounds == 0) (λ e. (ground (arith, e), tt))
                (λ _. resample_from-IsOutput 0 rounds (omega arith))))
