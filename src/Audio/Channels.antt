-- ===== src/Audio/Channels.antt =====
-- `adapt_channels` of crates/light-discord-platform/src/audio.rs. The loops over frames walk along the
-- samples, `src` at a time.
use light_discord.Common.{
  All, Bool-cases, List, [], ap, ap₂, arith, drop, drop-exact, false, if◌then◌else◌, inl, inr,
  is_empty, length, length-append, ltb, min, refl, subst, suc, sym, take, take-all, take-exact,
  zero, ℕ, ◌%◌, ◌&&◌, ◌*◌, ◌++◌, ◌-◌, ◌/◌, ◌<◌, ◌==◌, ◌||◌, ◌∙◌, ◌∷◌, ◌≡◌, ◌≤◌,
}
use light_discord.Common.Int.{
  ℤ, pos, negsuc, pos_part, neg_part, sub_ℕ, ◌+ℤ◌, div_ℤ, +ℤ_parts, eq_of_parts,
}
use light_discord.Audio.Pcm.{IsI16, of_i16_pattern}
use native.Mathlib.Nat.{mul-div_cancel_left}

unfoldable pub replicate {ℓ} : {A : Type ℓ} → ℕ → A → List A
replicate zero a = []
replicate (suc n) a = a ∷ replicate n a

-- The i32 accumulator: at most 65535 samples stay below 2 ^ 31 on either side.
unfoldable pub sum : List ℤ → ℤ
sum [] = pos 0
sum (s ∷ samples) = s +ℤ sum samples

-- `as i16`
unfoldable pub as_i16 : ℤ → ℤ
as_i16 (pos n) = of_i16_pattern (n % 65536)
as_i16 (negsuc n) = of_i16_pattern (65535 - n % 65536)

unfoldable pub average : ℕ → List ℤ → ℤ
unfolding sum as_i16
average src samples = as_i16 (div_ℤ (sum samples) src)

-- Every sample `dst` times.
unfoldable pub expand : ℕ → List ℤ → List ℤ
unfolding replicate
expand dst [] = []
expand dst (s ∷ samples) = replicate dst s ++ expand dst samples

unfoldable pub mix_down : ℕ → ℕ → List ℤ → List ℤ
unfolding average
mix_down zero src pcm = []
mix_down (suc frames) src pcm = average src (take src pcm) ∷ mix_down frames src (drop src pcm)

-- The first channels are copied and the rest is silent.
unfoldable pub copy_channels : ℕ → ℕ → ℕ → List ℤ → List ℤ
unfolding replicate
copy_channels zero src dst pcm = []
copy_channels (suc frames) src dst pcm =
    take (min src dst) pcm
    ++ replicate (dst - min src dst) (pos 0)
    ++ copy_channels frames src dst (drop src pcm)

unfoldable pub adapt_channels : List ℤ → ℕ → ℕ → List ℤ
unfolding expand mix_down copy_channels
adapt_channels pcm src dst =
    let frames = length pcm / src in
    if src == 0 || dst == 0 || is_empty pcm
    then []
    else if src == dst
    then pcm
    else if src == 1 && ltb 1 dst
    then expand dst (take frames pcm)
    else if dst == 1
    then mix_down frames src pcm
    else copy_channels frames src dst pcm

length-replicate {ℓ} : {A : Type ℓ} (n : ℕ) (a : A) → length (replicate n a) ≡ n
unfolding replicate
length-replicate zero a = refl
length-replicate (suc n) a = ap suc (length-replicate n a)

sum-replicate_pos : (n k : ℕ) → sum (replicate n (pos k)) ≡ pos (n * k)
unfolding replicate sum
sum-replicate_pos zero k = ap pos (omega arith)
sum-replicate_pos (suc n) k = ap (◌+ℤ◌ (pos k)) (sum-replicate_pos n k) ∙ added
  where
    added : pos k +ℤ pos (n * k) ≡ pos (suc n * k)
    added = eq_of_parts _ _ (grind (arith, +ℤ_parts (pos k) (pos (n * k))))

parts_neg : (a : ℕ) → (pos_part (sub_ℕ 0 a) ≡ 0) × (neg_part (sub_ℕ 0 a) ≡ a)
parts_neg a = ground arith

sum-replicate_neg : (n k : ℕ) → sum (replicate n (negsuc k)) ≡ sub_ℕ 0 (n * suc k)
unfolding replicate sum
sum-replicate_neg zero k = ground arith
sum-replicate_neg (suc n) k = ap (◌+ℤ◌ (negsuc k)) (sum-replicate_neg n k) ∙ added
  where
    added : negsuc k +ℤ sub_ℕ 0 (n * suc k) ≡ sub_ℕ 0 (suc n * suc k)
    added = eq_of_parts _ _ (
        grind (
          arith,
          +ℤ_parts (negsuc k) (sub_ℕ 0 (n * suc k)),
          parts_neg (n * suc k),
          parts_neg (suc n * suc k),
        ))

as_i16-id : (s : ℤ) → IsI16 s → as_i16 s ≡ s
unfolding as_i16
as_i16-id (pos n) h = ground arith
as_i16-id (negsuc n) h = ground arith

div-pos : (n k : ℕ) → 1 ≤ n → div_ℤ (pos (n * k)) n ≡ pos k
unfolding div_ℤ
div-pos n k h = ground (arith, mul-div_cancel_left k h)

div-sub_ℕ_neg : (n m : ℕ) → 1 ≤ n → div_ℤ (sub_ℕ 0 (n * m)) n ≡ sub_ℕ 0 m
unfolding div_ℤ
div-sub_ℕ_neg n m h =
    ap₂ (λ a b. sub_ℕ (a / n) (b / n)) (parts_neg (n * m)).0 (parts_neg (n * m)).1
    ∙ ap₂ sub_ℕ (omega arith) (mul-div_cancel_left m h)

sub_ℕ-negsuc : (k : ℕ) → sub_ℕ 0 (suc k) ≡ negsuc k
sub_ℕ-negsuc k = ground arith

average-replicate : (n : ℕ) (s : ℤ) → 1 ≤ n → IsI16 s → average n (replicate n s) ≡ s
unfolding average
average-replicate n (pos k) h i =
    ap (λ t. as_i16 (div_ℤ t n)) (sum-replicate_pos n k)
    ∙ ap as_i16 (div-pos n k h)
    ∙ as_i16-id (pos k) i
average-replicate n (negsuc k) h i =
    ap (λ t. as_i16 (div_ℤ t n)) (sum-replicate_neg n k)
    ∙ ap as_i16 (div-sub_ℕ_neg n (suc k) h)
    ∙ ap as_i16 (sub_ℕ-negsuc k)
    ∙ as_i16-id (negsuc k) i

length-expand : (n : ℕ) (pcm : List ℤ) → length (expand n pcm) ≡ n * length pcm
unfolding expand
length-expand n [] = omega arith
length-expand n (s ∷ pcm) =
    grind (
      arith,
      length-append (replicate n s) (expand n pcm),
      length-replicate n s,
      length-expand n pcm,
    )

mix_down-expand :
    (n : ℕ) (pcm : List ℤ) → 1 ≤ n → All IsI16 pcm → mix_down (length pcm) n (expand n pcm) ≡ pcm
unfolding mix_down expand
mix_down-expand n [] h all = refl
mix_down-expand n (s ∷ pcm) h all =
    ap₂ ◌∷◌
      (ap (average n) (take-exact n (replicate n s) (expand n pcm) (length-replicate n s))
        ∙ average-replicate n s h all.0)
      (ap (mix_down (length pcm) n)
          (drop-exact n (replicate n s) (expand n pcm) (length-replicate n s))
        ∙ mix_down-expand n pcm h all.1)

adapt_channels-up : (n : ℕ) (pcm : List ℤ) → 1 < n → adapt_channels pcm 1 n ≡ expand n pcm
unfolding adapt_channels expand
adapt_channels-up n [] h = ground arith
adapt_channels-up n (s ∷ pcm) h = ground (arith, h, whole)
  where
    whole : take (suc (length pcm) / 1) (s ∷ pcm) ≡ s ∷ pcm
    whole = take-all (suc (length pcm) / 1) (s ∷ pcm) (omega arith)

zero_div : (n : ℕ) → 0 / n ≡ 0
zero_div n = omega arith

adapt_channels-same : (pcm : List ℤ) → adapt_channels pcm 1 1 ≡ pcm
unfolding adapt_channels
adapt_channels-same [] = refl
adapt_channels-same (s ∷ pcm) = refl

adapt_channels-down :
    (n : ℕ) (pcm : List ℤ) → 1 < n → adapt_channels pcm n 1 ≡ mix_down (length pcm / n) n pcm
unfolding adapt_channels
adapt_channels-down n [] h = ground (arith, ap (λ k. mix_down k n []) (zero_div n))
adapt_channels-down n (s ∷ pcm) h = ground (arith, h)

-- Samples of one channel that are adapted to any number of channels from one and back are the same
-- samples.
pub adapt_channels-adapt_channels :
    (n : ℕ) (pcm : List ℤ)
    → 1 ≤ n
    → All IsI16 pcm
    → adapt_channels (adapt_channels pcm 1 n) n 1 ≡ pcm
adapt_channels-adapt_channels n pcm h all = elim (Bool-cases (ltb 1 n)) [
  | inl many ↦
      ap (λ l. adapt_channels l n 1) (adapt_channels-up n pcm (ground (arith, many)))
      ∙ adapt_channels-down n (expand n pcm) (ground (arith, many))
      ∙ ap (λ frames. mix_down frames n (expand n pcm))
          (ap (λ k. k / n) (length-expand n pcm) ∙ mul-div_cancel_left (length pcm) h)
      ∙ mix_down-expand n pcm h all
  | inr one ↦
      subst (λ k. adapt_channels (adapt_channels pcm 1 k) k 1 ≡ pcm) (sym (one_of one))
        (ap (λ l. adapt_channels l 1 1) (adapt_channels-same pcm) ∙ adapt_channels-same pcm)
]
  where
    one_of : ltb 1 n ≡ false → n ≡ 1
    one_of e = ground (arith, e)
