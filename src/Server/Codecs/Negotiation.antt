-- ===== src/Server/Codecs/Negotiation.antt =====
-- What the normalisation of a list of codec names answers, and which lists are accepted.
use light_discord.Common.{
  Bool, Bool-cases, List, Text, [], arith, false, if-elim, if◌then◌else◌, inl, inr, is_empty, none,
  refl, some, subst, text_eq, text_eq_iff, true, ◌++◌, ◌||◌, ◌∙◌, ◌∷◌, ◌≡◌,
}
use light_discord.Common.Maps.{contains}
use light_discord.Protocol.{screen_share_codec_jpeg}
use light_discord.Server.Codecs.{
  normalize_screen_share_codec, collect, supported_codecs, normalize_requested_screen_share_codecs,
  negotiate_screen_share_codec,
}

-- No name is empty and none occurs twice.
abbrev pub Distinct : List Text → Type 0
Distinct [] = Unit {0}
Distinct (x ∷ xs) = (is_empty x ≡ false) × (contains x xs ≡ false) × Distinct xs

contains-snoc :
    (x y : Text) (xs : List Text) → contains x (xs ++ (y ∷ [])) ≡ (contains x xs || text_eq y x)
unfolding contains
contains-snoc x y [] = ground arith
contains-snoc x y (z ∷ xs) = ground (arith, contains-snoc x y xs)

Distinct-snoc :
    (y : Text) (xs : List Text)
    → is_empty y ≡ false
    → contains y xs ≡ false
    → Distinct xs
    → Distinct (xs ++ (y ∷ []))
unfolding contains
Distinct-snoc y [] e c d = (e, refl, tt)
Distinct-snoc y (x ∷ xs) e c d = (
  d.0,
  ground (arith, d.1, c, text_eq_iff x y, text_eq_iff y x, contains-snoc x y xs),
  Distinct-snoc y xs e (ground (arith, c)) d.2,
)

collect-Distinct : (seen codecs : List Text) → Distinct seen → Distinct (collect seen codecs)
unfolding collect
collect-Distinct seen [] d = d
collect-Distinct seen (codec ∷ codecs) d =
    if-elim Distinct
      (is_empty (normalize_screen_share_codec codec)
        || contains (normalize_screen_share_codec codec) seen)
      (λ _. collect-Distinct seen codecs d)
      (λ new. collect-Distinct (seen ++ (normalize_screen_share_codec codec ∷ [])) codecs (
        Distinct-snoc (normalize_screen_share_codec codec) seen (ground (arith, new))
          (ground (arith, new)) d))

-- A name is collected exactly when it was there before or is the normal form of a requested name.
abbrev pub names : Text → List Text → Bool
names x [] = false
names x (codec ∷ codecs) = text_eq (normalize_screen_share_codec codec) x || names x codecs

skipped :
    (n x : Text) (seen : List Text) (later : Bool)
    → is_empty x ≡ false
    → (is_empty n || contains n seen) ≡ true
    → (contains x seen || later) ≡ (contains x seen || (text_eq n x || later))
skipped n x seen later e old = elim (Bool-cases (text_eq n x)) [
  | inl same ↦ ground (arith, same, was_there ((text_eq_iff n x).0 same))
  | inr other ↦ ground (arith, other)
]
  where
    was_there : n ≡ x → contains x seen ≡ true
    was_there same =
        subst (λ y. is_empty y ≡ false → contains y seen ≡ true) same
          (λ full. ground (arith, old, full)) e

pushed :
    (n x : Text) (seen : List Text) (later : Bool)
    → (contains x (seen ++ (n ∷ [])) || later) ≡ (contains x seen || (text_eq n x || later))
pushed n x seen later = ground (arith, contains-snoc x n seen)

contains-collect :
    (x : Text) (seen codecs : List Text)
    → is_empty x ≡ false
    → contains x (collect seen codecs) ≡ (contains x seen || names x codecs)
unfolding collect
contains-collect x seen [] e = ground arith
contains-collect x seen (codec ∷ codecs) e =
    if-elim
      (λ l.
        contains x l
        ≡ (contains x seen || (text_eq (normalize_screen_share_codec codec) x || names x codecs)))
      (is_empty (normalize_screen_share_codec codec)
        || contains (normalize_screen_share_codec codec) seen)
      (λ old.
        contains-collect x seen codecs e
        ∙ skipped (normalize_screen_share_codec codec) x seen (names x codecs) e old)
      (λ _.
        contains-collect x (seen ++ (normalize_screen_share_codec codec ∷ [])) codecs e
        ∙ pushed (normalize_screen_share_codec codec) x seen (names x codecs))

contains_nothing : (x : Text) → contains x [] ≡ false
unfolding contains
contains_nothing x = refl

supported-Distinct : Distinct supported_codecs
unfolding contains text_eq
supported-Distinct = (refl, refl, (refl, refl, (refl, refl, tt)))

-- The normalised list of codec names is never empty and holds no empty name and no name twice; a
-- name that is not empty is in it exactly when it is the normal form of a requested name, or, when
-- no requested name is left, one of the three defaults.
pub normalize_requested-Distinct :
    (codecs : List Text)
    → Distinct (normalize_requested_screen_share_codecs codecs)
      × (is_empty (normalize_requested_screen_share_codecs codecs) ≡ false)
      × ((x : Text)
          → is_empty x ≡ false
          → contains x (normalize_requested_screen_share_codecs codecs) ≡ (
              if is_empty (collect [] codecs) then contains x supported_codecs else names x codecs))
unfolding normalize_requested_screen_share_codecs
normalize_requested-Distinct codecs = (
  if-elim Distinct (is_empty (collect [] codecs)) (λ _. supported-Distinct)
      (λ _. collect-Distinct [] codecs tt),
  if-elim (λ (l : List Text). is_empty l ≡ false) (is_empty (collect [] codecs)) (λ _. refl)
      (λ some_name. some_name),
  λ x full. ground (arith, contains-collect x [] codecs full, contains_nothing x),
)

-- The negotiation settles on JPEG exactly when a requested name is a spelling of it, and on
-- nothing otherwise.
pub negotiate-jpeg :
    (codecs : List Text)
    → negotiate_screen_share_codec codecs
      ≡ (if names screen_share_codec_jpeg codecs then some screen_share_codec_jpeg else none)
unfolding negotiate_screen_share_codec
negotiate-jpeg [] = refl
negotiate-jpeg (codec ∷ codecs) = ground (arith, negotiate-jpeg codecs)
