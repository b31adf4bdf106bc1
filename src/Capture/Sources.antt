-- ===== src/Capture/Sources.antt =====
-- The identifiers of screens and windows in crates/light-discord-platform/src/screen.rs.
use light_discord.Common.{
  Option, Result, Text, [], ap, err, if◌then◌else◌, is_empty, none, ok, refl, some, text, text_eq,
  ℕ, ◌++◌, ◌==◌, ◌∷◌, ◌≡◌, ◌≤◌,
}
use light_discord.Common.Decimal.{decimal, u32_max, parse_u32, parse_u32-decimal}

pub data ScreenShareSourceKind : Type 0 where
  display window : ScreenShareSourceKind

unfoldable pub format_display_id : ℕ → Text
format_display_id display_id = text "display:" ++ decimal display_id

unfoldable pub format_window_id : ℕ → Text
format_window_id window_id = text "window:" ++ decimal window_id

abbrev before_first : ℕ → Option (Text × Text) → Option (Text × Text)
before_first c none = none
before_first c (some (front, back)) = some (c ∷ front, back)

-- `id.split_once(':')`
unfoldable pub split_once : Text → Option (Text × Text)
split_once [] = none
split_once (c ∷ cs) =
    let rest = split_once cs in if c == 58 then some ([], cs) else before_first c rest

abbrev invalid : Text → Text
invalid id = text "invalid screen share source id: " ++ id

-- The match on the kind, once the number is known.
unfoldable pub with_kind : Text → ℕ → Result (ScreenShareSourceKind × ℕ) Text
with_kind kind native_id =
    if text_eq kind (text "display")
    then ok (display, native_id)
    else if text_eq kind (text "window")
    then ok (window, native_id)
    else err (text "unknown screen share source kind: " ++ kind)

unfoldable pub with_number : Text → Text → Option ℕ → Result (ScreenShareSourceKind × ℕ) Text
unfolding with_kind
with_number id kind none = err (invalid id)
with_number id kind (some native_id) = with_kind kind native_id

unfoldable pub with_parts : Text → Option (Text × Text) → Result (ScreenShareSourceKind × ℕ) Text
unfolding with_number parse_u32
with_parts id none = err (invalid id)
with_parts id (some (kind, value)) =
    if is_empty value then err (invalid id) else with_number id kind (parse_u32 value)

unfoldable pub parse_source_id : Text → Result (ScreenShareSourceKind × ℕ) Text
unfolding with_parts split_once
parse_source_id id = with_parts id (split_once id)

-- `format_display_id` or `format_window_id`, by the kind.
abbrev pub format_id : ScreenShareSourceKind → ℕ → Text
format_id display = format_display_id
format_id window = format_window_id

some-apart : (n : ℕ) (o : Option ℕ) → o ≡ none → ¬ (o ≡ some n)
some-apart n o e h = absurd cc

with_parts-decimal :
    (id kind value : Text) (n : ℕ)
    → parse_u32 value ≡ some n
    → with_parts id (some (kind, value)) ≡ with_kind kind n
unfolding with_parts with_number parse_u32
with_parts-decimal id kind [] n h = absurd (some-apart n (parse_u32 []) refl h)
with_parts-decimal id kind (c ∷ cs) n h = ap (with_number id kind) h

-- The identifier that is made for a screen or a window is parsed back to its kind and its number.
pub parse_source_id-format_id :
    (kind : ScreenShareSourceKind) (n : ℕ)
    → n ≤ u32_max
    → parse_source_id (format_id kind n) ≡ ok (kind, n)
unfolding parse_source_id split_once format_display_id format_window_id with_kind text_eq
parse_source_id-format_id display n fits =
    with_parts-decimal (format_display_id n) (text "display") (decimal n) n
      (parse_u32-decimal n fits)
parse_source_id-format_id window n fits =
    with_parts-decimal (format_window_id n) (text "window") (decimal n) n (parse_u32-decimal n fits)
