-- ===== src/Memory/Pattern.antt =====
-- The regular expressions of internal/memory/model.go, which internal/indexer, internal/validation
-- and internal/memoryservice repeat.
use git_memo.Base.{
  ℕ, Bool, true, false, ◌&&◌, ◌||◌, List, [], ◌∷◌, leb, nat_eq, ◌-◌, length, take, drop,
}
use git_memo.Base.Text.{Text, text, ◌==◌, split_on}

unfoldable pub is_digit : ℕ → Bool
is_digit c = leb b'0' c && leb c b'9'

unfoldable pub is_hex : ℕ → Bool
unfolding is_digit
is_hex c = is_digit c || leb b'a' c && leb c b'f'

-- `[a-z0-9]`
unfoldable pub is_slug_byte : ℕ → Bool
unfolding is_digit
is_slug_byte c = is_digit c || leb b'a' c && leb c b'z'

-- One class of bytes for each place of a pattern of fixed length.
pub data Place : Type 0 where
  hex variant : Place
  exactly : ℕ → Place

unfoldable pub fits : Place → ℕ → Bool
unfolding is_hex
fits hex c = is_hex c
fits (exactly d) c = nat_eq c d
fits variant c = nat_eq c b'8' || nat_eq c b'9' || nat_eq c b'a' || nat_eq c b'b'

unfoldable pub matches : List Place → Text → Bool
unfolding fits
matches [] [] = true
matches [] (c ∷ s) = false
matches (p ∷ places) [] = false
matches (p ∷ places) (c ∷ s) = fits p c && matches places s

abbrev pub dash : Place
dash = exactly b'-'

abbrev four_hex : List Place → List Place
four_hex rest = hex ∷ hex ∷ hex ∷ hex ∷ rest

abbrev eight_hex : List Place → List Place
eight_hex rest = four_hex (four_hex rest)

-- `^[0-9a-f]{8}-[0-9a-f]{4}-4[0-9a-f]{3}-[89ab][0-9a-f]{3}-[0-9a-f]{12}$`
abbrev pub uuid_places : List Place
uuid_places = eight_hex (
    dash
    ∷ four_hex (
        dash
        ∷ exactly b'4'
        ∷ hex
        ∷ hex
        ∷ hex
        ∷ dash
        ∷ variant
        ∷ hex
        ∷ hex
        ∷ hex
        ∷ dash
        ∷ eight_hex (four_hex [])))

unfoldable pub is_memory_id : Text → Bool
unfolding matches
is_memory_id s = matches uuid_places s

-- `^[a-z0-9]+(?:-[a-z0-9]+)*$`, by what may follow: `slug_start` wants a letter or a digit first.
unfoldable mutual
  pub slug_start : Text → Bool
  slug_start [] = false
  slug_start (c ∷ s) = is_slug_byte c && slug_rest s

  pub slug_rest : Text → Bool
  slug_rest [] = true
  slug_rest (c ∷ s) = is_slug_byte c && slug_rest s || nat_eq c b'-' && slug_start s

unfoldable pub is_slug : Text → Bool
unfolding slug_start is_slug_byte
is_slug s = slug_start s

-- `--[0-9a-f]{8}\.md`
abbrev pub short_places : List Place
short_places = dash ∷ dash ∷ eight_hex (exactly b'.' ∷ exactly b'm' ∷ exactly b'd' ∷ [])

-- `--[0-9a-f]{8}`
abbrev pub stem_places : List Place
stem_places = dash ∷ dash ∷ eight_hex []

-- `[slug]--[0-9a-f]{8}\.md`: the ending has 13 bytes, and the slug is what stands before it.
unfoldable pub is_file_name : Text → Bool
unfolding is_slug matches
is_file_name s =
    let stem = length s - 13 in
    leb 13 (length s) && is_slug (take stem s) && matches short_places (drop stem s)

-- The path's parts below the first folder.
unfoldable pub ends_in_file : List Text → Bool
unfolding is_file_name is_slug
ends_in_file [] = false
ends_in_file (file ∷ []) = is_file_name file
ends_in_file (dir ∷ next ∷ parts) = is_slug dir && ends_in_file (next ∷ parts)

unfoldable pub are_content_parts : List Text → Bool
unfolding ends_in_file
are_content_parts [] = false
are_content_parts (base ∷ []) = false
are_content_parts (base ∷ dir ∷ parts) =
    base == text "memories" && is_slug dir && ends_in_file parts

-- `^memories(?:/[slug])+/[slug]--[0-9a-f]{8}\.md$`: a slug holds no slash.
unfoldable pub is_content_path : Text → Bool
is_content_path s = are_content_parts (split_on b'/' s)
