-- ===== src/Service/Paths/Laws.antt =====
-- internal/memoryservice/mutation.go: the form and the length of a slug.
use git_memo.Base.{
  ℕ, ◌+◌, ◌≤◌, ◌<◌, ◌≡◌, ◌⊎◌, inl, inr, refl, Bool, true, false, [], ◌∷◌, if◌then◌else◌, length,
  All, Bool-cases, ◌≢◌, arith,
}
use git_memo.Base.Text.{Text, text, is_empty, to_lower, trim_space}
use git_memo.Memory.Pattern.{is_slug_byte, is_slug, slug_start, slug_rest}
use git_memo.Service.Paths.{slug_bytes, trim_dashes_left, trim_dashes_right, title_slug}

-- After a letter or a digit, what is written goes on a slug; after a dash it is nothing, or it
-- starts a slug.
abbrev Continues : Bool → Text → Type 0
Continues false s = slug_rest s ≡ true
Continues true s = (s ≡ []) ⊎ (slug_start s ≡ true)

slug_bytes-Continues :
    (size : ℕ) (last_dash : Bool) (s : Text)
    → 0 < size
    → Continues last_dash (trim_dashes_right (slug_bytes size last_dash s))
unfolding slug_bytes slug_start trim_dashes_right
slug_bytes-Continues size false [] h = refl
slug_bytes-Continues size true [] h = inl refl
slug_bytes-Continues size false (c ∷ s) h = ground (
  arith,
  slug_bytes-Continues (size + 1) false s,
  slug_bytes-Continues (size + 1) true s,
  slug_bytes-Continues size false s,
)
slug_bytes-Continues size true (c ∷ s) h = ground (
  arith,
  slug_bytes-Continues (size + 1) false s,
  slug_bytes-Continues (size + 1) true s,
  slug_bytes-Continues size true s,
)

-- The whole loop writes nothing, or a slug with perhaps a dash behind it.
slug_bytes-start :
    (s : Text)
    → let slug = trim_dashes_right (trim_dashes_left (slug_bytes 0 false s)) in
      (slug ≡ []) ⊎ (slug_start slug ≡ true)
unfolding slug_bytes slug_start trim_dashes_right trim_dashes_left
slug_bytes-start [] = inl refl
slug_bytes-start (c ∷ s) =
    ground (arith, slug_bytes-Continues 1 false s (omega arith), slug_bytes-start s)

length-slug_bytes :
    (size : ℕ) (last_dash : Bool) (s : Text)
    → size < 80
    → length (slug_bytes size last_dash s) + size ≤ 80
unfolding slug_bytes
length-slug_bytes size last_dash [] h = omega arith
length-slug_bytes size last_dash (c ∷ s) h = ground (
  arith,
  length-slug_bytes (size + 1) false s,
  length-slug_bytes (size + 1) true s,
  length-slug_bytes size last_dash s,
)

length-trim_dashes_left : (s : Text) → length (trim_dashes_left s) ≤ length s
unfolding trim_dashes_left
length-trim_dashes_left [] = omega arith
length-trim_dashes_left (c ∷ s) = ground (arith, length-trim_dashes_left s)

length-trim_dashes_right : (s : Text) → length (trim_dashes_right s) ≤ length s
unfolding trim_dashes_right
length-trim_dashes_right [] = omega arith
length-trim_dashes_right (c ∷ s) = ground (arith, length-trim_dashes_right s)

or_memory :
    (slug : Text)
    → (slug ≡ []) ⊎ (slug_start slug ≡ true)
    → length slug ≤ 80
    → (slug_start (if is_empty slug then text "memory" else slug) ≡ true)
      × (length (if is_empty slug then text "memory" else slug) ≤ 80)
unfolding slug_start is_empty is_slug
or_memory [] h k = (refl, omega arith)
or_memory (c ∷ s) h k = (ground arith, k)

-- Whatever the title, `titleSlug` returns a slug of the schema's form, of at most 80 bytes.
pub title_slug-IsSlug :
    (title : Text) → (is_slug (title_slug title) ≡ true) × (length (title_slug title) ≤ 80)
unfolding title_slug is_slug
title_slug-IsSlug title =
    let raw = slug_bytes 0 false (to_lower (trim_space title)) in
    let slug = trim_dashes_right (trim_dashes_left raw) in
    or_memory slug (slug_bytes-start (to_lower (trim_space title))) (
      omega (
        arith,
        length-trim_dashes_right (trim_dashes_left raw),
        length-trim_dashes_left raw,
        length-slug_bytes 0 false (to_lower (trim_space title)) (omega arith),
      ))

-- A slug holds no slash.
slug-All :
    (s : Text)
    → (slug_start s ≡ true → All (λ c. c ≢ b'/') s) × (slug_rest s ≡ true → All (λ c. c ≢ b'/') s)
unfolding slug_start is_slug_byte
slug-All [] = (λ h. tt, λ h. tt)
slug-All (c ∷ s) = (
  λ h. (ground arith, (slug-All s).1 (ground arith)),
  λ h. (ground arith, slug_end c s (slug-All s) h),
)
  where
    slug_end :
        (d : ℕ) (t : Text)
        → (slug_start t ≡ true → All (λ e. e ≢ b'/') t)
          × (slug_rest t ≡ true → All (λ e. e ≢ b'/') t)
        → slug_rest (d ∷ t) ≡ true
        → All (λ e. e ≢ b'/') t
    slug_end d t (start, rest) h = elim (Bool-cases (slug_rest t)) [
      | inl more ↦ rest more
      | inr less ↦ start (ground arith)
    ]

pub is_slug-All : (s : Text) → is_slug s ≡ true → All (λ c. c ≢ b'/') s
unfolding is_slug
is_slug-All s h = (slug-All s).0 h
