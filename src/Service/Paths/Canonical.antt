-- ===== src/Service/Paths/Canonical.antt =====
-- internal/memoryservice/mutation.go: `canonicalPaths` and the schema's pattern for content paths.
use mathlib.Core.List.{append_assoc}
use git_memo.Base.{
  ℕ, zero, suc, ◌+◌, ◌-◌, ◌≡◌, ◌≢◌, refl, sym, ap, subst, ◌∙◌, true, List, [], ◌∷◌, ◌++◌, length,
  length-append, take, drop, All, All-append, arith, inl, inr, Bool-cases,
}
use git_memo.Base.Text.{Text, text, split_on, trim_space, ◌==◌}
use git_memo.Base.TextLaws.{split_on-plain, split_on-append}
use git_memo.Base.Result.{ok, ok-injective, err≢ok, Result-cases}
use git_memo.Memory.{Memory}
use git_memo.Memory.Pattern.{
  is_memory_id, is_slug, is_hex, is_content_path, is_file_name, are_content_parts, matches,
  short_places,
}
use git_memo.Service.Paths.{title_slug, canonical_paths, DocumentPaths, memory_dir}
use git_memo.Service.Paths.Laws.{title_slug-IsSlug, is_slug-All}

hex-apart : (c : ℕ) → is_hex c ≡ true → c ≢ b'/'
unfolding is_hex
hex-apart c h = ground arith

-- The short ID of a memory: eight hexadecimal digits.
short-matches :
    (id : Text)
    → is_memory_id id ≡ true
    → (matches short_places (text "--" ++ (take 8 id ++ text ".md")) ≡ true)
      × All (λ c. c ≢ b'/') (take 8 id)
      × (length (take 8 id) ≡ 8)
unfolding is_memory_id
short-matches (a ∷ b ∷ c ∷ d ∷ e ∷ f ∷ g ∷ h ∷ id) k = ground (
  arith,
  hex-apart a,
  hex-apart b,
  hex-apart c,
  hex-apart d,
  hex-apart e,
  hex-apart f,
  hex-apart g,
  hex-apart h,
)
short-matches _ k = ground arith

module _ {ℓ} {A : Type ℓ} where
  take-append : (xs ys : List A) (n : ℕ) → n ≡ length xs → take n (xs ++ ys) ≡ xs
  take-append [] ys zero h = refl
  take-append [] ys (suc n) h = absurd (omega arith)
  take-append (x ∷ xs) ys zero h = absurd (omega arith)
  take-append (x ∷ xs) ys (suc n) h = ap (◌∷◌ x) (take-append xs ys n (omega arith))

  drop-append : (xs ys : List A) (n : ℕ) → n ≡ length xs → drop n (xs ++ ys) ≡ ys
  drop-append [] ys zero h = refl
  drop-append [] ys (suc n) h = absurd (omega arith)
  drop-append (x ∷ xs) ys zero h = absurd (omega arith)
  drop-append (x ∷ xs) ys (suc n) h = drop-append xs ys n (omega arith)

-- The file of a slug and an ID has the form that the schema asks for.
is_file_name-slug :
    (slug id : Text)
    → is_slug slug ≡ true
    → is_memory_id id ≡ true
    → is_file_name (slug ++ (text "--" ++ (take 8 id ++ text ".md"))) ≡ true
unfolding is_file_name
is_file_name-slug slug id h k =
    let ending = text "--" ++ (take 8 id ++ text ".md") in
    let (fitting, _, eight) = short-matches id k in
    let tail : length ending ≡ 13 = omega (arith, eight, length-append (take 8 id) (text ".md")) in
    let whole : length (slug ++ ending) ≡ length slug + 13 =
      length-append slug ending ∙ ap (λ (n : ℕ). length slug + n) tail in
    let stem : length (slug ++ ending) - 13 ≡ length slug = omega arith in
    rw
      (
        take-append slug ending (length (slug ++ ending) - 13) stem,
        drop-append slug ending (length (slug ++ ending) - 13) stem,
        h,
        fitting,
      )
      (ground arith)

-- A folder of the store: with any proper file name behind it, it makes a content path.
abbrev IsStoreDir : Text → Type 0
IsStoreDir dir =
    (file : Text)
    → All (λ c. c ≢ b'/') file
    → is_file_name file ≡ true
    → is_content_path (dir ++ b'/' ∷ file) ≡ true

general-IsStoreDir : IsStoreDir (text "memories/general")
unfolding is_content_path
general-IsStoreDir file h k =
    ap are_content_parts (
      split_on-append b'/' (text "memories") (text "general" ++ b'/' ∷ file) (omega arith)
      ∙ ap (◌∷◌ (text "memories")) (
          split_on-append b'/' (text "general") file (omega arith)
          ∙ ap (◌∷◌ (text "general")) (split_on-plain b'/' file h)))
    ∙ parts file k
  where
    parts :
        (name : Text)
        → is_file_name name ≡ true
        → are_content_parts (text "memories" ∷ text "general" ∷ name ∷ []) ≡ true
    parts name e = unfold are_content_parts is_slug ◌==◌ in e

projects-IsStoreDir :
    (project : Text) → is_slug project ≡ true → IsStoreDir (text "memories/projects/" ++ project)
unfolding is_content_path
projects-IsStoreDir project slug file h k =
    ap are_content_parts (
      split_on-append b'/' (text "memories") ((text "projects/" ++ project) ++ b'/' ∷ file)
        (omega arith)
      ∙ ap (◌∷◌ (text "memories")) (
          ap (split_on b'/') (append_assoc (text "projects/") project (b'/' ∷ file))
          ∙ split_on-append b'/' (text "projects") (project ++ b'/' ∷ file) (omega arith)
          ∙ ap (◌∷◌ (text "projects")) (
              split_on-append b'/' project file (is_slug-All project slug)
              ∙ ap (◌∷◌ project) (split_on-plain b'/' file h))))
    ∙ parts file k
  where
    parts :
        (name : Text)
        → is_file_name name ≡ true
        → are_content_parts (text "memories" ∷ text "projects" ∷ project ∷ name ∷ []) ≡ true
    parts name e = unfold are_content_parts ◌==◌ in rw slug e

memory_dir-IsStoreDir :
    (projects : List Text) (dir : Text) → memory_dir projects ≡ ok dir → IsStoreDir dir
unfolding memory_dir
memory_dir-IsStoreDir [] dir h = subst IsStoreDir (ok-injective h) general-IsStoreDir
memory_dir-IsStoreDir (first ∷ projects) dir h = elim (Bool-cases (is_slug (trim_space first))) [
  | inl slug ↦
      subst IsStoreDir (ok-injective (rw slug at h)) (projects-IsStoreDir (trim_space first) slug)
  | inr other ↦ absurd (err≢ok (rw other at h))
]

regroup :
    (dir slug short : Text)
    → dir ++ text "/" ++ (slug ++ text "--" ++ short) ++ text ".md"
      ≡ dir ++ b'/' ∷ (slug ++ (text "--" ++ (short ++ text ".md")))
regroup dir slug short = simp append_assoc

-- The Markdown path that `canonicalPaths` returns matches the schema's pattern of a content
-- path, and the sidecar's path differs from it in the extension only.
pub canonical_paths-IsContentPath :
    (m : Memory) (p : DocumentPaths)
    → canonical_paths m ≡ ok p
    → (is_content_path p.markdown ≡ true)
      × ((stem : Text) × (p.markdown ≡ stem ++ text ".md") × (p.sidecar ≡ stem ++ text ".json"))
unfolding canonical_paths
canonical_paths-IsContentPath m p h = elim (Bool-cases (is_memory_id m.id)) [
  | inr bad ↦ absurd (err≢ok (rw bad at h))
  | inl id ↦ elim (Result-cases (memory_dir m.projects)) [
    | inr (e, bad) ↦ absurd (err≢ok (rw (id, bad) at h))
    | inl (dir, found) ↦ subst Goal (ok-injective (rw (id, found) at h)) (
      content id dir found,
      (dir ++ text "/" ++ (title_slug m.title ++ text "--" ++ take 8 m.id), refl, refl),
    )
  ]
]
  where
    Goal : DocumentPaths → Type 0
    Goal q =
        (is_content_path q.markdown ≡ true)
        × ((stem : Text) × (q.markdown ≡ stem ++ text ".md") × (q.sidecar ≡ stem ++ text ".json"))

    content :
        is_memory_id m.id ≡ true
        → (dir : Text) → memory_dir m.projects ≡ ok dir
        → is_content_path
            (dir ++ text "/" ++ (title_slug m.title ++ text "--" ++ take 8 m.id) ++ text ".md")
          ≡ true
    content id dir found =
        let slug = title_slug-IsSlug m.title in
        let file = title_slug m.title ++ (text "--" ++ (take 8 m.id ++ text ".md")) in
        subst (λ (t : Text). is_content_path t ≡ true)
          (sym (regroup dir (title_slug m.title) (take 8 m.id)))
          (memory_dir-IsStoreDir m.projects dir found file
            (All-append (λ c. c ≢ b'/') (title_slug m.title) _
              (is_slug-All (title_slug m.title) slug.0)
              (
                omega arith,
                (
                  omega arith,
                  All-append (λ c. c ≢ b'/') (take 8 m.id) (text ".md") (short-matches m.id id).1
                      (omega arith),
                ),
              ))
            (is_file_name-slug (title_slug m.title) m.id slug.0 id))
