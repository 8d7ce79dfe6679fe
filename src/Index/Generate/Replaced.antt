-- ===== src/Index/Generate/Replaced.antt =====
-- `Write` and `Check`: the index that `replaceIndexDirectory` has put in place is not stale.
use mathlib.Core.List.{append_cancel_left}
use git_memo.Base.{
  ◌≡◌, refl, subst, ◌↔◌, inl, inr, arith, true, Option, none, some, List, [], ◌∷◌, ◌++◌, Bool-cases,
  Option-cases, is_some, All, All-map, All-sort, sort-All, map, if◌then◌else◌,
}
use git_memo.Base.Text.{Text, text, text_le, ◌==◌, eq_iff, eq_refl, contains, strip_prefix}
use git_memo.Base.Dict.{lookup, insert, lookup-insert}
use git_memo.Index.Chunks.{Files}
use git_memo.Index.Generate.{paths_of, generated_paths, check}
use git_memo.Index.Generate.Fresh.{IsFresh, check-IsFresh}
use git_memo.Index.Generate.Replace.{
  Faults, Folders, replaced, written, bytes_of, write_new, replace_index_directory,
}
use git_memo.Index.Generate.Kept.{replace-written}

strip_prefix_sound : (p s t : Text) → strip_prefix p s ≡ some t → s ≡ p ++ t
unfolding strip_prefix
strip_prefix_sound [] s t h = ground arith
strip_prefix_sound (c ∷ p) [] t h = absurd (ground arith)
strip_prefix_sound (c ∷ p) (d ∷ s) t h = ground (arith, strip_prefix_sound p s t)

strip_prefix-append : (p t : Text) → strip_prefix p (p ++ t) ≡ some t
unfolding strip_prefix
strip_prefix-append [] t = refl
strip_prefix-append (c ∷ p) t = ground (arith, strip_prefix-append p t)

-- The path of a file in the folder `index`.
abbrev inside_index : Text → Text
inside_index inside = text "index/" ++ inside

module _ (faults : Faults) (generated : Files) where
  -- The new folder has, of the paths written, the bytes generated.
  lookup-write_new :
      (paths : List Text) (start new : Files) (inside : Text)
      → write_new faults generated paths start ≡ written new
      → lookup inside new ≡ (
          if contains paths (inside_index inside)
          then some (bytes_of (inside_index inside) generated)
          else lookup inside start)
  unfolding write_new contains
  lookup-write_new [] start new inside h = ground arith
  lookup-write_new (rel ∷ paths) start new inside h =
      elim (Option-cases (strip_prefix (text "index/") rel)) [
        | inl outside ↦ absurd (ground arith)
        | inr (place, stripped) ↦
            let whole : rel ≡ inside_index place =
              strip_prefix_sound (text "index/") rel place stripped in
            let rest =
              lookup-write_new paths (insert place (bytes_of rel generated) start) new inside
                (ground arith) in
            ground (
              arith,
              rest,
              whole,
              lookup-insert place inside (bytes_of rel generated) start,
              eq_iff place inside,
              eq_iff rel (inside_index inside),
              append_cancel_left (text "index/") place inside,
            )
      ]

-- A map has one entry for each key.
abbrev pub IsMap : Files → Type 0
IsMap files = All (λ file. lookup file.0 files ≡ some file.1) files

-- The paths of the folder, and what they read as.
abbrev pub index_paths : Files → List Text
index_paths new = map inside_index (paths_of new)

unfoldable pub read_index : Files → Text → Option Text
unfolding strip_prefix lookup
read_index new path = elim (strip_prefix (text "index/") path) [
  | none ↦ none
  | some inside ↦ lookup inside new
]

contains-All :
    (P : Text → Type 0) (xs : List Text) (t : Text) → All P xs → contains xs t ≡ true → P t
unfolding contains
contains-All P [] t h found = absurd (ground arith)
contains-All P (x ∷ xs) t (hx, h) found = elim (Bool-cases (x == t)) [
  | inl same ↦ subst P {x = x} (ground (arith, eq_iff x t)) hx
  | inr apart ↦ contains-All P xs t h (ground arith)
]

contains_self : (xs : List Text) → All (λ t. contains xs t ≡ true) xs
unfolding contains
contains_self [] = tt
contains_self (x ∷ xs) =
    (ground (arith, eq_refl x), All-map xs (λ t h. ground (arith, h)) (contains_self xs))

-- The paths of the entries, and the entries by their paths.
paths-All :
    (P : Text → Type 0) (files : Files) → All P (paths_of files) ↔ All (λ file. P file.0) files
unfolding paths_of
paths-All P [] = (λ h. tt, λ h. tt)
paths-All P ((path, bytes) ∷ files) =
    ((λ h. (h.0, (paths-All P files).0 h.1)), (λ h. (h.0, (paths-All P files).1 h.1)))

All-zip :
    {A : Type 0} (P Q : A → Type 0) (xs : List A) → All P xs → All Q xs → All (λ x. P x × Q x) xs
All-zip P Q [] h k = tt
All-zip P Q (x ∷ xs) (hx, h) (kx, k) = ((hx, kx), All-zip P Q xs h k)

All-inside :
    (P : Text → Type 0) (paths : List Text)
    → All (λ inside. P (inside_index inside)) paths
    → All P (map inside_index paths)
All-inside P [] h = tt
All-inside P (path ∷ paths) (hp, h) = (hp, All-inside P paths h)

is_some-some : (o : Option Text) → is_some o ≡ true → (bytes : Text) × (o ≡ some bytes)
is_some-some none h = absurd (ground arith)
is_some-some (some bytes) h = (bytes, refl)

paths-known : (files : Files) → All (λ t. is_some (lookup t files) ≡ true) (paths_of files)
unfolding paths_of lookup
paths-known [] = tt
paths-known ((path, bytes) ∷ files) = (
  ground (arith, eq_refl path),
  All-map (paths_of files) (λ t h. ground (arith, h)) (paths-known files),
)

module _ (faults : Faults) (generated : Files) (map_like : IsMap generated) where
  bytes_of-generated :
      (path bytes : Text) → lookup path generated ≡ some bytes → bytes_of path generated ≡ bytes
  unfolding bytes_of
  bytes_of-generated path bytes h = ground arith

  -- The generated paths that are under `index/`.
  write_new-inside :
      (paths : List Text) (start new : Files)
      → write_new faults generated paths start ≡ written new
      → All (λ rel. (inside : Text) × (strip_prefix (text "index/") rel ≡ some inside)) paths
  unfolding write_new
  write_new-inside [] start new h = tt
  write_new-inside (rel ∷ paths) start new h =
      elim (Option-cases (strip_prefix (text "index/") rel)) [
        | inl outside ↦ absurd (ground arith)
        | inr (place, stripped) ↦ (
          (place, stripped),
          write_new-inside paths (insert place (bytes_of rel generated) start) new (ground arith),
        )
      ]

  read-written :
      (new : Files) (path bytes : Text)
      → write_new faults generated (generated_paths generated) [] ≡ written new
      → contains (generated_paths generated) path ≡ true
      → lookup path generated ≡ some bytes
      → read_index new path ≡ some bytes
  unfolding read_index lookup
  read-written new path bytes done listed found =
      let (inside, stripped) =
        contains-All (λ rel. (inside : Text) × (strip_prefix (text "index/") rel ≡ some inside))
          (generated_paths generated) path
          (write_new-inside (generated_paths generated) [] new done) listed in
      let whole : path ≡ inside_index inside =
        strip_prefix_sound (text "index/") path inside stripped in
      ground (
        arith,
        whole,
        lookup-write_new faults generated (generated_paths generated) [] new inside done,
        bytes_of-generated path bytes found,
      )

  -- Every file of the new folder was generated.
  written-generated :
      (new : Files) (inside bytes : Text)
      → write_new faults generated (generated_paths generated) [] ≡ written new
      → lookup inside new ≡ some bytes
      → contains (generated_paths generated) (inside_index inside) ≡ true
  unfolding lookup
  written-generated new inside bytes done found =
      ground
        (arith, lookup-write_new faults generated (generated_paths generated) [] new inside done)

  write-IsFresh :
      (new : Files)
      → write_new faults generated (generated_paths generated) [] ≡ written new
      → IsFresh generated (index_paths new) (read_index new)
  unfolding generated_paths
  write-IsFresh new done =
      let listed =
        (paths-All (λ t. contains (generated_paths generated) t ≡ true) generated).0
          (All-sort _ text_le (paths_of generated) (contains_self (generated_paths generated))) in
      (
        All-map generated (λ file h. read-written new file.0 file.1 done h.0 h.1)
            (All-zip (λ file. contains (generated_paths generated) file.0 ≡ true)
              (λ file. lookup file.0 generated ≡ some file.1) generated listed map_like),
        All-inside (λ path. is_some (lookup path generated) ≡ true) (paths_of new)
            (All-map (paths_of new)
              (λ inside h.
                let (bytes, found) = is_some-some (lookup inside new) h in
                contains-All (λ t. is_some (lookup t generated) ≡ true) (generated_paths generated)
                  (inside_index inside)
                  (sort-All (λ t. is_some (lookup t generated) ≡ true) text_le (paths_of generated)
                    (paths-known generated))
                  (written-generated new inside bytes done found))
              (paths-known new)),
      )

  -- When `replaceIndexDirectory` succeeds on generated files that have one entry for each path,
  -- the folder `index` holds files for which `Check` against the generated ones finds nothing
  -- stale.
  pub replace-check :
      (old : Option Files) (f : Folders)
      → replace_index_directory faults generated old ≡ replaced f
      → (new : Files) × (f.index ≡ some new)
        × (check generated (index_paths new) (read_index new) ≡ [])
  replace-check old f h =
      let (new, in_place, done) = replace-written faults generated old f h in
      (
        new,
        in_place,
        (check-IsFresh generated (index_paths new) (read_index new)).1 (write-IsFresh new done),
      )
