-- ===== src/Index/Generate/Fresh.antt =====
-- What it means that `Check` finds nothing stale.
use git_memo.Base.{
  ◌≡◌, refl, sym, subst, ◌↔◌, arith, true, Option, some, List, [], ◌∷◌, ◌++◌, Bool-cases,
  Option-cases, inl, inr, is_some, All, All-sort, sort,
}
use git_memo.Base.Text.{Text, text_le, ◌==◌, eq_iff}
use git_memo.Base.Dict.{lookup}
use git_memo.Index.Chunks.{Files}
use git_memo.Index.Generate.{differing, surplus, unique_strings, check}

Never : Text → Type 0
Never path = ⊥

Never-nil : (xs : List Text) → All Never xs → xs ≡ []
unfolding Never
Never-nil [] h = refl
Never-nil (x ∷ xs) (hx, h) = absurd hx

unique-nil : (xs : List Text) → unique_strings xs ≡ [] → xs ≡ []
unfolding unique_strings
unique-nil [] h = refl
unique-nil (x ∷ xs) h = absurd (ground arith)

append-nil : (xs ys : List Text) → (xs ++ ys) ≡ [] → (xs ≡ []) × (ys ≡ [])
append-nil [] ys h = (refl, h)
append-nil (x ∷ xs) ys h = absurd (ground arith)

-- A sorted list is empty only if the list is.
sort-nil : (xs : List Text) → sort text_le xs ≡ [] → xs ≡ []
sort-nil xs h = Never-nil xs (All-sort Never text_le xs (subst (All Never) (sym h) tt))

-- Every generated file stands in the repository with the bytes generated, and every path that is
-- there is a generated one.
abbrev pub IsFresh : Files → List Text → (Text → Option Text) → Type 0
IsFresh generated actual_paths read =
    All (λ file. read file.0 ≡ some file.1) generated
    × All (λ path. is_some (lookup path generated) ≡ true) actual_paths

differing-nil :
    (read : Text → Option Text) (files : Files)
    → (differing read files ≡ []) ↔ All (λ file. read file.0 ≡ some file.1) files
unfolding differing
differing-nil read [] = (λ h. tt, λ h. refl)
differing-nil read ((path, expected) ∷ files) =
    let rest = differing-nil read files in
    elim (Option-cases (read path)) [
      | inl missing ↦ (λ h. absurd (ground arith), λ h. absurd (ground (arith, h.0)))
      | inr (actual, found) ↦ elim (Bool-cases (actual == expected)) [
        | inl same ↦ (
          (λ h. (ground (arith, eq_iff actual expected), rest.0 (ground arith))),
          (λ h. ground (arith, rest.1 h.1)),
        )
        | inr apart ↦ (
          (λ h. absurd (ground arith)),
          (λ h. absurd (ground (arith, h.0, eq_iff actual expected))),
        )
      ]
    ]

surplus-nil :
    (paths : List Text) (files : Files)
    → (surplus paths files ≡ []) ↔ All (λ path. is_some (lookup path files) ≡ true) paths
unfolding surplus
surplus-nil [] files = (λ h. tt, λ h. refl)
surplus-nil (path ∷ paths) files =
    let rest = surplus-nil paths files in
    elim (Bool-cases (is_some (lookup path files))) [
      | inl known ↦ (λ h. (known, rest.0 (ground arith)), λ h. ground (arith, rest.1 h.1))
      | inr unknown ↦ (λ h. absurd (ground arith), λ h. absurd (ground (arith, h.0)))
    ]

-- `Check` finds nothing stale exactly if every generated file reads with the bytes generated
-- and every path that exists is a generated one.
pub check-IsFresh :
    (generated : Files) (actual_paths : List Text) (read : Text → Option Text)
    → (check generated actual_paths read ≡ []) ↔ IsFresh generated actual_paths read
unfolding check unique_strings sort
check-IsFresh generated actual_paths read =
    let old = differing-nil read generated in
    let extra = surplus-nil actual_paths generated in
    (
      (λ h.
          let both =
            append-nil (differing read generated) (surplus actual_paths generated)
              (sort-nil _ (unique-nil _ h)) in
          (old.0 both.0, extra.0 both.1)),
      (λ h. rw (old.1 h.0) (rw (extra.1 h.1) refl)),
    )
