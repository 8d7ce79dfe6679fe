-- ===== src/Validation/Laws.antt =====
-- `Validate` returns for every repository, with the issues in order.
use git_memo.Base.{◌≡◌, arith, inl, inr, Bool, some, List, [], ◌∷◌, ◌++◌, Option-cases}
use git_memo.Base.Text.{Text, text, text_le}
use git_memo.Base.Result.{Result-cases}
use git_memo.Base.Sorting.{
  IsSorted, IsTotal, IsTransitive, sort-IsSorted, text_le-IsTotal, text_le-IsTransitive, le_by,
  le_by-IsTotal, le_by-IsTransitive,
}
use git_memo.Memory.{Record}
use git_memo.Validation.{Issue, error, issue_le, sort_issues}
use git_memo.Validation.Cycles.Correct.{check-returns}
use git_memo.Validation.Validate.{
  Repository, trust_issues, schema_issues, record_issues, validate_files, validate, load_sidecars,
}

by_message : Issue → Issue → Bool
by_message a b = text_le a.message b.message

by_code : Issue → Issue → Bool
by_code = le_by (λ i. i.code) by_message

by_path : Issue → Issue → Bool
by_path = le_by (λ i. i.path) by_code

issue_le-IsTotal : IsTotal issue_le
unfolding issue_le le_by by_message by_code by_path
issue_le-IsTotal =
    le_by-IsTotal (λ i. i.severity) by_path
      (le_by-IsTotal (λ i. i.path) by_code
        (le_by-IsTotal (λ i. i.code) by_message (λ a b. text_le-IsTotal a.message b.message)))

issue_le-IsTransitive : IsTransitive issue_le
unfolding issue_le le_by by_message by_code by_path
issue_le-IsTransitive =
    le_by-IsTransitive (λ i. i.severity) by_path
      (le_by-IsTransitive (λ i. i.path) by_code
        (le_by-IsTransitive (λ i. i.code) by_message
          (λ a b c. text_le-IsTransitive a.message b.message c.message)))

pub sort_issues-IsSorted : (issues : List Issue) → IsSorted issue_le (sort_issues issues)
unfolding sort_issues
sort_issues-IsSorted issues = sort-IsSorted issue_le issue_le-IsTotal issue_le-IsTransitive issues

module _ (repo : Repository) where
  record_issues-returns :
      (records : List Record) → (issues : List Issue) × (record_issues repo records ≡ some issues)
  unfolding record_issues
  record_issues-returns records =
      let (cycles, done) = check-returns records in
      elim (Option-cases (record_issues repo records)) [
        | inl failed ↦ absurd (ground arith)
        | inr found ↦ found
      ]

  validate_files-returns :
      (sidecars markdown : List Text)
      → (issues : List Issue) × (validate_files repo sidecars markdown ≡ some issues)
  unfolding validate_files
  validate_files-returns sidecars markdown =
      let (found, done) = record_issues-returns (load_sidecars repo.load sidecars).0 in
      elim (Option-cases (validate_files repo sidecars markdown)) [
        | inl failed ↦ absurd (ground arith)
        | inr issues ↦ issues
      ]

  -- `Validate` returns for every repository, the search for cycles needing no more fuel than it
  -- is given, and its issues stand in the order of severity, path, code and message.
  pub validate-IsSorted :
      (issues : List Issue) × (validate repo ≡ some issues) × IsSorted issue_le issues
  unfolding validate
  validate-IsSorted = elim (Result-cases repo.discovered) [
    | inr (message, failed) ↦
        let issues =
          (trust_issues repo.trust_problems ++ schema_issues repo.schema_error)
          ++ error (text "DISCOVERY") (text "memories") message ∷ [] in
        (sort_issues issues, ground arith, sort_issues-IsSorted issues)
    | inl ((sidecars, markdown), found) ↦
        let (rest, done) = validate_files-returns sidecars markdown in
        let issues =
          (trust_issues repo.trust_problems ++ schema_issues repo.schema_error) ++ rest in
        (sort_issues issues, ground arith, sort_issues-IsSorted issues)
  ]
