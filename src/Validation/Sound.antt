-- ===== src/Validation/Sound.antt =====
-- What a repository is like in which `Validate` finds no error.
use git_memo.Base.{
  ◌≡◌, refl, subst, inl, inr, arith, Bool, true, false, not, Option, none, some, List, [], ◌∷◌,
  ◌++◌, Option-cases, All, All-sort, sort, nat_eq, length,
}
use git_memo.Base.Text.{Text, text, eq_refl, contains, trim_suffix}
use git_memo.Base.Result.{ok, Result-cases}
use git_memo.Memory.{Record}
use git_memo.Validation.{Issue, error, has_errors, issue_le, sort_issues}
use git_memo.Validation.Cycles.{check_supersession_cycles}
use git_memo.Validation.Cycles.Graph.{Above}
use git_memo.Validation.Cycles.Correct.{cycles_iff}
use git_memo.Validation.Relations.{check_relations, duplicate_issues}
use git_memo.Validation.Linked.{IsLinked, check_relations-IsLinked}
use git_memo.Validation.Documents.{markdown_path, check_temporal}
use git_memo.Validation.Errors.{
  HasNoError, HasNoError-split, error_if-HasNoError, has_errors-IsNoError, errors-nil, IsNoError,
  check_relations-AreErrors, cycles-IsError,
}
use git_memo.Validation.Validate.{
  Repository, trust_issues, schema_issues, unpaired_sidecars, unpaired_markdown, load_sidecars,
  record_issues, validate_files, validate, document_issues, index_issues,
}

trust_issues-HasNoError :
    (problems : List (Text × Text)) → HasNoError (trust_issues problems) → problems ≡ []
unfolding trust_issues error
trust_issues-HasNoError [] h = refl
trust_issues-HasNoError ((path, message) ∷ problems) h =
    absurd (ground (arith, h.each.0, eq_refl (text "ERROR")))

schema_issues-HasNoError :
    (message : Option Text) → HasNoError (schema_issues message) → message ≡ none
unfolding schema_issues error
schema_issues-HasNoError none h = refl
schema_issues-HasNoError (some message) h =
    absurd (ground (arith, h.each.0, eq_refl (text "ERROR")))

not-false : (b : Bool) → not b ≡ false → b ≡ true
not-false true h = refl
not-false false h = absurd (ground arith)

last-error :
    (message : Text) → HasNoError (error (text "DISCOVERY") (text "memories") message ∷ []) → ⊥
unfolding error
last-error message h = ground (arith, h.each.0, eq_refl (text "ERROR"))

-- Every sidecar has its Markdown file, and every Markdown file its sidecar.
abbrev pub ArePaired : List Text → List Text → Type 0
ArePaired sidecars markdown =
    All (λ p. contains markdown (markdown_path p) ≡ true) sidecars
    × All (λ p. contains sidecars (trim_suffix (text ".md") p ++ text ".json") ≡ true) markdown

unpaired_sidecars-HasNoError :
    (markdown sidecars : List Text)
    → HasNoError (unpaired_sidecars markdown sidecars)
    → All (λ p. contains markdown (markdown_path p) ≡ true) sidecars
unfolding unpaired_sidecars
unpaired_sidecars-HasNoError markdown [] h = tt
unpaired_sidecars-HasNoError markdown (p ∷ sidecars) h =
    let (here, rest) = HasNoError-split _ _ h in
    (
      not-false _ (error_if-HasNoError _ _ _ _ here),
      unpaired_sidecars-HasNoError markdown sidecars rest,
    )

unpaired_markdown-HasNoError :
    (sidecars markdown : List Text)
    → HasNoError (unpaired_markdown sidecars markdown)
    → All (λ p. contains sidecars (trim_suffix (text ".md") p ++ text ".json") ≡ true) markdown
unfolding unpaired_markdown
unpaired_markdown-HasNoError sidecars [] h = tt
unpaired_markdown-HasNoError sidecars (p ∷ markdown) h =
    let (here, rest) = HasNoError-split _ _ h in
    (
      not-false _ (error_if-HasNoError _ _ _ _ here),
      unpaired_markdown-HasNoError sidecars markdown rest,
    )

-- The records of the sidecars that were loaded.
abbrev pub records_of : Repository → List Text → List Record
records_of repo sidecars = (load_sidecars repo.load sidecars).0

pub record IsSound (repo : Repository) : Type 0 where
  pub sidecars : List Text
  pub markdown : List Text
  pub discovered : repo.discovered ≡ ok (sidecars, markdown)
  pub trusted : repo.trust_problems ≡ []
  pub schema : repo.schema_error ≡ none
  pub paired : ArePaired sidecars markdown
  pub linked : All (IsLinked (records_of repo sidecars)) (records_of repo sidecars)
  pub acyclic : (id : Text) → Above (records_of repo sidecars) id id → ⊥

module _ (repo : Repository) where
  record_issues-HasNoError :
      (records : List Record) (issues : List Issue)
      → record_issues repo records ≡ some issues
      → HasNoError issues
      → All (IsLinked records) records × ((id : Text) → Above records id id → ⊥)
  unfolding record_issues
  record_issues-HasNoError records issues h clean =
      elim (Option-cases (check_supersession_cycles records)) [
        | inl failed ↦ absurd (ground arith)
        | inr (cycles, done) ↦
            let whole : HasNoError (
                duplicate_issues records records
                ++ document_issues repo.env records
                ++ check_relations records
                ++ cycles
                ++ check_temporal repo.time records) =
              subst HasNoError {x = issues} (ground arith) clean in
            let (h₁, times) = HasNoError-split _ _ whole in
            let (h₂, circles) = HasNoError-split _ cycles h₁ in
            let (h₃, relations) = HasNoError-split _ (check_relations records) h₂ in
            (
              check_relations-IsLinked records (
                  errors-nil (check_relations records) (check_relations-AreErrors records).each
                    relations.each),
              (cycles_iff records cycles done).0
                  (errors-nil cycles (cycles-IsError records cycles done) circles.each),
            )
      ]

  validate_files-HasNoError :
      (sidecars markdown : List Text) (issues : List Issue)
      → validate_files repo sidecars markdown ≡ some issues
      → HasNoError issues
      → ArePaired sidecars markdown
        × All (IsLinked (records_of repo sidecars)) (records_of repo sidecars)
        × ((id : Text) → Above (records_of repo sidecars) id id → ⊥)
  unfolding validate_files
  validate_files-HasNoError sidecars markdown issues h clean =
      let loaded = load_sidecars repo.load sidecars in
      elim (Option-cases (record_issues repo loaded.0)) [
        | inl failed ↦ absurd (ground arith)
        | inr (found, done) ↦
            let whole : HasNoError (
                unpaired_sidecars markdown sidecars
                ++ unpaired_markdown sidecars markdown
                ++ loaded.1
                ++ found
                ++ index_issues (nat_eq (length loaded.0) (length sidecars)) repo.stale_indexes) =
              subst HasNoError {x = issues} (ground arith) clean in
            let (h₁, index) = HasNoError-split _ _ whole in
            let (h₂, of_records) = HasNoError-split _ found h₁ in
            let (h₃, of_schema) = HasNoError-split _ loaded.1 h₂ in
            let (pairs, others) = HasNoError-split _ _ h₃ in
            let (linked, acyclic) = record_issues-HasNoError loaded.0 found done of_records in
            (
              (
                unpaired_sidecars-HasNoError markdown sidecars pairs,
                unpaired_markdown-HasNoError sidecars markdown others,
              ),
              linked,
              acyclic,
            )
      ]

  -- If `Validate` returns no error, warnings aside, then the discovery succeeded, the trust
  -- lock and the schema contract raised no problem, every sidecar has its Markdown file and
  -- every Markdown file its sidecar, the relationships of the records loaded are sound in the
  -- sense of `check_relations-IsLinked`, and no memory is above itself.
  pub validate-IsSound :
      (issues : List Issue) → validate repo ≡ some issues → has_errors issues ≡ false → IsSound repo
  unfolding validate sort_issues
  validate-IsSound issues h clean =
      let first = trust_issues repo.trust_problems ++ schema_issues repo.schema_error in
      let each = has_errors-IsNoError issues clean in
      elim (Result-cases repo.discovered) [
        | inr (message, failed) ↦
            let last = error (text "DISCOVERY") (text "memories") message in
            let same : issues ≡ sort issue_le (first ++ last ∷ []) = ground arith in
            let whole : HasNoError (first ++ last ∷ []) = record {
              each =
                  All-sort IsNoError issue_le (first ++ last ∷ [])
                    (subst (All IsNoError) same each);
            } in
            let (before, this) = HasNoError-split first (last ∷ []) whole in
            absurd (last-error message this)
        | inl ((sidecars, markdown), found) ↦
            elim (Option-cases (validate_files repo sidecars markdown)) [
              | inl failed ↦ absurd (ground arith)
              | inr (rest, done) ↦
                  let same : issues ≡ sort issue_le (first ++ rest) = ground arith in
                  let whole : HasNoError (first ++ rest) = record {
                    each =
                        All-sort IsNoError issue_le (first ++ rest)
                          (subst (All IsNoError) same each);
                  } in
                  let (before, behind) = HasNoError-split first rest whole in
                  let (trust, schema_part) = HasNoError-split _ _ before in
                  let (pairs, links, circles) =
                    validate_files-HasNoError sidecars markdown rest done behind in
                  record {
                    sidecars = sidecars;
                    markdown = markdown;
                    discovered = found;
                    trusted = trust_issues-HasNoError repo.trust_problems trust;
                    schema = schema_issues-HasNoError repo.schema_error schema_part;
                    paired = pairs;
                    linked = links;
                    acyclic = circles;
                  }
            ]
      ]
