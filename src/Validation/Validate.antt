-- ===== src/Validation/Validate.antt =====
-- internal/validation/validation.go: `Validate` and the two reports.
use git_memo.Base.{
  ℕ, suc, Bool, true, false, not, Option, none, some, List, [], ◌∷◌, ◌++◌, nat_eq, length,
  if◌then◌else◌,
}
use git_memo.Base.Text.{Text, text, ◌==◌, contains, trim_suffix, join}
use git_memo.Base.Decimal.{decimal}
use git_memo.Base.Result.{Result, ok, err}
use git_memo.Memory.{Memory, Record}
use git_memo.Memory.Fields.{TimeFormat}
use git_memo.Validation.{Issue, error, warning, sort_issues}
use git_memo.Validation.Cycles.{check_supersession_cycles}
use git_memo.Validation.Relations.{error_if, check_relations, duplicate_issues}
use git_memo.Validation.Documents.{
  Surroundings, markdown_path, check_filename_and_path, check_markdown, check_temporal,
}

-- What `Validate` asks of the other packages: `trust.Check`, the schema contract, the discovery of
-- sidecars and Markdown files, the loading of a sidecar, and `indexer.Check`. An error is its text.
pub record Repository : Type 0 where
  pub trust_problems : List (Text × Text)
  pub schema_error : Option Text
  pub discovered : Result Text (List Text × List Text)
  pub load : Text → Result (List Text) Memory
  pub stale_indexes : Result Text (List Text)
  pub env : Surroundings
  pub time : TimeFormat

unfoldable pub trust_issues : List (Text × Text) → List Issue
unfolding error
trust_issues [] = []
trust_issues ((path, message) ∷ problems) =
    error (text "TRUST_LOCK") path message ∷ trust_issues problems

unfoldable pub schema_issues : Option Text → List Issue
unfolding error
schema_issues none = []
schema_issues (some message) =
    error (text "SCHEMA_CONTRACT") (text "schema/memory-item.schema.json") message ∷ []

-- The two loops over the pairs of a sidecar and a Markdown file.
unfoldable pub unpaired_sidecars : List Text → List Text → List Issue
unfolding error_if markdown_path contains
unpaired_sidecars markdown [] = []
unpaired_sidecars markdown (p ∷ sidecars) =
    error_if (not (contains markdown (markdown_path p))) (text "MISSING_MARKDOWN") p
      (text "missing paired Markdown file")
    ++ unpaired_sidecars markdown sidecars

unfoldable pub unpaired_markdown : List Text → List Text → List Issue
unfolding error_if trim_suffix contains
unpaired_markdown sidecars [] = []
unpaired_markdown sidecars (p ∷ markdown) =
    error_if (not (contains sidecars (trim_suffix (text ".md") p ++ text ".json")))
      (text "ORPHAN_MARKDOWN") p (text "missing paired JSON sidecar")
    ++ unpaired_markdown sidecars markdown

unfoldable pub schema_problems : Text → List Text → List Issue
unfolding error
schema_problems path [] = []
schema_problems path (message ∷ messages) =
    error (text "SCHEMA") path message ∷ schema_problems path messages

-- The loop that loads the sidecars: the records, and the issues of those that are no memory.
unfoldable pub load_sidecars :
    (Text → Result (List Text) Memory) → List Text → List Record × List Issue
unfolding schema_problems
load_sidecars load [] = ([], [])
load_sidecars load (p ∷ sidecars) =
    let rest = load_sidecars load sidecars in
    elim (load p) [
      | err problems ↦ (rest.0, schema_problems p problems ++ rest.1)
      | ok m ↦ (record { path = p; memory = m } ∷ rest.0, rest.1)
    ]

unfoldable pub document_issues : Surroundings → List Record → List Issue
unfolding check_filename_and_path check_markdown
document_issues env [] = []
document_issues env (r ∷ records) =
    check_filename_and_path env r ++ check_markdown env r ++ document_issues env records

unfoldable pub stale_warnings : List Text → List Issue
unfolding warning
stale_warnings [] = []
stale_warnings (p ∷ stale) =
    warning (text "INDEX_STALE") p (
      text
        "generated index is missing or stale; canonical memories/projects remain authoritative and the index may be regenerated")
    ∷ stale_warnings stale

-- The index is looked at only if every sidecar was loaded.
unfoldable pub index_issues : Bool → Result Text (List Text) → List Issue
unfolding error stale_warnings
index_issues false checked = []
index_issues true (err message) = error (text "INDEX_CHECK") (text "index") message ∷ []
index_issues true (ok stale) = stale_warnings stale

-- The part of `Validate` that has the records, below the checks of the single documents.
unfoldable pub record_issues : Repository → List Record → Option (List Issue)
unfolding duplicate_issues document_issues check_relations check_supersession_cycles check_temporal
record_issues repo records = elim (check_supersession_cycles records) [
  | none ↦ none
  | some cycles ↦ some (
      duplicate_issues records records
      ++ document_issues repo.env records
      ++ check_relations records
      ++ cycles
      ++ check_temporal repo.time records)
]

-- The part of `Validate` below the discovery.
unfoldable pub validate_files : Repository → List Text → List Text → Option (List Issue)
unfolding unpaired_sidecars unpaired_markdown load_sidecars record_issues index_issues
validate_files repo sidecars markdown =
    let loaded = load_sidecars repo.load sidecars in
    elim (record_issues repo loaded.0) [
      | none ↦ none
      | some found ↦ some (
          unpaired_sidecars markdown sidecars
          ++ unpaired_markdown sidecars markdown
          ++ loaded.1
          ++ found
          ++ index_issues (nat_eq (length loaded.0) (length sidecars)) repo.stale_indexes)
    ]

-- `Validate`; `none` is that the search for cycles ran out of fuel.
unfoldable pub validate : Repository → Option (List Issue)
unfolding trust_issues schema_issues error validate_files sort_issues
validate repo =
    let first = trust_issues repo.trust_problems ++ schema_issues repo.schema_error in
    elim repo.discovered [
      | err message ↦
          some (sort_issues (first ++ error (text "DISCOVERY") (text "memories") message ∷ []))
      | ok (sidecars, markdown) ↦ elim (validate_files repo sidecars markdown) [
        | none ↦ none
        | some issues ↦ some (sort_issues (first ++ issues))
      ]
    ]

-- The issues of one severity, as both reports count them.
unfoldable pub count_severity : Text → List Issue → ℕ
count_severity severity [] = 0
count_severity severity (i ∷ issues) =
    let rest = count_severity severity issues in if i.severity == severity then suc rest else rest

-- The numbers of errors and of warnings that `MarshalJSONReport` writes.
unfoldable pub report_counts : List Issue → ℕ × ℕ
unfolding count_severity
report_counts issues =
    (count_severity (text "ERROR") issues, count_severity (text "WARNING") issues)

unfoldable pub issue_lines : List Issue → List Text
issue_lines [] = []
issue_lines (i ∷ issues) =
    (i.severity ++ text " [" ++ i.code ++ text "] " ++ i.path ++ text ": " ++ i.message)
    ∷ issue_lines issues

-- `RenderText`: lines without the newline of the last.
unfoldable pub render_text : List Issue → Text
unfolding report_counts issue_lines join
render_text [] = text "Runethread validation passed: 0 errors, 0 warnings."
render_text (i ∷ issues) =
    let counts = report_counts (i ∷ issues) in
    join 10 (
      (text "Runethread validation: "
        ++ decimal counts.0
        ++ text " error(s), "
        ++ decimal counts.1
        ++ text " warning(s).")
      ∷ issue_lines (i ∷ issues))
