-- ===== src/Repository/Git.antt =====
-- internal/repository/git.go and internal/repository/transaction.go: the commands that `Git` and
-- `gitTransaction` give to Git, in their order, and how they read the answers.
pub mod Publish
pub mod History
pub mod Transaction
use git_memo.Base.{
  ℕ, Bool, true, false, not, ◌||◌, Option, none, some, List, [], ◌∷◌, ◌++◌, nat_eq, if◌then◌else◌,
}
use git_memo.Base.Text.{Text, text, ◌==◌, is_empty, trim_space, split_on}
use git_memo.Base.Result.{Result, ok, err}
use git_memo.Repository.Message.{AppliedOperation, is_operation_key, parse_applied_operation}
use mathlib.Core.List.{reverse}

-- How a command ends: its standard output, a `CommandError`, or that it could not be run.
pub data Answer : Type 0 where
  printed : Text → Answer
  exited : ℕ → Answer
  not_run : Answer

-- Git, on a world `W`: a command may change it, and so may other processes meanwhile.
pub record Shell (W : Type 0) : Type 0 where
  pub run : List Text → W → Answer × W

-- `State`
pub record RepoState : Type 0 where
  pub revision : Text
  pub branch : Text
  pub clean : Bool
  pub dirty_entries : List Text

-- `StaleRevisionError`, `DirtyRepositoryError` and every other error.
pub data PublishError : Type 0 where
  stale dirty failed : PublishError

-- `strings.TrimRight(text, "\n")`, on the text from its end.
unfoldable pub drop_newlines : Text → Text
drop_newlines [] = []
drop_newlines (c ∷ s) = let rest = drop_newlines s in if nat_eq c 10 then rest else c ∷ s

unfoldable pub keep_lines : List Text → List Text
unfolding is_empty
keep_lines [] = []
keep_lines (line ∷ lines) =
    let rest = keep_lines lines in if is_empty line then rest else line ∷ rest

-- `parsePorcelain`
unfoldable pub parse_porcelain : Text → List Text
unfolding drop_newlines keep_lines is_empty
parse_porcelain s =
    if is_empty (trim_space s)
    then []
    else keep_lines (split_on 10 (reverse (drop_newlines (reverse s))))

is_nil : List Text → Bool
is_nil [] = true
is_nil (s ∷ rest) = false

-- The one match, or the error of several.
unfoldable pub only_match : List AppliedOperation → Option (Option AppliedOperation)
only_match [] = some none
only_match (a ∷ []) = some (some a)
only_match (a ∷ b ∷ rest) = none

-- `strings.SplitN(record, "\x1f", 2)` of a record that has the separator.
unfoldable pub cut_at : ℕ → Text → Option (Text × Text)
cut_at sep [] = none
cut_at sep (c ∷ s) =
    let rest = cut_at sep s in
    if nat_eq c sep
    then some ([], s)
    else elim rest [ none ↦ none | some (before, after) ↦ some (c ∷ before, after) ]

unfoldable pub keep_key : Text → Option AppliedOperation → List AppliedOperation
keep_key key none = []
keep_key key (some a) = if a.idempotency_key == key then a ∷ [] else []

unfoldable pub read_parts : Text → Option (Text × Text) → List AppliedOperation
unfolding keep_key
read_parts key none = []
read_parts key (some (commit, message)) =
    keep_key key (parse_applied_operation (trim_space commit) message)

-- One record of the history, if it is an operation with that key. An empty record has no separator.
unfoldable pub read_record : Text → Text → List AppliedOperation
unfolding cut_at read_parts
read_record key entry = read_parts key (cut_at 31 (trim_space entry))

unfoldable pub read_records : Text → List Text → List AppliedOperation
unfolding read_record
read_records key [] = []
read_records key (entry ∷ entries) = read_record key entry ++ read_records key entries

abbrev pub log_command : Text → List Text
log_command key =
    text "log"
    ∷ text "HEAD"
    ∷ text "--format=%H%x1f%B%x1e"
    ∷ text "--fixed-strings"
    ∷ (text "--grep=Runethread-Operation-ID: " ++ key)
    ∷ []

abbrev pub merge_command : Text → List Text
merge_command commit =
    text "-c"
    ∷ text "core.autocrlf=false"
    ∷ text "merge"
    ∷ text "--ff-only"
    ∷ text "--no-edit"
    ∷ commit
    ∷ []

abbrev pub status_command : List Text
status_command = text "status" ∷ text "--porcelain=v1" ∷ text "--untracked-files=all" ∷ []

module _ {W : Type 0} (shell : Shell W) where
  open shell use {run}

  -- The branch, or "" on a detached head: Git answers with exit code 1.
  unfoldable pub read_branch : W → Option Text × W
  read_branch w =
      let (answer, w₁) =
        run (text "symbolic-ref" ∷ text "--quiet" ∷ text "--short" ∷ text "HEAD" ∷ []) w in
      elim answer [
        | printed branch ↦ (some branch, w₁)
        | exited code ↦ ((if nat_eq code 1 then some [] else none), w₁)
        | not_run ↦ (none, w₁)
      ]

  unfoldable pub read_status : Text → Text → W → Option RepoState × W
  unfolding is_nil
  read_status revision branch w =
      let (answer, w₁) = run status_command w in
      elim answer [
        | printed status ↦ (
          some (record {
            revision = trim_space revision;
            branch = trim_space branch;
            clean = is_nil (parse_porcelain status);
            dirty_entries = parse_porcelain status;
          }),
          w₁,
        )
        | exited code ↦ (none, w₁)
        | not_run ↦ (none, w₁)
      ]

  -- `State`
  unfoldable pub git_state : W → Option RepoState × W
  unfolding read_branch read_status
  git_state w =
      let (answer, w₁) = run (text "rev-parse" ∷ text "--verify" ∷ text "HEAD" ∷ []) w in
      elim answer [
        | printed revision ↦
            let (branch, w₂) = read_branch w₁ in
            elim branch [ none ↦ (none, w₂) | some name ↦ read_status revision name w₂ ]
        | exited code ↦ (none, w₁)
        | not_run ↦ (none, w₁)
      ]

  -- The checks of `Publish` before the merge.
  unfoldable pub refuse_publish : RepoState → Text → Text → Option PublishError
  refuse_publish st branch expected =
      if not st.clean
      then some dirty
      else if not (st.branch == branch)
      then some failed
      else if not (st.revision == expected)
      then some stale
      else none

  -- After a merge that failed.
  unfoldable pub explain_failure : Text → W → Result PublishError (Unit {0}) × W
  unfolding git_state
  explain_failure expected w =
      let (latest, w₁) = git_state w in
      elim latest [
        | none ↦ (err failed, w₁)
        | some st ↦ ((if st.revision == expected then err failed else err stale), w₁)
      ]

  -- After a merge that went through.
  unfoldable pub verify_published : Text → W → Result PublishError (Unit {0}) × W
  unfolding git_state
  verify_published commit w =
      let (latest, w₁) = git_state w in
      elim latest [
        | none ↦ (err failed, w₁)
        | some st ↦ (
          (if not (st.revision == commit)
              then err failed
              else if not st.clean
              then err dirty
              else ok tt),
          w₁,
        )
      ]

  unfoldable pub merge_and_verify : Text → Text → W → Result PublishError (Unit {0}) × W
  unfolding explain_failure verify_published
  merge_and_verify expected commit w =
      let (answer, w₁) = run (merge_command commit) w in
      elim answer [
        | printed out ↦ verify_published commit w₁
        | exited code ↦ explain_failure expected w₁
        | not_run ↦ explain_failure expected w₁
      ]

  unfoldable pub publish_checked : Text → Text → Text → W → Result PublishError (Unit {0}) × W
  unfolding git_state refuse_publish merge_and_verify
  publish_checked branch expected commit w =
      let (before, w₁) = git_state w in
      elim before [
        | none ↦ (err failed, w₁)
        | some st ↦ elim (refuse_publish st branch expected) [
          | some e ↦ (err e, w₁)
          | none ↦ merge_and_verify expected commit w₁
        ]
      ]

  -- `Publish`
  unfoldable pub git_publish : Text → Text → Text → W → Result PublishError (Unit {0}) × W
  unfolding publish_checked is_empty
  git_publish branch expected commit w =
      if is_empty (trim_space branch)
        || is_empty (trim_space expected)
        || is_empty (trim_space commit)
      then (err failed, w)
      else publish_checked (trim_space branch) (trim_space expected) (trim_space commit) w

  unfoldable pub read_log : Text → Answer → Option (Option AppliedOperation)
  unfolding read_records only_match
  read_log key (printed out) = only_match (read_records key (split_on 30 out))
  read_log key (exited code) = none
  read_log key not_run = none

  -- `FindAppliedOperation`: `none` is an error.
  unfoldable pub git_find : Text → W → Option (Option AppliedOperation) × W
  unfolding read_log
  git_find raw w =
      let key = trim_space raw in
      if not (is_operation_key key)
      then (none, w)
      else let (answer, w₁) = run (log_command key) w in (read_log key answer, w₁)
