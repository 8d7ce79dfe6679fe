-- ===== src/Validation.antt =====
-- internal/validation/validation.go: what an issue is, and the order in which issues are reported.
pub mod Cycles
pub mod Relations
pub mod Documents
pub mod Validate
pub mod Laws
pub mod Linked
pub mod Errors
pub mod Sound
use git_memo.Base.{
  ℕ, ◌+◌, Bool, true, false, not, ◌||◌, List, [], ◌∷◌, ◌++◌, nat_eq, sort, length, if◌then◌else◌,
}
use git_memo.Base.Text.{Text, text, ◌==◌, text_le, join}
use git_memo.Base.Decimal.{decimal}

pub record Issue : Type 0 where
  pub severity : Text
  pub code : Text
  pub path : Text
  pub message : Text

-- The closure `add` of `Validate` and of the checks.
unfoldable pub error : Text → Text → Text → Issue
error code path message = record {
  severity = text "ERROR";
  code = code;
  path = path;
  message = message;
}

-- The closure `warn`.
unfoldable pub warning : Text → Text → Text → Issue
warning code path message = record {
  severity = text "WARNING";
  code = code;
  path = path;
  message = message;
}

-- `HasErrors`
unfoldable pub has_errors : List Issue → Bool
has_errors [] = false
has_errors (i ∷ issues) = i.severity == text "ERROR" || has_errors issues

-- The comparison of `sortIssues`, which also holds of equal issues.
unfoldable pub issue_le : Issue → Issue → Bool
issue_le a b =
    if not (a.severity == b.severity)
    then text_le a.severity b.severity
    else if not (a.path == b.path)
    then text_le a.path b.path
    else if not (a.code == b.code)
    then text_le a.code b.code
    else text_le a.message b.message

-- `sortIssues`
unfoldable pub sort_issues : List Issue → List Issue
sort_issues = sort issue_le
