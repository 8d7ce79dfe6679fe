-- ===== src/Service/Request.antt =====
-- internal/memoryservice/mutation.go: a request before it is carried out.
use git_memo.Base.{Bool, not, ◌&&◌, ◌||◌, Option, none, some, List, [], ◌∷◌, is_some}
use git_memo.Base.Text.{Text, text, ◌==◌, is_empty, to_lower, trim_space, contains}
use git_memo.Base.Result.{Result, ◌>>◌, reject_if}
use git_memo.Memory.Pattern.{is_memory_id}
use git_memo.Memory.Fields.{TimeFormat}
use git_memo.Repository.Message.{is_operation_key}
use git_memo.Service.Store.{Code, invalid_argument, unsupported_operation, ProposedDocument}
use git_memo.Service.Operation.{ApplyMutationRequest}

normalize_proposed : Option ProposedDocument → Option ProposedDocument
normalize_proposed none = none
normalize_proposed (some p) =
    some (record p { memory = record p.memory { id = to_lower (trim_space p.memory.id) } })

-- `normalizeApplyRequest`
unfoldable pub normalize_apply_request : ApplyMutationRequest → ApplyMutationRequest
unfolding normalize_proposed
normalize_apply_request r = record {
  expected_revision = trim_space r.expected_revision;
  idempotency_key = trim_space r.idempotency_key;
  operation = to_lower (trim_space r.operation);
  mutation_time = trim_space r.mutation_time;
  target_id = to_lower (trim_space r.target_id);
  proposed = normalize_proposed r.proposed;
}

abbrev pub operations : List Text
operations =
    text "create"
    ∷ text "update"
    ∷ text "correct"
    ∷ text "supersede"
    ∷ text "resolve"
    ∷ text "withdraw"
    ∷ text "noop"
    ∷ []

unfoldable pub needs_target : Text → Bool
needs_target op =
    op == text "update"
    || op == text "correct"
    || op == text "supersede"
    || op == text "resolve"
    || op == text "withdraw"

unfoldable pub needs_proposal : Text → Bool
needs_proposal op =
    op == text "create"
    || op == text "update"
    || op == text "correct"
    || op == text "supersede"
    || op == text "resolve"

-- `validateApplyRequest`
unfoldable pub validate_apply_request : TimeFormat → ApplyMutationRequest → Result Code (Unit {0})
unfolding needs_target needs_proposal
validate_apply_request time r = do
  reject_if (is_empty r.expected_revision) invalid_argument
  reject_if (not (is_operation_key r.idempotency_key)) invalid_argument
  reject_if (not (contains operations r.operation)) unsupported_operation
  reject_if (not (r.operation == text "noop") && not (is_some (time.rfc3339 r.mutation_time)))
      invalid_argument
  reject_if (needs_target r.operation && not (is_memory_id r.target_id)) invalid_argument
  reject_if (not (needs_target r.operation) && not (is_empty r.target_id)) invalid_argument
  reject_if (needs_proposal r.operation && not (is_some r.proposed)) invalid_argument
  reject_if (not (needs_proposal r.operation) && is_some r.proposed) invalid_argument
