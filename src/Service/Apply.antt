-- ===== src/Service/Apply.antt =====
-- internal/memoryservice/mutation.go: `ApplyMutation` over the interface `repository.Writer`
-- (internal/repository/transaction.go) and the validator.
pub mod Prepared
pub mod Safety
pub mod Head
pub mod Written
pub mod Retry
use git_memo.Base.{
  ℕ, Bool, true, false, not, ◌&&◌, ◌||◌, ◌≡◌, Option, none, some, List, [], ◌∷◌, ◌++◌,
  if◌then◌else◌,
}
use git_memo.Base.Text.{Text, text, ◌==◌, is_empty}
use git_memo.Base.Result.{Result, ok, err}
use git_memo.Repository.Message.{AppliedOperation, format_mutation_commit_message}
use git_memo.Repository.Git.{RepoState, PublishError, stale, dirty, failed}
use git_memo.Service.Store.{
  Code, invalid_argument, repository_error, repository_dirty, repository_invalid, stale_revision,
  idempotency_conflict, validation_failed, transaction_failed, Files, ProposedDocument, Platform,
}
use git_memo.Service.Operation.{ApplyMutationRequest, MutationPlan, apply_operation}
use git_memo.Service.Request.{normalize_apply_request, validate_apply_request}

-- `repository.Writer` and `repository.Transaction`, on a repository whose state is `R`, with the
-- worktree of the service and of a transaction as their files. `none` is an error.
pub record Writer (R : Type 0) : Type 0 where
  pub find_applied_operation : R → Text → Option (Option AppliedOperation)
  pub state : R → Option RepoState
  pub root_files : R → Files
  pub begin_transaction : R → Text → Option Files × R
  pub commit : R → Files → Text → Option Text × R
  pub close : R → Bool × R
  pub publish : R → Text → Text → Text → Result PublishError (Unit {0}) × R

pub record FingerprintPayload : Type 0 where
  pub expected_revision : Text
  pub operation : Text
  pub mutation_time : Text
  pub target_id : Text
  pub proposed : Option ProposedDocument

-- What the service calls besides: the digest of a request's JSON, the indexer and the validator.
pub record Tools : Type 0 where
  pub digest : FingerprintPayload → Option Text
  pub write_index : Files → Option Files
  pub has_errors : Files → Bool

pub data Status : Type 0 where
  applied already_applied no_op : Status

pub record ApplyMutationResult : Type 0 where
  pub status : Status
  pub operation : Text
  pub idempotency_key : Text
  pub previous_revision : Text
  pub revision : Text
  pub commit : Text
  pub primary_memory_id : Text
  pub target_memory_id : Text
  pub changed_memory_ids : List Text

-- `applyRequestFingerprint`: the key is no part of it.
unfoldable pub apply_request_fingerprint : Tools → ApplyMutationRequest → Option Text
apply_request_fingerprint tools r = tools.digest (record {
  expected_revision = r.expected_revision;
  operation = r.operation;
  mutation_time = r.mutation_time;
  target_id = r.target_id;
  proposed = r.proposed;
})

-- `resultFromApplied`
unfoldable pub result_from_applied : Text → AppliedOperation → ApplyMutationResult
result_from_applied previous a = record {
  status = already_applied;
  operation = a.operation;
  idempotency_key = a.idempotency_key;
  previous_revision = previous;
  revision = a.commit;
  commit = a.commit;
  primary_memory_id = a.primary_memory_id;
  target_memory_id = a.target_memory_id;
  changed_memory_ids = a.changed_memory_ids;
}

-- `mutationCommitSubject`
unfoldable pub mutation_commit_subject : Text → MutationPlan → Text
mutation_commit_subject operation plan =
    let id =
      if is_empty plan.primary_memory_id then plan.target_memory_id else plan.primary_memory_id in
    if is_empty id
    then text "memory: " ++ operation
    else text "memory: " ++ operation ++ text " " ++ id

-- The record that goes into the commit message.
unfoldable pub commit_metadata : ApplyMutationRequest → Text → MutationPlan → AppliedOperation
commit_metadata r fingerprint plan = record {
  commit = [];
  idempotency_key = r.idempotency_key;
  request_sha256 = fingerprint;
  operation = r.operation;
  primary_memory_id = plan.primary_memory_id;
  target_memory_id = plan.target_memory_id;
  changed_memory_ids = plan.changed_memory_ids;
}

unfoldable pub applied_result : ApplyMutationRequest → Text → MutationPlan → ApplyMutationResult
applied_result r commit plan = record {
  status = applied;
  operation = r.operation;
  idempotency_key = r.idempotency_key;
  previous_revision = r.expected_revision;
  revision = commit;
  commit = commit;
  primary_memory_id = plan.primary_memory_id;
  target_memory_id = plan.target_memory_id;
  changed_memory_ids = plan.changed_memory_ids;
}

unfoldable pub no_op_result : ApplyMutationRequest → Text → ApplyMutationResult
no_op_result r revision = record {
  status = no_op;
  operation = r.operation;
  idempotency_key = r.idempotency_key;
  previous_revision = revision;
  revision = revision;
  commit = [];
  primary_memory_id = [];
  target_memory_id = r.target_id;
  changed_memory_ids = [];
}

unfoldable pub publish_code : PublishError → Code
publish_code stale = stale_revision
publish_code dirty = repository_dirty
publish_code failed = transaction_failed

module _ {R : Type 0} (writer : Writer R) (platform : Platform) (tools : Tools) where
  open writer use {
    find_applied_operation, state, root_files, begin_transaction, commit, close, publish,
  }

  abbrev pub Outcome : Type 0
  Outcome = Result Code ApplyMutationResult × R

  -- What the transaction does in its worktree: the operation, the indexes, the validation and the
  -- commit message.
  unfoldable pub prepare_commit :
      Files → ApplyMutationRequest → Text → Result Code (MutationPlan × Files × Text)
  prepare_commit base request fingerprint = elim (apply_operation platform base request) [
    | err e ↦ err e
    | ok (plan, files) ↦ elim (tools.write_index files) [
      | none ↦ err transaction_failed
      | some indexed ↦
          if tools.has_errors indexed
          then err validation_failed
          else elim (format_mutation_commit_message (mutation_commit_subject request.operation plan)
              (commit_metadata request fingerprint plan)) [
                | err e ↦ err transaction_failed
                | ok message ↦ ok (plan, indexed, message)
              ]
    ]
  ]

  -- From the commit that stands in the object store to its publication.
  unfoldable pub publish_commit :
      RepoState → ApplyMutationRequest → MutationPlan → Text → Bool × R → Outcome
  unfolding publish_code applied_result
  publish_commit st request plan revision (false, r) = (err transaction_failed, r)
  publish_commit st request plan revision (true, r) =
      let (published, r') = publish r st.branch request.expected_revision revision in
      elim published [
        | err e ↦ (err (publish_code e), r')
        | ok _ ↦ (ok (applied_result request revision plan), r')
      ]

  -- `BeginTransaction` to the end, with the deferred `Close` of every early return.
  unfoldable pub run_transaction : RepoState → ApplyMutationRequest → Text → R → Outcome
  unfolding prepare_commit publish_commit
  run_transaction st request fingerprint r =
      let (begun, r₁) = begin_transaction r request.expected_revision in
      elim begun [
        | none ↦ (err transaction_failed, r₁)
        | some base ↦ elim (prepare_commit base request fingerprint) [
          | err e ↦ (err e, (close r₁).1)
          | ok (plan, files, message) ↦
              let (committed, r₂) = commit r₁ files message in
              elim committed [
                | none ↦ (err transaction_failed, (close r₂).1)
                | some revision ↦ publish_commit st request plan revision (close r₂)
              ]
        ]
      ]

  -- The checks of the repository before a transaction.
  unfoldable pub check_repository : RepoState → ApplyMutationRequest → Files → Option Code
  check_repository st request files =
      if not st.clean
      then some repository_dirty
      else if is_empty st.branch
      then some repository_error
      else if not (st.revision == request.expected_revision)
      then some stale_revision
      else if tools.has_errors files
      then some repository_invalid
      else none

  -- A request whose key is in no commit.
  unfoldable pub run_new_request : ApplyMutationRequest → Text → R → Outcome
  unfolding check_repository run_transaction no_op_result
  run_new_request request fingerprint r = elim (state r) [
    | none ↦ (err repository_error, r)
    | some st ↦ elim (check_repository st request (root_files r)) [
      | some code ↦ (err code, r)
      | none ↦
          if request.operation == text "noop"
          then (ok (no_op_result request st.revision), r)
          else run_transaction st request fingerprint r
    ]
  ]

  -- The search for the key among the commits, which comes before every check of the state.
  unfoldable pub run_request : ApplyMutationRequest → Text → R → Outcome
  unfolding run_new_request result_from_applied
  run_request request fingerprint r = elim (find_applied_operation r request.idempotency_key) [
    | none ↦ (err repository_error, r)
    | some (some a) ↦
        if a.request_sha256 == fingerprint
        then (ok (result_from_applied request.expected_revision a), r)
        else (err idempotency_conflict, r)
    | some none ↦ run_new_request request fingerprint r
  ]

  -- `ApplyMutation`
  unfoldable pub apply_mutation : ApplyMutationRequest → R → Outcome
  unfolding run_request apply_request_fingerprint
  apply_mutation raw r =
      let request = normalize_apply_request raw in
      elim (validate_apply_request platform.time request) [
        | err e ↦ (err e, r)
        | ok _ ↦ elim (apply_request_fingerprint tools request) [
          | none ↦ (err invalid_argument, r)
          | some fingerprint ↦ run_request request fingerprint r
        ]
      ]

  -- `Withdraw`
  unfoldable pub withdraw : Text → Text → Text → Text → R → Outcome
  unfolding apply_mutation
  withdraw expected_revision idempotency_key target_id mutation_time = apply_mutation (record {
    expected_revision = expected_revision;
    idempotency_key = idempotency_key;
    operation = text "withdraw";
    mutation_time = mutation_time;
    target_id = target_id;
    proposed = none;
  })
