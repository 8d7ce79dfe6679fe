-- ===== src/Service/Apply/Head.antt =====
-- internal/memoryservice/mutation.go: what `ApplyMutation` does to the branch.
use git_memo.Base.{
  ◌≡◌, ◌≢◌, ◌⊎◌, inl, inr, sym, ap, ◌∙◌, none, some, arith, Bool-cases, Option-cases, if◌then◌else◌,
}
use git_memo.Base.Text.{Text, text, ◌==◌}
use git_memo.Base.Result.{ok, err, Result-cases}
use git_memo.Service.Store.{Platform, idempotency_conflict}
use git_memo.Service.Operation.{ApplyMutationRequest}
use git_memo.Service.Request.{normalize_apply_request, validate_apply_request}
use git_memo.Repository.Message.{AppliedOperation}
use git_memo.Repository.Git.{RepoState}
use git_memo.Service.Apply.{
  Writer, Tools, applied, ApplyMutationResult, apply_mutation, run_request, run_new_request,
  run_transaction, publish_commit, check_repository, applied_result, result_from_applied,
  apply_request_fingerprint,
}
use git_memo.Service.Apply.Safety.{IsLawfulWriter, IsPublished, apply_mutation-lem}

module _ {R : Type 0} (writer : Writer R) (platform : Platform) (tools : Tools)
    (head : R → Text) where
  open writer use {find_applied_operation, state, root_files}

  module _ (lawful : IsLawfulWriter writer head) where
    -- Over a writer whose transactions leave the branch alone, `ApplyMutation` either leaves
    -- the head where it was, or the request was valid, its key was in no commit, the repository
    -- was clean, valid and at the expected revision, and a commit was handed to `Publish` whose
    -- files are those of the operation on the base with fresh indexes, without a validation
    -- error, and whose message records the operation.
    pub apply_mutation-head :
        (raw : ApplyMutationRequest) (r : R)
        → (head (apply_mutation writer platform tools raw r).1 ≡ head r)
          ⊎ IsPublished writer platform tools head
              (normalize_apply_request raw)
              r
              (apply_mutation writer platform tools raw r)
    apply_mutation-head raw r = elim (apply_mutation-lem writer platform tools head lawful raw r) [
      | inl quiet ↦ inl quiet.still
      | inr published ↦ inr published
    ]

    -- A result with status applied names as its previous revision the head before the call, and
    -- as its revision the head after it, over a writer that reports its head truly.
    pub apply_mutation-applied :
        (raw : ApplyMutationRequest) (r : R) (result : ApplyMutationResult)
        → (apply_mutation writer platform tools raw r).0 ≡ ok result
        → result.status ≡ applied
        → (result.previous_revision ≡ head r)
          × (result.revision ≡ head (apply_mutation writer platform tools raw r).1)
    unfolding applied_result normalize_apply_request
    apply_mutation-applied raw r result h a =
        elim (apply_mutation-lem writer platform tools head lawful raw r) [
          | inl quiet ↦ absurd (quiet.not_applied result h a)
          | inr published ↦
              let moved = published.attempt.moved result h in
              (
                ap (λ x. x.previous_revision) moved.0
                    ∙ sym published.current
                    ∙ lawful.state-head r published.at published.found,
                ap (λ x. x.revision) moved.0 ∙ sym moved.1,
              )
        ]

  run_transaction-applied :
      (st : RepoState) (request : ApplyMutationRequest) (fingerprint : Text) (r : R)
      (result : ApplyMutationResult)
      → (run_transaction writer platform tools st request fingerprint r).0 ≡ ok result
      → result.status ≡ applied
  unfolding run_transaction publish_commit applied_result
  run_transaction-applied st request fingerprint r result h = ground arith

  run_new_request-unapplied :
      (request : ApplyMutationRequest) (fingerprint : Text) (r : R) (result : ApplyMutationResult)
      → (run_new_request writer platform tools request fingerprint r).0 ≡ ok result
      → result.status ≢ applied
      → (run_new_request writer platform tools request fingerprint r).1 ≡ r
  unfolding run_new_request
  run_new_request-unapplied request fingerprint r result h n = elim (Option-cases (state r)) [
    | inl e₁ ↦ ground arith
    | inr (st, e₁) ↦
        elim (Option-cases (check_repository writer platform tools st request (root_files r))) [
          | inr (code, e₂) ↦ ground arith
          | inl e₂ ↦ elim (Bool-cases (request.operation == text "noop")) [
            | inl e₃ ↦ ground arith
            | inr e₃ ↦
                absurd (n (run_transaction-applied st request fingerprint r result (ground arith)))
          ]
        ]
  ]

  -- A result with any other status than applied comes with the repository unchanged.
  pub apply_mutation-unapplied :
      (raw : ApplyMutationRequest) (r : R) (result : ApplyMutationResult)
      → (apply_mutation writer platform tools raw r).0 ≡ ok result
      → result.status ≢ applied
      → (apply_mutation writer platform tools raw r).1 ≡ r
  unfolding apply_mutation run_request
  apply_mutation-unapplied raw r result h n =
      let request = normalize_apply_request raw in
      elim (Result-cases (validate_apply_request platform.time request)) [
        | inr (code, e₁) ↦ ground arith
        | inl (tt, e₁) ↦ elim (Option-cases (apply_request_fingerprint tools request)) [
          | inl e₂ ↦ ground arith
          | inr (fingerprint, e₂) ↦
              elim (Option-cases (find_applied_operation r request.idempotency_key)) [
                | inl e₃ ↦ ground arith
                | inr (some a, e₃) ↦ ground arith
                | inr (none, e₃) ↦
                    ground (arith, run_new_request-unapplied request fingerprint r result)
              ]
        ]
      ]

  -- The answer to a valid request whose key is in a commit.
  pub apply_mutation-known_key :
      (raw : ApplyMutationRequest) (r : R) (a : AppliedOperation) (fingerprint : Text)
      → validate_apply_request platform.time (normalize_apply_request raw) ≡ ok tt
      → apply_request_fingerprint tools (normalize_apply_request raw) ≡ some fingerprint
      → find_applied_operation r (normalize_apply_request raw).idempotency_key ≡ some (some a)
      → apply_mutation writer platform tools raw r ≡ (
        if a.request_sha256 == fingerprint
            then ok (result_from_applied (normalize_apply_request raw).expected_revision a)
            else err idempotency_conflict,
        r,
      )
  unfolding apply_mutation run_request
  apply_mutation-known_key raw r a fingerprint v f k =
      elim (Bool-cases (a.request_sha256 == fingerprint)) [
        | inl e ↦ ground arith
        | inr e ↦ ground arith
      ]
