-- ===== src/Service/Apply/Retry.antt =====
-- internal/memoryservice/mutation.go with internal/repository/transaction.go: a request that is sent
-- again after it was applied, or whose key is used for another.
use git_memo.Base.{
  Bool, true, false, ◌≡◌, ◌≢◌, inl, inr, refl, sym, ap, ◌∙◌, none, some, sort, arith, Option-cases,
  if◌then◌else◌,
}
use git_memo.Base.Text.{Text, ◌==◌, text_le, eq_iff, eq_refl}
use git_memo.Base.Result.{ok, err}
use git_memo.Repository.Message.{AppliedOperation, parse_applied_operation}
use git_memo.Repository.Message.RoundTrip.{parse-format}
use git_memo.Service.Store.{Files, Platform, idempotency_conflict}
use git_memo.Service.Operation.{ApplyMutationRequest}
use git_memo.Service.Operation.Done.{apply_operation-IsDone}
use git_memo.Service.Request.{normalize_apply_request, validate_apply_request}
use git_memo.Service.Apply.{
  Writer, Tools, applied, already_applied, ApplyMutationResult, apply_mutation, applied_result,
  commit_metadata, mutation_commit_subject, result_from_applied, apply_request_fingerprint,
}
use git_memo.Service.Apply.Safety.{IsLawfulWriter, handed, apply_mutation-lem}
use git_memo.Service.Apply.Written.{commit_metadata-IsWritable}
use git_memo.Service.Apply.Head.{apply_mutation-known_key}

if-true : {A : Type 0} {b : Bool} {x : A} (y : A) → b ≡ true → (if b then x else y) ≡ x
if-true y e = rw e refl

if-false : {A : Type 0} {b : Bool} {y : A} (x : A) → b ≡ false → (if b then x else y) ≡ y
if-false x e = rw e refl

eq_no : (s t : Text) → s ≢ t → (s == t) ≡ false
eq_no s t n = ground (arith, eq_iff s t)

module _ {R : Type 0} (writer : Writer R) (platform : Platform) (tools : Tools)
    (head : R → Text) where
  open writer use {find_applied_operation, begin_transaction, commit, publish}

  -- What `FindAppliedOperation` promises: a commit that was published is found by the key in its
  -- message, if no commit had that key before.
  unfoldable pub FindsPublished : Type 0
  FindsPublished =
      (r : R) (request : ApplyMutationRequest) (files : Files) (message branch revision : Text)
      (a : AppliedOperation)
      → find_applied_operation r request.idempotency_key ≡ some none
      → (commit (begin_transaction r request.expected_revision).1 files message).0 ≡ some revision
      → (publish (handed writer platform tools head r request files message) branch
          request.expected_revision revision).0
        ≡ ok tt
      → parse_applied_operation revision message ≡ some a
      → a.idempotency_key ≡ request.idempotency_key
      → find_applied_operation
          (publish (handed writer platform tools head r request files message) branch
            request.expected_revision revision).1
          request.idempotency_key
        ≡ some (some a)

  -- What a request that was applied has left: an operation that is found by its key, from which its
  -- result can be made again.
  record IsKept (raw : ApplyMutationRequest) (result : ApplyMutationResult) (r' : R) : Type 0 where
    operation : AppliedOperation
    fingerprint : Text
    found :
        find_applied_operation r' (normalize_apply_request raw).idempotency_key
        ≡ some (some operation)
    validated : validate_apply_request platform.time (normalize_apply_request raw) ≡ ok tt
    fingerprinted : apply_request_fingerprint tools (normalize_apply_request raw) ≡ some fingerprint
    same_request : operation.request_sha256 ≡ fingerprint
    again :
        result_from_applied (normalize_apply_request raw).expected_revision operation
        ≡ record result {
          status = already_applied;
          changed_memory_ids = sort text_le result.changed_memory_ids;
        }

  apply_mutation-IsKept :
      IsLawfulWriter writer head
      → FindsPublished
      → (raw : ApplyMutationRequest) (r : R) (result : ApplyMutationResult)
      → (apply_mutation writer platform tools raw r).0 ≡ ok result
      → result.status ≡ applied
      → IsKept raw result (apply_mutation writer platform tools raw r).1
  unfolding FindsPublished applied_result commit_metadata result_from_applied
  apply_mutation-IsKept lawful finds raw r result h a =
      elim (apply_mutation-lem writer platform tools head lawful raw r) [
        | inl quiet ↦ absurd (quiet.not_applied result h a)
        | inr p ↦
            let request = normalize_apply_request raw in
            let t = p.attempt in
            let (same, _, published, ends) = t.moved result h in
            let metadata = commit_metadata request p.fingerprint t.plan in
            let done =
              apply_operation-IsDone platform platform.time t.base request t.plan t.prepared.changed
                p.validated t.prepared.operated in
            let writable =
              commit_metadata-IsWritable platform platform.time t.base request p.fingerprint t.plan
                t.prepared.changed p.validated done in
            let read =
              parse-format t.revision (mutation_commit_subject request.operation t.plan) metadata
                t.message writable t.prepared.formatted in
            let found =
              finds r request t.files t.message p.at.branch t.revision _ p.fresh t.committed
                published read refl in
            record {
              operation = _;
              fingerprint = p.fingerprint;
              found = ap (λ s. find_applied_operation s request.idempotency_key) ends ∙ found;
              validated = p.validated;
              fingerprinted = p.fingerprinted;
              same_request = refl;
              again =
                  let repeated : ApplyMutationResult → ApplyMutationResult = λ x. record x {
                    status = already_applied;
                    changed_memory_ids = sort text_le x.changed_memory_ids;
                  } in
                  ap repeated (sym same);
            }
      ]

  -- If `ApplyMutation` returned a result with status applied, then the same request sent again
  -- to the repository it left returns the same result with status already_applied and the
  -- changed memory IDs sorted, and does not change the repository, over a writer that finds a
  -- published commit by the key in its message.
  pub apply_mutation-retry :
      IsLawfulWriter writer head
      → FindsPublished
      → (raw : ApplyMutationRequest) (r : R) (result : ApplyMutationResult)
      → (apply_mutation writer platform tools raw r).0 ≡ ok result
      → result.status ≡ applied
      → apply_mutation writer platform tools raw (apply_mutation writer platform tools raw r).1 ≡ (
        ok (record result {
          status = already_applied;
          changed_memory_ids = sort text_le result.changed_memory_ids;
        }),
        (apply_mutation writer platform tools raw r).1,
      )
  apply_mutation-retry lawful finds raw r result h a =
      let r' = (apply_mutation writer platform tools raw r).1 in
      let kept = apply_mutation-IsKept lawful finds raw r result h a in
      apply_mutation-known_key writer platform tools head raw r' kept.operation kept.fingerprint
        kept.validated kept.fingerprinted kept.found
      ∙ ap (λ x. (x, r'))
          (if-true _ (ap (λ s. s == kept.fingerprint) kept.same_request ∙ eq_refl kept.fingerprint))
      ∙ ap (λ x. (ok x, r')) kept.again

  -- If `ApplyMutation` returned a result with status applied, then another valid request under
  -- the same key whose fingerprint is not that of the first is answered with
  -- idempotency_conflict by the repository that the first has left, and does not change it,
  -- over a writer that finds a published commit by the key in its message.
  pub apply_mutation-conflict :
      IsLawfulWriter writer head
      → FindsPublished
      → (raw other : ApplyMutationRequest) (r : R) (result : ApplyMutationResult)
      → (apply_mutation writer platform tools raw r).0 ≡ ok result
      → result.status ≡ applied
      → validate_apply_request platform.time (normalize_apply_request other) ≡ ok tt
      → (normalize_apply_request other).idempotency_key
        ≡ (normalize_apply_request raw).idempotency_key
      → apply_request_fingerprint tools (normalize_apply_request other) ≢ none
      → apply_request_fingerprint tools (normalize_apply_request other)
        ≢ apply_request_fingerprint tools (normalize_apply_request raw)
      → apply_mutation writer platform tools other (apply_mutation writer platform tools raw r).1
        ≡ (err idempotency_conflict, (apply_mutation writer platform tools raw r).1)
  apply_mutation-conflict lawful finds raw other r result h a v k digested apart =
      let r' = (apply_mutation writer platform tools raw r).1 in
      let kept = apply_mutation-IsKept lawful finds raw r result h a in
      elim (Option-cases (apply_request_fingerprint tools (normalize_apply_request other))) [
        | inl e ↦ absurd (digested e)
        | inr (fingerprint, e) ↦
            apply_mutation-known_key writer platform tools head other r' kept.operation fingerprint
              v e (ap (find_applied_operation r') k ∙ kept.found)
            ∙ ap (λ x. (x, r'))
                (if-false _ (
                  eq_no kept.operation.request_sha256 fingerprint (λ same.
                    apart (e ∙ ap some (sym same ∙ kept.same_request) ∙ sym kept.fingerprinted))))
      ]
