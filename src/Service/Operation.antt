-- ===== src/Service/Operation.antt =====
-- internal/memoryservice/mutation.go: `applyOperation` and the six operations that write.
pub mod Frame
pub mod Done
use git_memo.Base.{
  ℕ, Bool, true, false, not, ◌&&◌, ◌||◌, Option, none, some, List, [], ◌∷◌, if◌then◌else◌, sort,
  is_some,
}
use git_memo.Base.Text.{Text, text, ◌==◌, text_le}
use git_memo.Base.Result.{Result, ok, err, ◌>>=◌, ◌>>◌, reject_if}
use git_memo.Memory.{Memory, Relationship}
use git_memo.Memory.Pattern.{is_memory_id}
use git_memo.Service.Store.{
  Code, invalid_argument, not_found, unsupported_operation, nil_dereference, Files, Document,
  ProposedDocument, Platform, canonical_document_at, write_proposed_document, transition_lifecycle,
}

pub record ApplyMutationRequest : Type 0 where
  pub expected_revision : Text
  pub idempotency_key : Text
  pub operation : Text
  pub mutation_time : Text
  pub target_id : Text
  pub proposed : Option ProposedDocument

pub record MutationPlan : Type 0 where
  pub primary_memory_id : Text
  pub target_memory_id : Text
  pub changed_memory_ids : List Text

-- `hasRelationship`
has_edge : List Relationship → Text → Text → Bool
has_edge [] relation target = false
has_edge (r ∷ relationships) relation target =
    r.relation == relation && r.target_id == target || has_edge relationships relation target

unfoldable pub has_relationship : Memory → Text → Text → Bool
unfolding has_edge
has_relationship m relation target = has_edge m.relationships relation target

-- `sameOptionalString`
unfoldable pub same_optional : Option Text → Option Text → Bool
same_optional none b = not (is_some b)
same_optional (some a) none = false
same_optional (some a) (some b) = a == b

-- `isUnresolvedOpenLoop`
unfoldable pub is_unresolved : Option Text → Bool
is_unresolved none = false
is_unresolved (some status) =
    status == text "open" || status == text "blocked" || status == text "deferred"

-- `isTerminalOpenLoop`
unfoldable pub is_terminal : Option Text → Bool
is_terminal none = false
is_terminal (some status) = status == text "resolved" || status == text "cancelled"

-- `*request.Proposed` and `cloneProposed`, which makes each nil slice an empty one: a list here
-- stands for both.
unfoldable pub proposal_of : ApplyMutationRequest → Result Code ProposedDocument
proposal_of request = elim request.proposed [ none ↦ err nil_dereference | some p ↦ ok p ]

-- The proposal with the fields that the service decides.
unfoldable pub stamp : ProposedDocument → Text → Text → Text → ProposedDocument
stamp p lifecycle created_at updated_at = record p {
  memory = record p.memory {
    lifecycle = lifecycle;
    temporal = record p.memory.temporal { created_at = created_at; updated_at = updated_at };
  };
}

module _ (platform : Platform) where
  -- The target of a request, which must be active.
  unfoldable pub active_target : Files → Text → Result Code Document
  active_target files id = elim (canonical_document_at platform files id) [
    | err e ↦ err e
    | ok none ↦ err not_found
    | ok (some target) ↦
        if target.memory.lifecycle == text "active" then ok target else err invalid_argument
  ]

  unfoldable pub reject_existing : Files → Text → Result Code (Unit {0})
  reject_existing files id = elim (canonical_document_at platform files id) [
    | err e ↦ err e
    | ok none ↦ ok tt
    | ok (some doc) ↦ err invalid_argument
  ]

  -- `applyCreate`
  unfoldable pub apply_create : Files → ApplyMutationRequest → Result Code (MutationPlan × Files)
  unfolding proposal_of reject_existing stamp
  apply_create files request = do
    proposal ← proposal_of request
    reject_if (not (is_memory_id proposal.memory.id)) invalid_argument
    reject_existing files proposal.memory.id
    (doc, files') ←
        write_proposed_document platform files none
          (stamp proposal (text "active") request.mutation_time request.mutation_time)
    ok (
      record {
        primary_memory_id = doc.memory.id;
        target_memory_id = [];
        changed_memory_ids = doc.memory.id ∷ [];
      },
      files',
    )

  -- What `applyUpdate` asks of the open-loop status.
  unfoldable pub check_status : Bool → Memory → Memory → Result Code (Unit {0})
  check_status true target proposal = do
    reject_if (not (target.kind == text "open_loop") || not (proposal.kind == text "open_loop"))
        invalid_argument
    reject_if (not (is_unresolved target.open_loop_status)) invalid_argument
    reject_if (not (is_terminal proposal.open_loop_status)) invalid_argument
  check_status false target proposal =
      reject_if (not (same_optional target.open_loop_status proposal.open_loop_status))
        invalid_argument

  -- `applyUpdate`
  unfoldable pub apply_update :
      Files → ApplyMutationRequest → Bool → Result Code (MutationPlan × Files)
  unfolding proposal_of active_target stamp check_status
  apply_update files request resolving = do
    target ← active_target files request.target_id
    proposal ← proposal_of request
    reject_if (not (proposal.memory.id == target.memory.id)) invalid_argument
    let stamped =
        stamp proposal target.memory.lifecycle target.memory.temporal.created_at
          request.mutation_time
    check_status resolving target.memory stamped.memory
    (doc, files') ← write_proposed_document platform files (some target) stamped
    ok (
      record {
        primary_memory_id = doc.memory.id;
        target_memory_id = target.memory.id;
        changed_memory_ids = doc.memory.id ∷ [];
      },
      files',
    )

  -- A new document that points at the target, as a correction and a supersession write it.
  unfoldable pub write_successor :
      Files
      → ApplyMutationRequest
      → Document
      → ProposedDocument
      → Text
      → Result Code (Document × Files)
  unfolding reject_existing stamp has_relationship
  write_successor files request target proposal relation = do
    reject_if (proposal.memory.id == target.memory.id || not (is_memory_id proposal.memory.id))
        invalid_argument
    reject_if (not (has_relationship proposal.memory relation target.memory.id)) invalid_argument
    reject_existing files proposal.memory.id
    write_proposed_document platform files none
        (stamp proposal (text "active") request.mutation_time request.mutation_time)

  -- A correction that also supersedes its target marks it so.
  unfoldable pub supersede_if : Bool → Files → Document → Text → Result Code Files
  supersede_if true files target time =
      transition_lifecycle platform files target (text "superseded") time
  supersede_if false files target time = ok files

  -- `applyCorrection`
  unfoldable pub apply_correction :
      Files → ApplyMutationRequest → Result Code (MutationPlan × Files)
  unfolding proposal_of active_target write_successor supersede_if
  apply_correction files request = do
    target ← active_target files request.target_id
    proposal ← proposal_of request
    reject_if (not (proposal.memory.kind == text "correction")) invalid_argument
    (doc, files₁) ← write_successor files request target proposal (text "corrects")
    let superseding = has_relationship proposal.memory (text "supersedes") target.memory.id
    files₂ ← supersede_if superseding files₁ target request.mutation_time
    ok (
      record {
        primary_memory_id = doc.memory.id;
        target_memory_id = target.memory.id;
        changed_memory_ids =
            sort text_le (doc.memory.id ∷ (if superseding then target.memory.id ∷ [] else []));
      },
      files₂,
    )

  -- `applySupersession`
  unfoldable pub apply_supersession :
      Files → ApplyMutationRequest → Result Code (MutationPlan × Files)
  unfolding proposal_of active_target write_successor
  apply_supersession files request = do
    target ← active_target files request.target_id
    proposal ← proposal_of request
    (doc, files₁) ← write_successor files request target proposal (text "supersedes")
    files₂ ← transition_lifecycle platform files₁ target (text "superseded") request.mutation_time
    ok (
      record {
        primary_memory_id = doc.memory.id;
        target_memory_id = target.memory.id;
        changed_memory_ids = sort text_le (doc.memory.id ∷ target.memory.id ∷ []);
      },
      files₂,
    )

  -- `applyWithdrawal`
  unfoldable pub apply_withdrawal :
      Files → ApplyMutationRequest → Result Code (MutationPlan × Files)
  unfolding active_target
  apply_withdrawal files request = do
    target ← active_target files request.target_id
    files' ← transition_lifecycle platform files target (text "withdrawn") request.mutation_time
    ok (
      record {
        primary_memory_id = target.memory.id;
        target_memory_id = target.memory.id;
        changed_memory_ids = target.memory.id ∷ [];
      },
      files',
    )

  -- `applyOperation`
  unfoldable pub apply_operation : Files → ApplyMutationRequest → Result Code (MutationPlan × Files)
  unfolding apply_create apply_update apply_correction apply_supersession apply_withdrawal
  apply_operation files request =
      if request.operation == text "create"
      then apply_create files request
      else if request.operation == text "update"
      then apply_update files request false
      else if request.operation == text "resolve"
      then apply_update files request true
      else if request.operation == text "correct"
      then apply_correction files request
      else if request.operation == text "supersede"
      then apply_supersession files request
      else if request.operation == text "withdraw"
      then apply_withdrawal files request
      else err unsupported_operation
