-- ===== src/Service/Operation/Done.antt =====
-- internal/memoryservice/mutation.go: the operations of `applyOperation`, one by one.
use git_memo.Base.{
  Bool, true, false, not, ◌&&◌, ◌||◌, is_some, ◌≡◌, inl, inr, refl, ap, subst, none, some, [], ◌∷◌,
  arith, sort-All, Bool-cases,
}
use git_memo.Base.Text.{Text, text, text_le, ◌==◌, eq_iff, contains, is_empty}
use git_memo.Base.Result.{ok, bind-ok, reject_if-ok}
use git_memo.Memory.Pattern.{is_memory_id}
use git_memo.Service.Store.{
  Files, Document, ProposedDocument, Platform, canonical_document_at, old_paths,
  write_proposed_document, transition_lifecycle,
}
use git_memo.Service.Store.Write.{write_proposed_document-IsWritten}
use git_memo.Service.Operation.{
  ApplyMutationRequest, MutationPlan, active_target, reject_existing, proposal_of, stamp,
  apply_create, apply_update, check_status, write_successor, supersede_if, apply_correction,
  apply_supersession, apply_withdrawal, apply_operation, has_relationship,
}
use git_memo.Service.Operation.Frame.{
  IsFileOf, Keeps, IsId, IsDone, active_target-ok, transition-Keeps, create-Keeps, Keeps-refl,
  optional-IsId, IsDone-ok,
}
use git_memo.Memory.Fields.{TimeFormat}
use git_memo.Repository.Message.{is_operation_key}
use git_memo.Service.Request.{validate_apply_request, needs_target, operations}

module _ (platform : Platform) where
  apply_create-IsDone :
      (files : Files) (request : ApplyMutationRequest) (plan : MutationPlan) (files' : Files)
      → apply_create platform files request ≡ ok (plan, files')
      → IsDone platform files request plan files'
  unfolding apply_create stamp
  apply_create-IsDone files request plan files' h =
      let (proposal, _, h₁) = bind-ok (proposal_of request) h in
      let (id, h₂) = reject_if-ok (not (is_memory_id proposal.memory.id)) _ h₁ in
      let (_, _, h₃) = bind-ok (reject_existing platform files proposal.memory.id) h₂ in
      let stamped = stamp proposal (text "active") request.mutation_time request.mutation_time in
      let ((doc, out), w, h₄) = bind-ok (write_proposed_document platform files none stamped) h₃ in
      let (same, keeps) = create-Keeps platform files stamped doc out request.target_id w in
      let is_id : IsId platform doc.memory.id = ground arith in
      IsDone-ok platform files request h₄
        (record { primary = is_id; target = inl refl; changed = (is_id, tt); keeps = keeps })

  -- A document that is written over the target keeps every other file.
  replace-Keeps :
      (files : Files) (target : Document) (proposal : ProposedDocument) (doc : Document)
      (files' : Files) (id : Text)
      → canonical_document_at platform files id ≡ ok (some target)
      → write_proposed_document platform files (some target) proposal ≡ ok (doc, files')
      → (doc.memory.id ≡ proposal.memory.id) × Keeps platform files id files'
  unfolding Keeps IsFileOf
  replace-Keeps files target proposal doc files' id found h =
      let (p, _, w) =
        write_proposed_document-IsWritten platform files (some target) proposal doc files' h in
      (
        ap (λ m. m.id) w.same_memory,
        λ j b e. elim (Bool-cases (contains (old_paths platform (some target)) j)) [
          | inl e₁ ↦ inr (target, found, e₁)
          | inr e₁ ↦ inl (w.kept j b e e₁)
        ],
      )

  apply_update-IsDone :
      (files : Files) (request : ApplyMutationRequest) (resolving : Bool) (plan : MutationPlan)
      (files' : Files)
      → IsId platform request.target_id
      → apply_update platform files request resolving ≡ ok (plan, files')
      → IsDone platform files request plan files'
  unfolding apply_update stamp
  apply_update-IsDone files request resolving plan files' is_id h =
      let (target, a, h₁) = bind-ok (active_target platform files request.target_id) h in
      let (found, named, _) = active_target-ok platform files request.target_id target a in
      let (proposal, _, h₂) = bind-ok (proposal_of request) h₁ in
      let (same, h₃) = reject_if-ok (not (proposal.memory.id == target.memory.id)) _ h₂ in
      let stamped =
        stamp proposal target.memory.lifecycle target.memory.temporal.created_at
          request.mutation_time in
      let (_, _, h₄) = bind-ok (check_status platform resolving target.memory stamped.memory) h₃ in
      let ((doc, out), w, h₅) =
        bind-ok (write_proposed_document platform files (some target) stamped) h₄ in
      let (same_id, keeps) = replace-Keeps files target stamped doc out request.target_id found w in
      let primary : IsId platform doc.memory.id =
        ground (arith, eq_iff proposal.memory.id target.memory.id) in
      let is_target : IsId platform target.memory.id = ground arith in
      IsDone-ok platform files request h₅ (record {
        primary = primary;
        target = inr (named, is_target);
        changed = (primary, tt);
        keeps = keeps;
      })

  write_successor-Keeps :
      (files : Files) (request : ApplyMutationRequest) (target : Document)
      (proposal : ProposedDocument) (relation : Text) (doc : Document) (files' : Files) (id : Text)
      → write_successor platform files request target proposal relation ≡ ok (doc, files')
      → IsId platform doc.memory.id × Keeps platform files id files'
  unfolding write_successor stamp
  write_successor-Keeps files request target proposal relation doc files' id h =
      let (is_new, h₁) =
        reject_if-ok
          (proposal.memory.id == target.memory.id || not (is_memory_id proposal.memory.id)) _ h in
      let (_, h₂) =
        reject_if-ok (not (has_relationship proposal.memory relation target.memory.id)) _ h₁ in
      let (_, _, h₃) = bind-ok (reject_existing platform files proposal.memory.id) h₂ in
      let stamped = stamp proposal (text "active") request.mutation_time request.mutation_time in
      let (same, keeps) = create-Keeps platform files stamped doc files' id h₃ in
      (ground arith, keeps)

  apply_supersession-IsDone :
      (files : Files) (request : ApplyMutationRequest) (plan : MutationPlan) (files' : Files)
      → IsId platform request.target_id
      → apply_supersession platform files request ≡ ok (plan, files')
      → IsDone platform files request plan files'
  unfolding apply_supersession
  apply_supersession-IsDone files request plan files' is_id h =
      let (target, a, h₁) = bind-ok (active_target platform files request.target_id) h in
      let (found, named, _) = active_target-ok platform files request.target_id target a in
      let (proposal, _, h₂) = bind-ok (proposal_of request) h₁ in
      let ((doc, files₁), w, h₃) =
        bind-ok (write_successor platform files request target proposal (text "supersedes")) h₂ in
      let (primary, keeps) =
        write_successor-Keeps files request target proposal _ doc files₁ request.target_id w in
      let (out, t, h₄) =
        bind-ok
          (transition_lifecycle platform files₁ target (text "superseded") request.mutation_time)
          h₃ in
      let is_target : IsId platform target.memory.id = ground arith in
      IsDone-ok platform files request h₄ (record {
        primary = primary;
        target = inr (named, is_target);
        changed =
            sort-All (IsId platform) text_le (doc.memory.id ∷ target.memory.id ∷ [])
              (primary, (is_target, tt));
        keeps =
            transition-Keeps platform files target _ _ out request.target_id found files₁ t keeps;
      })

  supersede_if-Keeps :
      (superseding : Bool) (files : Files) (target : Document) (time : Text) (files' : Files)
      (id : Text)
      → canonical_document_at platform files id ≡ ok (some target)
      → (files₁ : Files) → supersede_if platform superseding files₁ target time ≡ ok files'
      → Keeps platform files id files₁
      → Keeps platform files id files'
  unfolding supersede_if
  supersede_if-Keeps true files target time files' id found files₁ h k =
      transition-Keeps platform files target _ time files' id found files₁ h k
  supersede_if-Keeps false files target time files' id found files₁ h k =
      subst (Keeps platform files id) {x = files₁} (ground arith) k

  apply_correction-IsDone :
      (files : Files) (request : ApplyMutationRequest) (plan : MutationPlan) (files' : Files)
      → IsId platform request.target_id
      → apply_correction platform files request ≡ ok (plan, files')
      → IsDone platform files request plan files'
  unfolding apply_correction
  apply_correction-IsDone files request plan files' is_id h =
      let (target, a, h₁) = bind-ok (active_target platform files request.target_id) h in
      let (found, named, _) = active_target-ok platform files request.target_id target a in
      let (proposal, _, h₂) = bind-ok (proposal_of request) h₁ in
      let (_, h₃) = reject_if-ok (not (proposal.memory.kind == text "correction")) _ h₂ in
      let ((doc, files₁), w, h₄) =
        bind-ok (write_successor platform files request target proposal (text "corrects")) h₃ in
      let (primary, keeps) =
        write_successor-Keeps files request target proposal _ doc files₁ request.target_id w in
      let superseding = has_relationship proposal.memory (text "supersedes") target.memory.id in
      let (out, t, h₅) =
        bind-ok (supersede_if platform superseding files₁ target request.mutation_time) h₄ in
      let is_target : IsId platform target.memory.id = ground arith in
      IsDone-ok platform files request h₅ (record {
        primary = primary;
        target = inr (named, is_target);
        changed =
            sort-All (IsId platform) text_le _
              (primary, optional-IsId platform superseding target.memory.id is_target);
        keeps =
            supersede_if-Keeps superseding files target _ out request.target_id found files₁ t
              keeps;
      })

  apply_withdrawal-IsDone :
      (files : Files) (request : ApplyMutationRequest) (plan : MutationPlan) (files' : Files)
      → IsId platform request.target_id
      → apply_withdrawal platform files request ≡ ok (plan, files')
      → IsDone platform files request plan files'
  unfolding apply_withdrawal
  apply_withdrawal-IsDone files request plan files' is_id h =
      let (target, a, h₁) = bind-ok (active_target platform files request.target_id) h in
      let (found, named, _) = active_target-ok platform files request.target_id target a in
      let (out, t, h₂) =
        bind-ok
          (transition_lifecycle platform files target (text "withdrawn") request.mutation_time)
          h₁ in
      let is_target : IsId platform target.memory.id = ground arith in
      IsDone-ok platform files request h₂ (record {
        primary = is_target;
        target = inr (named, is_target);
        changed = (is_target, tt);
        keeps =
            transition-Keeps platform files target _ _ out request.target_id found files t
              (Keeps-refl platform files request.target_id);
      })

  validate_apply_request-target :
      (time : TimeFormat) (request : ApplyMutationRequest)
      → validate_apply_request time request ≡ ok tt
      → needs_target request.operation ≡ true
      → is_memory_id request.target_id ≡ true
  unfolding validate_apply_request
  validate_apply_request-target time r h n =
      let (_, h₁) = reject_if-ok (is_empty r.expected_revision) _ h in
      let (_, h₂) = reject_if-ok (not (is_operation_key r.idempotency_key)) _ h₁ in
      let (_, h₃) = reject_if-ok (not (contains operations r.operation)) _ h₂ in
      let (_, h₄) =
        reject_if-ok
          (not (r.operation == text "noop") && not (is_some (time.rfc3339 r.mutation_time))) _ h₃ in
      let (e, _) = reject_if-ok (needs_target r.operation && not (is_memory_id r.target_id)) _ h₄ in
      ground arith

  -- An operation of a validated request that succeeds names memory IDs in its plan, the target
  -- being the request's or none, and every file of the worktree keeps its bytes unless it is a
  -- file of the target document.
  pub apply_operation-IsDone :
      (time : TimeFormat) (files : Files) (request : ApplyMutationRequest) (plan : MutationPlan)
      (files' : Files)
      → validate_apply_request time request ≡ ok tt
      → apply_operation platform files request ≡ ok (plan, files')
      → IsDone platform files request plan files'
  unfolding apply_operation needs_target
  apply_operation-IsDone time files request plan files' v h =
      let target = validate_apply_request-target time request v in
      elim (Bool-cases (request.operation == text "create")) [
        | inl e₁ ↦ apply_create-IsDone files request plan files' (ground arith)
        | inr e₁ ↦ elim (Bool-cases (request.operation == text "update")) [
          | inl e₂ ↦
              apply_update-IsDone files request false plan files' (target (ground arith))
                (ground arith)
          | inr e₂ ↦ elim (Bool-cases (request.operation == text "resolve")) [
            | inl e₃ ↦
                apply_update-IsDone files request true plan files' (target (ground arith))
                  (ground arith)
            | inr e₃ ↦ elim (Bool-cases (request.operation == text "correct")) [
              | inl e₄ ↦
                  apply_correction-IsDone files request plan files' (target (ground arith))
                    (ground arith)
              | inr e₄ ↦ elim (Bool-cases (request.operation == text "supersede")) [
                | inl e₅ ↦
                    apply_supersession-IsDone files request plan files' (target (ground arith))
                      (ground arith)
                | inr e₅ ↦ elim (Bool-cases (request.operation == text "withdraw")) [
                  | inl e₆ ↦
                      apply_withdrawal-IsDone files request plan files' (target (ground arith))
                        (ground arith)
                  | inr e₆ ↦ ground arith
                ]
              ]
            ]
          ]
        ]
      ]
