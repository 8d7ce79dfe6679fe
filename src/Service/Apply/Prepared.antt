-- ===== src/Service/Apply/Prepared.antt =====
-- internal/memoryservice/mutation.go: what stands behind a commit that `ApplyMutation` makes.
use git_memo.Base.{false, ◌≡◌, inl, inr, subst, some, arith, Bool-cases, Option-cases}
use git_memo.Base.Text.{Text}
use git_memo.Base.Result.{ok, Result-cases}
use git_memo.Repository.Message.{format_mutation_commit_message}
use git_memo.Service.Store.{Files, Platform}
use git_memo.Service.Operation.{ApplyMutationRequest, MutationPlan, apply_operation}
use git_memo.Service.Apply.{Writer, Tools, prepare_commit, mutation_commit_subject, commit_metadata}

module _ {R : Type 0} (writer : Writer R) (platform : Platform) (tools : Tools) where
  open writer use {find_applied_operation, state, begin_transaction, commit, close, publish}

  -- What stands behind a commit that is published: the operation succeeded on the base, the files
  -- with fresh indexes pass validation, and the message records the operation.
  pub record IsPrepared (base : Files) (request : ApplyMutationRequest) (fingerprint : Text)
      (plan : MutationPlan) (files : Files) (message : Text) : Type 0 where
    pub changed : Files
    pub operated : apply_operation platform base request ≡ ok (plan, changed)
    pub indexed : tools.write_index changed ≡ some files
    pub validated : tools.has_errors files ≡ false
    pub formatted :
        format_mutation_commit_message
          (mutation_commit_subject request.operation plan)
          (commit_metadata request fingerprint plan)
        ≡ ok message

  IsPrepared-transport :
      {base : Files} {request : ApplyMutationRequest} {fingerprint : Text}
      {x y : MutationPlan × Files × Text}
      → x ≡ y
      → IsPrepared base request fingerprint x.0 x.1 x.2
      → IsPrepared base request fingerprint y.0 y.1 y.2
  IsPrepared-transport {base} {request} {fingerprint} e p =
      subst (λ t. IsPrepared base request fingerprint t.0 t.1 t.2) e p

  pub prepare_commit-IsPrepared :
      (base : Files) (request : ApplyMutationRequest) (fingerprint : Text) (plan : MutationPlan)
      (files : Files) (message : Text)
      → prepare_commit writer platform tools base request fingerprint ≡ ok (plan, files, message)
      → IsPrepared base request fingerprint plan files message
  unfolding prepare_commit
  prepare_commit-IsPrepared base request fingerprint plan files message h =
      elim (Result-cases (apply_operation platform base request)) [
        | inr (e, e₁) ↦ ground arith
        | inl ((p, changed), e₁) ↦ elim (Option-cases (tools.write_index changed)) [
          | inl e₂ ↦ ground arith
          | inr (indexed, e₂) ↦ elim (Bool-cases (tools.has_errors indexed)) [
            | inl e₃ ↦ ground arith
            | inr e₃ ↦
                elim (Result-cases (
                  format_mutation_commit_message (mutation_commit_subject request.operation p)
                    (commit_metadata request fingerprint p))) [
                      | inr (e, e₄) ↦ ground arith
                      | inl (m, e₄) ↦
                          let same : (p, indexed, m) ≡ (plan, files, message) = ground arith in
                          IsPrepared-transport same (record {
                            changed = changed;
                            operated = e₁;
                            indexed = e₂;
                            validated = e₃;
                            formatted = e₄;
                          })
                    ]
          ]
        ]
      ]
