-- ===== src/Service/Apply/Safety.antt =====
-- internal/memoryservice/mutation.go: when `ApplyMutation` moves the head of the repository.
use git_memo.Base.{
  Bool, true, false, ◌≡◌, ◌≢◌, ◌⊎◌, inl, inr, sym, ap, subst, ◌∙◌, none, some, arith, Bool-cases,
  Option-cases,
}
use git_memo.Base.Text.{Text, text, ◌==◌, eq_iff}
use git_memo.Base.Result.{ok, Result-cases}
use git_memo.Service.Store.{Files, Platform}
use git_memo.Service.Operation.{ApplyMutationRequest, MutationPlan}
use git_memo.Service.Request.{normalize_apply_request, validate_apply_request}
use git_memo.Service.Apply.Prepared.{IsPrepared, prepare_commit-IsPrepared}
use git_memo.Repository.Git.{RepoState}
use git_memo.Service.Apply.{
  Writer, Tools, applied, ApplyMutationResult, Outcome, prepare_commit, publish_commit,
  run_transaction, check_repository, run_new_request, run_request, apply_mutation, applied_result,
  result_from_applied, apply_request_fingerprint,
}

module _ {R : Type 0} (writer : Writer R) (head : R → Text) where
  open writer use {state, begin_transaction, commit, close, publish}

  -- Git's documented behaviour: a worktree and a commit in it leave the branch of the repository
  -- where it is, and a publication that reports success has moved it from one commit to the other.
  pub record IsLawfulWriter : Type 0 where
    pub state-head : (r : R) (st : RepoState) → state r ≡ some st → st.revision ≡ head r
    pub head-begin : (r : R) (revision : Text) → head (begin_transaction r revision).1 ≡ head r
    pub head-commit :
        (r : R) (files : Files) (message : Text) → head (commit r files message).1 ≡ head r
    pub head-close : (r : R) → head (close r).1 ≡ head r
    pub head-publish :
        (r : R) (branch expected revision : Text)
        → (publish r branch expected revision).0 ≡ ok tt
        → head (publish r branch expected revision).1 ≡ revision

module _ {R : Type 0} (writer : Writer R) (platform : Platform) (tools : Tools)
    (head : R → Text) where
  open writer use {
    find_applied_operation, state, root_files, begin_transaction, commit, close, publish,
  }

  -- The branch has not moved, and no result says that it has.
  pub record IsStill (r : R) (o : Outcome writer platform tools) : Type 0 where
    pub still : head o.1 ≡ head r
    pub not_applied : (result : ApplyMutationResult) → o.0 ≡ ok result → result.status ≢ applied

  -- The repository at the call of `Publish`.
  unfoldable pub handed : R → ApplyMutationRequest → Files → Text → R
  handed r request files message =
      (close (commit (begin_transaction r request.expected_revision).1 files message).1).1

  -- A prepared commit was handed to `Publish`.
  pub record IsAttempt (st : RepoState) (request : ApplyMutationRequest) (fingerprint : Text)
      (r : R) (o : Outcome writer platform tools) : Type 0 where
    pub base : Files
    pub begun : (begin_transaction r request.expected_revision).0 ≡ some base
    pub plan : MutationPlan
    pub files : Files
    pub message : Text
    pub prepared : IsPrepared writer platform tools base request fingerprint plan files message
    pub revision : Text
    pub committed :
        (commit (begin_transaction r request.expected_revision).1 files message).0 ≡ some revision
    pub moved :
        (result : ApplyMutationResult)
        → o.0 ≡ ok result
        → (result ≡ applied_result request revision plan)
          × (head o.1 ≡ revision)
          × ((publish
                (handed r request files message)
                st.branch
                request.expected_revision
                revision).0
              ≡ ok tt)
          × (o.1
              ≡ (publish
                  (handed r request files message)
                  st.branch
                  request.expected_revision
                  revision).1)

  -- Everything that is true when a request has got as far as `Publish`.
  pub record IsPublished (request : ApplyMutationRequest) (r : R)
      (o : Outcome writer platform tools) : Type 0 where
    pub validated : validate_apply_request platform.time request ≡ ok tt
    pub fingerprint : Text
    pub fingerprinted : apply_request_fingerprint tools request ≡ some fingerprint
    pub fresh : find_applied_operation r request.idempotency_key ≡ some none
    pub at : RepoState
    pub found : state r ≡ some at
    pub clean : at.clean ≡ true
    pub current : at.revision ≡ request.expected_revision
    pub accepted : tools.has_errors (root_files r) ≡ false
    pub changes : request.operation ≢ text "noop"
    pub attempt : IsAttempt at request fingerprint r o

  module _ (lawful : IsLawfulWriter writer head) where
    publish_commit-moved :
        (st : RepoState) (request : ApplyMutationRequest) (plan : MutationPlan) (revision : Text)
        (closed : Bool × R) (result : ApplyMutationResult)
        → (publish_commit writer platform tools st request plan revision closed).0 ≡ ok result
        → (result ≡ applied_result request revision plan)
          × (head (publish_commit writer platform tools st request plan revision closed).1
              ≡ revision)
          × ((publish closed.1 st.branch request.expected_revision revision).0 ≡ ok tt)
          × ((publish_commit writer platform tools st request plan revision closed).1
              ≡ (publish closed.1 st.branch request.expected_revision revision).1)
    unfolding publish_commit
    publish_commit-moved st request plan revision (false, r) result h = ground arith
    publish_commit-moved st request plan revision (true, r) result h =
        elim (Result-cases (publish r st.branch request.expected_revision revision).0) [
          | inr (e, e₁) ↦ ground arith
          | inl (tt, e₁) ↦ (
            ground arith,
            ground (arith, lawful.head-publish r st.branch request.expected_revision revision),
            e₁,
            ground arith,
          )
        ]

    run_transaction-lem :
        (st : RepoState) (request : ApplyMutationRequest) (fingerprint : Text) (r : R)
        → IsStill r (run_transaction writer platform tools st request fingerprint r)
          ⊎ IsAttempt st request fingerprint r
              (run_transaction writer platform tools st request fingerprint r)
    unfolding run_transaction handed
    run_transaction-lem st request fingerprint r =
        let rev = request.expected_revision in
        let r₁ = (begin_transaction r rev).1 in
        elim (Option-cases (begin_transaction r rev).0) [
          | inl e₁ ↦ inl (record {
            still = ground (arith, lawful.head-begin r rev);
            not_applied = λ x h. ground arith;
          })
          | inr (base, e₁) ↦
              elim (Result-cases (prepare_commit writer platform tools base request fingerprint)) [
                | inr (e, e₂) ↦ inl (record {
                  still = ground (arith, lawful.head-begin r rev, lawful.head-close r₁);
                  not_applied = λ x h. ground arith;
                })
                | inl ((plan, files, message), e₂) ↦
                    let r₂ = (commit r₁ files message).1 in
                    elim (Option-cases (commit r₁ files message).0) [
                      | inl e₃ ↦ inl (record {
                        still = ground (
                          arith,
                          lawful.head-begin r rev,
                          lawful.head-commit r₁ files message,
                          lawful.head-close r₂,
                        );
                        not_applied = λ x h. ground arith;
                      })
                      | inr (revision, e₃) ↦ inr (record {
                        base = base;
                        begun = e₁;
                        plan = plan;
                        files = files;
                        message = message;
                        prepared =
                            prepare_commit-IsPrepared writer platform tools base request fingerprint
                              plan files message e₂;
                        revision = revision;
                        committed = e₃;
                        moved = λ result h.
                            let e : run_transaction writer platform tools st request fingerprint r
                                ≡ publish_commit writer platform tools st request plan revision
                                    (close r₂) =
                              ground arith in
                            let done =
                              publish_commit-moved st request plan revision (close r₂) result
                                (sym (ap (λ o. o.0) e) ∙ h) in
                            (
                              done.0,
                              ap (λ o. head o.1) e ∙ done.1,
                              done.2,
                              ap (λ o. o.1) e ∙ done.3,
                            );
                      })
                    ]
              ]
        ]

    check_repository-none :
        (st : RepoState) (request : ApplyMutationRequest) (files : Files)
        → check_repository writer platform tools st request files ≡ none
        → (st.clean ≡ true)
          × (st.revision ≡ request.expected_revision)
          × (tools.has_errors files ≡ false)
    unfolding check_repository
    check_repository-none st request files h =
        (ground arith, ground (arith, eq_iff st.revision request.expected_revision), ground arith)

    IsStill-same :
        (r : R) (o : Outcome writer platform tools)
        → o.1 ≡ r
        → ((result : ApplyMutationResult) → o.0 ≡ ok result → result.status ≢ applied)
        → IsStill r o
    IsStill-same r o e n = record { still = ap head e; not_applied = n }

    run_new_request-lem :
        (request : ApplyMutationRequest) (fingerprint : Text) (r : R)
        → validate_apply_request platform.time request ≡ ok tt
        → apply_request_fingerprint tools request ≡ some fingerprint
        → find_applied_operation r request.idempotency_key ≡ some none
        → IsStill r (run_new_request writer platform tools request fingerprint r)
          ⊎ IsPublished request r (run_new_request writer platform tools request fingerprint r)
    unfolding run_new_request
    run_new_request-lem request fingerprint r v f n = elim (Option-cases (state r)) [
      | inl e₁ ↦ inl (IsStill-same r _ (ground arith) (λ x h. ground arith))
      | inr (st, e₁) ↦
          elim (Option-cases (check_repository writer platform tools st request (root_files r))) [
            | inr (code, e₂) ↦ inl (IsStill-same r _ (ground arith) (λ x h. ground arith))
            | inl e₂ ↦ elim (Bool-cases (request.operation == text "noop")) [
              | inl e₃ ↦ inl (IsStill-same r _ (ground arith) (λ x h. ground arith))
              | inr e₃ ↦
                  let checked = check_repository-none st request (root_files r) e₂ in
                  let e : run_new_request writer platform tools request fingerprint r
                      ≡ run_transaction writer platform tools st request fingerprint r =
                    ground arith in
                  subst (λ o. IsStill r o ⊎ IsPublished request r o) (sym e)
                    (elim (run_transaction-lem st request fingerprint r) [
                      | inl quiet ↦ inl quiet
                      | inr attempt ↦ inr (record {
                        validated = v;
                        fingerprint = fingerprint;
                        fingerprinted = f;
                        fresh = n;
                        at = st;
                        found = e₁;
                        clean = checked.0;
                        current = checked.1;
                        accepted = checked.2;
                        changes = λ h. ground (arith, eq_iff request.operation (text "noop"));
                        attempt = attempt;
                      })
                    ])
            ]
          ]
    ]

    run_request-lem :
        (request : ApplyMutationRequest) (fingerprint : Text) (r : R)
        → validate_apply_request platform.time request ≡ ok tt
        → apply_request_fingerprint tools request ≡ some fingerprint
        → IsStill r (run_request writer platform tools request fingerprint r)
          ⊎ IsPublished request r (run_request writer platform tools request fingerprint r)
    unfolding run_request result_from_applied
    run_request-lem request fingerprint r v f =
        elim (Option-cases (find_applied_operation r request.idempotency_key)) [
          | inl e₁ ↦ inl (IsStill-same r _ (ground arith) (λ x h. ground arith))
          | inr (some a, e₁) ↦ inl (IsStill-same r _ (ground arith) (λ x h. ground arith))
          | inr (none, e₁) ↦
              let e : run_request writer platform tools request fingerprint r
                  ≡ run_new_request writer platform tools request fingerprint r =
                ground arith in
              subst (λ o. IsStill r o ⊎ IsPublished request r o) (sym e)
                (run_new_request-lem request fingerprint r v f e₁)
        ]

    pub apply_mutation-lem :
        (raw : ApplyMutationRequest) (r : R)
        → IsStill r (apply_mutation writer platform tools raw r)
          ⊎ IsPublished (normalize_apply_request raw) r (apply_mutation writer platform tools raw r)
    unfolding apply_mutation
    apply_mutation-lem raw r =
        let request = normalize_apply_request raw in
        elim (Result-cases (validate_apply_request platform.time request)) [
          | inr (code, e₁) ↦ inl (IsStill-same r _ (ground arith) (λ x h. ground arith))
          | inl (tt, e₁) ↦ elim (Option-cases (apply_request_fingerprint tools request)) [
            | inl e₂ ↦ inl (IsStill-same r _ (ground arith) (λ x h. ground arith))
            | inr (fingerprint, e₂) ↦
                let e : apply_mutation writer platform tools raw r
                    ≡ run_request writer platform tools request fingerprint r =
                  ground arith in
                subst (λ o. IsStill r o ⊎ IsPublished request r o) (sym e)
                  (run_request-lem request fingerprint r e₁ e₂)
          ]
        ]
