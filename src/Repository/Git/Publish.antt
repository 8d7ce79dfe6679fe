-- ===== src/Repository/Git/Publish.antt =====
-- internal/repository/transaction.go: the steps of `Publish`.
use git_memo.Base.{
  ℕ, ◌≢◌, sym, ◌∙◌, true, ◌||◌, ◌≡◌, ◌⊎◌, inl, inr, refl, ap, subst, none, some, arith, Bool-cases,
  Option-cases,
}
use git_memo.Base.Text.{Text, eq_iff, is_empty, trim_space}
use git_memo.Base.Result.{ok}
use git_memo.Repository.Git.{
  Answer, printed, exited, not_run, Shell, RepoState, git_state, refuse_publish, explain_failure,
  verify_published, merge_and_verify, publish_checked, git_publish, merge_command,
}

module _ {W : Type 0} (shell : Shell W) where
  open shell use {run}

  -- The state that was read is the one that the caller expects.
  pub record IsExpected (st : RepoState) (branch expected : Text) : Type 0 where
    pub clean : st.clean ≡ true
    pub on_branch : st.branch ≡ branch
    pub at_revision : st.revision ≡ expected

  refuse_publish-none :
      (st : RepoState) (branch expected : Text)
      → refuse_publish shell st branch expected ≡ none
      → IsExpected st branch expected
  unfolding refuse_publish
  refuse_publish-none st branch expected h = record {
    clean = ground arith;
    on_branch = ground (arith, eq_iff st.branch branch);
    at_revision = ground (arith, eq_iff st.revision expected);
  }

  -- The merge is run, on the repository that was compared.
  pub record IsMerged (branch expected commit : Text) (w : W) : Type 0 where
    pub before : RepoState
    pub seen : (git_state shell w).0 ≡ some before
    pub as_expected : IsExpected before (trim_space branch) (trim_space expected)
    pub merges :
        git_publish shell branch expected commit w
        ≡ merge_and_verify shell (trim_space expected) (trim_space commit) (git_state shell w).1

  -- `Publish` runs the merge only after it has read a clean state on the named branch at the
  -- expected revision; in every other case it has run no command, or no command but those that
  -- read the state.
  pub git_publish-guarded :
      (branch expected commit : Text) (w : W)
      → ((git_publish shell branch expected commit w).1 ≡ w)
        ⊎ ((git_publish shell branch expected commit w).1 ≡ (git_state shell w).1)
        ⊎ IsMerged branch expected commit w
  unfolding git_publish publish_checked
  git_publish-guarded branch expected commit w =
      elim (Bool-cases (
        is_empty (trim_space branch)
        || is_empty (trim_space expected)
        || is_empty (trim_space commit))) [
          | inl e ↦ inl (ground arith)
          | inr e ↦ elim (Option-cases (git_state shell w).0) [
            | inl e₁ ↦ inr (inl (ground arith))
            | inr (st, e₁) ↦
                elim (Option-cases
                  (refuse_publish shell st (trim_space branch) (trim_space expected))) [
                    | inr (error, e₂) ↦ inr (inl (ground arith))
                    | inl e₂ ↦ inr (
                        inr (record {
                          before = st;
                          seen = e₁;
                          as_expected =
                              refuse_publish-none st (trim_space branch) (trim_space expected) e₂;
                          merges = ground arith;
                        }))
                  ]
          ]
        ]

  -- The last look at the repository found the commit published, and nothing else changed.
  pub record IsVerified (commit : Text) (w' : W) : Type 0 where
    pub merged : W
    pub latest : RepoState
    pub seen : (git_state shell merged).0 ≡ some latest
    pub ended : w' ≡ (git_state shell merged).1
    pub at_commit : latest.revision ≡ commit
    pub clean : latest.clean ≡ true

  verify_published-ok :
      (commit : Text) (w : W)
      → (verify_published shell commit w).0 ≡ ok tt
      → IsVerified commit (verify_published shell commit w).1
  unfolding verify_published
  verify_published-ok commit w h = elim (Option-cases (git_state shell w).0) [
    | inl e ↦ ground arith
    | inr (st, e) ↦ record {
      merged = w;
      latest = st;
      seen = e;
      ended = ground arith;
      at_commit = ground (arith, eq_iff st.revision commit);
      clean = ground arith;
    }
  ]

  Answer-cases :
      (a : Answer)
      → ((out : Text) × (a ≡ printed out)) ⊎ ((code : ℕ) × (a ≡ exited code)) ⊎ (a ≡ not_run)
  Answer-cases (printed out) = inl (out, refl)
  Answer-cases (exited code) = inr (inl (code, refl))
  Answer-cases not_run = inr (inr refl)

  explain_failure-err : (expected : Text) (w : W) → (explain_failure shell expected w).0 ≢ ok tt
  unfolding explain_failure
  explain_failure-err expected w h = elim (Option-cases (git_state shell w).0) [
    | inl e ↦ ground arith
    | inr (st, e) ↦ ground arith
  ]

  merge_and_verify-ok :
      (expected commit : Text) (w : W)
      → (merge_and_verify shell expected commit w).0 ≡ ok tt
      → IsVerified commit (merge_and_verify shell expected commit w).1
  unfolding merge_and_verify
  merge_and_verify-ok expected commit w h =
      let w₁ = (run (merge_command commit) w).1 in
      elim (Answer-cases (run (merge_command commit) w).0) [
        | inl (out, e) ↦
            let same : merge_and_verify shell expected commit w ≡ verify_published shell commit w₁ =
              ground arith in
            subst (λ o. IsVerified commit o.1) (sym same)
              (verify_published-ok commit w₁ (ap (λ o. o.0) (sym same) ∙ h))
        | inr (inl (code, e)) ↦ absurd (explain_failure-err expected w₁ (ground arith))
        | inr (inr e) ↦ absurd (explain_failure-err expected w₁ (ground arith))
      ]

  -- If `Publish` reports success, then the last state that it read is clean and at the
  -- published commit.
  pub git_publish-IsVerified :
      (branch expected commit : Text) (w : W)
      → (git_publish shell branch expected commit w).0 ≡ ok tt
      → IsVerified (trim_space commit) (git_publish shell branch expected commit w).1
  unfolding git_publish publish_checked
  git_publish-IsVerified branch expected commit w h =
      let b = trim_space branch in
      let e = trim_space expected in
      let c = trim_space commit in
      elim (Bool-cases (is_empty b || is_empty e || is_empty c)) [
        | inl e₀ ↦ ground arith
        | inr e₀ ↦ elim (Option-cases (git_state shell w).0) [
          | inl e₁ ↦ ground arith
          | inr (st, e₁) ↦ elim (Option-cases (refuse_publish shell st b e)) [
            | inr (error, e₂) ↦ ground arith
            | inl e₂ ↦
                let w₁ = (git_state shell w).1 in
                let same : git_publish shell branch expected commit w
                    ≡ merge_and_verify shell e c w₁ =
                  ground arith in
                subst (λ o. IsVerified c o.1) (sym same)
                  (merge_and_verify-ok e c w₁ (ap (λ o. o.0) (sym same) ∙ h))
          ]
        ]
      ]
