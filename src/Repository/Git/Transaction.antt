-- ===== src/Repository/Git/Transaction.antt =====
-- internal/repository/transaction.go: `Commit` of a `gitTransaction`, over the shell of its worktree.
use git_memo.Base.{
  Bool, true, false, not, ◌||◌, ◌≡◌, ◌≢◌, refl, ap, inl, inr, Option, none, some, List, [], ◌∷◌,
  arith, nat_eq, Bool-cases, if◌then◌else◌,
}
use git_memo.Base.Text.{Text, text, is_empty, trim_space}
use git_memo.Repository.Git.{Answer, printed, exited, not_run, Shell}

abbrev pub add_command : List Text
add_command = text "add" ∷ text "-A" ∷ []

abbrev pub diff_command : List Text
diff_command = text "diff" ∷ text "--cached" ∷ text "--quiet" ∷ []

abbrev pub commit_command : Text → List Text
commit_command message =
    text "-c"
    ∷ text "user.name=Runethread"
    ∷ text "-c"
    ∷ text "user.email=runethread@localhost"
    ∷ text "commit"
    ∷ text "--no-gpg-sign"
    ∷ text "-m"
    ∷ message
    ∷ []

abbrev pub head_command : List Text
head_command = text "rev-parse" ∷ text "--verify" ∷ text "HEAD" ∷ []

unfoldable pub is_printed : Answer → Bool
is_printed (printed out) = true
is_printed (exited code) = false
is_printed not_run = false

-- `git diff --quiet` tells of a difference by exit code 1.
unfoldable pub has_difference : Answer → Bool
has_difference (printed out) = false
has_difference (exited code) = nat_eq code 1
has_difference not_run = false

unfoldable pub trimmed_output : Answer → Option Text
trimmed_output (printed out) = some (trim_space out)
trimmed_output (exited code) = none
trimmed_output not_run = none

is_printed-printed : (x : Answer) → is_printed x ≡ true → (out : Text) × (x ≡ printed out)
unfolding is_printed
is_printed-printed (printed out) h = (out, refl)
is_printed-printed (exited code) h = ground arith
is_printed-printed not_run h = ground arith

has_difference-exited : (x : Answer) → has_difference x ≡ true → x ≡ exited 1
unfolding has_difference
has_difference-exited (printed out) h = ground arith
has_difference-exited (exited code) h = ap exited (ground arith)
has_difference-exited not_run h = ground arith

trimmed_output-printed :
    (x : Answer) (revision : Text)
    → trimmed_output x ≡ some revision
    → (out : Text) × (x ≡ printed out) × (revision ≡ trim_space out)
unfolding trimmed_output
trimmed_output-printed (printed out) revision h = (out, refl, ground arith)
trimmed_output-printed (exited code) revision h = ground arith
trimmed_output-printed not_run revision h = ground arith

is_empty-nil : (s : Text) → s ≡ [] → is_empty s ≡ true
unfolding is_empty
is_empty-nil [] h = refl
is_empty-nil (c ∷ s) h = ground arith

module _ {W : Type 0} (shell : Shell W) where
  open shell use {run}

  unfoldable pub commit_staged : Text → W → Option Text × W
  unfolding is_printed trimmed_output
  commit_staged message w =
      let (committed, w₁) = run (commit_command message) w in
      if not (is_printed committed)
      then (none, w₁)
      else let (head, w₂) = run head_command w₁ in (trimmed_output head, w₂)

  -- `Commit`: `none` is an error.
  unfoldable pub git_commit : Bool → Text → W → Option Text × W
  unfolding commit_staged is_printed has_difference is_empty
  git_commit closed message w =
      if closed || is_empty (trim_space message)
      then (none, w)
      else let (added, w₁) = run add_command w in
        if not (is_printed added)
        then (none, w₁)
        else let (staged, w₂) = run diff_command w₁ in
          if not (has_difference staged) then (none, w₂) else commit_staged message w₂

  -- The commands that led to a commit, one behind the other, and how each ended: Git staged the
  -- worktree; its comparison with the base ended with exit code 1, which says that they differ; it
  -- committed; and it printed the head.
  pub record IsCommitted (closed : Bool) (message : Text) (w : W) (revision : Text) (w' : W)
      : Type 0 where
    pub open_still : closed ≡ false
    pub nonblank : trim_space message ≢ []
    pub added_out : Text
    pub committed_out : Text
    pub head_out : Text
    pub w₁ : W
    pub w₂ : W
    pub w₃ : W
    pub added : run add_command w ≡ (printed added_out, w₁)
    pub differs : run diff_command w₁ ≡ (exited 1, w₂)
    pub committed : run (commit_command message) w₂ ≡ (printed committed_out, w₃)
    pub reads : run head_command w₃ ≡ (printed head_out, w')
    pub trimmed : revision ≡ trim_space head_out

  -- If `Commit` returns a revision, then the transaction was open and the message not blank,
  -- Git staged the worktree, its comparison of the staged files with the base ended with exit
  -- code 1, which says that they differ, the commit command succeeded, and the revision is the
  -- trimmed output of the command that reads the head after it; no other command ran.
  pub git_commit-IsCommitted :
      (closed : Bool) (message : Text) (w : W) (revision : Text)
      → (git_commit closed message w).0 ≡ some revision
      → IsCommitted closed message w revision (git_commit closed message w).1
  unfolding git_commit commit_staged is_empty
  git_commit-IsCommitted closed message w revision h =
      let w₁ = (run add_command w).1 in
      let w₂ = (run diff_command w₁).1 in
      let w₃ = (run (commit_command message) w₂).1 in
      elim (Bool-cases (closed || is_empty (trim_space message))) [
        | inl e ↦ ground arith
        | inr e ↦ elim (Bool-cases (is_printed (run add_command w).0)) [
          | inr e₁ ↦ ground arith
          | inl e₁ ↦ elim (Bool-cases (has_difference (run diff_command w₁).0)) [
            | inr e₂ ↦ ground arith
            | inl e₂ ↦ elim (Bool-cases (is_printed (run (commit_command message) w₂).0)) [
              | inr e₃ ↦ ground arith
              | inl e₃ ↦
                  let (added_out, a) = is_printed-printed _ e₁ in
                  let (committed_out, c) = is_printed-printed _ e₃ in
                  let (head_out, o, t) =
                    trimmed_output-printed (run head_command w₃).0 revision (ground arith) in
                  record {
                    open_still = ground arith;
                    nonblank = λ blank. ground (arith, is_empty-nil (trim_space message));
                    added_out = added_out;
                    committed_out = committed_out;
                    head_out = head_out;
                    w₁ = w₁;
                    w₂ = w₂;
                    w₃ = w₃;
                    added = ap (λ x. (x, w₁)) a;
                    differs = ap (λ x. (x, w₂)) (has_difference-exited _ e₂);
                    committed = ap (λ x. (x, w₃)) c;
                    reads = rw (e, e₁, e₂, e₃) (ap (λ x. (x, (run head_command w₃).1)) o);
                    trimmed = t;
                  }
            ]
          ]
        ]
      ]
