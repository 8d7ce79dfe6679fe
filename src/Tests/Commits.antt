-- ===== src/Tests/Commits.antt =====
-- Commit messages, the history and the publication of a commit.
use git_memo.Repository.Git.Transaction.{trimmed_output, is_printed, has_difference}
use git_memo.Repository.Git.Transaction.{git_commit, IsCommitted, git_commit-IsCommitted}
use git_memo.Base.Text.{split_on}
use git_memo.Repository.Git.{exited, parse_porcelain}
use git_memo.Base.Text.{join, trim_space, is_space, is_empty}
use git_memo.Repository.Message.{message_lines, is_operation_key, is_sha256}
use git_memo.Base.Text.{contains}
use git_memo.Repository.Git.{log_command}
use git_memo.Base.{
  false, ℕ, Bool, true, not, ◌&&◌, nat_eq, ltb, ◌<◌, all_of-All, ◌≡◌, ◌≢◌, ◌⊎◌, refl, some, List,
  [], ◌∷◌, ◌++◌, arith, All, sort, all_of, if◌then◌else◌,
}
use git_memo.Base.Text.{Text, text, text_le, ◌==◌}
use git_memo.Base.Result.{ok}
use git_memo.Repository.Message.{
  AppliedOperation, format_mutation_commit_message, parse_applied_operation,
}
use git_memo.Repository.Message.RoundTrip.{IsWritable, parse-format}
use git_memo.Repository.Git.{exited, Answer, printed, Shell, git_state, git_find, git_publish}
use git_memo.Repository.Git.Publish.{
  IsVerified, IsMerged, git_publish-guarded, git_publish-IsVerified,
}
use git_memo.Repository.Git.History.{Commit, IsPlain, log_output, Finds, git_find-log}
use git_memo.Tests.Data.{one_digest}

abbrev an_operation : AppliedOperation
an_operation = record {
  commit = [];
  idempotency_key = text "k1";
  request_sha256 = one_digest;
  operation = text "supersede";
  primary_memory_id = text "b";
  target_memory_id = text "a";
  changed_memory_ids = text "b" ∷ text "a" ∷ [];
}

a_message : Text
a_message =
    text
      "memory: supersede b\n\nRunethread-Mutation: v1\nRunethread-Operation-ID: k1\nRunethread-Request-SHA256: "
    ++ one_digest
    ++ text
        "\nRunethread-Operation: supersede\nRunethread-Primary-Memory-ID: b\nRunethread-Target-Memory-ID: a\nRunethread-Changed-Memory-IDs: a,b"

a_message_test :
    format_mutation_commit_message (text "memory: supersede b") an_operation ≡ ok a_message
unfolding a_message format_mutation_commit_message message_lines trim_space is_space is_empty
    is_operation_key is_sha256 all_of sort text_le join
a_message_test = refl

is_line_byte : ℕ → Bool
is_line_byte c = not (nat_eq c 10) && not (nat_eq c 13)

an_operation-IsWritable : IsWritable (text "memory: supersede b") an_operation
unfolding all_of is_line_byte trim_space is_space is_empty
an_operation-IsWritable = record {
  subject_line =
      all_of-All {P = λ c. (c ≢ 10) × (c ≢ 13)} is_line_byte (text "memory: supersede b")
        (λ c h. (ground arith, ground arith)) refl;
  subject_start = omega arith;
  operation_word =
      all_of-All {P = λ c. 32 < c} (ltb 32) (text "supersede") (λ c h. ground arith) refl;
  operation_named = refl;
  primary_word = (omega arith, tt);
  target_word = (omega arith, tt);
  changed_words = (
    ((omega arith, tt), (omega arith, tt), λ e. ground arith),
    (((omega arith, tt), (omega arith, tt), λ e. ground arith), tt),
  );
}

parse-format_example :
    parse_applied_operation (text "c2") a_message
    ≡ some
        (record an_operation { commit = text "c2"; changed_memory_ids = text "a" ∷ text "b" ∷ [] })
unfolding sort text_le
parse-format_example =
    parse-format (text "c2") (text "memory: supersede b") an_operation a_message
      an_operation-IsWritable a_message_test

a_commit : Commit
a_commit = record { hash = text "c2"; body = a_message }

commits : List Commit
commits = a_commit ∷ record { hash = text "c1"; body = text "Start" ++ 10 ∷ [] } ∷ []

-- A clean repository on `main`, whose state is the hash of its head.
answer : List Text → Text → Answer × Text
unfolding contains ◌==◌
answer args head =
    if contains args (text "merge")
    then (printed [], text "c2")
    else if contains args (text "rev-parse")
    then (printed (head ++ 10 ∷ []), head)
    else if contains args (text "symbolic-ref")
    then (printed (text "main" ++ 10 ∷ []), head)
    else if contains args (text "log")
    then (printed (log_output commits), head)
    else (printed [], head)

abbrev a_shell : Shell Text
a_shell = record { run = answer }

commits-IsPlain : All IsPlain commits
unfolding commits a_commit a_message all_of
commits-IsPlain = (
  (
    (omega arith, (omega arith, tt)),
    λ e. ground arith,
    all_of-All {P = λ c. c ≢ 30} (λ c. not (nat_eq c 30)) a_message (λ c h. ground arith) refl,
  ),
  (
    (
      (omega arith, (omega arith, tt)),
      λ e. ground arith,
      all_of-All {P = λ c. c ≢ 30} (λ c. not (nat_eq c 30)) (text "Start" ++ 10 ∷ [])
          (λ c h. ground arith) refl,
    ),
    tt,
  ),
)

a_key : is_operation_key (trim_space (text "k1 ")) ≡ true
unfolding is_operation_key trim_space is_space all_of
a_key = refl

log_test :
    answer (log_command (trim_space (text "k1 "))) (text "c2")
    ≡ (printed (log_output commits), text "c2")
unfolding answer trim_space is_space
log_test = refl

git_find-log_example :
    ((git_find a_shell (text "k1 ") (text "c2")).1 ≡ text "c2")
    × Finds (trim_space (text "k1 ")) commits (git_find a_shell (text "k1 ") (text "c2")).0
git_find-log_example =
    git_find-log a_shell (text "k1 ") commits (text "c2") (text "c2") a_key commits-IsPlain log_test

git_publish-guarded_example :
    ((git_publish a_shell (text "main") (text "c1") (text "c2") (text "c1")).1 ≡ text "c1")
    ⊎ ((git_publish a_shell (text "main") (text "c1") (text "c2") (text "c1")).1
        ≡ (git_state a_shell (text "c1")).1)
    ⊎ IsMerged a_shell (text "main") (text "c1") (text "c2") (text "c1")
git_publish-guarded_example =
    git_publish-guarded a_shell (text "main") (text "c1") (text "c2") (text "c1")

published_test : (git_publish a_shell (text "main") (text "c1") (text "c2") (text "c1")).0 ≡ ok tt
unfolding answer git_publish git_state parse_porcelain trim_space is_space is_empty split_on
published_test = refl

git_publish-IsVerified_example :
    IsVerified a_shell
      (trim_space (text "c2"))
      (git_publish a_shell (text "main") (text "c1") (text "c2") (text "c1")).1
git_publish-IsVerified_example =
    git_publish-IsVerified a_shell (text "main") (text "c1") (text "c2") (text "c1") published_test

-- A worktree with a difference, whose commit is `c2`.
worktree_answer : List Text → Text → Answer × Text
unfolding contains ◌==◌
worktree_answer args head =
    if contains args (text "diff")
    then (exited 1, head)
    else if contains args (text "commit")
    then (printed [], text "c2")
    else (printed (head ++ 10 ∷ []), head)

abbrev a_worktree : Shell Text
a_worktree = record { run = worktree_answer }

committed_test : (git_commit a_worktree false (text "m") (text "c1")).0 ≡ some (text "c2")
unfolding git_commit worktree_answer trim_space is_space is_empty is_printed has_difference
    trimmed_output
committed_test = refl

git_commit-IsCommitted_example :
    IsCommitted a_worktree false
      (text "m")
      (text "c1")
      (text "c2")
      (git_commit a_worktree false (text "m") (text "c1")).1
git_commit-IsCommitted_example =
    git_commit-IsCommitted a_worktree false (text "m") (text "c1") (text "c2") committed_test
