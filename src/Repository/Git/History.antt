-- ===== src/Repository/Git/History.antt =====
-- internal/repository/transaction.go: `FindAppliedOperation` over what `git log` prints.
use mathlib.Core.List.{
  reverse, reverse-append, reverse-reverse, reverse-cons, append_assoc, append-nil, cons≢nil,
  head-eq_of_cons-eq, tail-eq_of_cons-eq,
}
use git_memo.Base.{
  ℕ, ◌<◌, true, false, ◌≡◌, ◌≢◌, refl, inl, inr, sym, ap, subst, ◌∙◌, some, List, [], ◌∷◌, ◌++◌,
  arith, All, All-map, All-append, Bool-cases, Option-cases, Option, none, ◌⊎◌,
}
use git_memo.Base.Text.{Text, ◌==◌, eq_iff, trim_space, trim_left, trim_right, is_space, split_on}
use git_memo.Base.TextLaws.{IsToken, trim_space-token, split_on-append, split_on-plain}
use git_memo.Repository.Message.{AppliedOperation, is_operation_key, parse_applied_operation}
use git_memo.Repository.Git.{
  Shell, printed, cut_at, keep_key, read_parts, read_record, read_records, read_log, only_match,
  log_command, git_find,
}

-- A commit, with the hash and the message that `%H` and `%B` print.
pub record Commit : Type 0 where
  pub hash : Text
  pub body : Text

-- No byte of a hash is white space or a control character, and a message has no record separator.
abbrev pub IsPlain : Commit → Type 0
IsPlain c = IsToken c.hash × (c.hash ≢ []) × All (λ b. b ≢ 30) c.body

-- What `git log --format=%H%x1f%B%x1e` prints: a record and a newline for each commit.
unfoldable pub log_output : List Commit → Text
log_output [] = []
log_output (c ∷ commits) = c.hash ++ 31 ∷ (c.body ++ 30 ∷ 10 ∷ log_output commits)

-- The operations that the commits record under a key, newest first.
unfoldable pub operations_with : Text → List Commit → List AppliedOperation
operations_with key [] = []
operations_with key (c ∷ commits) =
    keep_key key (parse_applied_operation c.hash (trim_right c.body)) ++ operations_with key commits

trim_left-newlines : (pre s : Text) → All (λ c. c ≡ 10) pre → trim_left (pre ++ s) ≡ trim_left s
unfolding trim_left is_space
trim_left-newlines [] s h = refl
trim_left-newlines (c ∷ pre) s (hc, h) = ground (arith, trim_left-newlines pre s h)

trim_left-stop :
    (s z : Text) (d : ℕ) → is_space d ≡ false → trim_left (s ++ d ∷ z) ≡ trim_left s ++ d ∷ z
unfolding trim_left
trim_left-stop [] z d h = ground arith
trim_left-stop (c ∷ s) z d h = elim (Bool-cases (is_space c)) [
  | inl e ↦ ground (arith, trim_left-stop s z d h)
  | inr e ↦ ground arith
]

trim_right-stop :
    (x body : Text) (d : ℕ)
    → is_space d ≡ false
    → trim_right (x ++ d ∷ body) ≡ x ++ d ∷ trim_right body
unfolding trim_right
trim_right-stop x body d h =
    ap (λ s. reverse (trim_left s))
      (reverse-append x (d ∷ body)
        ∙ ap (λ t. t ++ reverse x) (reverse-cons d body)
        ∙ append_assoc (reverse body) (d ∷ []) (reverse x))
    ∙ ap reverse (trim_left-stop (reverse body) (reverse x) d h)
    ∙ reverse-append (trim_left (reverse body)) (d ∷ reverse x)
    ∙ ap (λ t. t ++ reverse (trim_left (reverse body)))
        (reverse-cons d (reverse x) ∙ ap (λ t. t ++ d ∷ []) (reverse-reverse x))
    ∙ append_assoc x (d ∷ []) (reverse (trim_left (reverse body)))

cut_at-first :
    (sep : ℕ) (s t : Text) → All (λ c. c ≢ sep) s → cut_at sep (s ++ sep ∷ t) ≡ some (s, t)
unfolding cut_at
cut_at-first sep [] t h = ground arith
cut_at-first sep (c ∷ s) t (hc, h) = ground (arith, cut_at-first sep s t h)

token-start : (s t : Text) → IsToken s → s ≢ [] → trim_left (s ++ t) ≡ s ++ t
unfolding trim_left is_space
token-start [] t h n = absurd (n refl)
token-start (c ∷ s) t (hc, h) n = ground arith

trim_space-entry :
    (pre : Text) (c : Commit)
    → All (λ b. b ≡ 10) pre
    → IsPlain c
    → trim_space (pre ++ (c.hash ++ 31 ∷ c.body)) ≡ c.hash ++ 31 ∷ trim_right c.body
unfolding trim_space is_space
trim_space-entry pre c h (token, n, plain) =
    ap trim_right
      (trim_left-newlines pre (c.hash ++ 31 ∷ c.body) h ∙ token-start c.hash (31 ∷ c.body) token n)
    ∙ trim_right-stop c.hash c.body 31 refl

read_record-entry :
    (key pre : Text) (c : Commit)
    → All (λ b. b ≡ 10) pre
    → IsPlain c
    → read_record key (pre ++ (c.hash ++ 31 ∷ c.body))
      ≡ keep_key key (parse_applied_operation c.hash (trim_right c.body))
unfolding read_record
read_record-entry key pre c h (token, n, plain) =
    let apart = All-map c.hash (λ b (k : 32 < b). omega arith) token in
    ap (λ s. read_parts key (cut_at 31 s)) (trim_space-entry pre c h (token, n, plain))
    ∙ ap (read_parts key) (cut_at-first 31 c.hash (trim_right c.body) apart)
    ∙ ap (λ s. keep_key key (parse_applied_operation s (trim_right c.body)))
        (trim_space-token c.hash token)

entry-plain :
    (pre : Text) (c : Commit)
    → All (λ b. b ≡ 10) pre
    → IsPlain c
    → All (λ b. b ≢ 30) (pre ++ (c.hash ++ 31 ∷ c.body))
entry-plain pre c h (token, n, plain) =
    All-append (λ b. b ≢ 30) pre (c.hash ++ 31 ∷ c.body)
      (All-map pre (λ b (k : b ≡ 10). omega arith) h)
      (All-append (λ b. b ≢ 30) c.hash (31 ∷ c.body)
        (All-map c.hash (λ b (k : 32 < b). omega arith) token) (omega arith, plain))

trim_space-newlines : (pre : Text) → All (λ c. c ≡ 10) pre → trim_space pre ≡ []
unfolding trim_space trim_right trim_left
trim_space-newlines pre h =
    ap trim_space (sym (append-nil pre)) ∙ ap trim_right (trim_left-newlines pre [] h)

read_records-log :
    (key pre : Text) (commits : List Commit)
    → All (λ b. b ≡ 10) pre
    → All IsPlain commits
    → read_records key (split_on 30 (pre ++ log_output commits)) ≡ operations_with key commits
unfolding read_records read_record log_output operations_with
read_records-log key pre [] h a =
    ap (λ s. read_records key (split_on 30 s)) (append-nil pre)
    ∙ ap (read_records key) (split_on-plain 30 pre (All-map pre (λ b (k : b ≡ 10). omega arith) h))
    ∙ ap (λ s. read_parts key (cut_at 31 s) ++ []) (trim_space-newlines pre h)
read_records-log key pre (c ∷ commits) h (plain, a) =
    ap (λ s. read_records key (split_on 30 s)) (simp append_assoc)
    ∙ ap (read_records key) (
        split_on-append 30 (pre ++ (c.hash ++ 31 ∷ c.body)) (10 ∷ log_output commits)
          (entry-plain pre c h plain))
    ∙ ap (λ rest. read_record key (pre ++ (c.hash ++ 31 ∷ c.body)) ++ rest)
        (read_records-log key (10 ∷ []) commits (refl, tt) a)
    ∙ ap (λ found. found ++ operations_with key commits) (read_record-entry key pre c h plain)

-- The message of the commit reads as that operation, and the operation has the key.
unfoldable pub Records : Text → Commit → AppliedOperation → Type 0
Records key c a =
    (parse_applied_operation c.hash (trim_right c.body) ≡ some a) × (a.idempotency_key ≡ key)

-- No commit of the list records an operation under the key.
abbrev pub NoneRecords : Text → List Commit → Type 0
NoneRecords key commits = All (λ c. (a : AppliedOperation) → ¬ Records key c a) commits

-- What a search for a key in a history finds: nothing, and no commit records an operation under it;
-- one operation, which one commit records and no other; or an error, and two commits do.
pub data Finds (key : Text) : List Commit → Option (Option AppliedOperation) → Type 0 where
  nothing : {commits : List Commit} → NoneRecords key commits → Finds key commits (some none)
  alone :
      (before after : List Commit) (c : Commit) (a : AppliedOperation)
      → NoneRecords key before
      → Records key c a
      → NoneRecords key after
      → Finds key (before ++ c ∷ after) (some (some a))
  several :
      (before between after : List Commit) (c d : Commit) (a b : AppliedOperation)
      → Records key c a
      → Records key d b
      → Finds key (before ++ c ∷ (between ++ d ∷ after)) none

keep_key-Records :
    (key : Text) (c : Commit)
    → ((keep_key key (parse_applied_operation c.hash (trim_right c.body)) ≡ [])
        × ((a : AppliedOperation) → ¬ Records key c a))
      ⊎ ((a : AppliedOperation) × (keep_key key (parse_applied_operation c.hash (trim_right c.body))
            ≡ a ∷ [])
          × Records key c a)
unfolding keep_key Records
keep_key-Records key c = elim (Option-cases (parse_applied_operation c.hash (trim_right c.body))) [
  | inl e ↦ inl (ground arith, λ a (h, k). ground arith)
  | inr (a, e) ↦ elim (Bool-cases (a.idempotency_key == key)) [
    | inl e₁ ↦ inr (a, ground arith, (e, ground (arith, eq_iff a.idempotency_key key)))
    | inr e₁ ↦ inl (ground arith, λ b (h, k). ground (arith, eq_iff a.idempotency_key key))
  ]
]

-- Without an operation found, no commit records one.
operations_with-nil :
    (key : Text) (commits : List Commit)
    → operations_with key commits ≡ []
    → NoneRecords key commits
unfolding operations_with
operations_with-nil key [] h = tt
operations_with-nil key (c ∷ commits) h = elim (keep_key-Records key c) [
  | inl (e, apart) ↦ (apart, operations_with-nil key commits (rw e at h))
  | inr (a, e, r) ↦ absurd (cons≢nil (rw e at h))
]

-- The first operation found is recorded by a commit, the others behind it.
operations_with-cons :
    (key : Text) (commits : List Commit) (a : AppliedOperation) (rest : List AppliedOperation)
    → operations_with key commits ≡ a ∷ rest
    → (before : List Commit) × (c : Commit) × (after : List Commit) × (before ++ c ∷ after
        ≡ commits)
      × NoneRecords key before
      × Records key c a
      × (operations_with key after ≡ rest)
unfolding operations_with
operations_with-cons key [] a rest h = absurd (cons≢nil (sym h))
operations_with-cons key (c ∷ commits) a rest h = elim (keep_key-Records key c) [
  | inl (e, apart) ↦
      let (before, d, after, same, none_before, r, behind) =
        operations_with-cons key commits a rest (rw e at h) in
      (c ∷ before, d, after, ap (◌∷◌ c) same, (apart, none_before), r, behind)
  | inr (b, e, r) ↦
      let found : b ∷ operations_with key commits ≡ a ∷ rest = rw e at h in
      (
        [],
        c,
        commits,
        refl,
        tt,
        subst (Records key c) (head-eq_of_cons-eq found) r,
        tail-eq_of_cons-eq found,
      )
]

only_match-Finds :
    (key : Text) (commits : List Commit) (found : List AppliedOperation)
    → operations_with key commits ≡ found
    → Finds key commits (only_match found)
unfolding only_match
only_match-Finds key commits [] h = nothing (operations_with-nil key commits h)
only_match-Finds key commits (a ∷ []) h =
    let (before, c, after, same, none_before, r, behind) =
      operations_with-cons key commits a [] h in
    subst (λ cs. Finds key cs (some (some a))) same
      (alone before after c a none_before r (operations_with-nil key after behind))
only_match-Finds key commits (a ∷ b ∷ rest) h =
    let (before, c, after, same, _, r, behind) = operations_with-cons key commits a (b ∷ rest) h in
    let (between, d, last, same_after, _, r', _) = operations_with-cons key after b rest behind in
    subst (λ cs. Finds key cs none) (ap (λ cs. before ++ c ∷ cs) same_after ∙ same)
      (several before between last c d a b r r')

module _ {W : Type 0} (shell : Shell W) where
  open shell use {run}

  -- If Git prints the history as records of hash and message with their separators, then
  -- `FindAppliedOperation` returns the operation that just one commit records under the key,
  -- with that key and read from the message of that commit; nothing if no commit records one;
  -- and an error if two commits do; for a key of the accepted form, hashes without white space
  -- and messages without the record separator.
  pub git_find-log :
      (key : Text) (commits : List Commit) (w w₁ : W)
      → is_operation_key (trim_space key) ≡ true
      → All IsPlain commits
      → run (log_command (trim_space key)) w ≡ (printed (log_output commits), w₁)
      → ((git_find shell key w).1 ≡ w₁) × Finds (trim_space key) commits (git_find shell key w).0
  unfolding git_find
  git_find-log key commits w w₁ k a e =
      let found : git_find shell key w
          ≡ (only_match (operations_with (trim_space key) commits), w₁) =
        rw k (
          ap (λ x. (read_log shell (trim_space key) x.0, x.1)) e
          ∙ ap (λ found. (only_match found, w₁))
              (read_records-log (trim_space key) [] commits tt a)) in
      (
        ap (λ x. x.1) found,
        subst (Finds (trim_space key) commits) (sym (ap (λ x. x.0) found))
            (only_match-Finds (trim_space key) commits _ refl),
      )
