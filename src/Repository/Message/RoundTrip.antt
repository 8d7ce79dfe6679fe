-- ===== src/Repository/Message/RoundTrip.antt =====
-- internal/repository/transaction.go: a commit message, written and read.
use git_memo.Base.{
  ℕ, ◌<◌, ◌≡◌, ◌≢◌, refl, ap, ◌∙◌, true, false, some, List, [], ◌∷◌, arith, All, All-map, sort,
  sort-All,
}
use git_memo.Base.Text.{Text, text_le, is_empty, trim_space, split_on, join}
use git_memo.Base.TextLaws.{IsToken, trim_space-token, split_on-join, join-All}
use git_memo.Base.Result.{ok}
use git_memo.Repository.Message.{
  AppliedOperation, format_mutation_commit_message, parse_applied_operation, split_comma_list,
  replace_crlf, is_operation_key, is_sha256, message_lines, scan_lines, operation_of,
}
use git_memo.Repository.Message.Lines.{
  IsId, IsLineByte, StartsWithout, replace_crlf-plain, keep_parts-ids, split_comma_list-nil,
  operation_of-lines, scan_keys-plain, is_operation_key-IsToken, is_sha256-IsToken,
  message_lines-IsLine,
}

-- What the caller of `FormatMutationCommitMessage` passes: a subject on one line that begins with
-- another letter than the trailers do, and an operation and IDs that are words.
pub record IsWritable (subject : Text) (o : AppliedOperation) : Type 0 where
  pub subject_line : All IsLineByte (trim_space subject)
  pub subject_start : StartsWithout b'R' (trim_space subject)
  pub operation_word : IsToken o.operation
  pub operation_named : is_empty o.operation ≡ false
  pub primary_word : IsToken o.primary_memory_id
  pub target_word : IsToken o.target_memory_id
  pub changed_words : All IsId o.changed_memory_ids

join-IsToken : (ids : List Text) → All IsId ids → IsToken (join b',' ids)
join-IsToken ids h =
    join-All b',' (λ c. 32 < c) ids (omega arith) (All-map ids (λ s (k : IsId s). k.0) h)

join-nil : join b',' [] ≡ []
unfolding join
join-nil = refl

is_empty-join :
    (c : ℕ) (id : Text) (ids : List Text) → is_empty (join b',' ((c ∷ id) ∷ ids)) ≡ false
unfolding is_empty join
is_empty-join c id [] = refl
is_empty-join c id (_ ∷ ids) = refl

split_comma_list-join : (ids : List Text) → All IsId ids → split_comma_list (join b',' ids) ≡ ids
unfolding split_comma_list
split_comma_list-join [] h = rw join-nil split_comma_list-nil
split_comma_list-join ([] ∷ ids) (h, hs) = absurd (h.2 refl)
split_comma_list-join ((c ∷ id) ∷ ids) h =
    let word = trim_space-token (join b',' ((c ∷ id) ∷ ids)) (join-IsToken ((c ∷ id) ∷ ids) h) in
    let parts =
      split_on-join b',' (c ∷ id) ids (All-map ((c ∷ id) ∷ ids) (λ s (k : IsId s). k.1) h) in
    ground (arith, is_empty-join c id ids, word, parts, keep_parts-ids ((c ∷ id) ∷ ids) h)

-- The lines of a message come back from the message.
split_on-message :
    (subject : Text) (o : AppliedOperation) (ids : List Text)
    → All (All IsLineByte) (message_lines subject o ids)
    → split_on 10 (replace_crlf (join 10 (message_lines subject o ids)))
      ≡ message_lines subject o ids
unfolding message_lines
split_on-message subject o ids h =
    ap (split_on 10) (
      replace_crlf-plain _ (
        join-All 10 (λ c. c ≢ 13) (message_lines subject o ids) (omega arith)
          (All-map (message_lines subject o ids)
            (λ line (k : All IsLineByte line). All-map line (λ c (m : IsLineByte c). m.1) k) h)))
    ∙ split_on-join 10 _ _ (
        All-map (message_lines subject o ids)
          (λ line (k : All IsLineByte line). All-map line (λ c (m : IsLineByte c). m.0) k) h)

parse_applied_operation_lem :
    (commit message : Text)
    → parse_applied_operation commit message
      ≡ operation_of commit (scan_lines (split_on 10 (replace_crlf message)) [])
unfolding parse_applied_operation
parse_applied_operation_lem commit message = refl

-- What a formatted message is, and what was checked of the operation.
format-eq-ok :
    (subject : Text) (o : AppliedOperation) {message : Text}
    → format_mutation_commit_message subject o ≡ ok message
    → (is_operation_key o.idempotency_key ≡ true)
      × (is_sha256 o.request_sha256 ≡ true)
      × (message
          ≡ join 10 (message_lines (trim_space subject) o (sort text_le o.changed_memory_ids)))
unfolding format_mutation_commit_message
format-eq-ok subject o h = ground arith

-- A commit message that `FormatMutationCommitMessage` wrote for an operation of plain words,
-- under a subject of one line that does not begin with R, parses as that operation with the
-- hash of the commit and the changed memory IDs sorted.
pub parse-format :
    (commit subject : Text) (o : AppliedOperation) (message : Text)
    → IsWritable subject o
    → format_mutation_commit_message subject o ≡ ok message
    → parse_applied_operation commit message
      ≡ some (record o { commit = commit; changed_memory_ids = sort text_le o.changed_memory_ids })
unfolding message_lines
parse-format commit subject o message w h =
    parse_applied_operation_lem commit message
    ∙ ap (λ m. operation_of commit (scan_lines (split_on 10 (replace_crlf m)) [])) written.2
    ∙ ap (λ lines. operation_of commit (scan_lines lines []))
        (split_on-message (trim_space subject) o ids (
          message_lines-IsLine (trim_space subject) o ids w.subject_line key sha
            (rw (trim_space-token o.operation w.operation_word) w.operation_word) w.primary_word
            w.target_word (join-IsToken ids words)))
    ∙ operation_of-lines commit (trim_space subject) o.idempotency_key o.request_sha256 o.operation
        written.0 written.1 (trim_space-token _ key) (trim_space-token _ sha)
        (trim_space-token _ w.operation_word) (scan_keys-plain _ w.subject_start) w.operation_named
        o.primary_memory_id o.target_memory_id ids (trim_space-token _ w.primary_word)
        (trim_space-token _ w.target_word) (trim_space-token _ (join-IsToken ids words))
        (split_comma_list-join ids words)
  where
    written :
        (is_operation_key o.idempotency_key ≡ true)
        × (is_sha256 o.request_sha256 ≡ true)
        × (message
            ≡ join 10 (message_lines (trim_space subject) o (sort text_le o.changed_memory_ids)))
    written = format-eq-ok subject o h

    ids : List Text
    ids = sort text_le o.changed_memory_ids

    words : All IsId ids
    words = sort-All IsId text_le o.changed_memory_ids w.changed_words

    key : IsToken o.idempotency_key
    key = is_operation_key-IsToken o.idempotency_key written.0

    sha : IsToken o.request_sha256
    sha = is_sha256-IsToken o.request_sha256 written.1
