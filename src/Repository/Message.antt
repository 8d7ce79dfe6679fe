-- ===== src/Repository/Message.antt =====
-- internal/repository/transaction.go: the commit message that records an applied operation, and
-- the parser that finds it again in the history.
pub mod Lines
pub mod RoundTrip
use git_memo.Base.{
  ℕ, Bool, true, false, not, ◌&&◌, ◌||◌, Option, none, some, List, [], ◌∷◌, ◌++◌, ltb, leb, nat_eq,
  if◌then◌else◌, length, all_of, sort, map,
}
use git_memo.Base.Text.{
  Text, text, ◌==◌, text_le, is_empty, trim_space, trim_left, trim_right, is_space, strip_prefix,
  split_on, join,
}
use git_memo.Base.Dict.{Dict, lookup, insert}
use git_memo.Base.Result.{Result, ok, err}

pub record AppliedOperation : Type 0 where
  pub commit : Text
  pub idempotency_key : Text
  pub request_sha256 : Text
  pub operation : Text
  pub primary_memory_id : Text
  pub target_memory_id : Text
  pub changed_memory_ids : List Text

pub data FormatError : Type 0 where
  empty_subject invalid_key invalid_sha256 : FormatError

is_digit : ℕ → Bool
is_digit c = leb b'0' c && leb c b'9'

is_alphanumeric : ℕ → Bool
unfolding is_digit
is_alphanumeric c = is_digit c || leb b'A' c && leb c b'Z' || leb b'a' c && leb c b'z'

is_key_byte : ℕ → Bool
unfolding is_alphanumeric
is_key_byte c =
    is_alphanumeric c || nat_eq c b'.' || nat_eq c b'_' || nat_eq c b':' || nat_eq c b'-'

-- `^[A-Za-z0-9][A-Za-z0-9._:-]{0,127}$`
unfoldable pub is_operation_key : Text → Bool
unfolding is_key_byte all_of
is_operation_key [] = false
is_operation_key (c ∷ s) = is_alphanumeric c && leb (length s) 127 && all_of is_key_byte s

is_lower_hex : ℕ → Bool
unfolding is_digit
is_lower_hex c = is_digit c || leb b'a' c && leb c b'f'

-- `^[0-9a-f]{64}$`
unfoldable pub is_sha256 : Text → Bool
unfolding is_lower_hex all_of
is_sha256 s = nat_eq (length s) 64 && all_of is_lower_hex s

optional_line : Text → Text → List Text
unfolding is_empty
optional_line label value = if is_empty value then [] else (label ++ value) ∷ []

changed_line : List Text → List Text
changed_line [] = []
changed_line (id ∷ ids) = (text "Runethread-Changed-Memory-IDs: " ++ join b',' (id ∷ ids)) ∷ []

-- The lines of the message, with the changed IDs sorted.
unfoldable pub message_lines : Text → AppliedOperation → List Text → List Text
unfolding optional_line changed_line
message_lines subject operation changed =
    subject
    ∷ []
    ∷ text "Runethread-Mutation: v1"
    ∷ (text "Runethread-Operation-ID: " ++ operation.idempotency_key)
    ∷ (text "Runethread-Request-SHA256: " ++ operation.request_sha256)
    ∷ (text "Runethread-Operation: " ++ trim_space operation.operation)
    ∷ (optional_line (text "Runethread-Primary-Memory-ID: ") operation.primary_memory_id
        ++ (optional_line (text "Runethread-Target-Memory-ID: ") operation.target_memory_id
            ++ changed_line changed))

-- `FormatMutationCommitMessage`
unfoldable pub format_mutation_commit_message : Text → AppliedOperation → Result FormatError Text
unfolding is_empty
format_mutation_commit_message subject operation =
    if is_empty (trim_space subject)
    then err empty_subject
    else if not (is_operation_key operation.idempotency_key)
    then err invalid_key
    else if not (is_sha256 operation.request_sha256)
    then err invalid_sha256
    else ok (
        join 10 (
          message_lines (trim_space subject) operation (sort text_le operation.changed_memory_ids)))

abbrev pub trailer_keys : List Text
trailer_keys =
    text "Runethread-Mutation"
    ∷ text "Runethread-Operation-ID"
    ∷ text "Runethread-Request-SHA256"
    ∷ text "Runethread-Operation"
    ∷ text "Runethread-Primary-Memory-ID"
    ∷ text "Runethread-Target-Memory-ID"
    ∷ text "Runethread-Changed-Memory-IDs"
    ∷ []

-- The inner loop: every key whose prefix the line has is set.
unfoldable pub scan_keys : List Text → Text → Dict Text → Dict Text
unfolding strip_prefix insert
scan_keys [] line trailers = trailers
scan_keys (key ∷ keys) line trailers =
    scan_keys keys line (elim (strip_prefix (key ++ text ": ") line) [
      | none ↦ trailers
      | some value ↦ insert key (trim_space value) trailers
    ])

unfoldable pub scan_lines : List Text → Dict Text → Dict Text
unfolding scan_keys
scan_lines [] trailers = trailers
scan_lines (line ∷ lines) trailers = scan_lines lines (scan_keys trailer_keys line trailers)

-- `strings.ReplaceAll(s, "\r\n", "\n")`
unfoldable pub replace_crlf : Text → Text
replace_crlf [] = []
replace_crlf (c ∷ []) = c ∷ []
replace_crlf (c ∷ d ∷ s) =
    let rest = replace_crlf (d ∷ s) in if nat_eq c 13 && nat_eq d 10 then rest else c ∷ rest

-- A missing key of a Go map of strings reads as "".
trailer : Text → Dict Text → Text
unfolding lookup
trailer key trailers = elim (lookup key trailers) [ none ↦ [] | some value ↦ value ]

unfoldable pub keep_parts : List Text → List Text
unfolding is_empty
keep_parts [] = []
keep_parts (part ∷ parts) =
    let rest = keep_parts parts in
    if is_empty (trim_space part) then rest else trim_space part ∷ rest

-- `splitCommaList`
unfoldable pub split_comma_list : Text → List Text
unfolding keep_parts split_on is_empty
split_comma_list value =
    if is_empty (trim_space value) then [] else keep_parts (split_on b',' value)

-- The end of `parseAppliedOperation`, from the trailers that were found.
unfoldable pub operation_of : Text → Dict Text → Option AppliedOperation
unfolding trailer
operation_of commit trailers =
    if not (trailer (text "Runethread-Mutation") trailers == text "v1")
      || not (is_operation_key (trailer (text "Runethread-Operation-ID") trailers))
      || not (is_sha256 (trailer (text "Runethread-Request-SHA256") trailers))
      || is_empty (trailer (text "Runethread-Operation") trailers)
    then none
    else some (record {
      commit = commit;
      idempotency_key = trailer (text "Runethread-Operation-ID") trailers;
      request_sha256 = trailer (text "Runethread-Request-SHA256") trailers;
      operation = trailer (text "Runethread-Operation") trailers;
      primary_memory_id = trailer (text "Runethread-Primary-Memory-ID") trailers;
      target_memory_id = trailer (text "Runethread-Target-Memory-ID") trailers;
      changed_memory_ids =
          split_comma_list (trailer (text "Runethread-Changed-Memory-IDs") trailers);
    })

-- `parseAppliedOperation`
unfoldable pub parse_applied_operation : Text → Text → Option AppliedOperation
unfolding operation_of scan_lines
parse_applied_operation commit message =
    operation_of commit (scan_lines (split_on 10 (replace_crlf message)) [])
