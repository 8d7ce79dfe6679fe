-- ===== src/Repository/Message/Lines.antt =====
-- internal/repository/transaction.go: the lines of a commit message and what the scan finds in them.
use git_memo.Base.{
  ℕ, ◌<◌, ◌≡◌, ◌≢◌, refl, true, false, some, List, [], ◌∷◌, ◌++◌, arith, All, All-map, all_of-All,
  All-append,
}
use git_memo.Base.Text.{Text, text, ◌==◌, is_empty, trim_space, is_space, join, strip_prefix}
use git_memo.Base.TextLaws.{IsToken, trim_space-token}
use git_memo.Base.Dict.{Dict, lookup, insert}
use git_memo.Repository.Message.{
  AppliedOperation, split_comma_list, keep_parts, replace_crlf, is_operation_key, is_sha256,
  scan_keys, trailer_keys, message_lines, scan_lines, operation_of, trailer, optional_line,
  changed_line, is_key_byte, is_lower_hex,
}

-- A memory ID, or any other word without a comma.
abbrev pub IsId : Text → Type 0
IsId s = IsToken s × All (λ c. c ≢ b',') s × (s ≢ [])

pub replace_crlf-plain : (s : Text) → All (λ c. c ≢ 13) s → replace_crlf s ≡ s
unfolding replace_crlf
replace_crlf-plain [] h = refl
replace_crlf-plain (c ∷ []) h = refl
replace_crlf-plain (c ∷ d ∷ s) (hc, h) = ground (arith, replace_crlf-plain (d ∷ s) h)

pub keep_parts-ids : (ids : List Text) → All IsId ids → keep_parts ids ≡ ids
unfolding keep_parts
keep_parts-ids [] h = refl
keep_parts-ids ([] ∷ ids) ((a, b, c), h) = absurd (c refl)
keep_parts-ids ((c ∷ id) ∷ ids) ((token, b, n), h) =
    let kept : trim_space (c ∷ id) ≡ c ∷ id = trim_space-token (c ∷ id) token in
    ground (arith, keep_parts-ids ids h)

trim_space-v1 : trim_space (text "v1") ≡ text "v1"
unfolding trim_space is_space
trim_space-v1 = refl

pub split_comma_list-nil : split_comma_list [] ≡ []
unfolding split_comma_list trim_space
split_comma_list-nil = refl

module _ (commit subject key sha op : Text) (is_key : is_operation_key key ≡ true)
    (is_sha : is_sha256 sha ≡ true) (key_token : trim_space key ≡ key)
    (sha_token : trim_space sha ≡ sha) (op_token : trim_space op ≡ op)
    (plain : scan_keys trailer_keys subject [] ≡ []) (some_op : is_empty op ≡ false) where
  abbrev pub the_operation : Text → Text → List Text → AppliedOperation
  the_operation primary target changed = record {
    commit = commit;
    idempotency_key = key;
    request_sha256 = sha;
    operation = op;
    primary_memory_id = primary;
    target_memory_id = target;
    changed_memory_ids = changed;
  }

  pub operation_of-lines :
      (primary target : Text) (changed : List Text)
      → trim_space primary ≡ primary
      → trim_space target ≡ target
      → trim_space (join b',' changed) ≡ join b',' changed
      → split_comma_list (join b',' changed) ≡ changed
      → operation_of commit
          (scan_lines (message_lines subject (the_operation primary target changed) changed) [])
        ≡ some (the_operation primary target changed)
  unfolding operation_of scan_lines message_lines strip_prefix lookup insert trailer ◌==◌
  operation_of-lines [] [] [] hp ht hc hs = rw (
    plain, trim_space-v1, key_token, is_key, sha_token, is_sha, op_token, op_token, some_op,
    split_comma_list-nil,
  )
  operation_of-lines [] [] (id ∷ ids) hp ht hc hs = rw (
    plain, trim_space-v1, key_token, is_key, sha_token, is_sha, op_token, op_token, some_op, hc, hs,
  )
  operation_of-lines [] (t ∷ target) [] hp ht hc hs = rw (
    plain, trim_space-v1, key_token, is_key, sha_token, is_sha, op_token, op_token, some_op, ht,
    split_comma_list-nil,
  )
  operation_of-lines [] (t ∷ target) (id ∷ ids) hp ht hc hs = rw (
    plain, trim_space-v1, key_token, is_key, sha_token, is_sha, op_token, op_token, some_op, ht, hc,
    hs,
  )
  operation_of-lines (p ∷ primary) [] [] hp ht hc hs = rw (
    plain, trim_space-v1, key_token, is_key, sha_token, is_sha, op_token, op_token, some_op, hp,
    split_comma_list-nil,
  )
  operation_of-lines (p ∷ primary) [] (id ∷ ids) hp ht hc hs = rw (
    plain, trim_space-v1, key_token, is_key, sha_token, is_sha, op_token, op_token, some_op, hp, hc,
    hs,
  )
  operation_of-lines (p ∷ primary) (t ∷ target) [] hp ht hc hs = rw (
    plain, trim_space-v1, key_token, is_key, sha_token, is_sha, op_token, op_token, some_op, hp, ht,
    split_comma_list-nil,
  )
  operation_of-lines (p ∷ primary) (t ∷ target) (id ∷ ids) hp ht hc hs = rw (
    plain, trim_space-v1, key_token, is_key, sha_token, is_sha, op_token, op_token, some_op, hp, ht,
    hc, hs,
  )

-- A byte that neither ends a line nor is half of a CRLF pair.
abbrev pub IsLineByte : ℕ → Type 0
IsLineByte c = (c ≢ 10) × (c ≢ 13)

-- The first byte, if there is one, is not `r`.
abbrev pub StartsWithout : ℕ → Text → Type 0
StartsWithout r [] = Unit
StartsWithout r (c ∷ s) = c ≢ r

abbrev StartsWith : ℕ → Text → Type 0
StartsWith r [] = ⊥
StartsWith r (c ∷ s) = c ≡ r

scan_keys-apart :
    (keys : List Text) (c : ℕ) (s : Text) (trailers : Dict Text)
    → c ≢ b'R'
    → All (StartsWith b'R') keys
    → scan_keys keys (c ∷ s) trailers ≡ trailers
unfolding scan_keys
scan_keys-apart [] c s trailers h hs = refl
scan_keys-apart ([] ∷ keys) c s trailers h (hk, hs) = absurd hk
scan_keys-apart ((d ∷ key) ∷ keys) c s trailers h (hk, hs) =
    ground (arith, scan_keys-apart keys c s trailers)

pub scan_keys-plain : (s : Text) → StartsWithout b'R' s → scan_keys trailer_keys s [] ≡ []
unfolding scan_keys
scan_keys-plain [] h = refl
scan_keys-plain (c ∷ s) h = scan_keys-apart trailer_keys c s [] h (omega arith)

pub is_operation_key-IsToken : (s : Text) → is_operation_key s ≡ true → IsToken s
unfolding is_operation_key
is_operation_key-IsToken [] h = tt
is_operation_key-IsToken (c ∷ s) h =
    (ground arith, all_of-All is_key_byte s (λ d e. ground arith) (ground arith))

pub is_sha256-IsToken : (s : Text) → is_sha256 s ≡ true → IsToken s
unfolding is_sha256
is_sha256-IsToken s h = all_of-All is_lower_hex s (λ d e. ground arith) (ground arith)

pub IsToken-IsLine : (s : Text) → IsToken s → All IsLineByte s
IsToken-IsLine s h = All-map s (λ c (hc : 32 < c). omega arith) h

pub labelled-IsLine :
    (label value : Text) → All IsLineByte label → IsToken value → All IsLineByte (label ++ value)
labelled-IsLine label value h k = All-append IsLineByte label value h (IsToken-IsLine value k)

optional_line-IsLine :
    (label value : Text)
    → All IsLineByte label
    → IsToken value
    → All (All IsLineByte) (optional_line label value)
unfolding optional_line
optional_line-IsLine label [] h k = tt
optional_line-IsLine label (c ∷ s) h k = (labelled-IsLine label (c ∷ s) h k, tt)

changed_line-IsLine :
    (ids : List Text) → IsToken (join b',' ids) → All (All IsLineByte) (changed_line ids)
unfolding changed_line
changed_line-IsLine [] h = tt
changed_line-IsLine (id ∷ ids) h =
    (labelled-IsLine (text "Runethread-Changed-Memory-IDs: ") _ (omega arith) h, tt)

pub message_lines-IsLine :
    (subject : Text) (o : AppliedOperation) (ids : List Text)
    → All IsLineByte subject
    → IsToken o.idempotency_key
    → IsToken o.request_sha256
    → IsToken (trim_space o.operation)
    → IsToken o.primary_memory_id
    → IsToken o.target_memory_id
    → IsToken (join b',' ids)
    → All (All IsLineByte) (message_lines subject o ids)
unfolding message_lines
message_lines-IsLine subject o ids plain key sha op primary target joined = (
  plain,
  (
    tt,
    (
      omega arith,
      (
        labelled-IsLine (text "Runethread-Operation-ID: ") _ (omega arith) key,
        (
          labelled-IsLine (text "Runethread-Request-SHA256: ") _ (omega arith) sha,
          (labelled-IsLine (text "Runethread-Operation: ") _ (omega arith) op, trailing),
        ),
      ),
    ),
  ),
)
  where
    trailing : All (All IsLineByte) (
        optional_line (text "Runethread-Primary-Memory-ID: ") o.primary_memory_id
        ++ (optional_line (text "Runethread-Target-Memory-ID: ") o.target_memory_id
            ++ changed_line ids))
    trailing =
        All-append (All IsLineByte)
          (optional_line (text "Runethread-Primary-Memory-ID: ") o.primary_memory_id) _
          (optional_line-IsLine (text "Runethread-Primary-Memory-ID: ") _ (omega arith) primary)
          (All-append (All IsLineByte)
            (optional_line (text "Runethread-Target-Memory-ID: ") o.target_memory_id) _
            (optional_line-IsLine (text "Runethread-Target-Memory-ID: ") _ (omega arith) target)
            (changed_line-IsLine ids joined))
