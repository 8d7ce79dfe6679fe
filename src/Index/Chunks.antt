-- ===== src/Index/Chunks.antt =====
-- internal/indexer/chunks.go: ID lists and term postings, inline or cut into chunk files.
mod Loops
pub mod RoundTrip
pub mod Frame
use mathlib.Core.Option
use git_memo.Base.{
  ℕ, zero, suc, ◌+◌, ◌-◌, ◌*◌, Bool, true, false, not, ◌||◌, Option, none, some, List, [], ◌∷◌,
  ◌++◌, ltb, leb, nat_eq, if◌then◌else◌, length, take, drop,
}
use git_memo.Base.Text.{Text, text, is_empty}
use git_memo.Base.Int.{ℤ, pos, negsuc, wrap, is_negative, int_eq, div_int}
use git_memo.Base.Decimal.{decimal_six}
use git_memo.Base.Dict.{Dict, insert}
use git_memo.Base.Result.{Result, ok, err}
use git_memo.Index.Codec.{Codec, marshal_line}

abbrev pub id_list_chunk_size : ℕ
id_list_chunk_size = 1024

abbrev pub term_posting_chunk_size : ℕ
term_posting_chunk_size = 1024

abbrev pub max_stored_term_postings : ℕ
max_stored_term_postings = 32768

-- Go's nil slice is `none` in the two `omitempty` fields.
pub record IdList : Type 0 where
  pub count : ℤ
  pub ids : Option (List Text)
  pub chunk_size : ℤ
  pub chunk_count : ℤ

pub record TermPosting : Type 0 where
  pub id : Text
  pub score : ℤ

pub record TermIndexValue : Type 0 where
  pub document_frequency : ℤ
  pub suppressed : Bool
  pub postings : Option (List TermPosting)
  pub chunk_size : ℤ
  pub chunk_count : ℤ

pub data LoadError : Type 0 where
  negative_count inline_with_chunks inline_count bad_metadata chunked_count suppressed_term :
      LoadError
  read_chunk parse_chunk chunk_length : ℕ → LoadError

-- Files to write: their bytes, by path relative to the repository's root.
abbrev pub Files : Type 0
Files = Dict Text

-- `chunkCount`, at a size that is positive.
unfoldable pub chunk_count : ℤ → ℕ → ℤ
unfolding div_int wrap
chunk_count (negsuc n) size = pos 0
chunk_count (pos n) size = if nat_eq n 0 then pos 0 else div_int (wrap (n + size - 1)) size

unfoldable pub min_int : ℕ → ℕ → ℕ
min_int a b = if ltb a b then a else b

-- `idChunkPath`. `filepath.Join` leaves clean parts as they are.
unfoldable pub id_chunk_path : Text → Text → ℕ → Text
id_chunk_path dir key index =
    dir ++ text "/" ++ key ++ text "/" ++ decimal_six index ++ text ".json"

unfoldable pub term_posting_chunk_path : (Text → Text) → Text → ℕ → Text
term_posting_chunk_path term_hash term index =
    let hash = term_hash term in
    text "index/term-postings/"
    ++ take 2 hash
    ++ text "/"
    ++ hash
    ++ text "/"
    ++ decimal_six index
    ++ text ".json"

unfoldable pub should_suppress_term : ℕ → Bool
should_suppress_term document_frequency = ltb max_stored_term_postings document_frequency

-- `n < m` between an int and a length.
unfoldable pub int_lt : ℤ → ℕ → Bool
int_lt (pos n) m = ltb n m
int_lt (negsuc n) m = true

-- `append([]T(nil), items...)` is nil if there are no items.
unfoldable pub non_nil : {A : Type 0} → List A → Option (List A)
non_nil [] = none
non_nil (x ∷ xs) = some (x ∷ xs)

-- The rounds of `for i := 0; i < n; i++`.
unfoldable pub rounds : ℤ → ℕ
rounds (pos n) = n
rounds (negsuc n) = 0

-- The slice `items[start:end]` of round `i`.
unfoldable pub chunk_items : {A : Type 0} → List A → ℕ → List A
unfolding min_int
chunk_items items i =
    let start = i * 1024 in
    let end = min_int (start + 1024) (length items) in take (end - start) (drop start items)

-- The two loops over chunks, for IDs and for postings alike.
module _ {A : Type 0} (path : ℕ → Text) (codec : Codec (List A)) where
  -- Chunks `i`, `i + 1`, … of the items, `n` of them.
  unfoldable pub render_chunks : List A → ℕ → ℕ → Files → Option Files
  render_chunks items i zero files = some files
  render_chunks items i (suc n) files = elim (marshal_line codec (chunk_items items i)) [
    | none ↦ none
    | some bytes ↦ render_chunks items (suc i) n (insert (path i) bytes files)
  ]

  unfoldable pub load_chunks : (Text → Option Text) → ℤ → ℕ → ℕ → List A → Result LoadError (List A)
  unfolding int_lt
  load_chunks read size i zero items = ok items
  load_chunks read size i (suc n) items = elim (read (path i)) [
    | none ↦ err (read_chunk i)
    | some bytes ↦ elim (codec.unmarshal bytes) [
      | none ↦ err (parse_chunk i)
      | some chunk ↦
          let rest = load_chunks read size (suc i) n (items ++ chunk) in
          if nat_eq (length chunk) 0 || int_lt size (length chunk)
          then err (chunk_length i)
          else rest
    ]
  ]

  -- What the two loaders do once the value is known to be chunked.
  load_chunked : (Text → Option Text) → ℤ → ℤ → ℤ → Result LoadError (List A)
  unfolding chunk_count int_eq rounds load_chunks
  load_chunked read count (negsuc size) chunks = err bad_metadata
  load_chunked read count (pos size) chunks =
      if nat_eq size 0 || not (int_eq chunks (chunk_count count size))
      then err bad_metadata
      else elim (load_chunks read (pos size) 0 (rounds chunks) []) [
        | err e ↦ err e
        | ok items ↦ if int_eq (pos (length items)) count then ok items else err chunked_count
      ]

  -- What they do with an inline slice, and with none.
  load_items : (Text → Option Text) → ℤ → Option (List A) → ℤ → ℤ → Result LoadError (List A)
  unfolding load_chunked
  load_items read count (some items) size chunks =
      if not (int_eq size (pos 0)) || not (int_eq chunks (pos 0))
      then err inline_with_chunks
      else if int_eq (pos (length items)) count
      then ok items
      else err inline_count
  load_items read count none size chunks =
      if int_eq count (pos 0) then ok [] else load_chunked read count size chunks

-- `renderChunkedIDList`: the files with those of one key added, or a failure to marshal.
module _ (list_codec : Codec IdList) (chunk_codec : Codec (List Text)) where
  render_descriptor : Files → Text → Text → IdList → Option Files
  unfolding marshal_line
  render_descriptor files dir key descriptor =
      Option.map (λ bytes. insert (dir ++ text "/" ++ key ++ text ".json") bytes files)
        (marshal_line list_codec descriptor)

  unfoldable pub render_chunked_id_list : Files → Text → Text → List Text → Option Files
  unfolding render_descriptor render_chunks chunk_count rounds
  render_chunked_id_list files dir key ids =
      if leb (length ids) id_list_chunk_size
      then render_descriptor files dir key (record {
        count = pos (length ids);
        ids = non_nil ids;
        chunk_size = pos 0;
        chunk_count = pos 0;
      })
      else let chunks = chunk_count (pos (length ids)) id_list_chunk_size in
        elim (render_chunks (id_chunk_path dir key) chunk_codec ids 0 (rounds chunks) files) [
          | none ↦ none
          | some files' ↦ render_descriptor files' dir key (record {
            count = pos (length ids);
            ids = none;
            chunk_size = pos id_list_chunk_size;
            chunk_count = chunks;
          })
        ]

-- `loadChunkedIDList`
module _ (chunk_codec : Codec (List Text)) where
  unfoldable pub load_chunked_id_list :
      (Text → Option Text) → Text → Text → IdList → Result LoadError (List Text)
  unfolding load_items is_negative
  load_chunked_id_list read directory key descriptor =
      if is_negative descriptor.count
      then err negative_count
      else load_items (id_chunk_path (text "index/" ++ directory) key) chunk_codec read
          descriptor.count descriptor.ids descriptor.chunk_size descriptor.chunk_count

-- `termHash` is SHA-256 in hexadecimal digits.
module _ (term_hash : Text → Text) (chunk_codec : Codec (List TermPosting)) where
  -- `renderTermIndexValue`
  unfoldable pub render_term_index_value :
      Files → Text → List TermPosting → Option (Files × TermIndexValue)
  unfolding render_chunks chunk_count rounds should_suppress_term
  render_term_index_value files term postings =
      let plain : TermIndexValue = record {
        document_frequency = pos (length postings);
        suppressed = false;
        postings = none;
        chunk_size = pos 0;
        chunk_count = pos 0;
      } in
      let chunks = chunk_count (pos (length postings)) term_posting_chunk_size in
      if should_suppress_term (length postings)
      then some (files, record plain { suppressed = true })
      else if leb (length postings) term_posting_chunk_size
      then some (files, record plain { postings = non_nil postings })
      else Option.map
          (λ files'. (
            files',
            record plain { chunk_size = pos term_posting_chunk_size; chunk_count = chunks },
          ))
          (render_chunks (term_posting_chunk_path term_hash term) chunk_codec postings 0
            (rounds chunks) files)

  -- `loadTermPostings`
  unfoldable pub load_term_postings :
      (Text → Option Text) → Text → TermIndexValue → Result LoadError (List TermPosting)
  unfolding load_items is_negative
  load_term_postings read term value =
      if is_negative value.document_frequency
      then err negative_count
      else if value.suppressed
      then err suppressed_term
      else load_items (term_posting_chunk_path term_hash term) chunk_codec read
          value.document_frequency value.postings value.chunk_size value.chunk_count
