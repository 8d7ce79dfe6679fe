-- ===== src/Index/Chunks/RoundTrip.antt =====
-- internal/indexer/chunks.go: ID lists and the postings of a term, written and read.
use mathlib.Core.List.{append_assoc, append_cancel_left, append_cancel_right, head-eq_of_cons-eq}
use git_memo.Base.{
  ℕ, ◌+◌, ◌*◌, ◌/◌, ◌≤◌, ◌<◌, ◌≡◌, ◌≢◌, refl, sym, subst, All, ◌∙◌, inl, inr, Option, none, some,
  List, [], ◌∷◌, ◌++◌, length, take-all, Option-cases, Bool-cases, leb, arith,
}
use git_memo.Base.Text.{Text, text, eq_iff, eq_refl}
use git_memo.Base.Int.{ℤ, pos, negsuc, two_63}
use git_memo.Base.Decimal.{decimal_six, decimal_six-injective}
use git_memo.Base.Dict.{lookup, lookup-insert}
use git_memo.Base.Result.{ok}
use git_memo.Index.Codec.{Codec, IsLawfulOn, marshal_line, unmarshal-marshal_line}
use git_memo.Index.Chunks.{
  Files, IdList, chunk_count, rounds, non_nil, render_chunks, load_items, id_chunk_path,
  render_chunked_id_list, load_chunked_id_list, render_descriptor,
}
use git_memo.Index.Chunks.Loops.{load-render_chunks}

-- The int arithmetic of `chunkCount` is exact for every slice that fits in memory.
chunk_count-eq :
    (n : ℕ) → 0 < n → n + 1024 ≤ two_63 → chunk_count (pos n) 1024 ≡ pos ((n + 1023) / 1024)
unfolding chunk_count
chunk_count-eq n h fits = ground arith

module _ {A : Type 0} (path : ℕ → Text) (codec : Codec (List A)) (read : Text → Option Text) where
  load_items-inline :
      (items : List A)
      → load_items path codec read (pos (length items)) (non_nil items) (pos 0) (pos 0) ≡ ok items
  unfolding load_items non_nil
  load_items-inline [] = refl
  load_items-inline (x ∷ items) = ground arith

  load_items-chunked :
      {Q : A → Type 0}
      → IsLawfulOn codec (All Q)
      → ((i j : ℕ) → path i ≡ path j → i ≡ j)
      → (items : List A) (files out : Files) → All Q items
      → 0 < length items
      → length items + 1024 ≤ two_63
      → render_chunks path codec items 0 (rounds (chunk_count (pos (length items)) 1024)) files
        ≡ some out
      → ((j : ℕ) → read (path j) ≡ lookup (path j) out)
      → load_items path codec read
          (pos (length items))
          none
          (pos 1024)
          (chunk_count (pos (length items)) 1024)
        ≡ ok items
  unfolding load_items
  load_items-chunked lawful inj items files out each some_items fits h same =
      let n = length items in
      let chunks = chunk_count-eq n some_items fits in
      let loaded =
        load-render_chunks path codec lawful inj items 0 ((n + 1023) / 1024) files out read [] each
          (omega arith) (rw chunks at h) (λ j le. same j) in
      rw chunks (ground (arith, loaded, take-all ((n + 1023) / 1024 * 1024) items (omega arith)))

json_name-injective :
    (prefix : Text) (i j : ℕ)
    → prefix ++ decimal_six i ++ text ".json" ≡ prefix ++ decimal_six j ++ text ".json"
    → i ≡ j
json_name-injective prefix i j e =
    decimal_six-injective i j
      (append_cancel_left prefix _ _ (append_cancel_right _ _ (text ".json") e))

id_chunk_path-injective :
    (dir key : Text) (i j : ℕ) → id_chunk_path dir key i ≡ id_chunk_path dir key j → i ≡ j
unfolding id_chunk_path
id_chunk_path-injective dir key = json_name-injective (dir ++ text "/" ++ key ++ text "/")

-- A chunk's file lies in a folder beside the file of its key.
id_chunk_path-ne :
    (dir key : Text) (i : ℕ) → id_chunk_path dir key i ≢ dir ++ text "/" ++ key ++ text ".json"
unfolding id_chunk_path
id_chunk_path-ne dir key i e =
    let base = dir ++ text "/" ++ key in
    let tails : text "/" ++ (decimal_six i ++ text ".json") ≡ text ".json" =
      append_cancel_left base _ _ (
        sym (append_assoc base (text "/") (decimal_six i ++ text ".json"))
        ∙ sym (append_assoc (base ++ text "/") (decimal_six i) (text ".json"))
        ∙ e) in
    absurd (omega (arith, head-eq_of_cons-eq tails))

abbrev pub IsAscii : Text → Type 0
IsAscii s = All (λ c. c < 128) s

abbrev IsInt64 : ℤ → Type 0
IsInt64 (pos n) = n < two_63
IsInt64 (negsuc n) = n < two_63

-- The values of `idList` that JSON keeps: `omitempty` leaves out an empty slice as well as a nil one,
-- an int has 64 bits, and a byte that is not in UTF-8 would be replaced.
pub record IsKept (d : IdList) : Type 0 where
  pub no_empty : d.ids ≢ some []
  pub ascii : (ids : List Text) → d.ids ≡ some ids → All IsAscii ids
  pub count_fits : IsInt64 d.count
  pub size_fits : IsInt64 d.chunk_size
  pub chunks_fit : IsInt64 d.chunk_count

non_nil-ne : {A : Type 0} (xs : List A) → non_nil xs ≢ some []
unfolding non_nil
non_nil-ne [] e = ground arith
non_nil-ne (x ∷ xs) e = ground arith

non_nil-eq : {A : Type 0} (xs ys : List A) → non_nil xs ≡ some ys → xs ≡ ys
unfolding non_nil
non_nil-eq [] ys e = ground arith
non_nil-eq (x ∷ xs) ys e = ground arith

module _ (list_codec : Codec IdList) (chunk_codec : Codec (List Text))
    (list_lawful : IsLawfulOn list_codec IsKept)
    (chunk_lawful : IsLawfulOn chunk_codec (All IsAscii)) where
  -- What a reader of the written files finds under the key.
  abbrev pub Loads : Files → Text → Text → List Text → Type 0
  Loads out directory key ids =
      (line : Text) × (descriptor : IdList) × (lookup
          ((text "index/" ++ directory) ++ text "/" ++ key ++ text ".json") out
        ≡ some line)
      × (list_codec.unmarshal line ≡ some descriptor)
      × (load_chunked_id_list chunk_codec (λ p. lookup p out) directory key descriptor ≡ ok ids)

  lookup-render_descriptor :
      (k : Text) (files out : Files) (dir key : Text) (descriptor : IdList)
      → dir ++ text "/" ++ key ++ text ".json" ≢ k
      → render_descriptor list_codec chunk_codec files dir key descriptor ≡ some out
      → lookup k out ≡ lookup k files
  unfolding render_descriptor
  lookup-render_descriptor k files out dir key descriptor apart h =
      let place = dir ++ text "/" ++ key ++ text ".json" in
      elim (Option-cases (marshal_line list_codec descriptor)) [
        | inl failed ↦ ground arith
        | inr (line, done) ↦ ground (arith, lookup-insert place k line files, eq_iff place k)
      ]

  Loads-descriptor :
      (files out : Files) (directory key : Text) (ids : List Text) (descriptor : IdList)
      → render_descriptor list_codec chunk_codec files (text "index/" ++ directory) key descriptor
        ≡ some out
      → load_chunked_id_list chunk_codec (λ p. lookup p out) directory key descriptor ≡ ok ids
      → IsKept descriptor
      → Loads out directory key ids
  unfolding render_descriptor
  Loads-descriptor files out directory key ids descriptor h loaded kept =
      let place = (text "index/" ++ directory) ++ text "/" ++ key ++ text ".json" in
      elim (Option-cases (marshal_line list_codec descriptor)) [
        | inl failed ↦ ground arith
        | inr (line, done) ↦ (
          line,
          descriptor,
          ground (arith, lookup-insert place place line files, eq_refl place),
          unmarshal-marshal_line list_codec list_lawful descriptor line kept done,
          loaded,
        )
      ]

  -- The files that `renderChunkedIDList` adds hold, under the path of the key, a descriptor
  -- from which `loadChunkedIDList` reads back the list, inline or in chunks, for ASCII IDs, a
  -- list whose length with one chunk more is at most 2^63, and JSON that reads back the chunks
  -- of ASCII IDs and the descriptors whose slice is not empty without being nil.
  pub load-render_chunked_id_list :
      (files : Files) (directory key : Text) (ids : List Text) (out : Files)
      → All IsAscii ids
      → length ids + 1024 ≤ two_63
      → render_chunked_id_list list_codec chunk_codec files (text "index/" ++ directory) key ids
        ≡ some out
      → Loads out directory key ids
  unfolding render_chunked_id_list load_chunked_id_list
  load-render_chunked_id_list files directory key ids out ascii fits h =
      elim (Bool-cases (leb (length ids) 1024)) [
        | inl small ↦
            Loads-descriptor files out directory key ids _ (rw small at h)
              (load_items-inline path chunk_codec read ids)
              (record {
                no_empty = non_nil-ne ids;
                ascii = λ xs e. subst (All IsAscii) (non_nil-eq ids xs e) ascii;
                count_fits = omega arith;
                size_fits = omega arith;
                chunks_fit = omega arith;
              })
        | inr large ↦
            elim (Option-cases (
              render_chunks path chunk_codec ids 0 (rounds (chunk_count (pos (length ids)) 1024))
                files)) [
                  | inl failed ↦ ground arith
                  | inr (files', done) ↦
                      let last : render_descriptor list_codec chunk_codec files'
                            (text "index/" ++ directory) key chunked
                          ≡ some out =
                        ground arith in
                      Loads-descriptor files' out directory key ids chunked last
                        (load_items-chunked path chunk_codec read chunk_lawful
                          (id_chunk_path-injective (text "index/" ++ directory) key) ids files
                          files' ascii (ground arith) fits done
                          (λ j.
                            lookup-render_descriptor (path j) files' out
                              (text "index/" ++ directory) key chunked
                              (λ e. id_chunk_path-ne (text "index/" ++ directory) key j (sym e))
                              last))
                        (chunked-IsKept (ground arith) fits)
                ]
      ]
    where
      path : ℕ → Text
      path = id_chunk_path (text "index/" ++ directory) key

      read : Text → Option Text
      read p = lookup p out

      chunked : IdList
      chunked = record {
        count = pos (length ids);
        ids = none;
        chunk_size = pos 1024;
        chunk_count = chunk_count (pos (length ids)) 1024;
      }

      chunked-IsKept : 0 < length ids → length ids + 1024 ≤ two_63 → IsKept chunked
      chunked-IsKept some_ids room = record {
        no_empty = λ e. ground arith;
        ascii = λ xs e. absurd (ground arith);
        count_fits = omega arith;
        size_fits = omega arith;
        chunks_fit = subst IsInt64 (sym (chunk_count-eq (length ids) some_ids room)) (omega arith);
      }
