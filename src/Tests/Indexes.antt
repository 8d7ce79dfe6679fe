-- ===== src/Tests/Indexes.antt =====
-- Index files, with a codec that writes lists of texts as bytes moved out of the way of its signs.
use git_memo.Base.Dict.{insert}
use git_memo.Index.Chunks.{non_nil, id_chunk_path, chunk_items}
use git_memo.Base.Decimal.{decimal_six, decimal}
use git_memo.Index.Codec.{marshal_line}
use git_memo.Base.{
  ℕ, ◌+◌, ◌-◌, ◌≤◌, false, ◌≡◌, refl, zero, suc, sym, ap, ◌∙◌, All, Option, none, some, List, [],
  ◌∷◌, ◌++◌, arith, nat_eq, if◌then◌else◌, length,
}
use git_memo.Base.Int.{ℤ, pos, two_63}
use git_memo.Base.Text.{Text, text, ◌==◌}
use git_memo.Index.Codec.{Codec, IsLawfulOn}
use git_memo.Index.Chunks.{IdList, TermPosting, TermIndexValue, Files, render_chunked_id_list}
use git_memo.Index.Chunks.RoundTrip.{IsAscii, IsKept, Loads, load-render_chunked_id_list}

unfoldable pub write_text : Text → Text → Text
write_text [] rest = 5 ∷ rest
write_text (c ∷ s) rest = (c + 11) ∷ write_text s rest

unfoldable pub write_texts : List Text → Text
unfolding write_text
write_texts [] = []
write_texts (s ∷ rest) = write_text s (write_texts rest)

unfoldable pub push_byte : ℕ → List Text → List Text
push_byte c [] = (c ∷ []) ∷ []
push_byte c (s ∷ rest) = (c ∷ s) ∷ rest

unfoldable pub read_texts : Text → List Text
unfolding push_byte
read_texts [] = []
read_texts (c ∷ s) =
    let rest = read_texts s in
    if nat_eq c 10 then [] else if nat_eq c 5 then [] ∷ rest else push_byte (c - 11) rest

read-write_text :
    (s rest t : Text) → read_texts (write_text s rest ++ t) ≡ s ∷ read_texts (rest ++ t)
unfolding read_texts write_text push_byte
read-write_text [] rest t = refl
read-write_text (c ∷ s) rest t = ground (arith, read-write_text s rest t)

pub read-write_texts : (texts : List Text) → read_texts (write_texts texts ++ 10 ∷ []) ≡ texts
unfolding write_texts read_texts
read-write_texts [] = refl
read-write_texts (s ∷ rest) =
    read-write_text s (write_texts rest) (10 ∷ []) ∙ ap (◌∷◌ s) (read-write_texts rest)

abbrev texts_codec : Codec (List Text)
texts_codec = record { marshal = λ xs. some (write_texts xs); unmarshal = λ s. some (read_texts s) }

texts_codec-IsLawful : IsLawfulOn texts_codec (All IsAscii)
texts_codec-IsLawful = record {
  unmarshal-marshal = λ a bytes p h.
      let written : write_texts a ≡ bytes = ground arith in
      ap (λ b. some (read_texts (b ++ 10 ∷ []))) (sym written) ∙ ap some (read-write_texts a);
}

-- A descriptor that holds its list, and one of chunks.
write_fields : ℤ → Option (List Text) → ℤ → ℤ → Option Text
unfolding write_texts
write_fields (pos n) (some xs) (pos zero) (pos zero) = some (0 ∷ n ∷ write_texts xs)
write_fields (pos n) none (pos size) (pos chunks) = some (1 ∷ n ∷ size ∷ chunks ∷ [])
write_fields _ _ _ _ = none

read_id_list : Text → Option IdList
unfolding read_texts
read_id_list (zero ∷ n ∷ s) =
    some
      (record { count = pos n; ids = some (read_texts s); chunk_size = pos 0; chunk_count = pos 0 })
read_id_list (suc zero ∷ n ∷ size ∷ chunks ∷ s) =
    some (record { count = pos n; ids = none; chunk_size = pos size; chunk_count = pos chunks })
read_id_list _ = none

abbrev id_list_codec : Codec IdList
id_list_codec = record {
  marshal = λ d. write_fields d.count d.ids d.chunk_size d.chunk_count;
  unmarshal = read_id_list;
}

read-write_fields :
    (count : ℤ) (ids : Option (List Text)) (size chunks : ℤ) (bytes : Text)
    → write_fields count ids size chunks ≡ some bytes
    → read_id_list (bytes ++ 10 ∷ [])
      ≡ some (record { count = count; ids = ids; chunk_size = size; chunk_count = chunks })
unfolding write_fields read_id_list
read-write_fields (pos n) (some xs) (pos zero) (pos zero) bytes h =
    let written : 0 ∷ n ∷ write_texts xs ≡ bytes = ground arith in
    ap (λ b. read_id_list (b ++ 10 ∷ [])) (sym written)
    ∙ ap
        (λ ts.
          some (record { count = pos n; ids = some ts; chunk_size = pos 0; chunk_count = pos 0 }))
        (read-write_texts xs)
read-write_fields (pos n) none (pos size) (pos chunks) bytes h =
    let written : 1 ∷ n ∷ size ∷ chunks ∷ [] ≡ bytes = ground arith in
    ap (λ b. read_id_list (b ++ 10 ∷ [])) (sym written)
read-write_fields _ _ _ _ bytes h = ground arith

id_list_codec-IsLawful : IsLawfulOn id_list_codec IsKept
id_list_codec-IsLawful = record {
  unmarshal-marshal =
      λ d bytes p h. read-write_fields d.count d.ids d.chunk_size d.chunk_count bytes h;
}

-- One ID more than a chunk holds.
repeat_id : ℕ → List Text
repeat_id zero = []
repeat_id (suc n) = text "a" ∷ repeat_id n

repeat_id-length : (n : ℕ) → length (repeat_id n) ≡ n
unfolding repeat_id
repeat_id-length zero = refl
repeat_id-length (suc n) = omega (arith, repeat_id-length n)

repeat_id-IsAscii : (n : ℕ) → All IsAscii (repeat_id n)
unfolding repeat_id
repeat_id-IsAscii zero = tt
repeat_id-IsAscii (suc n) = ((omega arith, tt), repeat_id-IsAscii n)

many_ids : List Text
many_ids = repeat_id 1025

many_ids-short : length many_ids + 1024 ≤ two_63
unfolding many_ids
many_ids-short = omega (arith, repeat_id-length 1025)

many_ids-IsAscii : All IsAscii many_ids
unfolding many_ids
many_ids-IsAscii = repeat_id-IsAscii 1025

-- Two chunks, and the descriptor behind them.
many_files : Files
many_files =
    (text "index/by-topic/tea/000000.json", write_texts (repeat_id 1024) ++ 10 ∷ [])
    ∷ (text "index/by-topic/tea/000001.json", write_texts (repeat_id 1) ++ 10 ∷ [])
    ∷ (text "index/by-topic/tea.json", 1 ∷ 1025 ∷ 1024 ∷ 2 ∷ 10 ∷ [])
    ∷ []

many_ids_test :
    render_chunked_id_list id_list_codec texts_codec []
      (text "index/" ++ text "by-topic")
      (text "tea")
      many_ids
    ≡ some many_files
unfolding many_ids many_files render_chunked_id_list insert write_fields non_nil marshal_line
    repeat_id ◌==◌ id_chunk_path decimal_six decimal chunk_items
many_ids_test = refl

load-render_chunked_id_list_example :
    Loads id_list_codec texts_codec id_list_codec-IsLawful texts_codec-IsLawful many_files
      (text "by-topic")
      (text "tea")
      many_ids
load-render_chunked_id_list_example =
    load-render_chunked_id_list id_list_codec texts_codec id_list_codec-IsLawful
      texts_codec-IsLawful [] (text "by-topic") (text "tea") many_ids many_files many_ids-IsAscii
      many_ids-short many_ids_test

abbrev postings_codec : Codec (List TermPosting)
postings_codec = record { marshal = λ xs. none; unmarshal = λ s. none }

abbrev two_postings : List TermPosting
two_postings =
    record { id = text "a"; score = pos 3 } ∷ record { id = text "b"; score = pos 1 } ∷ []

abbrev tea_value : TermIndexValue
tea_value = record {
  document_frequency = pos 2;
  suppressed = false;
  postings = some two_postings;
  chunk_size = pos 0;
  chunk_count = pos 0;
}
