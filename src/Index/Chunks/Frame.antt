-- ===== src/Index/Chunks/Frame.antt =====
-- What the two renderers leave as it was: a file whose path is in another folder.
use mathlib.Core.List.{append_assoc}
use git_memo.Base.{
  ◌≡◌, ◌≢◌, sym, ap, ◌∙◌, inl, inr, arith, ℕ, none, some, List, ◌++◌, Bool-cases, Option-cases, leb,
  length, take,
}
use git_memo.Base.Text.{Text, text, eq_iff}
use git_memo.Base.Int.{pos}
use git_memo.Base.Decimal.{decimal_six}
use git_memo.Base.Dict.{lookup, lookup-insert}
use git_memo.Index.Codec.{Codec, marshal_line}
use git_memo.Index.Chunks.{
  Files, IdList, TermPosting, TermIndexValue, id_chunk_path, render_descriptor, render_chunks,
  rounds, chunk_count, render_chunked_id_list, render_term_index_value, term_posting_chunk_path,
  should_suppress_term,
}
use git_memo.Index.Chunks.Loops.{lookup-render_chunks}

-- No path that begins like this is `k`.
abbrev pub IsApart : Text → Text → Type 0
IsApart prefix k = (t : Text) → prefix ++ t ≢ k

id_chunk_path-apart : (dir key k : Text) (i : ℕ) → IsApart dir k → id_chunk_path dir key i ≢ k
unfolding id_chunk_path
id_chunk_path-apart dir key k i apart e =
    apart (text "/" ++ (key ++ (text "/" ++ (decimal_six i ++ text ".json")))) (shape ∙ e)
  where
    shape :
        dir ++ (text "/" ++ (key ++ (text "/" ++ (decimal_six i ++ text ".json"))))
        ≡ dir ++ text "/" ++ key ++ text "/" ++ decimal_six i ++ text ".json"
    shape = simp append_assoc

module _ (list_codec : Codec IdList) (chunk_codec : Codec (List Text)) (k : Text) where
  render_descriptor-keeps :
      (files out : Files) (dir key : Text) (descriptor : IdList)
      → IsApart dir k
      → render_descriptor list_codec chunk_codec files dir key descriptor ≡ some out
      → lookup k out ≡ lookup k files
  unfolding render_descriptor
  render_descriptor-keeps files out dir key descriptor apart h =
      let place = dir ++ text "/" ++ key ++ text ".json" in
      let shape : dir ++ (text "/" ++ (key ++ text ".json")) ≡ place = simp append_assoc in
      let away : place ≢ k = λ e. apart (text "/" ++ (key ++ text ".json")) (shape ∙ e) in
      elim (Option-cases (marshal_line list_codec descriptor)) [
        | inl failed ↦ ground arith
        | inr (line, done) ↦ ground (arith, lookup-insert place k line files, eq_iff place k)
      ]

  pub render_chunked_id_list-keeps :
      (files out : Files) (dir key : Text) (ids : List Text)
      → IsApart dir k
      → render_chunked_id_list list_codec chunk_codec files dir key ids ≡ some out
      → lookup k out ≡ lookup k files
  unfolding render_chunked_id_list
  render_chunked_id_list-keeps files out dir key ids apart h =
      elim (Bool-cases (leb (length ids) 1024)) [
        | inl small ↦ render_descriptor-keeps files out dir key _ apart (rw small at h)
        | inr large ↦
            elim (Option-cases (
              render_chunks (id_chunk_path dir key) chunk_codec ids 0
                (rounds (chunk_count (pos (length ids)) 1024)) files)) [
                  | inl failed ↦ ground arith
                  | inr (files', done) ↦
                      let last : render_descriptor list_codec chunk_codec files' dir key (record {
                        count = pos (length ids);
                        ids = none;
                        chunk_size = pos 1024;
                        chunk_count = chunk_count (pos (length ids)) 1024;
                      })
                          ≡ some out =
                        ground arith in
                      render_descriptor-keeps files' out dir key _ apart last
                      ∙ lookup-render_chunks (id_chunk_path dir key) chunk_codec k ids 0
                          (rounds (chunk_count (pos (length ids)) 1024)) files
                          (λ j le. id_chunk_path-apart dir key k j apart) done
                ]
      ]

module _ (term_hash : Text → Text) (codec : Codec (List TermPosting)) (k : Text) where
  term_path-apart :
      (term : Text) (i : ℕ)
      → IsApart (text "index/term-postings/") k
      → term_posting_chunk_path term_hash term i ≢ k
  unfolding term_posting_chunk_path
  term_path-apart term i apart e =
      apart (take 2 hash ++ (text "/" ++ (hash ++ (text "/" ++ (decimal_six i ++ text ".json")))))
        (shape ∙ e)
    where
      hash : Text
      hash = term_hash term

      shape :
          text "index/term-postings/"
            ++ (take 2 hash
                ++ (text "/" ++ (hash ++ (text "/" ++ (decimal_six i ++ text ".json")))))
          ≡ text "index/term-postings/"
            ++ take 2 hash
            ++ text "/"
            ++ hash
            ++ text "/"
            ++ decimal_six i
            ++ text ".json"
      shape = simp append_assoc

  pub render_term_index_value-keeps :
      (files out : Files) (term : Text) (postings : List TermPosting) (value : TermIndexValue)
      → IsApart (text "index/term-postings/") k
      → render_term_index_value term_hash codec files term postings ≡ some (out, value)
      → lookup k out ≡ lookup k files
  unfolding render_term_index_value
  render_term_index_value-keeps files out term postings value apart h =
      let path = term_posting_chunk_path term_hash term in
      elim (Bool-cases (should_suppress_term (length postings))) [
        | inl suppressed ↦ ground arith
        | inr stored ↦ elim (Bool-cases (leb (length postings) 1024)) [
          | inl small ↦ ground arith
          | inr large ↦
              elim (Option-cases (
                render_chunks path codec postings 0
                  (rounds (chunk_count (pos (length postings)) 1024)) files)) [
                    | inl failed ↦ ground arith
                    | inr (files', done) ↦
                        let same : files' ≡ out = ground arith in
                        ap (lookup k) (sym same)
                        ∙ lookup-render_chunks path codec k postings 0
                            (rounds (chunk_count (pos (length postings)) 1024)) files
                            (λ j le. term_path-apart term j apart) done
                  ]
        ]
      ]
