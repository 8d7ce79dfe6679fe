-- ===== src/Index/Machine/Frame.antt =====
-- The ID shards are kept by all steps that come after them.
use mathlib.Core.List.{append_assoc}
use git_memo.Base.{
  ◌≡◌, ◌≢◌, sym, ap, ◌∙◌, inl, inr, arith, Option, some, List, [], ◌∷◌, ◌++◌, Option-cases, sort,
  All,
}
use git_memo.Base.Text.{Text, text, text_le, eq_iff}
use git_memo.Base.Dict.{Dict, lookup, insert, lookup-insert}
use git_memo.Index.Codec.{marshal_line}
use git_memo.Index.Chunks.{
  Files, TermPosting, TermIndexValue, render_chunked_id_list, render_term_index_value,
}
use git_memo.Index.Chunks.Frame.{
  IsApart, render_chunked_id_list-keeps, render_term_index_value-keeps,
}
use git_memo.Index.Machine.{
  Codecs, Catalog, posting_le, render_id_lists, render_terms, render_term_shards,
}
use git_memo.Index.Machine.Render.{run_steps, write_catalog}

-- A step that leaves the bytes of the path as they are.
abbrev pub Keeps : Text → (Files → Option Files) → Type 0
Keeps k step = (files out : Files) → step files ≡ some out → lookup k out ≡ lookup k files

pub run_steps-Keeps :
    (k : Text) (steps : List (Files → Option Files))
    → All (Keeps k) steps
    → Keeps k (run_steps steps)
unfolding run_steps
run_steps-Keeps k [] keeps files out h = ground arith
run_steps-Keeps k (step ∷ steps) (here, keeps) files out h = elim (Option-cases (step files)) [
  | inl failed ↦ absurd (ground arith)
  | inr (mid, done) ↦ run_steps-Keeps k steps keeps mid out (ground arith) ∙ here files mid done
]

pub insert-keeps :
    (place k bytes : Text) (files : Files)
    → place ≢ k
    → lookup k (insert place bytes files) ≡ lookup k files
insert-keeps place k bytes files away =
    ground (arith, lookup-insert place k bytes files, eq_iff place k)

module _ (codecs : Codecs) (k : Text) where
  pub render_id_lists-Keeps :
      (dir : Text) (values : Dict (List Text))
      → IsApart dir k
      → Keeps k (render_id_lists codecs dir values)
  unfolding render_id_lists
  render_id_lists-Keeps dir [] apart files out h = ground arith
  render_id_lists-Keeps dir ((key, ids) ∷ values) apart files out h =
      elim (Option-cases
        (render_chunked_id_list codecs.id_list codecs.id_chunk files dir key (sort text_le ids))) [
          | inl failed ↦ absurd (ground arith)
          | inr (mid, done) ↦
              render_id_lists-Keeps dir values apart mid out (ground arith)
              ∙ render_chunked_id_list-keeps codecs.id_list codecs.id_chunk k files mid dir key
                  (sort text_le ids) apart done
        ]

  module _ (term_hash : Text → Text) where
    render_terms-keeps :
        (terms : Dict (List TermPosting)) (files out : Files) (rendered : Dict TermIndexValue)
        → IsApart (text "index/term-postings/") k
        → render_terms codecs term_hash terms files ≡ some (out, rendered)
        → lookup k out ≡ lookup k files
    unfolding render_terms
    render_terms-keeps [] files out rendered apart h = ground arith
    render_terms-keeps ((term, postings) ∷ terms) files out rendered apart h =
        elim (Option-cases (
          render_term_index_value term_hash codecs.posting_chunk files term
            (sort posting_le postings))) [
              | inl failed ↦ absurd (ground arith)
              | inr ((mid, value), done) ↦
                  elim (Option-cases (render_terms codecs term_hash terms mid)) [
                    | inl failed ↦ absurd (ground arith)
                    | inr ((last, rest), done') ↦
                        let same : last ≡ out = ground arith in
                        ap (lookup k) (sym same)
                        ∙ render_terms-keeps terms mid last rest apart done'
                        ∙ render_term_index_value-keeps term_hash codecs.posting_chunk k files mid
                            term (sort posting_le postings) value apart done
                  ]
            ]

    pub render_term_shards-Keeps :
        (shards : Dict (Dict (List TermPosting)))
        → IsApart (text "index/term-postings/") k
        → IsApart (text "index/terms/") k
        → Keeps k (render_term_shards codecs term_hash shards)
    unfolding render_term_shards
    render_term_shards-Keeps [] postings_apart apart files out h = ground arith
    render_term_shards-Keeps ((bucket, terms) ∷ shards) postings_apart apart files out h =
        elim (Option-cases (render_terms codecs term_hash terms files)) [
          | inl failed ↦ absurd (ground arith)
          | inr ((mid, rendered), done) ↦ elim (Option-cases (marshal_line codecs.terms rendered)) [
            | inl failed ↦ absurd (ground arith)
            | inr (bytes, marshalled) ↦
                let place = text "index/terms/" ++ bucket ++ text ".json" in
                render_term_shards-Keeps shards postings_apart apart (insert place bytes mid) out
                  (ground arith)
                ∙ insert-keeps place k bytes mid (λ e.
                  apart (bucket ++ text ".json")
                    (sym (append_assoc (text "index/terms/") bucket (text ".json")) ∙ e))
                ∙ render_terms-keeps terms files mid rendered postings_apart done
          ]
        ]

    pub write_catalog-Keeps :
        (catalog : Catalog)
        → text "index/catalog.json" ≢ k
        → Keeps k (write_catalog codecs term_hash catalog)
    unfolding write_catalog
    write_catalog-Keeps catalog apart files out h =
        elim (Option-cases (marshal_line codecs.catalog catalog)) [
          | inl failed ↦ absurd (ground arith)
          | inr (bytes, done) ↦
              let same : insert (text "index/catalog.json") bytes files ≡ out = ground arith in
              ap (lookup k) (sym same)
              ∙ insert-keeps (text "index/catalog.json") k bytes files apart
        ]
