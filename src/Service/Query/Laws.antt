-- ===== src/Service/Query/Laws.antt =====
-- internal/memoryservice/service.go: what `Get` and `PrepareMutation` return.
use git_memo.Base.{
  Bool, true, false, not, ◌||◌, ◌≡◌, inl, inr, refl, sym, ap, subst, ◌∙◌, none, some, List, [], ◌∷◌,
  ◌++◌, arith, map, Bool-cases, Option-cases,
}
use git_memo.Base.Text.{Text, ◌==◌, eq_iff, is_empty, contains, trim_space, to_lower}
use git_memo.Base.Result.{ok, Result-cases, bind-ok, reject_if-ok}
use git_memo.Memory.Pattern.{is_memory_id}
use git_memo.Repository.Git.{RepoState}
use git_memo.Service.Store.{Files, Document, Platform, load_document}
use git_memo.Service.Store.Find.{canonical_document_at-some}
use git_memo.Service.Query.{
  Index, append_id, append_ids, append_candidates, append_results, legal_operations,
  PrepareMutationRequest, PreparedMutation, get_indexed, get_canonical, get, get_all,
  prepare_mutation, sidecar_of, read_limit,
}

-- No text occurs twice.
abbrev pub IsDistinct : List Text → Type 0
IsDistinct [] = Unit
IsDistinct (s ∷ rest) = (contains rest s ≡ false) × IsDistinct rest

contains-append :
    (xs : List Text) (y s : Text) → contains (xs ++ y ∷ []) s ≡ (contains xs s || y == s)
unfolding contains
contains-append [] y s = ground arith
contains-append (x ∷ xs) y s = ground (arith, contains-append xs y s)

IsDistinct-append :
    (xs : List Text) (y : Text) → IsDistinct xs → contains xs y ≡ false → IsDistinct (xs ++ y ∷ [])
unfolding contains
IsDistinct-append [] y d h = (refl, tt)
IsDistinct-append (x ∷ xs) y (n, d) h = (
  ground (arith, contains-append xs y x, eq_iff x y, eq_iff y x),
  IsDistinct-append xs y d (ground arith),
)

append_id-IsDistinct :
    (ids : List Text) (raw : Text) → IsDistinct ids → IsDistinct (append_id ids raw)
unfolding append_id
append_id-IsDistinct ids raw d =
    let id = to_lower (trim_space raw) in
    elim (Bool-cases (is_empty id || contains ids id)) [
      | inl e ↦ rw e d
      | inr e ↦ rw e (IsDistinct-append ids id d (ground arith))
    ]

append_ids-IsDistinct : (ids raws : List Text) → IsDistinct ids → IsDistinct (append_ids ids raws)
unfolding append_ids
append_ids-IsDistinct ids [] d = d
append_ids-IsDistinct ids (raw ∷ raws) d =
    append_ids-IsDistinct (append_id ids raw) raws (append_id-IsDistinct ids raw d)

append_candidates-IsDistinct :
    (ids raws out : List Text)
    → append_candidates ids raws ≡ ok out
    → IsDistinct ids
    → IsDistinct out
unfolding append_candidates
append_candidates-IsDistinct ids [] out h d = subst IsDistinct {x = ids} (ground arith) d
append_candidates-IsDistinct ids (raw ∷ raws) out h d =
    append_candidates-IsDistinct (append_id ids raw) raws out (ground arith)
      (append_id-IsDistinct ids raw d)

module _ (platform : Platform) (index : Index) (has_errors : Files → Bool) where
  get_canonical-identified :
      (files : Files) (id : Text) (doc : Document)
      → get_canonical platform index has_errors files id ≡ ok (some doc)
      → (doc.memory.id ≡ id) × (is_memory_id id ≡ true)
  unfolding get_canonical get_indexed
  get_canonical-identified files id doc h = elim (Bool-cases (is_memory_id id)) [
    | inr e ↦ ground arith
    | inl e ↦ elim (Option-cases (index.lookup_by_id files id)) [
      | inl e₁ ↦ ((canonical_document_at-some platform files id doc (ground arith)).identified, e)
      | inr (none, e₁) ↦
          ((canonical_document_at-some platform files id doc (ground arith)).identified, e)
      | inr (some path, e₁) ↦ elim (Result-cases (load_document platform files (sidecar_of path))) [
        | inr (code, e₂) ↦ ground arith
        | inl (found, e₂) ↦ (ground (arith, eq_iff found.memory.id id), e)
      ]
    ]
  ]

  -- A document that `Get` returns has the ID that was asked for, trimmed and in lower case, and
  -- that ID is a UUID, whether the index or the sidecars answered.
  pub get-identified :
      (files : Files) (raw : Text) (doc : Document)
      → get platform index has_errors files raw ≡ ok doc
      → (doc.memory.id ≡ to_lower (trim_space raw)) × (is_memory_id doc.memory.id ≡ true)
  unfolding get
  get-identified files raw doc h =
      elim (Result-cases
        (get_canonical platform index has_errors files (to_lower (trim_space raw)))) [
          | inr (e, e₁) ↦ ground arith
          | inl (none, e₁) ↦ ground arith
          | inl (some found, e₁) ↦
              let (same, is_id) =
                get_canonical-identified files (to_lower (trim_space raw)) found e₁ in
              let same_doc : found ≡ doc = ground arith in (ground arith, ground arith)
        ]

  get_all-identified :
      (files : Files) (ids : List Text) (docs : List Document)
      → get_all platform index has_errors files ids ≡ ok docs
      → map (λ doc. doc.memory.id) docs ≡ ids
  unfolding get_all
  get_all-identified files [] docs h =
      let same : [] ≡ docs = ground arith in ap (map (λ (doc : Document). doc.memory.id)) (sym same)
  get_all-identified files (id ∷ ids) docs h =
      elim (Result-cases (get_canonical platform index has_errors files id)) [
        | inr (e, e₁) ↦ ground arith
        | inl (none, e₁) ↦ ground arith
        | inl (some doc, e₁) ↦ elim (Result-cases (get_all platform index has_errors files ids)) [
          | inr (e, e₂) ↦ ground arith
          | inl (rest, e₂) ↦
              let same : doc ∷ rest ≡ docs = ground arith in
              ap (map (λ (doc : Document). doc.memory.id)) (sym same)
              ∙ ap (λ t. t ∷ map (λ (doc : Document). doc.memory.id) rest)
                  (get_canonical-identified files id doc e₁).0
              ∙ ap (◌∷◌ id) (get_all-identified files ids rest e₂)
        ]
      ]

  append_results-IsDistinct :
      (files : Files) (request : PrepareMutationRequest) (ids out : List Text)
      → append_results platform index has_errors files request.query request.limit ids ≡ ok out
      → IsDistinct ids
      → IsDistinct out
  unfolding append_results
  append_results-IsDistinct files request ids out h d =
      let query = trim_space request.query in
      elim (Bool-cases (is_empty query)) [
        | inl e ↦ subst IsDistinct {x = ids} (ground arith) d
        | inr e ↦ elim (Option-cases (read_limit request.limit)) [
          | inl e₁ ↦ ground arith
          | inr (n, e₁) ↦ elim (Option-cases (index.search files query n)) [
            | inl e₂ ↦ ground arith
            | inr (found, e₂) ↦
                subst IsDistinct {x = append_ids ids found} (ground arith)
                  (append_ids-IsDistinct ids found d)
          ]
        ]
      ]

  -- What `PrepareMutation` returns was read from a clean repository without validation errors
  -- at the revision it names, holds no two candidates with the same memory ID, and names the
  -- legal operations of those candidates.
  pub prepare_mutation-IsDistinct :
      (st : RepoState) (files : Files) (request : PrepareMutationRequest)
      (prepared : PreparedMutation)
      → prepare_mutation platform index has_errors (some st) files request ≡ ok prepared
      → (st.clean ≡ true)
        × (has_errors files ≡ false)
        × (prepared.expected_revision ≡ st.revision)
        × (prepared.legal ≡ legal_operations prepared.candidates)
        × IsDistinct (map (λ doc. doc.memory.id) prepared.candidates)
  unfolding prepare_mutation
  prepare_mutation-IsDistinct st files request prepared h =
      let (clean, h₁) = reject_if-ok (not st.clean) _ h in
      let (valid, h₂) = reject_if-ok (has_errors files) _ h₁ in
      let (ids, c, h₃) = bind-ok (append_candidates [] request.candidate_ids) h₂ in
      let (all_ids, r, h₄) =
        bind-ok (append_results platform index has_errors files request.query request.limit ids)
          h₃ in
      let (docs, g, h₅) = bind-ok (get_all platform index has_errors files all_ids) h₄ in
      let same : docs ≡ prepared.candidates = ground arith in
      let distinct =
        append_results-IsDistinct files request ids all_ids r
          (append_candidates-IsDistinct [] request.candidate_ids ids c tt) in
      (
        ground arith,
        valid,
        ground arith,
        ground arith,
        subst (λ ds. IsDistinct (map (λ (doc : Document). doc.memory.id) ds)) same
            (subst IsDistinct (sym (get_all-identified files all_ids docs g)) distinct),
      )
