-- ===== src/Service/Store/Find.antt =====
-- internal/memoryservice/mutation.go: `canonicalDocumentAt`, the lookup of a document by its ID.
use git_memo.Base.{
  ◌≡◌, ◌≢◌, inl, inr, subst, Option, none, some, List, [], ◌∷◌, arith, All, Bool-cases,
  Option-cases,
}
use git_memo.Base.Text.{Text, ◌==◌, eq_iff}
use git_memo.Base.Dict.{lookup}
use git_memo.Base.Result.{ok, Result-cases}
use git_memo.Memory.{Memory, Record}
use git_memo.Service.Store.{
  Files, Document, Platform, load, load_records, load_all, load_document, find_match,
  canonical_document_at, discover_sidecars,
}

module _ (platform : Platform) where
  abbrev IsRead : Files → Record → Type 0
  IsRead files r = load platform files r.path ≡ some r.memory

  load_records-IsRead :
      (files : Files) (paths : List Text) (records : List Record)
      → load_records platform files paths ≡ some records
      → All (IsRead files) records
  unfolding load_records
  load_records-IsRead files [] records h =
      let start : All (IsRead files) [] = tt in
      subst (All (IsRead files)) {x = []} (ground arith) start
  load_records-IsRead files (path ∷ paths) records h =
      elim (Option-cases (load platform files path)) [
        | inl e₁ ↦ ground arith
        | inr (m, e₁) ↦ elim (Option-cases (load_records platform files paths)) [
          | inl e₂ ↦ ground arith
          | inr (rest, e₂) ↦
              let grown : All (IsRead files) (record { path = path; memory = m } ∷ rest) =
                (e₁, load_records-IsRead files paths rest e₂) in
              subst (All (IsRead files)) {x = record { path = path; memory = m } ∷ rest}
                (ground arith) grown
        ]
      ]

  find_match-some :
      (P : Record → Type 0) (id : Text) (match : Option Record) (records : List Record) (r : Record)
      → All P records
      → ((m : Record) → match ≡ some m → P m × (m.memory.id ≡ id))
      → find_match platform id match records ≡ ok (some r)
      → P r × (r.memory.id ≡ id)
  unfolding find_match
  find_match-some P id match [] r a m h = m r (ground arith)
  find_match-some P id match (x ∷ records) r (px, a) m h = elim (Bool-cases (x.memory.id == id)) [
    | inr e ↦ find_match-some P id match records r a m (ground arith)
    | inl e ↦ elim (Option-cases match) [
      | inl e₁ ↦
          let here : P x × (x.memory.id ≡ id) = (px, ground (arith, eq_iff x.memory.id id)) in
          find_match-some P id (some x) records r a
            (λ y g. subst (λ y. P y × (y.memory.id ≡ id)) (ground arith) here) (ground arith)
      | inr (first, e₁) ↦ ground arith
    ]
  ]

  find_match-none :
      (id : Text) (match : Option Record) (records : List Record)
      → find_match platform id match records ≡ ok none
      → (match ≡ none) × All (λ r. r.memory.id ≢ id) records
  unfolding find_match
  find_match-none id match [] h = (ground arith, tt)
  find_match-none id match (x ∷ records) h = elim (Bool-cases (x.memory.id == id)) [
    | inr e ↦
        let rest = find_match-none id match records (ground arith) in
        (rest.0, (ground (arith, eq_iff x.memory.id id), rest.1))
    | inl e ↦ elim (Option-cases match) [
      | inl e₁ ↦
          let rest = find_match-none id (some x) records (ground arith) in
          absurd (ground (arith, rest.0))
      | inr (first, e₁) ↦ ground arith
    ]
  ]

  load_document-ok :
      (files : Files) (path : Text) (m : Memory) (doc : Document)
      → load platform files path ≡ some m
      → load_document platform files path ≡ ok doc
      → (doc.memory ≡ m)
        × (doc.sidecar_path ≡ path)
        × (doc.markdown_path ≡ m.content_path)
        × (lookup m.content_path files ≡ some doc.markdown)
  unfolding load_document
  load_document-ok files path m doc e h = elim (Option-cases (lookup m.content_path files)) [
    | inl e₁ ↦ ground arith
    | inr (bytes, e₁) ↦ (ground arith, ground arith, ground arith, ground arith)
  ]

  -- A document as `canonicalDocumentAt` returns it for an ID.
  pub record IsDocumentOf (files : Files) (id : Text) (doc : Document) : Type 0 where
    pub identified : doc.memory.id ≡ id
    pub read : load platform files doc.sidecar_path ≡ some doc.memory
    pub placed : doc.markdown_path ≡ doc.memory.content_path
    pub attached : lookup doc.markdown_path files ≡ some doc.markdown

  -- A document that `canonicalDocumentAt` returns for an ID has that ID, is what its sidecar
  -- reads as, lies at the content path of its memory, and has the bytes of that file as its
  -- Markdown.
  pub canonical_document_at-some :
      (files : Files) (id : Text) (doc : Document)
      → canonical_document_at platform files id ≡ ok (some doc)
      → IsDocumentOf files id doc
  unfolding canonical_document_at load_all
  canonical_document_at-some files id doc h = elim (Option-cases (load_all platform files)) [
    | inl e₁ ↦ ground arith
    | inr (records, e₁) ↦ elim (Result-cases (find_match platform id none records)) [
      | inr (e, e₂) ↦ ground arith
      | inl (none, e₂) ↦ ground arith
      | inl (some r, e₂) ↦ elim (Result-cases (load_document platform files r.path)) [
        | inr (e, e₃) ↦ ground arith
        | inl (found, e₃) ↦
            let same : found ≡ doc = ground arith in
            let known =
              find_match-some (IsRead files) id none records r
                (load_records-IsRead files (discover_sidecars files) records e₁)
                (λ m g. ground arith) e₂ in
            let loaded = load_document-ok files r.path r.memory doc known.0 (ground arith) in
            record {
              identified = ground (arith, known.1, loaded.0);
              read = ground (arith, known.0, loaded.0, loaded.1);
              placed = ground (arith, loaded.0, loaded.2);
              attached = ground (arith, loaded.2, loaded.3);
            }
      ]
    ]
  ]

  -- If `canonicalDocumentAt` finds no document for an ID, then every sidecar was read and none
  -- has that ID.
  pub canonical_document_at-none :
      (files : Files) (id : Text)
      → canonical_document_at platform files id ≡ ok none
      → (records : List Record) × (load_all platform files ≡ some records)
        × All (λ r. r.memory.id ≢ id) records
  unfolding canonical_document_at
  canonical_document_at-none files id h = elim (Option-cases (load_all platform files)) [
    | inl e₁ ↦ ground arith
    | inr (records, e₁) ↦ elim (Result-cases (find_match platform id none records)) [
      | inr (e, e₂) ↦ ground arith
      | inl (none, e₂) ↦ (records, e₁, (find_match-none id none records e₂).1)
      | inl (some r, e₂) ↦ elim (Result-cases (load_document platform files r.path)) [
        | inr (e, e₃) ↦ ground arith
        | inl (found, e₃) ↦ ground arith
      ]
    ]
  ]
