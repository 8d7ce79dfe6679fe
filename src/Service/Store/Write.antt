-- ===== src/Service/Store/Write.antt =====
-- internal/memoryservice/mutation.go: what `writeProposedDocument` writes, and what it and
-- `transitionLifecycle` leave as it was.
use git_memo.Base.{
  true, false, not, ◌&&◌, ◌||◌, ◌≡◌, ◌≢◌, ◌⊎◌, refl, sym, subst, ◌∙◌, ◌++◌, inl, inr, Option, none,
  some, List, [], ◌∷◌, arith, Bool-cases, Option-cases, if◌then◌else◌,
}
use mathlib.Core.List.{append_cancel_left}
use git_memo.Base.Text.{Text, text, ◌==◌, eq_iff, eq_refl, contains}
use git_memo.Base.Dict.{lookup, remove, lookup-insert, lookup-remove}
use git_memo.Base.Result.{Result, ok, err, bind-ok, reject_if-ok}
use git_memo.Memory.{Memory}
use git_memo.Memory.Fields.{SchemaProblem}
use git_memo.Memory.Decode.{Decoded, valid, invalid, decode}
use git_memo.Service.Paths.{DocumentPaths, PathError, canonical_paths}
use git_memo.Service.Paths.Canonical.{canonical_paths-IsContentPath}
use git_memo.Service.Store.{
  Code, invalid_argument, transaction_failed, Files, Document, ProposedDocument, Platform,
  write_file, remove_file, remove_old, check_free, old_paths, write_document, encode_valid,
  paths_or_invalid, write_proposed_document, transition_lifecycle,
}

Decoded-cases :
    (d : Decoded) → ((m : Memory) × (d ≡ valid m)) ⊎ ((ps : List SchemaProblem) × (d ≡ invalid ps))
Decoded-cases (valid m) = inl (m, refl)
Decoded-cases (invalid ps) = inr (ps, refl)

-- The two files of a document have different extensions.
canonical_paths-apart :
    (m : Memory) (p : DocumentPaths) → canonical_paths m ≡ ok p → p.sidecar ≢ p.markdown
canonical_paths-apart m p h e =
    let (_, (stem, at_markdown, at_sidecar)) = canonical_paths-IsContentPath m p h in
    let ends : text ".json" ≡ text ".md" =
      append_cancel_left stem _ _ (sym at_sidecar ∙ e ∙ at_markdown) in
    ground arith

module _ (platform : Platform) where
  write_file-lookup :
      (path bytes j : Text) (files files' : Files)
      → write_file platform path bytes files ≡ ok files'
      → lookup j files' ≡ (if path == j then some bytes else lookup j files)
  unfolding write_file
  write_file-lookup path bytes j files files' h =
      elim (Bool-cases (platform.write_fails path files)) [
        | inl e ↦ ground arith
        | inr e ↦ ground (arith, lookup-insert path j bytes files)
      ]

  -- The old paths are gone, but for those that the new version has.
  remove_old-lookup :
      (p : DocumentPaths) (paths : List Text) (j : Text) (files files' : Files)
      → remove_old platform p paths files ≡ ok files'
      → lookup j files' ≡ (
          if contains paths j && not (p.markdown == j || p.sidecar == j)
          then none
          else lookup j files)
  unfolding remove_old remove_file contains
  remove_old-lookup p [] j files files' h = ground arith
  remove_old-lookup p (old ∷ paths) j files files' h =
      elim (Bool-cases (old == p.markdown || old == p.sidecar)) [
        | inl e ↦ ground (
          arith,
          remove_old-lookup p paths j files files' (ground arith),
          eq_iff old j,
          eq_iff old p.markdown,
          eq_iff old p.sidecar,
          eq_iff p.markdown j,
          eq_iff p.sidecar j,
        )
        | inr e ↦ elim (Bool-cases (platform.remove_fails old files)) [
          | inl e₁ ↦ ground arith
          | inr e₁ ↦ ground (
            arith,
            remove_old-lookup p paths j (remove old files) files' (ground arith),
            lookup-remove old j files,
            eq_iff old j,
            eq_iff old p.markdown,
            eq_iff old p.sidecar,
            eq_iff p.markdown j,
            eq_iff p.sidecar j,
          )
        ]
      ]

  check_free-free :
      (allowed paths : List Text) (j : Text) (files : Files)
      → check_free platform allowed paths files ≡ ok tt
      → contains paths j ≡ true
      → contains allowed j ≡ false
      → lookup j files ≡ none
  unfolding check_free contains
  check_free-free allowed [] j files h c n = ground arith
  check_free-free allowed (path ∷ paths) j files h c n = elim (Bool-cases (contains allowed path)) [
    | inl e ↦ check_free-free allowed paths j files (ground arith) (ground (arith, eq_iff path j)) n
    | inr e ↦ elim (Bool-cases (platform.lstat_fails path files)) [
      | inl e₀ ↦ ground arith
      | inr e₀ ↦ elim (Option-cases (lookup path files)) [
        | inr (bytes, e₁) ↦ ground arith
        | inl e₁ ↦ elim (Bool-cases (path == j)) [
          | inl e₂ ↦ ground (arith, eq_iff path j)
          | inr e₂ ↦ check_free-free allowed paths j files (ground arith) (ground arith) n
        ]
      ]
    ]
  ]

  -- What the bytes of a sidecar are: the JSON of the memory with a newline, which decodes without a
  -- problem.
  pub record IsEncoded (m : Memory) (bytes : Text) : Type 0 where
    pub json : Text
    pub encoded : platform.json.encode m ≡ some json
    pub ended : bytes ≡ json ++ 10 ∷ []
    pub again : Memory
    pub decodes : decode platform.json platform.time bytes ≡ valid again

  encode_valid-IsEncoded :
      (m : Memory) (failed : Code) (bytes : Text)
      → encode_valid platform m failed ≡ ok bytes
      → IsEncoded m bytes
  unfolding encode_valid
  encode_valid-IsEncoded m failed bytes h = elim (Option-cases (platform.json.encode m)) [
    | inl e ↦ ground arith
    | inr (json, e) ↦ elim (Decoded-cases (decode platform.json platform.time (json ++ 10 ∷ []))) [
      | inr (problems, e₁) ↦ ground arith
      | inl (again, e₁) ↦
          let same : json ++ 10 ∷ [] ≡ bytes = ground arith in
          record {
            json = json;
            encoded = e;
            ended = sym same;
            again = again;
            decodes = subst (λ b. decode platform.json platform.time b ≡ valid again) same e₁;
          }
    ]
  ]

  -- What a document is after it was written, and the worktree: its two files hold the proposal, the
  -- other files of the old version are gone, and no file but those is touched.
  pub record IsWritten (p : DocumentPaths) (existing : Option Document)
      (proposal : ProposedDocument) (files : Files) (doc : Document) (files' : Files) : Type 0 where
    pub same_memory : doc.memory ≡ proposal.memory
    pub same_markdown : doc.markdown ≡ proposal.markdown
    pub at_sidecar : doc.sidecar_path ≡ p.sidecar
    pub at_markdown : doc.markdown_path ≡ p.markdown
    pub markdown_written : lookup p.markdown files' ≡ some proposal.markdown
    pub sidecar : Text
    pub sidecar_written : lookup p.sidecar files' ≡ some sidecar
    pub sidecar_encoded : IsEncoded proposal.memory sidecar
    pub old_gone :
        (j : Text)
        → contains (old_paths platform existing) j ≡ true
        → p.markdown ≢ j
        → p.sidecar ≢ j
        → lookup j files' ≡ none
    pub untouched :
        (j : Text)
        → contains (old_paths platform existing) j ≡ false
        → p.markdown ≢ j
        → p.sidecar ≢ j
        → lookup j files' ≡ lookup j files
    pub kept :
        (j b : Text)
        → lookup j files ≡ some b
        → contains (old_paths platform existing) j ≡ false
        → lookup j files' ≡ some b

  -- The two writes and the removals, at any path.
  write_document-lookup :
      (p : DocumentPaths) (existing : Option Document) (proposal : ProposedDocument) (bytes : Text)
      (files : Files) (doc : Document) (files' : Files)
      → write_document platform p existing proposal bytes files ≡ ok (doc, files')
      → (j : Text)
      → lookup j files' ≡ (
          if p.sidecar == j
          then some bytes
          else if p.markdown == j
          then some proposal.markdown
          else if contains (old_paths platform existing) j
          then none
          else lookup j files)
  unfolding write_document
  write_document-lookup p existing proposal bytes files doc files' h j =
      let new = p.markdown ∷ p.sidecar ∷ [] in
      let (_, _, h₁) = bind-ok (check_free platform (old_paths platform existing) new files) h in
      let (_, h₂) = reject_if-ok (platform.mkdir_fails p.markdown files) _ h₁ in
      let (_, h₃) = reject_if-ok (platform.mkdir_fails p.sidecar files) _ h₂ in
      let (files₁, w₁, h₄) = bind-ok (write_file platform p.markdown proposal.markdown files) h₃ in
      let (files₂, w₂, h₅) = bind-ok (write_file platform p.sidecar bytes files₁) h₄ in
      let (files₃, w₃, h₆) =
        bind-ok (remove_old platform p (old_paths platform existing) files₂) h₅ in
      ground (
        arith,
        write_file-lookup p.markdown proposal.markdown j files files₁ w₁,
        write_file-lookup p.sidecar bytes j files₁ files₂ w₂,
        remove_old-lookup p (old_paths platform existing) j files₂ files₃ w₃,
      )

  write_document-IsWritten :
      (p : DocumentPaths) (existing : Option Document) (proposal : ProposedDocument) (bytes : Text)
      (files : Files) (doc : Document) (files' : Files)
      → write_document platform p existing proposal bytes files ≡ ok (doc, files')
      → p.sidecar ≢ p.markdown
      → IsEncoded proposal.memory bytes
      → IsWritten p existing proposal files doc files'
  unfolding write_document contains
  write_document-IsWritten p existing proposal bytes files doc files' h apart encoded =
      let new = p.markdown ∷ p.sidecar ∷ [] in
      let found = write_document-lookup p existing proposal bytes files doc files' h in
      let (_, free, h₁) = bind-ok (check_free platform (old_paths platform existing) new files) h in
      let (_, h₂) = reject_if-ok (platform.mkdir_fails p.markdown files) _ h₁ in
      let (_, h₃) = reject_if-ok (platform.mkdir_fails p.sidecar files) _ h₂ in
      let (files₁, w₁, h₄) = bind-ok (write_file platform p.markdown proposal.markdown files) h₃ in
      let (files₂, w₂, h₅) = bind-ok (write_file platform p.sidecar bytes files₁) h₄ in
      let (files₃, w₃, h₆) =
        bind-ok (remove_old platform p (old_paths platform existing) files₂) h₅ in
      record {
        same_memory = ground arith;
        same_markdown = ground arith;
        at_sidecar = ground arith;
        at_markdown = ground arith;
        markdown_written =
            ground (arith, found p.markdown, eq_iff p.sidecar p.markdown, eq_refl p.markdown);
        sidecar = bytes;
        sidecar_written = ground (arith, found p.sidecar, eq_refl p.sidecar);
        sidecar_encoded = encoded;
        old_gone = λ j o m n. ground (arith, found j, eq_iff p.sidecar j, eq_iff p.markdown j);
        untouched = λ j o m n. ground (arith, found j, eq_iff p.sidecar j, eq_iff p.markdown j);
        kept = λ j b k n.
            ground (arith, found j, check_free-free (old_paths platform existing) new j files free);
      }

  paths_or_invalid-ok :
      (r : Result PathError DocumentPaths) (p : DocumentPaths)
      → paths_or_invalid platform r ≡ ok p
      → r ≡ ok p
  unfolding paths_or_invalid
  paths_or_invalid-ok (ok p) q h = ground arith
  paths_or_invalid-ok (err e) q h = ground arith

  -- If `writeProposedDocument` succeeds, then the Markdown file at its canonical path holds the
  -- proposed Markdown, the sidecar at its canonical path holds the JSON of the proposed memory,
  -- with that path in it and a newline behind, which decodes without a problem; every other
  -- file of the old version of the document is gone; every other file of the worktree is as it
  -- was; and the document returned has the proposed memory and Markdown and those paths.
  pub write_proposed_document-IsWritten :
      (files : Files) (existing : Option Document) (proposal : ProposedDocument) (doc : Document)
      (files' : Files)
      → write_proposed_document platform files existing proposal ≡ ok (doc, files')
      → (p : DocumentPaths) × (canonical_paths proposal.memory ≡ ok p)
        × IsWritten p existing
            (record proposal { memory = record proposal.memory { content_path = p.markdown } })
            files
            doc
            files'
  unfolding write_proposed_document
  write_proposed_document-IsWritten files existing proposal doc files' h =
      let (p, e₁, h₁) = bind-ok (paths_or_invalid platform (canonical_paths proposal.memory)) h in
      let m : Memory = record proposal.memory { content_path = p.markdown } in
      let (bytes, e₂, h₂) = bind-ok (encode_valid platform m invalid_argument) h₁ in
      let at_paths = paths_or_invalid-ok (canonical_paths proposal.memory) p e₁ in
      (
        p,
        at_paths,
        write_document-IsWritten p existing (record proposal { memory = m }) bytes files doc files'
            h₂ (canonical_paths-apart proposal.memory p at_paths)
            (encode_valid-IsEncoded m invalid_argument bytes e₂),
      )

  -- `transitionLifecycle` leaves every file but the sidecar of its target as it was.
  pub transition_lifecycle-keeps :
      (files : Files) (target : Document) (lifecycle time : Text) (files' : Files) (j : Text)
      → transition_lifecycle platform files target lifecycle time ≡ ok files'
      → target.sidecar_path ≢ j
      → lookup j files' ≡ lookup j files
  unfolding transition_lifecycle
  transition_lifecycle-keeps files target lifecycle time files' j h n =
      let (bytes, _, h₁) = bind-ok (encode_valid platform _ transaction_failed) h in
      ground (
        arith,
        write_file-lookup target.sidecar_path bytes j files files' h₁,
        eq_iff target.sidecar_path j,
      )
