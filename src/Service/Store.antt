-- ===== src/Service/Store.antt =====
-- internal/memoryservice/mutation.go, service.go and repository_v8.go: documents in a worktree. A
-- worktree is its regular files; directories are there where a file needs them, and no file is a
-- symbolic link, which is all that `Discover` and `LoadAll` treat in another way than the strict
-- functions do.
pub mod Find
pub mod Write
use git_memo.Base.{
  ℕ, Bool, true, false, not, ◌&&◌, ◌||◌, Option, none, some, List, [], ◌∷◌, ◌++◌, nat_eq,
  if◌then◌else◌, sort, is_some,
}
use git_memo.Base.Text.{Text, text, ◌==◌, text_le, to_lower, strip_prefix, contains}
use git_memo.Base.Dict.{Dict, lookup, insert, remove}
use git_memo.Base.Result.{Result, ok, err, ◌>>=◌, ◌>>◌, reject_if}
use git_memo.Memory.{Memory, Record}
use git_memo.Memory.Fields.{TimeFormat}
use git_memo.Memory.Decode.{MemoryJson, Decoded, valid, invalid, decode}
use git_memo.Service.Paths.{DocumentPaths, PathError, canonical_paths}

-- The codes of `Error` (service.go and mutation.go).
pub data Code : Type 0 where
  invalid_argument repository_error repository_dirty repository_invalid not_found : Code
  index_unavailable unsupported_operation stale_revision idempotency_conflict : Code
  validation_failed transaction_failed : Code
  -- Not an error of the source: the run-time panic of a nil `Proposed`.
  nil_dereference : Code

abbrev pub Files : Type 0
Files = Dict Text

pub record Document : Type 0 where
  pub sidecar_path : Text
  pub markdown_path : Text
  pub memory : Memory
  pub markdown : Text

pub record ProposedDocument : Type 0 where
  pub memory : Memory
  pub markdown : Text

-- What `encoding/json`, `time` and the operating system decide. `lstat_fails` and the others say
-- whether a call on that path fails in that worktree, for any reason but a missing file.
pub record Platform : Type 0 where
  pub json : MemoryJson
  pub time : TimeFormat
  pub lstat_fails : Text → Files → Bool
  pub mkdir_fails : Text → Files → Bool
  pub write_fails : Text → Files → Bool
  pub remove_fails : Text → Files → Bool

-- The text from its last full stop on: `filepath.Ext` of a path whose last part has one.
unfoldable pub extension_from : Text → Text → Text
extension_from found [] = found
extension_from found (c ∷ s) =
    extension_from (if nat_eq c b'.' then c ∷ s else if nat_eq c b'/' then [] else found) s

-- The paths under `memories` whose extension is that one, in any case.
unfoldable pub paths_with : Text → Files → List Text
unfolding extension_from strip_prefix
paths_with wanted [] = []
paths_with wanted ((path, bytes) ∷ files) =
    let rest = paths_with wanted files in
    if is_some (strip_prefix (text "memories/") path) && to_lower (extension_from [] path) == wanted
    then path ∷ rest
    else rest

-- `Discover`: the sidecars, sorted.
unfoldable pub discover_sidecars : Files → List Text
unfolding paths_with
discover_sidecars files = sort text_le (paths_with (text ".json") files)

module _ (platform : Platform) where
  open platform use {json, time}

  -- `Load` and `LoadUnder`
  unfoldable pub load : Files → Text → Option Memory
  load files path = elim (lookup path files) [
    | none ↦ none
    | some bytes ↦ elim (decode json time bytes) [ valid m ↦ some m | invalid problems ↦ none ]
  ]

  unfoldable pub load_records : Files → List Text → Option (List Record)
  unfolding load
  load_records files [] = some []
  load_records files (path ∷ paths) = elim (load files path) [
    | none ↦ none
    | some m ↦ elim (load_records files paths) [
      | none ↦ none
      | some records ↦ some (record { path = path; memory = m } ∷ records)
    ]
  ]

  -- `LoadAll`: one bad sidecar fails the whole.
  unfoldable pub load_all : Files → Option (List Record)
  unfolding discover_sidecars load_records
  load_all files = load_records files (discover_sidecars files)

  -- `loadDocument`, which is `loadDocumentStrict` at the version of the contract
  unfoldable pub load_document : Files → Text → Result Code Document
  unfolding load
  load_document files sidecar = elim (load files sidecar) [
    | none ↦ err repository_invalid
    | some m ↦ elim (lookup m.content_path files) [
      | none ↦ err repository_invalid
      | some markdown ↦ ok (record {
        sidecar_path = sidecar;
        markdown_path = m.content_path;
        memory = m;
        markdown = markdown;
      })
    ]
  ]

  -- The loop over the records: the one match, or that there are several.
  unfoldable pub find_match : Text → Option Record → List Record → Result Code (Option Record)
  find_match id match [] = ok match
  find_match id match (r ∷ records) =
      let skip = find_match id match records in
      let take = find_match id (some r) records in
      if r.memory.id == id
      then elim match [ none ↦ take | some first ↦ err repository_invalid ]
      else skip

  -- `canonicalDocumentAt`
  unfoldable pub canonical_document_at : Files → Text → Result Code (Option Document)
  unfolding find_match load_document
  canonical_document_at files id = elim (load_all files) [
    | none ↦ err repository_invalid
    | some records ↦ elim (find_match id none records) [
      | err e ↦ err e
      | ok none ↦ ok none
      | ok (some r) ↦ elim (load_document files r.path) [ err e ↦ err e | ok doc ↦ ok (some doc) ]
    ]
  ]

  write_file : Text → Text → Files → Result Code Files
  write_file path bytes files =
      if platform.write_fails path files
      then err transaction_failed
      else ok (insert path bytes files)

  -- `os.Remove`, whose failure on a missing file is passed over.
  remove_file : Text → Files → Result Code Files
  remove_file path files =
      if platform.remove_fails path files then err transaction_failed else ok (remove path files)

  -- `json.MarshalIndent` with its newline, and `Decode` of the result without a problem.
  encode_valid : Memory → Code → Result Code Text
  encode_valid m failed = elim (json.encode m) [
    | none ↦ err failed
    | some bytes ↦ elim (decode json time (bytes ++ 10 ∷ [])) [
      | valid again ↦ ok (bytes ++ 10 ∷ [])
      | invalid problems ↦ err invalid_argument
    ]
  ]

  -- The paths that the old version of a document may keep.
  unfoldable pub old_paths : Option Document → List Text
  old_paths none = []
  old_paths (some doc) = doc.markdown_path ∷ doc.sidecar_path ∷ []

  -- `os.Lstat` of each new path, which no other file may have.
  check_free : List Text → List Text → Files → Result Code (Unit {0})
  check_free allowed [] files = ok tt
  check_free allowed (path ∷ paths) files =
      let rest = check_free allowed paths files in
      if contains allowed path
      then rest
      else if platform.lstat_fails path files
      then err transaction_failed
      else elim (lookup path files) [ none ↦ rest | some bytes ↦ err invalid_argument ]

  -- The old paths that are no longer used go.
  remove_old : DocumentPaths → List Text → Files → Result Code Files
  unfolding remove_file
  remove_old p [] files = ok files
  remove_old p (old ∷ paths) files =
      elim (if old == p.markdown || old == p.sidecar then ok files else remove_file old files) [
        | err e ↦ err e
        | ok files' ↦ remove_old p paths files'
      ]

  write_document :
      DocumentPaths
      → Option Document
      → ProposedDocument
      → Text
      → Files
      → Result Code (Document × Files)
  unfolding check_free old_paths write_file remove_old
  write_document p existing proposal bytes files = do
    check_free (old_paths existing) (p.markdown ∷ p.sidecar ∷ []) files
    reject_if (platform.mkdir_fails p.markdown files) transaction_failed
    reject_if (platform.mkdir_fails p.sidecar files) transaction_failed
    files₁ ← write_file p.markdown proposal.markdown files
    files₂ ← write_file p.sidecar bytes files₁
    files₃ ← remove_old p (old_paths existing) files₂
    ok (
      record {
        sidecar_path = p.sidecar;
        markdown_path = p.markdown;
        memory = proposal.memory;
        markdown = proposal.markdown;
      },
      files₃,
    )

  paths_or_invalid : Result PathError DocumentPaths → Result Code DocumentPaths
  paths_or_invalid (ok p) = ok p
  paths_or_invalid (err e) = err invalid_argument

  -- `writeProposedDocument`
  unfoldable pub write_proposed_document :
      Files → Option Document → ProposedDocument → Result Code (Document × Files)
  unfolding write_document encode_valid paths_or_invalid
  write_proposed_document files existing proposal = do
    p ← paths_or_invalid (canonical_paths proposal.memory)
    let m : Memory = record proposal.memory { content_path = p.markdown }
    bytes ← encode_valid m invalid_argument
    write_document p existing (record proposal { memory = m }) bytes files

  -- `transitionLifecycle`
  unfoldable pub transition_lifecycle : Files → Document → Text → Text → Result Code Files
  unfolding encode_valid write_file
  transition_lifecycle files target lifecycle mutation_time = do
    let m : Memory = record target.memory {
      lifecycle = lifecycle;
      temporal = record target.memory.temporal { updated_at = mutation_time };
    }
    bytes ← encode_valid m transaction_failed
    write_file target.sidecar_path bytes files
