-- ===== src/Service/Query.antt =====
-- internal/memoryservice/service.go: `Search`, `Get` and `PrepareMutation`.
pub mod Laws
pub mod Legal
use git_memo.Base.{
  ℕ, Bool, true, false, not, ◌&&◌, ◌||◌, Option, none, some, List, [], ◌∷◌, ◌++◌, nat_eq, leb,
  if◌then◌else◌, map, sort, is_some,
}
use git_memo.Base.Int.{ℤ, pos, negsuc}
use git_memo.Base.Text.{Text, text, ◌==◌, text_le, is_empty, trim_space, to_lower, contains}
use git_memo.Base.Dict.{Dict, insert}
use git_memo.Base.Result.{Result, ok, err, ◌>>=◌, ◌>>◌, reject_if}
use git_memo.Memory.{Memory, Record}
use git_memo.Memory.Pattern.{is_memory_id}
use git_memo.Repository.Git.{RepoState}
use git_memo.Service.Store.{
  Code, invalid_argument, repository_error, repository_dirty, repository_invalid, not_found,
  index_unavailable, Files, Document, Platform, canonical_document_at, load_document,
}
use git_memo.Service.Operation.{is_unresolved}

-- What the index answers: internal/indexer, on the generated files of the worktree.
pub record Index : Type 0 where
  pub search : Files → Text → ℕ → Option (List Text)
  pub lookup_by_id : Files → Text → Option (Option Text)

-- `limit == 0` means 10, and the limit is between 1 and 100.
unfoldable pub read_limit : ℤ → Option ℕ
read_limit (negsuc n) = none
read_limit (pos n) = if nat_eq n 0 then some 10 else if leb n 100 then some n else none

-- `strings.TrimSuffix(path, ".md") + ".json"`
unfoldable pub sidecar_of : Text → Text
sidecar_of [] = text ".json"
sidecar_of (c ∷ s) =
    let rest = c ∷ sidecar_of s in if (c ∷ s) == text ".md" then text ".json" else rest

-- `appendID`: each ID once, in the order of the first. The map `seen` has the IDs of the slice.
unfoldable pub append_id : List Text → Text → List Text
unfolding is_empty contains
append_id ids raw =
    let id = to_lower (trim_space raw) in
    if is_empty id || contains ids id then ids else ids ++ id ∷ []

unfoldable pub append_ids : List Text → List Text → List Text
unfolding append_id
append_ids ids [] = ids
append_ids ids (raw ∷ rest) = append_ids (append_id ids raw) rest

-- The loop over `CandidateIDs`, which stops at the first that is no memory ID.
unfoldable pub append_candidates : List Text → List Text → Result Code (List Text)
unfolding append_id
append_candidates ids [] = ok ids
append_candidates ids (raw ∷ rest) =
    let done = append_candidates (append_id ids raw) rest in
    if is_memory_id (to_lower (trim_space raw)) then done else err invalid_argument

-- The operations that an active memory allows.
unfoldable pub add_changes : Dict Bool → Dict Bool
add_changes operations = insert (text "withdraw") true (
    insert (text "supersede") true
      (insert (text "correct") true (insert (text "update") true operations)))

-- The loop over the candidates.
unfoldable pub add_legal : Dict Bool → List Document → Dict Bool
unfolding add_changes
add_legal operations [] = operations
add_legal operations (candidate ∷ candidates) =
    let skipped = add_legal operations candidates in
    let changing = add_legal (add_changes operations) candidates in
    let resolving = add_legal (insert (text "resolve") true (add_changes operations)) candidates in
    if not (candidate.memory.lifecycle == text "active")
    then skipped
    else if candidate.memory.kind == text "open_loop"
        && is_unresolved candidate.memory.open_loop_status
    then resolving
    else changing

-- `legalOperations`: the keys of the map, sorted.
unfoldable pub legal_operations : List Document → List Text
unfolding add_legal
legal_operations candidates = sort text_le (
    map (λ entry. entry.0)
      (add_legal ((text "create", true) ∷ (text "noop", true) ∷ []) candidates))

pub record PrepareMutationRequest : Type 0 where
  pub query : Text
  pub candidate_ids : List Text
  pub limit : ℤ

pub record PreparedMutation : Type 0 where
  pub expected_revision : Text
  pub candidates : List Document
  pub legal : List Text

module _ (platform : Platform) (index : Index) (has_errors : Files → Bool) where
  -- `Search`
  unfoldable pub search : Files → Text → ℤ → Result Code (List Text)
  unfolding read_limit is_empty
  search files raw limit =
      let query = trim_space raw in
      if is_empty query then err invalid_argument else elim (read_limit limit) [
        | none ↦ err invalid_argument
        | some n ↦ elim (index.search files query n) [
          | none ↦ err index_unavailable
          | some ids ↦ ok ids
        ]
      ]

  -- A document that the index has found.
  unfoldable pub get_indexed : Files → Text → Text → Result Code (Option Document)
  unfolding sidecar_of
  get_indexed files id content_path =
      elim (load_document platform files (sidecar_of content_path)) [
        | err e ↦ err e
        | ok doc ↦ if doc.memory.id == id then ok (some doc) else err repository_invalid
      ]

  -- `getCanonical`: the index first; without an answer, the sidecars themselves.
  unfoldable pub get_canonical : Files → Text → Result Code (Option Document)
  unfolding get_indexed
  get_canonical files id =
      if not (is_memory_id id) then err invalid_argument else elim (index.lookup_by_id files id) [
        | none ↦ canonical_document_at platform files id
        | some none ↦ canonical_document_at platform files id
        | some (some content_path) ↦ get_indexed files id content_path
      ]

  -- `Get`
  unfoldable pub get : Files → Text → Result Code Document
  unfolding get_canonical
  get files raw = elim (get_canonical files (to_lower (trim_space raw))) [
    | err e ↦ err e
    | ok none ↦ err not_found
    | ok (some doc) ↦ ok doc
  ]

  unfoldable pub get_all : Files → List Text → Result Code (List Document)
  unfolding get_canonical
  get_all files [] = ok []
  get_all files (id ∷ ids) = elim (get_canonical files id) [
    | err e ↦ err e
    | ok none ↦ err not_found
    | ok (some doc) ↦ elim (get_all files ids) [ err e ↦ err e | ok docs ↦ ok (doc ∷ docs) ]
  ]

  -- The IDs that a query adds.
  unfoldable pub append_results : Files → Text → ℤ → List Text → Result Code (List Text)
  unfolding read_limit append_ids is_empty
  append_results files raw limit ids =
      let query = trim_space raw in
      if is_empty query then ok ids else elim (read_limit limit) [
        | none ↦ err invalid_argument
        | some n ↦ elim (index.search files query n) [
          | none ↦ err index_unavailable
          | some found ↦ ok (append_ids ids found)
        ]
      ]

  -- `PrepareMutation`; `none` is an error of `State`.
  unfoldable pub prepare_mutation :
      Option RepoState → Files → PrepareMutationRequest → Result Code PreparedMutation
  unfolding append_candidates append_results get_all legal_operations
  prepare_mutation none files request = err repository_error
  prepare_mutation (some st) files request = do
    reject_if (not st.clean) repository_dirty
    reject_if (has_errors files) repository_invalid
    ids ← append_candidates [] request.candidate_ids
    all_ids ← append_results files request.query request.limit ids
    docs ← get_all files all_ids
    ok (record {
      expected_revision = st.revision;
      candidates = docs;
      legal = legal_operations docs;
    })
