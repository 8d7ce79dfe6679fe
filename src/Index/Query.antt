-- ===== src/Index/Query.antt =====
-- internal/indexer/query.go: lookups and the search in index files that were written.
pub mod Search
pub mod Found
use git_memo.Base.{
  ℕ, ◌+◌, Bool, true, false, not, ◌&&◌, ◌||◌, Option, none, some, List, [], ◌∷◌, ◌++◌, nat_eq, ltb,
  leb, if◌then◌else◌, length, sort, take,
}
use git_memo.Base.Text.{Text, text, ◌==◌, text_le, is_empty, to_lower, trim_space, contains}
use git_memo.Base.Int.{ℤ, pos, negsuc, add_int, less_int, int_eq}
use git_memo.Base.Dict.{Dict, lookup, insert}
use git_memo.Base.Result.{Result, ok, err, ◌>>=◌, ◌>>◌, reject_if}
use git_memo.Memory.Pattern.{is_memory_id, is_slug}
use git_memo.Index.Codec.{Codec}
use git_memo.Index.Chunks.{
  LoadError, TermPosting, TermIndexValue, load_chunked_id_list, load_term_postings,
}
use git_memo.Index.Terms.{
  Unicode, tokenize, unique_terms, term_bucket, id_shard_prefix, id_shard_path,
}
use git_memo.Index.Machine.{IndexEntry, Codecs}
use git_memo.Index.Machine.Render.{index_format_version}

-- `os.ReadFile`: `missing` is the error that `os.IsNotExist` tells apart.
pub data Read : Type 0 where
  missing unreadable : Read
  contents : Text → Read

-- A worktree as the queries see it. `is_unsafe_tree` is that `requireOptionalRegularTree` fails.
pub record Worktree : Type 0 where
  pub read : Text → Read
  pub is_unsafe_tree : Text → Bool
  pub is_marked_stale : Bool

pub data QueryError : Type 0 where
  unsafe_index unsafe_memories marked_stale no_catalog bad_catalog bad_version : QueryError
  bad_id bad_key empty_id bad_prefix unreadable_file bad_json : QueryError
  empty_query no_terms all_suppressed missing_id : QueryError
  load_failed : LoadError → QueryError

pub record SearchResult : Type 0 where
  pub id : Text
  pub title : Text
  pub kind : Text
  pub lifecycle : Text
  pub summary : Text
  pub content_path : Text
  pub score : ℤ
  pub matched_terms : List Text

-- `resultFromEntry`
unfoldable pub result_from_entry : IndexEntry → ℤ → List Text → SearchResult
result_from_entry entry score matched = record {
  id = entry.id;
  title = entry.title;
  kind = entry.kind;
  lifecycle = entry.lifecycle;
  summary = entry.summary;
  content_path = entry.content_path;
  score = score;
  matched_terms = matched;
}

-- The contents that a chunk is read from; any error of reading is one.
unfoldable pub contents_of : Read → Option Text
contents_of missing = none
contents_of unreadable = none
contents_of (contents bytes) = some bytes

-- The ID shards that were read, by prefix.
abbrev pub IdCache : Type 0
IdCache = Dict (Dict IndexEntry)

module _ (codecs : Codecs) (term_hash : Text → Text) (tree : Worktree) where
  -- `ensureIndexUsable`, once `catalog.json` was read.
  unfoldable pub check_catalog : Read → Result QueryError (Unit {0})
  check_catalog missing = err no_catalog
  check_catalog unreadable = err no_catalog
  check_catalog (contents bytes) = elim (codecs.catalog.unmarshal bytes) [
    | none ↦ err bad_catalog
    | some catalog ↦ reject_if (not (nat_eq catalog.index_version index_format_version)) bad_version
  ]

  -- `ensureIndexUsable`
  unfoldable pub ensure_index_usable : Result QueryError (Unit {0})
  unfolding check_catalog
  ensure_index_usable = do
    reject_if (tree.is_unsafe_tree (text "index")) unsafe_index
    reject_if (tree.is_unsafe_tree (text "memories")) unsafe_memories
    reject_if tree.is_marked_stale marked_stale
    check_catalog (tree.read (text "index/catalog.json"))

  -- A file of JSON; none, if it does not exist.
  unfoldable pub read_json : {A : Type 0} → Codec A → Text → Result QueryError (Option A)
  read_json codec path = elim (tree.read path) [
    | missing ↦ ok none
    | unreadable ↦ err unreadable_file
    | contents bytes ↦ elim (codec.unmarshal bytes) [ none ↦ err bad_json | some a ↦ ok (some a) ]
  ]

  -- The shard of an ID whose prefix is not in the cache.
  unfoldable pub load_id_shard : Text → Result QueryError (Option (Dict IndexEntry))
  unfolding id_shard_path read_json
  load_id_shard prefix = elim (id_shard_path prefix) [
    | none ↦ err bad_prefix
    | some path ↦ read_json codecs.entries path
  ]

  -- `lookupEntry`: the entry, and the cache with the shard that was read. Without a cache, [] is
  -- passed and what comes back is dropped.
  unfoldable pub lookup_entry : Text → IdCache → Result QueryError (Option IndexEntry × IdCache)
  unfolding is_memory_id id_shard_prefix lookup load_id_shard insert
  lookup_entry id cache =
      if not (is_memory_id id) then err bad_id else elim (id_shard_prefix term_hash id) [
        | none ↦ err empty_id
        | some prefix ↦ elim (lookup prefix cache) [
          | some shard ↦ ok (lookup id shard, cache)
          | none ↦ elim (load_id_shard prefix) [
            | err e ↦ err e
            | ok none ↦ ok (none, cache)
            | ok (some shard) ↦ ok (lookup id shard, insert prefix shard cache)
          ]
        ]
      ]

  -- `LookupByID`
  unfoldable pub lookup_by_id : Text → Result QueryError (Option SearchResult)
  unfolding ensure_index_usable lookup_entry result_from_entry
  lookup_by_id id = do
    ensure_index_usable
    (found, cache) ← lookup_entry (to_lower (trim_space id)) []
    ok (elim found [ none ↦ none | some entry ↦ some (result_from_entry entry (pos 0) []) ])

  -- `idsForKey`
  unfoldable pub ids_for_key : Text → Text → Result QueryError (List Text)
  unfolding ensure_index_usable is_slug read_json load_chunked_id_list contents_of
  ids_for_key directory raw = do
    ensure_index_usable
    let key = to_lower (trim_space raw)
    reject_if (not (is_slug key)) bad_key
    list ← read_json codecs.id_list (text "index/" ++ directory ++ text "/" ++ key ++ text ".json")
    elim list [
      | none ↦ ok []
      | some descriptor ↦
          elim (load_chunked_id_list codecs.id_chunk (λ p. contents_of (tree.read p)) directory key
            descriptor) [ err e ↦ err (load_failed e) | ok ids ↦ ok ids ]
    ]

  -- `loadTermShard`
  unfoldable pub load_term_shard : Text → Result QueryError (Option (Dict TermIndexValue))
  unfolding read_json
  load_term_shard bucket = read_json codecs.terms (text "index/terms/" ++ bucket ++ text ".json")
