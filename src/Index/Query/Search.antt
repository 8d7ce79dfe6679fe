-- ===== src/Index/Query/Search.antt =====
-- internal/indexer/query.go: `Search`.
pub mod Order
pub mod Cache
use git_memo.Base.{
  ℕ, suc, Bool, true, false, not, ◌&&◌, ◌||◌, Option, none, some, List, [], ◌∷◌, ◌++◌, nat_eq, ltb,
  leb, if◌then◌else◌, length, sort, take,
}
use git_memo.Base.Text.{Text, text, text_le, is_empty, to_lower, trim_space, contains}
use git_memo.Base.Int.{ℤ, pos, negsuc, add_int, less_int, int_eq}
use git_memo.Base.Dict.{Dict, lookup, insert}
use git_memo.Base.Result.{Result, ok, err, ◌>>=◌, ◌>>◌, reject_if}
use git_memo.Memory.Pattern.{is_memory_id}
use git_memo.Index.Chunks.{TermPosting, TermIndexValue, load_term_postings}
use git_memo.Index.Terms.{Unicode, tokenize, unique_terms, term_bucket}
use git_memo.Index.Machine.{Codecs}
use git_memo.Index.Query.{
  Worktree, QueryError, empty_query, no_terms, all_suppressed, missing_id, load_failed,
  SearchResult, result_from_entry, contents_of, IdCache, ensure_index_usable, lookup_entry,
  load_term_shard,
}

-- `aggregate`; the map `matched` is its keys.
pub record Aggregate : Type 0 where
  pub score : ℤ
  pub matched : List Text

-- `matched[term] = true`
unfoldable pub add_term : Text → List Text → List Text
unfolding contains
add_term term matched = if contains matched term then matched else matched ++ term ∷ []

-- One round of the loop over postings.
unfoldable pub add_posting : Text → TermPosting → Dict Aggregate → Dict Aggregate
unfolding lookup insert add_int add_term
add_posting term posting aggregates =
    let old : Aggregate = elim (lookup posting.id aggregates) [
      | none ↦ record { score = pos 0; matched = [] }
      | some a ↦ a
    ] in
    insert posting.id
      (record { score = add_int old.score posting.score; matched = add_term term old.matched })
      aggregates

unfoldable pub add_postings : Text → List TermPosting → Dict Aggregate → Dict Aggregate
unfolding add_posting
add_postings term [] aggregates = aggregates
add_postings term (posting ∷ postings) aggregates =
    add_postings term postings (add_posting term posting aggregates)

-- The variables of the loop over the terms.
pub record Scan : Type 0 where
  pub aggregates : Dict Aggregate
  pub cache : Dict (Dict TermIndexValue)
  pub found_terms : ℕ
  pub suppressed_terms : ℕ

-- `ranked`
pub record Ranked : Type 0 where
  pub id : Text
  pub score : ℤ
  pub matched : List Text

unfoldable pub ranked_of : Dict Aggregate → List Ranked
ranked_of [] = []
ranked_of ((id, a) ∷ aggregates) =
    record { id = id; score = a.score; matched = sort text_le a.matched } ∷ ranked_of aggregates

-- The comparison of ranks: more terms first, then a higher score, then the ID.
unfoldable pub rank_le : Ranked → Ranked → Bool
unfolding int_eq less_int
rank_le a b =
    if not (nat_eq (length a.matched) (length b.matched))
    then ltb (length b.matched) (length a.matched)
    else if not (int_eq a.score b.score)
    then less_int b.score a.score
    else text_le a.id b.id

-- The ranked IDs that are kept.
unfoldable pub rank : ℕ → Dict Aggregate → List Ranked
unfolding ranked_of rank_le
rank limit aggregates = take limit (sort rank_le (ranked_of aggregates))

-- `limit <= 0` means 10.
unfoldable pub search_limit : ℤ → ℕ
search_limit (pos n) = if nat_eq n 0 then 10 else n
search_limit (negsuc n) = 10

unfoldable pub is_none_found : Scan → Bool
is_none_found s = elim s.aggregates [ [] ↦ true | a ∷ rest ↦ false ]

module _ (codecs : Codecs) (term_hash : Text → Text) (tree : Worktree) where
  -- `termCache[bucket]`, which is read if it is not there; a shard that is missing is cached empty.
  unfoldable pub cached_shard :
      Text
      → Dict (Dict TermIndexValue)
      → Result QueryError (Dict TermIndexValue × Dict (Dict TermIndexValue))
  unfolding lookup insert load_term_shard
  cached_shard bucket cache = elim (lookup bucket cache) [
    | some shard ↦ ok (shard, cache)
    | none ↦ elim (load_term_shard codecs term_hash tree bucket) [
      | err e ↦ err e
      | ok none ↦ ok ([], insert bucket [] cache)
      | ok (some shard) ↦ ok (shard, insert bucket shard cache)
    ]
  ]

  -- A term's postings join the aggregates.
  unfoldable pub add_value : Text → TermIndexValue → Scan → Result QueryError Scan
  unfolding load_term_postings contents_of add_postings
  add_value term value s =
      let s' = record s { found_terms = suc s.found_terms } in
      elim value.suppressed [
        | true ↦ ok (record s' { suppressed_terms = suc s.suppressed_terms })
        | false ↦
            elim (load_term_postings term_hash codecs.posting_chunk (λ p. contents_of (tree.read p))
              term value) [
                | err e ↦ err (load_failed e)
                | ok postings ↦
                    ok (record s' { aggregates = add_postings term postings s.aggregates })
              ]
      ]

  -- One round of the loop over the terms.
  unfoldable pub scan_term : Text → Scan → Result QueryError Scan
  unfolding term_bucket cached_shard lookup add_value
  scan_term term s = do
    (shard, cache) ← cached_shard (term_bucket term_hash term) s.cache
    elim (lookup term shard) [
      | none ↦ ok (record s { cache = cache })
      | some value ↦ add_value term value (record s { cache = cache })
    ]

  unfoldable pub scan_terms : List Text → Scan → Result QueryError Scan
  unfolding scan_term
  scan_terms [] s = ok s
  scan_terms (term ∷ terms) s = do s' ← scan_term term s; scan_terms terms s'

  -- The results of the ranked IDs.
  unfoldable pub results_of : List Ranked → IdCache → Result QueryError (List SearchResult)
  unfolding lookup_entry result_from_entry
  results_of [] cache = ok []
  results_of (r ∷ ranks) cache = do
    (found, cache') ← lookup_entry codecs term_hash tree r.id cache
    elim found [
      | none ↦ err missing_id
      | some entry ↦ do
        rest ← results_of ranks cache'
        ok (result_from_entry entry r.score r.matched ∷ rest)
    ]

  -- `Search`, for a query that is no ID.
  unfoldable pub search_terms : List Text → ℤ → Result QueryError (List SearchResult)
  unfolding scan_terms is_none_found rank search_limit results_of
  search_terms terms limit = do
    reject_if (nat_eq (length terms) 0) no_terms
    s ←
        scan_terms terms
          (record { aggregates = []; cache = []; found_terms = 0; suppressed_terms = 0 })
    reject_if (is_none_found s && ltb 0 s.found_terms && nat_eq s.suppressed_terms s.found_terms)
        all_suppressed
    results_of (rank (search_limit limit) s.aggregates) []

  -- `Search`, for a query that is an ID.
  unfoldable pub search_id : Text → Result QueryError (List SearchResult)
  unfolding lookup_entry result_from_entry
  search_id id = do
    (found, cache) ← lookup_entry codecs term_hash tree id []
    ok (elim found [ none ↦ [] | some entry ↦ result_from_entry entry (pos 0) [] ∷ [] ])

  -- `Search`
  unfoldable pub search : Unicode → Text → ℤ → Result QueryError (List SearchResult)
  unfolding ensure_index_usable is_empty is_memory_id search_id tokenize unique_terms search_terms
  search unicode raw limit = do
    ensure_index_usable codecs term_hash tree
    let query = trim_space raw
    reject_if (is_empty query) empty_query
    elim (is_memory_id (to_lower query)) [
      | true ↦ search_id (to_lower query)
      | false ↦ search_terms (unique_terms (tokenize unicode query)) limit
    ]
