-- ===== src/Index/Query/Search/Cache.antt =====
-- The two caches of a search change nothing but the number of reads.
use git_memo.Base.{
  ◌≡◌, refl, ap, subst, ◌∙◌, ◌⊎◌, inl, inr, arith, Option, none, some, List, [], ◌∷◌, Bool-cases,
  Option-cases,
}
use git_memo.Base.Text.{Text, ◌==◌, eq_iff}
use git_memo.Base.Dict.{Dict, lookup, insert, lookup-insert}
use git_memo.Base.Result.{Result, ok, err, ◌>>=◌, Result-cases}
use git_memo.Memory.Pattern.{is_memory_id}
use git_memo.Index.Terms.{id_shard_prefix}
use git_memo.Index.Machine.{Codecs, IndexEntry}
use git_memo.Index.Query.{
  Worktree, QueryError, SearchResult, IdCache, lookup_entry, load_id_shard, result_from_entry,
  missing_id, bad_id, empty_id,
}
use git_memo.Index.Query.Search.{Ranked, results_of}

module _ (codecs : Codecs) (term_hash : Text → Text) (tree : Worktree) where
  -- A lookup that reads the file of its shard.
  pub fresh_entry : Text → Result QueryError (Option IndexEntry)
  unfolding lookup_entry
  fresh_entry id = elim (lookup_entry codecs term_hash tree id []) [
    | err e ↦ err e
    | ok (found, cache) ↦ ok found
  ]

  -- `Search` without the cache of ID shards.
  pub fresh_results : List Ranked → Result QueryError (List SearchResult)
  unfolding fresh_entry result_from_entry
  fresh_results [] = ok []
  fresh_results (r ∷ ranks) = do
    found ← fresh_entry r.id
    elim found [
      | none ↦ err missing_id
      | some entry ↦ do
        rest ← fresh_results ranks
        ok (result_from_entry entry r.score r.matched ∷ rest)
    ]

  -- Every shard in the cache is the one in the files.
  IsCoherent : IdCache → Type 0
  IsCoherent cache =
      (prefix : Text) (shard : Dict IndexEntry)
      → lookup prefix cache ≡ some shard
      → load_id_shard codecs term_hash tree prefix ≡ ok (some shard)

  -- What a lookup with a cache is to be.
  Agrees : Text → IdCache → Type 0
  Agrees id cache =
      ((e : QueryError) × (fresh_entry id ≡ err e)
        × (lookup_entry codecs term_hash tree id cache ≡ err e))
      ⊎ ((found : Option IndexEntry) × (cache' : IdCache) × (fresh_entry id ≡ ok found)
          × (lookup_entry codecs term_hash tree id cache ≡ ok (found, cache'))
          × IsCoherent cache')

  insert-IsCoherent :
      (cache : IdCache) (prefix : Text) (shard : Dict IndexEntry)
      → IsCoherent cache
      → load_id_shard codecs term_hash tree prefix ≡ ok (some shard)
      → IsCoherent (insert prefix shard cache)
  unfolding IsCoherent
  insert-IsCoherent cache prefix shard coherent loaded prefix' shard' h =
      elim (Bool-cases (prefix == prefix')) [
        | inl same ↦
            let here : prefix ≡ prefix' = ground (arith, eq_iff prefix prefix') in
            let equal : shard ≡ shard' = ground (arith, lookup-insert prefix prefix' shard cache) in
            subst (λ p. load_id_shard codecs term_hash tree p ≡ ok (some shard')) here
              (loaded ∙ ap (λ s. ok (some s)) equal)
        | inr apart ↦
            coherent prefix' shard' (ground (arith, lookup-insert prefix prefix' shard cache))
      ]

  lookup-Agrees : (id : Text) (cache : IdCache) → IsCoherent cache → Agrees id cache
  unfolding Agrees fresh_entry lookup_entry lookup IsCoherent
  lookup-Agrees id cache coherent = elim (Bool-cases (is_memory_id id)) [
    | inr bad ↦ inl (bad_id, ground arith, ground arith)
    | inl valid ↦ elim (Option-cases (id_shard_prefix term_hash id)) [
      | inl empty ↦ inl (empty_id, ground arith, ground arith)
      | inr (prefix, named) ↦ elim (Option-cases (lookup prefix cache)) [
        | inr (shard, cached) ↦
            let loaded = coherent prefix shard cached in
            inr (lookup id shard, cache, ground arith, ground arith, coherent)
        | inl fresh ↦ elim (Result-cases (load_id_shard codecs term_hash tree prefix)) [
          | inr (e, failed) ↦ inl (e, ground arith, ground arith)
          | inl (none, absent) ↦ inr (none, cache, ground arith, ground arith, coherent)
          | inl (some shard, loaded) ↦ inr (
            lookup id shard,
            insert prefix shard cache,
            ground arith,
            ground arith,
            insert-IsCoherent cache prefix shard coherent loaded,
          )
        ]
      ]
    ]
  ]

  results_of-coherent :
      (ranks : List Ranked) (cache : IdCache)
      → IsCoherent cache
      → results_of codecs term_hash tree ranks cache ≡ fresh_results ranks
  unfolding results_of fresh_results Agrees
  results_of-coherent [] cache coherent = refl
  results_of-coherent (r ∷ ranks) cache coherent = elim (lookup-Agrees r.id cache coherent) [
    | inl (e, fresh, looked) ↦ ground arith
    | inr (none, cache', fresh, looked, coherent') ↦ ground arith
    | inr (some entry, cache', fresh, looked, coherent') ↦
        ground (arith, results_of-coherent ranks cache' coherent')
  ]

  -- The results that a search builds with its cache of ID shards, which is empty at first, are
  -- those, errors included, of lookups that read the shard each time.
  pub results_of-fresh :
      (ranks : List Ranked) → results_of codecs term_hash tree ranks [] ≡ fresh_results ranks
  unfolding IsCoherent lookup
  results_of-fresh ranks = results_of-coherent ranks [] (λ prefix shard h. absurd (ground arith))
