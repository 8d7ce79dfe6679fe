-- ===== src/Index/Query/Found.antt =====
-- `LookupByID` in the files that `renderMachineIndexes` has written.
use git_memo.Base.{
  ℕ, ◌<◌, ◌≡◌, ◌≢◌, refl, ap, ap₂, subst, ◌∙◌, arith, true, Option, none, some, List, [], ◌∷◌, ◌++◌,
  All, All-map,
}
use git_memo.Base.Text.{Text, to_lower, lower_byte, trim_space}
use git_memo.Base.TextLaws.{trim_space-token}
use git_memo.Base.Int.{pos}
use git_memo.Base.Dict.{Dict, lookup, insert}
use git_memo.Base.Result.{Result, ok, ◌>>=◌, ◌>>◌}
use git_memo.Memory.{Record}
use git_memo.Memory.Pattern.{
  Place, hex, variant, exactly, fits, matches, is_hex, is_digit, is_memory_id, uuid_places,
}
use git_memo.Index.Chunks.{Files}
use git_memo.Index.Terms.{Unicode, id_shard_prefix, id_shard_path}
use git_memo.Index.Machine.{IndexEntry, make_index_entry, Codecs}
use git_memo.Index.Machine.Render.{render_with_digest}
use git_memo.Index.Machine.Found.{IsLawfulMap, rendered-shard}
use git_memo.Index.Query.{
  QueryError, Worktree, contents, ensure_index_usable, read_json, load_id_shard, lookup_entry,
  lookup_by_id, result_from_entry, IdCache,
}

-- A byte that neither trimming nor lowering changes.
abbrev IsPlain : ℕ → Type 0
IsPlain c = (32 < c) × (lower_byte c ≡ c)

IsPlainPlace : Place → Type 0
IsPlainPlace hex = Unit
IsPlainPlace variant = Unit
IsPlainPlace (exactly c) = IsPlain c

fits-IsPlain : (p : Place) (c : ℕ) → IsPlainPlace p → fits p c ≡ true → IsPlain c
unfolding fits is_hex is_digit IsPlainPlace lower_byte
fits-IsPlain hex c plain h = (ground arith, ground arith)
fits-IsPlain variant c plain h = (ground arith, ground arith)
fits-IsPlain (exactly d) c plain h = subst IsPlain {x = d} (ground arith) plain

matches-IsPlain :
    (places : List Place) (s : Text)
    → All IsPlainPlace places
    → matches places s ≡ true
    → All IsPlain s
unfolding matches
matches-IsPlain [] [] plain h = tt
matches-IsPlain [] (c ∷ s) plain h = absurd (ground arith)
matches-IsPlain (p ∷ places) [] plain h = absurd (ground arith)
matches-IsPlain (p ∷ places) (c ∷ s) (here, plain) h =
    (fits-IsPlain p c here (ground arith), matches-IsPlain places s plain (ground arith))

lower-plain : (s : Text) → All IsPlain s → to_lower s ≡ s
unfolding to_lower
lower-plain [] h = refl
lower-plain (c ∷ s) (hc, h) = ap₂ ◌∷◌ hc.1 (lower-plain s h)

-- The places of a memory ID.
uuid-plain : All IsPlainPlace uuid_places
unfolding IsPlainPlace lower_byte
uuid-plain =
    let dash_plain : IsPlain b'-' = (omega arith, refl) in
    let four : IsPlain b'4' = (omega arith, refl) in
    (
      tt,
      (
        tt,
        (
          tt,
          (
            tt,
            (
              tt,
              (
                tt,
                (
                  tt,
                  (
                    tt,
                    (
                      dash_plain,
                      (
                        tt,
                        (
                          tt,
                          (
                            tt,
                            (
                              tt,
                              (
                                dash_plain,
                                (
                                  four,
                                  (
                                    tt,
                                    (
                                      tt,
                                      (
                                        tt,
                                        (
                                          dash_plain,
                                          (
                                            tt,
                                            (
                                              tt,
                                              (
                                                tt,
                                                (
                                                  tt,
                                                  (
                                                    dash_plain,
                                                    (
                                                      tt,
                                                      (
                                                        tt,
                                                        (
                                                          tt,
                                                          (
                                                            tt,
                                                            (
                                                            tt,
                                                            (
                                                            tt,
                                                            (tt, (tt, (tt, (tt, (tt, (tt, tt)))))),
                                                            ),
                                                            ),
                                                          ),
                                                        ),
                                                      ),
                                                    ),
                                                  ),
                                                ),
                                              ),
                                            ),
                                          ),
                                        ),
                                      ),
                                    ),
                                  ),
                                ),
                              ),
                            ),
                          ),
                        ),
                      ),
                    ),
                  ),
                ),
              ),
            ),
          ),
        ),
      ),
    )

normal-id : (id : Text) → is_memory_id id ≡ true → to_lower (trim_space id) ≡ id
unfolding is_memory_id
normal-id id h =
    let plain = matches-IsPlain uuid_places id uuid-plain h in
    ap to_lower (trim_space-token id (All-map id (λ c k. k.0) plain)) ∙ lower-plain id plain

module _ (codecs : Codecs) (term_hash : Text → Text) (tree : Worktree) where
  lookup_entry-fresh :
      (id prefix path line : Text) (entry : IndexEntry) (shard : Dict IndexEntry)
      → is_memory_id id ≡ true
      → id_shard_prefix term_hash id ≡ some prefix
      → id_shard_path prefix ≡ some path
      → tree.read path ≡ contents line
      → codecs.entries.unmarshal line ≡ some shard
      → lookup id shard ≡ some entry
      → lookup_entry codecs term_hash tree id [] ≡ ok (some entry, (prefix, shard) ∷ [])
  unfolding lookup_entry load_id_shard read_json lookup insert
  lookup_entry-fresh id prefix path line entry shard valid named here read parsed found =
      ground arith

  lookup_by_id-found :
      (raw : Text) (entry : IndexEntry) (cache : IdCache)
      → ensure_index_usable codecs term_hash tree ≡ ok tt
      → lookup_entry codecs term_hash tree (to_lower (trim_space raw)) [] ≡ ok (some entry, cache)
      → lookup_by_id codecs term_hash tree raw ≡ ok (some (result_from_entry entry (pos 0) []))
  unfolding lookup_by_id
  lookup_by_id-found raw entry cache usable found =
      helper (ensure_index_usable codecs term_hash tree)
        (lookup_entry codecs term_hash tree (to_lower (trim_space raw)) []) usable found
    where
      helper :
          (u : Result QueryError (Unit {0})) (l : Result QueryError (Option IndexEntry × IdCache))
          → u ≡ ok tt
          → l ≡ ok (some entry, cache)
          → (u
              >> (l >>= λ found.
                  ok (elim found.0 [
                    | none ↦ none
                    | some e ↦ some (result_from_entry e (pos 0) [])
                  ])))
            ≡ ok (some (result_from_entry entry (pos 0) []))
      helper u l hu hl = rw (hu, hl) refl

  -- If `renderMachineIndexesWithDigest` succeeds on records of which none behind a given one
  -- has its ID, and the worktree reads back the files written and its index is usable, then
  -- `LookupByID` at that ID, if it is a memory ID, returns the result made from the record's
  -- entry, over JSON that reads back the values of a map of entries that it wrote.
  pub lookup-rendered :
      IsLawfulMap codecs.entries
      → (unicode : Unicode) (before : List Record) (r : Record) (after : List Record)
        (digest : Text) (files : Files)
      → All (λ q. q.memory.id ≢ r.memory.id) after
      → is_memory_id r.memory.id ≡ true
      → render_with_digest codecs term_hash unicode (before ++ r ∷ after) digest ≡ some files
      → ensure_index_usable codecs term_hash tree ≡ ok tt
      → ((path bytes : Text) → lookup path files ≡ some bytes → tree.read path ≡ contents bytes)
      → lookup_by_id codecs term_hash tree r.memory.id
        ≡ ok (some (result_from_entry (make_index_entry r.memory) (pos 0) []))
  lookup-rendered lawful unicode before r after digest files others valid rendered usable reads =
      let (prefix, path, line, back, named, here, written, parsed, entry) =
        rendered-shard codecs term_hash lawful unicode before r after digest files others
          rendered in
      let found : lookup_entry codecs term_hash tree r.memory.id []
          ≡ ok (some (make_index_entry r.memory), (prefix, back) ∷ []) =
        lookup_entry-fresh r.memory.id prefix path line (make_index_entry r.memory) back valid named
          here (reads path line written) parsed entry in
      lookup_by_id-found r.memory.id (make_index_entry r.memory) ((prefix, back) ∷ []) usable
        (ap (λ id. lookup_entry codecs term_hash tree id []) (normal-id r.memory.id valid) ∙ found)
