-- ===== src/Index/Machine/Render.antt =====
-- internal/indexer/machine.go: `renderMachineIndexes`, which composes the parts.
use git_memo.Base.{ℕ, Option, none, some, List, [], ◌∷◌, ◌++◌, length}
use git_memo.Base.Text.{Text, text}
use git_memo.Base.Dict.{insert}
use git_memo.Memory.{Record}
use git_memo.Index.Codec.{marshal_line}
use git_memo.Index.Chunks.{Files}
use git_memo.Index.Terms.{Unicode}
use git_memo.Index.Machine.{
  Groups, no_groups, Catalog, Codecs, add_records, render_id_shards, render_id_lists,
  render_term_shards,
}

-- `IndexFormatVersion` of internal/buildinfo.
abbrev pub index_format_version : ℕ
index_format_version = 2

-- Functions that add files, one after the other, until one fails.
unfoldable pub run_steps : List (Files → Option Files) → Files → Option Files
run_steps [] files = some files
run_steps (step ∷ steps) files = elim (step files) [
  | none ↦ none
  | some files' ↦ run_steps steps files'
]

module _ (codecs : Codecs) (term_hash : Text → Text) where
  -- `files["index/catalog.json"]`
  unfoldable pub write_catalog : Catalog → Files → Option Files
  unfolding marshal_line insert
  write_catalog catalog files = elim (marshal_line codecs.catalog catalog) [
    | none ↦ none
    | some bytes ↦ some (insert (text "index/catalog.json") bytes files)
  ]

  -- The part of `renderMachineIndexesWithDigest` below the loop over the records.
  unfoldable pub render_groups : Groups → Catalog → Files → Option Files
  unfolding run_steps render_id_shards render_id_lists render_term_shards write_catalog
  render_groups g catalog = run_steps (
      render_id_shards codecs g.by_id
      ∷ render_id_lists codecs (text "index/by-project") g.by_project
      ∷ render_id_lists codecs (text "index/by-topic") g.by_topic
      ∷ render_id_lists codecs (text "index/by-tag") g.by_tag
      ∷ render_id_lists codecs (text "index/by-type") g.by_type
      ∷ render_id_lists codecs (text "index/by-lifecycle") g.by_lifecycle
      ∷ render_id_lists codecs (text "index/by-open-loop-status") g.by_open_loop_status
      ∷ render_term_shards codecs term_hash g.term_shards
      ∷ write_catalog catalog
      ∷ [])

  -- `renderMachineIndexesWithDigest`
  unfoldable pub render_with_digest : Unicode → List Record → Text → Option Files
  unfolding add_records render_groups
  render_with_digest unicode records digest =
      elim (add_records unicode term_hash records no_groups) [
        | none ↦ none
        | some g ↦
            render_groups g
              (record {
                index_version = index_format_version;
                record_count = length records;
                memory_source_sha256 = digest;
              })
              []
      ]

-- What `memorySourceDigest` writes to the hash; a file that cannot be read fails it.
unfoldable pub source_bytes : (Text → Option Text) → List Record → Option Text
source_bytes read [] = some []
source_bytes read (r ∷ records) = elim (read r.path) [
  | none ↦ none
  | some bytes ↦ elim (source_bytes read records) [
    | none ↦ none
    | some rest ↦ some (r.path ++ 0 ∷ bytes ++ 0 ∷ rest)
  ]
]

module _ (codecs : Codecs) (sha256_hex : Text → Text) where
  -- `renderMachineIndexes` with `memorySourceDigest`
  unfoldable pub render_machine_indexes :
      Unicode → (Text → Option Text) → List Record → Option Files
  unfolding source_bytes render_with_digest
  render_machine_indexes unicode read records = elim (source_bytes read records) [
    | none ↦ none
    | some bytes ↦ render_with_digest codecs sha256_hex unicode records (sha256_hex bytes)
  ]
