-- ===== src/Index/Machine/Found.antt =====
-- A record that was rendered is found by its ID.
use git_memo.Base.{
  ◌≡◌, ◌≢◌, sym, ap, ◌∙◌, inl, inr, arith, none, some, List, [], ◌∷◌, ◌++◌, Bool-cases,
  Option-cases, All, length,
}
use git_memo.Base.Text.{Text, text, ◌==◌, eq_iff, eq_refl}
use git_memo.Base.Dict.{Dict, lookup, insert, lookup-insert}
use git_memo.Memory.{Record}
use git_memo.Index.Codec.{Codec, newline, marshal_line}
use git_memo.Index.Chunks.{Files}
use git_memo.Index.Chunks.Frame.{IsApart}
use git_memo.Index.Terms.{Unicode, id_shard_prefix, id_shard_path}
use git_memo.Index.Machine.{
  IndexEntry, make_index_entry, Groups, no_groups, row, add_records, Codecs, Catalog,
  render_id_shards, render_id_lists, render_term_shards,
}
use git_memo.Index.Machine.Grouping.{HasKeysOnce, add_records-HasKeysOnce, add_records-entry}
use git_memo.Index.Machine.Frame.{
  run_steps-Keeps, insert-keeps, render_id_lists-Keeps, render_term_shards-Keeps,
  write_catalog-Keeps,
}
use git_memo.Index.Machine.Render.{
  run_steps, render_groups, render_with_digest, index_format_version, write_catalog,
}

-- JSON at a map: what is read back has the values that were written, in any order.
pub record IsLawfulMap {A : Type 0} (codec : Codec (Dict A)) : Type 0 where
  pub unmarshal-marshal :
      (dict : Dict A) (bytes : Text)
      → codec.marshal dict ≡ some bytes
      → (back : Dict A) × (codec.unmarshal (bytes ++ newline ∷ []) ≡ some back)
        × ((key : Text) → lookup key back ≡ lookup key dict)

unmarshal-line :
    {A : Type 0} (codec : Codec (Dict A)) (lawful : IsLawfulMap codec) (dict : Dict A) (line : Text)
    → marshal_line codec dict ≡ some line
    → (back : Dict A) × (codec.unmarshal line ≡ some back)
      × ((key : Text) → lookup key back ≡ lookup key dict)
unfolding marshal_line
unmarshal-line codec lawful dict line h = elim (Option-cases (codec.marshal dict)) [
  | inl failed ↦ absurd (ground arith)
  | inr (bytes, done) ↦
      let (back, read, same) = lawful.unmarshal-marshal dict bytes done in
      let ends : bytes ++ newline ∷ [] ≡ line = ground arith in
      (back, ap codec.unmarshal (sym ends) ∙ read, same)
]

-- Different prefixes have different paths.
id_shard_path-injective :
    (p q path : Text) → id_shard_path p ≡ some path → id_shard_path q ≡ some path → p ≡ q
unfolding id_shard_path
id_shard_path-injective (a ∷ b ∷ c ∷ []) (a' ∷ b' ∷ c' ∷ []) path h k = ground arith
id_shard_path-injective [] q path h k = absurd (ground arith)
id_shard_path-injective (a ∷ []) q path h k = absurd (ground arith)
id_shard_path-injective (a ∷ b ∷ []) q path h k = absurd (ground arith)
id_shard_path-injective (a ∷ b ∷ c ∷ d ∷ p) q path h k = absurd (ground arith)
id_shard_path-injective (a ∷ b ∷ c ∷ []) [] path h k = absurd (ground arith)
id_shard_path-injective (a ∷ b ∷ c ∷ []) (a' ∷ []) path h k = absurd (ground arith)
id_shard_path-injective (a ∷ b ∷ c ∷ []) (a' ∷ b' ∷ []) path h k = absurd (ground arith)
id_shard_path-injective (a ∷ b ∷ c ∷ []) (a' ∷ b' ∷ c' ∷ d ∷ q) path h k = absurd (ground arith)

module _ (codecs : Codecs) where
  -- Shards of other prefixes leave the file of a prefix as it is.
  shards-keep :
      (by_id : Dict (Dict IndexEntry)) (prefix path : Text) (files out : Files)
      → lookup prefix by_id ≡ none
      → id_shard_path prefix ≡ some path
      → render_id_shards codecs by_id files ≡ some out
      → lookup path out ≡ lookup path files
  unfolding render_id_shards lookup
  shards-keep [] prefix path files out absent here h = ground arith
  shards-keep ((other, entries) ∷ by_id) prefix path files out absent here h =
      elim (Option-cases (marshal_line codecs.entries entries)) [
        | inl failed ↦ absurd (ground arith)
        | inr (bytes, done) ↦ elim (Option-cases (id_shard_path other)) [
          | inl failed ↦ absurd (ground arith)
          | inr (place, named) ↦
              shards-keep by_id prefix path (insert place bytes files) out (ground arith) here
                (ground arith)
              ∙ insert-keeps place path bytes files (λ e. ground (
                arith,
                eq_iff other prefix,
                id_shard_path-injective other prefix path (named ∙ ap some e) here,
              ))
        ]
      ]

  shards-written :
      (by_id : Dict (Dict IndexEntry)) (prefix : Text) (entries : Dict IndexEntry)
      (files out : Files)
      → HasKeysOnce by_id
      → lookup prefix by_id ≡ some entries
      → render_id_shards codecs by_id files ≡ some out
      → (path : Text) × (line : Text) × (id_shard_path prefix ≡ some path)
        × (marshal_line codecs.entries entries ≡ some line)
        × (lookup path out ≡ some line)
  unfolding render_id_shards lookup HasKeysOnce
  shards-written [] prefix entries files out once found h = absurd (ground arith)
  shards-written ((other, values) ∷ by_id) prefix entries files out (fresh, once) found h =
      elim (Option-cases (marshal_line codecs.entries values)) [
        | inl failed ↦ absurd (ground arith)
        | inr (bytes, done) ↦ elim (Option-cases (id_shard_path other)) [
          | inl failed ↦ absurd (ground arith)
          | inr (place, named) ↦ elim (Bool-cases (other == prefix)) [
            | inr apart ↦
                shards-written by_id prefix entries (insert place bytes files) out once
                  (ground arith) (ground arith)
            | inl same ↦
                let here : other ≡ prefix = ground (arith, eq_iff other prefix) in
                let equal : values ≡ entries = ground arith in
                (
                  place,
                  bytes,
                  ap id_shard_path (sym here) ∙ named,
                  ap (marshal_line codecs.entries) (sym equal) ∙ done,
                  shards-keep by_id other place (insert place bytes files) out fresh named
                        (ground arith)
                      ∙ lookup-insert place place bytes files
                      ∙ ground (arith, eq_refl place),
                )
          ]
        ]
      ]

-- Every path of a shard is in one folder.
path-shape :
    (prefix path : Text)
    → id_shard_path prefix ≡ some path
    → (rest : Text) × (path ≡ text "index/by-id/" ++ rest)
unfolding id_shard_path
path-shape (a ∷ b ∷ c ∷ []) path h = (a ∷ b ∷ b'/' ∷ c ∷ text ".json", ground arith)
path-shape [] path h = absurd (ground arith)
path-shape (a ∷ []) path h = absurd (ground arith)
path-shape (a ∷ b ∷ []) path h = absurd (ground arith)
path-shape (a ∷ b ∷ c ∷ d ∷ p) path h = absurd (ground arith)

module _ (codecs : Codecs) (term_hash : Text → Text) where
  -- The steps behind the ID shards leave a shard as it is.
  groups-keep :
      (g : Groups) (catalog : Catalog) (prefix path line : Text) (mid out : Files)
      → id_shard_path prefix ≡ some path
      → render_id_shards codecs g.by_id [] ≡ some mid
      → lookup path mid ≡ some line
      → render_groups codecs term_hash g catalog [] ≡ some out
      → (lookup path out ≡ some line)
  unfolding render_groups run_steps
  groups-keep g catalog prefix path line mid out here done found h =
      let (rest, shape) = path-shape prefix path here in
      let by_project : IsApart (text "index/by-project") path = λ t e. ground (arith, e ∙ shape) in
      let by_topic : IsApart (text "index/by-topic") path = λ t e. ground (arith, e ∙ shape) in
      let by_tag : IsApart (text "index/by-tag") path = λ t e. ground (arith, e ∙ shape) in
      let by_type : IsApart (text "index/by-type") path = λ t e. ground (arith, e ∙ shape) in
      let by_lifecycle : IsApart (text "index/by-lifecycle") path =
        λ t e. ground (arith, e ∙ shape) in
      let by_status : IsApart (text "index/by-open-loop-status") path =
        λ t e. ground (arith, e ∙ shape) in
      let postings : IsApart (text "index/term-postings/") path =
        λ t e. ground (arith, e ∙ shape) in
      let terms : IsApart (text "index/terms/") path = λ t e. ground (arith, e ∙ shape) in
      let cat : text "index/catalog.json" ≢ path = λ e. ground (arith, e ∙ shape) in
      let steps =
        render_id_lists codecs (text "index/by-project") g.by_project
        ∷ render_id_lists codecs (text "index/by-topic") g.by_topic
        ∷ render_id_lists codecs (text "index/by-tag") g.by_tag
        ∷ render_id_lists codecs (text "index/by-type") g.by_type
        ∷ render_id_lists codecs (text "index/by-lifecycle") g.by_lifecycle
        ∷ render_id_lists codecs (text "index/by-open-loop-status") g.by_open_loop_status
        ∷ render_term_shards codecs term_hash g.term_shards
        ∷ write_catalog codecs term_hash catalog
        ∷ [] in
      run_steps-Keeps path steps
        (
          render_id_lists-Keeps codecs path (text "index/by-project") g.by_project by_project,
          (
            render_id_lists-Keeps codecs path (text "index/by-topic") g.by_topic by_topic,
            (
              render_id_lists-Keeps codecs path (text "index/by-tag") g.by_tag by_tag,
              (
                render_id_lists-Keeps codecs path (text "index/by-type") g.by_type by_type,
                (
                  render_id_lists-Keeps codecs path (text "index/by-lifecycle") g.by_lifecycle
                      by_lifecycle,
                  (
                    render_id_lists-Keeps codecs path (text "index/by-open-loop-status")
                        g.by_open_loop_status by_status,
                    (
                      render_term_shards-Keeps codecs path term_hash g.term_shards postings terms,
                      (write_catalog-Keeps codecs path term_hash catalog cat, tt),
                    ),
                  ),
                ),
              ),
            ),
          ),
        )
        mid out (ground arith)
      ∙ found

  row-some :
      (by_id : Dict (Dict IndexEntry)) (prefix id : Text) (entry : IndexEntry)
      → lookup id (row prefix by_id) ≡ some entry
      → lookup prefix by_id ≡ some (row prefix by_id)
  unfolding row lookup
  row-some by_id prefix id entry h = elim (Option-cases (lookup prefix by_id)) [
    | inl absent ↦ absurd (ground arith)
    | inr (entries, found) ↦ ground arith
  ]

  pub rendered-shard :
      IsLawfulMap codecs.entries
      → (unicode : Unicode) (before : List Record) (r : Record) (after : List Record)
        (digest : Text) (files : Files)
      → All (λ q. q.memory.id ≢ r.memory.id) after
      → render_with_digest codecs term_hash unicode (before ++ r ∷ after) digest ≡ some files
      → (prefix : Text) × (path : Text) × (line : Text) × (back : Dict IndexEntry)
        × (id_shard_prefix term_hash r.memory.id ≡ some prefix)
        × (id_shard_path prefix ≡ some path)
        × (lookup path files ≡ some line)
        × (codecs.entries.unmarshal line ≡ some back)
        × (lookup r.memory.id back ≡ some (make_index_entry r.memory))
  unfolding render_with_digest render_groups run_steps HasKeysOnce
  rendered-shard lawful unicode before r after digest files others h =
      let records = before ++ r ∷ after in
      elim (Option-cases (add_records unicode term_hash records no_groups)) [
        | inl failed ↦ absurd (ground arith)
        | inr (g, grouped) ↦ elim (Option-cases (render_id_shards codecs g.by_id [])) [
          | inl failed ↦ absurd (ground arith)
          | inr (mid, done) ↦
              let catalog : Catalog = record {
                index_version = index_format_version;
                record_count = length records;
                memory_source_sha256 = digest;
              } in
              let (prefix, named, entry) =
                add_records-entry unicode term_hash before r after no_groups g others grouped in
              let (path, line, here, marshalled, written) =
                shards-written codecs g.by_id prefix (row prefix g.by_id) [] mid
                  (add_records-HasKeysOnce unicode term_hash records no_groups g tt grouped)
                  (row-some g.by_id prefix r.memory.id (make_index_entry r.memory) entry) done in
              let (back, read, same) =
                unmarshal-line codecs.entries lawful (row prefix g.by_id) line marshalled in
              (
                prefix,
                path,
                line,
                back,
                named,
                here,
                groups-keep g catalog prefix path line mid files here done written (ground arith),
                read,
                same r.memory.id ∙ entry,
              )
        ]
      ]
