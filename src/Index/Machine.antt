-- ===== src/Index/Machine.antt =====
-- internal/indexer/machine.go: the machine indexes of a list of records.
pub mod Render
pub mod Grouping
pub mod Frame
pub mod Found
use git_memo.Base.{
  ℕ, ◌+◌, Bool, true, false, not, ◌&&◌, ◌||◌, Option, none, some, List, [], ◌∷◌, ◌++◌, nat_eq,
  if◌then◌else◌, length, sort,
}
use git_memo.Base.Text.{Text, text, ◌==◌, text_le}
use git_memo.Base.Int.{ℤ, pos, less_int, int_eq}
use git_memo.Base.Dict.{Dict, lookup, insert}
use git_memo.Memory.{Memory, Entity, Record, Relationship}
use git_memo.Index.Codec.{Codec, marshal_line}
use git_memo.Index.Chunks.{
  IdList, TermPosting, TermIndexValue, Files, render_chunked_id_list, render_term_index_value,
}
use git_memo.Index.Terms.{Unicode, weighted_terms, term_bucket, id_shard_prefix, id_shard_path}

-- `relation` is the field `Type`.
pub record IndexRelationship : Type 0 where
  pub relation : Text
  pub target_id : Text

-- A nil slice and an empty one are both [], as they are once `nonNil` has been called.
pub record IndexEntry : Type 0 where
  pub id : Text
  pub title : Text
  pub kind : Text
  pub lifecycle : Text
  pub summary : Text
  pub projects : List Text
  pub topics : List Text
  pub tags : List Text
  pub aliases : List Text
  pub entities : List Entity
  pub importance : Text
  pub updated_at : Text
  pub effective_from : Option Text
  pub provenance_basis : Text
  pub confidence : Text
  pub relationships : List IndexRelationship
  pub content_path : Text
  pub sensitivity : Text
  pub open_loop_status : Option Text

unfoldable pub index_relationships : List Relationship → List IndexRelationship
index_relationships [] = []
index_relationships (r ∷ relationships) =
    record { relation = r.relation; target_id = r.target_id } ∷ index_relationships relationships

-- `makeIndexEntry`
unfoldable pub make_index_entry : Memory → IndexEntry
unfolding index_relationships
make_index_entry m = record {
  id = m.id;
  title = m.title;
  kind = m.kind;
  lifecycle = m.lifecycle;
  summary = m.summary;
  projects = m.projects;
  topics = m.topics;
  tags = m.tags;
  aliases = m.aliases;
  entities = m.entities;
  importance = m.importance;
  updated_at = m.temporal.updated_at;
  effective_from = m.temporal.effective_from;
  provenance_basis = m.provenance.basis;
  confidence = m.provenance.confidence;
  relationships = index_relationships m.relationships;
  content_path = m.content_path;
  sensitivity = m.sensitivity;
  open_loop_status = m.open_loop_status;
}

-- The fields of the catalog that depend on the records; the others are constants of the program.
pub record Catalog : Type 0 where
  pub index_version : ℕ
  pub record_count : ℕ
  pub memory_source_sha256 : Text

-- The maps that the first loop of `renderMachineIndexesWithDigest` fills.
pub record Groups : Type 0 where
  pub by_id : Dict (Dict IndexEntry)
  pub by_project : Dict (List Text)
  pub by_topic : Dict (List Text)
  pub by_tag : Dict (List Text)
  pub by_type : Dict (List Text)
  pub by_lifecycle : Dict (List Text)
  pub by_open_loop_status : Dict (List Text)
  pub term_shards : Dict (Dict (List TermPosting))

abbrev pub no_groups : Groups
no_groups = record {
  by_id = [];
  by_project = [];
  by_topic = [];
  by_tag = [];
  by_type = [];
  by_lifecycle = [];
  by_open_loop_status = [];
  term_shards = [];
}

-- `dict[key]`, where a key that is missing stands for nil.
unfoldable pub row : {A : Type 0} → Text → Dict (List A) → List A
unfolding lookup
row key dict = elim (lookup key dict) [ none ↦ [] | some values ↦ values ]

-- `dict[key] = append(dict[key], value)`
unfoldable pub append_at : {A : Type 0} → Text → A → Dict (List A) → Dict (List A)
unfolding row insert
append_at key value dict = insert key (row key dict ++ value ∷ []) dict

-- `appendIndexKeys`
unfoldable pub append_index_keys : Dict (List Text) → List Text → Text → Dict (List Text)
unfolding append_at
append_index_keys index [] id = index
append_index_keys index (key ∷ keys) id = append_index_keys (append_at key id index) keys id

unfoldable pub add_status : Option Text → Text → Dict (List Text) → Dict (List Text)
unfolding append_at
add_status none id index = index
add_status (some status) id index = append_at status id index

-- `byID[prefix][id] = entry`
unfoldable pub add_entry :
    Text → Text → IndexEntry → Dict (Dict IndexEntry) → Dict (Dict IndexEntry)
unfolding row insert
add_entry prefix id entry by_id = insert prefix (insert id entry (row prefix by_id)) by_id

-- The comparison of postings: a higher score first, then the ID.
unfoldable pub posting_le : TermPosting → TermPosting → Bool
unfolding int_eq less_int
posting_le a b =
    if not (int_eq a.score b.score) then less_int b.score a.score else text_le a.id b.id

module _ (unicode : Unicode) (term_hash : Text → Text) where
  -- The postings of one memory go to the shards of their terms.
  unfoldable pub add_postings :
      Text → Dict ℕ → Dict (Dict (List TermPosting)) → Dict (Dict (List TermPosting))
  unfolding term_bucket row append_at insert
  add_postings id [] shards = shards
  add_postings id ((term, score) ∷ scores) shards =
      let bucket = term_bucket term_hash term in
      let posting : TermPosting = record { id = id; score = pos score } in
      add_postings id scores (insert bucket (append_at term posting (row bucket shards)) shards)

  -- One round of the loop over the records.
  unfoldable pub add_record : Record → Groups → Option Groups
  unfolding id_shard_prefix make_index_entry add_entry append_index_keys append_at add_status
      weighted_terms add_postings
  add_record r g =
      let m = r.memory in
      elim (id_shard_prefix term_hash m.id) [
        | none ↦ none
        | some prefix ↦ some (record {
          by_id = add_entry prefix m.id (make_index_entry m) g.by_id;
          by_project = append_index_keys g.by_project m.projects m.id;
          by_topic = append_index_keys g.by_topic m.topics m.id;
          by_tag = append_index_keys g.by_tag m.tags m.id;
          by_type = append_at m.kind m.id g.by_type;
          by_lifecycle = append_at m.lifecycle m.id g.by_lifecycle;
          by_open_loop_status = add_status m.open_loop_status m.id g.by_open_loop_status;
          term_shards = add_postings m.id (weighted_terms unicode m) g.term_shards;
        })
      ]

  unfoldable pub add_records : List Record → Groups → Option Groups
  unfolding add_record
  add_records [] g = some g
  add_records (r ∷ records) g = elim (add_record r g) [
    | none ↦ none
    | some g' ↦ add_records records g'
  ]

-- `encoding/json` at the types that the indexes hold.
pub record Codecs : Type 0 where
  pub entries : Codec (Dict IndexEntry)
  pub id_list : Codec IdList
  pub id_chunk : Codec (List Text)
  pub terms : Codec (Dict TermIndexValue)
  pub posting_chunk : Codec (List TermPosting)
  pub catalog : Codec Catalog

module _ (codecs : Codecs) where
  -- The loop over `byID`.
  unfoldable pub render_id_shards : Dict (Dict IndexEntry) → Files → Option Files
  unfolding marshal_line id_shard_path insert
  render_id_shards [] files = some files
  render_id_shards ((prefix, entries) ∷ by_id) files = elim (marshal_line codecs.entries entries) [
    | none ↦ none
    | some bytes ↦ elim (id_shard_path prefix) [
      | none ↦ none
      | some path ↦ render_id_shards by_id (insert path bytes files)
    ]
  ]

  -- `renderIDLists`
  unfoldable pub render_id_lists : Text → Dict (List Text) → Files → Option Files
  unfolding render_chunked_id_list
  render_id_lists dir [] files = some files
  render_id_lists dir ((key, ids) ∷ values) files =
      elim (render_chunked_id_list codecs.id_list codecs.id_chunk files dir key
        (sort text_le ids)) [ none ↦ none | some files' ↦ render_id_lists dir values files' ]

module _ (codecs : Codecs) (term_hash : Text → Text) where
  -- The loop over the terms of one bucket.
  unfoldable pub render_terms :
      Dict (List TermPosting) → Files → Option (Files × Dict TermIndexValue)
  unfolding render_term_index_value posting_le
  render_terms [] files = some (files, [])
  render_terms ((term, postings) ∷ terms) files =
      elim (render_term_index_value term_hash codecs.posting_chunk files term
        (sort posting_le postings)) [
          | none ↦ none
          | some (files', value) ↦ elim (render_terms terms files') [
            | none ↦ none
            | some (files'', rendered) ↦ some (files'', (term, value) ∷ rendered)
          ]
        ]

  -- The loop over `termShards`.
  unfoldable pub render_term_shards : Dict (Dict (List TermPosting)) → Files → Option Files
  unfolding render_terms marshal_line insert
  render_term_shards [] files = some files
  render_term_shards ((bucket, terms) ∷ shards) files = elim (render_terms terms files) [
    | none ↦ none
    | some (files', rendered) ↦ elim (marshal_line codecs.terms rendered) [
      | none ↦ none
      | some bytes ↦
          render_term_shards shards
            (insert (text "index/terms/" ++ bucket ++ text ".json") bytes files')
    ]
  ]
