-- ===== src/Tests/Entries.antt =====
-- JSON for a map with one entry, of a memory with one topic and no other list, as texts in a row.
use git_memo.Base.{
  ◌≡◌, refl, sym, ap, ◌∙◌, arith, Option, none, some, List, [], ◌∷◌, ◌++◌, Option-cases, inl, inr,
}
use git_memo.Base.Text.{Text}
use git_memo.Base.Dict.{Dict}
use git_memo.Memory.{Entity}
use git_memo.Index.Codec.{Codec, newline}
use git_memo.Index.Machine.{IndexEntry, IndexRelationship}
use git_memo.Index.Machine.Found.{IsLawfulMap}
use git_memo.Tests.Indexes.{write_texts, read_texts, read-write_texts}

-- The texts of an entry.
abbrev texts_of : IndexEntry → List Text
texts_of e =
    e.id ∷ e.title ∷ e.kind ∷ e.lifecycle ∷ e.summary ∷ e.importance ∷ e.updated_at
    ∷ e.provenance_basis ∷ e.confidence ∷ e.content_path ∷ e.sensitivity ∷ []

-- An entry with a topic and no other list, from its texts.
entry_of : Text → List Text → Option IndexEntry
entry_of topic
      (id ∷ title ∷ kind ∷ lifecycle ∷ summary ∷ importance ∷ updated_at ∷ provenance_basis
        ∷ confidence ∷ content_path ∷ sensitivity ∷ []) =
    some (record {
      id = id;
      title = title;
      kind = kind;
      lifecycle = lifecycle;
      summary = summary;
      projects = [];
      topics = topic ∷ [];
      tags = [];
      aliases = [];
      entities = [];
      importance = importance;
      updated_at = updated_at;
      effective_from = none;
      provenance_basis = provenance_basis;
      confidence = confidence;
      relationships = [];
      content_path = content_path;
      sensitivity = sensitivity;
      open_loop_status = none;
    })
entry_of topic texts = none

-- The topic of such an entry.
only_topic :
    List Text
    → List Text
    → List Text
    → List Text
    → List Entity
    → List IndexRelationship
    → Option Text
    → Option Text
    → Option Text
only_topic [] (topic ∷ []) [] [] [] [] none none = some topic
only_topic projects topics tags aliases entities relationships from status = none

unfoldable pub write_shard : Dict IndexEntry → Option Text
unfolding only_topic
write_shard [] = none
write_shard ((key, e) ∷ x ∷ dict) = none
write_shard ((key, e) ∷ []) =
    elim (only_topic e.projects e.topics e.tags e.aliases e.entities e.relationships
      e.effective_from e.open_loop_status) [
        | none ↦ none
        | some topic ↦ some (write_texts (key ∷ topic ∷ texts_of e))
      ]

shard_of : List Text → Option (Dict IndexEntry)
unfolding entry_of
shard_of [] = none
shard_of (key ∷ []) = none
shard_of (key ∷ topic ∷ texts) = elim (entry_of topic texts) [
  | none ↦ none
  | some e ↦ some ((key, e) ∷ [])
]

unfoldable pub read_shard : Text → Option (Dict IndexEntry)
unfolding shard_of
read_shard bytes = shard_of (read_texts bytes)

abbrev pub entries_codec : Codec (Dict IndexEntry)
entries_codec = record { marshal = write_shard; unmarshal = read_shard }

only_topic_sound :
    (ps ts gs ys : List Text) (es : List Entity) (rs : List IndexRelationship)
    (from status : Option Text) (topic : Text)
    → only_topic ps ts gs ys es rs from status ≡ some topic
    → (ps ≡ [])
      × (ts ≡ topic ∷ [])
      × (gs ≡ [])
      × (ys ≡ [])
      × (es ≡ [])
      × (rs ≡ [])
      × (from ≡ none)
      × (status ≡ none)
unfolding only_topic
only_topic_sound [] (t ∷ []) [] [] [] [] none none topic h =
    (refl, ground arith, refl, refl, refl, refl, refl, refl)
only_topic_sound (p ∷ ps) ts gs ys es rs from status topic h = absurd (ground arith)
only_topic_sound [] [] gs ys es rs from status topic h = absurd (ground arith)
only_topic_sound [] (t ∷ u ∷ ts) gs ys es rs from status topic h = absurd (ground arith)
only_topic_sound [] (t ∷ []) (g ∷ gs) ys es rs from status topic h = absurd (ground arith)
only_topic_sound [] (t ∷ []) [] (a ∷ ys) es rs from status topic h = absurd (ground arith)
only_topic_sound [] (t ∷ []) [] [] (e ∷ es) rs from status topic h = absurd (ground arith)
only_topic_sound [] (t ∷ []) [] [] [] (r ∷ rs) from status topic h = absurd (ground arith)
only_topic_sound [] (t ∷ []) [] [] [] [] (some from) status topic h = absurd (ground arith)
only_topic_sound [] (t ∷ []) [] [] [] [] none (some status) topic h = absurd (ground arith)

entry_of-texts_of :
    (e : IndexEntry) (topic : Text)
    → only_topic e.projects e.topics e.tags e.aliases e.entities e.relationships e.effective_from
        e.open_loop_status
      ≡ some topic
    → entry_of topic (texts_of e) ≡ some e
unfolding entry_of
entry_of-texts_of e topic h =
    let (ps, ts, gs, ys, es, rs, from, status) =
      only_topic_sound e.projects e.topics e.tags e.aliases e.entities e.relationships
        e.effective_from e.open_loop_status topic h in
    ground arith

read-write_shard :
    (dict : Dict IndexEntry) (bytes : Text)
    → write_shard dict ≡ some bytes
    → read_shard (bytes ++ newline ∷ []) ≡ some dict
unfolding write_shard read_shard shard_of
read-write_shard [] bytes h = absurd (ground arith)
read-write_shard ((key, e) ∷ x ∷ dict) bytes h = absurd (ground arith)
read-write_shard ((key, e) ∷ []) bytes h =
    elim (Option-cases (
      only_topic e.projects e.topics e.tags e.aliases e.entities e.relationships e.effective_from
        e.open_loop_status)) [
          | inl other ↦ absurd (ground arith)
          | inr (topic, found) ↦
              let written : write_texts (key ∷ topic ∷ texts_of e) ≡ bytes = ground arith in
              ap (λ b. shard_of (read_texts (b ++ newline ∷ []))) (sym written)
              ∙ ap shard_of (read-write_texts (key ∷ topic ∷ texts_of e))
              ∙ ground (arith, entry_of-texts_of e topic found)
        ]

pub entries_codec-IsLawfulMap : IsLawfulMap entries_codec
entries_codec-IsLawfulMap = record {
  unmarshal-marshal = λ dict bytes h. (dict, read-write_shard dict bytes h, λ key. refl);
}
