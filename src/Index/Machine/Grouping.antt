-- ===== src/Index/Machine/Grouping.antt =====
-- Where the loop over the records puts the entry of a record.
use git_memo.Base.{
  ◌≡◌, ◌≢◌, refl, sym, ap, subst, ◌∙◌, inl, inr, arith, Option, none, some, List, [], ◌∷◌, ◌++◌,
  Bool-cases, Option-cases, All, if◌then◌else◌,
}
use git_memo.Base.Text.{Text, ◌==◌, eq_iff, eq_refl}
use git_memo.Base.Dict.{Dict, lookup, insert, lookup-insert}
use git_memo.Memory.{Record}
use git_memo.Index.Terms.{Unicode, id_shard_prefix}
use git_memo.Index.Machine.{
  IndexEntry, make_index_entry, Groups, row, add_entry, add_record, add_records,
}

-- A map has one entry for each key.
unfoldable pub HasKeysOnce : {A : Type 0} → Dict A → Type 0
HasKeysOnce [] = Unit
HasKeysOnce ((key, value) ∷ dict) = (lookup key dict ≡ none) × HasKeysOnce dict

insert-HasKeysOnce :
    {A : Type 0} (key : Text) (value : A) (dict : Dict A)
    → HasKeysOnce dict
    → HasKeysOnce (insert key value dict)
unfolding insert HasKeysOnce lookup
insert-HasKeysOnce key value [] h = (refl, tt)
insert-HasKeysOnce key value ((other, old) ∷ dict) (fresh, h) = elim (Bool-cases (other == key)) [
  | inl same ↦
      let here : other ≡ key = ground (arith, eq_iff other key) in
      subst HasKeysOnce {x = (key, value) ∷ dict} (ground arith)
        (subst (λ k. lookup k dict ≡ none) here fresh, h)
  | inr apart ↦ subst HasKeysOnce {x = (other, old) ∷ insert key value dict} (ground arith) (
    lookup-insert key other value dict ∙ ground (arith, eq_iff other key, eq_iff key other),
    insert-HasKeysOnce key value dict h,
  )
]

-- The entry that stands under the ID in the shard of the prefix.
abbrev pub entry_in : Dict (Dict IndexEntry) → Text → Text → Option IndexEntry
entry_in by_id prefix id = lookup id (row prefix by_id)

row-insert :
    {A : Type 0} (key key' : Text) (values : List A) (dict : Dict (List A))
    → row key' (insert key values dict) ≡ (if key == key' then values else row key' dict)
unfolding row
row-insert key key' values dict = ground (arith, lookup-insert key key' values dict)

entry_in-add_entry :
    (prefix id : Text) (entry : IndexEntry) (by_id : Dict (Dict IndexEntry)) (prefix' id' : Text)
    → entry_in (add_entry prefix id entry by_id) prefix' id' ≡ (
        if prefix == prefix'
        then (if id == id' then some entry else entry_in by_id prefix' id')
        else entry_in by_id prefix' id')
unfolding add_entry
entry_in-add_entry prefix id entry by_id prefix' id' =
    let shard = row prefix by_id in
    ap (lookup id') (row-insert prefix prefix' (insert id entry shard) by_id)
    ∙ elim (Bool-cases (prefix == prefix')) [
      | inr apart ↦ ground arith
      | inl same ↦
          let here : prefix ≡ prefix' = ground (arith, eq_iff prefix prefix') in
          let entries : lookup id' (insert id entry shard)
              ≡ (if id == id' then some entry else lookup id' (row prefix' by_id)) =
            lookup-insert id id' entry shard
            ∙ ap (λ p. if id == id' then some entry else lookup id' (row p by_id)) here in
          ground arith
    ]

module _ (unicode : Unicode) (term_hash : Text → Text) where
  add_record-by_id :
      (r : Record) (g g' : Groups)
      → add_record unicode term_hash r g ≡ some g'
      → (prefix : Text) × (id_shard_prefix term_hash r.memory.id ≡ some prefix)
        × (g'.by_id ≡ add_entry prefix r.memory.id (make_index_entry r.memory) g.by_id)
  unfolding add_record
  add_record-by_id r g g' h = elim (Option-cases (id_shard_prefix term_hash r.memory.id)) [
    | inl failed ↦ absurd (ground arith)
    | inr (prefix, done) ↦ (prefix, done, ground arith)
  ]

  pub add_records-HasKeysOnce :
      (records : List Record) (g g' : Groups)
      → HasKeysOnce g.by_id
      → add_records unicode term_hash records g ≡ some g'
      → HasKeysOnce g'.by_id
  unfolding add_records add_entry
  add_records-HasKeysOnce [] g g' once h =
      subst (λ k. HasKeysOnce k.by_id) {x = g} {y = g'} (ground arith) once
  add_records-HasKeysOnce (r ∷ records) g g' once h =
      elim (Option-cases (add_record unicode term_hash r g)) [
        | inl failed ↦ absurd (ground arith)
        | inr (mid, done) ↦
            let (prefix, named, same) = add_record-by_id r g mid done in
            add_records-HasKeysOnce records mid g'
              (subst HasKeysOnce (sym same) (
                insert-HasKeysOnce prefix
                  (insert r.memory.id (make_index_entry r.memory) (row prefix g.by_id)) g.by_id
                  once))
              (ground arith)
      ]

  -- Records with other IDs leave the entry as it is.
  add_records-others :
      (records : List Record) (g g' : Groups) (prefix id : Text)
      → All (λ q. q.memory.id ≢ id) records
      → add_records unicode term_hash records g ≡ some g'
      → entry_in g'.by_id prefix id ≡ entry_in g.by_id prefix id
  unfolding add_records
  add_records-others [] g g' prefix id others h =
      let same : g ≡ g' = ground arith in ap (λ (k : Groups). entry_in k.by_id prefix id) (sym same)
  add_records-others (r ∷ records) g g' prefix id (other, others) h =
      elim (Option-cases (add_record unicode term_hash r g)) [
        | inl failed ↦ absurd (ground arith)
        | inr (mid, done) ↦
            let (prefix', named, same) = add_record-by_id r g mid done in
            add_records-others records mid g' prefix id others (ground arith)
            ∙ ap (λ d. entry_in d prefix id) same
            ∙ entry_in-add_entry prefix' r.memory.id (make_index_entry r.memory) g.by_id prefix id
            ∙ ground (arith, eq_iff r.memory.id id)
      ]

  -- A record that no later one has the ID of stands in the shard of its prefix.
  pub add_records-entry :
      (before : List Record) (r : Record) (after : List Record) (g g' : Groups)
      → All (λ q. q.memory.id ≢ r.memory.id) after
      → add_records unicode term_hash (before ++ r ∷ after) g ≡ some g'
      → (prefix : Text) × (id_shard_prefix term_hash r.memory.id ≡ some prefix)
        × (entry_in g'.by_id prefix r.memory.id ≡ some (make_index_entry r.memory))
  unfolding add_records
  add_records-entry [] r after g g' others h =
      elim (Option-cases (add_record unicode term_hash r g)) [
        | inl failed ↦ absurd (ground arith)
        | inr (mid, done) ↦
            let (prefix, named, same) = add_record-by_id r g mid done in
            (
              prefix,
              named,
              add_records-others after mid g' prefix r.memory.id others (ground arith)
                  ∙ ap (λ d. entry_in d prefix r.memory.id) same
                  ∙ entry_in-add_entry prefix r.memory.id (make_index_entry r.memory) g.by_id prefix
                      r.memory.id
                  ∙ ground (arith, eq_refl prefix, eq_refl r.memory.id),
            )
      ]
  add_records-entry (q ∷ before) r after g g' others h =
      elim (Option-cases (add_record unicode term_hash q g)) [
        | inl failed ↦ absurd (ground arith)
        | inr (mid, done) ↦ add_records-entry before r after mid g' others (ground arith)
      ]
