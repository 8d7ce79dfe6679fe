-- ===== src/Index/Terms.antt =====
-- internal/indexer/machine.go and query.go: the terms of a text, their weights in a memory, and
-- the folders that hashes choose.
pub mod Weights
use git_memo.Base.{
  ℕ, ◌+◌, ◌-◌, Bool, true, false, not, ◌||◌, Option, none, some, List, [], ◌∷◌, ◌++◌, nat_eq,
  if◌then◌else◌, length, take, drop,
}
use git_memo.Base.Text.{Text, text, ◌==◌, is_empty, to_lower, trim_space, contains}
use git_memo.Base.Dict.{Dict, lookup, insert}
use git_memo.Memory.{Memory, Entity}

-- Go's characters: those of a text, the letters and digits among them, `unicode.ToLower`, and the
-- text of a row of them.
pub record Unicode : Type 0 where
  pub runes : Text → List ℕ
  pub is_letter : ℕ → Bool
  pub is_digit : ℕ → Bool
  pub lower : ℕ → ℕ
  pub to_text : List ℕ → Text

-- `seen` with `out`: each term once, in the order of the first.
unique_after : List Text → List Text → List Text
unfolding contains
unique_after seen [] = []
unique_after seen (term ∷ terms) =
    let old = unique_after seen terms in
    let new = unique_after (term ∷ seen) terms in if contains seen term then old else term ∷ new

-- `uniqueTerms`
unfoldable pub unique_terms : List Text → List Text
unfolding unique_after
unique_terms terms = unique_after [] terms

-- `scores[term]`
unfoldable pub score_of : Dict ℕ → Text → ℕ
unfolding lookup
score_of scores term = elim (lookup term scores) [ none ↦ 0 | some score ↦ score ]

-- `for term := range seen { scores[term] += weight }`
unfoldable pub add_weight : ℕ → List Text → Dict ℕ → Dict ℕ
unfolding score_of insert
add_weight weight [] scores = scores
add_weight weight (term ∷ terms) scores =
    add_weight weight terms (insert term (score_of scores term + weight) scores)

-- `entityTexts`
unfoldable pub entity_texts : List Entity → List Text
entity_texts [] = []
entity_texts (entity ∷ entities) = entity.kind ∷ entity.name ∷ entity_texts entities

-- `classification`
unfoldable pub classification : Memory → List Text
classification m =
    m.kind ∷ m.lifecycle ∷ elim m.open_loop_status [ none ↦ [] | some status ↦ status ∷ [] ]

module _ (unicode : Unicode) where
  -- `flush`
  unfoldable pub flush : List ℕ → List Text
  flush [] = []
  flush (r ∷ current) = unicode.to_text (r ∷ current) ∷ []

  -- The loop of `tokenize`: the terms from here on, when `current` has been read of one.
  unfoldable pub tokens : List ℕ → List ℕ → List Text
  unfolding flush
  tokens current [] = flush current
  tokens current (r ∷ rs) =
      let inside = tokens (current ++ unicode.lower r ∷ []) rs in
      let after = tokens [] rs in
      if unicode.is_letter r || unicode.is_digit r then inside else flush current ++ after

  -- `tokenize`
  unfoldable pub tokenize : Text → List Text
  unfolding tokens
  tokenize s = tokens [] (unicode.runes s)

  unfoldable pub tokenize_all : List Text → List Text
  unfolding tokenize
  tokenize_all [] = []
  tokenize_all (s ∷ texts) = tokenize s ++ tokenize_all texts

  -- `addWeightedGroup`
  unfoldable pub add_weighted_group : Dict ℕ → List Text → ℕ → Dict ℕ
  unfolding tokenize_all unique_terms add_weight
  add_weighted_group scores texts weight =
      add_weight weight (unique_terms (tokenize_all texts)) scores

  -- `weightedTerms`
  unfoldable pub weighted_terms : Memory → Dict ℕ
  unfolding add_weighted_group entity_texts classification
  weighted_terms m =
      let titled = add_weighted_group [] (m.title ∷ []) 8 in
      let aliased = add_weighted_group titled m.aliases 6 in
      let filed = add_weighted_group aliased m.projects 5 in
      let on_topics = add_weighted_group filed m.topics 5 in
      let tagged = add_weighted_group on_topics m.tags 5 in
      let named = add_weighted_group tagged (entity_texts m.entities) 4 in
      let classified = add_weighted_group named (classification m) 3 in
      add_weighted_group classified (m.summary ∷ []) 2

-- `termHash` is SHA-256 in 64 hexadecimal digits.
module _ (term_hash : Text → Text) where
  -- `termBucket`
  unfoldable pub term_bucket : Text → Text
  term_bucket term = take 3 (term_hash term)

  -- `idShardPrefix`
  unfoldable pub id_shard_prefix : Text → Option Text
  unfolding is_empty
  id_shard_prefix raw =
      let id = to_lower (trim_space raw) in
      if is_empty id then none else some (take 3 (term_hash id))

-- `idShardPath`
unfoldable pub id_shard_path : Text → Option Text
id_shard_path prefix =
    if not (nat_eq (length prefix) 3)
    then none
    else some (text "index/by-id/" ++ take 2 prefix ++ text "/" ++ drop 2 prefix ++ text ".json")
