-- ===== src/Index/Terms/Weights.antt =====
-- The score of a term in a memory, by the fields in which it occurs.
use git_memo.Base.{
  ℕ, ◌+◌, ◌≤◌, ◌≡◌, sym, ap, ◌∙◌, inl, inr, arith, true, false, not, ◌&&◌, List, [], ◌∷◌,
  Bool-cases, if◌then◌else◌,
}
use git_memo.Base.Text.{Text, ◌==◌, eq_iff, contains}
use git_memo.Base.Dict.{Dict, lookup, insert, lookup-insert}
use git_memo.Memory.{Memory}
use git_memo.Index.Terms.{
  Unicode, unique_after, unique_terms, score_of, add_weight, tokenize_all, add_weighted_group,
  weighted_terms, entity_texts, classification,
}

score_of-insert :
    (written term : Text) (score : ℕ) (scores : Dict ℕ)
    → score_of (insert written score scores) term
      ≡ (if written == term then score else score_of scores term)
unfolding score_of
score_of-insert written term score scores = ground (arith, lookup-insert written term score scores)

-- The weight, if the term is there and was not seen before.
gain : ℕ → List Text → List Text → Text → ℕ
gain weight terms seen term = if contains terms term && not (contains seen term) then weight else 0

score_of-add_weight :
    (weight : ℕ) (terms seen : List Text) (scores : Dict ℕ) (term : Text)
    → score_of (add_weight weight (unique_after seen terms) scores) term
      ≡ score_of scores term + gain weight terms seen term
unfolding add_weight unique_after gain contains
score_of-add_weight weight [] seen scores term = ground arith
score_of-add_weight weight (t ∷ terms) seen scores term = elim (Bool-cases (contains seen t)) [
  | inl old ↦
      let rest = score_of-add_weight weight terms seen scores term in
      elim (Bool-cases (t == term)) [
        | inr apart ↦ ground arith
        | inl same ↦
            let here : t ≡ term = ground (arith, eq_iff t term) in
            let known : contains seen term ≡ true = ap (contains seen) (sym here) ∙ old in
            ground arith
      ]
  | inr new ↦
      let raised = insert t (score_of scores t + weight) scores in
      let rest = score_of-add_weight weight terms (t ∷ seen) raised term in
      let first = score_of-insert t term (score_of scores t + weight) scores in
      elim (Bool-cases (t == term)) [
        | inr apart ↦ ground arith
        | inl same ↦
            let here : t ≡ term = ground (arith, eq_iff t term) in
            let unknown : contains seen term ≡ false = ap (contains seen) (sym here) ∙ new in
            let equal : score_of scores t ≡ score_of scores term = ap (score_of scores) here in
            ground arith
      ]
]

module _ (unicode : Unicode) where
  -- The weight, if the term occurs in one of the texts.
  pub weight_in : ℕ → List Text → Text → ℕ
  weight_in weight texts term = if contains (tokenize_all unicode texts) term then weight else 0

  group-weight :
      (scores : Dict ℕ) (texts : List Text) (weight : ℕ) (term : Text)
      → score_of (add_weighted_group unicode scores texts weight) term
        ≡ score_of scores term + weight_in weight texts term
  unfolding add_weighted_group unique_terms weight_in gain contains
  group-weight scores texts weight term =
      score_of-add_weight weight (tokenize_all unicode texts) [] scores term ∙ ground arith

  -- The sum of the weights of the groups of fields that have the term.
  pub weight_of : Memory → Text → ℕ
  weight_of m term =
      weight_in 8 (m.title ∷ []) term
      + weight_in 6 m.aliases term
      + weight_in 5 m.projects term
      + weight_in 5 m.topics term
      + weight_in 5 m.tags term
      + weight_in 4 (entity_texts m.entities) term
      + weight_in 3 (classification m) term
      + weight_in 2 (m.summary ∷ []) term

  weight_in-bound :
      (weight : ℕ) (texts : List Text) (term : Text) → weight_in weight texts term ≤ weight
  unfolding weight_in
  weight_in-bound weight texts term = ground arith

  -- The score that `weightedTerms` gives a term is the sum of the weights of the groups of
  -- fields in which the term occurs, each counted once, and is at most 38.
  pub weighted_terms-eq :
      (m : Memory) (term : Text)
      → (score_of (weighted_terms unicode m) term ≡ weight_of m term) × (weight_of m term ≤ 38)
  unfolding weighted_terms weight_of score_of lookup
  weighted_terms-eq m term =
      let s₁ = add_weighted_group unicode [] (m.title ∷ []) 8 in
      let s₂ = add_weighted_group unicode s₁ m.aliases 6 in
      let s₃ = add_weighted_group unicode s₂ m.projects 5 in
      let s₄ = add_weighted_group unicode s₃ m.topics 5 in
      let s₅ = add_weighted_group unicode s₄ m.tags 5 in
      let s₆ = add_weighted_group unicode s₅ (entity_texts m.entities) 4 in
      let s₇ = add_weighted_group unicode s₆ (classification m) 3 in
      (
        omega (
          arith,
          group-weight [] (m.title ∷ []) 8 term,
          group-weight s₁ m.aliases 6 term,
          group-weight s₂ m.projects 5 term,
          group-weight s₃ m.topics 5 term,
          group-weight s₄ m.tags 5 term,
          group-weight s₅ (entity_texts m.entities) 4 term,
          group-weight s₆ (classification m) 3 term,
          group-weight s₇ (m.summary ∷ []) 2 term,
        ),
        omega (
          arith,
          weight_in-bound 8 (m.title ∷ []) term,
          weight_in-bound 6 m.aliases term,
          weight_in-bound 5 m.projects term,
          weight_in-bound 5 m.topics term,
          weight_in-bound 5 m.tags term,
          weight_in-bound 4 (entity_texts m.entities) term,
          weight_in-bound 3 (classification m) term,
          weight_in-bound 2 (m.summary ∷ []) term,
        ),
      )
