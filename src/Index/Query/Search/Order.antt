-- ===== src/Index/Query/Search/Order.antt =====
-- The order and the number of the results of a search.
use git_memo.Base.{
  ℕ, zero, suc, ◌≤◌, ◌≡◌, refl, sym, ap, subst, inl, inr, arith, Bool, true, false, not, ◌&&◌, List,
  [], ◌∷◌, nat_eq, ltb, Bool-cases, Option-cases, All, All-map, if◌then◌else◌, length, length-take,
  take, sort,
}
use git_memo.Base.Text.{Text, text_le}
use git_memo.Base.Int.{ℤ, pos, negsuc, int_eq, less_int, int_eq_sound}
use git_memo.Base.Result.{ok, ok-injective, bind-ok, reject_if-ok, ◌>>=◌}
use git_memo.Base.Sorting.{
  IsSorted, IsTotal, IsTransitive, sort-IsSorted, text_le-IsTotal, text_le-IsTransitive,
}
use git_memo.Index.Machine.{Codecs}
use git_memo.Index.Query.{
  Worktree, SearchResult, IdCache, lookup_entry, result_from_entry, no_terms, all_suppressed,
}
use git_memo.Index.Query.Search.{
  Ranked, rank_le, rank, ranked_of, search_limit, results_of, search_terms, scan_terms, Scan,
  is_none_found,
}

less_int-flip : (a b : ℤ) → int_eq a b ≡ false → less_int a b ≡ false → less_int b a ≡ true
unfolding less_int int_eq
less_int-flip (pos a) (pos b) h k = ground arith
less_int-flip (pos a) (negsuc b) h k = refl
less_int-flip (negsuc a) (pos b) h k = absurd (ground arith)
less_int-flip (negsuc a) (negsuc b) h k = ground arith

less_int_trans : (a b c : ℤ) → less_int a b ≡ true → less_int b c ≡ true → less_int a c ≡ true
unfolding less_int
less_int_trans (pos a) (pos b) (pos c) h k = ground arith
less_int_trans (pos a) (pos b) (negsuc c) h k = absurd (ground arith)
less_int_trans (pos a) (negsuc b) c h k = absurd (ground arith)
less_int_trans (negsuc a) (pos b) (pos c) h k = refl
less_int_trans (negsuc a) (pos b) (negsuc c) h k = absurd (ground arith)
less_int_trans (negsuc a) (negsuc b) (pos c) h k = refl
less_int_trans (negsuc a) (negsuc b) (negsuc c) h k = ground arith

int_eq-sym : (a b : ℤ) → int_eq a b ≡ int_eq b a
unfolding int_eq
int_eq-sym (pos a) (pos b) = ground arith
int_eq-sym (pos a) (negsuc b) = refl
int_eq-sym (negsuc a) (pos b) = refl
int_eq-sym (negsuc a) (negsuc b) = ground arith

less_int_irrefl : (a : ℤ) → less_int a a ≡ false
unfolding less_int
less_int_irrefl (pos a) = ground arith
less_int_irrefl (negsuc a) = ground arith

int_eq_self : (a : ℤ) → int_eq a a ≡ true
unfolding int_eq
int_eq_self (pos a) = ground arith
int_eq_self (negsuc a) = ground arith

rank_le-IsTotal : IsTotal rank_le
unfolding rank_le
rank_le-IsTotal a b h =
    ground
      (arith, less_int-flip b.score a.score, int_eq-sym a.score b.score, text_le-IsTotal a.id b.id)

-- By the score, a higher one first, and then by the ID.
score_le : Ranked → Ranked → Bool
score_le a b = if not (int_eq a.score b.score) then less_int b.score a.score else text_le a.id b.id

score_le-IsTransitive : IsTransitive score_le
unfolding score_le
score_le-IsTransitive a b c h k = elim (Bool-cases (int_eq a.score b.score)) [
  | inl same ↦
      let equal = int_eq_sound a.score b.score same in
      elim (Bool-cases (int_eq b.score c.score)) [
        | inl same' ↦
            let all : int_eq a.score c.score ≡ true =
              subst (λ s. int_eq s c.score ≡ true) (sym equal) same' in
            ground (arith, text_le-IsTransitive a.id b.id c.id)
        | inr apart ↦
            let other : int_eq a.score c.score ≡ false =
              subst (λ s. int_eq s c.score ≡ false) (sym equal) apart in
            let less : less_int c.score a.score ≡ true =
              subst (λ s. less_int c.score s ≡ true) (sym equal) (ground arith) in
            ground arith
      ]
  | inr apart ↦
      let higher : less_int b.score a.score ≡ true = ground arith in
      elim (Bool-cases (int_eq b.score c.score)) [
        | inl same ↦
            let equal = int_eq_sound b.score c.score same in
            let less : less_int c.score a.score ≡ true =
              subst (λ s. less_int s a.score ≡ true) equal higher in
            let other : int_eq a.score c.score ≡ false =
              subst (λ s. int_eq a.score s ≡ false) equal apart in
            ground arith
        | inr apart' ↦
            let less = less_int_trans c.score b.score a.score (ground arith) higher in
            elim (Bool-cases (int_eq a.score c.score)) [
              | inr other ↦ ground arith
              | inl same ↦
                  let loop : less_int c.score c.score ≡ true =
                    subst (λ s. less_int c.score s ≡ true) (int_eq_sound a.score c.score same)
                      less in
                  absurd (ground (arith, less_int_irrefl c.score))
            ]
      ]
]

rank_le-IsTransitive : IsTransitive rank_le
unfolding rank_le score_le
rank_le-IsTransitive a b c h k = ground (arith, score_le-IsTransitive a b c)

take-IsSorted : (n : ℕ) (xs : List Ranked) → IsSorted rank_le xs → IsSorted rank_le (take n xs)
take-IsSorted zero xs h = tt
take-IsSorted (suc n) [] h = tt
take-IsSorted (suc n) (x ∷ xs) (first, rest) = (take-All n xs first, take-IsSorted n xs rest)
  where
    take-All :
        (n : ℕ) (ys : List Ranked)
        → All (λ y. rank_le x y ≡ true) ys
        → All (λ y. rank_le x y ≡ true) (take n ys)
    take-All zero ys k = tt
    take-All (suc n) [] k = tt
    take-All (suc n) (y ∷ ys) (hy, k) = (hy, take-All n ys k)

All-unit : (ranks : List Ranked) → All (λ r. Unit {0}) ranks
All-unit [] = tt
All-unit (r ∷ ranks) = (tt, All-unit ranks)

-- More matched terms first, then a higher score.
pub result_le : SearchResult → SearchResult → Bool
result_le a b =
    if not (nat_eq (length a.matched_terms) (length b.matched_terms))
    then ltb (length b.matched_terms) (length a.matched_terms)
    else not (less_int a.score b.score)

-- A score that is not lower.
not_lower :
    (a b : ℤ) → (if not (int_eq a b) then less_int b a else true) ≡ true → less_int a b ≡ false
not_lower a b h = elim (Bool-cases (int_eq a b)) [
  | inl same ↦ subst (λ c. less_int a c ≡ false) (int_eq_sound a b same) (less_int_irrefl a)
  | inr apart ↦ elim (Bool-cases (less_int a b)) [
    | inr done ↦ done
    | inl lower ↦
        absurd (ground (arith, less_int_trans a b a lower (ground arith), less_int_irrefl a))
  ]
]

-- What the order of the ranks says of two results.
IsBefore : Ranked → ℤ → List Text → Type 0
IsBefore r score matched =
    (if not (nat_eq (length r.matched) (length matched))
      then ltb (length matched) (length r.matched)
      else not (less_int r.score score))
    ≡ true

rank_le-IsBefore : (r q : Ranked) → rank_le r q ≡ true → IsBefore r q.score q.matched
unfolding rank_le IsBefore
rank_le-IsBefore r q h = elim (Bool-cases (int_eq r.score q.score)) [
  | inl same ↦ ground (arith, not_lower r.score q.score (ground arith))
  | inr apart ↦ elim (Bool-cases (less_int q.score r.score)) [
    | inl higher ↦ ground (arith, not_lower r.score q.score (ground arith))
    | inr other ↦ ground arith
  ]
]

module _ (codecs : Codecs) (term_hash : Text → Text) (tree : Worktree) where
  -- A result stands for its rank.
  results_of-All :
      (P : ℤ → List Text → Type 0) (ranks : List Ranked) (cache : IdCache)
      (results : List SearchResult)
      → All (λ r. P r.score r.matched) ranks
      → results_of codecs term_hash tree ranks cache ≡ ok results
      → All (λ x. P x.score x.matched_terms) results × (length results ≡ length ranks)
  unfolding results_of result_from_entry
  results_of-All P [] cache results h done =
      subst (λ rs. All (λ x. P x.score x.matched_terms) rs × (length rs ≡ 0)) {x = []}
        (ok-injective done) (tt, refl)
  results_of-All P (r ∷ ranks) cache results (here, h) done =
      let ((found, cache'), looked, next) =
        bind-ok (lookup_entry codecs term_hash tree r.id cache) done in
      elim (Option-cases found) [
        | inl missing ↦ absurd (ground arith)
        | inr (entry, is_entry) ↦
            let step : (results_of codecs term_hash tree ranks cache' >>= λ rest.
            ok (result_from_entry entry r.score r.matched ∷ rest))
                ≡ ok results =
              ground arith in
            let (rest, more, last) = bind-ok (results_of codecs term_hash tree ranks cache') step in
            let (ih, count) = results_of-All P ranks cache' rest h more in
            subst (λ rs. All (λ x. P x.score x.matched_terms) rs × (length rs ≡ suc (length ranks)))
              {x = result_from_entry entry r.score r.matched ∷ rest} (ok-injective last)
              ((here, ih), ap suc count)
      ]

  results_of-IsSorted :
      (ranks : List Ranked) (cache : IdCache) (results : List SearchResult)
      → IsSorted rank_le ranks
      → results_of codecs term_hash tree ranks cache ≡ ok results
      → IsSorted result_le results
  unfolding results_of result_from_entry result_le IsBefore
  results_of-IsSorted [] cache results h done =
      subst (IsSorted result_le) {x = []} (ok-injective done) tt
  results_of-IsSorted (r ∷ ranks) cache results (first, rest) done =
      let ((found, cache'), looked, next) =
        bind-ok (lookup_entry codecs term_hash tree r.id cache) done in
      elim (Option-cases found) [
        | inl missing ↦ absurd (ground arith)
        | inr (entry, is_entry) ↦
            let step : (results_of codecs term_hash tree ranks cache' >>= λ others.
            ok (result_from_entry entry r.score r.matched ∷ others))
                ≡ ok results =
              ground arith in
            let (others, more, last) =
              bind-ok (results_of codecs term_hash tree ranks cache') step in
            let (behind, count) =
              results_of-All (IsBefore r) ranks cache' others
                (All-map ranks (λ q h. rank_le-IsBefore r q h) first) more in
            subst (IsSorted result_le) {x = result_from_entry entry r.score r.matched ∷ others}
              (ok-injective last) (behind, results_of-IsSorted ranks cache' others rest more)
      ]

  -- If the search of terms succeeds, its results are at most the limit, or at most 10 if the
  -- limit is not positive, and stand in an order in which none has fewer matched terms than a
  -- later one, nor, with as many, a lower score.
  pub search_terms-IsSorted :
      (terms : List Text) (limit : ℤ) (results : List SearchResult)
      → search_terms codecs term_hash tree terms limit ≡ ok results
      → IsSorted result_le results × (length results ≤ search_limit limit)
  unfolding search_terms rank
  search_terms-IsSorted terms limit results h =
      let (some_term, h₁) = reject_if-ok (nat_eq (length terms) 0) no_terms h in
      let begin : Scan = record {
        aggregates = [];
        cache = [];
        found_terms = 0;
        suppressed_terms = 0;
      } in
      let (s, scanned, h₂) = bind-ok (scan_terms codecs term_hash tree terms begin) h₁ in
      let (some_found, h₃) =
        reject_if-ok
          (is_none_found s && ltb 0 s.found_terms && nat_eq s.suppressed_terms s.found_terms)
          all_suppressed h₂ in
      let ranks = ranked_of s.aggregates in
      let sorted = sort-IsSorted rank_le rank_le-IsTotal rank_le-IsTransitive ranks in
      let (all, count) =
        results_of-All (λ score matched. Unit) (rank (search_limit limit) s.aggregates) [] results
          (All-unit (rank (search_limit limit) s.aggregates)) h₃ in
      (
        results_of-IsSorted (rank (search_limit limit) s.aggregates) [] results
            (take-IsSorted (search_limit limit) (sort rank_le ranks) sorted) h₃,
        omega (arith, count, length-take (search_limit limit) (sort rank_le ranks)),
      )
