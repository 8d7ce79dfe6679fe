-- ===== src/Validation/Cycles/Fuel.antt =====
-- The search for cycles ends: every call marks a node, and the nodes are no more than the fuel.
use git_memo.Base.{
  ℕ, zero, suc, ◌≤◌, ◌<◌, ◌≡◌, refl, sym, subst, inl, inr, arith, true, false, Option, none, some,
  List, [], ◌∷◌, Bool-cases, Option-cases, All, All-map, is_some, length, if◌then◌else◌,
}
use git_memo.Base.Text.{Text, ◌==◌, eq_iff, contains}
use git_memo.Base.Dict.{Dict, lookup, insert, lookup-insert}
use git_memo.Validation.Cycles.{
  Mark, active, finished, Search, report_cycle, enter, leave, visit_targets, dfs, search_nodes,
  targets_of,
}
use git_memo.Validation.Cycles.Leads.{contains_self, mark-cases}

-- The nodes of the list without a mark.
pub unmarked : List Text → Dict Mark → ℕ
unfolding lookup
unmarked [] marks = 0
unmarked (n ∷ nodes) marks =
    let rest = unmarked nodes marks in if is_some (lookup n marks) then rest else suc rest

-- No mark gets lost.
abbrev Keeps : Dict Mark → Dict Mark → Type 0
Keeps marks marks' = (n : Text) → is_some (lookup n marks) ≡ true → is_some (lookup n marks') ≡ true

unmarked-Keeps :
    (nodes : List Text) (marks marks' : Dict Mark)
    → Keeps marks marks'
    → unmarked nodes marks' ≤ unmarked nodes marks
unfolding unmarked
unmarked-Keeps [] marks marks' keeps = omega arith
unmarked-Keeps (n ∷ nodes) marks marks' keeps =
    ground (arith, unmarked-Keeps nodes marks marks' keeps, keeps n)

Keeps-insert :
    (node : Text) (mark : Mark) (marks : Dict Mark) → Keeps marks (insert node mark marks)
Keeps-insert node mark marks n h = ground (arith, lookup-insert node n mark marks)

unmarked-insert :
    (nodes : List Text) (node : Text) (mark : Mark) (marks : Dict Mark)
    → contains nodes node ≡ true
    → lookup node marks ≡ none
    → unmarked nodes (insert node mark marks) < unmarked nodes marks
unfolding unmarked contains
unmarked-insert [] node mark marks found fresh = absurd (ground arith)
unmarked-insert (n ∷ nodes) node mark marks found fresh =
    let less = unmarked-Keeps nodes marks (insert node mark marks) (Keeps-insert node mark marks) in
    elim (Bool-cases (n == node)) [
      | inl same ↦
          let here : n ≡ node = ground (arith, eq_iff n node) in
          let gone : is_some (lookup n marks) ≡ false =
            subst (λ m. is_some (lookup m marks) ≡ false) (sym here) (ground arith) in
          ground (arith, lookup-insert node n mark marks)
      | inr apart ↦
          let rest = unmarked-insert nodes node mark marks (ground arith) fresh in
          ground (arith, lookup-insert node n mark marks)
    ]

module _ (graph : Dict (List Text)) (path_of : Text → Text) (nodes : List Text)
    (closed : (n t : Text) → contains (targets_of graph n) t ≡ true → contains nodes t ≡ true) where
  -- A call at a node without a mark returns, if so many nodes have none.
  abbrev Returns : ℕ → (Text → Search → Option Search) → Type 0
  Returns fuel visit =
      (node : Text) (s : Search)
      → lookup node s.marks ≡ none
      → contains nodes node ≡ true
      → unmarked nodes s.marks ≤ fuel
      → (s' : Search) × (visit node s ≡ some s') × Keeps s.marks s'.marks

  report-marks : (path node : Text) (s : Search) → (report_cycle path node s).marks ≡ s.marks
  unfolding report_cycle
  report-marks path node s = ground arith

  visit_targets-Returns :
      (fuel : ℕ) (visit : Text → Search → Option Search) (path : Text) (targets : List Text)
      (s : Search)
      → Returns fuel visit
      → All (λ t. contains nodes t ≡ true) targets
      → unmarked nodes s.marks ≤ fuel
      → (s' : Search) × (visit_targets visit path targets s ≡ some s') × Keeps s.marks s'.marks
  unfolding visit_targets
  visit_targets-Returns fuel visit path [] s returns known enough = (s, refl, λ n h. h)
  visit_targets-Returns fuel visit path (t ∷ targets) s returns (here, known) enough =
      elim (mark-cases (lookup t s.marks)) [
        | inl fresh ↦
            let (mid, done, keeps) = returns t s fresh here enough in
            let (s', rest, keeps') =
              visit_targets-Returns fuel visit path targets mid returns known
                (omega (arith, unmarked-Keeps nodes s.marks mid.marks keeps)) in
            (s', ground arith, λ n h. keeps' n (keeps n h))
        | inr (inl on_stack) ↦
            let same = report-marks path t s in
            let (s', rest, keeps') =
              visit_targets-Returns fuel visit path targets (report_cycle path t s) returns known
                (subst (λ m. unmarked nodes m ≤ fuel) (sym same) enough) in
            (s', ground arith, subst (λ m. Keeps m s'.marks) same keeps')
        | inr (inr finished_before) ↦
            let (s', rest, keeps') =
              visit_targets-Returns fuel visit path targets s returns known enough in
            (s', ground arith, keeps')
      ]

  dfs-Returns : (fuel : ℕ) → Returns fuel (dfs graph path_of fuel)
  unfolding dfs enter leave
  dfs-Returns zero node s fresh here enough =
      absurd (omega (arith, unmarked-insert nodes node active s.marks here fresh))
  dfs-Returns (suc fuel) node s fresh here enough =
      let (mid, done, keeps) =
        visit_targets-Returns fuel (dfs graph path_of fuel) (path_of node) (targets_of graph node)
          (enter node s) (dfs-Returns fuel)
          (All-map (targets_of graph node) (λ t h. closed node t h)
            (contains_self (targets_of graph node)))
          (omega (arith, unmarked-insert nodes node active s.marks here fresh)) in
      (
        leave node mid,
        ground arith,
        (λ n h.
            Keeps-insert node finished mid.marks n
              (keeps n (Keeps-insert node active s.marks n h))),
      )

  pub search-Returns :
      (fuel : ℕ) (starts : List Text) (s : Search)
      → All (λ t. contains nodes t ≡ true) starts
      → unmarked nodes s.marks ≤ fuel
      → (s' : Search) × (search_nodes graph path_of fuel starts s ≡ some s')
  unfolding search_nodes
  search-Returns fuel [] s known enough = (s, refl)
  search-Returns fuel (node ∷ starts) s (here, known) enough =
      elim (Option-cases (lookup node s.marks)) [
        | inl fresh ↦
            let (mid, done, keeps) = dfs-Returns fuel node s fresh here enough in
            let (s', rest) =
              search-Returns fuel starts mid known
                (omega (arith, unmarked-Keeps nodes s.marks mid.marks keeps)) in
            (s', ground arith)
        | inr (mark, marked) ↦
            let (s', rest) = search-Returns fuel starts s known enough in (s', ground arith)
      ]

pub unmarked-length : (nodes : List Text) (marks : Dict Mark) → unmarked nodes marks ≤ length nodes
unfolding unmarked
unmarked-length [] marks = omega arith
unmarked-length (n ∷ nodes) marks = ground (arith, unmarked-length nodes marks)
