-- ===== src/Validation/Cycles/Correct.antt =====
-- `checkSupersessionCycles` returns, and reports an issue just if memories supersede in a circle.
use git_memo.Base.{
  suc, ◌≡◌, ◌↔◌, sym, ◌∙◌, arith, true, some, List, [], Option-cases, inl, inr, All-sort, sort-All,
  length, sort,
}
use git_memo.Base.Text.{Text, text_le, contains}
use git_memo.Memory.{Record}
use git_memo.Validation.{Issue}
use git_memo.Validation.Cycles.{
  check_supersession_cycles, graph_of, targets_of, keys_of, path_of_id, search_nodes, start,
}
use git_memo.Validation.Cycles.Leads.{contains-All, contains_self}
use git_memo.Validation.Cycles.Sound.{search_iff}
use git_memo.Validation.Cycles.Fuel.{unmarked-length, search-Returns}
use git_memo.Validation.Cycles.Graph.{
  Above, Leads-Above, Above-Leads, ids_of, length-ids_of, target-id, graph-keys, has-key,
}

module _ (records : List Record) where
  pub check-returns : (issues : List Issue) × (check_supersession_cycles records ≡ some issues)
  unfolding check_supersession_cycles
  check-returns =
      let graph = graph_of records records in
      let (s, done) =
        search-Returns graph (path_of_id records) (ids_of records)
          (λ n t h. target-id records n t h) (suc (length records)) (sort text_le (keys_of graph))
          start
          (sort-All (λ t. contains (ids_of records) t ≡ true) text_le (keys_of graph)
            (graph-keys records))
          (omega (arith, unmarked-length (ids_of records) [], length-ids_of records)) in
      (s.issues, ground arith)

  sorted_keys :
      (n : Text)
      → (targets_of (graph_of records records) n ≡ [] → ⊥)
      → contains (sort text_le (keys_of (graph_of records records))) n ≡ true
  sorted_keys n h =
      let keys = keys_of (graph_of records records) in
      contains-All (λ t. contains (sort text_le keys) t ≡ true) keys n
        (All-sort (λ t. contains (sort text_le keys) t ≡ true) text_le keys
          (contains_self (sort text_le keys)))
        (has-key (graph_of records records) n h)

  -- The issues that `checkSupersessionCycles` returns for a list of records are none exactly if
  -- no memory is above itself: no row of records, each alone under its ID, supersedes from one
  -- to the next and back to the first.
  pub cycles_iff :
      (issues : List Issue)
      → check_supersession_cycles records ≡ some issues
      → (issues ≡ []) ↔ ((id : Text) → Above records id id → ⊥)
  unfolding check_supersession_cycles
  cycles_iff issues h =
      let graph = graph_of records records in
      elim (Option-cases (
        search_nodes graph (path_of_id records) (suc (length records))
          (sort text_le (keys_of graph)) start)) [
            | inl failed ↦ absurd (ground arith)
            | inr (s, done) ↦
                let found =
                  search_iff graph (path_of_id records) (suc (length records))
                    (sort text_le (keys_of graph)) s sorted_keys done in
                let same : s.issues ≡ issues = ground arith in
                (
                  (λ clean id circle. found.0 (same ∙ clean) (id, Above-Leads records circle)),
                  (λ acyclic. sym same ∙ found.1 (λ c. acyclic c.0 (Leads-Above records c.1))),
                )
          ]
