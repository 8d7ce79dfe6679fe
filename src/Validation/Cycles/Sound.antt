-- ===== src/Validation/Cycles/Sound.antt =====
-- The search finds an issue if and only if the graph has a cycle: what each function of the search
-- keeps true of its state.
use git_memo.Base.{
  ℕ, zero, suc, ◌≡◌, ◌≢◌, refl, sym, ap, subst, ◌∙◌, ◌↔◌, inl, inr, arith, true, false, some, List,
  [], ◌∷◌, ◌++◌, Option-cases, All,
}
use git_memo.Base.Text.{Text, ◌==◌, eq_refl, contains}
use git_memo.Base.Dict.{Dict, lookup, lookup-insert}
use git_memo.Validation.Cycles.{
  active, finished, Search, drop_last, enter, leave, visit_targets, dfs, search_nodes, start,
  targets_of,
}
use git_memo.Validation.Cycles.Leads.{
  Leads, edge, along, IsCyclic, contains-All, contains_self, contains-append, no_cycle, mark-cases,
}
use git_memo.Validation.Cycles.Visits.{
  IsActive, Promises, IsClean, Visits-finished, visit_targets-Visits, Visits-none, Visits-next,
  Visits,
}

module _ (graph : Dict (List Text)) (path_of : Text → Text) where
  drop_last-append : (stack : List Text) (node : Text) → drop_last (stack ++ node ∷ []) ≡ stack
  unfolding drop_last
  drop_last-append [] node = refl
  drop_last-append (s ∷ []) node = refl
  drop_last-append (s ∷ t ∷ stack) node = ap (◌∷◌ s) (drop_last-append (t ∷ stack) node)

  enter-IsActive :
      (node : Text) (s : Search) → IsActive graph path_of s → IsActive graph path_of (enter node s)
  unfolding enter contains
  enter-IsActive node s active_in n h = ground (
    arith,
    lookup-insert node n active s.marks,
    contains-append s.stack (node ∷ []) n,
    active_in n,
  )

  enter-IsClean :
      (node : Text) (s : Search) (order : List Text)
      → IsClean graph path_of order s
      → IsClean graph path_of order (enter node s)
  unfolding enter
  enter-IsClean node s order clean = record {
    no_issue = clean.no_issue;
    no_report = clean.no_report;
    topological = clean.topological;
    covers = λ n h. ground (arith, lookup-insert node n active s.marks, clean.covers n);
  }

  leave-IsActive :
      (node : Text) (stack : List Text) (s : Search)
      → s.stack ≡ stack ++ node ∷ []
      → IsActive graph path_of s
      → IsActive graph path_of (leave node s)
  unfolding leave contains
  leave-IsActive node stack s on_top active_in n h =
      let apart : (node == n) ≡ false = ground (arith, lookup-insert node n finished s.marks) in
      let was : lookup n s.marks ≡ some active =
        ground (arith, lookup-insert node n finished s.marks) in
      let there : contains (stack ++ node ∷ []) n ≡ true =
        subst (λ st. contains st n ≡ true) on_top (active_in n was) in
      subst (λ st. contains st n ≡ true) (sym (ap drop_last on_top ∙ drop_last-append stack node))
        (ground (arith, contains-append stack (node ∷ []) n))

  leave-IsClean :
      (node : Text) (s : Search) (order : List Text)
      → IsClean graph path_of order s
      → All (λ t. contains order t ≡ true) (targets_of graph node)
      → IsClean graph path_of (node ∷ order) (leave node s)
  unfolding leave contains
  leave-IsClean node s order clean reached = record {
    no_issue = clean.no_issue;
    no_report = clean.no_report;
    topological = (reached, clean.topological);
    covers = λ n h. ground (arith, lookup-insert node n finished s.marks, clean.covers n);
  }

  -- Entering a node, visiting its targets and leaving it visits the node.
  leave-Visits :
      (node : Text) (s mid : Search)
      → Visits graph path_of (targets_of graph node) (enter node s) mid
      → Visits graph path_of (node ∷ []) s (leave node mid)
  unfolding enter leave contains
  leave-Visits node s mid inner = record {
    same_stack = ap drop_last inner.same_stack ∙ drop_last-append s.stack node;
    still_active = leave-IsActive node s.stack mid inner.same_stack inner.still_active;
    still_found = λ found. inner.still_found found;
    cleanly = λ order clean. elim (inner.cleanly order (enter-IsClean node s order clean)) [
      | inl found ↦ inl found
      | inr (order', clean', grows, reached) ↦ inr (
        node ∷ order',
        leave-IsClean node mid order' clean' reached,
        (λ n h. ground (arith, grows n h)),
        (ground (arith, eq_refl node), tt),
      )
    ];
  }

  dfs-Visits : (fuel : ℕ) → Promises graph path_of (dfs graph path_of fuel)
  unfolding dfs enter
  dfs-Visits zero node s s' fresh active_in trail h = absurd (ground arith)
  dfs-Visits (suc fuel) node s s' fresh active_in trail h =
      elim (Option-cases (
        visit_targets (dfs graph path_of fuel) (path_of node) (targets_of graph node)
          (enter node s))) [
            | inl failed ↦ absurd (ground arith)
            | inr (mid, done) ↦
                let inner =
                  visit_targets-Visits graph path_of (dfs graph path_of fuel) (path_of node) node
                    s.stack (targets_of graph node) (enter node s) mid (dfs-Visits fuel) trail
                    (contains_self (targets_of graph node)) (enter-IsActive node s active_in) refl
                    done in
                subst (Visits graph path_of (node ∷ []) s) {x = leave node mid} {y = s'}
                  (ground arith) (leave-Visits node s mid inner)
          ]

  search_nodes-Visits :
      (fuel : ℕ) (nodes : List Text) (s s' : Search)
      → IsActive graph path_of s
      → s.stack ≡ []
      → search_nodes graph path_of fuel nodes s ≡ some s'
      → Visits graph path_of nodes s s'
  unfolding search_nodes contains
  search_nodes-Visits fuel [] s s' active_in empty h =
      subst (Visits graph path_of [] s) {x = s} {y = s'} (ground arith)
        (Visits-none graph path_of s active_in)
  search_nodes-Visits fuel (node ∷ nodes) s s' active_in empty h =
      elim (mark-cases (lookup node s.marks)) [
        | inl fresh ↦ elim (Option-cases (dfs graph path_of fuel node s)) [
          | inl failed ↦ absurd (ground arith)
          | inr (mid, done) ↦
              let first =
                dfs-Visits fuel node s mid fresh active_in
                  (λ n found. absurd (ground (arith, ap (λ st. contains st n) empty))) done in
              Visits-next graph path_of node nodes s mid s' first (
                search_nodes-Visits fuel nodes mid s' first.still_active (first.same_stack ∙ empty)
                  (ground arith))
        ]
        | inr (inl on_stack) ↦
            absurd (ground (arith, active_in node on_stack, ap (λ st. contains st node) empty))
        | inr (inr done) ↦
            Visits-next graph path_of node nodes s s s'
              (Visits-finished graph path_of node s active_in done)
              (search_nodes-Visits fuel nodes s s' active_in empty (ground arith))
      ]

  -- A path starts at a node that has a target.
  starts-edge : {a b : Text} → Leads (targets_of graph) a b → targets_of graph a ≢ []
  unfolding contains
  starts-edge {a} {b} (edge h) no_target = ground (arith, ap (λ ts. contains ts b) no_target)
  starts-edge {a} (along {b = m} h rest) no_target =
      ground (arith, ap (λ ts. contains ts m) no_target)

  -- A search of all nodes that have targets finds an issue just if there is a cycle.
  pub search_iff :
      (fuel : ℕ) (nodes : List Text) (s : Search)
      → ((n : Text) → targets_of graph n ≢ [] → contains nodes n ≡ true)
      → search_nodes graph path_of fuel nodes start ≡ some s
      → (s.issues ≡ []) ↔ (IsCyclic (targets_of graph) → ⊥)
  unfolding lookup contains
  search_iff fuel nodes s all_nodes h =
      let visits = search_nodes-Visits fuel nodes start s (λ n k. absurd (ground arith)) refl h in
      let outcome = visits.cleanly [] (record {
        no_issue = refl;
        no_report = refl;
        topological = tt;
        covers = λ n k. absurd (ground arith);
      }) in
      elim outcome [
        | inl (found, cyclic) ↦
            (λ none_found. absurd (found none_found), λ acyclic. absurd (acyclic cyclic))
        | inr (order, clean, grows, reached) ↦ (
          (λ none_found cyclic.
              no_cycle (targets_of graph) order cyclic.0 clean.topological
                (contains-All (λ n. contains order n ≡ true) nodes cyclic.0 reached
                  (all_nodes cyclic.0 (starts-edge cyclic.1)))
                cyclic.1),
          (λ acyclic. clean.no_issue),
        )
      ]
