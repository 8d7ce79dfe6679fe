-- ===== src/Validation/Cycles/Visits.antt =====
-- What a call of the search for cycles makes of its state: no issue and an order of the nodes finished,
-- or an issue and a cycle.
use git_memo.Base.{
  ◌≡◌, ◌≢◌, refl, sym, ap, subst, ◌∙◌, ◌⊎◌, inl, inr, arith, true, Option, none, some, List, [],
  ◌∷◌, ◌++◌, Bool-cases, Option-cases, All,
}
use git_memo.Base.Text.{Text, text, ◌==◌, eq_iff, contains}
use git_memo.Base.Dict.{Dict, lookup}
use git_memo.Validation.{Issue, error}
use git_memo.Validation.Cycles.{
  active, finished, Search, report_cycle, visit_targets, targets_of, cycle_of, join_with,
}
use git_memo.Validation.Cycles.Leads.{
  Leads, edge, step_behind, IsCyclic, IsTopological, contains-append, mark-cases,
}

module _ (graph : Dict (List Text)) (path_of : Text → Text) where
  -- A search without an issue, and the nodes that it has finished, the last first.
  pub record IsClean (order : List Text) (s : Search) : Type 0 where
    pub no_issue : s.issues ≡ []
    pub no_report : s.reported ≡ []
    pub topological : IsTopological (targets_of graph) order
    pub covers : (n : Text) → lookup n s.marks ≡ some finished → contains order n ≡ true

  -- A search with an issue, in a graph that has a cycle.
  abbrev pub HasFound : Search → Type 0
  HasFound s = (s.issues ≢ []) × IsCyclic (targets_of graph)

  abbrev pub IsActive : Search → Type 0
  IsActive s = (n : Text) → lookup n s.marks ≡ some active → contains s.stack n ≡ true

  -- Every node of the stack leads to the node.
  abbrev pub IsTrail : List Text → Text → Type 0
  IsTrail stack node = (n : Text) → contains stack n ≡ true → Leads (targets_of graph) n node

  abbrev pub Grows : List Text → List Text → Type 0
  Grows order order' = (n : Text) → contains order n ≡ true → contains order' n ≡ true

  -- What a call that finishes these nodes makes of the state.
  pub record Visits (nodes : List Text) (s s' : Search) : Type 0 where
    pub same_stack : s'.stack ≡ s.stack
    pub still_active : IsActive s'
    pub still_found : HasFound s → HasFound s'
    pub cleanly :
        (order : List Text)
        → IsClean order s
        → HasFound s'
          ⊎ ((order' : List Text) × IsClean order' s'
              × Grows order order'
              × All (λ n. contains order' n ≡ true) nodes)

  pub Visits-none : (s : Search) → IsActive s → Visits [] s s
  Visits-none s active_in = record {
    same_stack = refl;
    still_active = active_in;
    still_found = λ found. found;
    cleanly = λ order clean. inr (order, clean, (λ n h. h), tt);
  }

  pub Visits-next :
      (node : Text) (nodes : List Text) (s s' s'' : Search)
      → Visits (node ∷ []) s s'
      → Visits nodes s' s''
      → Visits (node ∷ nodes) s s''
  Visits-next node nodes s s' s'' first rest = record {
    same_stack = rest.same_stack ∙ first.same_stack;
    still_active = rest.still_active;
    still_found = λ found. rest.still_found (first.still_found found);
    cleanly = λ order clean. elim (first.cleanly order clean) [
      | inl found ↦ inl (rest.still_found found)
      | inr (order', clean', grows, reached) ↦ elim (rest.cleanly order' clean') [
        | inl found ↦ inl found
        | inr (order'', clean'', grows', reached') ↦
            inr (order'', clean'', (λ n h. grows' n (grows n h)), (grows' node reached.0, reached'))
      ]
    ];
  }

  pub Visits-finished :
      (node : Text) (s : Search)
      → IsActive s
      → lookup node s.marks ≡ some finished
      → Visits (node ∷ []) s s
  Visits-finished node s active_in done = record {
    same_stack = refl;
    still_active = active_in;
    still_found = λ found. found;
    cleanly = λ order clean. inr (order, clean, (λ n h. h), (clean.covers node done, tt));
  }

  ends-nonempty : (xs : List Issue) (x : Issue) → xs ++ x ∷ [] ≢ []
  ends-nonempty [] x h = ground arith
  ends-nonempty (y ∷ xs) x h = ground arith

  report-stack : (path node : Text) (s : Search) → (report_cycle path node s).stack ≡ s.stack
  unfolding report_cycle
  report-stack path node s = ground arith

  report-marks : (path node : Text) (s : Search) → (report_cycle path node s).marks ≡ s.marks
  unfolding report_cycle
  report-marks path node s = ground arith

  report-old :
      (path node : Text) (s : Search) → s.issues ≢ [] → (report_cycle path node s).issues ≢ []
  unfolding report_cycle
  report-old path node s some_issue h =
      elim (Bool-cases (contains s.reported (join_with (text "->") (cycle_of node s.stack)))) [
        | inl old ↦ some_issue (ground arith)
        | inr new ↦
            ends-nonempty s.issues
              (error (text "SUPERSESSION_CYCLE") path
                (text "supersession cycle: " ++ join_with (text " -> ") (cycle_of node s.stack)))
              (ground arith)
      ]

  report-new :
      (path node : Text) (s : Search) → s.reported ≡ [] → (report_cycle path node s).issues ≢ []
  unfolding report_cycle contains
  report-new path node s nothing h =
      ends-nonempty s.issues
        (error (text "SUPERSESSION_CYCLE") path
          (text "supersession cycle: " ++ join_with (text " -> ") (cycle_of node s.stack)))
        (ground arith)

  -- The state that `report_cycle` makes.
  Visits-active :
      (path node : Text) (s : Search)
      → IsActive s
      → IsCyclic (targets_of graph)
      → Visits (node ∷ []) s (report_cycle path node s)
  Visits-active path node s active_in cyclic = record {
    same_stack = report-stack path node s;
    still_active = λ n h.
        rw (report-stack path node s)
          (active_in n (sym (ap (lookup n) (report-marks path node s)) ∙ h));
    still_found = λ found. (report-old path node s found.0, found.1);
    cleanly = λ order clean. inl (report-new path node s clean.no_report, cyclic);
  }

  -- What a recursive call promises.
  abbrev pub Promises : (Text → Search → Option Search) → Type 0
  Promises visit =
      (node : Text) (s s' : Search)
      → lookup node s.marks ≡ none
      → IsActive s
      → IsTrail s.stack node
      → visit node s ≡ some s'
      → Visits (node ∷ []) s s'

  -- A node of the stack that is a target of the last closes a cycle.
  closes :
      (stack : List Text) (node target : Text)
      → IsTrail stack node
      → contains (targets_of graph node) target ≡ true
      → contains (stack ++ node ∷ []) target ≡ true
      → Leads (targets_of graph) target target
  unfolding contains
  closes stack node target trail h found = elim (Bool-cases (node == target)) [
    | inl same ↦ edge (
        subst (λ n. contains (targets_of graph n) target ≡ true) {x = node} {y = target}
          (ground (arith, eq_iff node target)) h)
    | inr apart ↦
        step_behind (targets_of graph)
          (trail target (ground (arith, contains-append stack (node ∷ []) target))) h
  ]

  -- With the node on the stack, every node of the stack leads to its target.
  IsTrail-next :
      (stack : List Text) (node target : Text)
      → IsTrail stack node
      → contains (targets_of graph node) target ≡ true
      → IsTrail (stack ++ node ∷ []) target
  unfolding contains
  IsTrail-next stack node target trail h n found = elim (Bool-cases (node == n)) [
    | inl same ↦
        subst (λ m. Leads (targets_of graph) m target) {x = node} {y = n}
          (ground (arith, eq_iff node n)) (edge h)
    | inr apart ↦
        step_behind (targets_of graph)
          (trail n (ground (arith, contains-append stack (node ∷ []) n))) h
  ]

  pub visit_targets-Visits :
      (visit : Text → Search → Option Search) (path node : Text) (stack targets : List Text)
      (s s' : Search)
      → Promises visit
      → IsTrail stack node
      → All (λ t. contains (targets_of graph node) t ≡ true) targets
      → IsActive s
      → s.stack ≡ stack ++ node ∷ []
      → visit_targets visit path targets s ≡ some s'
      → Visits targets s s'
  unfolding visit_targets
  visit_targets-Visits visit path node stack [] s s' promises trail edges active_in on_top h =
      subst (Visits [] s) {x = s} {y = s'} (ground arith) (Visits-none s active_in)
  visit_targets-Visits visit path node stack (t ∷ targets) s s' promises trail (here, edges)
        active_in on_top h =
      elim (mark-cases (lookup t s.marks)) [
        | inl fresh ↦ elim (Option-cases (visit t s)) [
          | inl failed ↦ absurd (ground arith)
          | inr (mid, done) ↦
              let first =
                promises t s mid fresh active_in
                  (subst (λ st. IsTrail st t) (sym on_top) (IsTrail-next stack node t trail here))
                  done in
              Visits-next t targets s mid s' first (
                visit_targets-Visits visit path node stack targets mid s' promises trail edges
                  first.still_active (first.same_stack ∙ on_top) (ground arith))
        ]
        | inr (inl on_stack) ↦
            let first = Visits-active path t s active_in (
              t,
              closes stack node t trail here
                  (subst (λ st. contains st t ≡ true) on_top (active_in t on_stack)),
            ) in
            Visits-next t targets s (report_cycle path t s) s' first (
              visit_targets-Visits visit path node stack targets (report_cycle path t s) s' promises
                trail edges first.still_active (first.same_stack ∙ on_top) (ground arith))
        | inr (inr done) ↦ Visits-next t targets s s s' (Visits-finished t s active_in done) (
            visit_targets-Visits visit path node stack targets s s' promises trail edges active_in
              on_top (ground arith))
      ]
