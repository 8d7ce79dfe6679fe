-- ===== src/Validation/Errors.antt =====
-- Which issues are errors: all that the checks of relationships and of cycles raise.
use git_memo.Base.{
  ℕ, zero, suc, ◌≡◌, refl, subst, inl, inr, arith, Bool, true, false, Option, some, List, [], ◌∷◌,
  ◌++◌, Bool-cases, Option-cases, All, All-append, sort, length,
}
use git_memo.Base.Text.{Text, text, ◌==◌, eq_iff, eq_refl, contains, text_le}
use git_memo.Base.Dict.{Dict, lookup}
use git_memo.Memory.{Record, Relationship}
use git_memo.Validation.{Issue, error, has_errors}
use git_memo.Validation.Cycles.{
  Search, start, report_cycle, cycle_of, join_with, enter, leave, visit_targets, dfs, search_nodes,
  check_supersession_cycles, graph_of, keys_of, path_of_id, targets_of,
}
use git_memo.Validation.Cycles.Leads.{mark-cases}
use git_memo.Validation.Relations.{
  error_if, target_issues, edge_issues, edges_issues, edge_key, relation_issues, superseded_issues,
  count_incoming, check_relations,
}

abbrev pub IsError : Issue → Type 0
IsError i = i.severity ≡ text "ERROR"

abbrev pub IsNoError : Issue → Type 0
IsNoError i = (i.severity == text "ERROR") ≡ false

pub has_errors-IsNoError : (issues : List Issue) → has_errors issues ≡ false → All IsNoError issues
unfolding has_errors
has_errors-IsNoError [] h = tt
has_errors-IsNoError (i ∷ issues) h = (ground arith, has_errors-IsNoError issues (ground arith))

pub errors-nil : (issues : List Issue) → All IsError issues → All IsNoError issues → issues ≡ []
errors-nil [] h k = refl
errors-nil (i ∷ issues) (hi, h) (ki, k) = absurd (ground (arith, eq_iff i.severity (text "ERROR")))

-- A list of errors.
pub record AreErrors (issues : List Issue) : Type 0 where
  pub each : All IsError issues

AreErrors-append : (xs ys : List Issue) → AreErrors xs → AreErrors ys → AreErrors (xs ++ ys)
AreErrors-append xs ys h k = record { each = All-append IsError xs ys h.each k.each }

error_if-AreErrors :
    (test : Bool) (code path message : Text) → AreErrors (error_if test code path message)
unfolding error_if error
error_if-AreErrors true code path message = record { each = (refl, tt) }
error_if-AreErrors false code path message = record { each = tt }

target_issues-AreErrors :
    (path : Text) (e : Relationship) (matches : List Record)
    → AreErrors (target_issues path e matches)
unfolding target_issues error
target_issues-AreErrors path e [] = record { each = (refl, tt) }
target_issues-AreErrors path e (q ∷ []) = error_if-AreErrors _ _ _ _
target_issues-AreErrors path e (q ∷ other ∷ rest) = record { each = (refl, tt) }

edge_issues-AreErrors :
    (records : List Record) (r : Record) (seen : List Text) (e : Relationship)
    → AreErrors (edge_issues records r seen e)
unfolding edge_issues
edge_issues-AreErrors records r seen e =
    AreErrors-append _ _
      (AreErrors-append _ _ (error_if-AreErrors _ _ _ _) (error_if-AreErrors _ _ _ _))
      (target_issues-AreErrors r.path e _)

edges_issues-AreErrors :
    (records : List Record) (r : Record) (seen : List Text) (edges : List Relationship)
    → AreErrors (edges_issues records r seen edges)
unfolding edges_issues
edges_issues-AreErrors records r seen [] = record { each = tt }
edges_issues-AreErrors records r seen (e ∷ edges) =
    AreErrors-append _ _ (edge_issues-AreErrors records r seen e)
      (edges_issues-AreErrors records r (edge_key e ∷ seen) edges)

relation_issues-AreErrors : (all records : List Record) → AreErrors (relation_issues all records)
unfolding relation_issues
relation_issues-AreErrors all [] = record { each = tt }
relation_issues-AreErrors all (r ∷ records) =
    AreErrors-append _ _ (edges_issues-AreErrors all r [] r.memory.relationships)
      (relation_issues-AreErrors all records)

superseded_issues-AreErrors :
    (incoming : Dict ℕ) (records : List Record) → AreErrors (superseded_issues incoming records)
unfolding superseded_issues
superseded_issues-AreErrors incoming [] = record { each = tt }
superseded_issues-AreErrors incoming (r ∷ records) =
    AreErrors-append _ _ (error_if-AreErrors _ _ _ _) (superseded_issues-AreErrors incoming records)

pub check_relations-AreErrors : (records : List Record) → AreErrors (check_relations records)
unfolding check_relations
check_relations-AreErrors records =
    AreErrors-append _ _ (relation_issues-AreErrors records records)
      (superseded_issues-AreErrors (count_incoming records []) records)

-- The search for cycles adds errors only.
HasErrors : Search → Type 0
HasErrors s = All IsError s.issues

report-HasErrors :
    (path node : Text) (s : Search) → HasErrors s → HasErrors (report_cycle path node s)
unfolding report_cycle HasErrors error
report-HasErrors path node s h =
    elim (Bool-cases (contains s.reported (join_with (text "->") (cycle_of node s.stack)))) [
      | inl old ↦ subst HasErrors {x = s} {y = report_cycle path node s} (ground arith) h
      | inr new ↦
          subst (All IsError)
            {x = s.issues
              ++ error (text "SUPERSESSION_CYCLE") path
                  (text "supersession cycle: " ++ join_with (text " -> ") (cycle_of node s.stack))
                ∷ []}
            {y = (report_cycle path node s).issues} (ground arith)
            (All-append IsError s.issues _ h (refl, tt))
    ]

visit_targets-HasErrors :
    (visit : Text → Search → Option Search) (path : Text) (targets : List Text) (s s' : Search)
    → ((node : Text) (t t' : Search) → HasErrors t → visit node t ≡ some t' → HasErrors t')
    → HasErrors s
    → visit_targets visit path targets s ≡ some s'
    → HasErrors s'
unfolding visit_targets
visit_targets-HasErrors visit path [] s s' keeps h done = subst HasErrors {x = s} (ground arith) h
visit_targets-HasErrors visit path (t ∷ targets) s s' keeps h done =
    elim (mark-cases (lookup t s.marks)) [
      | inl fresh ↦ elim (Option-cases (visit t s)) [
        | inl failed ↦ absurd (ground arith)
        | inr (mid, visited) ↦
            visit_targets-HasErrors visit path targets mid s' keeps (keeps t s mid h visited)
              (ground arith)
      ]
      | inr (inl active_mark) ↦
          visit_targets-HasErrors visit path targets (report_cycle path t s) s' keeps
            (report-HasErrors path t s h) (ground arith)
      | inr (inr finished_mark) ↦
          visit_targets-HasErrors visit path targets s s' keeps h (ground arith)
    ]

module _ (graph : Dict (List Text)) (path_of : Text → Text) where
  dfs-HasErrors :
      (fuel : ℕ) (node : Text) (s s' : Search)
      → HasErrors s
      → dfs graph path_of fuel node s ≡ some s'
      → HasErrors s'
  unfolding dfs enter leave HasErrors
  dfs-HasErrors zero node s s' h done = absurd (ground arith)
  dfs-HasErrors (suc fuel) node s s' h done =
      elim (Option-cases (
        visit_targets (dfs graph path_of fuel) (path_of node) (targets_of graph node)
          (enter node s))) [
            | inl failed ↦ absurd (ground arith)
            | inr (mid, visited) ↦ subst HasErrors {x = leave node mid} {y = s'} (ground arith) (
                visit_targets-HasErrors (dfs graph path_of fuel) (path_of node)
                  (targets_of graph node) (enter node s) mid (dfs-HasErrors fuel) h visited)
          ]

  search_nodes-HasErrors :
      (fuel : ℕ) (nodes : List Text) (s s' : Search)
      → HasErrors s
      → search_nodes graph path_of fuel nodes s ≡ some s'
      → HasErrors s'
  unfolding search_nodes
  search_nodes-HasErrors fuel [] s s' h done = subst HasErrors {x = s} (ground arith) h
  search_nodes-HasErrors fuel (node ∷ nodes) s s' h done =
      elim (Option-cases (lookup node s.marks)) [
        | inl fresh ↦ elim (Option-cases (dfs graph path_of fuel node s)) [
          | inl failed ↦ absurd (ground arith)
          | inr (mid, visited) ↦
              search_nodes-HasErrors fuel nodes mid s' (dfs-HasErrors fuel node s mid h visited)
                (ground arith)
        ]
        | inr (mark, marked) ↦ search_nodes-HasErrors fuel nodes s s' h (ground arith)
      ]

pub cycles-IsError :
    (records : List Record) (issues : List Issue)
    → check_supersession_cycles records ≡ some issues
    → All IsError issues
unfolding check_supersession_cycles HasErrors
cycles-IsError records issues h =
    elim (Option-cases (
      search_nodes (graph_of records records) (path_of_id records) (suc (length records))
        (sort text_le (keys_of (graph_of records records))) start)) [
          | inl failed ↦ absurd (ground arith)
          | inr (s, done) ↦ subst (All IsError) {x = s.issues} (ground arith) (
              search_nodes-HasErrors (graph_of records records) (path_of_id records)
                (suc (length records)) (sort text_le (keys_of (graph_of records records))) start s
                tt done)
        ]

-- A list without an error.
pub record HasNoError (issues : List Issue) : Type 0 where
  pub each : All IsNoError issues

pub HasNoError-split : (xs ys : List Issue) → HasNoError (xs ++ ys) → HasNoError xs × HasNoError ys
HasNoError-split [] ys h = (record { each = tt }, h)
HasNoError-split (x ∷ xs) ys h =
    let (first, rest) = HasNoError-split xs ys (record { each = h.each.1 }) in
    (record { each = (h.each.0, first.each) }, rest)

pub error_if-HasNoError :
    (test : Bool) (code path message : Text)
    → HasNoError (error_if test code path message)
    → test ≡ false
unfolding error_if error
error_if-HasNoError true code path message h =
    absurd (ground (arith, h.each.0, eq_refl (text "ERROR")))
error_if-HasNoError false code path message h = refl
