-- ===== src/Validation/Cycles.antt =====
-- internal/validation/validation.go: `checkSupersessionCycles`, a depth-first search with the marks,
-- the stack and the reported cycles of the source.
pub mod Leads
pub mod Visits
pub mod Sound
pub mod Fuel
pub mod Graph
pub mod Correct
use git_memo.Base.{
  ℕ, zero, suc, ◌+◌, Bool, true, false, ◌&&◌, Option, none, some, List, [], ◌∷◌, ◌++◌, nat_eq, sort,
  length, if◌then◌else◌,
}
use git_memo.Base.Text.{Text, text, ◌==◌, text_le, contains}
use git_memo.Base.Dict.{Dict, lookup, insert}
use git_memo.Memory.{Record, Relationship}
use git_memo.Validation.{Issue, error}

-- `byID[id]`, in the order of the records.
unfoldable pub with_id : Text → List Record → List Record
with_id id [] = []
with_id id (r ∷ records) =
    let rest = with_id id records in if r.memory.id == id then r ∷ rest else rest

-- `len(byID[id]) == 1`
unfoldable pub is_unique : List Record → Text → Bool
unfolding with_id
is_unique records id = nat_eq (length (with_id id records)) 1

-- The targets of the edges of one record that go into the graph.
unfoldable pub edges_of : List Record → List Relationship → List Text
unfolding is_unique
edges_of records [] = []
edges_of records (edge ∷ edges) =
    let rest = edges_of records edges in
    if edge.relation == text "supersedes" && is_unique records edge.target_id
    then edge.target_id ∷ rest
    else rest

unfoldable pub add_node : Text → List Text → Dict (List Text) → Dict (List Text)
add_node id [] graph = graph
add_node id (target ∷ targets) graph = (id, target ∷ targets) ∷ graph

-- `graph`: an entry for each record whose ID is unique and that has an edge.
unfoldable pub graph_of : List Record → List Record → Dict (List Text)
unfolding is_unique edges_of add_node
graph_of records [] = []
graph_of records (r ∷ rest) =
    let graph = graph_of records rest in
    if is_unique records r.memory.id
    then add_node r.memory.id (edges_of records r.memory.relationships) graph
    else graph

-- `graph[node]`
unfoldable pub targets_of : Dict (List Text) → Text → List Text
unfolding lookup
targets_of graph node = elim (lookup node graph) [ none ↦ [] | some targets ↦ targets ]

-- `state[node]`: 1 and 2; a node without a mark is at 0.
pub data Mark : Type 0 where
  active finished : Mark

pub record Search : Type 0 where
  pub marks : Dict Mark
  pub stack : List Text
  pub reported : List Text
  pub issues : List Issue

abbrev pub start : Search
start = record { marks = []; stack = []; reported = []; issues = [] }

-- The stack from the first occurrence of the target on; the whole, if there is none.
unfoldable pub stack_from : Text → List Text → Option (List Text)
stack_from target [] = none
stack_from target (s ∷ stack) =
    let rest = stack_from target stack in if s == target then some (s ∷ stack) else rest

-- `strings.Join`
unfoldable pub join_with : Text → List Text → Text
join_with sep [] = []
join_with sep (s ∷ []) = s
join_with sep (s ∷ t ∷ rest) = s ++ sep ++ join_with sep (t ∷ rest)

unfoldable pub cycle_of : Text → List Text → List Text
unfolding stack_from
cycle_of target stack =
    (elim (stack_from target stack) [ none ↦ stack | some part ↦ part ]) ++ target ∷ []

-- A target that is on the stack: its cycle is an issue, unless it was reported.
unfoldable pub report_cycle : Text → Text → Search → Search
unfolding cycle_of join_with contains error
report_cycle path target s =
    let cycle = cycle_of target s.stack in
    let key = join_with (text "->") cycle in
    if contains s.reported key then s else record s {
      reported = key ∷ s.reported;
      issues =
          s.issues
          ++ error (text "SUPERSESSION_CYCLE") path
              (text "supersession cycle: " ++ join_with (text " -> ") cycle)
            ∷ [];
    }

-- `stack[:len(stack)-1]`
unfoldable pub drop_last : List Text → List Text
drop_last [] = []
drop_last (s ∷ []) = []
drop_last (s ∷ t ∷ rest) = s ∷ drop_last (t ∷ rest)

unfoldable pub enter : Text → Search → Search
unfolding insert
enter node s = record s { marks = insert node active s.marks; stack = s.stack ++ node ∷ [] }

unfoldable pub leave : Text → Search → Search
unfolding insert drop_last
leave node s = record s { marks = insert node finished s.marks; stack = drop_last s.stack }

-- The loop of `dfs` over the targets of a node; `visit` is the recursive call.
unfoldable pub visit_targets :
    (Text → Search → Option Search) → Text → List Text → Search → Option Search
unfolding lookup report_cycle
visit_targets visit path [] s = some s
visit_targets visit path (target ∷ targets) s = elim (lookup target s.marks) [
  | none ↦ elim (visit target s) [ none ↦ none | some s' ↦ visit_targets visit path targets s' ]
  | some active ↦ visit_targets visit path targets (report_cycle path target s)
  | some finished ↦ visit_targets visit path targets s
]

module _ (graph : Dict (List Text)) (path_of : Text → Text) where
  -- `dfs`. The fuel bounds the depth of the recursion; `none` is that it ran out.
  unfoldable pub dfs : ℕ → Text → Search → Option Search
  unfolding enter leave visit_targets targets_of
  dfs zero node s = none
  dfs (suc fuel) node s =
      elim (visit_targets (dfs fuel) (path_of node) (targets_of graph node) (enter node s)) [
        | none ↦ none
        | some s' ↦ some (leave node s')
      ]

  -- The loop over the nodes.
  unfoldable pub search_nodes : ℕ → List Text → Search → Option Search
  unfolding dfs lookup
  search_nodes fuel [] s = some s
  search_nodes fuel (node ∷ nodes) s = elim (lookup node s.marks) [
    | none ↦ elim (dfs fuel node s) [ none ↦ none | some s' ↦ search_nodes fuel nodes s' ]
    | some mark ↦ search_nodes fuel nodes s
  ]

unfoldable pub keys_of : Dict (List Text) → List Text
keys_of [] = []
keys_of ((key, value) ∷ dict) = key ∷ keys_of dict

-- `pathByID[id]`, of a record whose ID is unique.
unfoldable pub path_of_id : List Record → Text → Text
unfolding with_id
path_of_id records id = elim (with_id id records) [ [] ↦ [] | r ∷ rest ↦ r.path ]

-- `checkSupersessionCycles`: the issues that it appends. No path of the search is longer than the
-- records are many.
unfoldable pub check_supersession_cycles : List Record → Option (List Issue)
unfolding graph_of search_nodes keys_of path_of_id
check_supersession_cycles records =
    let graph = graph_of records records in
    elim (search_nodes graph (path_of_id records) (suc (length records))
      (sort text_le (keys_of graph)) start) [ none ↦ none | some s ↦ some s.issues ]
