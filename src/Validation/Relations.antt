-- ===== src/Validation/Relations.antt =====
-- internal/validation/validation.go: what `Validate` says of the relationships between records.
use git_memo.Base.{
  ℕ, suc, Bool, not, ◌&&◌, none, some, List, [], ◌∷◌, ◌++◌, ltb, nat_eq, length, if◌then◌else◌,
}
use git_memo.Base.Text.{Text, text, ◌==◌, contains}
use git_memo.Base.Decimal.{decimal}
use git_memo.Base.Dict.{Dict, lookup, insert}
use git_memo.Memory.{Record, Relationship}
use git_memo.Validation.{Issue, error}
use git_memo.Validation.Cycles.{with_id}

-- An error, if the test holds.
unfoldable pub error_if : Bool → Text → Text → Text → List Issue
unfolding error
error_if test code path message = if test then error code path message ∷ [] else []

-- `edge.Type + "\x00" + edge.TargetID`
unfoldable pub edge_key : Relationship → Text
edge_key edge = edge.relation ++ 0 ∷ edge.target_id

-- What is said of an edge for the records that have the ID of its target.
unfoldable pub target_issues : Text → Relationship → List Record → List Issue
unfolding error_if error
target_issues path edge [] =
    error (text "REL_TARGET_MISSING") path
      (text "relationship target does not exist: " ++ edge.target_id)
    ∷ []
target_issues path edge (target ∷ []) =
    error_if
      (edge.relation == text "supersedes" && not (target.memory.lifecycle == text "superseded"))
      (text "SUPERSEDES_TARGET_NOT_SUPERSEDED") path
      (text "supersedes target lifecycle must be superseded")
target_issues path edge (target ∷ other ∷ rest) =
    error (text "REL_TARGET_AMBIGUOUS") path
      (text "relationship target resolves to duplicate UUID: " ++ edge.target_id)
    ∷ []

-- One round of the loop over the edges of a record; `seen` are the keys of those before it.
unfoldable pub edge_issues : List Record → Record → List Text → Relationship → List Issue
unfolding error_if contains edge_key target_issues with_id
edge_issues records r seen edge =
    error_if (contains seen (edge_key edge)) (text "REL_DUPLICATE") r.path (
      text "duplicate logical relationship ("
      ++ edge.relation
      ++ text ", "
      ++ edge.target_id
      ++ text ")")
    ++ error_if (edge.target_id == r.memory.id) (text "REL_SELF") r.path
        (text "memory must not target itself")
    ++ target_issues r.path edge (with_id edge.target_id records)

unfoldable pub edges_issues : List Record → Record → List Text → List Relationship → List Issue
unfolding edge_issues
edges_issues records r seen [] = []
edges_issues records r seen (edge ∷ edges) =
    edge_issues records r seen edge ++ edges_issues records r (edge_key edge ∷ seen) edges

-- The loop over the records.
unfoldable pub relation_issues : List Record → List Record → List Issue
unfolding edges_issues
relation_issues all [] = []
relation_issues all (r ∷ records) =
    edges_issues all r [] r.memory.relationships ++ relation_issues all records

-- `incoming[id]`
unfoldable pub incoming_of : Dict ℕ → Text → ℕ
unfolding lookup
incoming_of incoming id = elim (lookup id incoming) [ none ↦ 0 | some n ↦ n ]

-- `incoming[edge.TargetID]++` for the edges that supersede.
unfoldable pub count_edges : List Relationship → Dict ℕ → Dict ℕ
unfolding incoming_of insert
count_edges [] incoming = incoming
count_edges (edge ∷ edges) incoming = count_edges edges (
    if edge.relation == text "supersedes"
    then insert edge.target_id (suc (incoming_of incoming edge.target_id)) incoming
    else incoming)

unfoldable pub count_incoming : List Record → Dict ℕ → Dict ℕ
unfolding count_edges
count_incoming [] incoming = incoming
count_incoming (r ∷ records) incoming =
    count_incoming records (count_edges r.memory.relationships incoming)

-- The loop over the superseded records.
unfoldable pub superseded_issues : Dict ℕ → List Record → List Issue
unfolding error_if incoming_of
superseded_issues incoming [] = []
superseded_issues incoming (r ∷ records) =
    error_if
      (r.memory.lifecycle == text "superseded" && nat_eq (incoming_of incoming r.memory.id) 0)
      (text "SUPERSEDED_NO_INCOMING") r.path
      (text "superseded memory has no incoming supersedes relationship")
    ++ superseded_issues incoming records

-- The two loops of `Validate` between `checkMarkdown` and `checkSupersessionCycles`.
unfoldable pub check_relations : List Record → List Issue
unfolding relation_issues count_incoming superseded_issues
check_relations records =
    relation_issues records records ++ superseded_issues (count_incoming records []) records

-- The loop over `byID`. Its order is that of the records here; the issues are sorted at the end.
unfoldable pub duplicate_issues : List Record → List Record → List Issue
unfolding error_if with_id
duplicate_issues all [] = []
duplicate_issues all (r ∷ records) =
    let matches = length (with_id r.memory.id all) in
    error_if (ltb 1 matches) (text "UUID_DUPLICATE") r.path
      (text "UUID " ++ r.memory.id ++ text " occurs in " ++ decimal matches ++ text " sidecars")
    ++ duplicate_issues all records
