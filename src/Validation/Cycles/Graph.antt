-- ===== src/Validation/Cycles/Graph.antt =====
-- The graph that the search walks, in the words of the records: which memory supersedes which.
use git_memo.Base.{
  suc, ◌≤◌, ◌≡◌, ◌≢◌, refl, sym, ap, subst, ◌∙◌, ◌⊎◌, inl, inr, arith, Bool, true, false, ◌&&◌,
  List, [], ◌∷◌, Bool-cases, All, length, if◌then◌else◌,
}
use git_memo.Base.Text.{Text, text, ◌==◌, eq_iff, contains}
use git_memo.Base.Dict.{Dict, lookup}
use git_memo.Memory.{Record, Relationship}
use git_memo.Validation.Cycles.{
  with_id, is_unique, edges_of, add_node, graph_of, targets_of, keys_of,
}
use git_memo.Validation.Cycles.Leads.{Leads, edge, along, contains_self}

-- Among the relationships is one that supersedes the memory.
unfoldable pub HasEdge : List Relationship → Text → Type 0
HasEdge [] b = ⊥
HasEdge (e ∷ edges) b = ((e.relation ≡ text "supersedes") × (e.target_id ≡ b)) ⊎ HasEdge edges b

-- One record alone has the ID.
abbrev pub IsAlone : List Record → Text → Record → Type 0
IsAlone records id r = with_id id records ≡ r ∷ []

-- A record alone under its ID that supersedes a record alone under its.
abbrev pub Supersedes : List Record → Text → Text → Type 0
Supersedes records a b =
    (r : Record) × (q : Record) × IsAlone records a r
    × IsAlone records b q
    × HasEdge r.memory.relationships b

-- A row of memories of which each supersedes the next.
pub data Above (records : List Record) : Text → Text → Type 0 where
  direct : {a b : Text} → Supersedes records a b → Above records a b
  indirect : {a b c : Text} → Supersedes records a b → Above records b c → Above records a c

unique-IsAlone :
    (records : List Record) (id : Text)
    → is_unique records id ≡ true
    → (r : Record) × IsAlone records id r
unfolding is_unique
unique-IsAlone records id h = one (with_id id records) refl
  where
    one : (rs : List Record) → with_id id records ≡ rs → (r : Record) × IsAlone records id r
    one [] e = absurd (ground arith)
    one (r ∷ []) e = (r, e)
    one (r ∷ q ∷ rs) e = absurd (ground arith)

IsAlone-unique :
    (records : List Record) (id : Text) (r : Record)
    → IsAlone records id r
    → is_unique records id ≡ true
unfolding is_unique
IsAlone-unique records id r h = ground arith

edges_of-HasEdge :
    (records : List Record) (edges : List Relationship) (b : Text)
    → contains (edges_of records edges) b ≡ true
    → HasEdge edges b × (is_unique records b ≡ true)
unfolding edges_of contains HasEdge
edges_of-HasEdge records [] b h = absurd (ground arith)
edges_of-HasEdge records (e ∷ edges) b h =
    elim (Bool-cases (e.relation == text "supersedes" && is_unique records e.target_id)) [
      | inr skipped ↦
          let (found, alone) = edges_of-HasEdge records edges b (ground arith) in (inr found, alone)
      | inl kept ↦ elim (Bool-cases (e.target_id == b)) [
        | inl same ↦ (
          inl (
            ground (arith, eq_iff e.relation (text "supersedes")),
            ground (arith, eq_iff e.target_id b),
          ),
          subst (λ t. is_unique records t ≡ true) {x = e.target_id} {y = b}
              (ground (arith, eq_iff e.target_id b)) (ground arith),
        )
        | inr apart ↦
            let (found, alone) = edges_of-HasEdge records edges b (ground arith) in
            (inr found, alone)
      ]
    ]

HasEdge-edges_of :
    (records : List Record) (edges : List Relationship) (b : Text)
    → HasEdge edges b
    → is_unique records b ≡ true
    → contains (edges_of records edges) b ≡ true
unfolding edges_of contains HasEdge
HasEdge-edges_of records [] b h alone = absurd h
HasEdge-edges_of records (e ∷ edges) b (inl (relation, target)) alone =
    let known : is_unique records e.target_id ≡ true =
      subst (λ t. is_unique records t ≡ true) (sym target) alone in
    ground (arith, eq_iff e.relation (text "supersedes"), eq_iff e.target_id b)
HasEdge-edges_of records (e ∷ edges) b (inr rest) alone =
    ground (arith, HasEdge-edges_of records edges b rest alone)

-- The edges of the first record.
first_edges : List Record → List Record → List Text
first_edges records [] = []
first_edges records (r ∷ rest) = edges_of records r.memory.relationships

lookup-add_node :
    (id a : Text) (targets : List Text) (graph : Dict (List Text))
    → targets_of (add_node id targets graph) a ≡ (
        if id == a
        then elim targets [ [] ↦ targets_of graph a | t ∷ ts ↦ t ∷ ts ]
        else targets_of graph a)
unfolding add_node targets_of lookup
lookup-add_node id a [] graph = ground arith
lookup-add_node id a (t ∷ targets) graph = ground arith

targets_of-nothing :
    (all records : List Record) (a : Text)
    → with_id a records ≡ []
    → targets_of (graph_of all records) a ≡ []
unfolding graph_of with_id targets_of lookup
targets_of-nothing all [] a h = refl
targets_of-nothing all (r ∷ records) a h =
    let apart : (r.memory.id == a) ≡ false = ground arith in
    let rest = targets_of-nothing all records a (ground arith) in
    ground (
      arith,
      lookup-add_node r.memory.id a (edges_of all r.memory.relationships) (graph_of all records),
    )

with_id-nil :
    (a : Text) (records : List Record) → length (with_id a records) ≤ 0 → with_id a records ≡ []
with_id-nil a records h = none_of (with_id a records) h
  where
    none_of : (rs : List Record) → length rs ≤ 0 → rs ≡ []
    none_of [] k = refl
    none_of (r ∷ rs) k = absurd (omega arith)

targets_of_unique :
    (all records : List Record) (a : Text)
    → is_unique all a ≡ true
    → length (with_id a records) ≤ 1
    → targets_of (graph_of all records) a ≡ first_edges all (with_id a records)
unfolding graph_of with_id first_edges targets_of lookup
targets_of_unique all [] a alone few = refl
targets_of_unique all (r ∷ records) a alone few =
    let added =
      lookup-add_node r.memory.id a (edges_of all r.memory.relationships) (graph_of all records) in
    elim (Bool-cases (r.memory.id == a)) [
      | inl same ↦
          let here : r.memory.id ≡ a = ground (arith, eq_iff r.memory.id a) in
          let this_alone : is_unique all r.memory.id ≡ true =
            subst (λ t. is_unique all t ≡ true) (sym here) alone in
          let rest : targets_of (graph_of all records) a ≡ [] =
            targets_of-nothing all records a (with_id-nil a records (ground arith)) in
          ground (arith, added)
      | inr apart ↦
          let rest = targets_of_unique all records a alone (ground arith) in ground (arith, added)
    ]

targets_of-others :
    (all records : List Record) (a : Text)
    → is_unique all a ≡ false
    → targets_of (graph_of all records) a ≡ []
unfolding graph_of targets_of lookup
targets_of-others all [] a others = refl
targets_of-others all (r ∷ records) a others =
    let added =
      lookup-add_node r.memory.id a (edges_of all r.memory.relationships) (graph_of all records) in
    let rest = targets_of-others all records a others in
    elim (Bool-cases (r.memory.id == a)) [
      | inl same ↦
          let known : is_unique all r.memory.id ≡ false =
            subst (λ t. is_unique all t ≡ false) {x = a} {y = r.memory.id}
              (sym (ground (arith, eq_iff r.memory.id a))) others in
          ground (arith, added)
      | inr apart ↦ ground (arith, added)
    ]

module _ (records : List Record) where
  targets-alone :
      (a : Text) (r : Record)
      → IsAlone records a r
      → targets_of (graph_of records records) a ≡ edges_of records r.memory.relationships
  unfolding first_edges
  targets-alone a r alone =
      targets_of_unique records records a (IsAlone-unique records a r alone)
        (ground (arith, ap length alone))
      ∙ ap (first_edges records) alone

  target-Supersedes :
      (a b : Text)
      → contains (targets_of (graph_of records records) a) b ≡ true
      → Supersedes records a b
  unfolding contains
  target-Supersedes a b h = elim (Bool-cases (is_unique records a)) [
    | inr others ↦
        absurd
          (ground (arith, ap (λ ts. contains ts b) (targets_of-others records records a others)))
    | inl alone ↦
        let (r, only) = unique-IsAlone records a alone in
        let (found, target_alone) =
          edges_of-HasEdge records r.memory.relationships b
            (subst (λ ts. contains ts b ≡ true) (targets-alone a r only) h) in
        let (q, only') = unique-IsAlone records b target_alone in (r, q, only, only', found)
  ]

  Supersedes-target :
      (a b : Text)
      → Supersedes records a b
      → contains (targets_of (graph_of records records) a) b ≡ true
  Supersedes-target a b (r, q, only, only', found) =
      subst (λ ts. contains ts b ≡ true) (sym (targets-alone a r only))
        (HasEdge-edges_of records r.memory.relationships b found (IsAlone-unique records b q only'))

  pub Leads-Above :
      {a b : Text} → Leads (targets_of (graph_of records records)) a b → Above records a b
  Leads-Above {a} {b} (edge h) = direct (target-Supersedes a b h)
  Leads-Above {a} (along {b = m} h rest) = indirect (target-Supersedes a m h) (Leads-Above rest)

  pub Above-Leads :
      {a b : Text} → Above records a b → Leads (targets_of (graph_of records records)) a b
  Above-Leads {a} {b} (direct h) = edge (Supersedes-target a b h)
  Above-Leads {a} (indirect {b = m} h rest) = along (Supersedes-target a m h) (Above-Leads rest)

-- The IDs of the records: every node of the graph is one.
pub ids_of : List Record → List Text
ids_of [] = []
ids_of (r ∷ records) = r.memory.id ∷ ids_of records

pub length-ids_of : (records : List Record) → length (ids_of records) ≡ length records
unfolding ids_of
length-ids_of [] = refl
length-ids_of (r ∷ records) = ap suc (length-ids_of records)

alone-id :
    (records : List Record) (id : Text) (r : Record) (rest : List Record)
    → with_id id records ≡ r ∷ rest
    → contains (ids_of records) id ≡ true
unfolding with_id ids_of contains
alone-id [] id r rest h = absurd (ground arith)
alone-id (q ∷ records) id r rest h = elim (Bool-cases (q.memory.id == id)) [
  | inl same ↦ ground arith
  | inr apart ↦ ground (arith, alone-id records id r rest (ground arith))
]

pub target-id :
    (records : List Record) (a b : Text)
    → contains (targets_of (graph_of records records) a) b ≡ true
    → contains (ids_of records) b ≡ true
target-id records a b h =
    let (r, q, only, only', found) = target-Supersedes records a b h in
    alone-id records b q [] only'

keys-ids :
    (all records : List Record)
    → All (λ t. contains (ids_of all) t ≡ true) (ids_of records)
    → All (λ t. contains (ids_of all) t ≡ true) (keys_of (graph_of all records))
unfolding graph_of ids_of keys_of add_node
keys-ids all [] known = tt
keys-ids all (r ∷ records) (here, known) =
    step (edges_of all r.memory.relationships) (is_unique all r.memory.id)
      (keys-ids all records known)
  where
    step :
        (ts : List Text) (alone : Bool)
        → All (λ t. contains (ids_of all) t ≡ true) (keys_of (graph_of all records))
        → All
            (λ t. contains (ids_of all) t ≡ true)
            (keys_of (
              if alone
              then add_node r.memory.id ts (graph_of all records)
              else graph_of all records))
    step [] true rest = rest
    step (t ∷ ts) true rest = (here, rest)
    step ts false rest = rest

pub graph-keys :
    (records : List Record)
    → All (λ t. contains (ids_of records) t ≡ true) (keys_of (graph_of records records))
graph-keys records = keys-ids records records (contains_self (ids_of records))

-- A node with a target is a key.
pub has-key :
    (graph : Dict (List Text)) (n : Text)
    → targets_of graph n ≢ []
    → contains (keys_of graph) n ≡ true
unfolding targets_of lookup keys_of contains
has-key [] n h = absurd (h refl)
has-key ((key, ts) ∷ graph) n h = elim (Bool-cases (key == n)) [
  | inl same ↦ ground arith
  | inr apart ↦ ground (arith, has-key graph n (λ e. h (ground arith)))
]
