-- ===== src/Validation/Linked.antt =====
-- What it means that the relationships of the records raise no issue.
use git_memo.Base.{
  ℕ, suc, ◌≡◌, ◌≢◌, refl, ap₂, ◌⊎◌, inl, inr, arith, Bool, true, false, ◌&&◌, List, [], ◌∷◌, ◌++◌,
  Bool-cases, nat_eq, All, All-map,
}
use git_memo.Base.Text.{Text, text, ◌==◌, eq_iff, contains}
use git_memo.Base.Dict.{Dict, lookup, insert, lookup-insert}
use git_memo.Memory.{Record, Relationship}
use git_memo.Validation.{Issue}
use git_memo.Validation.Cycles.{with_id}
use git_memo.Validation.Cycles.Graph.{HasEdge, IsAlone}
use git_memo.Validation.Relations.{
  error_if, edge_key, target_issues, edge_issues, edges_issues, relation_issues, incoming_of,
  count_edges, count_incoming, superseded_issues, check_relations,
}

-- No relationship is there twice.
pub IsDistinct : List Relationship → Type 0
IsDistinct [] = Unit
IsDistinct (e ∷ edges) =
    All (λ other. (e.relation ≡ other.relation) × (e.target_id ≡ other.target_id) → ⊥) edges
    × IsDistinct edges

-- The target of a relationship is another memory, alone under its ID, and superseded if the
-- relationship says so.
pub HasTarget : List Record → Record → Relationship → Type 0
HasTarget records r e =
    (e.target_id ≢ r.memory.id)
    × ((q : Record) × IsAlone records e.target_id q
        × (e.relation ≡ text "supersedes" → q.memory.lifecycle ≡ text "superseded"))

-- A superseded memory is superseded by one of the records.
pub IsSuperseded : List Record → Text → Type 0
IsSuperseded [] id = ⊥
IsSuperseded (r ∷ records) id = HasEdge r.memory.relationships id ⊎ IsSuperseded records id

append-nil : (xs ys : List Issue) → (xs ++ ys) ≡ [] → (xs ≡ []) × (ys ≡ [])
append-nil [] ys h = (refl, h)
append-nil (x ∷ xs) ys h = absurd (ground arith)

error_if-nil :
    (test : Bool) (code path message : Text) → error_if test code path message ≡ [] → test ≡ false
unfolding error_if
error_if-nil true code path message h = absurd (ground arith)
error_if-nil false code path message h = refl

target_issues-nil :
    (path : Text) (e : Relationship) (matches : List Record)
    → target_issues path e matches ≡ []
    → (q : Record) × (matches ≡ q ∷ [])
      × (e.relation ≡ text "supersedes" → q.memory.lifecycle ≡ text "superseded")
unfolding target_issues
target_issues-nil path e [] h = absurd (ground arith)
target_issues-nil path e (q ∷ []) h = (
  q,
  refl,
  (λ supersedes. ground (
    arith,
    error_if-nil _ _ _ _ h,
    eq_iff e.relation (text "supersedes"),
    eq_iff q.memory.lifecycle (text "superseded"),
  )),
)
target_issues-nil path e (q ∷ other ∷ rest) h = absurd (ground arith)

module _ (records : List Record) (r : Record) where
  edge_issues-nil :
      (seen : List Text) (e : Relationship)
      → edge_issues records r seen e ≡ []
      → (contains seen (edge_key e) ≡ false) × HasTarget records r e
  unfolding edge_issues HasTarget
  edge_issues-nil seen e h =
      let (h₁, target) = append-nil _ _ h in
      let (fresh, other) = append-nil _ _ h₁ in
      let apart : (e.target_id == r.memory.id) ≡ false = error_if-nil _ _ _ _ other in
      (
        error_if-nil _ _ _ _ fresh,
        (
          (λ same. ground (arith, eq_iff e.target_id r.memory.id)),
          target_issues-nil r.path e (with_id e.target_id records) target,
        ),
      )

  edges_issues-nil :
      (seen : List Text) (edges : List Relationship)
      → edges_issues records r seen edges ≡ []
      → All (λ e. contains seen (edge_key e) ≡ false) edges
        × IsDistinct edges
        × All (HasTarget records r) edges
  unfolding edges_issues IsDistinct edge_key contains
  edges_issues-nil seen [] h = (tt, tt, tt)
  edges_issues-nil seen (e ∷ edges) h =
      let (here, rest) = append-nil _ _ h in
      let (fresh, target) = edge_issues-nil seen e here in
      let (later, distinct, targets) = edges_issues-nil (edge_key e ∷ seen) edges rest in
      (
        (fresh, All-map edges (λ other k. ground (arith, k)) later),
        (
          All-map edges
              (λ other k same. ground (
                arith,
                k,
                eq_iff (edge_key e) (edge_key other),
                ap₂ (λ s t. s ++ 0 ∷ t) same.0 same.1,
              ))
              later,
          distinct,
        ),
        (target, targets),
      )

relation_issues-nil :
    (all records : List Record)
    → relation_issues all records ≡ []
    → All
        (λ r. IsDistinct r.memory.relationships × All (HasTarget all r) r.memory.relationships)
        records
unfolding relation_issues
relation_issues-nil all [] h = tt
relation_issues-nil all (r ∷ records) h =
    let (here, rest) = append-nil _ _ h in
    let (fresh, distinct, targets) = edges_issues-nil all r [] r.memory.relationships here in
    ((distinct, targets), relation_issues-nil all records rest)

-- A counter that is not 0 was counted up by an edge.
count_edges-HasEdge :
    (edges : List Relationship) (incoming : Dict ℕ) (id : Text)
    → incoming_of (count_edges edges incoming) id ≢ 0
    → HasEdge edges id ⊎ (incoming_of incoming id ≢ 0)
unfolding count_edges incoming_of HasEdge
count_edges-HasEdge [] incoming id h = inr h
count_edges-HasEdge (e ∷ edges) incoming id h =
    elim (Bool-cases (e.relation == text "supersedes")) [
      | inr other ↦ elim (count_edges-HasEdge edges incoming id (λ k. h (ground arith))) [
        | inl found ↦ inl (inr found)
        | inr before ↦ inr before
      ]
      | inl supersedes ↦
          let counted = insert e.target_id (suc (incoming_of incoming e.target_id)) incoming in
          elim (count_edges-HasEdge edges counted id (λ k. h (ground arith))) [
            | inl found ↦ inl (inr found)
            | inr before ↦ elim (Bool-cases (e.target_id == id)) [
              | inl same ↦ inl (
                  inl (
                    ground (arith, eq_iff e.relation (text "supersedes")),
                    ground (arith, eq_iff e.target_id id),
                  ))
              | inr apart ↦ inr (λ k. before (
                  ground (
                    arith,
                    lookup-insert e.target_id id (suc (incoming_of incoming e.target_id)) incoming,
                  )))
            ]
          ]
    ]

count_incoming-IsSuperseded :
    (records : List Record) (incoming : Dict ℕ) (id : Text)
    → incoming_of (count_incoming records incoming) id ≢ 0
    → IsSuperseded records id ⊎ (incoming_of incoming id ≢ 0)
unfolding count_incoming IsSuperseded
count_incoming-IsSuperseded [] incoming id h = inr h
count_incoming-IsSuperseded (r ∷ records) incoming id h =
    elim (count_incoming-IsSuperseded records (count_edges r.memory.relationships incoming) id h) [
      | inl found ↦ inl (inr found)
      | inr before ↦ elim (count_edges-HasEdge r.memory.relationships incoming id before) [
        | inl found ↦ inl (inl found)
        | inr earlier ↦ inr earlier
      ]
    ]

superseded_issues-nil :
    (incoming : Dict ℕ) (records : List Record)
    → superseded_issues incoming records ≡ []
    → All
        (λ r. r.memory.lifecycle ≡ text "superseded" → incoming_of incoming r.memory.id ≢ 0)
        records
unfolding superseded_issues
superseded_issues-nil incoming [] h = tt
superseded_issues-nil incoming (r ∷ records) h =
    let (here, rest) = append-nil _ _ h in
    let test : (r.memory.lifecycle == text "superseded"
          && nat_eq (incoming_of incoming r.memory.id) 0)
        ≡ false =
      error_if-nil _ _ _ _ here in
    (
      (λ superseded none_in. ground (arith, eq_iff r.memory.lifecycle (text "superseded"))),
      superseded_issues-nil incoming records rest,
    )

-- What a repository without an issue on relationships is like.
abbrev pub IsLinked : List Record → Record → Type 0
IsLinked records r =
    IsDistinct r.memory.relationships
    × All (HasTarget records r) r.memory.relationships
    × (r.memory.lifecycle ≡ text "superseded" → IsSuperseded records r.memory.id)

All-both :
    (P Q : Record → Type 0) (xs : List Record) → All P xs → All Q xs → All (λ x. P x × Q x) xs
All-both P Q [] h k = tt
All-both P Q (x ∷ xs) (hx, h) (kx, k) = ((hx, kx), All-both P Q xs h k)

-- If the two loops of `Validate` over relationships raise no issue, then no record has a
-- relationship twice, every relationship points to another memory, which one record alone has
-- and whose lifecycle is superseded if the relationship supersedes it, and every superseded
-- memory is superseded by a record.
pub check_relations-IsLinked :
    (records : List Record) → check_relations records ≡ [] → All (IsLinked records) records
unfolding check_relations incoming_of lookup
check_relations-IsLinked records h =
    let (relations, superseded) = append-nil _ _ h in
    All-map records
      (λ r both. (
        both.0.0,
        both.0.1,
        (λ is_superseded.
            elim (count_incoming-IsSuperseded records [] r.memory.id (both.1 is_superseded)) [
              | inl found ↦ found
              | inr nothing ↦ absurd (nothing refl)
            ]),
      ))
      (All-both _ _ records (relation_issues-nil records records relations)
        (superseded_issues-nil (count_incoming records []) records superseded))
