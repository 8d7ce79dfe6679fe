-- ===== src/Validation/Cycles/Leads.antt =====
-- Paths in a graph of texts, and orders in which a graph has no cycle.
use git_memo.Base.{
  ◌≡◌, refl, subst, ◌⊎◌, inl, inr, arith, true, ◌||◌, Option, none, some, List, [], ◌∷◌, ◌++◌,
  Bool-cases, All, All-map,
}
use git_memo.Validation.Cycles.{Mark, active, finished}
use git_memo.Base.Text.{Text, ◌==◌, eq_iff, eq_refl, contains}

module _ (targets : Text → List Text) where
  -- A way along one edge or more.
  pub data Leads : Text → Text → Type 0 where
    edge : {a b : Text} → contains (targets a) b ≡ true → Leads a b
    along : {a b c : Text} → contains (targets a) b ≡ true → Leads b c → Leads a c

  pub step_behind : {a b c : Text} → Leads a b → contains (targets b) c ≡ true → Leads a c
  step_behind (edge h) k = along h (edge k)
  step_behind (along h rest) k = along h (step_behind rest k)

  abbrev pub IsCyclic : Type 0
  IsCyclic = (n : Text) × Leads n n

  -- All targets of a node stand behind it.
  abbrev pub IsTopological : List Text → Type 0
  IsTopological [] = Unit
  IsTopological (n ∷ order) = All (λ t. contains order t ≡ true) (targets n) × IsTopological order

pub contains-All :
    (P : Text → Type 0) (xs : List Text) (t : Text) → All P xs → contains xs t ≡ true → P t
unfolding contains
contains-All P [] t h found = absurd (ground arith)
contains-All P (x ∷ xs) t (hx, h) found = elim (Bool-cases (x == t)) [
  | inl same ↦ subst P {x = x} (ground (arith, eq_iff x t)) hx
  | inr apart ↦ contains-All P xs t h (ground arith)
]

pub contains_self : (xs : List Text) → All (λ t. contains xs t ≡ true) xs
unfolding contains
contains_self [] = tt
contains_self (x ∷ xs) =
    (ground (arith, eq_refl x), All-map xs (λ t h. ground (arith, h)) (contains_self xs))

pub contains-append :
    (xs ys : List Text) (t : Text) → contains (xs ++ ys) t ≡ (contains xs t || contains ys t)
unfolding contains
contains-append [] ys t = ground arith
contains-append (x ∷ xs) ys t = ground (arith, contains-append xs ys t)

module _ (targets : Text → List Text) where
  step-stays :
      (order : List Text) (a b : Text)
      → IsTopological targets order
      → contains order a ≡ true
      → contains (targets a) b ≡ true
      → contains order b ≡ true
  unfolding contains
  step-stays [] a b topological found h = absurd (ground arith)
  step-stays (n ∷ order) a b (first, topological) found h = elim (Bool-cases (n == a)) [
    | inl same ↦
        let behind =
          subst (λ m. All (λ t. contains order t ≡ true) (targets m)) {x = n} {y = a}
            (ground (arith, eq_iff n a)) first in
        ground (arith, contains-All (λ t. contains order t ≡ true) (targets a) b behind h)
    | inr apart ↦ ground (arith, step-stays order a b topological (ground arith) h)
  ]

  -- From a node of the order a path leads to nodes of the order.
  stays :
      (order : List Text) (a b : Text)
      → IsTopological targets order
      → contains order a ≡ true
      → Leads targets a b
      → contains order b ≡ true
  stays order a b topological found (edge h) = step-stays order a b topological found h
  stays order a b topological found (along {b = m} h rest) =
      stays order m b topological (step-stays order a m topological found h) rest

  behind :
      (n : Text) (order : List Text) (b : Text)
      → All (λ t. contains order t ≡ true) (targets n)
      → IsTopological targets order
      → Leads targets n b
      → contains order b ≡ true
  behind n order b h topological (edge k) =
      contains-All (λ t. contains order t ≡ true) (targets n) b h k
  behind n order b h topological (along {b = m} k rest) =
      stays order m b topological (contains-All (λ t. contains order t ≡ true) (targets n) m h k)
        rest

  pub no_cycle :
      (order : List Text) (n : Text)
      → IsTopological targets order
      → contains order n ≡ true
      → Leads targets n n
      → ⊥
  unfolding contains
  no_cycle [] n topological found path = ground arith
  no_cycle (m ∷ order) n (first, topological) found path = elim (Bool-cases (m == n)) [
    | inl same ↦
        no_cycle order n topological
          (behind n order n
            (subst (λ k. All (λ t. contains order t ≡ true) (targets k)) {x = m} {y = n}
              (ground (arith, eq_iff m n)) first)
            topological path)
          path
    | inr apart ↦ no_cycle order n topological (ground arith) path
  ]

pub mark-cases : (m : Option Mark) → (m ≡ none) ⊎ ((m ≡ some active) ⊎ (m ≡ some finished))
mark-cases none = inl refl
mark-cases (some active) = inr (inl refl)
mark-cases (some finished) = inr (inr refl)
