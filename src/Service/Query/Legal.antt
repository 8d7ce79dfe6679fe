-- ===== src/Service/Query/Legal.antt =====
-- internal/memoryservice/service.go: which operations `legalOperations` names.
use git_memo.Base.{
  Bool, true, false, ◌&&◌, ◌||◌, ◌≡◌, ◌↔◌, ◌⊎◌, inl, inr, refl, ◌∙◌, sym, subst, ap, Option, some,
  none, List, [], ◌∷◌, arith, map, sort, insert_sorted, Any, Bool-cases,
}
use git_memo.Base.Text.{Text, text, ◌==◌, eq_iff, text_le, contains}
use git_memo.Base.Dict.{Dict, insert}
use git_memo.Service.Store.{Document}
use git_memo.Service.Operation.{is_unresolved}
use git_memo.Service.Query.{add_changes, add_legal, legal_operations}

-- An open loop that waits for something.
abbrev pub IsUnresolved : Option Text → Type 0
IsUnresolved status =
    (status ≡ some (text "open"))
    ⊎ (status ≡ some (text "blocked"))
    ⊎ (status ≡ some (text "deferred"))

-- What a candidate allows: an active memory can be changed, and an active open loop that waits for
-- something can be resolved.
abbrev pub Allows : Document → Text → Type 0
Allows doc op =
    (doc.memory.lifecycle ≡ text "active")
    × ((op ≡ text "update")
        ⊎ (op ≡ text "correct")
        ⊎ (op ≡ text "supersede")
        ⊎ (op ≡ text "withdraw")
        ⊎ ((op ≡ text "resolve")
            × ((doc.memory.kind ≡ text "open_loop") × IsUnresolved doc.memory.open_loop_status)))

keys : Dict Bool → List Text
keys dict = map (λ entry. entry.0) dict

contains-insert :
    (name read : Text) (value : Bool) (dict : Dict Bool)
    → contains (keys (insert name value dict)) read ≡ (name == read || contains (keys dict) read)
unfolding contains insert keys
contains-insert name read value [] = ground arith
contains-insert name read value ((other, old) ∷ dict) =
    ground (arith, contains-insert name read value dict, eq_iff other name)

contains-insert_sorted :
    (s read : Text) (rest : List Text)
    → contains (insert_sorted text_le s rest) read ≡ (s == read || contains rest read)
unfolding contains insert_sorted
contains-insert_sorted s read [] = ground arith
contains-insert_sorted s read (t ∷ rest) = ground (arith, contains-insert_sorted s read rest)

contains-sort : (xs : List Text) (read : Text) → contains (sort text_le xs) read ≡ contains xs read
unfolding contains sort
contains-sort [] read = refl
contains-sort (x ∷ xs) read =
    contains-insert_sorted x read (sort text_le xs) ∙ ground (arith, contains-sort xs read)

is_unresolved_iff : (status : Option Text) → (is_unresolved status ≡ true) ↔ IsUnresolved status
unfolding is_unresolved
is_unresolved_iff none = (λ h. ground arith, λ h. ground arith)
is_unresolved_iff (some s) = (
  λ h.
      ground (arith, eq_iff s (text "open"), eq_iff s (text "blocked"), eq_iff s (text "deferred")),
  λ h.
      ground (arith, eq_iff s (text "open"), eq_iff s (text "blocked"), eq_iff s (text "deferred")),
)

changes : Text → Bool
changes op =
    text "withdraw" == op || text "supersede" == op || text "correct" == op || text "update" == op

contains-add_changes :
    (operations : Dict Bool) (op : Text)
    → contains (keys (add_changes operations)) op ≡ (changes op || contains (keys operations) op)
unfolding add_changes changes
contains-add_changes operations op =
    rw (contains-insert, contains-insert, contains-insert, contains-insert) (ground arith)

-- The test of `Allows`.
allows : Document → Text → Bool
allows doc op =
    doc.memory.lifecycle == text "active"
    && (text "update" == op
        || (text "correct" == op
            || (text "supersede" == op
                || (text "withdraw" == op
                    || (text "resolve" == op
                        && (doc.memory.kind == text "open_loop"
                            && is_unresolved doc.memory.open_loop_status))))))

any_allows : List Document → Text → Bool
any_allows [] op = false
any_allows (doc ∷ docs) op = allows doc op || any_allows docs op

-- The names of the operations in another order, without resolve and with it.
reorder_changes :
    (w s c u r before behind : Bool)
    → ((w || s || c || u || before) || behind)
      ≡ (before || ((u || (c || (s || (w || (r && false))))) || behind))
reorder_changes w s c u r before behind = ground arith

reorder_all :
    (w s c u r before behind : Bool)
    → ((r || (w || s || c || u || before)) || behind)
      ≡ (before || ((u || (c || (s || (w || (r && true))))) || behind))
reorder_all w s c u r before behind = ground arith

or_false : (b : Bool) → b ≡ (b || false)
or_false b = ground arith

contains-add_legal :
    (operations : Dict Bool) (docs : List Document) (op : Text)
    → contains (keys (add_legal operations docs)) op
      ≡ (contains (keys operations) op || any_allows docs op)
unfolding add_legal any_allows allows changes
contains-add_legal operations [] op = or_false _
contains-add_legal operations (doc ∷ docs) op =
    let changed = add_changes operations in
    let waits = doc.memory.kind == text "open_loop" && is_unresolved doc.memory.open_loop_status in
    elim (Bool-cases (doc.memory.lifecycle == text "active")) [
      | inr e ↦ rw e (contains-add_legal operations docs op)
      | inl e ↦ elim (Bool-cases waits) [
        | inl e₁ ↦
            rw (e, e₁)
              (contains-add_legal (insert (text "resolve") true changed) docs op
                ∙ ap (λ b. b || any_allows docs op)
                    (contains-insert (text "resolve") op true changed
                      ∙ ap (λ b. text "resolve" == op || b) (contains-add_changes operations op))
                ∙ reorder_all (text "withdraw" == op) (text "supersede" == op)
                    (text "correct" == op) (text "update" == op) (text "resolve" == op)
                    (contains (keys operations) op) (any_allows docs op))
        | inr e₁ ↦
            rw (e, e₁)
              (contains-add_legal changed docs op
                ∙ ap (λ b. b || any_allows docs op) (contains-add_changes operations op)
                ∙ reorder_changes (text "withdraw" == op) (text "supersede" == op)
                    (text "correct" == op) (text "update" == op) (text "resolve" == op)
                    (contains (keys operations) op) (any_allows docs op))
      ]
    ]

or_iff :
    {P Q : Type 0} (a b : Bool) → ((a ≡ true) ↔ P) → ((b ≡ true) ↔ Q) → ((a || b) ≡ true) ↔ (P ⊎ Q)
or_iff true b p q = (λ h. inl (p.0 refl), λ h. refl)
or_iff false b p q = (
  λ h. inr (q.0 h),
  λ h. elim h [ inl x ↦ (let e = p.1 x in absurd (ground arith)) | inr y ↦ q.1 y ],
)

and_iff :
    {P Q : Type 0} (a b : Bool) → ((a ≡ true) ↔ P) → ((b ≡ true) ↔ Q) → ((a && b) ≡ true) ↔ (P × Q)
and_iff true b p q = (λ h. (p.0 refl, q.0 h), λ h. q.1 h.1)
and_iff false b p q = (λ h. absurd (ground arith), λ h. p.1 h.0)

names_iff : (name op : Text) → ((name == op) ≡ true) ↔ (op ≡ name)
names_iff name op = (λ h. sym ((eq_iff name op).0 h), λ h. (eq_iff name op).1 (sym h))

allows_iff : (doc : Document) (op : Text) → (allows doc op ≡ true) ↔ Allows doc op
unfolding allows
allows_iff doc op = and_iff _ _ (eq_iff doc.memory.lifecycle (text "active")) (
    or_iff _ _ (names_iff (text "update") op) (
      or_iff _ _ (names_iff (text "correct") op) (
        or_iff _ _ (names_iff (text "supersede") op) (
          or_iff _ _ (names_iff (text "withdraw") op) (
            and_iff _ _ (names_iff (text "resolve") op) (
              and_iff _ _ (eq_iff doc.memory.kind (text "open_loop"))
                (is_unresolved_iff doc.memory.open_loop_status)))))))

any_allows_iff :
    (docs : List Document) (op : Text)
    → (any_allows docs op ≡ true) ↔ Any (λ doc. Allows doc op) docs
unfolding any_allows
any_allows_iff [] op = (λ h. ground arith, λ h. absurd h)
any_allows_iff (doc ∷ docs) op = or_iff _ _ (allows_iff doc op) (any_allows_iff docs op)

-- An operation is legal exactly if it is create or noop; or some candidate is active and it is
-- update, correct, supersede or withdraw; or some candidate is an active open loop that is
-- open, blocked or deferred and it is resolve.
pub legal_operations_iff :
    (docs : List Document) (op : Text)
    → (contains (legal_operations docs) op ≡ true)
      ↔ ((op ≡ text "create") ⊎ (op ≡ text "noop") ⊎ Any (λ doc. Allows doc op) docs)
unfolding legal_operations keys contains
legal_operations_iff docs op =
    let start : Dict Bool = (text "create", true) ∷ (text "noop", true) ∷ [] in
    let found : contains (legal_operations docs) op
        ≡ (text "create" == op || (text "noop" == op || any_allows docs op)) =
      contains-sort (keys (add_legal start docs)) op
      ∙ contains-add_legal start docs op
      ∙ ground arith in
    subst
      (λ b.
        (b ≡ true) ↔ ((op ≡ text "create") ⊎ (op ≡ text "noop") ⊎ Any (λ doc. Allows doc op) docs))
      (sym found)
      (or_iff _ _ (names_iff (text "create") op)
        (or_iff _ _ (names_iff (text "noop") op) (any_allows_iff docs op)))
