-- ===== src/Base/Sorting.antt =====
-- Orders given by a Boolean comparison, and that the sort puts a list in order.
use git_memo.Base.{
  ◌≡◌, refl, sym, subst, ap₂, inl, inr, arith, Bool, true, false, not, List, [], ◌∷◌, Bool-cases,
  All, All-map, sort, if◌then◌else◌,
}
use git_memo.Base.Lists.{insert_sorted, insert_sorted-All}
use git_memo.Base.Text.{Text, text_le, ◌==◌, eq_iff}

module _ {A : Type 0} where
  -- Every member is at most every later one.
  abbrev pub IsSorted : (A → A → Bool) → List A → Type 0
  IsSorted le [] = Unit
  IsSorted le (x ∷ xs) = All (λ y. le x y ≡ true) xs × IsSorted le xs

  abbrev pub IsTotal : (A → A → Bool) → Type 0
  IsTotal le = (x y : A) → le x y ≡ false → le y x ≡ true

  abbrev pub IsTransitive : (A → A → Bool) → Type 0
  IsTransitive le = (x y z : A) → le x y ≡ true → le y z ≡ true → le x z ≡ true

  module _ (le : A → A → Bool) (total : IsTotal le) (transitive : IsTransitive le) where
    insert_sorted-IsSorted :
        (x : A) (xs : List A) → IsSorted le xs → IsSorted le (insert_sorted le x xs)
    unfolding insert_sorted
    insert_sorted-IsSorted x [] h = (tt, tt)
    insert_sorted-IsSorted x (y ∷ ys) (first, rest) = elim (Bool-cases (le x y)) [
      | inl before ↦
          subst (λ b. IsSorted le (if b then x ∷ y ∷ ys else y ∷ insert_sorted le x ys))
            (sym before)
            ((before, All-map ys (λ z h. transitive x y z before h) first), (first, rest))
      | inr behind ↦
          subst (λ b. IsSorted le (if b then x ∷ y ∷ ys else y ∷ insert_sorted le x ys))
            (sym behind)
            (
              insert_sorted-All (λ z. le y z ≡ true) le x ys (total x y behind) first,
              insert_sorted-IsSorted x ys rest,
            )
    ]

    pub sort-IsSorted : (xs : List A) → IsSorted le (sort le xs)
    unfolding sort
    sort-IsSorted [] = tt
    sort-IsSorted (x ∷ xs) = insert_sorted-IsSorted x (sort le xs) (sort-IsSorted xs)

pub text_le-IsTotal : IsTotal text_le
unfolding text_le
text_le-IsTotal [] t h = absurd (ground arith)
text_le-IsTotal (c ∷ s) [] h = refl
text_le-IsTotal (c ∷ s) (d ∷ t) h = ground (arith, text_le-IsTotal s t)

pub text_le-IsTransitive : IsTransitive text_le
unfolding text_le
text_le-IsTransitive [] t u h k = refl
text_le-IsTransitive (c ∷ s) [] u h k = absurd (ground arith)
text_le-IsTransitive (c ∷ s) (d ∷ t) [] h k = absurd (ground arith)
text_le-IsTransitive (c ∷ s) (d ∷ t) (e ∷ u) h k = ground (arith, text_le-IsTransitive s t u)

pub text_le-antisymmetric : (s t : Text) → text_le s t ≡ true → text_le t s ≡ true → s ≡ t
unfolding text_le
text_le-antisymmetric [] [] h k = refl
text_le-antisymmetric [] (d ∷ t) h k = absurd (ground arith)
text_le-antisymmetric (c ∷ s) [] h k = absurd (ground arith)
text_le-antisymmetric (c ∷ s) (d ∷ t) h k =
    ap₂ ◌∷◌ (ground arith) (text_le-antisymmetric s t (ground arith) (ground arith))

module _ {A : Type 0} (key : A → Text) (le : A → A → Bool) where
  -- First by a key, then by another comparison.
  unfoldable pub le_by : A → A → Bool
  le_by a b = if not (key a == key b) then text_le (key a) (key b) else le a b

  pub le_by-IsTotal : IsTotal le → IsTotal le_by
  unfolding le_by
  le_by-IsTotal total a b h = ground (
    arith,
    total a b,
    text_le-IsTotal (key a) (key b),
    eq_iff (key a) (key b),
    eq_iff (key b) (key a),
  )

  pub le_by-IsTransitive : IsTransitive le → IsTransitive le_by
  unfolding le_by
  le_by-IsTransitive transitive a b c h k = ground (
    arith,
    transitive a b c,
    text_le-IsTransitive (key a) (key b) (key c),
    text_le-antisymmetric (key a) (key b),
    eq_iff (key a) (key b),
    eq_iff (key b) (key c),
    eq_iff (key a) (key c),
  )
