-- ===== src/Memory/Fields/Laws.antt =====
-- internal/memory/model.go: what each check accepts.
use git_memo.Base.{
  ℕ, ◌+◌, ◌≤◌, ◌≡◌, ◌↔◌, ◌⊎◌, inl, inr, refl, Bool, true, false, not, List, [], ◌∷◌, ◌++◌, length,
  All, arith, leb, Bool-cases, sym,
}
use git_memo.Base.Text.{Text, ◌==◌, eq_iff, contains}
use git_memo.Memory.Fields.{
  Field, field, item, Message, duplicates, must_be_slug, at_most, require, rune_count, check_string,
  check_enum, check_slugs, check_slug_array, is_short_slug,
}

pub append-eq-nil_iff {ℓ} :
    {A : Type ℓ} (xs ys : List A) → (xs ++ ys ≡ []) ↔ ((xs ≡ []) × (ys ≡ []))
append-eq-nil_iff [] ys = (λ h. (refl, h), λ h. h.1)
append-eq-nil_iff (x ∷ xs) ys = (λ h. ground arith, λ h. ground arith)

pub require_iff : (test : Bool) (f : Field) (m : Message) → (require test f m ≡ []) ↔ (test ≡ true)
require_iff true f m = (λ h. refl, λ h. refl)
require_iff false f m = (λ h. ground arith, λ h. ground arith)

-- A member of a list of texts.
abbrev pub Among : Text → List Text → Type 0
Among v [] = ⊥
Among v (x ∷ xs) = (v ≡ x) ⊎ Among v xs

abbrev pub Distinct : List Text → Type 0
Distinct [] = Unit
Distinct (x ∷ xs) = ¬ Among x xs × Distinct xs

pub check_string_iff :
    (f : Field) (v : Text) (least most : ℕ)
    → (check_string f v least most ≡ []) ↔ ((least ≤ rune_count v) × (rune_count v ≤ most))
unfolding check_string
check_string_iff f v least most = (λ h. ground arith, λ h. ground arith)

check_enum-Among :
    (f : Field) (v : Text) (allowed : List Text) → check_enum f v allowed ≡ [] → Among v allowed
unfolding check_enum
check_enum-Among f v [] h = ground arith
check_enum-Among f v (x ∷ xs) h = elim (Bool-cases (v == x)) [
  | inl same ↦ inl ((eq_iff v x).0 same)
  | inr apart ↦ inr (check_enum-Among f v xs (rw apart at h))
]

Among-check_enum :
    (f : Field) (v : Text) (allowed : List Text) → Among v allowed → check_enum f v allowed ≡ []
unfolding check_enum
Among-check_enum f v [] h = absurd h
Among-check_enum f v (x ∷ xs) (inl e) = ground (arith, eq_iff v x)
Among-check_enum f v (x ∷ xs) (inr h) = ground (arith, Among-check_enum f v xs h)

-- `checkEnum` finds no problem exactly if the value is among those allowed.
pub check_enum_iff :
    (f : Field) (v : Text) (allowed : List Text) → (check_enum f v allowed ≡ []) ↔ Among v allowed
check_enum_iff f v allowed = (check_enum-Among f v allowed, Among-check_enum f v allowed)

contains-Among : (xs : List Text) (v : Text) → contains xs v ≡ true → Among v xs
unfolding contains
contains-Among [] v h = ground arith
contains-Among (x ∷ xs) v h = elim (Bool-cases (x == v)) [
  | inl same ↦ inl (sym ((eq_iff x v).0 same))
  | inr apart ↦ inr (contains-Among xs v (rw apart at h))
]

Among-contains : (xs : List Text) (v : Text) → Among v xs → contains xs v ≡ true
unfolding contains
Among-contains [] v h = absurd h
Among-contains (x ∷ xs) v (inl e) = ground (arith, eq_iff x v)
Among-contains (x ∷ xs) v (inr h) = ground (arith, Among-contains xs v h)

pub contains_iff : (xs : List Text) (v : Text) → (contains xs v ≡ true) ↔ Among v xs
contains_iff xs v = (contains-Among xs v, Among-contains xs v)

-- No member of `xs` is among `seen`, and none occurs twice.
abbrev Fresh : List Text → List Text → Type 0
Fresh seen [] = Unit
Fresh seen (x ∷ xs) = ¬ Among x seen × Fresh (x ∷ seen) xs

abbrev Apart : List Text → List Text → Type 0
Apart xs seen = (v : Text) → Among v xs → ¬ Among v seen

Apart-cons :
    (x : Text) (xs seen : List Text) → ¬ Among x seen → Apart xs (x ∷ seen) → Apart (x ∷ xs) seen
Apart-cons x xs seen hx apart v (inl e) k = hx (rw e at k)
Apart-cons x xs seen hx apart v (inr m) k = apart v m (inr k)

Apart-shift :
    (x : Text) (xs seen : List Text) → ¬ Among x xs → Apart (x ∷ xs) seen → Apart xs (x ∷ seen)
Apart-shift x xs seen hx apart v m (inl e) = hx (rw e at m)
Apart-shift x xs seen hx apart v m (inr k) = apart v (inr m) k

Fresh-Distinct : (seen xs : List Text) → Fresh seen xs → Distinct xs × Apart xs seen
Fresh-Distinct seen [] h = (tt, λ v m k. m)
Fresh-Distinct seen (x ∷ xs) (hx, h) =
    let (distinct, apart) = Fresh-Distinct (x ∷ seen) xs h in
    ((λ m. apart x m (inl refl), distinct), Apart-cons x xs seen hx apart)

Distinct-Fresh : (seen xs : List Text) → Distinct xs → Apart xs seen → Fresh seen xs
Distinct-Fresh seen [] h apart = tt
Distinct-Fresh seen (x ∷ xs) (hx, h) apart =
    (apart x (inl refl), Distinct-Fresh (x ∷ seen) xs h (Apart-shift x xs seen hx apart))

-- The duplicate test of a loop finds nothing.
fresh_iff :
    (seen : List Text) (v : Text) (name : Text)
    → (require (not (contains seen v)) (field name) duplicates ≡ []) ↔ (¬ Among v seen)
fresh_iff seen v name = (
  λ h m. ground (arith, (contains_iff seen v).1 m),
  λ h. elim (Bool-cases (contains seen v)) [
    | inl found ↦ absurd (h ((contains_iff seen v).0 found))
    | inr missing ↦ rw missing
  ],
)

abbrev pub AllSlugs : List Text → Type 0
AllSlugs values = All (λ v. is_short_slug v ≡ true) values

check_slugs_sound :
    (name : Text) (values : List Text) (i : ℕ) (seen : List Text)
    → check_slugs name values i seen ≡ []
    → AllSlugs values × Fresh seen values
unfolding check_slugs
check_slugs_sound name [] i seen h = (tt, tt)
check_slugs_sound name (v ∷ values) i seen h =
    let first = (append-eq-nil_iff _ _).0 h in
    let second = (append-eq-nil_iff _ _).0 first.1 in
    let rest = check_slugs_sound name values (i + 1) (v ∷ seen) second.1 in
    (
      ((require_iff (is_short_slug v) (item name i) must_be_slug).0 first.0, rest.0),
      ((fresh_iff seen v name).0 second.0, rest.1),
    )

check_slugs_complete :
    (name : Text) (values : List Text) (i : ℕ) (seen : List Text)
    → AllSlugs values
    → Fresh seen values
    → check_slugs name values i seen ≡ []
unfolding check_slugs
check_slugs_complete name [] i seen h k = refl
check_slugs_complete name (v ∷ values) i seen (hv, h) (kv, k) =
    rw (hv, (fresh_iff seen v name).1 kv) (check_slugs_complete name values (i + 1) (v ∷ seen) h k)

-- `checkSlugArray` finds no problem exactly if the array has at most that many members, all of
-- them slugs, and none twice.
pub check_slug_array_iff :
    (name : Text) (values : List Text) (most : ℕ)
    → (check_slug_array name values most ≡ [])
      ↔ ((length values ≤ most) × AllSlugs values × Distinct values)
unfolding check_slug_array
check_slug_array_iff name values most = (
  λ h.
      let first = (append-eq-nil_iff _ _).0 h in
      let rest = check_slugs_sound name values 0 [] first.1 in
      (
        ground
            (arith, (require_iff (leb (length values) most) (field name) (at_most most)).0 first.0),
        rest.0,
        (Fresh-Distinct [] values rest.1).0,
      ),
  λ h. (append-eq-nil_iff _ _).1 (
    (require_iff (leb (length values) most) (field name) (at_most most)).1 (ground arith),
    check_slugs_complete name values 0 [] h.1 (Distinct-Fresh [] values h.2 (λ v m k. k)),
  ),
)
