-- ===== src/Base/Result.antt =====
-- A Go function's `(value, error)`: a value, or the error that a caller tells apart.
use git_memo.Base.{◌≡◌, refl, ◌⊎◌, inl, inr, Bool, true, false}

pub data Result {ℓ κ} (E : Type ℓ) (A : Type κ) : Type (ℓ ⊔ κ) where
  ok : A → Result E A
  err : E → Result E A

infixl 5 ◌>>=◌ ◌>>◌
abbrev pub ◌>>=◌ {ℓ κ μ} :
    {E : Type ℓ} {A : Type κ} {B : Type μ} → Result E A → (A → Result E B) → Result E B
ok a >>= f = f a
err e >>= f = err e

abbrev pub ◌>>◌ {ℓ κ} : {E : Type ℓ} {B : Type κ} → Result E (Unit {0}) → Result E B → Result E B
m >> k = m >>= λ _. k

-- `if test { return error }`
abbrev pub reject_if {ℓ} : {E : Type ℓ} → Bool → E → Result E (Unit {0})
reject_if true e = err e
reject_if false e = ok tt

pub ok-injective {ℓ κ} :
    {E : Type ℓ} {A : Type κ} {a b : A} → ◌≡◌ {A = Result E A} (ok a) (ok b) → a ≡ b
ok-injective h = cc

pub err≢ok {ℓ κ} :
    {E : Type ℓ} {A : Type κ} {e : E} {a : A} → ◌≡◌ {A = Result E A} (err e) (ok a) → ⊥
err≢ok h = cc

pub Result-cases {ℓ κ} :
    {E : Type ℓ} {A : Type κ} (r : Result E A) → ((a : A) × (r ≡ ok a)) ⊎ ((e : E) × (r ≡ err e))
Result-cases (ok a) = inl (a, refl)
Result-cases (err e) = inr (e, refl)

-- What a chain that succeeds says of its first step.
pub bind-ok {ℓ κ μ} :
    {E : Type ℓ} {A : Type κ} {B : Type μ} (step : Result E A) {next : A → Result E B} {out : B}
    → (step >>= next) ≡ ok out
    → (made : A) × (step ≡ ok made) × (next made ≡ ok out)
bind-ok (ok made) h = (made, refl, h)
bind-ok (err e) h = absurd (err≢ok h)

pub reject_if-ok {ℓ κ} :
    {E : Type ℓ} {B : Type κ} (test : Bool) (e : E) {k : Result E B} {b : B}
    → (reject_if test e >> k) ≡ ok b
    → (test ≡ false) × (k ≡ ok b)
reject_if-ok true e h = absurd (err≢ok h)
reject_if-ok false e h = (refl, h)
