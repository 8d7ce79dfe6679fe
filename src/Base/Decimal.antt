-- ===== src/Base/Decimal.antt =====
-- `strconv.Itoa` and the verbs %d and %06d of `fmt` on numbers that are not negative.
use git_memo.Base.{ℕ, zero, suc, ◌+◌, ◌-◌, ◌*◌, ◌/◌, ◌%◌, ◌<◌, ◌≡◌, refl, ◌∙◌, sym, ap, arith}
use git_memo.Base.{[], ◌∷◌, ◌++◌, ltb, if◌then◌else◌, length}
use git_memo.Base.Text.{Text}

digits : ℕ → ℕ → Text
digits zero n = []
digits (suc f) n =
    let rest = digits f (n / 10) in if ltb n 10 then (48 + n) ∷ [] else rest ++ (48 + n % 10) ∷ []

unfoldable pub decimal : ℕ → Text
unfolding digits
decimal n = digits (suc n) n

pad : ℕ → Text → Text
pad zero s = s
pad (suc n) s = 48 ∷ pad n s

-- `%06d`
unfoldable pub decimal_six : ℕ → Text
unfolding pad
decimal_six n = pad (6 - length (decimal n)) (decimal n)

-- The number that a row of digits stands for, leading zeros or not.
value_from : ℕ → Text → ℕ
value_from acc [] = acc
value_from acc (c ∷ s) = value_from (10 * acc + (c - 48)) s

value_from-append :
    (s : Text) (acc c : ℕ) → value_from acc (s ++ c ∷ []) ≡ 10 * value_from acc s + (c - 48)
unfolding value_from
value_from-append [] acc c = refl
value_from-append (d ∷ s) acc c = value_from-append s (10 * acc + (d - 48)) c

value_from-digits : (f n : ℕ) → n < f → value_from 0 (digits f n) ≡ n
unfolding digits value_from
value_from-digits zero n h = elim h [ ]
value_from-digits (suc f) n h =
    ground
      (arith, value_from-append (digits f (n / 10)) 0 (48 + n % 10), value_from-digits f (n / 10))

value_from-pad : (n : ℕ) (s : Text) → value_from 0 (pad n s) ≡ value_from 0 s
unfolding pad value_from
value_from-pad zero s = refl
value_from-pad (suc n) s = value_from-pad n s

-- Two numbers with one spelling are equal.
pub decimal_six-injective : (m n : ℕ) → decimal_six m ≡ decimal_six n → m ≡ n
unfolding decimal_six decimal
decimal_six-injective m n e = sym (spelled m) ∙ ap (value_from 0) e ∙ spelled n
  where
    spelled : (k : ℕ) → value_from 0 (decimal_six k) ≡ k
    spelled k =
        value_from-pad (6 - length (digits (suc k) k)) (digits (suc k) k)
        ∙ value_from-digits (suc k) k (omega arith)
