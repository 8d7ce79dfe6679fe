-- ===== src/Base/Int.antt =====
-- Go's `int`, 64 bits wide: a signed number with the wrap-around of sums written out.
use git_memo.Base.{
  ℕ, ◌+◌, ◌-◌, ◌/◌, ◌%◌, ltb, nat_eq, if◌then◌else◌, Bool, true, false, ◌≡◌, ap, arith,
}
use git_memo.Base.{zero, suc}

-- `negsuc n` is -(n + 1).
pub data ℤ : Type 0 where
  pos : ℕ → ℤ
  negsuc : ℕ → ℤ

abbrev pub two_63 : ℕ
two_63 = 9223372036854775808

abbrev pub two_64 : ℕ
two_64 = 18446744073709551616

-- The int whose sum before wrapping is `n`, for `n` below 2^64.
unfoldable pub wrap : ℕ → ℤ
wrap n = if ltb n two_63 then pos n else negsuc (two_64 - 1 - n)

unfoldable pub is_negative : ℤ → Bool
is_negative (pos n) = false
is_negative (negsuc n) = true

unfoldable pub int_eq : ℤ → ℤ → Bool
int_eq (pos a) (pos b) = nat_eq a b
int_eq (pos a) (negsuc b) = false
int_eq (negsuc a) (pos b) = false
int_eq (negsuc a) (negsuc b) = nat_eq a b

-- The int -n.
unfoldable pub negate : ℕ → ℤ
negate zero = pos 0
negate (suc n) = negsuc n

-- Division by a positive int truncates towards zero.
unfoldable pub div_int : ℤ → ℕ → ℤ
unfolding negate
div_int (pos a) b = pos (a / b)
div_int (negsuc a) b = negate ((a + 1) / b)

-- The 64 bits of an int, as a number.
unfoldable pub bits : ℤ → ℕ
bits (pos n) = n
bits (negsuc n) = two_64 - 1 - n

-- `a + b`, which wraps around.
unfoldable pub add_int : ℤ → ℤ → ℤ
unfolding bits wrap
add_int a b = wrap ((bits a + bits b) % two_64)

-- `a < b`
unfoldable pub less_int : ℤ → ℤ → Bool
less_int (pos a) (pos b) = ltb a b
less_int (pos a) (negsuc b) = false
less_int (negsuc a) (pos b) = true
less_int (negsuc a) (negsuc b) = ltb b a

pub int_eq_sound : (a b : ℤ) → int_eq a b ≡ true → a ≡ b
unfolding int_eq
int_eq_sound (pos a) (pos b) h = ap pos (ground arith)
int_eq_sound (pos a) (negsuc b) h = absurd (ground arith)
int_eq_sound (negsuc a) (pos b) h = absurd (ground arith)
int_eq_sound (negsuc a) (negsuc b) h = ap negsuc (ground arith)

pub int_eq_refl : (a : ℤ) → int_eq a a ≡ true
unfolding int_eq
int_eq_refl (pos a) = ground arith
int_eq_refl (negsuc a) = ground arith
