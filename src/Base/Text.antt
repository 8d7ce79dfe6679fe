-- ===== src/Base/Text.antt =====
-- Go strings as lists of bytes, and the functions of `strings` that the program calls.
use Prim.Native.Nat.{ℕ, ◌+◌}
use Prim.Native.Char.{code}
use Prim.Native.String.{String}
use mathlib.Core.Path.{◌≡◌, refl}
use mathlib.Core.Logic.{◌↔◌}
use mathlib.Core.Bool.{Bool, true, false, ◌&&◌, ◌||◌}
use mathlib.Core.List.{List, [], ◌∷◌, ◌++◌, reverse, map}
use mathlib.Core.Option.{Option, none, some}
use native.Mathlib.Omega.{arith}
use git_memo.Base.Tests.{ltb, leb, nat_eq, if◌then◌else◌}

abbrev pub Text : Type 0
Text = List ℕ

-- The bytes of an ASCII literal.
abbrev pub text : String → Text
text String.[] = []
text (String.◌∷◌ c s) = code c ∷ text s

infix 50 ◌==◌
unfoldable pub ◌==◌ : Text → Text → Bool
[] == [] = true
[] == (d ∷ t) = false
(c ∷ s) == [] = false
(c ∷ s) == (d ∷ t) = nat_eq c d && s == t

eq_of_== : (s t : Text) → (s == t) ≡ true → s ≡ t
unfolding ◌==◌
eq_of_== [] [] h = refl
eq_of_== [] (d ∷ t) h = cc
eq_of_== (c ∷ s) [] h = cc
eq_of_== (c ∷ s) (d ∷ t) h = ground (arith, eq_of_== s t)

pub eq_refl : (s : Text) → (s == s) ≡ true
unfolding ◌==◌
eq_refl [] = refl
eq_refl (c ∷ s) = ground (arith, eq_refl s)

pub eq_iff : (s t : Text) → ((s == t) ≡ true) ↔ (s ≡ t)
eq_iff s t = (eq_of_== s t, λ e. rw e (eq_refl t))

-- Go's `<=` on strings: by bytes, a prefix first.
unfoldable pub text_le : Text → Text → Bool
text_le [] t = true
text_le (c ∷ s) [] = false
text_le (c ∷ s) (d ∷ t) = ltb c d || (nat_eq c d && text_le s t)

unfoldable pub is_empty : Text → Bool
is_empty [] = true
is_empty (c ∷ s) = false

-- The ASCII white space of `unicode.IsSpace`.
unfoldable pub is_space : ℕ → Bool
is_space c = nat_eq c 32 || (leb 9 c && leb c 13)

unfoldable pub trim_left : Text → Text
trim_left [] = []
trim_left (c ∷ s) = if is_space c then trim_left s else c ∷ s

unfoldable pub trim_right : Text → Text
unfolding trim_left
trim_right s = reverse (trim_left (reverse s))

-- `strings.TrimSpace`
unfoldable pub trim_space : Text → Text
unfolding trim_left trim_right
trim_space s = trim_right (trim_left s)

-- `strings.HasPrefix` with `strings.TrimPrefix`: the rest after the prefix, if it is there.
unfoldable pub strip_prefix : Text → Text → Option Text
strip_prefix [] s = some s
strip_prefix (c ∷ p) [] = none
strip_prefix (c ∷ p) (d ∷ s) = if nat_eq c d then strip_prefix p s else none

-- `strings.Split` by one byte: never empty.
pub push_byte : ℕ → List Text → List Text
push_byte c [] = (c ∷ []) ∷ []
push_byte c (part ∷ parts) = (c ∷ part) ∷ parts

pub push_byte-ne : (c : ℕ) (parts : List Text) → push_byte c parts ≡ [] → ⊥
unfolding push_byte
push_byte-ne c [] h = ground arith
push_byte-ne c (part ∷ parts) h = ground arith

unfoldable pub split_on : ℕ → Text → List Text
unfolding push_byte
split_on sep [] = [] ∷ []
split_on sep (c ∷ s) =
    let parts = split_on sep s in if nat_eq c sep then [] ∷ parts else push_byte c parts

-- `strings.Join` with a separator of one byte.
unfoldable pub join : ℕ → List Text → Text
join sep [] = []
join sep (part ∷ []) = part
join sep (part ∷ next ∷ parts) = part ++ sep ∷ join sep (next ∷ parts)

-- `strings.ToLower` on ASCII.
unfoldable pub lower_byte : ℕ → ℕ
lower_byte c = if leb b'A' c && leb c b'Z' then c + 32 else c

unfoldable pub to_lower : Text → Text
unfolding lower_byte
to_lower s = map lower_byte s

unfoldable pub contains : List Text → Text → Bool
contains [] t = false
contains (s ∷ rest) t = s == t || contains rest t

-- `strings.TrimSuffix(s, part)`, for a part that is not empty.
unfoldable pub trim_suffix : Text → Text → Text
trim_suffix part [] = []
trim_suffix part (c ∷ s) = let rest = trim_suffix part s in if (c ∷ s) == part then [] else c ∷ rest
