-- ===== src/Trust/Pinned.antt =====
-- internal/trust/lock.go: `ReadPinnedVersion` and the releases that it supports.
use git_memo.Base.{
  ℕ, ◌+◌, ◌-◌, ◌*◌, Bool, true, false, not, ◌&&◌, ◌||◌, Option, none, some, List, [], ◌∷◌, nat_eq,
  ltb, leb, if◌then◌else◌,
}
use git_memo.Base.Text.{Text, text, is_empty, split_on, strip_prefix}
use git_memo.Base.Int.{ℤ, pos, less_int}
use git_memo.Base.Result.{Result, ok, err, reject_if, ◌>>◌}
use git_memo.Memory.Pattern.{is_digit}

unfoldable pub all_digits : Text → Bool
unfolding is_digit
all_digits [] = true
all_digits (c ∷ s) = is_digit c && all_digits s

-- The number that digits stand for. `strconv.Atoi` stops at the largest int, which no comparison
-- here tells from a larger number.
unfoldable pub number_from : ℕ → Text → ℕ
number_from acc [] = acc
number_from acc (c ∷ s) = number_from (10 * acc + (c - 48)) s

pub record Version : Type 0 where
  pub major : ℕ
  pub minor : ℕ
  pub patch : ℕ

unfoldable pub version_of_parts : List Text → Option Version
unfolding is_empty all_digits number_from
version_of_parts [] = none
version_of_parts (a ∷ []) = none
version_of_parts (a ∷ b ∷ []) = none
version_of_parts (a ∷ b ∷ c ∷ []) =
    if not (is_empty a || is_empty b || is_empty c) && all_digits a && all_digits b && all_digits c
    then some (record { major = number_from 0 a; minor = number_from 0 b; patch = number_from 0 c })
    else none
version_of_parts (a ∷ b ∷ c ∷ d ∷ parts) = none

-- `stableVersionRE`
unfoldable pub stable_version : Text → Option Version
unfolding strip_prefix split_on version_of_parts
stable_version s = elim (strip_prefix (text "v") s) [
  | none ↦ none
  | some rest ↦ version_of_parts (split_on b'.' rest)
]

-- `isSupportedPinnedVersion`
unfoldable pub is_supported_pinned_version : Text → Bool
unfolding stable_version
is_supported_pinned_version s = elim (stable_version s) [
  | none ↦ false
  | some v ↦
      if ltb 0 v.major
      then true
      else if ltb 6 v.minor
      then true
      else nat_eq v.minor 6 && leb 0 v.patch
]

pub data PinError : Type 0 where
  unread unparsed bad_lock_version unsupported : PinError

-- `ReadPinnedVersion`, of what was read; `decode` is `encoding/json` at the envelope.
unfoldable pub read_pinned_version : (Text → Option (ℤ × Text)) → Option Text → Result PinError Text
unfolding less_int is_supported_pinned_version
read_pinned_version decode none = err unread
read_pinned_version decode (some bytes) = elim (decode bytes) [
  | none ↦ err unparsed
  | some (lock_version, version) ↦ do
    reject_if (less_int lock_version (pos 1)) bad_lock_version
    reject_if (not (is_supported_pinned_version version)) unsupported
    ok version
]
