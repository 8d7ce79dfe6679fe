-- ===== src/Base/Dict.antt =====
-- Go maps with string keys, as association lists with one entry for each key written.
use git_memo.Base.{◌≡◌, refl, Option, none, some, List, [], ◌∷◌, arith}
use git_memo.Base.{if◌then◌else◌}
use git_memo.Base.Text.{Text, ◌==◌, eq_iff}

module _ {ℓ} where
  abbrev pub Dict : Type ℓ → Type ℓ
  Dict V = List (Text × V)

module _ {ℓ} {V : Type ℓ} where
  unfoldable pub lookup : Text → Dict V → Option V
  lookup name [] = none
  lookup name ((other, value) ∷ dict) = if other == name then some value else lookup name dict

  -- `dict[name] = value`: in place, or behind the other entries.
  unfoldable pub insert : Text → V → Dict V → Dict V
  insert name value [] = (name, value) ∷ []
  insert name value ((other, old) ∷ dict) =
      if other == name then (name, value) ∷ dict else (other, old) ∷ insert name value dict

  -- `delete(dict, name)`
  unfoldable pub remove : Text → Dict V → Dict V
  remove name [] = []
  remove name ((other, old) ∷ dict) =
      let rest = remove name dict in if other == name then rest else (other, old) ∷ rest

  pub lookup-insert :
      (written read : Text) (value : V) (dict : Dict V)
      → lookup read (insert written value dict)
        ≡ (if written == read then some value else lookup read dict)
  unfolding insert lookup
  lookup-insert written read value [] = refl
  lookup-insert written read value ((other, old) ∷ dict) = ground (
    arith,
    lookup-insert written read value dict,
    eq_iff other written,
    eq_iff other read,
    eq_iff written read,
  )

  pub lookup-remove :
      (gone read : Text) (dict : Dict V)
      → lookup read (remove gone dict) ≡ (if gone == read then none else lookup read dict)
  unfolding remove lookup
  lookup-remove gone read [] = ground arith
  lookup-remove gone read ((other, old) ∷ dict) =
      ground (
        arith,
        lookup-remove gone read dict,
        eq_iff other gone,
        eq_iff other read,
        eq_iff gone read,
      )
