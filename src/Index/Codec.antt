-- ===== src/Index/Codec.antt =====
-- `encoding/json` as the indexer uses it, and `marshalLine` (internal/indexer/machine.go).
use git_memo.Base.{
  ℕ, ◌≡◌, Option, none, some, List, [], ◌∷◌, ◌++◌, All, Option-cases, inl, inr, arith,
}
use git_memo.Base.Text.{Text}

-- `json.Marshal` and `json.Unmarshal` at one Go type. Either can fail.
pub record Codec {ℓ} (A : Type ℓ) : Type ℓ where
  pub marshal : A → Option Text
  pub unmarshal : Text → Option A

abbrev pub newline : ℕ
newline = 10

module _ {ℓ} {A : Type ℓ} (codec : Codec A) where
  -- A line that was marshalled reads back. White space after the value is not looked at.
  pub record IsLawful : Type ℓ where
    pub unmarshal-marshal :
        (a : A) (bytes : Text)
        → codec.marshal a ≡ some bytes
        → codec.unmarshal (bytes ++ newline ∷ []) ≡ some a

  unfoldable pub marshal_line : A → Option Text
  marshal_line a = elim (codec.marshal a) [
    | none ↦ none
    | some bytes ↦ some (bytes ++ newline ∷ [])
  ]

  -- The same of the values that satisfy `P`.
  pub record IsLawfulOn (P : A → Type 0) : Type ℓ where
    pub unmarshal-marshal :
        (a : A) (bytes : Text)
        → P a
        → codec.marshal a ≡ some bytes
        → codec.unmarshal (bytes ++ newline ∷ []) ≡ some a

  pub unmarshal-marshal_line :
      {P : A → Type 0}
      → IsLawfulOn P
      → (a : A) (line : Text) → P a
      → marshal_line a ≡ some line
      → codec.unmarshal line ≡ some a
  unfolding marshal_line
  unmarshal-marshal_line lawful a line p h = elim (Option-cases (codec.marshal a)) [
    | inl failed ↦ ground arith
    | inr (bytes, done) ↦ ground (arith, lawful.unmarshal-marshal a bytes p done)
  ]

-- A law for all lists serves a list with any members.
module _ {A : Type 0} (codec : Codec (List A)) where
  pub IsLawfulOn-all : IsLawful codec → IsLawfulOn codec (All (λ x. Unit))
  IsLawfulOn-all lawful = record {
    unmarshal-marshal = λ a bytes p h. lawful.unmarshal-marshal a bytes h;
  }
