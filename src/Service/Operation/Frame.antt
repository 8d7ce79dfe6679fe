-- ===== src/Service/Operation/Frame.antt =====
-- internal/memoryservice/mutation.go: what every operation that succeeds has done, and has left
-- alone.
use git_memo.Base.{
  Bool, true, false, ◌≡◌, ◌⊎◌, inl, inr, refl, ap, subst, none, some, [], ◌∷◌, arith, All,
  Bool-cases, if◌then◌else◌,
}
use git_memo.Base.Text.{Text, text, ◌==◌, eq_iff, contains}
use git_memo.Base.Dict.{lookup}
use git_memo.Base.Result.{Result, ok, Result-cases, ok-injective}
use git_memo.Memory.Pattern.{is_memory_id}
use git_memo.Service.Store.{
  Code, Files, Document, ProposedDocument, Platform, canonical_document_at, old_paths,
  write_proposed_document, transition_lifecycle,
}
use git_memo.Service.Store.Find.{canonical_document_at-some}
use git_memo.Service.Store.Write.{write_proposed_document-IsWritten, transition_lifecycle-keeps}
use git_memo.Service.Operation.{ApplyMutationRequest, MutationPlan, active_target}

module _ (platform : Platform) where
  -- A file of the document with that ID.
  unfoldable pub IsFileOf : Files → Text → Text → Type 0
  IsFileOf files id j =
      (doc : Document) × (canonical_document_at platform files id ≡ ok (some doc))
      × (contains (old_paths platform (some doc)) j ≡ true)

  -- Every file that is not one of the target's stays as it is.
  unfoldable pub Keeps : Files → Text → Files → Type 0
  Keeps files target files' =
      (j b : Text) → lookup j files ≡ some b → (lookup j files' ≡ some b) ⊎ IsFileOf files target j

  abbrev pub IsId : Text → Type 0
  IsId id = is_memory_id id ≡ true

  pub record IsDone (files : Files) (request : ApplyMutationRequest) (plan : MutationPlan)
      (files' : Files) : Type 0 where
    pub primary : is_memory_id plan.primary_memory_id ≡ true
    pub target :
        (plan.target_memory_id ≡ [])
        ⊎ ((plan.target_memory_id ≡ request.target_id)
            × (is_memory_id plan.target_memory_id ≡ true))
    pub changed : All (λ id. is_memory_id id ≡ true) plan.changed_memory_ids
    pub keeps : Keeps files request.target_id files'

  pub active_target-ok :
      (files : Files) (id : Text) (doc : Document)
      → active_target platform files id ≡ ok doc
      → (canonical_document_at platform files id ≡ ok (some doc))
        × (doc.memory.id ≡ id)
        × (doc.memory.lifecycle ≡ text "active")
  unfolding active_target
  active_target-ok files id doc h = elim (Result-cases (canonical_document_at platform files id)) [
    | inr (e, e₁) ↦ ground arith
    | inl (none, e₁) ↦ ground arith
    | inl (some found, e₁) ↦ elim (Bool-cases (found.memory.lifecycle == text "active")) [
      | inr e₂ ↦ ground arith
      | inl e₂ ↦
          let same : found ≡ doc = ground arith in
          let here : canonical_document_at platform files id ≡ ok (some doc) = ground arith in
          (
            here,
            (canonical_document_at-some platform files id doc here).identified,
            ground (arith, eq_iff found.memory.lifecycle (text "active")),
          )
    ]
  ]

  pub transition-Keeps :
      (files : Files) (doc : Document) (lifecycle time : Text) (files' : Files) (id : Text)
      → canonical_document_at platform files id ≡ ok (some doc)
      → (files₁ : Files) → transition_lifecycle platform files₁ doc lifecycle time ≡ ok files'
      → Keeps files id files₁
      → Keeps files id files'
  unfolding Keeps IsFileOf old_paths contains
  transition-Keeps files doc lifecycle time files' id found files₁ h k j b e =
      elim (Bool-cases (doc.sidecar_path == j)) [
        | inl e₁ ↦ inr (doc, found, ground arith)
        | inr e₁ ↦ elim (k j b e) [
          | inr other ↦ inr other
          | inl kept ↦ inl (
              ground (
                arith,
                transition_lifecycle-keeps platform files₁ doc lifecycle time files' j h
                    (λ same. ground (arith, eq_iff doc.sidecar_path j)),
              ))
        ]
      ]

  pub create-Keeps :
      (files : Files) (proposal : ProposedDocument) (doc : Document) (files' : Files) (id : Text)
      → write_proposed_document platform files none proposal ≡ ok (doc, files')
      → (doc.memory.id ≡ proposal.memory.id) × Keeps files id files'
  unfolding Keeps old_paths contains
  create-Keeps files proposal doc files' id h =
      let (p, _, w) = write_proposed_document-IsWritten platform files none proposal doc files' h in
      (ap (λ m. m.id) w.same_memory, λ j b e. inl (w.kept j b e refl))

  pub Keeps-refl : (files : Files) (id : Text) → Keeps files id files
  unfolding Keeps
  Keeps-refl files id j b e = inl e

  pub optional-IsId :
      (test : Bool) (id : Text)
      → IsId id
      → All (λ id. is_memory_id id ≡ true) (if test then id ∷ [] else [])
  optional-IsId true id h = (h, tt)
  optional-IsId false id h = tt

  -- A computed result is the one that a hypothesis names.
  pub IsDone-ok :
      (files : Files) (request : ApplyMutationRequest) {plan plan' : MutationPlan}
      {out files' : Files}
      → ◌≡◌ {A = Result Code (MutationPlan × Files)} (ok (plan, out)) (ok (plan', files'))
      → IsDone files request plan out
      → IsDone files request plan' files'
  IsDone-ok files request e d =
      subst (λ (x : MutationPlan × Files). IsDone files request x.0 x.1) (ok-injective e) d
