-- ===== src/Memory.antt =====
-- internal/memory/model.go: the data of a memory and its sidecar file.
pub mod Pattern
pub mod Fields
pub mod Decode
use git_memo.Base.{ℕ, Bool, Option, List}
use git_memo.Base.Text.{Text}
use git_memo.Base.Int.{ℤ}

pub record Entity : Type 0 where
  pub kind : Text
  pub name : Text

pub record Temporal : Type 0 where
  pub created_at : Text
  pub updated_at : Text
  pub effective_from : Option Text
  pub effective_until : Option Text

pub record Source : Type 0 where
  pub kind : Text
  pub locator : Text
  pub revision : Option Text
  pub note : Option Text

pub record Provenance : Type 0 where
  pub basis : Text
  pub confidence : Text
  pub explicit_memory_request : Bool
  pub sources : List Source

-- `relation` is the field `Type`.
pub record Relationship : Type 0 where
  pub relation : Text
  pub target_id : Text
  pub note : Option Text

-- `kind` is the field `Type`.
pub record Memory : Type 0 where
  pub schema_version : ℤ
  pub id : Text
  pub title : Text
  pub kind : Text
  pub lifecycle : Text
  pub summary : Text
  pub projects : List Text
  pub topics : List Text
  pub tags : List Text
  pub aliases : List Text
  pub entities : List Entity
  pub importance : Text
  pub temporal : Temporal
  pub provenance : Provenance
  pub relationships : List Relationship
  pub content_path : Text
  pub sensitivity : Text
  pub open_loop_status : Option Text

-- A sidecar that was loaded, with its path.
pub record Record : Type 0 where
  pub path : Text
  pub memory : Memory
