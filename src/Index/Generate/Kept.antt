-- ===== src/Index/Generate/Kept.antt =====
-- What `replaceIndexDirectory` leaves of the old index when it fails, and what it has written when it
-- succeeds.
use git_memo.Base.{◌≡◌, refl, ◌⊎◌, inl, inr, arith, true, Option, none, some, [], Bool-cases}
use git_memo.Index.Chunks.{Files}
use git_memo.Index.Generate.{generated_paths}
use git_memo.Index.Generate.Replace.{
  Faults, Folders, ReplaceError, not_activated, replaced, failed, no_root, no_new_folder,
  no_backup_path, backup_path_taken, uninspected, not_moved, Written, written, refused, write_new,
  activate, move_aside, replace_index_directory,
}

-- The folder as it was, or the one case in which the old index is in the other folder.
abbrev pub IsKept : Faults → Option Files → ReplaceError → Folders → Type 0
IsKept faults old e f =
    ((f.index ≡ old) × (f.backup ≡ none))
    ⊎ ((stored : Files) × (old ≡ some stored)
        × (f.index ≡ none)
        × (f.backup ≡ some stored)
        × (e ≡ not_activated)
        × (faults.move_back ≡ true))

failed-injective :
    {e e' : ReplaceError} {f f' : Folders} → failed e f ≡ failed e' f' → (e ≡ e') × (f ≡ f')
failed-injective h = (cc, cc)

Written-cases :
    (w : Written) → ((new : Files) × (w ≡ written new)) ⊎ ((e : ReplaceError) × (w ≡ refused e))
Written-cases (written new) = inl (new, refl)
Written-cases (refused e) = inr (e, refl)

kept :
    (faults : Faults) (old : Option Files) (e e' : ReplaceError) (f : Folders)
    → failed e' (record { index = old; backup = none }) ≡ failed e f
    → IsKept faults old e f
kept faults old e e' f h = inl (ground arith, ground arith)

module _ (faults : Faults) (generated : Files) where
  activate-IsKept :
      (new stored : Files) (e : ReplaceError) (f : Folders)
      → activate faults generated new (record { index = none; backup = some stored }) ≡ failed e f
      → IsKept faults (some stored) e f
  unfolding activate
  activate-IsKept new stored e f h = elim (Bool-cases faults.activate_new) [
    | inr works ↦ absurd (ground arith)
    | inl fails ↦ elim (Bool-cases faults.move_back) [
      | inl stuck ↦ inr (stored, refl, ground arith, ground arith, ground arith, stuck)
      | inr moved ↦ inl (ground arith, ground arith)
    ]
  ]

  move_aside-IsKept :
      (new : Files) (old : Option Files) (e : ReplaceError) (f : Folders)
      → move_aside faults generated new old ≡ failed e f
      → IsKept faults old e f
  unfolding move_aside activate
  move_aside-IsKept new none e f h = elim (Bool-cases faults.activate_new) [
    | inr works ↦ absurd (ground arith)
    | inl fails ↦ kept faults none e not_activated f (ground arith)
  ]
  move_aside-IsKept new (some old) e f h = elim (Bool-cases faults.move_old) [
    | inl fails ↦ kept faults (some old) e not_moved f (ground arith)
    | inr works ↦ activate-IsKept new old e f (ground arith)
  ]

  -- When `replaceIndexDirectory` fails, whatever the file system refuses, the folder `index` is
  -- as it was and no index stands aside; or the new folder could not be renamed to `index` nor
  -- the old one be renamed back, and then the old index stands aside.
  pub replace-IsKept :
      (old : Option Files) (e : ReplaceError) (f : Folders)
      → replace_index_directory faults generated old ≡ failed e f
      → IsKept faults old e f
  unfolding replace_index_directory
  replace-IsKept old e f h = elim (Bool-cases faults.mkdir_root) [
    | inl fails ↦ kept faults old e no_root f (ground arith)
    | inr ok₁ ↦ elim (Bool-cases faults.make_new) [
      | inl fails ↦ kept faults old e no_new_folder f (ground arith)
      | inr ok₂ ↦ elim (Written-cases (write_new faults generated (generated_paths generated) [])) [
        | inr (e', refusal) ↦ kept faults old e e' f (ground arith)
        | inl (new, done) ↦ elim (Bool-cases faults.reserve_backup) [
          | inl fails ↦ kept faults old e no_backup_path f (ground arith)
          | inr ok₃ ↦ elim (Bool-cases faults.free_backup) [
            | inl fails ↦ kept faults old e backup_path_taken f (ground arith)
            | inr ok₄ ↦ elim (Bool-cases faults.inspect_old) [
              | inl fails ↦ kept faults old e uninspected f (ground arith)
              | inr ok₅ ↦ move_aside-IsKept new old e f (ground arith)
            ]
          ]
        ]
      ]
    ]
  ]

  -- What a run that succeeds has written and put in place.
  move_aside-replaced :
      (new : Files) (old : Option Files) (f : Folders)
      → move_aside faults generated new old ≡ replaced f
      → f.index ≡ some new
  unfolding move_aside activate
  move_aside-replaced new none f h = elim (Bool-cases faults.activate_new) [
    | inl fails ↦ absurd (ground arith)
    | inr works ↦ ground arith
  ]
  move_aside-replaced new (some old) f h = elim (Bool-cases faults.move_old) [
    | inl fails ↦ absurd (ground arith)
    | inr works ↦ elim (Bool-cases faults.activate_new) [
      | inl fails ↦ absurd (ground arith)
      | inr activated ↦ ground arith
    ]
  ]

  pub replace-written :
      (old : Option Files) (f : Folders)
      → replace_index_directory faults generated old ≡ replaced f
      → (new : Files) × (f.index ≡ some new)
        × (write_new faults generated (generated_paths generated) [] ≡ written new)
  unfolding replace_index_directory
  replace-written old f h =
      elim (Written-cases (write_new faults generated (generated_paths generated) [])) [
        | inr (e', refusal) ↦ absurd (ground arith)
        | inl (new, done) ↦ (new, move_aside-replaced new old f (ground arith), done)
      ]
