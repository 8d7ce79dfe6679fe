-- ===== src/Index/Generate/Replace.antt =====
-- internal/indexer/indexer.go: `replaceIndexDirectory`, which writes the new index beside the old one
-- and renames the folders.
use git_memo.Base.{Bool, Option, none, some, List, [], ◌∷◌, if◌then◌else◌}
use git_memo.Base.Text.{Text, text, strip_prefix}
use git_memo.Base.Dict.{lookup, insert}
use git_memo.Index.Chunks.{Files}
use git_memo.Index.Generate.{generated_paths}

-- What the file system refuses.
pub record Faults : Type 0 where
  pub mkdir_root : Bool
  pub make_new : Bool
  pub mkdir_for : Text → Bool
  pub write_file : Text → Bool
  pub reserve_backup : Bool
  pub free_backup : Bool
  pub inspect_old : Bool
  pub move_old : Bool
  pub activate_new : Bool
  pub move_back : Bool
  pub remove_backup : Bool

-- The folder `index`, and the index that was moved aside, if one is; by the paths of their files. An
-- empty folder that was reserved does not count, and the folder of the new index is removed in any
-- case.
pub record Folders : Type 0 where
  pub index : Option Files
  pub backup : Option Files

pub data ReplaceError : Type 0 where
  no_root no_new_folder no_backup_path backup_path_taken uninspected not_moved not_activated :
      ReplaceError
  escapes no_parent not_written : Text → ReplaceError

-- How a run ended, and what it left.
pub data Outcome : Type 0 where
  replaced : Folders → Outcome
  failed : ReplaceError → Folders → Outcome

-- What the loop over the paths makes of the new folder.
pub data Written : Type 0 where
  written : Files → Written
  refused : ReplaceError → Written

-- `result.Files[rel]`
unfoldable pub bytes_of : Text → Files → Text
unfolding lookup
bytes_of path files = elim (lookup path files) [ none ↦ [] | some bytes ↦ bytes ]

module _ (faults : Faults) (generated : Files) where
  -- The loop over the sorted paths.
  unfoldable pub write_new : List Text → Files → Written
  unfolding strip_prefix insert bytes_of
  write_new [] new = written new
  write_new (rel ∷ paths) new = elim (strip_prefix (text "index/") rel) [
    | none ↦ refused (escapes rel)
    | some inside ↦
        let rest = write_new paths (insert inside (bytes_of rel generated) new) in
        if faults.mkdir_for inside
        then refused (no_parent rel)
        else if faults.write_file inside
        then refused (not_written rel)
        else rest
  ]

  -- The new folder becomes `index`, when the old one, if there was one, is in `backup`.
  unfoldable pub activate : Files → Folders → Outcome
  activate new f =
      if faults.activate_new
      then failed not_activated (elim f.backup [
        | none ↦ f
        | some old ↦ if faults.move_back then f else record { index = some old; backup = none }
      ])
      else replaced (record {
        index = some new;
        backup = elim f.backup [
          | none ↦ none
          | some old ↦ if faults.remove_backup then some old else none
        ];
      })

  -- The old folder is moved aside.
  unfoldable pub move_aside : Files → Option Files → Outcome
  unfolding activate
  move_aside new none = activate new (record { index = none; backup = none })
  move_aside new (some old) =
      if faults.move_old
      then failed not_moved (record { index = some old; backup = none })
      else activate new (record { index = none; backup = some old })

  -- `replaceIndexDirectory`, with the folder `index` as it was.
  unfoldable pub replace_index_directory : Option Files → Outcome
  unfolding write_new move_aside generated_paths
  replace_index_directory old =
      let before : Folders = record { index = old; backup = none } in
      if faults.mkdir_root
      then failed no_root before
      else if faults.make_new
      then failed no_new_folder before
      else elim (write_new (generated_paths generated) []) [
        | refused e ↦ failed e before
        | written new ↦
            if faults.reserve_backup
            then failed no_backup_path before
            else if faults.free_backup
            then failed backup_path_taken before
            else if faults.inspect_old
            then failed uninspected before
            else move_aside new old
      ]
