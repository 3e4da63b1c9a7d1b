-- ===== src/Shell/Hunks.antt =====
-- The hunks of a patch made on the file system, one after the other (`apply_hunks` of
-- crates/tau-ext-shell/src/tools/apply_patch.rs). `std::fs` is a parameter; the texts of the messages
-- are the constructors of `Reason`.
use shlop.Prelude.{
  ℕ, zero, suc, Option, none, some, Bool, true, false, not, List, [], ◌∷◌, ◌++◌, ◌||◌,
  if◌then◌else◌, length, last?, is_empty, ◌==◌, option_eq, nat_eq,
}
use mathlib.Core.Option.{get_or}
use shlop.Prelude.Text.{Str, str_eq, text, starts_with}
use shlop.Shell.Chunks.{UpdateChunk, ok, err, PatchError, derive_new_contents_from_chunks}
use shlop.Shell.Patch.{Hunk, add_hunk, delete_hunk, update_hunk}

-- `fs::read_to_string` and `fs::write`, with the error that the code tells apart.
pub data ReadResult : Type 0 where
  contents : Str → ReadResult
  not_found : ReadResult
  unreadable : Str → ReadResult

pub data WriteResult : Type 0 where
  written parent_missing write_error : WriteResult

-- The calls of `std::fs`, on a state `W` of the file system.
pub record FileSystem (W : Type 0) : Type 0 where
  pub read_to_string : W → Str → ReadResult
  -- `fs::metadata(path)?.is_dir()`
  pub is_dir : W → Str → Option Bool
  pub write_file : W → Str → Str → W × WriteResult
  pub create_dir_all : W → Str → W × Bool
  pub remove_file : W → Str → W × Bool
  pub parent : Str → Option Str

pub data ChangeStatus : Type 0 where
  added modified deleted : ChangeStatus

pub record AppliedChange : Type 0 where
  pub display_path : Str
  pub path : Str
  pub status : ChangeStatus
  pub old_content : Str
  pub new_content : Option Str

pub data Reason : Type 0 where
  no_files_modified no_current_dir : Reason
  read_failed write_failed delete_failed update_read_failed remove_original_failed : Str → Reason
  chunks_failed : PatchError → Reason

-- `Result<Vec<AppliedChange>, ApplyPatchFailure>`
pub data Applied : Type 0 where
  applied : List AppliedChange → Applied
  failure : Reason → List AppliedChange → Applied

-- `path.is_absolute()` and `cwd.join(path)`
unfoldable pub resolve_path : Str → Str → Str
resolve_path cwd path =
    if starts_with path (text "/")
    then path
    else if is_empty cwd || (last? cwd == some 47)
    then cwd ++ path
    else cwd ++ 47 ∷ path

unfoldable pub replace_at : ℕ → AppliedChange → List AppliedChange → List AppliedChange
replace_at i c [] = []
replace_at zero c (d ∷ ds) = c ∷ ds
replace_at (suc i) c (d ∷ ds) = d ∷ replace_at i c ds

module _ {W : Type 0} (fs : FileSystem W) (cwd : Str) where
  -- `none` is an error other than that there is no such file.
  unfoldable pub read_optional_file : W → Str → Option (Option Str)
  read_optional_file w path = elim (fs.read_to_string w path) [
    | contents s ↦ some (some s)
    | not_found ↦ some none
    | unreadable e ↦ none
  ]

  -- `ensure_not_directory(path).is_ok()`
  unfoldable pub is_not_directory : W → Str → Bool
  is_not_directory w path = elim (fs.is_dir w path) [ some false ↦ true | _ ↦ false ]

  unfoldable pub create_parent : W → Str → W × Bool
  create_parent w path = elim (fs.parent path) [
    | none ↦ (w, true)
    | some dir ↦ fs.create_dir_all w dir
  ]

  abbrev pub is_written : WriteResult → Bool
  is_written written = true
  is_written r = false

  abbrev pub write_again : Str → Str → W × Bool → W × Bool
  write_again path body (w, false) = (w, false)
  write_again path body (w, true) =
      ((fs.write_file w path body).0, is_written ((fs.write_file w path body).1))

  abbrev pub retried : Str → Str → W × WriteResult → W × Bool
  retried path body (w, written) = (w, true)
  retried path body (w, parent_missing) = write_again path body (create_parent w path)
  retried path body (w, write_error) = (w, false)

  unfoldable pub write_file_with_missing_parent_retry : W → Str → Str → W × Bool
  write_file_with_missing_parent_retry w path body = retried path body (fs.write_file w path body)

  abbrev pub report : Reason → List AppliedChange → List AppliedChange → W × Bool → W × Applied
  report reason before after (w, true) = (w, applied after)
  report reason before after (w, false) = (w, failure reason before)

  abbrev pub change_of : Str → Str → ChangeStatus → Str → Str → AppliedChange
  change_of display abs kind old new = record {
    display_path = display;
    path = abs;
    status = kind;
    old_content = old;
    new_content = some new;
  }

  unfoldable pub apply_add : W → List AppliedChange → Str → Str → W × Applied
  apply_add w changes path body =
      let abs = resolve_path cwd path in
      elim (read_optional_file w abs) [
        | none ↦ (w, failure (read_failed abs) changes)
        | some old ↦
            report (write_failed abs) changes
              (changes ++ change_of path abs added (get_or old []) body ∷ [])
              (write_file_with_missing_parent_retry w abs body)
      ]

  unfoldable pub apply_delete : W → List AppliedChange → Str → W × Applied
  apply_delete w changes path =
      let abs = resolve_path cwd path in
      if not (is_not_directory w abs)
      then (w, failure (delete_failed abs) changes)
      else elim (fs.read_to_string w abs) [
        | not_found ↦ (w, failure (delete_failed abs) changes)
        | unreadable e ↦ (w, failure (delete_failed abs) changes)
        | contents old ↦
            report (delete_failed abs) changes
              (changes
                ++ record {
                  display_path = path;
                  path = abs;
                  status = deleted;
                  old_content = old;
                  new_content = none;
                }
                  ∷ [])
              (fs.remove_file w abs)
      ]

  -- The end of a move: the file is at its destination, and the original goes.
  unfoldable pub remove_original : W → List AppliedChange → ℕ → Str → AppliedChange → W × Applied
  remove_original w changes index abs change =
      if not (is_not_directory w abs)
      then (w, failure (remove_original_failed abs) changes)
      else report (remove_original_failed abs) changes (replace_at index change changes)
          (fs.remove_file w abs)

  abbrev pub after_move : List AppliedChange → Str → Str → Str → Str → Str → W × Bool → W × Applied
  after_move changes dest overwritten abs old new (w, false) =
      (w, failure (write_failed (resolve_path cwd dest)) changes)
  after_move changes dest overwritten abs old new (w, true) =
      remove_original w
        (changes ++ change_of dest (resolve_path cwd dest) added overwritten new ∷ [])
        (length changes) abs (change_of dest abs modified old new)

  unfoldable pub apply_move : W → List AppliedChange → Str → Str → Str → Str → W × Applied
  apply_move w changes abs dest old new =
      let dest_abs = resolve_path cwd dest in
      elim (read_optional_file w dest_abs) [
        | none ↦ (w, failure (read_failed dest_abs) changes)
        | some overwritten ↦
            after_move changes dest (get_or overwritten []) abs old new
              (write_file_with_missing_parent_retry w dest_abs new)
      ]

  abbrev pub as_done : W × WriteResult → W × Bool
  as_done (w, r) = (w, is_written r)

  unfoldable pub apply_rewrite : W → List AppliedChange → Str → Str → Str → Str → W × Applied
  apply_rewrite w changes path abs old new =
      report (write_failed abs) changes (changes ++ change_of path abs modified old new ∷ [])
        (as_done (fs.write_file w abs new))

  unfoldable pub apply_new : W → List AppliedChange → Str → Option Str → Str → Str → W × Applied
  apply_new w changes path none old new =
      apply_rewrite w changes path (resolve_path cwd path) old new
  apply_new w changes path (some dest) old new =
      apply_move w changes (resolve_path cwd path) dest old new

  unfoldable pub apply_update :
      W → List AppliedChange → Str → Option Str → List UpdateChunk → W × Applied
  apply_update w changes path move_path chunks =
      let abs = resolve_path cwd path in
      elim (fs.read_to_string w abs) [
        | not_found ↦ (w, failure (update_read_failed abs) changes)
        | unreadable e ↦ (w, failure (update_read_failed abs) changes)
        | contents old ↦ elim (derive_new_contents_from_chunks old chunks) [
          | err e ↦ (w, failure (chunks_failed e) changes)
          | ok new ↦ apply_new w changes path move_path old new
        ]
      ]

  unfoldable pub apply_hunk : W → List AppliedChange → Hunk → W × Applied
  apply_hunk w changes (add_hunk path body) = apply_add w changes path body
  apply_hunk w changes (delete_hunk path) = apply_delete w changes path
  apply_hunk w changes (update_hunk path move_path chunks) =
      apply_update w changes path move_path chunks

  abbrev pub and_then : W × Applied → (W → List AppliedChange → W × Applied) → W × Applied
  and_then (w, failure r changes) next = (w, failure r changes)
  and_then (w, applied changes) next = next w changes

  -- The loop of `apply_hunks`.
  unfoldable pub apply_all : List Hunk → W → List AppliedChange → W × Applied
  apply_all [] w changes = (w, applied changes)
  apply_all (h ∷ hs) w changes = and_then (apply_hunk w changes h) (apply_all hs)

-- `current_dir` is what `std::env::current_dir()` returns.
unfoldable pub apply_hunks : {W : Type 0} → FileSystem W → Option Str → List Hunk → W → W × Applied
apply_hunks fs current_dir hs w =
    if is_empty hs then (w, failure no_files_modified []) else elim current_dir [
      | none ↦ (w, failure no_current_dir [])
      | some cwd ↦ apply_all fs cwd hs w []
    ]
