-- ===== src/Shell/Examples.antt =====
-- Runs of the patch and truncation functions at concrete inputs, and the witnesses.
use shlop.Prelude.{
  ℕ, ◌≡◌, ◌≢◌, ◌≤◌, refl, Option, none, some, true, false, length, drop, arith, List, [], ◌∷◌, ◌++◌,
}
use shlop.Prelude.Text.{Str, text, starts_with}
use shlop.Prelude.Lines.{
  newline, trim, split_newline, prepend, trim_end, strip_all, strip_any, join_lines, strip_prefix,
  trim_start, white_spaces,
}
use shlop.Shell.Edit.{
  Edit, natural, edited, edit_contents, collect, edit_replacements, text_or, parse_optional,
  parse_optional_line_count, replacements_between, replacements_at, find_subslice_matches,
  matches_from, line_starts, line_starts_from, byte_offset_for_line, insert_descending,
  sort_descending, overlaps, splice_all, apply_sorted,
}
use shlop.Shell.Edits.{IsEdit, edit_contents-IsEdit}
use shlop.Shell.Seek.{first_line, IsAt, seek_sequence-IsAt, seek_sequence_complete}
use shlop.Shell.Placement.{
  AreFree, compute_replacements-IsOrdered, derive_new_contents_from_chunks-splice,
}
use shlop.Shell.Patch.{Hunk, add_hunk, delete_hunk, parse_patch}
use shlop.Shell.Parsing.{IsParsed, parse_patch-IsParsed}
use shlop.Shell.Hunks.{
  ReadResult, contents, not_found, written, FileSystem, apply_hunks, apply_all, apply_hunk,
  apply_add, apply_delete, read_optional_file, is_not_directory,
  write_file_with_missing_parent_retry, applied, AppliedChange, added, deleted, resolve_path,
}
use shlop.Shell.Applied.{Reports, apply_hunks-Reports}
use shlop.Shell.Effect.{Files, put, erase, effects, moved_to, Disk, apply_hunks-effects}
use shlop.Shell.Splice.{
  Replacement, splice, IsOrdered, apply_replacements, insert_at, insert_lines, remove_at,
  remove_lines,
}
use shlop.Shell.Chunks.{
  UpdateChunk, ok, derive_new_contents_from_chunks, compute_replacements, place_chunks,
  after_context, seek_sequence, original_lines, ends_empty, without_last, seek_by, find_from,
  matches_by, place_chunk, find_lines, insert_sorted, insertion_idx, joined_contents, sort_by_start,
}

cons_not_nil : {A : Type 0} {x : A} {xs : List A} → x ∷ xs ≢ []
cons_not_nil h = cc

abbrev line : Str → Str
line s = s ++ newline ∷ []

-- A file of the lines a, b and c.
abbrev three_lines : Str
three_lines = line (text "a") ++ line (text "b") ++ line (text "c")

abbrev edit_b : UpdateChunk
edit_b = record {
  change_context = some (text "a");
  old_lines = text "b " ∷ [];
  new_lines = text "x" ∷ text "y" ∷ [];
  is_end_of_file = false;
}

edited_b :
    derive_new_contents_from_chunks three_lines (edit_b ∷ [])
    ≡ ok (line (text "a") ++ line (text "x") ++ line (text "y") ++ line (text "c"))
unfolding derive_new_contents_from_chunks compute_replacements place_chunks after_context
    seek_sequence original_lines ends_empty split_newline prepend without_last seek_by find_from
    matches_by place_chunk find_lines trim_end strip_all strip_any join_lines strip_prefix trim
    trim_start white_spaces insert_sorted insertion_idx joined_contents sort_by_start
    apply_replacements insert_at insert_lines remove_at remove_lines
edited_b = refl

abbrev edit_b_at : Replacement Str
edit_b_at = record { start_idx = 1; old_len = 1; new_segment = text "x" ∷ text "y" ∷ [] }

edit_b-computed :
    compute_replacements (original_lines three_lines) (edit_b ∷ []) ≡ ok (edit_b_at ∷ [])
unfolding compute_replacements place_chunks after_context seek_sequence original_lines ends_empty
    split_newline prepend without_last seek_by find_from matches_by place_chunk find_lines trim_end
    strip_all strip_any strip_prefix trim trim_start white_spaces insert_sorted insertion_idx
    sort_by_start
edit_b-computed = refl

edit_b-full : ends_empty (original_lines three_lines) ≡ false
unfolding original_lines ends_empty split_newline prepend without_last
edit_b-full = refl

edit_b-AreFree : AreFree (edit_b ∷ [])
unfolding AreFree
edit_b-AreFree = (refl, tt)

compute_replacements-IsOrdered_example :
    IsOrdered 0 (length (original_lines three_lines)) (edit_b_at ∷ [])
compute_replacements-IsOrdered_example =
    compute_replacements-IsOrdered (original_lines three_lines) (edit_b ∷ []) (edit_b_at ∷ [])
      edit_b-full edit_b-AreFree edit_b-computed

derive_new_contents_from_chunks-splice_example :
    derive_new_contents_from_chunks three_lines (edit_b ∷ [])
    ≡ ok (joined_contents (splice 0 (original_lines three_lines) (edit_b_at ∷ [])))
derive_new_contents_from_chunks-splice_example =
    derive_new_contents_from_chunks-splice three_lines (edit_b ∷ []) (edit_b_at ∷ []) edit_b-full
      edit_b-AreFree edit_b-computed

-- The line b, but for the space after it.
abbrev b_line : List Str
b_line = text "b " ∷ []

abbrev abc : List Str
abc = text "a" ∷ text "b" ∷ text "c" ∷ []

b_line-found : seek_sequence abc b_line 0 false ≡ some 1
unfolding seek_sequence seek_by find_from matches_by trim_end strip_all strip_any strip_prefix trim
    trim_start white_spaces
b_line-found = refl

b_line-IsAt : IsAt abc b_line 1
unfolding matches_by trim trim_end strip_all strip_any strip_prefix trim_start white_spaces
b_line-IsAt = (omega arith, refl)

seek_sequence-IsAt_example : (first_line abc b_line 0 false ≤ 1) × IsAt abc b_line 1
seek_sequence-IsAt_example = seek_sequence-IsAt abc b_line 0 false 1 cons_not_nil b_line-found

seek_sequence_complete_instance :
    (k : ℕ) × ((seek_sequence abc b_line 0 false ≡ some k)
      × (matches_by (λ l. l) (drop 1 abc) b_line ≡ true
          → (k ≤ 1) × (matches_by (λ l. l) (drop k abc) b_line ≡ true)))
seek_sequence_complete_instance =
    seek_sequence_complete abc b_line 0 false 1 cons_not_nil (omega arith) b_line-IsAt

-- A patch that adds a file and changes one.
abbrev small_patch : Str
small_patch =
    line (text "*** Begin Patch")
    ++ line (text "*** Add File: n")
    ++ line (text "+hi")
    ++ line (text "*** Update File: f")
    ++ line (text "@@ a")
    ++ line (text "-b ")
    ++ line (text "+x")
    ++ line (text "+y")
    ++ text "*** End Patch"

parse_patch-IsParsed_example : IsParsed (parse_patch small_patch)
parse_patch-IsParsed_example = parse_patch-IsParsed small_patch

-- A file system on which every call succeeds: a function from paths to contents.
abbrev read_of : Option Str → ReadResult
read_of none = not_found
read_of (some s) = contents s

abbrev plain_files : FileSystem Files
plain_files = record {
  read_to_string = λ files p. read_of (files p);
  is_dir = λ files p. some false;
  write_file = λ files p s. (put p s files, written);
  create_dir_all = λ files p. (files, true);
  remove_file = λ files p. (erase p files, true);
  parent = λ p. none;
}

read_of-contents : (o : Option Str) (s : Str) → read_of o ≡ contents s → o ≡ some s
read_of-contents none s h = cc
read_of-contents (some t) s h = cc

plain_disk : Disk plain_files
plain_disk = record {
  files = λ files. files;
  reads = λ files p s h. read_of-contents (files p) s h;
  writes = λ files p s h. refl;
  misses = λ files p s h. cc;
  creates = λ files p. refl;
  removes = λ files p h. refl;
}

abbrev one_file : Files
one_file = put (text "/f") three_lines (λ p. none)

abbrev two_hunks : List Hunk
two_hunks = add_hunk (text "n") (line (text "hi")) ∷ delete_hunk (text "f") ∷ []

abbrev root : Str
root = text "/"

abbrev files_after : Files
files_after = erase (text "/f") (put (text "/n") (line (text "hi")) one_file)

abbrev two_changes : List AppliedChange
two_changes =
    record {
      display_path = text "n";
      path = text "/n";
      status = added;
      old_content = [];
      new_content = some (line (text "hi"));
    }
    ∷ record {
      display_path = text "f";
      path = text "/f";
      status = deleted;
      old_content = three_lines;
      new_content = none;
    }
    ∷ []

two_hunks-applied :
    apply_hunks plain_files (some root) two_hunks one_file ≡ (files_after, applied two_changes)
unfolding apply_hunks apply_all apply_hunk apply_add apply_delete read_optional_file
    is_not_directory write_file_with_missing_parent_retry resolve_path starts_with
two_hunks-applied = refl

apply_hunks-effects_example :
    plain_disk.files files_after ≡ effects root two_hunks (plain_disk.files one_file)
apply_hunks-effects_example =
    apply_hunks-effects plain_files plain_disk root two_hunks one_file files_after two_changes
      two_hunks-applied

root_known : some root ≢ none
root_known h = cc

apply_hunks-Reports_example :
    Reports [] two_hunks ((apply_hunks plain_files (some root) two_hunks one_file).1)
apply_hunks-Reports_example =
    apply_hunks-Reports plain_files (some root) two_hunks one_file refl root_known

-- Two chunks on a file that ends with an empty line: the second one's line is lost.
abbrev replace_all : UpdateChunk
replace_all = record {
  change_context = none;
  old_lines = text "a" ∷ [] ∷ [];
  new_lines = text "x" ∷ [];
  is_end_of_file = false;
}

abbrev insert_y : UpdateChunk
insert_y = record {
  change_context = none;
  old_lines = [];
  new_lines = text "y" ∷ [];
  is_end_of_file = false;
}

inserted_line_is_lost :
    derive_new_contents_from_chunks (line (text "a") ++ line []) (replace_all ∷ insert_y ∷ [])
    ≡ ok (line (text "x"))
unfolding derive_new_contents_from_chunks compute_replacements place_chunks after_context
    seek_sequence original_lines ends_empty split_newline prepend without_last seek_by find_from
    matches_by place_chunk find_lines trim_end strip_all strip_any join_lines strip_prefix trim
    trim_start white_spaces insert_sorted insertion_idx joined_contents sort_by_start
    apply_replacements insert_at insert_lines remove_at remove_lines
inserted_line_is_lost = refl

-- A move of a file to its own path removes it.
moved_to_itself : moved_to root (text "f") (some (text "f")) three_lines one_file (text "/f") ≡ none
unfolding moved_to resolve_path starts_with
moved_to_itself = refl

-- Two edits of a file: the second match of a, and b.
abbrev two_edits : List Edit
two_edits =
    record {
      old_text = some (text "a");
      new_text = some (text "xy");
      max_matches = none;
      start_line = some (natural 2);
      line_count = none;
    }
    ∷ record {
      old_text = some (text "b");
      new_text = some [];
      max_matches = none;
      start_line = none;
      line_count = some (natural 1);
    }
    ∷ []

two_edits-edited :
    edit_contents (line (text "ab") ++ text "a") two_edits
    ≡ edited (line (text "a") ++ text "xy", 2)
unfolding edit_contents collect edit_replacements text_or parse_optional parse_optional_line_count
    replacements_between replacements_at find_subslice_matches matches_from line_starts
    line_starts_from byte_offset_for_line insert_descending sort_descending overlaps splice_all
    apply_sorted
two_edits-edited = refl

edit_contents-IsEdit_example :
    IsEdit (line (text "ab") ++ text "a") two_edits (line (text "a") ++ text "xy", 2)
edit_contents-IsEdit_example =
    edit_contents-IsEdit (line (text "ab") ++ text "a") two_edits (line (text "a") ++ text "xy", 2)
      two_edits-edited
