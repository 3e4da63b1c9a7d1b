-- ===== src/Shell/Patch.antt =====
-- The text of a patch: `Hunk` and `parse_patch` of
-- crates/tau-ext-shell/src/tools/apply_patch.rs. A list of lines stands for `lines[index..]` without
-- the footer, so that `index + 1 < lines.len()` says that it is not empty. The texts of the messages
-- are the constructors of `ParseError`.
use shlop.Prelude.{
  ℕ, zero, suc, Option, none, some, Bool, true, false, not, ◌||◌, List, [], ◌∷◌, ◌++◌,
  if◌then◌else◌, length, drop, head?, last?, ◌==◌, option_eq, nat_eq, eqb,
}
use shlop.Prelude.Text.{Str, str_eq, text, starts_with}
use shlop.Prelude.Lines.{strip_prefix, lines, trim, join_lines, newline}
use shlop.Shell.Chunks.{UpdateChunk, without_last}

pub data Hunk : Type 0 where
  add_hunk : Str → Str → Hunk
  delete_hunk : Str → Hunk
  update_hunk : Str → Option Str → List UpdateChunk → Hunk

pub data ParseError : Type 0 where
  missing_header missing_footer empty_hunk_line no_file_operations out_of_fuel : ParseError
  invalid_add_line empty_add invalid_update_header invalid_update_line : Str → ParseError
  no_change no_chunk invalid_operation : Str → ParseError

-- A part of the patch and the lines after it.
pub data Parsed (A : Type 0) : Type 0 where
  parsed : A → List Str → Parsed A
  failed : ParseError → Parsed A

abbrev pub then_parsed : {A B : Type 0} → (A → B) → Parsed A → Parsed B
then_parsed f (parsed x rest) = parsed (f x) rest
then_parsed f (failed e) = failed e

unfoldable pub marker : Str
marker = text "*** "

-- The loop on the lines of a new file.
unfoldable pub add_contents : List Str → Parsed (List Str)
add_contents [] = parsed [] []
add_contents (l ∷ ls) =
    if starts_with l marker then parsed [] (l ∷ ls) else elim (strip_prefix l (text "+")) [
      | none ↦ failed (invalid_add_line l)
      | some content ↦ then_parsed (◌∷◌ content) (add_contents ls)
    ]

-- What the lines of a chunk add up to.
pub record Changes : Type 0 where
  pub old : List Str
  pub new : List Str
  pub saw_change : Bool
  pub at_end : Bool

abbrev pub no_changes : Changes
no_changes = record { old = []; new = []; saw_change = false; at_end = false }

abbrev pub with_context : Str → Changes → Changes
with_context l ch = record ch { old = l ∷ ch.old; new = l ∷ ch.new }

abbrev pub with_removal : Str → Changes → Changes
with_removal l ch = record ch { old = l ∷ ch.old; saw_change = true }

abbrev pub with_addition : Str → Changes → Changes
with_addition l ch = record ch { new = l ∷ ch.new; saw_change = true }

-- One line of a chunk, before those in `rest`.
unfoldable pub change_line : Str → Parsed Changes → Parsed Changes
change_line [] rest = failed empty_hunk_line
change_line (c ∷ l) rest =
    if eqb c 32
    then then_parsed (with_context l) rest
    else if eqb c 45
    then then_parsed (with_removal l) rest
    else if eqb c 43
    then then_parsed (with_addition l) rest
    else failed (invalid_update_line (c ∷ l))

-- The loop on the lines of a chunk.
unfoldable pub change_lines : List Str → Parsed Changes
change_lines [] = parsed no_changes []
change_lines (l ∷ ls) =
    if starts_with l (text "@@") || starts_with l marker
    then parsed no_changes (l ∷ ls)
    else if l == text "*** End of File"
    then parsed (record no_changes { at_end = true }) ls
    else change_line l (change_lines ls)

-- `change_context`, from the header of a chunk.
unfoldable pub chunk_context : Str → Option (Option Str)
chunk_context header =
    if header == text "@@" then some none else elim (strip_prefix header (text "@@ ")) [
      | none ↦ none
      | some context ↦ some (some context)
    ]

abbrev pub chunk_of : Option Str → Changes → UpdateChunk
chunk_of context ch = record {
  change_context = context;
  old_lines = ch.old;
  new_lines = ch.new;
  is_end_of_file = ch.at_end;
}

-- One chunk after its header; `next` reads the chunks that follow.
unfoldable pub read_chunk :
    (List Str → Parsed (List UpdateChunk)) → Str → Option Str → List Str → Parsed (List UpdateChunk)
read_chunk next path context ls = elim (change_lines ls) [
  | failed e ↦ failed e
  | parsed ch rest ↦
      if ch.saw_change
      then then_parsed (◌∷◌ (chunk_of context ch)) (next rest)
      else failed (no_change path)
]

-- The loop on the chunks of one file.
unfoldable pub read_chunks : ℕ → Str → List Str → Parsed (List UpdateChunk)
read_chunks zero path ls = failed out_of_fuel
read_chunks (suc fuel) path [] = parsed [] []
read_chunks (suc fuel) path (header ∷ ls) =
    if starts_with header marker then parsed [] (header ∷ ls) else elim (chunk_context header) [
      | none ↦ failed (invalid_update_header header)
      | some context ↦ read_chunk (read_chunks fuel path) path context ls
    ]

abbrev pub add_of : Str → Parsed (List Str) → Parsed Hunk
add_of path (failed e) = failed e
add_of path (parsed [] rest) = failed (empty_add path)
add_of path (parsed (c ∷ cs) rest) =
    parsed (add_hunk path (join_lines (c ∷ cs) ++ newline ∷ [])) rest

abbrev pub update_of : Str → Option Str → Parsed (List UpdateChunk) → Parsed Hunk
update_of path dest (failed e) = failed e
update_of path dest (parsed [] rest) = failed (no_chunk path)
update_of path dest (parsed (c ∷ cs) rest) = parsed (update_hunk path dest (c ∷ cs)) rest

unfoldable pub read_update : Str → List Str → Parsed Hunk
read_update path [] = update_of path none (read_chunks 1 path [])
read_update path (l ∷ ls) = elim (strip_prefix l (text "*** Move to: ")) [
  | none ↦ update_of path none (read_chunks (suc (suc (length ls))) path (l ∷ ls))
  | some dest ↦ update_of path (some dest) (read_chunks (suc (length ls)) path ls)
]

-- One hunk: its first line and the lines after it.
unfoldable pub read_hunk : Str → List Str → Parsed Hunk
read_hunk l ls = elim (strip_prefix l (text "*** Add File: ")) [
  | some path ↦ add_of path (add_contents ls)
  | none ↦ elim (strip_prefix l (text "*** Delete File: ")) [
    | some path ↦ parsed (delete_hunk path) ls
    | none ↦ elim (strip_prefix l (text "*** Update File: ")) [
      | some path ↦ read_update path ls
      | none ↦ failed (invalid_operation l)
    ]
  ]
]

pub data ParseResult : Type 0 where
  hunks : List Hunk → ParseResult
  rejected : ParseError → ParseResult

abbrev pub push_hunk : Hunk → ParseResult → ParseResult
push_hunk h (hunks hs) = hunks (h ∷ hs)
push_hunk h (rejected e) = rejected e

abbrev pub then_hunks : Parsed Hunk → (List Str → ParseResult) → ParseResult
then_hunks (failed e) next = rejected e
then_hunks (parsed h rest) next = push_hunk h (next rest)

-- The loop on the hunks.
unfoldable pub read_hunks : ℕ → List Str → ParseResult
read_hunks zero ls = rejected out_of_fuel
read_hunks (suc fuel) [] = hunks []
read_hunks (suc fuel) (l ∷ ls) = then_hunks (read_hunk l ls) (read_hunks fuel)

-- The test after the loop: a patch has one operation at least.
abbrev pub at_least_one : ParseResult → ParseResult
at_least_one (hunks []) = rejected no_file_operations
at_least_one (hunks (h ∷ hs)) = hunks (h ∷ hs)
at_least_one (rejected e) = rejected e

unfoldable pub parse_lines : List Str → ParseResult
parse_lines ls =
    if not (head? ls == some (text "*** Begin Patch"))
    then rejected missing_header
    else if not (last? ls == some (text "*** End Patch"))
    then rejected missing_footer
    else at_least_one (read_hunks (suc (length ls)) (without_last (drop 1 ls)))

unfoldable pub parse_patch : Str → ParseResult
parse_patch patch = parse_lines (lines (trim patch))
