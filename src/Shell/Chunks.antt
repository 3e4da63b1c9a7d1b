-- ===== src/Shell/Chunks.antt =====
-- Where the chunks of a patch belong in a file: `UpdateChunk`, `seek_sequence`,
-- `compute_replacements` and `derive_new_contents_from_chunks` of
-- crates/tau-ext-shell/src/tools/apply_patch.rs. The texts of the messages are the constructors of
-- `PatchError`.
use shlop.Prelude.{
  ℕ, zero, suc, ◌+◌, ◌-◌, Option, none, some, Bool, true, false, ◌&&◌, List, [], ◌∷◌, ◌++◌,
  if◌then◌else◌, ltb, leb, length, drop, last?, is_empty, ◌==◌,
}
use shlop.Prelude.Text.{Str, str_eq}
use shlop.Prelude.Lines.{split_newline, join_lines, trim, trim_end}
use shlop.Shell.Splice.{Replacement, apply_replacements}

pub record UpdateChunk : Type 0 where
  pub change_context : Option Str
  pub old_lines : List Str
  pub new_lines : List Str
  pub is_end_of_file : Bool

-- The failures of `compute_replacements`, and a panic of `apply_replacements`.
pub data PatchError : Type 0 where
  context_not_found : Str → PatchError
  lines_not_found : List Str → PatchError
  panicked : PatchError

pub data Outcome (A : Type 0) : Type 0 where
  ok : A → Outcome A
  err : PatchError → Outcome A

-- The first number that passes among `count` of them from `i` on.
unfoldable pub find_from : (ℕ → Bool) → ℕ → ℕ → Option ℕ
find_from p i zero = none
find_from p i (suc count) = if p i then some i else find_from p (suc i) count

-- The lines start with the pattern, when both are seen through `view`.
unfoldable pub matches_by : (Str → Str) → List Str → List Str → Bool
matches_by view ls [] = true
matches_by view [] (p ∷ ps) = false
matches_by view (l ∷ ls) (p ∷ ps) = (view l == view p) && matches_by view ls ps

-- The three passes of `seek_sequence`: exact, without trailing white space, without white space.
unfoldable pub seek_by : (Str → Str) → List Str → List Str → ℕ → Option ℕ
seek_by view lines pattern search_start =
    find_from (λ i. matches_by view (drop i lines) pattern) search_start
      (suc (length lines - length pattern) - search_start)

abbrev pub or_else {ℓ} : {A : Type ℓ} → Option A → Option A → Option A
or_else none b = b
or_else (some a) b = some a

unfoldable pub seek_sequence : List Str → List Str → ℕ → Bool → Option ℕ
seek_sequence lines pattern start eof =
    if is_empty pattern
    then some start
    else if ltb (length lines) (length pattern)
    then none
    else (let search_start = if eof then length lines - length pattern else start in
        or_else (seek_by (λ l. l) lines pattern search_start) (
          or_else (seek_by trim_end lines pattern search_start)
            (seek_by trim lines pattern search_start)))

-- `lines.last().is_some_and(String::is_empty)`
unfoldable pub ends_empty : List Str → Bool
ends_empty ls = elim (last? ls) [ none ↦ false | some l ↦ is_empty l ]

-- `&lines[..lines.len() - 1]`, `lines.pop()`
unfoldable pub without_last : List Str → List Str
without_last [] = []
without_last (l ∷ []) = []
without_last (l ∷ m ∷ ls) = l ∷ without_last (m ∷ ls)

abbrev pub without_empty_last : List Str → List Str
without_empty_last ls = if ends_empty ls then without_last ls else ls

abbrev pub placed_at : List Str → List Str → Option ℕ → Option (Replacement Str)
placed_at pattern segment none = none
placed_at pattern segment (some i) =
    some (record { start_idx = i; old_len = length pattern; new_segment = segment })

-- The search for the lines that a chunk replaces, again without an empty last line.
unfoldable pub find_lines : List Str → UpdateChunk → ℕ → Option (Replacement Str)
find_lines lines c at =
    or_else
      (placed_at c.old_lines c.new_lines (seek_sequence lines c.old_lines at c.is_end_of_file))
      (if ends_empty c.old_lines
        then placed_at (without_last c.old_lines) (without_empty_last c.new_lines)
            (seek_sequence lines (without_last c.old_lines) at c.is_end_of_file)
        else none)

-- Where a chunk that replaces no line inserts its lines.
unfoldable pub insertion_idx : List Str → ℕ
insertion_idx lines = if ends_empty lines then length lines - 1 else length lines

unfoldable pub after_context : List Str → Option Str → ℕ → Outcome ℕ
after_context lines none at = ok at
after_context lines (some context) at = elim (seek_sequence lines (context ∷ []) at false) [
  | none ↦ err (context_not_found context)
  | some idx ↦ ok (suc idx)
]

abbrev pub push_replacement :
    Replacement Str → Outcome (List (Replacement Str)) → Outcome (List (Replacement Str))
push_replacement r (ok rs) = ok (r ∷ rs)
push_replacement r (err e) = err e

-- One chunk, from line `at` on; `next` goes on with the chunks that follow.
unfoldable pub place_chunk :
    List Str
    → (ℕ → Outcome (List (Replacement Str)))
    → UpdateChunk
    → ℕ
    → Outcome (List (Replacement Str))
place_chunk lines next c at =
    if is_empty c.old_lines
    then push_replacement
        (record { start_idx = insertion_idx lines; old_len = 0; new_segment = c.new_lines })
        (next at)
    else elim (find_lines lines c at) [
      | none ↦ err (lines_not_found c.old_lines)
      | some r ↦ push_replacement r (next (r.start_idx + r.old_len))
    ]

-- The loop of `compute_replacements`, whose `line_index` is `at`.
unfoldable pub place_chunks : List Str → List UpdateChunk → ℕ → Outcome (List (Replacement Str))
place_chunks lines [] at = ok []
place_chunks lines (c ∷ cs) at = elim (after_context lines c.change_context at) [
  | err e ↦ err e
  | ok from ↦ place_chunk lines (place_chunks lines cs) c from
]

-- `sort_by_key` is stable.
unfoldable pub insert_sorted : Replacement Str → List (Replacement Str) → List (Replacement Str)
insert_sorted r [] = r ∷ []
insert_sorted r (s ∷ ss) =
    let rest = insert_sorted r ss in if leb r.start_idx s.start_idx then r ∷ s ∷ ss else s ∷ rest

unfoldable pub sort_by_start : List (Replacement Str) → List (Replacement Str)
sort_by_start [] = []
sort_by_start (r ∷ rs) = insert_sorted r (sort_by_start rs)

unfoldable pub compute_replacements : List Str → List UpdateChunk → Outcome (List (Replacement Str))
compute_replacements lines chunks = elim (place_chunks lines chunks 0) [
  | err e ↦ err e
  | ok rs ↦ ok (sort_by_start rs)
]

-- The lines of the file: the text after a last new line is none.
unfoldable pub original_lines : Str → List Str
original_lines contents = without_empty_last (split_newline contents)

-- The text of the new lines ends with a new line.
unfoldable pub joined_contents : List Str → Str
joined_contents lines = join_lines (if ends_empty lines then lines else lines ++ [] ∷ [])

unfoldable pub derive_new_contents_from_chunks : Str → List UpdateChunk → Outcome Str
derive_new_contents_from_chunks contents chunks =
    let lines = original_lines contents in
    elim (compute_replacements lines chunks) [
      | err e ↦ err e
      | ok rs ↦ elim (apply_replacements lines rs) [
        | none ↦ err panicked
        | some new_lines ↦ ok (joined_contents new_lines)
      ]
    ]
