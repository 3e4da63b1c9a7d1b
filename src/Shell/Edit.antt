-- ===== src/Shell/Edit.antt =====
-- Exact replacements in a file (crates/tau-ext-shell/src/tools/edit.rs). A file is its bytes, and an
-- edit is what the code reads of its map; the texts of the messages are the constructors of
-- `EditError`. A replacement `(start, end, new)` is kept with its length `end - start`.
use shlop.Prelude.{
  ℕ, zero, suc, ◌+◌, ◌-◌, ◌^◌, Option, none, some, Bool, false, not, ◌&&◌, ◌||◌, List, [], ◌∷◌,
  ◌++◌, if◌then◌else◌, ltb, leb, eqb, length, take, drop, get_elem?, is_empty, ◌==◌, nat_eq,
}
use mathlib.Core.Option.{get_or}
use shlop.Prelude.Text.{Str, str_eq}
use shlop.Prelude.Lines.{newline}
use shlop.Shell.Splice.{Replacement}
use shlop.Shell.Hunks.{
  FileSystem, ReadResult, contents, not_found, unreadable, WriteResult, written,
}

-- An integer of CBOR.
pub data Integer : Type 0 where
  natural : ℕ → Integer
  below_zero : Integer

pub record Edit : Type 0 where
  pub old_text : Option Str
  pub new_text : Option Str
  pub max_matches : Option Integer
  pub start_line : Option Integer
  pub line_count : Option Integer

pub data EditError : Type 0 where
  no_edits no_old_text no_new_text empty_old_text not_positive too_large : EditError
  no_matches overlapping_edits cannot_read cannot_write : EditError

pub data Edited (A : Type 0) : Type 0 where
  edited : A → Edited A
  refused : EditError → Edited A

infix 20 ◌>>?◌
abbrev pub ◌>>?◌ : {A B : Type 0} → Edited A → (A → Edited B) → Edited B
edited a >>? f = f a
refused e >>? f = refused e

-- `parse_optional_count` and `parse_optional_line`, whose bodies are the same.
unfoldable pub parse_optional : Option Integer → ℕ → Edited ℕ
parse_optional none default = edited default
parse_optional (some below_zero) default = refused not_positive
parse_optional (some (natural n)) default =
    if ltb n 1 then refused not_positive else if ltb n (2 ^ 64) then edited n else refused too_large

unfoldable pub parse_optional_line_count : Option Integer → ℕ → ℕ → Edited ℕ
parse_optional_line_count none start_line default_end_line = edited default_end_line
parse_optional_line_count (some below_zero) start_line default_end_line = refused not_positive
parse_optional_line_count (some (natural n)) start_line default_end_line =
    if ltb n 1
    then refused not_positive
    else if ltb n (2 ^ 64) && ltb (start_line + n) (2 ^ 64)
    then edited (start_line + n)
    else refused too_large

-- The starts of the lines after byte `index`.
unfoldable pub line_starts_from : ℕ → Str → List ℕ
line_starts_from index [] = []
line_starts_from index (b ∷ bs) =
    let rest = line_starts_from (index + 1) bs in
    if eqb b newline && not (is_empty bs) then (index + 1) ∷ rest else rest

unfoldable pub line_starts : Str → List ℕ
line_starts input = 0 ∷ line_starts_from 0 input

unfoldable pub byte_offset_for_line : List ℕ → ℕ → ℕ → ℕ
byte_offset_for_line starts line eof = get_or (get_elem? starts (line - 1)) eof

-- The matches among `count` windows from byte `index` on.
unfoldable pub matches_from : Str → Str → ℕ → ℕ → List ℕ
matches_from haystack needle index zero = []
matches_from haystack needle index (suc count) =
    let rest = matches_from haystack needle (index + 1) count in
    if take (length needle) (drop index haystack) == needle then index ∷ rest else rest

unfoldable pub find_subslice_matches : Str → Str → List ℕ
find_subslice_matches haystack needle =
    matches_from haystack needle 0 (suc (length haystack) - length needle)

-- The replacements at the matches, which are counted from `start_byte`.
unfoldable pub replacements_at : ℕ → Str → Str → List ℕ → List (Replacement ℕ)
replacements_at start_byte old new [] = []
replacements_at start_byte old new (m ∷ ms) =
    record { start_idx = start_byte + m; old_len = length old; new_segment = new }
    ∷ replacements_at start_byte old new ms

-- One edit's replacements, between two lines.
unfoldable pub replacements_between : Str → Str → Str → ℕ → ℕ → ℕ → Edited (List (Replacement ℕ))
replacements_between original old new max_matches start_byte end_byte =
    if is_empty old
    then refused empty_old_text
    else edited (
        replacements_at start_byte old new (
          take max_matches
            (find_subslice_matches (take (end_byte - start_byte) (drop start_byte original)) old)))

unfoldable pub text_or : EditError → Option Str → Edited Str
text_or e none = refused e
text_or e (some t) = edited t

unfoldable pub edit_replacements : Str → Edit → Edited (List (Replacement ℕ))
edit_replacements original edit =
    let starts = line_starts original in
    let eof = length original in
    text_or no_old_text edit.old_text >>? λ old. text_or no_new_text edit.new_text >>? λ new.
    parse_optional edit.max_matches 1 >>? λ max_matches.
    parse_optional edit.start_line 1 >>? λ start_line.
    parse_optional_line_count edit.line_count start_line (length starts + 1) >>? λ end_line.
    replacements_between original old new max_matches (byte_offset_for_line starts start_line eof)
      (byte_offset_for_line starts end_line eof)

-- The loop on the edits.
unfoldable pub collect : Str → List Edit → Edited (List (Replacement ℕ))
collect original [] = edited []
collect original (e ∷ es) =
    edit_replacements original e >>? λ rs. collect original es >>? λ ss. edited (rs ++ ss)

-- `sort_by_key(|entry| Reverse(entry.0))`, which is stable.
unfoldable pub insert_descending : Replacement ℕ → List (Replacement ℕ) → List (Replacement ℕ)
insert_descending r [] = r ∷ []
insert_descending r (s ∷ ss) =
    let rest = insert_descending r ss in
    if leb s.start_idx r.start_idx then r ∷ s ∷ ss else s ∷ rest

unfoldable pub sort_descending : List (Replacement ℕ) → List (Replacement ℕ)
sort_descending [] = []
sort_descending (r ∷ rs) = insert_descending r (sort_descending rs)

-- The test on the windows of two.
unfoldable pub overlaps : List (Replacement ℕ) → Bool
overlaps [] = false
overlaps (r ∷ []) = false
overlaps (r ∷ s ∷ ss) = ltb r.start_idx (s.start_idx + s.old_len) || overlaps (s ∷ ss)

-- `result.splice(start..end, new_text)` for each replacement.
unfoldable pub splice_all : Str → List (Replacement ℕ) → Str
splice_all result [] = result
splice_all result (r ∷ rs) =
    splice_all (take r.start_idx result ++ (r.new_segment ++ drop (r.start_idx + r.old_len) result))
      rs

unfoldable pub apply_sorted : Str → List (Replacement ℕ) → Edited (Str × ℕ)
apply_sorted original rs =
    if overlaps rs then refused overlapping_edits else edited (splice_all original rs, length rs)

unfoldable pub edit_contents : Str → List Edit → Edited (Str × ℕ)
edit_contents original edits =
    if is_empty edits
    then refused no_edits
    else (collect original edits >>? λ rs.
        if is_empty rs then refused no_matches else apply_sorted original (sort_descending rs))

-- The file, written only when its contents change.
-- `read` is `fs::read`.
module _ {W : Type 0} (fs : FileSystem W) (read : W → Str → ReadResult) where
  abbrev as_result : Str × ℕ → W × WriteResult → W × Edited (Str × ℕ)
  as_result done (w, written) = (w, edited done)
  as_result done (w, r) = (w, refused cannot_write)

  abbrev write_changed : W → Str → Str → Edited (Str × ℕ) → W × Edited (Str × ℕ)
  write_changed w path original (refused e) = (w, refused e)
  write_changed w path original (edited (result, n)) =
      if result == original
      then (w, edited (result, n))
      else as_result (result, n) (fs.write_file w path result)

  unfoldable pub edit_file : W → Str → List Edit → W × Edited (Str × ℕ)
  edit_file w path edits = elim (read w path) [
    | contents original ↦ write_changed w path original (edit_contents original edits)
    | not_found ↦ (w, refused cannot_read)
    | unreadable e ↦ (w, refused cannot_read)
  ]
