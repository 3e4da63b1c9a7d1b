-- ===== src/Prelude/Lines.antt =====
-- Text by lines, as Rust's `str` and slices do it: `split('\n')`, `lines`, `join("\n")`,
-- `strip_prefix` and `trim`. Text is the list of its UTF-8 bytes.
use shlop.Prelude.Tests.{if◌then◌else◌, eqb}
use shlop.Prelude.Lists.{length}
use shlop.Prelude.Text.{Str}
use Prim.Native.Nat.{ℕ, zero, suc}
use mathlib.Core.Option.{Option, none, some}
use mathlib.Core.List.{List, [], ◌∷◌, ◌++◌, reverse}

-- The byte of a new line and that of a carriage return.
abbrev pub newline : ℕ
newline = 10

abbrev pub carriage_return : ℕ
carriage_return = 13

-- A byte put in front of the first part.
unfoldable pub prepend : ℕ → List Str → List Str
prepend c [] = (c ∷ []) ∷ []
prepend c (l ∷ ls) = (c ∷ l) ∷ ls

-- `s.split('\n')`: one part more than there are new lines.
unfoldable pub split_newline : Str → List Str
split_newline [] = [] ∷ []
split_newline (c ∷ s) =
    let rest = split_newline s in if eqb c newline then [] ∷ rest else prepend c rest

-- The parts without a last empty one.
unfoldable pub drop_last_empty : List Str → List Str
drop_last_empty [] = []
drop_last_empty ([] ∷ []) = []
drop_last_empty ((c ∷ l) ∷ []) = (c ∷ l) ∷ []
drop_last_empty (l ∷ m ∷ ls) = l ∷ drop_last_empty (m ∷ ls)

-- A line without the carriage return that a new line followed.
unfoldable pub strip_cr : Str → Str
strip_cr [] = []
strip_cr (c ∷ []) = if eqb c carriage_return then [] else c ∷ []
strip_cr (c ∷ d ∷ s) = c ∷ strip_cr (d ∷ s)

-- The last part ends at the end of the text, not at a new line, and keeps its carriage return.
unfoldable pub strip_line_ends : List Str → List Str
strip_line_ends [] = []
strip_line_ends (l ∷ []) = l ∷ []
strip_line_ends (l ∷ m ∷ ls) = strip_cr l ∷ strip_line_ends (m ∷ ls)

-- `s.lines()`
unfoldable pub lines : Str → List Str
lines s = drop_last_empty (strip_line_ends (split_newline s))

-- `parts.join("\n")`
unfoldable pub join_lines : List Str → Str
join_lines [] = []
join_lines (l ∷ []) = l
join_lines (l ∷ m ∷ ls) = l ++ newline ∷ join_lines (m ∷ ls)

-- `s.strip_prefix(p)`
unfoldable pub strip_prefix : Str → Str → Option Str
strip_prefix s [] = some s
strip_prefix [] (p ∷ ps) = none
strip_prefix (c ∷ s) (p ∷ ps) = if eqb c p then strip_prefix s ps else none

-- The encodings of the characters that `char::is_whitespace` accepts.
unfoldable pub white_spaces : List Str
white_spaces =
    (9 ∷ [])
    ∷ (10 ∷ [])
    ∷ (11 ∷ [])
    ∷ (12 ∷ [])
    ∷ (13 ∷ [])
    ∷ (32 ∷ [])
    ∷ (194 ∷ 133 ∷ [])
    ∷ (194 ∷ 160 ∷ [])
    ∷ (225 ∷ 154 ∷ 128 ∷ [])
    ∷ (226 ∷ 128 ∷ 128 ∷ [])
    ∷ (226 ∷ 128 ∷ 129 ∷ [])
    ∷ (226 ∷ 128 ∷ 130 ∷ [])
    ∷ (226 ∷ 128 ∷ 131 ∷ [])
    ∷ (226 ∷ 128 ∷ 132 ∷ [])
    ∷ (226 ∷ 128 ∷ 133 ∷ [])
    ∷ (226 ∷ 128 ∷ 134 ∷ [])
    ∷ (226 ∷ 128 ∷ 135 ∷ [])
    ∷ (226 ∷ 128 ∷ 136 ∷ [])
    ∷ (226 ∷ 128 ∷ 137 ∷ [])
    ∷ (226 ∷ 128 ∷ 138 ∷ [])
    ∷ (226 ∷ 128 ∷ 168 ∷ [])
    ∷ (226 ∷ 128 ∷ 169 ∷ [])
    ∷ (226 ∷ 128 ∷ 175 ∷ [])
    ∷ (226 ∷ 129 ∷ 159 ∷ [])
    ∷ (227 ∷ 128 ∷ 128 ∷ [])
    ∷ []

-- What follows the first of the prefixes that the text starts with.
unfoldable pub strip_any : List Str → Str → Option Str
strip_any [] s = none
strip_any (p ∷ ps) s = elim (strip_prefix s p) [ none ↦ strip_any ps s | some rest ↦ some rest ]

-- The text without the given characters at its start; each round takes off a byte at least.
unfoldable pub strip_all : ℕ → List Str → Str → Str
strip_all zero ps s = s
strip_all (suc fuel) ps s = elim (strip_any ps s) [ none ↦ s | some rest ↦ strip_all fuel ps rest ]

abbrev reverse_each : List Str → List Str
reverse_each [] = []
reverse_each (p ∷ ps) = reverse p ∷ reverse_each ps

-- `s.trim_start()`
unfoldable pub trim_start : Str → Str
trim_start s = strip_all (length s) white_spaces s

-- `s.trim_end()`, from the end backwards.
unfoldable pub trim_end : Str → Str
trim_end s = reverse (strip_all (length s) (reverse_each white_spaces) (reverse s))

-- `s.trim()`
unfoldable pub trim : Str → Str
trim s = trim_start (trim_end s)
