-- ===== src/Shell/Truncate.antt =====
-- The output of a tool cut to a size (crates/tau-ext-shell/src/truncate.rs).
use shlop.Prelude.{
  ℕ, zero, suc, ◌+◌, ◌-◌, ◌*◌, none, some, Bool, true, false, not, ◌&&◌, ◌||◌, List, [], ◌∷◌, ◌++◌,
  reverse, if◌then◌else◌, ltb, leb, eqb, length, take, get_elem?,
}
use shlop.Prelude.Text.{Str, text}
use shlop.Bus.Connection.{digits}
use shlop.Prelude.Lines.{lines, join_lines, newline}

-- `MAX_OUTPUT_LINES` and `MAX_OUTPUT_BYTES`
abbrev pub max_output_lines : ℕ
max_output_lines = 2000

abbrev pub max_output_bytes : ℕ
max_output_bytes = 50 * 1024

pub record Truncated : Type 0 where
  pub content : Str
  pub was_truncated : Bool
  pub total_lines : ℕ
  pub total_bytes : ℕ

-- Neither limit is passed.
unfoldable pub fits : Str → Bool
fits input = leb (length (lines input)) max_output_lines && leb (length input) max_output_bytes

abbrev pub whole : Str → Truncated
whole input = record {
  content = input;
  was_truncated = false;
  total_lines = length (lines input);
  total_bytes = length input;
}

abbrev pub cut_to : Str → Str → Truncated
cut_to content input = record {
  content = content;
  was_truncated = true;
  total_lines = length (lines input);
  total_bytes = length input;
}

-- The test that ends both loops.
unfoldable pub is_full : ℕ → ℕ → Str → Bool
is_full kept bytes line =
    leb max_output_lines kept || ltb max_output_bytes (bytes + length line + 1)

-- The loop of `truncate_head_plain` from line `line_idx` on.
unfoldable pub keep_head : Str → ℕ → ℕ → ℕ → List Str → Str
keep_head result bytes kept_lines line_idx [] = result
keep_head result bytes kept_lines line_idx (line ∷ ls) =
    let started = ltb 0 line_idx in
    let rest =
      keep_head (result ++ (if started then newline ∷ line else line))
        (bytes + (if started then 1 else 0) + length line) (line_idx + 1) (line_idx + 1) ls in
    if is_full kept_lines bytes line then result else rest

unfoldable pub truncate_head_plain : Str → Truncated
truncate_head_plain input =
    if fits input then whole input else cut_to (keep_head [] 0 0 0 (lines input)) input

-- `{n}` in a format string.
abbrev pub show_number : ℕ → Str
show_number n = digits (suc n) n []

-- The notice of `truncate_head_with_notice`.
unfoldable pub head_notice : ℕ → ℕ → ℕ → Str → Str
head_notice kept_lines total_lines total_bytes continuation_hint =
    newline ∷ newline ∷ text "[Showing lines 1-"
    ++ show_number kept_lines
    ++ text " of "
    ++ show_number total_lines
    ++ text " ("
    ++ show_number total_bytes
    ++ text " bytes total). "
    ++ continuation_hint
    ++ text "]"

unfoldable pub truncate_head_with_notice : Str → Str → Truncated
truncate_head_with_notice input continuation_hint =
    let truncated = truncate_head_plain input in
    if not truncated.was_truncated then truncated else (record truncated {
      content =
          truncated.content
          ++ head_notice (length (lines truncated.content)) truncated.total_lines
              truncated.total_bytes continuation_hint;
    })

unfoldable pub truncate_head : Str → Truncated
truncate_head input =
    truncate_head_with_notice input (text "Use start_line and line_count to continue reading.")

-- The loop of `truncate_tail`, from the last line backwards. What is pushed goes to the front, so
-- that the list needs no `reverse` at the end.
unfoldable pub keep_tail : List Str → ℕ → List Str → List Str
keep_tail kept bytes [] = kept
keep_tail kept bytes (line ∷ ls) =
    let rest = keep_tail (line ∷ kept) (bytes + (length line + 1)) ls in
    if is_full (length kept) bytes line then kept else rest

-- The notice of `truncate_tail`.
unfoldable pub tail_notice : ℕ → ℕ → ℕ → Str
tail_notice first_kept total_lines total_bytes =
    text "[Showing lines "
    ++ show_number first_kept
    ++ text "-"
    ++ show_number total_lines
    ++ text " of "
    ++ show_number total_lines
    ++ text " ("
    ++ show_number total_bytes
    ++ text " bytes total)]"
    ++ newline ∷ newline ∷ []

unfoldable pub truncate_tail : Str → Truncated
truncate_tail input =
    let all_lines = lines input in
    let kept = keep_tail [] 0 (reverse all_lines) in
    if fits input
    then whole input
    else cut_to
        (tail_notice (length all_lines - length kept + 1) (length all_lines) (length input)
          ++ join_lines kept)
        input

-- `line.is_char_boundary(i)`
unfoldable pub is_char_boundary : Str → ℕ → Bool
is_char_boundary line i =
    if eqb i 0 || eqb i (length line)
    then true
    else elim (get_elem? line i) [ none ↦ false | some b ↦ not (leb 128 b && ltb b 192) ]

-- The loop of `truncate_line`.
unfoldable pub boundary_before : Str → ℕ → ℕ
boundary_before line zero = zero
boundary_before line (suc end) =
    let earlier = boundary_before line end in
    if is_char_boundary line (suc end) then suc end else earlier

unfoldable pub truncate_line : Str → ℕ → Str
truncate_line line limit =
    if leb (length line) limit
    then line
    else take (boundary_before line limit) line ++ text "... [truncated]"
