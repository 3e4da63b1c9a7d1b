-- ===== src/Shell/Limits.antt =====
-- What is left of a tool's output (crates/tau-ext-shell/src/truncate.rs): parts of it, inside the
-- limits.
use shlop.Prelude.{
  ℕ, zero, suc, ◌+◌, ◌-◌, ◌≤◌, ◌<◌, ◌≡◌, refl, ap, sym, subst, ◌∙◌, ◌⊎◌, inl, inr, true, false,
  ◌&&◌, List, [], ◌∷◌, ◌++◌, reverse, append_assoc, append-nil, if◌then◌else◌, ltb, leb, eqb,
  length, arith, Bool-cases, eqb_iff, length-append,
}
use mathlib.Core.List.{reverse-cons, reverse-reverse}
use shlop.Prelude.Text.{Str}
use shlop.Prelude.Lines.{lines, join_lines, newline}
use shlop.Shell.Truncate.{
  max_output_lines, max_output_bytes, fits, is_full, keep_tail, truncate_tail, tail_notice,
  is_char_boundary, boundary_before,
}

not_full :
    (kept bytes : ℕ) (line : Str)
    → is_full kept bytes line ≡ false
    → (kept < max_output_lines) × (bytes + length line + 1 ≤ max_output_bytes)
unfolding is_full
not_full kept bytes line h = ground arith

-- The output is inside both limits, or it passes one of them.
unfoldable pub IsWithin : Str → Type 0
IsWithin input = (length (lines input) ≤ max_output_lines) × (length input ≤ max_output_bytes)

unfoldable pub IsPast : Str → Type 0
IsPast input = (max_output_lines < length (lines input)) ⊎ (max_output_bytes < length input)

within :
    (input : Str)
    → (leb (length (lines input)) max_output_lines && leb (length input) max_output_bytes) ≡ true
    → IsWithin input
unfolding IsWithin
within input short = ground arith

past :
    (input : Str)
    → (leb (length (lines input)) max_output_lines && leb (length input) max_output_bytes) ≡ false
    → IsPast input
unfolding IsPast
past input long = elim (Bool-cases (leb (length (lines input)) max_output_lines)) [
  | inl few ↦ inr (ground (arith, few))
  | inr many ↦ inl (ground (arith, many))
]

-- What one round of `truncate_head_plain` adds to the text.
abbrev piece : List Str → Str → Str
piece before line = if ltb 0 (length before) then newline ∷ line else line

-- The lines are kept until none is left, or none more fits.
unfoldable pub IsLast : List Str → List Str → Type 0
IsLast kept [] = Unit
IsLast kept (next ∷ rest) =
    (max_output_lines ≤ length kept)
    ⊎ (max_output_bytes < length (join_lines kept) + length next + 1)

-- The first lines, in the limits and as many as fit.
unfoldable pub IsHead : List Str → Str → Type 0
IsHead all content =
    (kept after : List Str) × ((kept ++ after ≡ all)
      × (content ≡ join_lines kept)
      × (length kept ≤ max_output_lines)
      × (length content ≤ max_output_bytes)
      × IsLast kept after)

-- The bytes that the loop of `truncate_tail` counts.
lines_bytes : List Str → ℕ
lines_bytes [] = 0
lines_bytes (l ∷ ls) = lines_bytes ls + (length l + 1)

length-join_lines : (ls : List Str) → length (join_lines ls) ≤ lines_bytes ls
unfolding join_lines lines_bytes
length-join_lines [] = omega arith
length-join_lines (l ∷ []) = omega arith
length-join_lines (l ∷ m ∷ ls) =
    omega (arith, length-append l (newline ∷ join_lines (m ∷ ls)), length-join_lines (m ∷ ls))

-- The last lines, in the limits.
unfoldable pub IsTail : List Str → List Str → Type 0
IsTail all kept =
    (before : List Str) × ((before ++ kept ≡ all)
      × (length kept ≤ max_output_lines)
      × (length (join_lines kept) ≤ max_output_bytes))

keep_tail-IsTail :
    (ls kept : List Str) (bytes : ℕ)
    → bytes ≡ lines_bytes kept
    → bytes ≤ max_output_bytes
    → length kept ≤ max_output_lines
    → IsTail (reverse ls ++ kept) (keep_tail kept bytes ls)
unfolding keep_tail IsTail lines_bytes
keep_tail-IsTail [] kept bytes b small few =
    ([], (refl, few, omega (arith, length-join_lines kept)))
keep_tail-IsTail (line ∷ ls) kept bytes b small few =
    elim (Bool-cases (is_full (length kept) bytes line)) [
      | inl stop ↦ rw stop (reverse (line ∷ ls), (refl, few, omega (arith, length-join_lines kept)))
      | inr go ↦ rw go (
          subst (λ all. IsTail all (keep_tail (line ∷ kept) (bytes + (length line + 1)) ls))
            (sym (append_assoc (reverse ls) (line ∷ []) kept)
              ∙ ap (λ r. r ++ kept) (sym (reverse-cons line ls)))
            (keep_tail-IsTail ls (line ∷ kept) (bytes + (length line + 1)) (omega arith)
              (omega (arith, (not_full (length kept) bytes line go).1))
              (omega (arith, (not_full (length kept) bytes line go).0))))
    ]

reverse-IsTail : (all : List Str) → IsTail all (keep_tail [] 0 (reverse all))
unfolding lines_bytes
reverse-IsTail all =
    subst (λ ls. IsTail ls (keep_tail [] 0 (reverse all)))
      (append-nil (reverse (reverse all)) ∙ reverse-reverse all)
      (keep_tail-IsTail (reverse all) [] 0 refl (omega arith) (omega arith))

-- The tail of an output is the whole of it, when neither limit is passed, and else a notice and the
-- text of its last lines, 2000 lines at most and 50 KiB at most, whatever the output.
pub truncate_tail-IsTail :
    (input : Str)
    → let t = truncate_tail input in
      ((t.was_truncated ≡ false) × (t.content ≡ input) × IsWithin input)
      ⊎ ((t.was_truncated ≡ true)
          × IsPast input
          × ((kept : List Str) × (IsTail (lines input) kept
                × (t.content
                    ≡ tail_notice
                        (length (lines input) - length kept + 1)
                        (length (lines input))
                        (length input)
                      ++ join_lines kept))))
unfolding truncate_tail fits IsWithin IsPast
truncate_tail-IsTail input =
    elim (Bool-cases
      (leb (length (lines input)) max_output_lines && leb (length input) max_output_bytes)) [
        | inl short ↦ rw short (inl (refl, refl, within input short))
        | inr long ↦ rw long (
            inr (
              refl,
              past input long,
              (keep_tail [] 0 (reverse (lines input)), (reverse-IsTail (lines input), refl)),
            ))
      ]

first_boundary : (line : Str) → is_char_boundary line 0 ≡ true
unfolding is_char_boundary
first_boundary line = ground arith

-- The cut of a long line is at a boundary of a character, not past the limit, and passes over no
-- boundary before the limit.
pub boundary_before-largest :
    (line : Str) (limit : ℕ)
    → (boundary_before line limit ≤ limit)
      × (is_char_boundary line (boundary_before line limit) ≡ true)
      × ((i : ℕ) → i ≤ limit → is_char_boundary line i ≡ true → i ≤ boundary_before line limit)
unfolding boundary_before
boundary_before-largest line zero = (omega arith, first_boundary line, λ i le _. le)
boundary_before-largest line (suc limit) =
    let (low, boundary, largest) = boundary_before-largest line limit in
    elim (Bool-cases (is_char_boundary line (suc limit))) [
      | inl here ↦ rw (here, here) (omega arith, refl, λ i le _. le)
      | inr not_here ↦ rw not_here (
        omega arith,
        boundary,
        λ i le hit. elim (Bool-cases (eqb i (suc limit))) [
          | inl same ↦
              absurd (ground (arith, ap (is_char_boundary line) ((eqb_iff i (suc limit)).0 same)))
          | inr less ↦ largest i (ground arith) hit
        ],
      )
    ]
