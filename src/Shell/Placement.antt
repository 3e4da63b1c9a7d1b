-- ===== src/Shell/Placement.antt =====
-- Where `compute_replacements` of crates/tau-ext-shell/src/tools/apply_patch.rs puts the chunks of
-- a patch.
use shlop.Prelude.{
  ℕ, suc, ◌+◌, ◌≤◌, ◌≡◌, refl, ap, sym, subst, ◌∙◌, ◌⊎◌, inl, inr, Option, none, some, Bool, false,
  List, [], ◌∷◌, arith, if◌then◌else◌, length, is_empty, Bool-cases, Option-cases,
}
use shlop.Prelude.Text.{Str}
use shlop.Shell.Splice.{Replacement, IsOrdered, splice, apply_replacements-splice}
use shlop.Shell.Chunks.{
  UpdateChunk, PatchError, Outcome, ok, err, seek_sequence, find_lines, after_context, place_chunk,
  place_chunks, insertion_idx, placed_at, ends_empty, without_last, without_empty_last,
  sort_by_start, compute_replacements, push_replacement, derive_new_contents_from_chunks,
  original_lines, joined_contents,
}
use shlop.Shell.Seek.{seek_sequence-IsAt, some-inj, or_else-some}
use shlop.Shell.ChunkOrder.{InChunkOrder, sort-IsOrdered}

-- Insertions go to the end: the last line of the file is not empty.
insertion_at_end :
    (lines : List Str) → ends_empty lines ≡ false → insertion_idx lines ≡ length lines
unfolding insertion_idx
insertion_at_end lines h = ground arith

-- An empty pattern is found where the search starts.
seek-empty :
    (lines : List Str) (start : ℕ) (eof : Bool) → seek_sequence lines [] start eof ≡ some start
unfolding seek_sequence
seek-empty lines start eof = refl

seek-in_range :
    (lines pattern : List Str) (start i : ℕ)
    → start ≤ length lines
    → seek_sequence lines pattern start false ≡ some i
    → (start ≤ i) × (i + length pattern ≤ length lines)
seek-in_range lines [] start i fits h =
    let at_start = some-inj (sym (seek-empty lines start false) ∙ h) in
    (omega (arith, at_start), omega (arith, at_start))
seek-in_range lines (p ∷ ps) start i fits h =
    let found = seek_sequence-IsAt lines (p ∷ ps) start false i (λ e. cc) h in (found.0, found.1.0)

placed-in_range :
    (lines pattern seg : List Str) (at : ℕ) (eof : Bool) {r : Replacement Str}
    → eof ≡ false
    → at ≤ length lines
    → placed_at pattern seg (seek_sequence lines pattern at eof) ≡ some r
    → (at ≤ r.start_idx) × (r.start_idx + r.old_len ≤ length lines)
placed-in_range lines pattern seg at eof {r} middle fits h =
    elim (Option-cases (seek_sequence lines pattern at eof)) [
      | inl e ↦ absurd (let clash = sym h ∙ ap (placed_at pattern seg) e in cc)
      | inr (i, e) ↦
          (let same = some-inj (sym h ∙ ap (placed_at pattern seg) e) in
            let found =
              seek-in_range lines pattern at i fits
                (subst (λ b. seek_sequence lines pattern at b ≡ some i) middle e) in
            (
              omega (arith, found.0, ap (λ q. q.start_idx) same),
              omega (arith, found.1, ap (λ q. q.start_idx) same, ap (λ q. q.old_len) same),
            ))
    ]

find_lines-in_range :
    (lines : List Str) (c : UpdateChunk) (at : ℕ) {r : Replacement Str}
    → c.is_end_of_file ≡ false
    → at ≤ length lines
    → find_lines lines c at ≡ some r
    → (at ≤ r.start_idx) × (r.start_idx + r.old_len ≤ length lines)
unfolding find_lines
find_lines-in_range lines c at {r} middle fits h =
    let whole =
      placed_at c.old_lines c.new_lines (seek_sequence lines c.old_lines at c.is_end_of_file) in
    elim (or_else-some whole _ h) [
      | inl found ↦
          placed-in_range lines c.old_lines c.new_lines at c.is_end_of_file middle fits found
      | inr again ↦ elim (Bool-cases (ends_empty c.old_lines)) [
        | inl empty ↦
            placed-in_range lines (without_last c.old_lines) (without_empty_last c.new_lines) at
              c.is_end_of_file {r = r} middle fits
              (subst
                (λ b.
                  (if b
                    then placed_at (without_last c.old_lines) (without_empty_last c.new_lines)
                        (seek_sequence lines (without_last c.old_lines) at c.is_end_of_file)
                    else none)
                  ≡ some r)
                empty again)
        | inr not_empty ↦ absurd (ground (arith, again))
      ]
    ]

pub Outcome-cases :
    {A : Type 0} (o : Outcome A) → ((e : PatchError) × (o ≡ err e)) ⊎ ((a : A) × (o ≡ ok a))
Outcome-cases (err e) = inl (e, refl)
Outcome-cases (ok a) = inr (a, refl)

ok-inj : {A : Type 0} {x y : A} → ok x ≡ ok y → x ≡ y
ok-inj h = cc

after_context-in_range :
    (lines : List Str) (context : Option Str) (at : ℕ) {from : ℕ}
    → at ≤ length lines
    → after_context lines context at ≡ ok from
    → (at ≤ from) × (from ≤ length lines)
unfolding after_context
after_context-in_range lines none at fits h = (omega (arith, ok-inj h), omega (arith, ok-inj h))
after_context-in_range lines (some context) at {from} fits h =
    elim (Option-cases (seek_sequence lines (context ∷ []) at false)) [
      | inl e ↦ absurd (ground (arith, h, e))
      | inr (i, e) ↦
          (let found = seek-in_range lines (context ∷ []) at i fits e in
            let same : ok (suc i) ≡ ok from = ground (arith, h, e) in
            (omega (arith, found.0, ok-inj same), omega (arith, found.1, ok-inj same)))
    ]

-- No chunk of `cs` is held to the end of the file. The parser of patches never asks for that.
unfoldable pub AreFree : List UpdateChunk → Type 0
AreFree [] = Unit
AreFree (c ∷ cs) = (c.is_end_of_file ≡ false) × AreFree cs

InChunkOrder-earlier :
    (at from size : ℕ) (rs : List (Replacement Str))
    → at ≤ from
    → InChunkOrder from size rs
    → InChunkOrder at size rs
unfolding InChunkOrder
InChunkOrder-earlier at from size [] le h = omega arith
InChunkOrder-earlier at from size (r ∷ rs) le (inl (start, len, rest)) =
    inl (start, len, InChunkOrder-earlier at from size rs le rest)
InChunkOrder-earlier at from size (r ∷ rs) le (inr (low, high, rest)) =
    inr (omega arith, high, rest)

pushed :
    (r : Replacement Str) (o : Outcome (List (Replacement Str))) {rs : List (Replacement Str)}
    → push_replacement r o ≡ ok rs
    → (ss : List (Replacement Str)) × ((o ≡ ok ss) × (rs ≡ r ∷ ss))
pushed r (ok ss) h = (ss, (refl, sym (ok-inj h)))
pushed r (err e) h = cc

place_chunk-InChunkOrder :
    (lines : List Str) (next : ℕ → Outcome (List (Replacement Str))) (c : UpdateChunk) (from : ℕ)
    {rs : List (Replacement Str)}
    → ends_empty lines ≡ false
    → c.is_end_of_file ≡ false
    → from ≤ length lines
    → ((at : ℕ) (ss : List (Replacement Str))
        → at ≤ length lines
        → next at ≡ ok ss
        → InChunkOrder at (length lines) ss)
    → place_chunk lines next c from ≡ ok rs
    → InChunkOrder from (length lines) rs
unfolding place_chunk InChunkOrder
place_chunk-InChunkOrder lines next c from {rs} full middle fits later h =
    elim (Bool-cases (is_empty c.old_lines)) [
      | inl insertion ↦
          (let r : Replacement Str = record {
            start_idx = insertion_idx lines;
            old_len = 0;
            new_segment = c.new_lines;
          } in
            let rest = pushed r (next from) {rs = rs} (ground (arith, h, insertion)) in
            rw rest.1.1 (inl (insertion_at_end lines full, refl, later from rest.0 fits rest.1.0)))
      | inr search ↦ elim (Option-cases (find_lines lines c from)) [
        | inl e ↦ absurd (ground (arith, h, search, e))
        | inr (r, e) ↦
            (let range = find_lines-in_range lines c from {r = r} middle fits e in
              let rest =
                pushed r (next (r.start_idx + r.old_len)) {rs = rs}
                  (ground (arith, h, search, e)) in
              rw rest.1.1
                (inr (range.0, range.1, later (r.start_idx + r.old_len) rest.0 range.1 rest.1.0)))
      ]
    ]

place_chunks-InChunkOrder :
    (lines : List Str) (cs : List UpdateChunk) (at : ℕ) (rs : List (Replacement Str))
    → ends_empty lines ≡ false
    → AreFree cs
    → at ≤ length lines
    → place_chunks lines cs at ≡ ok rs
    → InChunkOrder at (length lines) rs
unfolding place_chunks AreFree InChunkOrder
place_chunks-InChunkOrder lines [] at rs full free fits h = rw (sym (ok-inj h)) fits
place_chunks-InChunkOrder lines (c ∷ cs) at rs full (middle, free) fits h =
    elim (Outcome-cases (after_context lines c.change_context at)) [
      | inl (e, failed) ↦ absurd (ground (arith, h, failed))
      | inr (from, found) ↦
          (let ends = after_context-in_range lines c.change_context at {from = from} fits found in
            InChunkOrder-earlier at from (length lines) rs ends.0 (
              place_chunk-InChunkOrder lines (place_chunks lines cs) c from {rs = rs} full middle
                ends.1 (λ k ss low hk. place_chunks-InChunkOrder lines cs k ss full free low hk)
                (ground (arith, h, found))))
    ]

-- In a file whose last line is not empty, and for chunks none of which is held to the end of the file,
-- the replacements that are computed lie in order inside the file and do not overlap.
pub compute_replacements-IsOrdered :
    (lines : List Str) (chunks : List UpdateChunk) (rs : List (Replacement Str))
    → ends_empty lines ≡ false
    → AreFree chunks
    → compute_replacements lines chunks ≡ ok rs
    → IsOrdered 0 (length lines) rs
unfolding compute_replacements
compute_replacements-IsOrdered lines chunks rs full free h =
    elim (Outcome-cases (place_chunks lines chunks 0)) [
      | inl (e, failed) ↦ absurd (ground (arith, h, failed))
      | inr (placed, found) ↦
          (let same : sort_by_start placed ≡ rs = ok-inj (ground (arith, h, found)) in
            rw (sym same) (
              sort-IsOrdered (length lines) placed 0 (omega arith)
                (place_chunks-InChunkOrder lines chunks 0 placed full free (omega arith) found)))
    ]

-- When the replacements for the chunks can be computed, the last line of the file is not empty and no
-- chunk is held to the end of the file, the new contents are the file's lines with the replacements
-- made in one pass from the left, without a panic.
pub derive_new_contents_from_chunks-splice :
    (contents : Str) (chunks : List UpdateChunk) (rs : List (Replacement Str))
    → ends_empty (original_lines contents) ≡ false
    → AreFree chunks
    → compute_replacements (original_lines contents) chunks ≡ ok rs
    → derive_new_contents_from_chunks contents chunks
      ≡ ok (joined_contents (splice 0 (original_lines contents) rs))
unfolding derive_new_contents_from_chunks
derive_new_contents_from_chunks-splice contents chunks rs full free h = ground (
  arith,
  h,
  apply_replacements-splice (original_lines contents) rs
      (compute_replacements-IsOrdered (original_lines contents) chunks rs full free h),
)
