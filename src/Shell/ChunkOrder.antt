-- ===== src/Shell/ChunkOrder.antt =====
-- Replacements in the order of a patch's chunks, sorted by their start (`compute_replacements` of
-- crates/tau-ext-shell/src/tools/apply_patch.rs).
use shlop.Prelude.{ℕ, ◌+◌, ◌≤◌, ◌≡◌, ◌⊎◌, inl, inr, List, [], ◌∷◌, arith, leb, Bool-cases}
use shlop.Prelude.Text.{Str}
use shlop.Shell.Splice.{Replacement, IsOrdered}
use shlop.Shell.Chunks.{insert_sorted, sort_by_start}

-- Replacements in the order of the chunks: each starts where the one before has ended, or inserts
-- at the end of the file.
unfoldable pub InChunkOrder : ℕ → ℕ → List (Replacement Str) → Type 0
InChunkOrder at size [] = at ≤ size
InChunkOrder at size (r ∷ rs) =
    ((r.start_idx ≡ size) × (r.old_len ≡ 0) × InChunkOrder at size rs)
    ⊎ ((at ≤ r.start_idx)
        × (r.start_idx + r.old_len ≤ size)
        × InChunkOrder (r.start_idx + r.old_len) size rs)

insert_sorted-front :
    (r : Replacement Str) (at size : ℕ) (rs : List (Replacement Str))
    → at ≤ r.start_idx
    → r.start_idx + r.old_len ≤ size
    → IsOrdered (r.start_idx + r.old_len) size rs
    → IsOrdered at size (insert_sorted r rs)
unfolding insert_sorted IsOrdered
insert_sorted-front r at size [] low high h = (low, high, tt)
insert_sorted-front r at size (s ∷ ss) low high (after, inside, later) =
    elim (Bool-cases (leb r.start_idx s.start_idx)) [
      | inl le ↦ rw le (low, high, (after, inside, later))
      | inr gt ↦ absurd (ground arith)
    ]

insert_sorted-back :
    (r : Replacement Str) (size : ℕ) (rs : List (Replacement Str)) (at : ℕ)
    → r.start_idx ≡ size
    → r.old_len ≡ 0
    → at ≤ size
    → IsOrdered at size rs
    → IsOrdered at size (insert_sorted r rs)
unfolding insert_sorted IsOrdered
insert_sorted-back r size [] at start len low h = (omega arith, omega arith, tt)
insert_sorted-back r size (s ∷ ss) at start len low (after, inside, later) =
    elim (Bool-cases (leb r.start_idx s.start_idx)) [
      | inl le ↦ rw le (omega arith, omega arith, (ground arith, inside, later))
      | inr gt ↦ rw gt (
        after,
        inside,
        insert_sorted-back r size ss (s.start_idx + s.old_len) start len inside later,
      )
    ]

pub sort-IsOrdered :
    (size : ℕ) (rs : List (Replacement Str)) (at : ℕ)
    → at ≤ size
    → InChunkOrder at size rs
    → IsOrdered at size (sort_by_start rs)
unfolding sort_by_start IsOrdered InChunkOrder
sort-IsOrdered size [] at fits h = tt
sort-IsOrdered size (r ∷ rs) at fits (inl (start, len, rest)) =
    insert_sorted-back r size (sort_by_start rs) at start len fits
      (sort-IsOrdered size rs at fits rest)
sort-IsOrdered size (r ∷ rs) at fits (inr (low, high, rest)) =
    insert_sorted-front r at size (sort_by_start rs) low high
      (sort-IsOrdered size rs (r.start_idx + r.old_len) high rest)
