-- ===== src/Terminal/Preview.antt =====
-- A completion menu previews its candidates and gives the input line back
-- (crates/tau-cli-term-raw/src/lib.rs).
use native.Mathlib.Nat.{mod-lt}
use shlop.Prelude.{
  ℕ, zero, suc, ◌+◌, ◌<◌, ◌≡◌, refl, Option, none, some, List, [], ◌∷◌, length, get_elem?, arith,
}
use shlop.Prelude.Text.{Str}
use shlop.Terminal.Completion.{
  Candidate, CompletionMenu, SharedState, Delta, forward, backward, new_selected, show_buffer,
  preview, cycle_menu, cycle_completion, dismiss_menu, dismiss_completion, refresh_completion,
  cycles,
}

-- A selection that is a candidate's number.
unfoldable pub InRange : ℕ → Option ℕ → Type 0
InRange len none = Unit
InRange len (some i) = i < len

new_selected-InRange :
    (len : ℕ) (selected : Option ℕ) (d : Delta)
    → 0 < len
    → InRange len (new_selected len selected d)
unfolding new_selected InRange
new_selected-InRange len none forward h = h
new_selected-InRange len none backward h = omega arith
new_selected-InRange len (some zero) backward h = tt
new_selected-InRange len (some (suc i)) backward h = mod-lt i h
new_selected-InRange len (some i) forward h = mod-lt (i + 1) h

get_elem?-some :
    {A : Type 0} (xs : List A) (i : ℕ) → i < length xs → (x : A) × (get_elem? xs i ≡ some x)
get_elem?-some [] i h = absurd (omega (arith, h))
get_elem?-some (x ∷ xs) zero h = (x, refl)
get_elem?-some (x ∷ xs) (suc i) h = get_elem?-some xs i (omega arith)

-- The menu that was opened for a buffer and a cursor, and what the input line shows of it.
Shows : CompletionMenu → Str → ℕ → Option ℕ → Type 0
Shows menu buffer cursor none = (buffer ≡ menu.original_buffer) × (cursor ≡ menu.original_cursor)
Shows menu buffer cursor (some i) =
    (c : Candidate) × ((get_elem? menu.candidates i ≡ some c)
      × (buffer ≡ c.replacement)
      × (cursor ≡ length c.replacement))

unfoldable pub IsPreviewing : List Candidate → Str → ℕ → SharedState → Type 0
unfolding Shows
IsPreviewing cands buffer cursor st =
    (selected : Option ℕ) × ((st.completion
        ≡ some (record {
          candidates = cands;
          selected = selected;
          original_buffer = buffer;
          original_cursor = cursor;
        }))
      × Shows
          (record {
            candidates = cands;
            selected = selected;
            original_buffer = buffer;
            original_cursor = cursor;
          })
          st.buffer st.cursor selected)

abbrev menu_of : List Candidate → Str → ℕ → Option ℕ → CompletionMenu
menu_of cands buffer cursor selected = record {
  candidates = cands;
  selected = selected;
  original_buffer = buffer;
  original_cursor = cursor;
}

preview-IsPreviewing :
    (cands : List Candidate) (buffer : Str) (cursor : ℕ) (selected : Option ℕ) (st : SharedState)
    → InRange (length cands) selected
    → (next : SharedState) × ((preview (menu_of cands buffer cursor selected) st ≡ some next)
        × IsPreviewing cands buffer cursor next)
unfolding preview IsPreviewing InRange Shows
preview-IsPreviewing cands buffer cursor none st h = (
  show_buffer buffer cursor (menu_of cands buffer cursor none) st,
  (refl, (none, (refl, (refl, refl)))),
)
preview-IsPreviewing cands buffer cursor (some i) st h =
    let (c, found) = get_elem?-some cands i h in
    (
      show_buffer c.replacement (length c.replacement) (menu_of cands buffer cursor (some i)) st,
      (ground (arith, found), (some i, (refl, (c, (found, refl, refl))))),
    )

cycle-IsPreviewing :
    (cands : List Candidate) (buffer : Str) (cursor : ℕ) (st : SharedState) (d : Delta)
    → 0 < length cands
    → IsPreviewing cands buffer cursor st
    → (next : SharedState) × ((cycle_completion st d ≡ some next)
        × IsPreviewing cands buffer cursor next)
unfolding cycle_completion cycle_menu IsPreviewing preview
cycle-IsPreviewing [] buffer cursor st d some_one h = absurd (omega (arith, some_one))
cycle-IsPreviewing (c ∷ cs) buffer cursor st d some_one (selected, (open_menu, shows)) =
    rw open_menu (
      preview-IsPreviewing (c ∷ cs) buffer cursor (new_selected (length (c ∷ cs)) selected d) st
        (new_selected-InRange (length (c ∷ cs)) selected d some_one))

cycles-IsPreviewing :
    (cands : List Candidate) (buffer : Str) (cursor : ℕ) (ds : List Delta) (st : SharedState)
    → 0 < length cands
    → IsPreviewing cands buffer cursor st
    → (next : SharedState) × ((cycles st ds ≡ some next) × IsPreviewing cands buffer cursor next)
unfolding cycles
cycles-IsPreviewing cands buffer cursor [] st some_one h = (st, (refl, h))
cycles-IsPreviewing cands buffer cursor (d ∷ ds) st some_one h =
    let (mid, (one, h1)) = cycle-IsPreviewing cands buffer cursor st d some_one h in
    let (next, (rest, h2)) = cycles-IsPreviewing cands buffer cursor ds mid some_one h1 in
    (next, (rw (cycles, one) rest, h2))

dismiss-IsPreviewing :
    (cands : List Candidate) (buffer : Str) (cursor : ℕ) (st : SharedState)
    → IsPreviewing cands buffer cursor st
    → ((dismiss_completion st).buffer ≡ buffer) × ((dismiss_completion st).cursor ≡ cursor)
unfolding dismiss_completion dismiss_menu IsPreviewing Shows
dismiss-IsPreviewing cands buffer cursor st (none, (open_menu, (b, c))) = rw open_menu (b, c)
dismiss-IsPreviewing cands buffer cursor st (some i, (open_menu, shows)) = rw open_menu (refl, refl)

-- A completion menu gives back what was typed: it opens on one candidate or more, no walk through it
-- panics, and dismissing it after any walk restores the buffer and the cursor that it was opened with.
pub dismiss_completion-cycles :
    (cands : List Candidate) (st : SharedState) (ds : List Delta)
    → 0 < length cands
    → (next : SharedState) × ((cycles (refresh_completion cands st) ds ≡ some next)
        × ((dismiss_completion next).buffer ≡ st.buffer)
        × ((dismiss_completion next).cursor ≡ st.cursor))
unfolding refresh_completion IsPreviewing Shows
dismiss_completion-cycles [] st ds some_one = absurd (omega (arith, some_one))
dismiss_completion-cycles (c ∷ cs) st ds some_one =
    let (next, (walked, h)) =
      cycles-IsPreviewing (c ∷ cs) st.buffer st.cursor ds (refresh_completion (c ∷ cs) st) some_one
        (none, (refl, (refl, refl))) in
    let back = dismiss-IsPreviewing (c ∷ cs) st.buffer st.cursor next h in
    (next, (walked, back.0, back.1))
