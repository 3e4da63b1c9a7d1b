-- ===== src/Terminal/Examples.antt =====
-- Walks through a completion menu, and the witness.
use shlop.Prelude.{◌≡◌, refl, Option, none, some, List, [], ◌∷◌, arith}
use shlop.Prelude.Text.{Str, text}
use shlop.Terminal.Completion.{
  Candidate, SharedState, Delta, forward, backward, new_selected, preview, cycle_menu,
  cycle_completion, dismiss_completion, refresh_completion, cycles,
}
use shlop.Terminal.Preview.{dismiss_completion-cycles}

abbrev candidate : Str → Candidate
candidate s = record { label = s; description = []; replacement = s }

abbrev two_candidates : List Candidate
two_candidates = candidate (text "/help") ∷ candidate (text "/history") ∷ []

abbrev typed : SharedState
typed = record { buffer = text "/h"; cursor = 2; sticky_col = none; completion = none }

-- Forward from the last candidate shows the first one, and not what was typed.
abbrev shown_after : List Delta → Option SharedState
shown_after = cycles (refresh_completion two_candidates typed)

abbrev shown_buffer : Option SharedState → Option Str
shown_buffer none = none
shown_buffer (some st) = some st.buffer

forward_wraps_to_first :
    shown_buffer (shown_after (forward ∷ forward ∷ forward ∷ [])) ≡ some (text "/help")
unfolding cycles refresh_completion cycle_completion cycle_menu preview new_selected
forward_wraps_to_first = refl

dismiss_completion-cycles_example :
    (next : SharedState) × ((cycles
          (refresh_completion two_candidates typed)
          (forward ∷ backward ∷ backward ∷ [])
        ≡ some next)
      × ((dismiss_completion next).buffer ≡ text "/h")
      × ((dismiss_completion next).cursor ≡ 2))
dismiss_completion-cycles_example =
    dismiss_completion-cycles two_candidates typed (forward ∷ backward ∷ backward ∷ [])
      (omega arith)
