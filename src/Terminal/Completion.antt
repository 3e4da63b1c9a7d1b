-- ===== src/Terminal/Completion.antt =====
-- The completion menu of the input line (`CompletionMenu` and its operations in
-- crates/tau-cli-term-raw/src/lib.rs). `delta` is one forward or one backward, as its callers pass.
use shlop.Prelude.{
  ℕ, zero, suc, ◌+◌, ◌-◌, ◌%◌, Option, none, some, Bool, true, false, List, [], ◌∷◌, length,
  get_elem?, is_empty, if◌then◌else◌,
}
use shlop.Prelude.Text.{Str}

pub record Candidate : Type 0 where
  pub label : Str
  pub description : Str
  pub replacement : Str

pub record CompletionMenu : Type 0 where
  pub candidates : List Candidate
  pub selected : Option ℕ
  pub original_buffer : Str
  pub original_cursor : ℕ

-- The part of `SharedState` that these operations touch.
pub record SharedState : Type 0 where
  pub buffer : Str
  pub cursor : ℕ
  pub sticky_col : Option ℕ
  pub completion : Option CompletionMenu

pub data Delta : Type 0 where
  forward backward : Delta

abbrev pub write_cursor : ℕ → SharedState → SharedState
write_cursor new_cursor st = record st { cursor = new_cursor; sticky_col = none }

-- `new_selected`, among `len` candidates.
unfoldable pub new_selected : ℕ → Option ℕ → Delta → Option ℕ
new_selected len none forward = some 0
new_selected len none backward = some (len - 1)
new_selected len (some zero) backward = none
new_selected len (some (suc i)) backward = some (i % len)
new_selected len (some i) forward = some ((i + 1) % len)

abbrev pub show_buffer : Str → ℕ → CompletionMenu → SharedState → SharedState
show_buffer buffer cursor menu st =
    write_cursor cursor (record st { buffer = buffer; completion = some menu })

-- The buffer that goes with the selection; `candidates[idx]` panics out of range: `none`.
unfoldable pub preview : CompletionMenu → SharedState → Option SharedState
preview menu st = elim menu.selected [
  | none ↦ some (show_buffer menu.original_buffer menu.original_cursor menu st)
  | some idx ↦ elim (get_elem? menu.candidates idx) [
    | none ↦ none
    | some c ↦ some (show_buffer c.replacement (length c.replacement) menu st)
  ]
]

unfoldable pub cycle_menu : CompletionMenu → SharedState → Delta → Option SharedState
cycle_menu menu st delta =
    if is_empty menu.candidates
    then some st
    else preview
        (record menu { selected = new_selected (length menu.candidates) menu.selected delta }) st

unfoldable pub cycle_completion : SharedState → Delta → Option SharedState
cycle_completion st delta = elim st.completion [
  | none ↦ some st
  | some menu ↦ cycle_menu menu st delta
]

unfoldable pub dismiss_menu : CompletionMenu → SharedState → SharedState
dismiss_menu menu st = elim menu.selected [
  | none ↦ record st { completion = none }
  | some i ↦
      write_cursor menu.original_cursor
        (record st { buffer = menu.original_buffer; completion = none })
]

unfoldable pub dismiss_completion : SharedState → SharedState
dismiss_completion st = elim st.completion [ none ↦ st | some menu ↦ dismiss_menu menu st ]

unfoldable pub accept_menu : CompletionMenu → SharedState → SharedState × Bool
accept_menu menu st = elim menu.selected [
  | none ↦ (st, false)
  | some i ↦ (record st { completion = none }, true)
]

unfoldable pub accept_completion : SharedState → SharedState × Bool
accept_completion st = elim st.completion [ none ↦ (st, false) | some menu ↦ accept_menu menu st ]

-- `refresh_completion`, with what the source of completions answers.
unfoldable pub refresh_completion : List Candidate → SharedState → SharedState
refresh_completion candidates st =
    if is_empty candidates then (record st { completion = none }) else (record st {
      completion = some (record {
        candidates = candidates;
        selected = none;
        original_buffer = st.buffer;
        original_cursor = st.cursor;
      });
    })

-- Some steps through the menu.
unfoldable pub cycles : SharedState → List Delta → Option SharedState
cycles st [] = some st
cycles st (d ∷ ds) = elim (cycle_completion st d) [ none ↦ none | some next ↦ cycles next ds ]
