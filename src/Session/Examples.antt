-- ===== src/Session/Examples.antt =====
-- Tests and instances for the modules of Session.
use shlop.Prelude.{◌≡◌, refl, ℕ, true, none, some, List, [], ◌∷◌, arith}
use shlop.Prelude.Text.{text}
use shlop.Proto.Event.{Event, ui_prompt_submitted}
use shlop.Session.Tree.{
  SessionTree, SessionEntry, user_message, empty_tree, apply_event_at, append_node_at, branch_from,
  leaves, children, current_branch, replay_one, advance_next_event_id,
}
use shlop.Session.Shape.{IsShaped, apply_event_at-IsShaped}
use shlop.Session.Branch.{
  branch_from_total, branch_from-append_node_at, apply_event_at_keeps_branch,
}
use shlop.Session.Leaves.{has, has-leaves, branch_from-self_parent}
use shlop.Session.Replay.{record_for, replay_one-record_for}

abbrev hello : Event ℕ
hello = ui_prompt_submitted (text "hello")

abbrev empty : SessionTree ℕ
empty = empty_tree

empty-IsShaped : IsShaped empty
empty-IsShaped = record { chain = tt; head_below = tt }

-- One message, and two answers to it on two branches.
abbrev one : SessionTree ℕ
one = (apply_event_at empty none hello).0

abbrev two : SessionTree ℕ
two = (apply_event_at one none (ui_prompt_submitted (text "a"))).0

abbrev forked : SessionTree ℕ
forked = (apply_event_at two (some (some 0)) (ui_prompt_submitted (text "b"))).0

forked_branch :
    current_branch 4 forked ≡ some (user_message (text "hello") ∷ user_message (text "b") ∷ [])
unfolding current_branch apply_event_at
forked_branch = refl

forked-leaves : leaves forked ≡ 1 ∷ 2 ∷ []
unfolding leaves apply_event_at
forked-leaves = refl

one-IsShaped : IsShaped one
one-IsShaped = apply_event_at-IsShaped empty none hello empty-IsShaped tt

two-IsShaped : IsShaped two
two-IsShaped = apply_event_at-IsShaped one none (ui_prompt_submitted (text "a")) one-IsShaped tt

forked-IsShaped : IsShaped forked
unfolding apply_event_at
forked-IsShaped =
    apply_event_at-IsShaped two (some (some 0)) (ui_prompt_submitted (text "b")) two-IsShaped
      (omega arith)

apply_event_at-IsShaped_example : IsShaped forked
unfolding apply_event_at
apply_event_at-IsShaped_example =
    apply_event_at-IsShaped two (some (some 0)) (ui_prompt_submitted (text "b")) two-IsShaped
      (omega arith)

branch_from_total_example :
    (path : List (SessionEntry ℕ)) × (branch_from 4 forked (some 2) ≡ some path)
unfolding apply_event_at
branch_from_total_example = branch_from_total forked (some 2) forked-IsShaped

branch_from-append_node_at_example :
    branch_from 4 (append_node_at forked (some 1) (user_message (text "c"))).0 (some 3)
    ≡ some (user_message (text "hello") ∷ user_message (text "a") ∷ user_message (text "c") ∷ [])
unfolding apply_event_at branch_from
branch_from-append_node_at_example =
    branch_from-append_node_at forked (some 1) (user_message (text "c")) 3 forked-IsShaped
      (omega arith)

apply_event_at_keeps_branch_instance : branch_from 4 forked (some 1) ≡ branch_from 4 two (some 1)
unfolding apply_event_at
apply_event_at_keeps_branch_instance =
    apply_event_at_keeps_branch two (some (some 0)) (ui_prompt_submitted (text "b")) 4 (some 1)
      two-IsShaped (omega arith)

has-leaves_instance : has (leaves forked) 1 ≡ true
unfolding apply_event_at children
has-leaves_instance = has-leaves forked 1

branch_from-self_parent_example :
    branch_from 100 (append_node_at one (some 1) (user_message (text "x"))).0 (some 1) ≡ none
unfolding apply_event_at append_node_at
branch_from-self_parent_example = branch_from-self_parent one (user_message (text "x")) 100

replay_one-record_for_example :
    replay_one two (record_for two (some (some 0)) hello)
    ≡ advance_next_event_id (apply_event_at two (some (some 0)) hello).0
replay_one-record_for_example = replay_one-record_for two (some (some 0)) hello
