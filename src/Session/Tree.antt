-- ===== src/Session/Tree.antt =====
-- The session tree and its fold (crates/tau-core/src/session.rs).
-- A node's id is its position in `nodes`. Ids and counters are `u64` and `usize` in the source;
-- they count what was appended, and their wrap-around is not modelled.
-- `SessionTree.session_id` is a name that no operation reads, and has no field here.
use mathlib.Core.Option
use shlop.Prelude.{
  ℕ, zero, suc, ◌+◌, Bool, true, false, not, ◌||◌, Option, none, some, List, [], ◌∷◌, ◌++◌, map,
  reverse, if◌then◌else◌, ltb, length, get_elem?, any, retain, is_empty, ◌==◌, nat_eq, option_eq,
}
use shlop.Prelude.Text.{Str}
use shlop.Proto.Event.{
  Event, ToolType, MessagePhase, AgentResponseFinished, ui_prompt_submitted,
  session_user_message_injected, session_prompt_steered, agent_response_finished, tool_request,
  tool_result, tool_error, ui_navigate_tree,
}

pub data ToolActivityOutcome (V : Type 0) : Type 0 where
  requested : ToolType → V → ToolActivityOutcome V
  result : V → ToolActivityOutcome V
  error : Str → Option V → ToolActivityOutcome V

pub record ToolActivityRecord (V : Type 0) : Type 0 where
  pub call_id : Str
  pub tool_name : Str
  pub outcome : ToolActivityOutcome V

pub data SessionEntry (V : Type 0) : Type 0 where
  user_message : Str → SessionEntry V
  -- text, thinking, phase and reasoning items
  agent_message : Option Str → Option Str → Option MessagePhase → List Str → SessionEntry V
  tool_activity : ToolActivityRecord V → SessionEntry V

pub record SessionNode (V : Type 0) : Type 0 where
  pub id : ℕ
  pub parent_id : Option ℕ
  pub entry : SessionEntry V

pub record SessionTree (V : Type 0) : Type 0 where
  pub nodes : List (SessionNode V)
  pub head : Option ℕ
  pub next_event_id : ℕ

-- A turn folds if it has text, a thinking summary that is not empty, or reasoning items.
unfoldable pub has_output : AgentResponseFinished → Bool
has_output r =
    elim r.text [ none ↦ false | some _ ↦ true ]
    || elim r.thinking [ none ↦ false | some s ↦ not (is_empty s) ]
    || not (is_empty r.reasoning_items)

module _ {V : Type 0} where
  unfoldable pub node : SessionTree V → ℕ → Option (SessionNode V)
  node t id = get_elem? t.nodes id

  abbrev pub push_entry :
      SessionEntry V → Option (List (SessionEntry V)) → Option (List (SessionEntry V))
  push_entry entry none = none
  push_entry entry (some path) = some (entry ∷ path)

  -- The loop of `branch_from`, newest entry first; `none` when the fuel runs out.
  unfoldable pub walk : List (SessionNode V) → ℕ → Option ℕ → Option (List (SessionEntry V))
  walk nodes fuel none = some []
  walk nodes zero (some id) = none
  walk nodes (suc fuel) (some id) = elim (get_elem? nodes id) [
    | none ↦ some []
    | some n ↦ push_entry n.entry (walk nodes fuel n.parent_id)
  ]

  unfoldable pub branch_from : ℕ → SessionTree V → Option ℕ → Option (List (SessionEntry V))
  unfolding walk
  branch_from fuel t head = Option.map reverse (walk t.nodes fuel head)

  unfoldable pub current_branch : ℕ → SessionTree V → Option (List (SessionEntry V))
  unfolding branch_from
  current_branch fuel t = branch_from fuel t t.head

  unfoldable pub children : SessionTree V → ℕ → List ℕ
  children t id = map (λ (n : SessionNode V). n.id) (retain (λ n. n.parent_id == some id) t.nodes)

  -- `leaves` collects the parents first, and keeps the ids that are none of them.
  unfoldable pub leaves : SessionTree V → List ℕ
  leaves t =
      retain (λ id. not (any (λ (n : SessionNode V). n.parent_id == some id) t.nodes))
        (map (λ (n : SessionNode V). n.id) t.nodes)

  unfoldable pub append_node_at :
      SessionTree V → Option ℕ → SessionEntry V → SessionTree V × Option ℕ
  append_node_at t parent entry =
      let id = length t.nodes in
      (
        record t {
          nodes = t.nodes ++ (record { id = id; parent_id = parent; entry = entry } ∷ []);
          head = some id;
        },
        some id,
      )

  -- `apply_event_at` with the parent settled: the new tree, and the node that the event produced.
  unfoldable pub fold_event : SessionTree V → Option ℕ → Event V → SessionTree V × Option ℕ
  unfolding append_node_at has_output
  fold_event t parent (ui_prompt_submitted text) = append_node_at t parent (user_message text)
  fold_event t parent (session_user_message_injected text) =
      append_node_at t parent (user_message text)
  fold_event t parent (session_prompt_steered text) = append_node_at t parent (user_message text)
  fold_event t parent (agent_response_finished r) =
      if has_output r
      then append_node_at t parent (agent_message r.text r.thinking r.phase r.reasoning_items)
      else (t, none)
  fold_event t parent (tool_request r) = append_node_at t parent (
      tool_activity (record {
        call_id = r.call_id;
        tool_name = r.tool_name;
        outcome = requested r.tool_type r.arguments;
      }))
  fold_event t parent (tool_result r) = append_node_at t parent (
      tool_activity
        (record { call_id = r.call_id; tool_name = r.tool_name; outcome = result r.result }))
  fold_event t parent (tool_error r) = append_node_at t parent (
      tool_activity (record {
        call_id = r.call_id;
        tool_name = r.tool_name;
        outcome = error r.message r.details;
      }))
  fold_event t parent (ui_navigate_tree target) =
      (if ltb target (length t.nodes) then record t { head = some target } else t, none)
  fold_event t parent _ = (t, none)

  -- The tri-state parent: `none` inherits the head, `some none` is the root.
  abbrev pub settle : SessionTree V → Option (Option ℕ) → Option ℕ
  settle t none = t.head
  settle t (some explicit) = explicit

  unfoldable pub apply_event_at :
      SessionTree V → Option (Option ℕ) → Event V → SessionTree V × Option ℕ
  unfolding fold_event
  apply_event_at t parent e = fold_event t (settle t parent) e

  unfoldable pub apply_event : SessionTree V → Event V → SessionTree V
  unfolding apply_event_at
  apply_event t e = (apply_event_at t none e).0

-- One durable record. Its `source` and `recorded_at` play no part in replay and are left out.
pub record PersistedSessionEvent (V : Type 0) : Type 0 where
  pub id : ℕ
  pub event : Event V
  pub parent_node_id : Option ℕ

abbrev pub empty_tree : {V : Type 0} → SessionTree V
empty_tree = record { nodes = []; head = none; next_event_id = 0 }

module _ {V : Type 0} where
  -- One round of the loop of `from_events`; the record's parent becomes an explicit one, if any.
  unfoldable pub replay_one : SessionTree V → PersistedSessionEvent V → SessionTree V
  unfolding apply_event_at
  replay_one t p =
      record ((apply_event_at t (elim p.parent_node_id [ none ↦ none | some id ↦ some (some id) ])
        p.event).0) { next_event_id = p.id + 1 }

  unfoldable pub replay_all : SessionTree V → List (PersistedSessionEvent V) → SessionTree V
  unfolding replay_one
  replay_all t [] = t
  replay_all t (p ∷ ps) = replay_all (replay_one t p) ps

  unfoldable pub from_events : List (PersistedSessionEvent V) → SessionTree V
  unfolding replay_all
  from_events = replay_all empty_tree

  unfoldable pub advance_next_event_id : SessionTree V → SessionTree V
  advance_next_event_id t = record t { next_event_id = t.next_event_id + 1 }
