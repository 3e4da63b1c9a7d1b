-- ===== src/Session/Shape.antt =====
-- The shape of a session tree: ids are positions, a parent is an earlier node, the head exists.
use shlop.Prelude.{
  ℕ, suc, ◌+◌, ◌≤◌, ◌<◌, ◌≡◌, Option, none, some, List, [], ◌∷◌, ◌++◌, arith, length, length-append,
  Bool-cases, inl, inr,
}
use shlop.Proto.Event.{
  Event, ui_prompt_submitted, agent_response_finished, tool_invoke, other, ui_navigate_tree,
}
use shlop.Session.Tree.{
  SessionEntry, SessionNode, SessionTree, append_node_at, has_output, fold_event, settle,
  apply_event_at,
}

abbrev pub Below : ℕ → Option ℕ → Type 0
Below k none = Unit
Below k (some p) = p < k

pub Below-mono : {k l : ℕ} (o : Option ℕ) → k ≤ l → Below k o → Below l o
Below-mono none h b = tt
Below-mono (some p) h b = omega arith

module _ {V : Type 0} where
  -- The nodes stand at `start` and the following positions.
  abbrev pub IsChain : ℕ → List (SessionNode V) → Type 0
  IsChain start [] = Unit
  IsChain start (n ∷ ns) = (n.id ≡ start) × Below start n.parent_id × IsChain (suc start) ns

  pub record IsShaped (t : SessionTree V) : Type 0 where
    pub chain : IsChain 0 t.nodes
    pub head_below : Below (length t.nodes) t.head

  -- A fold parent that the caller names exists in the tree.
  abbrev pub Allowed : SessionTree V → Option (Option ℕ) → Type 0
  Allowed t none = Unit
  Allowed t (some p) = Below (length t.nodes) p

  IsChain-push :
      (start : ℕ) (ns : List (SessionNode V)) (n : SessionNode V)
      → IsChain start ns
      → n.id ≡ start + length ns
      → Below (start + length ns) n.parent_id
      → IsChain start (ns ++ n ∷ [])
  IsChain-push start [] n c e b = (omega arith, Below-mono n.parent_id (omega arith) b, tt)
  IsChain-push start (m ∷ ns) n c e b = (
    c.0,
    c.1,
    IsChain-push (suc start) ns n c.2 (omega arith) (Below-mono n.parent_id (omega arith) b),
  )

  append_node_at-IsShaped :
      (t : SessionTree V) (parent : Option ℕ) (entry : SessionEntry V)
      → IsShaped t
      → Below (length t.nodes) parent
      → IsShaped (append_node_at t parent entry).0
  unfolding append_node_at
  append_node_at-IsShaped t parent entry s b = record {
    chain = IsChain-push 0 t.nodes _ s.chain (omega arith) (Below-mono parent (omega arith) b);
    head_below = omega (arith, length-append t.nodes _);
  }

  fold_event-IsShaped :
      (t : SessionTree V) (parent : Option ℕ) (e : Event V)
      → IsShaped t
      → Below (length t.nodes) parent
      → IsShaped (fold_event t parent e).0
  unfolding fold_event
  fold_event-IsShaped t parent (ui_prompt_submitted x) s b = append_node_at-IsShaped t parent _ s b
  fold_event-IsShaped t parent (agent_response_finished r) s b = elim (Bool-cases (has_output r)) [
    | inl e ↦ rw (e, fold_event) (append_node_at-IsShaped t parent _ s b)
    | inr e ↦ rw (e, fold_event) s
  ]
  fold_event-IsShaped t parent (ui_navigate_tree target) s b = record {
    chain = ground (arith, s.chain);
    head_below = ground (arith, s.head_below);
  }
  fold_event-IsShaped t parent (tool_invoke _) s b = s
  fold_event-IsShaped t parent (other _) s b = s
  fold_event-IsShaped t parent _ s b = append_node_at-IsShaped t parent _ s b

  settle-Below :
      (t : SessionTree V) (parent : Option (Option ℕ))
      → IsShaped t
      → Allowed t parent
      → Below (length t.nodes) (settle t parent)
  settle-Below t none s a = s.head_below
  settle-Below t (some p) s a = a

  -- Folding an event keeps the shape, wherever the caller puts it, if a parent that the caller names
  -- is a node of the tree.
  pub apply_event_at-IsShaped :
      (t : SessionTree V) (parent : Option (Option ℕ)) (e : Event V)
      → IsShaped t
      → Allowed t parent
      → IsShaped (apply_event_at t parent e).0
  unfolding apply_event_at
  apply_event_at-IsShaped t parent e s a =
      fold_event-IsShaped t (settle t parent) e s (settle-Below t parent s a)
