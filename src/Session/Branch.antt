-- ===== src/Session/Branch.antt =====
-- Branches of a session tree: `branch_from` ends, appends extend one branch and leave the others.
use mathlib.Core.List.{reverse-cons}
use mathlib.Core.Option
use shlop.Prelude.{
  ℕ, zero, suc, ◌+◌, ◌≡◌, refl, sym, ap, subst, inl, inr, Option, none, some, List, [], ◌∷◌, ◌++◌,
  reverse, arith, ltb, length, get_elem?, get_elem?-append_left, get_elem?-length_push, ◌∙◌,
  lt_of_get_elem?, Option-cases, Bool-cases, nat_eq, option_eq,
}
use shlop.Proto.Event.{
  Event, ui_prompt_submitted, agent_response_finished, tool_invoke, other, ui_navigate_tree,
}
use shlop.Session.Tree.{
  SessionEntry, SessionNode, push_entry, SessionTree, walk, branch_from, append_node_at, has_output,
  fold_event, settle, apply_event_at,
}
use shlop.Session.Shape.{Below, Below-mono, IsChain, IsShaped}

module _ {V : Type 0} where
  -- A node's parent stands before it.
  chain_parent :
      (start : ℕ) (ns : List (SessionNode V)) (i : ℕ) (n : SessionNode V)
      → IsChain start ns
      → get_elem? ns i ≡ some n
      → Below (start + i) n.parent_id
  chain_parent start [] i n c h = cc
  chain_parent start (m ∷ ns) zero n c h =
      subst (λ (x : SessionNode V). Below (start + 0) x.parent_id) {x = m} {y = n} (cc)
        (Below-mono m.parent_id (omega arith) c.1)
  chain_parent start (m ∷ ns) (suc i) n c h =
      Below-mono n.parent_id (omega arith) (chain_parent (suc start) ns i n c.2 h)

  walk_missing :
      (ns : List (SessionNode V)) (fuel id : ℕ)
      → get_elem? ns id ≡ none
      → walk ns (suc fuel) (some id) ≡ some []
  unfolding walk
  walk_missing ns fuel id e = ground arith

  pub walk_node :
      (ns : List (SessionNode V)) (fuel id : ℕ) (n : SessionNode V)
      → get_elem? ns id ≡ some n
      → walk ns (suc fuel) (some id) ≡ push_entry n.entry (walk ns fuel n.parent_id)
  unfolding walk
  walk_node ns fuel id n e = ground arith

  walk_total :
      (ns : List (SessionNode V)) (fuel : ℕ) (head : Option ℕ)
      → IsChain 0 ns
      → Below fuel head
      → (path : List (SessionEntry V)) × (walk ns fuel head ≡ some path)
  walk_total ns fuel none c b = ([], unfold walk in ground arith)
  walk_total ns zero (some id) c b = elim b [ ]
  walk_total ns (suc fuel) (some id) c b = elim (Option-cases (get_elem? ns id)) [
    | inl e ↦ ([], walk_missing ns fuel id e)
    | inr (n, e) ↦
        let (path, h) =
          walk_total ns fuel n.parent_id c
            (Below-mono n.parent_id (omega arith) (chain_parent 0 ns id n c e)) in
        (n.entry ∷ path, walk_node ns fuel id n e ∙ ap (push_entry n.entry) h)
  ]

  walk_any :
      (ns : List (SessionNode V)) (head : Option ℕ)
      → IsChain 0 ns
      → (path : List (SessionEntry V)) × (walk ns (suc (length ns)) head ≡ some path)
  walk_any ns none c = ([], unfold walk in refl)
  walk_any ns (some id) c = elim (Option-cases (get_elem? ns id)) [
    | inl e ↦ ([], walk_missing ns (length ns) id e)
    | inr (n, e) ↦
        walk_total ns (suc (length ns)) (some id) c (omega (arith, lt_of_get_elem? ns id e))
  ]

  -- `branch_from` returns, whatever head it is asked for, in at most as many rounds as there are
  -- nodes and one more, if the tree is well shaped.
  pub branch_from_total :
      (t : SessionTree V) (head : Option ℕ)
      → IsShaped t
      → (path : List (SessionEntry V)) × (branch_from (suc (length t.nodes)) t head ≡ some path)
  unfolding branch_from
  branch_from_total t head s =
      let (path, h) = walk_any t.nodes head s.chain in (reverse path, ap (Option.map reverse) h)

  walk-push :
      (ns : List (SessionNode V)) (n : SessionNode V) (fuel : ℕ) (head : Option ℕ)
      → IsChain 0 ns
      → Below (length ns) head
      → walk (ns ++ n ∷ []) fuel head ≡ walk ns fuel head
  walk-push ns n fuel none c b = unfold walk in ground arith
  walk-push ns n zero (some id) c b = unfold walk in refl
  walk-push ns n (suc fuel) (some id) c b = elim (Option-cases (get_elem? ns id)) [
    | inl e ↦
        walk_missing (ns ++ n ∷ []) fuel id (get_elem?-append_left ns (n ∷ []) id b ∙ e)
        ∙ sym (walk_missing ns fuel id e)
    | inr (m, e) ↦
        walk_node (ns ++ n ∷ []) fuel id m (get_elem?-append_left ns (n ∷ []) id b ∙ e)
        ∙ ap (push_entry m.entry) (
            walk-push ns n fuel m.parent_id c
              (Below-mono m.parent_id (omega arith) (chain_parent 0 ns id m c e)))
        ∙ sym (walk_node ns fuel id m e)
  ]

  reverse-push_entry :
      (entry : SessionEntry V) (o : Option (List (SessionEntry V)))
      → Option.map reverse (push_entry entry o)
        ≡ Option.map (λ path. path ++ entry ∷ []) (Option.map reverse o)
  reverse-push_entry entry none = refl
  reverse-push_entry entry (some path) = ap some (reverse-cons entry path)

  -- In a well shaped tree, the branch that ends at a new node whose parent is a node of the tree,
  -- or none, is the branch of its parent with the new entry at its end.
  pub branch_from-append_node_at :
      (t : SessionTree V) (parent : Option ℕ) (entry : SessionEntry V) (fuel : ℕ)
      → IsShaped t
      → Below (length t.nodes) parent
      → branch_from (suc fuel) (append_node_at t parent entry).0 (some (length t.nodes))
        ≡ Option.map (λ path. path ++ entry ∷ []) (branch_from fuel t parent)
  unfolding branch_from append_node_at
  branch_from-append_node_at t parent entry fuel s b =
      ap (Option.map reverse) (
        walk_node (t.nodes ++ _ ∷ []) fuel (length t.nodes) _ (get_elem?-length_push t.nodes _)
        ∙ ap (push_entry entry) (walk-push t.nodes _ fuel parent s.chain b))
      ∙ reverse-push_entry entry (walk t.nodes fuel parent)

  append_keeps_branch :
      (t : SessionTree V) (parent : Option ℕ) (entry : SessionEntry V) (fuel : ℕ) (head : Option ℕ)
      → IsShaped t
      → Below (length t.nodes) head
      → branch_from fuel (append_node_at t parent entry).0 head ≡ branch_from fuel t head
  unfolding branch_from append_node_at
  append_keeps_branch t parent entry fuel head s b =
      ap (Option.map reverse) (walk-push t.nodes _ fuel head s.chain b)

  fold_keeps :
      (t : SessionTree V) (parent : Option ℕ) (e : Event V) (fuel : ℕ) (head : Option ℕ)
      → IsShaped t
      → Below (length t.nodes) head
      → branch_from fuel (fold_event t parent e).0 head ≡ branch_from fuel t head
  unfolding fold_event
  fold_keeps t parent (ui_prompt_submitted x) fuel head s b =
      append_keeps_branch t parent _ fuel head s b
  fold_keeps t parent (agent_response_finished r) fuel head s b = elim (Bool-cases (has_output r)) [
    | inl e ↦ rw (e, fold_event) (append_keeps_branch t parent _ fuel head s b)
    | inr e ↦ rw (e, fold_event) refl
  ]
  fold_keeps t parent (ui_navigate_tree target) fuel head s b =
      elim (Bool-cases (ltb target (length t.nodes))) [
        | inl e ↦ unfold branch_from in rw e refl
        | inr e ↦ unfold branch_from in rw e refl
      ]
  fold_keeps t parent (tool_invoke _) fuel head s b = refl
  fold_keeps t parent (other _) fuel head s b = refl
  fold_keeps t parent _ fuel head s b = append_keeps_branch t parent _ fuel head s b

  -- Folding an event into a well shaped tree changes no branch that was there: whatever the event
  -- and its parent, the branch from a node of the old tree is the same in the new one.
  pub apply_event_at_keeps_branch :
      (t : SessionTree V) (parent : Option (Option ℕ)) (e : Event V) (fuel : ℕ) (head : Option ℕ)
      → IsShaped t
      → Below (length t.nodes) head
      → branch_from fuel (apply_event_at t parent e).0 head ≡ branch_from fuel t head
  apply_event_at_keeps_branch t parent e fuel head s b =
      unfold apply_event_at in fold_keeps t (settle t parent) e fuel head s b
