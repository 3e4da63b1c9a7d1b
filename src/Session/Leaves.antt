-- ===== src/Session/Leaves.antt =====
-- `children` and `leaves` of a session tree, and what a fold parent that is not checked can do.
use mathlib.Core.Option
use shlop.Prelude.{
  ℕ, zero, suc, ◌≡◌, refl, ap, ◌∙◌, Bool, not, ◌&&◌, none, some, List, [], ◌∷◌, ◌++◌, map, arith,
  length, get_elem?-length_push, any, retain, is_empty, sym, reverse, ◌==◌, ==_iff, nat_eq,
  option_eq,
}
use shlop.Session.Tree.{
  SessionEntry, SessionNode, SessionTree, push_entry, walk, branch_from, children, leaves,
  append_node_at,
}
use shlop.Session.Branch.{walk_node}

abbrev pub has : List ℕ → ℕ → Bool
has xs id = any (λ j. j == id) xs

has-retain : (p : ℕ → Bool) (xs : List ℕ) (id : ℕ) → has (retain p xs) id ≡ (has xs id && p id)
has-retain p [] id = refl
has-retain p (x ∷ xs) id = ground (arith, has-retain p xs id, ==_iff x id)

module _ {ℓ} {A : Type ℓ} where
  is_empty-retain :
      (p : A → Bool) (f : A → ℕ) (xs : List A) → is_empty (map f (retain p xs)) ≡ not (any p xs)
  is_empty-retain p f [] = refl
  is_empty-retain p f (x ∷ xs) = ground (arith, is_empty-retain p f xs)

module _ {V : Type 0} where
  -- An id is among the leaves exactly when it is the id of a node and no node is its child.
  pub has-leaves :
      (t : SessionTree V) (id : ℕ)
      → has (leaves t) id
        ≡ (has (map (λ (n : SessionNode V). n.id) t.nodes) id && is_empty (children t id))
  unfolding leaves children
  has-leaves t id =
      has-retain _ (map (λ (n : SessionNode V). n.id) t.nodes) id
      ∙ ap (λ b. has (map (λ (n : SessionNode V). n.id) t.nodes) id && b)
          (sym
            (is_empty-retain (λ (n : SessionNode V). n.parent_id == some id) (λ n. n.id) t.nodes))

  walk_self :
      (ns : List (SessionNode V)) (entry : SessionEntry V) (fuel : ℕ)
      → walk
          (ns ++ record { id = length ns; parent_id = some (length ns); entry = entry } ∷ [])
          fuel
          (some (length ns))
        ≡ none
  walk_self ns entry zero = unfold walk in refl
  walk_self ns entry (suc fuel) =
      walk_node _ fuel (length ns) _ (get_elem?-length_push ns _)
      ∙ ap (push_entry entry) (walk_self ns entry fuel)

  -- A fold parent is not checked against the tree. If it is the id that the new node gets, the node
  -- is its own parent, and `branch_from` at the new head does not end in any number of rounds.
  pub branch_from-self_parent :
      (t : SessionTree V) (entry : SessionEntry V) (fuel : ℕ)
      → let t' = (append_node_at t (some (length t.nodes)) entry).0 in
        branch_from fuel t' t'.head ≡ none
  unfolding branch_from append_node_at
  branch_from-self_parent t entry fuel = ap (Option.map reverse) (walk_self t.nodes entry fuel)
