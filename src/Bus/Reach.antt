-- ===== src/Bus/Reach.antt =====
-- Which events the subscriptions of a socket client can reach (`evaluate` of
-- crates/tau-core/src/policy.rs with `selector_matches` of crates/tau-core/src/bus.rs).
use shlop.Prelude.{
  ℕ, zero, suc, ◌≡◌, refl, sym, ap, ◌∙◌, Bool, true, false, not, Bool-cases, Option-cases, inl, inr,
  none, some, List, [], ◌∷◌, ◌++◌, arith, eqb, any, all, get_elem?,
}
use shlop.Prelude.Text.{Str, starts_with}
use shlop.Proto.Category.{as_str, from_wire}
use shlop.Proto.Name.{EventName, dot, display, split_once, split_once-append}
use shlop.Proto.Prefix.{matches_prefix, matches_prefix-eq-starts_with}
use shlop.Proto.Event.{EventSelector, prefix}
use shlop.Bus.Connection.{ConnectionMetadata, socket}
use shlop.Bus.Policy.{
  SubscriptionApproval, DefaultSubscriptionPolicy, category_allowed, selector_allowed, evaluate,
}

abbrev pub no_dots : Str → Bool
no_dots s = all (λ c. not (eqb c dot)) s

no_dots-split_once : (s : Str) {a b : Str} → split_once dot s ≡ some (a, b) → no_dots a ≡ true
unfolding split_once
no_dots-split_once [] h = ground arith
no_dots-split_once (c ∷ s) {a} {b} h = elim (Option-cases (split_once dot s)) [
  | inl e ↦ ground arith
  | inr ((x, y), e) ↦ ground (arith, no_dots-split_once s {a = x} {b = y} e)
]

same_until_dot :
    (x a u b : Str)
    → no_dots x ≡ true
    → no_dots a ≡ true
    → starts_with (x ++ dot ∷ u) (a ++ dot ∷ b) ≡ true
    → x ≡ a
unfolding starts_with
same_until_dot [] [] u b hx ha h = refl
same_until_dot [] (y ∷ a) u b hx ha h = ground arith
same_until_dot (y ∷ x) [] u b hx ha h = ground arith
same_until_dot (y ∷ x) (z ∷ a) u b hx ha h = ground (arith, same_until_dot x a u b)

allowed_at :
    (ss : List EventSelector) (i : ℕ) (s : EventSelector)
    → any (λ s. not (selector_allowed s)) ss ≡ false
    → get_elem? ss i ≡ some s
    → selector_allowed s ≡ true
allowed_at [] i s none_bad h = ground arith
allowed_at (t ∷ ss) zero s none_bad h = ground arith
allowed_at (t ∷ ss) (suc i) s none_bad h = allowed_at ss i s (ground arith) h

allowed_prefix :
    (p : Str) {a b : Str}
    → selector_allowed (prefix p) ≡ true
    → split_once dot p ≡ some (a, b)
    → category_allowed (from_wire a) ≡ true
unfolding selector_allowed
allowed_prefix p h split = ground (arith, split)

matched :
    (n : EventName) (p : Str) {a b : Str}
    → matches_prefix n p ≡ true
    → split_once dot p ≡ some (a, b)
    → starts_with (as_str n.category ++ dot ∷ n.call) (a ++ dot ∷ b) ≡ true
unfolding display
matched n p h split =
    ap (starts_with (display n)) (sym (split_once-append dot p split))
    ∙ sym (matches_prefix-eq-starts_with n p)
    ∙ h

module _ (encode : List SubscriptionApproval → Str) (failure torn : Str) where
  -- If the policy accepts the selectors of a socket client, and one of them is a prefix with a
  -- dot, then every event name that this prefix matches, whose category is one that parsing
  -- produces and has no dot, is of a known category.
  pub evaluate-matches_prefix :
      (written : Bool) (d : DefaultSubscriptionPolicy) (c : ConnectionMetadata)
      (selectors : List EventSelector) (i : ℕ) (p a b : Str) (n : EventName)
      → c.origin ≡ socket
      → (evaluate encode failure torn written d c selectors).0 ≡ none
      → get_elem? selectors i ≡ some (prefix p)
      → split_once dot p ≡ some (a, b)
      → matches_prefix n p ≡ true
      → no_dots (as_str n.category) ≡ true
      → from_wire (as_str n.category) ≡ n.category
      → category_allowed n.category ≡ true
  unfolding evaluate
  evaluate-matches_prefix written d c selectors i p a b n from_socket accepted at split hit dots
        canonical =
      ap category_allowed (sym canonical ∙ ap from_wire same) ∙ cut
    where
      fine : any (λ s. not (selector_allowed s)) selectors ≡ false
      fine = elim (Bool-cases (any (λ s. not (selector_allowed s)) selectors)) [
        | inl e ↦ ground (arith, e, from_socket)
        | inr e ↦ e
      ]

      cut : category_allowed (from_wire a) ≡ true
      cut = allowed_prefix p (allowed_at selectors i (prefix p) fine at) split

      same : as_str n.category ≡ a
      same =
          same_until_dot (as_str n.category) a n.call b dots (no_dots-split_once p split)
            (matched n p hit split)
