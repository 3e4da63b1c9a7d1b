-- ===== src/Interception/Depth.antt =====
-- The depth of the reactions to a commit (`react_to_committed_event` of
-- crates/tau-harness/src/harness.rs).
use shlop.Prelude.{
  ◌≡◌, refl, ℕ, zero, suc, Bool-cases, Option-cases, inl, inr, none, List, [], ◌∷◌, any, ◌==◌,
  arith,
}
use shlop.Prelude.Text.{Str, str_eq}
use shlop.Interception.Registry.{next_for}
use shlop.Interception.Publish.{
  DeferredPublish, Harness, folds_user_message, prompt_created, dispatch_with, enqueue_with,
  send_first, react_to_committed_event, commit_event,
}

module _ {V C : Type 0} where
  commit_prompt :
      (n : ℕ) (h : Harness V C) → commit_event n h prompt_created ≡ commit_event 0 h prompt_created
  unfolding commit_event react_to_committed_event folds_user_message
  commit_prompt zero h = refl
  commit_prompt (suc n) h = refl

  dispatch_prompt :
      (n : ℕ) (h : Harness V C)
      → dispatch_with (commit_event n) h prompt_created none
        ≡ dispatch_with (commit_event 0) h prompt_created none
  unfolding dispatch_with
  dispatch_prompt n h =
      elim (Option-cases (next_for h.interceptors (prompt_created {V = V} {C = C}).event none)) [
        | inl e ↦ rw (dispatch_with, e) (commit_prompt n h)
        | inr (r, e) ↦ rw (dispatch_with, e) refl
      ]

  enqueue_prompt :
      (n : ℕ) (h : Harness V C)
      → enqueue_with (commit_event n) h prompt_created
        ≡ enqueue_with (commit_event 0) h prompt_created
  unfolding enqueue_with
  enqueue_prompt n h = elim (Option-cases h.pending_intercept) [
    | inl e ↦ ground (arith, e, dispatch_prompt n h)
    | inr (q, e) ↦ ground (arith, e)
  ]

  send_first_enough :
      (n : ℕ) (h : Harness V C) (cids : List Str)
      → send_first (enqueue_with (commit_event n)) h cids
        ≡ send_first (enqueue_with (commit_event 0)) h cids
  unfolding send_first
  send_first_enough n h [] = refl
  send_first_enough n h (cid ∷ cids) = elim (Bool-cases (any (λ c. c == cid) h.conversations)) [
    | inl there ↦ rw there (enqueue_prompt n (record h { pending_user_prompt_dispatches = cids }))
    | inr gone ↦ rw gone refl
  ]

  -- A reaction to a commit brings no other reaction: a commit that may react to any depth does what
  -- one that reacts once does.
  pub commit_event_enough :
      (n : ℕ) (h : Harness V C) (p : DeferredPublish V C)
      → commit_event (suc n) h p ≡ commit_event 1 h p
  unfolding commit_event react_to_committed_event
  commit_event_enough n h p = elim (Bool-cases (folds_user_message p.event)) [
    | inr quiet ↦ rw quiet refl
    | inl message ↦ rw message (send_first_enough n _ h.pending_user_prompt_dispatches)
  ]
