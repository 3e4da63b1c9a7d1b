-- ===== src/Interception/Progress.antt =====
-- A publish goes on in its chain: it is committed, or a later interceptor is asked.
use shlop.Prelude.{
  ◌≡◌, refl, sym, ap, subst, ◌∙◌, ℕ, ◌≤◌, ◌⊎◌, inl, inr, none, some, List, [], ◌∷◌, ◌++◌,
  append_assoc, Option-cases, Bool-cases, length,
}
use shlop.Prelude.Text.{Str}
use shlop.Interception.Registry.{InterceptorRegistration, next_for}
use shlop.Interception.Chain.{next_for-past}
use shlop.Interception.Once.{Comes, past-Comes}
use shlop.Interception.Publish.{
  DeferredPublish, PendingIntercept, Harness, dispatch_with, commit_event, dispatch_publish_step,
  react_to_committed_event, folds_user_message, drain,
}
use shlop.Interception.Order.{Ticket, ticket, committed, Moves}
use shlop.Interception.Steps.{Put, map-push, send_first-Put}
use shlop.Interception.Drain.{drain_busy, drain-Moves}

-- The place that a cursor holds, as a registration there.
abbrev pub at_cursor : ℕ × Str → InterceptorRegistration
at_cursor c = record { priority = c.0; component_name = []; connection_id = c.1 }

module _ {V C : Type 0} where
  -- From `h` to `h'` the publish with ticket `t` is committed next, or waits for an interceptor that
  -- comes after the place of `cursor`.
  unfoldable pub Advances : Harness V C → Ticket C → ℕ × Str → Harness V C → Type 0
  Advances h t cursor h' =
      ((rest : List (Ticket C)) × (committed h' ≡ committed h ++ t ∷ rest))
      ⊎ ((q : PendingIntercept V C) × ((h'.pending_intercept ≡ some q)
            × (ticket q.publish ≡ t)
            × Comes (at_cursor cursor) (at_cursor q.cursor)))

  -- What is committed next.
  Next : Harness V C → Ticket C → Harness V C → Type 0
  Next h t h' = (rest : List (Ticket C)) × (committed h' ≡ committed h ++ t ∷ rest)

  pushed_Next :
      (h : Harness V C) (p : DeferredPublish V C) (ts : List (Ticket C)) (h' : Harness V C)
      → Put (record h { commits = h.commits ++ p ∷ [] }) ts h'
      → Next h (ticket p) h'
  unfolding Put Next
  pushed_Next h p ts h' (cs, (c, u, d)) = (
    cs,
    c ∙ ap (λ k. k ++ cs) (map-push h.commits p) ∙ append_assoc (committed h) (ticket p ∷ []) cs,
  )

  commit_Next :
      (h : Harness V C) (p : DeferredPublish V C)
      → h.pending_intercept ≡ none
      → Next h (ticket p) (commit_event 1 h p)
  unfolding Next commit_event react_to_committed_event
  commit_Next h p idle =
      let pushed = record h { commits = h.commits ++ p ∷ [] } in
      elim (Bool-cases (folds_user_message p.event)) [
        | inr quiet ↦ rw quiet ([], map-push h.commits p)
        | inl message ↦
            rw message (elim (send_first-Put pushed h.pending_user_prompt_dispatches idle) [
              | inl alone ↦ pushed_Next h p [] _ alone
              | inr prompt ↦ pushed_Next h p _ _ prompt
            ])
      ]

  pub dispatch_publish_step-Advances :
      (h : Harness V C) (p : DeferredPublish V C) (cursor : ℕ × Str)
      → h.pending_intercept ≡ none
      → Advances h (ticket p) cursor (dispatch_publish_step h p (some cursor))
  unfolding Advances Next dispatch_publish_step dispatch_with Comes
  dispatch_publish_step-Advances h p cursor idle =
      elim (Option-cases (next_for h.interceptors p.event (some cursor))) [
        | inl e ↦ rw (dispatch_with, e) (inl (commit_Next h p idle))
        | inr (r, e) ↦
            rw (dispatch_with, e)
              (inr (
                record {
                  conn_id = r.connection_id;
                  publish = p;
                  cursor = (r.priority, r.connection_id);
                },
                (
                  refl,
                  refl,
                  past-Comes (at_cursor cursor) r
                      (next_for-past h.interceptors p.event (some cursor) r e),
                ),
              ))
      ]

  -- The loop on the deferred publishes keeps what a publish has reached.
  pub drained_Advances :
      (k : ℕ) (h : Harness V C) (t : Ticket C) (cursor : ℕ × Str) (h' : Harness V C)
      → length h'.deferred_publishes ≤ k
      → Advances h t cursor h'
      → Advances h t cursor (drain k h')
  unfolding Advances Moves
  drained_Advances k h t cursor h' enough (inr (q, (e, same, later))) =
      subst (Advances h t cursor) (sym (drain_busy k h' q e)) (inr (q, (e, same, later)))
  drained_Advances k h t cursor h' enough (inl (rest, c)) =
      let (s, (cs, (c', g))) = drain-Moves k h' enough in
      inl (rest ++ cs, c' ∙ ap (λ x. x ++ cs) c ∙ append_assoc (committed h) (t ∷ rest) cs)
