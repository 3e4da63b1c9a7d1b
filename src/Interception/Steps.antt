-- ===== src/Interception/Steps.antt =====
-- One step of the publish queue: what is committed, and what waits afterwards.
use shlop.Prelude.{
  ◌≡◌, refl, sym, ap, ◌∙◌, ℕ, Bool, Bool-cases, Option-cases, ◌⊎◌, inl, inr, Option, none, some,
  List, [], ◌∷◌, ◌++◌, append_assoc, append-nil, map, any, ◌==◌,
}
use shlop.Prelude.Text.{Str, str_eq}
use shlop.Proto.Event.{Event, event_name}
use shlop.Interception.Registry.{next_for}
use shlop.Interception.Publish.{
  DeferredPublish, PendingIntercept, Harness, folds_user_message, prompt_created, dispatch_with,
  enqueue_with, send_first, react_to_committed_event, commit_event, dispatch_publish_step,
}
use shlop.Interception.Order.{
  Ticket, ticket, waiting, committed, prompt_ticket, Grows, kept, answered, done, folds_name,
}

module _ {V C : Type 0} where
  pub map-push :
      (ps : List (DeferredPublish V C)) (p : DeferredPublish V C)
      → map ticket (ps ++ p ∷ []) ≡ map ticket ps ++ ticket p ∷ []
  map-push [] p = refl
  map-push (q ∷ ps) p = ap (◌∷◌ (ticket q)) (map-push ps p)

  -- What was committed and what waits afterwards, the deferred publishes left alone.
  unfoldable pub Put : Harness V C → List (Ticket C) → Harness V C → Type 0
  Put h ts h' =
      (cs : List (Ticket C)) × ((committed h' ≡ committed h ++ cs)
        × (cs ++ waiting h'.pending_intercept ≡ ts)
        × (h'.deferred_publishes ≡ h.deferred_publishes))

  pub dispatch_elim :
      (commit : Harness V C → DeferredPublish V C → Harness V C) (h : Harness V C)
      (p : DeferredPublish V C) (cursor : Option (ℕ × Str)) (R : Harness V C → Type 0)
      → R (commit h p)
      → ((r : PendingIntercept V C) (asked : List (Str × Event V × Bool))
          → r.publish ≡ p
          → R (record h { requests = asked; pending_intercept = some r }))
      → R (dispatch_with commit h p cursor)
  unfolding dispatch_with
  dispatch_elim commit h p cursor R c park =
      elim (Option-cases (next_for h.interceptors p.event cursor)) [
        | inl e ↦ rw (dispatch_with, e) c
        | inr (r, e) ↦ rw (dispatch_with, e) (park _ _ refl)
      ]

  park_Put :
      (h : Harness V C) (p : DeferredPublish V C) (r : PendingIntercept V C)
      (asked : List (Str × Event V × Bool))
      → r.publish ≡ p
      → Put h (ticket p ∷ []) (record h { requests = asked; pending_intercept = some r })
  unfolding Put
  park_Put h p r asked same =
      ([], (sym (append-nil (committed h)), ap (λ x. ticket x ∷ []) same, refl))

  push_Put :
      (h : Harness V C) (p : DeferredPublish V C)
      → h.pending_intercept ≡ none
      → Put h (ticket p ∷ []) (record h { commits = h.commits ++ p ∷ [] })
  unfolding Put
  push_Put h p idle =
      (ticket p ∷ [], (map-push h.commits p, ap (λ o. ticket p ∷ waiting o) idle, refl))

  pub enqueue_idle :
      (commit : Harness V C → DeferredPublish V C → Harness V C) (h : Harness V C)
      (p : DeferredPublish V C)
      → h.pending_intercept ≡ none
      → enqueue_with commit h p ≡ dispatch_with commit h p none
  unfolding enqueue_with
  enqueue_idle commit h p e =
      rw (enqueue_with, e)
        (ap (λ o. dispatch_with commit (record h { pending_intercept = o }) p none) e)

  -- The prompt of a reaction.
  pub prompt_Put :
      (h : Harness V C)
      → h.pending_intercept ≡ none
      → Put h (prompt_ticket ∷ []) (enqueue_with (commit_event 0) h prompt_created)
  unfolding commit_event event_name
  prompt_Put h idle = rw (enqueue_idle (commit_event 0) h prompt_created idle) (
      dispatch_elim (commit_event 0) h prompt_created none (Put h (prompt_ticket ∷ []))
        (push_Put h prompt_created idle) (park_Put h prompt_created))

  nothing_Put : (h : Harness V C) → h.pending_intercept ≡ none → Put h [] h
  unfolding Put
  nothing_Put h idle = ([], (sym (append-nil (committed h)), ap waiting idle, refl))

  pub send_first-Put :
      (h : Harness V C) (cids : List Str)
      → h.pending_intercept ≡ none
      → Put h [] (send_first (enqueue_with (commit_event 0)) h cids)
        ⊎ Put h (prompt_ticket ∷ []) (send_first (enqueue_with (commit_event 0)) h cids)
  unfolding send_first Put
  send_first-Put h [] idle = inl (nothing_Put h idle)
  send_first-Put h (cid ∷ cids) idle = elim (Bool-cases (any (λ c. c == cid) h.conversations)) [
    | inl there ↦
        rw there (inr (prompt_Put (record h { pending_user_prompt_dispatches = cids }) idle))
    | inr gone ↦
        rw gone (inl (nothing_Put (record h { pending_user_prompt_dispatches = cids }) idle))
  ]

  pub after_push_Put :
      (h : Harness V C) (p : DeferredPublish V C) (ts : List (Ticket C)) (h' : Harness V C)
      → Put (record h { commits = h.commits ++ p ∷ [] }) ts h'
      → Put h (ticket p ∷ ts) h'
  unfolding Put
  after_push_Put h p ts h' (cs, (c, u, d)) = (
    ticket p ∷ cs,
    (
      c ∙ ap (λ k. k ++ cs) (map-push h.commits p) ∙ append_assoc (committed h) (ticket p ∷ []) cs,
      ap (◌∷◌ (ticket p)) u,
      d,
    ),
  )

  -- A step of publish `p`: it is committed or waits, and after a user's message its prompt does.
  unfoldable pub Puts : Harness V C → DeferredPublish V C → Harness V C → Type 0
  Puts h p h' = (ts : List (Ticket C)) × (Grows (ticket p ∷ []) ts × Put h ts h')

  commit_Puts :
      (h : Harness V C) (p : DeferredPublish V C)
      → h.pending_intercept ≡ none
      → Puts h p (commit_event 1 h p)
  unfolding Puts commit_event react_to_committed_event
  commit_Puts h p idle =
      let pushed = record h { commits = h.commits ++ p ∷ [] } in
      elim (Bool-cases (folds_user_message p.event)) [
        | inr quiet ↦ rw quiet (ticket p ∷ [], (kept (ticket p) done, push_Put h p idle))
        | inl message ↦
            rw message (elim (send_first-Put pushed h.pending_user_prompt_dispatches idle) [
              | inl alone ↦ (ticket p ∷ [], (kept (ticket p) done, after_push_Put h p [] _ alone))
              | inr prompt ↦ (
                ticket p ∷ prompt_ticket ∷ [],
                (
                  answered (ticket p) (folds_name p.event message) done,
                  after_push_Put h p (prompt_ticket ∷ []) _ prompt,
                ),
              )
            ])
      ]

  pub dispatch_publish_step-Puts :
      (h : Harness V C) (p : DeferredPublish V C) (cursor : Option (ℕ × Str))
      → h.pending_intercept ≡ none
      → Puts h p (dispatch_publish_step h p cursor)
  unfolding dispatch_publish_step Puts
  dispatch_publish_step-Puts h p cursor idle =
      dispatch_elim (commit_event 1) h p cursor (Puts h p) (commit_Puts h p idle)
        (λ r asked same. (ticket p ∷ [], (kept (ticket p) done, park_Put h p r asked same)))
