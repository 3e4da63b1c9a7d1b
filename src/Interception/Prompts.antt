-- ===== src/Interception/Prompts.antt =====
-- The prompt that the commit of a user's message brings (`react_to_committed_event` of
-- crates/tau-harness/src/harness.rs).
use shlop.Prelude.{◌≡◌, refl, sym, subst, ℕ, suc, true, none, List, [], ◌∷◌, ◌++◌, any, ◌==◌}
use shlop.Prelude.Text.{Str, str_eq}
use shlop.Interception.Publish.{
  DeferredPublish, Harness, folds_user_message, prompt_created, enqueue_with, send_first,
  react_to_committed_event, commit_event,
}
use shlop.Interception.Order.{Ticket, ticket, prompt_ticket}
use shlop.Interception.Steps.{Put, dispatch_elim, enqueue_idle, prompt_Put, after_push_Put}
use shlop.Interception.Depth.{commit_event_enough}

module _ {V C : Type 0} where
  prompt_keeps_dispatches :
      (h : Harness V C)
      → h.pending_intercept ≡ none
      → (enqueue_with (commit_event 0) h prompt_created).pending_user_prompt_dispatches
        ≡ h.pending_user_prompt_dispatches
  unfolding commit_event
  prompt_keeps_dispatches h idle =
      subst (λ x. x.pending_user_prompt_dispatches ≡ h.pending_user_prompt_dispatches)
        (sym (enqueue_idle (commit_event 0) h prompt_created idle))
        (dispatch_elim (commit_event 0) h prompt_created none
          (λ x. x.pending_user_prompt_dispatches ≡ h.pending_user_prompt_dispatches) refl
          (λ r asked same. refl))

  -- The publishes `ts` were put behind the commits, and the conversations `cids` wait for a prompt.
  unfoldable pub Answers : Harness V C → List (Ticket C) → List Str → Harness V C → Type 0
  Answers h ts cids h' = Put h ts h' × (h'.pending_user_prompt_dispatches ≡ cids)

  first_Answers :
      (h : Harness V C) (cid : Str) (cids : List Str)
      → h.pending_intercept ≡ none
      → any (λ c. c == cid) h.conversations ≡ true
      → Answers h
          (prompt_ticket ∷ [])
          cids
          (send_first (enqueue_with (commit_event 0)) h (cid ∷ cids))
  unfolding send_first Answers Put
  first_Answers h cid cids idle there =
      let taken = record h { pending_user_prompt_dispatches = cids } in
      rw there (prompt_Put taken idle, prompt_keeps_dispatches taken idle)

  once_Answers :
      (h : Harness V C) (p : DeferredPublish V C) (cid : Str) (cids : List Str)
      → h.pending_intercept ≡ none
      → folds_user_message p.event ≡ true
      → h.pending_user_prompt_dispatches ≡ cid ∷ cids
      → any (λ c. c == cid) h.conversations ≡ true
      → Answers h (ticket p ∷ prompt_ticket ∷ []) cids (commit_event 1 h p)
  unfolding commit_event react_to_committed_event Answers
  once_Answers h p cid cids idle message waits there =
      let pushed = record h { commits = h.commits ++ p ∷ [] } in
      rw message (
        subst
          (λ ds.
            Answers h (ticket p ∷ prompt_ticket ∷ []) cids
              (send_first (enqueue_with (commit_event 0)) pushed ds))
          (sym waits)
          (let (put, rest) = first_Answers pushed cid cids idle there in
            (after_push_Put h p (prompt_ticket ∷ []) _ put, rest)))

  -- When a user's message is committed and a conversation that still exists is the first one that
  -- waits for a prompt, the prompt comes directly after the message, as a commit or as the publish
  -- that waits for a reply, before everything that is deferred, and that conversation waits no more;
  -- however deep reactions to reactions are followed.
  pub commit_event-prompt_created :
      (n : ℕ) (h : Harness V C) (p : DeferredPublish V C) (cid : Str) (cids : List Str)
      → h.pending_intercept ≡ none
      → folds_user_message p.event ≡ true
      → h.pending_user_prompt_dispatches ≡ cid ∷ cids
      → any (λ c. c == cid) h.conversations ≡ true
      → Answers h (ticket p ∷ prompt_ticket ∷ []) cids (commit_event (suc n) h p)
  commit_event-prompt_created n h p cid cids idle message waits there =
      subst (Answers h (ticket p ∷ prompt_ticket ∷ []) cids) (sym (commit_event_enough n h p))
        (once_Answers h p cid cids idle message waits there)
