-- ===== src/Interception/Publish.antt =====
-- The publish queue of crates/tau-harness/src/harness/interception.rs. `V` stands for
-- `CborValue`, `C` for `ConversationHeadSync`.
-- `commits` lists the calls of `commit_event` (harness.rs), oldest first, and `requests` the
-- interception requests that were sent. Of a commit, what `react_to_committed_event` publishes is
-- modelled; the log, the session tree and the bus are not part of this state, and of the prompt that
-- `send_prompt_to_agent_for` builds only its publish is.
use shlop.Prelude.{
  ℕ, zero, suc, Bool, true, false, length, ◌||◌, Option, none, some, List, [], ◌∷◌, ◌++◌,
  if◌then◌else◌, any, ◌==◌,
}
use shlop.Prelude.Text.{Str, text, str_eq}
use shlop.Proto.Category.{EventCategory}
use shlop.Proto.Name.{EventName, name_eq}
use shlop.Proto.Event.{
  Event, event_name, ui_prompt_submitted, session_user_message_injected, session_prompt_steered,
  other,
}
use shlop.Interception.Registry.{InterceptorRegistry, next_for}

-- `DeferredPublish`, and what `PendingIntercept` has of it.
pub record DeferredPublish (V C : Type 0) : Type 0 where
  pub source : Option Str
  pub event : Event V
  pub transient : Bool
  pub must_pass : Bool
  pub sync_head_for : Option C

pub record PendingIntercept (V C : Type 0) : Type 0 where
  pub conn_id : Str
  pub publish : DeferredPublish V C
  pub cursor : ℕ × Str

pub data InterceptAction (V : Type 0) : Type 0 where
  pass : Option (Event V) → InterceptAction V
  drop : InterceptAction V

pub record Harness (V C : Type 0) : Type 0 where
  pub interceptors : InterceptorRegistry
  pub pending_intercept : Option (PendingIntercept V C)
  pub deferred_publishes : List (DeferredPublish V C)
  pub requests : List (Str × Event V × Bool)
  pub commits : List (DeferredPublish V C)
  -- The keys of `conversations`, which decide whether a prompt is sent.
  pub conversations : List Str
  pub pending_user_prompt_dispatches : List Str

abbrev pub name_of : EventCategory → Str → EventName
name_of category call = record { category = category; call = call }

abbrev pub must_pass_by_default : List EventName
must_pass_by_default =
    name_of EventCategory.ui (text "prompt_submitted")
    ∷ name_of EventCategory.session (text "user_message_injected")
    ∷ name_of EventCategory.session (text "prompt_steered")
    ∷ name_of EventCategory.session (text "prompt_created")
    ∷ name_of EventCategory.agent (text "response_finished")
    ∷ name_of EventCategory.tool (text "result")
    ∷ name_of EventCategory.tool (text "error")
    ∷ []

-- `MUST_PASS_BY_DEFAULT.contains(name)`
unfoldable pub must_pass_default : EventName → Bool
must_pass_default name = any (λ n. n == name) must_pass_by_default

-- The events that `react_to_committed_event` reacts to.
unfoldable pub folds_user_message : {V : Type 0} → Event V → Bool
folds_user_message (ui_prompt_submitted _) = true
folds_user_message (session_user_message_injected _) = true
folds_user_message (session_prompt_steered _) = true
folds_user_message e = false

module _ {V C : Type 0} where
  -- What `send_prompt_to_agent_for` publishes.
  abbrev pub prompt_created : DeferredPublish V C
  prompt_created = record {
    source = none;
    event = other (name_of EventCategory.session (text "prompt_created"));
    transient = false;
    must_pass = false;
    sync_head_for = none;
  }

  -- A step of the chain, where `commit` is `commit_event`.
  unfoldable pub dispatch_with :
      (Harness V C → DeferredPublish V C → Harness V C)
      → Harness V C
      → DeferredPublish V C
      → Option (ℕ × Str)
      → Harness V C
  dispatch_with commit h p cursor = elim (next_for h.interceptors p.event cursor) [
    | some r ↦ record h {
      requests = h.requests ++ (r.connection_id, p.event, p.transient) ∷ [];
      pending_intercept = some (record {
        conn_id = r.connection_id;
        publish = p;
        cursor = (r.priority, r.connection_id);
      });
    }
    | none ↦ commit h p
  ]

  unfoldable pub enqueue_with :
      (Harness V C → DeferredPublish V C → Harness V C)
      → Harness V C
      → DeferredPublish V C
      → Harness V C
  unfolding dispatch_with
  enqueue_with commit h p = elim h.pending_intercept [
    | some _ ↦ record h { deferred_publishes = h.deferred_publishes ++ p ∷ [] }
    | none ↦ dispatch_with commit h p none
  ]

  -- `react_to_committed_event` on the event of a user's message: the first conversation that waits
  -- gets its prompt, unless it is gone.
  unfoldable pub send_first :
      (Harness V C → DeferredPublish V C → Harness V C) → Harness V C → List Str → Harness V C
  send_first enqueue h [] = h
  send_first enqueue h (cid ∷ cids) =
      let taken = record h { pending_user_prompt_dispatches = cids } in
      if any (λ c. c == cid) h.conversations then enqueue taken prompt_created else taken

  unfoldable pub react_to_committed_event :
      (Harness V C → DeferredPublish V C → Harness V C) → Harness V C → Event V → Harness V C
  unfolding send_first
  react_to_committed_event enqueue h e =
      if folds_user_message e then send_first enqueue h h.pending_user_prompt_dispatches else h

  -- `commit_event`, by recursion on the number of reactions inside one another. The prompt that a
  -- reaction publishes starts no other one, so that one is enough.
  unfoldable pub commit_event : ℕ → Harness V C → DeferredPublish V C → Harness V C
  unfolding enqueue_with react_to_committed_event
  commit_event zero h p = record h { commits = h.commits ++ p ∷ [] }
  commit_event (suc n) h p =
      react_to_committed_event (enqueue_with (commit_event n))
        (record h { commits = h.commits ++ p ∷ [] }) p.event

  unfoldable pub dispatch_publish_step :
      Harness V C → DeferredPublish V C → Option (ℕ × Str) → Harness V C
  unfolding dispatch_with commit_event
  dispatch_publish_step = dispatch_with (commit_event 1)

  unfoldable pub enqueue_publish : Harness V C → DeferredPublish V C → Harness V C
  unfolding enqueue_with commit_event
  enqueue_publish = enqueue_with (commit_event 1)

  -- The event that goes on after a reply, if any does.
  unfoldable pub next_event : DeferredPublish V C → InterceptAction V → Option (Event V)
  next_event p (pass none) = some p.event
  next_event p (pass (some e)) = if event_name e == event_name p.event then some e else some p.event
  next_event p drop =
      if p.must_pass || must_pass_default (event_name p.event) then some p.event else none

  unfoldable pub advance_pending_intercept :
      Harness V C → PendingIntercept V C → InterceptAction V → Harness V C
  unfolding next_event dispatch_publish_step
  advance_pending_intercept h q action = elim (next_event q.publish action) [
    | none ↦ h
    | some e ↦ dispatch_publish_step h (record q.publish { event = e }) (some q.cursor)
  ]

  -- The loop of `drain_deferred_publishes`. A step does not defer, so that there are no more rounds
  -- than publishes.
  unfoldable pub drain : ℕ → Harness V C → Harness V C
  unfolding dispatch_publish_step
  drain zero h = h
  drain (suc rounds) h = elim h.pending_intercept [
    | some _ ↦ h
    | none ↦ elim h.deferred_publishes [
      | [] ↦ h
      | p ∷ ps ↦ drain rounds (dispatch_publish_step (record h { deferred_publishes = ps }) p none)
    ]
  ]

  unfoldable pub drain_deferred_publishes : Harness V C → Harness V C
  unfolding drain
  drain_deferred_publishes h = drain (length h.deferred_publishes) h

  -- Takes the pending intercept off, acts on it, and goes on with the queue.
  abbrev pub resolve : Harness V C → PendingIntercept V C → InterceptAction V → Harness V C
  resolve h q action =
      drain_deferred_publishes
        (advance_pending_intercept (record h { pending_intercept = none }) q action)

  unfoldable pub handle_intercept_reply : Harness V C → Str → InterceptAction V → Harness V C
  unfolding advance_pending_intercept drain_deferred_publishes
  handle_intercept_reply h conn action = elim h.pending_intercept [
    | none ↦ h
    | some q ↦ let resolved = resolve h q action in if q.conn_id == conn then resolved else h
  ]

  unfoldable pub fail_pending_intercept_for_disconnect : Harness V C → Str → Harness V C
  unfolding advance_pending_intercept drain_deferred_publishes
  fail_pending_intercept_for_disconnect h conn = elim h.pending_intercept [
    | none ↦ h
    | some q ↦ let resolved = resolve h q (pass none) in if q.conn_id == conn then resolved else h
  ]
