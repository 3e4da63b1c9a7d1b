-- ===== src/Interception/Order.antt =====
-- The publish queue as an abstract queue: what is committed from here on, what waits for a reply, and
-- what was deferred, in this order. The prompt that the commit of a user's message brings is the only
-- publish that enters at another place than the end.
use shlop.Prelude.{
  ◌≡◌, refl, Bool, true, false, not, ◌||◌, Option, none, some, List, [], ◌∷◌, ◌++◌, map, any, ◌==◌,
}
use shlop.Prelude.Text.{Str, text, str_eq}
use shlop.Proto.Category.{EventCategory, category_beq}
use shlop.Proto.Name.{EventName, name_eq}
use shlop.Proto.Event.{
  Event, event_name, ui_prompt_submitted, session_user_message_injected, session_prompt_steered,
  agent_response_finished, tool_request, tool_invoke, tool_result, tool_error, ui_navigate_tree,
  other,
}
use shlop.Interception.Publish.{
  DeferredPublish, PendingIntercept, InterceptAction, pass, drop, Harness, name_of,
  must_pass_default, folds_user_message,
}

-- What no interceptor may change of a publish.
pub record Ticket (C : Type 0) : Type 0 where
  pub source : Option Str
  pub name : EventName
  pub transient : Bool
  pub must_pass : Bool
  pub sync_head_for : Option C

-- The names of the events that carry a user's message.
unfoldable pub is_user_message : EventName → Bool
is_user_message n =
    any (λ k. k == n)
      (name_of EventCategory.ui (text "prompt_submitted")
        ∷ name_of EventCategory.session (text "user_message_injected")
        ∷ name_of EventCategory.session (text "prompt_steered")
        ∷ [])

pub folds_name :
    {V : Type 0} (e : Event V) → folds_user_message e ≡ true → is_user_message (event_name e) ≡ true
unfolding folds_user_message is_user_message event_name category_beq
folds_name (ui_prompt_submitted _) h = refl
folds_name (session_user_message_injected _) h = refl
folds_name (session_prompt_steered _) h = refl
folds_name (agent_response_finished _) h = cc
folds_name (tool_request _) h = cc
folds_name (tool_invoke _) h = cc
folds_name (tool_result _) h = cc
folds_name (tool_error _) h = cc
folds_name (ui_navigate_tree _) h = cc
folds_name (other _) h = cc

-- The ticket of `session.prompt_created`.
abbrev pub prompt_ticket : {C : Type 0} → Ticket C
prompt_ticket = record {
  source = none;
  name = name_of EventCategory.session (text "prompt_created");
  transient = false;
  must_pass = false;
  sync_head_for = none;
}

-- The second list is the first one with the prompt put in directly after some of the users' messages.
pub data Grows {C : Type 0} : List (Ticket C) → List (Ticket C) → Type 0 where
  done : Grows [] []
  kept : {ts us : List (Ticket C)} (t : Ticket C) → Grows ts us → Grows (t ∷ ts) (t ∷ us)
  answered :
      {ts us : List (Ticket C)} (t : Ticket C)
      → is_user_message t.name ≡ true
      → Grows ts us
      → Grows (t ∷ ts) (t ∷ prompt_ticket ∷ us)

module _ {C : Type 0} where
  pub Grows_refl : (ts : List (Ticket C)) → Grows ts ts
  Grows_refl [] = done
  Grows_refl (t ∷ ts) = kept t (Grows_refl ts)

  pub Grows-append :
      {ts us vs ws : List (Ticket C)} → Grows ts us → Grows vs ws → Grows (ts ++ vs) (us ++ ws)
  Grows-append done h = h
  Grows-append (kept t g) h = kept t (Grows-append g h)
  Grows-append (answered t m g) h = answered t m (Grows-append g h)

module _ {V C : Type 0} where
  abbrev pub ticket : DeferredPublish V C → Ticket C
  ticket p = record {
    source = p.source;
    name = event_name p.event;
    transient = p.transient;
    must_pass = p.must_pass;
    sync_head_for = p.sync_head_for;
  }

  abbrev pub waiting : Option (PendingIntercept V C) → List (Ticket C)
  waiting none = []
  waiting (some q) = ticket q.publish ∷ []

  -- What waits for a reply and what was deferred.
  abbrev pub queued : Harness V C → List (Ticket C)
  queued h = waiting h.pending_intercept ++ map ticket h.deferred_publishes

  abbrev pub committed : Harness V C → List (Ticket C)
  committed h = map ticket h.commits

  -- Nothing is deferred while no reply is awaited.
  pub record Settled (h : Harness V C) : Type 0 where
    pub idle : h.pending_intercept ≡ none → h.deferred_publishes ≡ []

  -- The harness goes on from `h` to a settled `h'`: the queue `ts` is committed in part and waits in
  -- part, in its order, prompts put in after users' messages; no commit before it changes.
  unfoldable pub Moves : Harness V C → List (Ticket C) → Harness V C → Type 0
  Moves h ts h' =
      Settled h'
      × ((cs : List (Ticket C)) × ((committed h' ≡ committed h ++ cs) × Grows ts (cs ++ queued h')))

  -- Whether a reply takes the pending publish out of the queue.
  abbrev pub drops : DeferredPublish V C → InterceptAction V → Bool
  drops p (pass _) = false
  drops p drop = not (p.must_pass || must_pass_default (event_name p.event))
