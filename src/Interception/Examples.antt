-- ===== src/Interception/Examples.antt =====
-- Tests and instances for the modules of Interception.
use shlop.Prelude.{any, map, false, ◌≡◌, refl, ℕ, true, false, not, none, some, [], ◌∷◌, ◌==◌}
use shlop.Prelude.Text.{text, str_eq, starts_with}
use shlop.Prelude.Map
use shlop.Proto.Category.{EventCategory, category_beq, as_str}
use shlop.Proto.Name.{EventName}
use shlop.Proto.Prefix.{matches_prefix}
use shlop.Proto.Event.{
  Event, event_name, other, ui_prompt_submitted, ui_navigate_tree, exact, prefix,
}
use shlop.Interception.Registry.{
  InterceptorRegistry, InterceptorRegistration, replace_for_connection, remove_connection, next_for,
  past, before, find_past,
}
use shlop.Interception.Publish.{
  Harness, DeferredPublish, PendingIntercept, pass, enqueue_publish, handle_intercept_reply,
  fail_pending_intercept_for_disconnect, advance_pending_intercept, drain_deferred_publishes, drain,
  dispatch_publish_step, commit_event, react_to_committed_event, send_first, folds_user_message,
  enqueue_with, dispatch_with, next_event,
}
use shlop.Interception.Chain.{next_for-remove_connection}
use shlop.Interception.Prompts.{Answers, commit_event-prompt_created}
use shlop.Interception.Order.{ticket, Settled, prompt_ticket}

abbrev empty_registry : InterceptorRegistry
empty_registry = record { exacts = []; prefixes = [] }

abbrev info : EventName
info = record { category = EventCategory.harness; call = text "info" }

abbrev info_event : Event ℕ
info_event = other info

-- `a` asks for all events of the harness with priority 1, `b` for the one event with priority 5.
abbrev two_interceptors : InterceptorRegistry
two_interceptors =
    replace_for_connection
      (replace_for_connection empty_registry (text "a") (text "first")
        (prefix (text "harness.") ∷ []) 1)
      (text "b") (text "second") (exact info ∷ []) 5

then_none : next_for two_interceptors info_event (some (5, text "b")) ≡ none
unfolding next_for replace_for_connection event_name before Map.get Map.insert find_past past
    matches_prefix category_beq as_str starts_with
then_none = refl

abbrev start : Harness ℕ ℕ
start = record {
  interceptors = two_interceptors;
  pending_intercept = none;
  deferred_publishes = [];
  requests = [];
  commits = [];
  conversations = text "c" ∷ [];
  pending_user_prompt_dispatches = [];
}

abbrev notice : DeferredPublish ℕ ℕ
notice = record {
  source = none;
  event = info_event;
  transient = false;
  must_pass = false;
  sync_head_for = some 1;
}

abbrev asked : Harness ℕ ℕ
asked = record start {
  requests = (text "b", info_event, false) ∷ [];
  pending_intercept =
      some (record { conn_id = text "b"; publish = notice; cursor = (5, text "b") });
}

start_asks : enqueue_publish start notice ≡ asked
unfolding enqueue_publish next_for replace_for_connection event_name before Map.get Map.insert
    find_past past category_beq
start_asks = refl

start-Settled : Settled start
start-Settled = record { idle = λ _. refl }

abbrev second : InterceptorRegistration
second = record { priority = 5; component_name = text "second"; connection_id = text "b" }

-- `b`, and after its reply an interceptor of the same priority, which registered in between.
abbrev third : InterceptorRegistration
third = record { priority = 5; component_name = text "third"; connection_id = text "c" }

abbrev three_interceptors : InterceptorRegistry
three_interceptors =
    replace_for_connection two_interceptors (text "c") (text "third") (exact info ∷ []) 5

abbrev first_only : InterceptorRegistration
first_only = record { priority = 1; component_name = text "first"; connection_id = text "a" }

first_is_left :
    next_for (remove_connection two_interceptors (text "b")) info_event none ≡ some first_only
unfolding next_for replace_for_connection event_name before Map.get Map.insert find_past past
    matches_prefix category_beq as_str starts_with
first_is_left = refl

next_for-remove_connection_instance : not (first_only.connection_id == text "b") ≡ true
next_for-remove_connection_instance =
    next_for-remove_connection two_interceptors (text "b") info_event none first_only first_is_left

-- A user's message waits for the reply of `b`, its conversation for the prompt, and a notice is
-- deferred.
abbrev prompt : DeferredPublish ℕ ℕ
prompt = record notice { event = ui_prompt_submitted (text "hello") }

abbrev parked_prompt : PendingIntercept ℕ ℕ
parked_prompt = record { conn_id = text "b"; publish = prompt; cursor = (5, text "b") }

abbrev with_prompt : Harness ℕ ℕ
with_prompt = record start {
  pending_intercept = some parked_prompt;
  deferred_publishes = record notice { event = ui_navigate_tree 3 } ∷ [];
  pending_user_prompt_dispatches = text "c" ∷ [];
}

-- The prompt is committed before the deferred publish.
prompt_comes_first :
    map ticket (handle_intercept_reply with_prompt (text "b") (pass none)).commits
    ≡ ticket prompt ∷ prompt_ticket ∷ ticket (record notice { event = ui_navigate_tree 3 }) ∷ []
unfolding handle_intercept_reply advance_pending_intercept drain_deferred_publishes drain
    dispatch_publish_step commit_event react_to_committed_event send_first folds_user_message
    enqueue_with dispatch_with next_event next_for replace_for_connection event_name before Map.get
    Map.insert find_past past matches_prefix category_beq as_str starts_with
prompt_comes_first = refl

abbrev after_reply : Harness ℕ ℕ
after_reply = handle_intercept_reply with_prompt (text "b") (pass none)

abbrev after_disconnect : Harness ℕ ℕ
after_disconnect = fail_pending_intercept_for_disconnect with_prompt (text "b")

-- The same state after the reply, which commits the message.
abbrev replied : Harness ℕ ℕ
replied = record with_prompt { pending_intercept = none }

conversation_there : any (λ c. c == text "c") replied.conversations ≡ true
conversation_there = refl

prompt_folds : folds_user_message prompt.event ≡ true
unfolding folds_user_message
prompt_folds = refl

commit_event-prompt_created_example :
    Answers replied (ticket prompt ∷ prompt_ticket ∷ []) [] (commit_event 3 replied prompt)
commit_event-prompt_created_example =
    commit_event-prompt_created 2 replied prompt (text "c") [] refl prompt_folds refl
      conversation_there
