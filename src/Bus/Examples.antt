-- ===== src/Bus/Examples.antt =====
-- Tests and instances for the modules of Bus. A sink here is the number of frames it still takes.
use shlop.Prelude.{
  ◌≡◌, refl, ℕ, zero, suc, ◌+◌, true, false, ◌&&◌, Option, none, some, List, [], ◌∷◌, length,
  if◌then◌else◌, ◌==◌,
}
use shlop.Prelude.Text.{Str, text, str_eq, starts_with}
use shlop.Prelude.Map
use shlop.Prelude.Map.{Map}
use shlop.Proto.Category.{EventCategory, as_str, from_wire}
use shlop.Proto.Name.{EventName, split_once}
use shlop.Proto.Prefix.{matches_prefix}
use shlop.Proto.Event.{event_name, other, Frame, event, EventSelector, prefix, ClientKind}
use shlop.Bus.Connection.{
  socket, ConnectionMetadata, RoutedFrame, ConnectionEntry, EventBus, subscriptions,
  set_subscriptions, matches,
}
use shlop.Bus.Routing.{routed_frame, publish_from, send_to, publish_one}
use shlop.Bus.Reports.{report_of, sent, publish_from-eq, length-publish_from}
use shlop.Bus.Subscriptions.{no_error, subscriptions-set_subscriptions, send_to_keeps_others}
use shlop.Bus.Policy.{
  selector_allowed, category_allowed, SubscriptionApproval, PolicyStore, DefaultSubscriptionPolicy,
  evaluate, record_new, holds_approval,
}
use shlop.Bus.Reach.{evaluate-matches_prefix}
use shlop.Bus.Approvals.{record_new-written, record_new_unwritten}

abbrev send : ℕ → RoutedFrame ℕ → Option Str × ℕ
send zero r = (some (text "full"), zero)
send (suc n) r = (none, n)

abbrev client : Str → ConnectionMetadata
client id = record { id = id; name = text "client"; kind = ClientKind.ui; origin = socket }

abbrev taking : Str → ℕ → ConnectionEntry ℕ ℕ
taking id n = record {
  metadata = client id;
  sink = n;
  visibility_filter = λ _. true;
  subscriptions = prefix (text "harness.") ∷ [];
}

abbrev bus : EventBus ℕ ℕ DefaultSubscriptionPolicy
bus = record {
  next_connection_id = 0;
  connections = (text "a", taking (text "a") 1) ∷ (text "b", taking (text "b") 0) ∷ [];
  subscription_policy = record { store = none };
}

abbrev info_frame : Frame ℕ
info_frame = event (other (record { category = EventCategory.harness; call = text "info" }))

one_each : (publish_from send bus none info_frame).0 ≡ record {
  delivered_to = text "a" ∷ [];
  blocked_by_filter = [];
  skipped_by_subscription = [];
  failed_deliveries = record { connection_id = text "b"; error = text "full" } ∷ [];
}
unfolding publish_from publish_one matches event_name matches_prefix as_str starts_with
one_each = refl

publish_from-eq_example : publish_from send bus none info_frame ≡ (
  report_of send (routed_frame none info_frame) bus.connections,
  record bus { connections = sent send (routed_frame none info_frame) bus.connections },
)
publish_from-eq_example = publish_from-eq send bus none info_frame

length-publish_from_instance :
    let report = (publish_from send bus none info_frame).0 in
    length report.delivered_to
      + length report.blocked_by_filter
      + length report.skipped_by_subscription
      + length report.failed_deliveries
    ≡ 2
length-publish_from_instance = length-publish_from send bus none info_frame

abbrev encode : List SubscriptionApproval → Str
encode approvals = length approvals ∷ []

abbrev policy :
    DefaultSubscriptionPolicy
    → ConnectionMetadata
    → List EventSelector
    → Option Str × DefaultSubscriptionPolicy
policy = evaluate encode (text "no space") [] true

subscriptions-set_subscriptions_instance :
    let (error, b') = set_subscriptions policy bus (text "a") [] in
    subscriptions b' (text "a")
    ≡ (if no_error error && text "a" == text "a" then some [] else subscriptions bus (text "a"))
subscriptions-set_subscriptions_instance =
    subscriptions-set_subscriptions policy bus (text "a") [] (text "a")

send_to_keeps_others_instance :
    Map.get (send_to send bus (text "a") none info_frame).1.connections (text "b")
    ≡ some (taking (text "b") 0)
unfolding Map.get
send_to_keeps_others_instance =
    send_to_keeps_others send bus (text "a") none info_frame (text "b") refl

abbrev approval : SubscriptionApproval
approval = record { connection_name = text "client"; connection_origin = socket; selectors = [] }

abbrev no_approvals : PolicyStore
no_approvals = record { file = 0 ∷ []; approvals = [] }

record_new-written_example :
    let (error, s') = record_new encode (text "no space") [] true no_approvals approval in
    (error ≡ none) × (s'.file ≡ encode s'.approvals) × (holds_approval s' approval ≡ true)
record_new-written_example =
    record_new-written encode (text "no space") [] no_approvals approval refl

record_new_unwritten_instance :
    let (error, s') = record_new encode (text "no space") [] false no_approvals approval in
    (error ≡ some (text "no space"))
    × (record_new encode (text "no space") [] true s' approval ≡ (none, s'))
    × (s'.file ≡ [])
unfolding holds_approval
record_new_unwritten_instance =
    record_new_unwritten encode (text "no space") [] no_approvals approval true refl

abbrev tool_name : EventName
tool_name = record { category = EventCategory.tool; call = text "result" }

evaluate-matches_prefix_example : category_allowed tool_name.category ≡ true
unfolding evaluate split_once matches_prefix as_str starts_with from_wire
evaluate-matches_prefix_example =
    evaluate-matches_prefix encode (text "no space") [] true (record { store = none })
      (client (text "a")) (prefix (text "tool.re") ∷ []) 0 (text "tool.re") (text "tool")
      (text "re") tool_name refl refl refl refl refl refl refl

-- A prefix without a dot that is accepted, and an event of no known category that it matches.
abbrev toolbox_name : EventName
toolbox_name = record { category = EventCategory.other (text "toolbox"); call = text "open" }

bare_prefix_allowed : selector_allowed (prefix (text "tool")) ≡ true
unfolding selector_allowed split_once from_wire
bare_prefix_allowed = refl

bare_prefix_reaches_other :
    (matches_prefix toolbox_name (text "tool") ≡ true)
    × (category_allowed toolbox_name.category ≡ false)
unfolding matches_prefix as_str starts_with
bare_prefix_reaches_other = (refl, refl)
