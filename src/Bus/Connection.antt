-- ===== src/Bus/Connection.antt =====
-- The types of crates/tau-core/src/connection.rs, and the bus of crates/tau-core/src/bus.rs with
-- its operations on connections and subscriptions.
-- `V` stands for `CborValue`. A sink is a state `S`, a policy a state `P`; the trait methods
-- `ConnectionSink::send` and `SubscriptionPolicy::evaluate` are arguments of what calls them.
-- The connections stand in one order where `HashMap` has an arbitrary one.
use mathlib.Core.Option
use shlop.Prelude.{
  ℕ, zero, suc, ◌+◌, ◌/◌, ◌%◌, Bool, false, Option, none, some, List, [], ◌∷◌, ◌++◌, if◌then◌else◌,
  any, is_empty, ltb, ◌==◌,
}
use shlop.Prelude.Text.{Str, text, str_eq}
use shlop.Prelude.Map
use shlop.Prelude.Map.{Map}
use shlop.Proto.Name.{name_eq}
use shlop.Proto.Prefix.{matches_prefix}
use shlop.Proto.Event.{
  Event, event_name, EventSelector, exact, prefix, ClientKind, Frame, message, event, log_event,
  intercept_request, control,
}

pub data ConnectionOrigin : Type 0 where
  supervised socket in_memory : ConnectionOrigin

pub record ConnectionMetadata : Type 0 where
  pub id : Str
  pub name : Str
  pub kind : ClientKind
  pub origin : ConnectionOrigin

pub record RoutedFrame (V : Type 0) : Type 0 where
  pub source_id : Option Str
  pub frame : Frame V

pub record DeliveryFailure : Type 0 where
  pub connection_id : Str
  pub error : Str

pub record RouteReport : Type 0 where
  pub delivered_to : List Str
  pub blocked_by_filter : List Str
  pub skipped_by_subscription : List Str
  pub failed_deliveries : List DeliveryFailure

abbrev pub empty_report : RouteReport
empty_report = record {
  delivered_to = [];
  blocked_by_filter = [];
  skipped_by_subscription = [];
  failed_deliveries = [];
}

pub data RouteError : Type 0 where
  unknown_connection : Str → RouteError
  subscription_denied : Str → Str → RouteError

-- What is registered with the bus.
pub record Connection (V S : Type 0) : Type 0 where
  pub metadata : ConnectionMetadata
  pub sink : S
  pub visibility_filter : RoutedFrame V → Bool

-- `subscriptions` is the vector of a `SubscriptionSet`.
pub record ConnectionEntry (V S : Type 0) : Type 0 where
  pub metadata : ConnectionMetadata
  pub sink : S
  pub visibility_filter : RoutedFrame V → Bool
  pub subscriptions : List EventSelector

pub record EventBus (V S P : Type 0) : Type 0 where
  pub next_connection_id : ℕ
  pub connections : Map Str (ConnectionEntry V S)
  pub subscription_policy : P

abbrev pub selects : {V : Type 0} → EventSelector → Event V → Bool
selects (exact n) e = n == event_name e
selects (prefix p) e = matches_prefix (event_name e) p

unfoldable pub selector_matches : {V : Type 0} → EventSelector → Frame V → Bool
selector_matches s (message (log_event _ _ e)) = selects s e
selector_matches s (message (intercept_request _ _)) = false
selector_matches s (message control) = false
selector_matches s (event e) = selects s e

unfoldable pub matches : {V : Type 0} → List EventSelector → Frame V → Bool
unfolding selector_matches
matches selectors frame = any (λ s. selector_matches s frame) selectors

-- `{}` of a `u64`; the fuel is more than the number of digits.
unfoldable pub digits : ℕ → ℕ → Str → Str
digits zero n rest = rest
digits (suc fuel) n rest =
    let more = digits fuel (n / 10) ((48 + n % 10) ∷ rest) in
    if ltb n 10 then (48 + n) ∷ rest else more

abbrev pub entry_of : {V S : Type 0} → Connection V S → Str → ConnectionEntry V S
entry_of c id = record {
  metadata = record c.metadata { id = id };
  sink = c.sink;
  visibility_filter = c.visibility_filter;
  subscriptions = [];
}

module _ {V S P : Type 0} where
  -- The counter's wrap-around at `2 ^ 64` is not modelled.
  unfoldable pub allocate_connection_id : EventBus V S P → Str × EventBus V S P
  unfolding digits
  allocate_connection_id b =
      let next = b.next_connection_id + 1 in
      (text "conn-" ++ digits (suc next) next [], record b { next_connection_id = next })

  unfoldable pub connect : EventBus V S P → Connection V S → Str × EventBus V S P
  unfolding allocate_connection_id
  connect b c =
      let (id, b') =
        if is_empty c.metadata.id then allocate_connection_id b else (c.metadata.id, b) in
      (id, record b' { connections = Map.insert b'.connections id (entry_of c id) })

  unfoldable pub disconnect : EventBus V S P → Str → Option ConnectionMetadata × EventBus V S P
  disconnect b id = (
    Option.map (λ (e : ConnectionEntry V S). e.metadata) (Map.get b.connections id),
    record b { connections = Map.remove b.connections id },
  )

  unfoldable pub connection : EventBus V S P → Str → Option ConnectionMetadata
  connection b id = Option.map (λ (e : ConnectionEntry V S). e.metadata) (Map.get b.connections id)

  unfoldable pub subscriptions : EventBus V S P → Str → Option (List EventSelector)
  subscriptions b id =
      Option.map (λ (e : ConnectionEntry V S). e.subscriptions) (Map.get b.connections id)

-- `evaluate` answers with a reason to deny, or with none.
module _ {V S P : Type 0}
    (evaluate : P → ConnectionMetadata → List EventSelector → Option Str × P) where
  unfoldable pub set_subscriptions :
      EventBus V S P → Str → List EventSelector → Option RouteError × EventBus V S P
  set_subscriptions b id selectors = elim (Map.get b.connections id) [
    | none ↦ (some (unknown_connection id), b)
    | some e ↦
        let (denied, policy) = evaluate b.subscription_policy e.metadata selectors in
        elim denied [
          | some reason ↦
              (some (subscription_denied id reason), record b { subscription_policy = policy })
          | none ↦ (
            none,
            record b {
              subscription_policy = policy;
              connections = Map.insert b.connections id (record e { subscriptions = selectors });
            },
          )
        ]
  ]
