-- ===== src/Bus/Subscriptions.antt =====
-- What `set_subscriptions` and `send_to` change.
use shlop.Prelude.{
  ◌≡◌, Bool, true, false, ◌&&◌, Bool-cases, inl, inr, Option, none, some, List, arith,
  if◌then◌else◌, Option-cases, ◌==◌,
}
use shlop.Prelude.Text.{Str, str_eq}
use shlop.Prelude.Map
use shlop.Prelude.Map.{get-insert, get-insert_self}
use shlop.Proto.Event.{EventSelector, Frame}
use shlop.Bus.Connection.{
  ConnectionMetadata, RoutedFrame, RouteError, empty_report, EventBus, subscriptions,
  set_subscriptions,
}
use shlop.Bus.Routing.{routed_frame, deliver, send_to}

abbrev pub no_error : Option RouteError → Bool
no_error none = true
no_error (some _) = false

module _ {V S P : Type 0}
    (evaluate : P → ConnectionMetadata → List EventSelector → Option Str × P) where
  -- A request that is answered without an error replaces the subscriptions of its connection; a
  -- request that is refused, or names no connection, changes no subscriptions. Those of the other
  -- connections never change.
  pub subscriptions-set_subscriptions :
      (b : EventBus V S P) (id : Str) (selectors : List EventSelector) (j : Str)
      → let (error, b') = set_subscriptions evaluate b id selectors in
        subscriptions b' j
        ≡ (if no_error error && id == j then some selectors else subscriptions b j)
  unfolding set_subscriptions subscriptions
  subscriptions-set_subscriptions b id selectors j =
      elim (Option-cases (Map.get b.connections id)) [
        | inl h ↦ ground (arith, h)
        | inr (e, h) ↦ elim (Option-cases (evaluate b.subscription_policy e.metadata selectors).0) [
          | inl d ↦ elim (Bool-cases (id == j)) [
            | inl g ↦ ground (
              arith,
              h,
              d,
              g,
              get-insert b.connections id (record e { subscriptions = selectors }) j,
            )
            | inr g ↦ ground (
              arith,
              h,
              d,
              g,
              get-insert b.connections id (record e { subscriptions = selectors }) j,
            )
          ]
          | inr (reason, d) ↦ ground (arith, h, d)
        ]
      ]

module _ {V S P : Type 0} (send : S → RoutedFrame V → Option Str × S) where
  -- A directed frame leaves the entry of every connection but its target as it was.
  pub send_to_keeps_others :
      (b : EventBus V S P) (target : Str) (source : Option Str) (frame : Frame V) (j : Str)
      → (target == j) ≡ false
      → Map.get (send_to send b target source frame).1.connections j ≡ Map.get b.connections j
  unfolding send_to
  send_to_keeps_others b target source frame j other =
      elim (Option-cases (Map.get b.connections target)) [
        | inl h ↦ ground (arith, h)
        | inr (e, h) ↦ elim (Bool-cases (e.visibility_filter (routed_frame source frame))) [
          | inl g ↦ ground (
            arith,
            h,
            g,
            other,
            get-insert b.connections target
                (deliver send (routed_frame source frame) target e empty_report).1 j,
          )
          | inr g ↦ ground (arith, h, g)
        ]
      ]
