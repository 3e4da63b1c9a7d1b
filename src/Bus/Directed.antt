-- ===== src/Bus/Directed.antt =====
-- Where a directed frame goes (`send_to` of crates/tau-core/src/bus.rs).
use shlop.Prelude.{
  ◌≡◌, ap, Bool-cases, inl, inr, Option, some, arith, if◌then◌else◌, Option-cases, ◌==◌, ==_iff,
}
use shlop.Prelude.Text.{Str, str_eq}
use shlop.Prelude.Map
use shlop.Prelude.Map.{get-insert}
use shlop.Proto.Event.{Frame}
use shlop.Bus.Connection.{RoutedFrame, RouteReport, ConnectionEntry, EventBus}
use shlop.Bus.Routing.{routed_frame, deliver, send_to}

module _ {V S : Type 0} (send : S → RoutedFrame V → Option Str × S) where
  -- The entry of a connection after a frame went to it: its sink has the frame, if its filter lets it.
  unfoldable pub sent : RoutedFrame V → ConnectionEntry V S → ConnectionEntry V S
  sent routed e =
      if e.visibility_filter routed then (record e { sink = (send e.sink routed).1 }) else e

module _ {V S P : Type 0} (send : S → RoutedFrame V → Option Str × S) where
  -- The frame went to the one connection `target`, and to no other.
  unfoldable pub WentTo : EventBus V S P → Str → RoutedFrame V → EventBus V S P → Type 0
  WentTo b target routed b' =
      (e : ConnectionEntry V S) × ((Map.get b.connections target ≡ some e)
        × ((j : Str)
            → Map.get b'.connections j
              ≡ (if target == j then some (sent send routed e) else Map.get b.connections j)))

  pub send_to-WentTo :
      (b : EventBus V S P) (target : Str) (source : Option Str) (frame : Frame V)
      (report : RouteReport)
      → (send_to send b target source frame).0 ≡ inr report
      → WentTo b target (routed_frame source frame) (send_to send b target source frame).1
  unfolding send_to deliver sent WentTo
  send_to-WentTo b target source frame report h =
      elim (Option-cases (Map.get b.connections target)) [
        | inl e ↦ absurd (ground (arith, e, h))
        | inr (e, found) ↦ (
          e,
          (
            found,
            λ j. elim (Bool-cases (e.visibility_filter (routed_frame source frame))) [
              | inl lets ↦ ground (
                arith,
                found,
                lets,
                get-insert b.connections target (sent send (routed_frame source frame) e) j,
              )
              | inr hides ↦ elim (Bool-cases (target == j)) [
                | inl same ↦ ground (
                  arith,
                  found,
                  hides,
                  same,
                  ap (Map.get b.connections) ((==_iff target j).0 same),
                )
                | inr other ↦ ground (arith, found, hides, other)
              ]
            ],
          ),
        )
      ]
