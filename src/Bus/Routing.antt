-- ===== src/Bus/Routing.antt =====
-- `publish_from` and `send_to` of crates/tau-core/src/bus.rs.
use shlop.Prelude.{Option, none, some, [], ◌∷◌, ◌++◌, if◌then◌else◌, ◌⊎◌, inl, inr}
use shlop.Prelude.Text.{Str, str_eq}
use shlop.Prelude.Map
use shlop.Prelude.Map.{Map}
use shlop.Proto.Event.{Frame}
use shlop.Bus.Connection.{
  RoutedFrame, RouteReport, empty_report, RouteError, unknown_connection, ConnectionEntry, EventBus,
  matches,
}

-- `RoutedFrame::new`
abbrev pub routed_frame : {V : Type 0} → Option Str → Frame V → RoutedFrame V
routed_frame source frame = record { source_id = source; frame = frame }

-- `send` answers with an error's message, or with none.
module _ {V S : Type 0} (send : S → RoutedFrame V → Option Str × S) where
  -- `entry.sink.send`, its answer noted in the report.
  unfoldable pub deliver :
      RoutedFrame V → Str → ConnectionEntry V S → RouteReport → RouteReport × ConnectionEntry V S
  deliver routed id e report =
      let (failed, sink) = send e.sink routed in
      (
        elim failed [
          | none ↦ record report { delivered_to = report.delivered_to ++ id ∷ [] }
          | some error ↦ record report {
            failed_deliveries =
                report.failed_deliveries ++ record { connection_id = id; error = error } ∷ [];
          }
        ],
        record e { sink = sink },
      )

  -- One round of the loop of `publish_from`.
  unfoldable pub publish_one :
      RoutedFrame V → Str → ConnectionEntry V S → RouteReport → RouteReport × ConnectionEntry V S
  unfolding deliver
  publish_one routed id e report =
      if matches e.subscriptions routed.frame
      then if e.visibility_filter routed
        then deliver routed id e report
        else (record report { blocked_by_filter = report.blocked_by_filter ++ id ∷ [] }, e)
      else (
        record report { skipped_by_subscription = report.skipped_by_subscription ++ id ∷ [] },
        e,
      )

  unfoldable pub publish_all :
      RoutedFrame V
      → Map Str (ConnectionEntry V S)
      → RouteReport
      → RouteReport × Map Str (ConnectionEntry V S)
  publish_all routed [] report = (report, [])
  publish_all routed ((id, e) ∷ es) report =
      let (report', e') = publish_one routed id e report in
      let (last, es') = publish_all routed es report' in (last, (id, e') ∷ es')

  unfoldable pub publish_from :
      {P : Type 0} → EventBus V S P → Option Str → Frame V → RouteReport × EventBus V S P
  unfolding publish_all
  publish_from b source frame =
      let routed = routed_frame source frame in
      let (report, connections) = publish_all routed b.connections empty_report in
      (report, record b { connections = connections })

  -- The subscriptions of the target play no part.
  unfoldable pub send_to :
      {P : Type 0}
      → EventBus V S P
      → Str
      → Option Str
      → Frame V
      → (RouteError ⊎ RouteReport) × EventBus V S P
  unfolding deliver
  send_to b target source frame = elim (Map.get b.connections target) [
    | none ↦ (inl (unknown_connection target), b)
    | some e ↦
        let routed = routed_frame source frame in
        if e.visibility_filter routed
        then (let (report, e') = deliver routed target e empty_report in
            (inr report, record b { connections = Map.insert b.connections target e' }))
        else (inr (record empty_report { blocked_by_filter = target ∷ [] }), b)
  ]
