-- ===== src/Bus/Reports.antt =====
-- What `publish_from` reports and whom it reaches.
use shlop.Prelude.{
  ◌+◌, ◌≡◌, refl, sym, ap, ◌∙◌, Bool, true, false, not, ◌&&◌, Bool-cases, inl, inr, Option, none,
  some, List, [], ◌∷◌, ◌++◌, append_assoc, append-nil, map, arith, if◌then◌else◌, retain, length,
  Option-cases,
}
use shlop.Prelude.Text.{Str}
use shlop.Prelude.Map.{Map}
use shlop.Proto.Event.{Frame}
use shlop.Bus.Connection.{
  RoutedFrame, DeliveryFailure, RouteReport, empty_report, ConnectionEntry, EventBus, matches,
}
use shlop.Bus.Routing.{routed_frame, publish_one, publish_all, publish_from}

abbrev is_none : Option Str → Bool
is_none none = true
is_none (some _) = false

-- The failure that an answer of a sink makes.
abbrev failures_of : Str → Option Str → List DeliveryFailure
failures_of id none = []
failures_of id (some error) = record { connection_id = id; error = error } ∷ []

module _ {V S : Type 0} (send : S → RoutedFrame V → Option Str × S) where
  abbrev pub Entries : Type 0
  Entries = Map Str (ConnectionEntry V S)

  -- Subscribed, and visible.
  abbrev pub reaches : RoutedFrame V → ConnectionEntry V S → Bool
  reaches r e = matches e.subscriptions r.frame && e.visibility_filter r

  abbrev delivers : RoutedFrame V → ConnectionEntry V S → Bool
  delivers r e = reaches r e && is_none (send e.sink r).0

  -- The ids of the entries that pass a test, in order.
  abbrev pub ids : (ConnectionEntry V S → Bool) → Entries → List Str
  ids p es =
      map (λ (e : Str × ConnectionEntry V S). e.0)
        (retain (λ (e : Str × ConnectionEntry V S). p e.1) es)

  abbrev pub failures : RoutedFrame V → Entries → List DeliveryFailure
  failures r [] = []
  failures r ((id, e) ∷ es) =
      (if reaches r e then failures_of id (send e.sink r).0 else []) ++ failures r es

  -- The report, described list by list.
  abbrev pub report_of : RoutedFrame V → Entries → RouteReport
  report_of r es = record {
    delivered_to = ids (delivers r) es;
    blocked_by_filter =
        ids (λ e. matches e.subscriptions r.frame && not (e.visibility_filter r)) es;
    skipped_by_subscription = ids (λ e. not (matches e.subscriptions r.frame)) es;
    failed_deliveries = failures r es;
  }

  -- The entries after the frame: the sinks that it reached have taken it.
  abbrev pub sent : RoutedFrame V → Entries → Entries
  sent r es =
      map
        (λ (e : Str × ConnectionEntry V S).
          (e.0, if reaches r e.1 then record e.1 { sink = (send e.1.sink r).1 } else e.1))
        es

  abbrev joined : RouteReport → RouteReport → RouteReport
  joined a b = record {
    delivered_to = a.delivered_to ++ b.delivered_to;
    blocked_by_filter = a.blocked_by_filter ++ b.blocked_by_filter;
    skipped_by_subscription = a.skipped_by_subscription ++ b.skipped_by_subscription;
    failed_deliveries = a.failed_deliveries ++ b.failed_deliveries;
  }

  ids-cons :
      (p : ConnectionEntry V S → Bool) (id : Str) (e : ConnectionEntry V S) (es : Entries)
      → ids p ((id, e) ∷ es) ≡ ids p ((id, e) ∷ []) ++ ids p es
  ids-cons p id e es = elim (Bool-cases (p e)) [
    | inl h ↦ ground (arith, h)
    | inr h ↦ ground (arith, h)
  ]

  step :
      (xs : List Str) (p : ConnectionEntry V S → Bool) (id : Str) (e : ConnectionEntry V S)
      (es : Entries)
      → (xs ++ ids p ((id, e) ∷ [])) ++ ids p es ≡ xs ++ ids p ((id, e) ∷ es)
  step xs p id e es =
      append_assoc xs (ids p ((id, e) ∷ [])) (ids p es) ∙ ap (◌++◌ xs) (sym (ids-cons p id e es))

  joined-cons :
      (r : RoutedFrame V) (id : Str) (e : ConnectionEntry V S) (es : Entries) (report : RouteReport)
      → joined (joined report (report_of r ((id, e) ∷ []))) (report_of r es)
        ≡ joined report (report_of r ((id, e) ∷ es))
  joined-cons r id e es report i = record {
    delivered_to = step report.delivered_to (delivers r) id e es i;
    blocked_by_filter =
        step report.blocked_by_filter
          (λ e. matches e.subscriptions r.frame && not (e.visibility_filter r)) id e es i;
    skipped_by_subscription =
        step report.skipped_by_subscription (λ e. not (matches e.subscriptions r.frame)) id e es i;
    failed_deliveries = failed i;
  }
    where
      failed :
          (report.failed_deliveries ++ failures r ((id, e) ∷ [])) ++ failures r es
          ≡ report.failed_deliveries ++ failures r ((id, e) ∷ es)
      failed =
          append_assoc report.failed_deliveries (failures r ((id, e) ∷ [])) (failures r es)
          ∙ ap (λ x. report.failed_deliveries ++ (x ++ failures r es)) (append-nil _)

  publish_one-eq :
      (r : RoutedFrame V) (id : Str) (e : ConnectionEntry V S) (report : RouteReport)
      → publish_one send r id e report ≡ (
        joined report (report_of r ((id, e) ∷ [])),
        if reaches r e then record e { sink = (send e.sink r).1 } else e,
      )
  unfolding publish_one
  publish_one-eq r id e report = elim (Bool-cases (matches e.subscriptions r.frame)) [
    | inr h ↦ ground (
      arith,
      h,
      append-nil report.delivered_to,
      append-nil report.blocked_by_filter,
      append-nil report.failed_deliveries,
    )
    | inl h ↦ elim (Bool-cases (e.visibility_filter r)) [
      | inr g ↦ ground (
        arith,
        h,
        g,
        append-nil report.delivered_to,
        append-nil report.skipped_by_subscription,
        append-nil report.failed_deliveries,
      )
      | inl g ↦ elim (Option-cases (send e.sink r).0) [
        | inl o ↦ ground (
          arith,
          h,
          g,
          o,
          append-nil report.blocked_by_filter,
          append-nil report.skipped_by_subscription,
          append-nil report.failed_deliveries,
        )
        | inr (x, o) ↦ ground (
          arith,
          h,
          g,
          o,
          append-nil report.blocked_by_filter,
          append-nil report.skipped_by_subscription,
          append-nil report.delivered_to,
        )
      ]
    ]
  ]

  joined-empty : (report : RouteReport) → joined report empty_report ≡ report
  joined-empty report i = record {
    delivered_to = append-nil report.delivered_to i;
    blocked_by_filter = append-nil report.blocked_by_filter i;
    skipped_by_subscription = append-nil report.skipped_by_subscription i;
    failed_deliveries = append-nil report.failed_deliveries i;
  }

  publish_all-eq :
      (r : RoutedFrame V) (es : Entries) (report : RouteReport)
      → publish_all send r es report ≡ (joined report (report_of r es), sent r es)
  unfolding publish_all
  publish_all-eq r [] report = ap (λ (x : RouteReport). (x, [])) (sym (joined-empty report))
  publish_all-eq r ((id, e) ∷ es) report =
      rw
        (
          publish_one-eq r id e report,
          publish_all-eq r es (joined report (report_of r ((id, e) ∷ []))),
          joined-cons r id e es report,
        )
        refl

  -- Publishing reports each connection in the one list that its subscriptions, its visibility
  -- filter and its sink's answer decide, in order, and the sinks that have taken the frame are those of the
  -- connections that are subscribed and see it. Nothing else of the bus changes.
  pub publish_from-eq :
      {P : Type 0} (b : EventBus V S P) (source : Option Str) (frame : Frame V)
      → publish_from send b source frame ≡ (
        report_of (routed_frame source frame) b.connections,
        record b { connections = sent (routed_frame source frame) b.connections },
      )
  unfolding publish_from
  publish_from-eq {P} b source frame =
      ap (λ (p : RouteReport × Entries). (p.0, record b { connections = p.1 }))
        (publish_all-eq (routed_frame source frame) b.connections empty_report)

  count :
      (r : RoutedFrame V) (es : Entries)
      → length (report_of r es).delivered_to
          + length (report_of r es).blocked_by_filter
          + length (report_of r es).skipped_by_subscription
          + length (report_of r es).failed_deliveries
        ≡ length es
  count r [] = refl
  count r ((id, e) ∷ es) = elim (Bool-cases (matches e.subscriptions r.frame)) [
    | inr h ↦ ground (arith, h, count r es)
    | inl h ↦ elim (Bool-cases (e.visibility_filter r)) [
      | inr g ↦ ground (arith, h, g, count r es)
      | inl g ↦ elim (Option-cases (send e.sink r).0) [
        | inl o ↦ ground (arith, h, g, o, count r es)
        | inr (x, o) ↦ ground (arith, h, g, o, count r es)
      ]
    ]
  ]

  -- The four lists of the report of a publish have together one entry for each connection.
  pub length-publish_from :
      {P : Type 0} (b : EventBus V S P) (source : Option Str) (frame : Frame V)
      → let report = (publish_from send b source frame).0 in
        length report.delivered_to
          + length report.blocked_by_filter
          + length report.skipped_by_subscription
          + length report.failed_deliveries
        ≡ length b.connections
  length-publish_from {P} b source frame =
      ap
        (λ (p : RouteReport × EventBus V S P).
          length p.0.delivered_to
          + length p.0.blocked_by_filter
          + length p.0.skipped_by_subscription
          + length p.0.failed_deliveries)
        (publish_from-eq b source frame)
      ∙ count (routed_frame source frame) b.connections
