-- ===== src/Tools/Routing.antt =====
-- `route_tool_request` of crates/tau-core/src/tool_registry.rs: a tool request becomes a directed
-- `tool.invoke` to one provider.
use shlop.Prelude.{
  ◌≡◌, ap, sym, subst, ◌∙◌, true, false, Option-cases, Option, none, some, [], ◌∷◌, arith, ◌⊎◌, inl,
  inr, ◌==◌, ==_refl,
}
use shlop.Prelude.Text.{Str, str_eq}
use shlop.Prelude.Map
use shlop.Proto.Event.{ToolRequest, tool_invoke, Frame, event}
use shlop.Bus.Connection.{RoutedFrame, RouteReport, RouteError, EventBus}
use shlop.Bus.Routing.{routed_frame, send_to}
use shlop.Bus.Directed.{WentTo, send_to-WentTo}
use shlop.Tools.Registry.{
  ToolProvider, ToolRegistry, providers_for, resolve_provider, unregister_connection,
}
use shlop.Tools.Agreement.{offers, Agrees}
use shlop.Tools.Lifetime.{unregister_connection_lem}

pub data ToolRouteError : Type 0 where
  no_provider : Str → ToolRouteError
  route : RouteError → ToolRouteError

pub record ToolRouteReport : Type 0 where
  pub provider_connection_id : Str
  pub route_report : RouteReport

-- `Event::ToolInvoke` of a request.
abbrev pub invoke_of : {V : Type 0} → ToolRequest V → Frame V
invoke_of r = event (
    tool_invoke (record {
      call_id = r.call_id;
      tool_name = r.tool_name;
      arguments = r.arguments;
      originator = r.originator;
    }))

-- `map_err(ToolRouteError::Route)`, and the report of a success.
abbrev pub routed_to : Str → RouteError ⊎ RouteReport → ToolRouteError ⊎ ToolRouteReport
routed_to c (inl e) = inl (route e)
routed_to c (inr r) = inr (record { provider_connection_id = c; route_report = r })

routed_to-id :
    (c : Str) (answer : RouteError ⊎ RouteReport) (report : ToolRouteReport)
    → routed_to c answer ≡ inr report
    → report.provider_connection_id ≡ c
routed_to-id c (inl e) report h = ground arith
routed_to-id c (inr r) report h = ground arith

routed_to-answer :
    (c : Str) (answer : RouteError ⊎ RouteReport) (report : ToolRouteReport)
    → routed_to c answer ≡ inr report
    → answer ≡ inr report.route_report
routed_to-answer c (inl e) report h = ground arith
routed_to-answer c (inr r) report h = ground arith

module _ {V S P D : Type 0} (send : S → RoutedFrame V → Option Str × S) where
  unfoldable pub route_tool_request :
      ToolRegistry D
      → EventBus V S P
      → Str
      → ToolRequest V
      → (ToolRouteError ⊎ ToolRouteReport) × EventBus V S P
  route_tool_request registry bus requester r = elim (resolve_provider registry r.tool_name) [
    | none ↦ (inl (no_provider r.tool_name), bus)
    | some p ↦
        let (answer, bus') = send_to send bus p.connection_id (some requester) (invoke_of r) in
        (routed_to p.connection_id answer, bus')
  ]

module _ {D : Type 0} where
  resolved :
      (registry : ToolRegistry D) (name : Str) (p : ToolProvider D)
      → resolve_provider registry name ≡ some p
      → offers registry p.connection_id name ≡ true
  unfolding resolve_provider providers_for
  resolved registry name p h = elim (Option-cases (Map.get registry.providers_by_tool name)) [
    | inl e ↦ ground (arith, e)
    | inr ([], e) ↦ ground (arith, e)
    | inr (q ∷ qs, e) ↦ ground (arith, e, ==_refl p.connection_id)
  ]

module _ {V S P D : Type 0} (send : S → RoutedFrame V → Option Str × S) where
  routed_provider :
      (registry : ToolRegistry D) (bus : EventBus V S P) (requester : Str) (r : ToolRequest V)
      (report : ToolRouteReport)
      → (route_tool_request send registry bus requester r).0 ≡ inr report
      → offers registry report.provider_connection_id r.tool_name ≡ true
  unfolding route_tool_request
  routed_provider registry bus requester r report h =
      elim (Option-cases (resolve_provider registry r.tool_name)) [
        | inl e ↦ ground (arith, e)
        | inr (p, e) ↦
            ap (λ c. offers registry c r.tool_name)
              (routed_to-id p.connection_id
                (send_to send bus p.connection_id (some requester) (invoke_of r)).0 report
                (ground (arith, e)))
            ∙ resolved registry r.tool_name p e
      ]

  routed_frame_went :
      (registry : ToolRegistry D) (bus : EventBus V S P) (requester : Str) (r : ToolRequest V)
      (report : ToolRouteReport)
      → (route_tool_request send registry bus requester r).0 ≡ inr report
      → WentTo send bus report.provider_connection_id
          (routed_frame (some requester) (invoke_of r))
          (route_tool_request send registry bus requester r).1
  unfolding route_tool_request
  routed_frame_went registry bus requester r report h =
      elim (Option-cases (resolve_provider registry r.tool_name)) [
        | inl e ↦ absurd (ground (arith, e))
        | inr (p, e) ↦
            (let answer = send_to send bus p.connection_id (some requester) (invoke_of r) in
              let right : routed_to p.connection_id answer.0 ≡ inr report = ground (arith, e) in
              rw (route_tool_request, e)
                (subst
                  (λ c. WentTo send bus c (routed_frame (some requester) (invoke_of r)) answer.1)
                  (sym (routed_to-id p.connection_id answer.0 report right))
                  (send_to-WentTo send bus p.connection_id (some requester) (invoke_of r)
                    report.route_report (routed_to-answer p.connection_id answer.0 report right))))
      ]

  -- In a registry whose indexes agree, a request that is routed after connection `c` was
  -- unregistered goes, as the invocation from its requester, to the sink of the one connection that
  -- the report names, if that connection's filter lets it, and to no other sink; and this is a
  -- connection other than `c` that provided the tool before.
  pub route_tool_request-unregister_connection :
      (registry : ToolRegistry D) (c : Str) (bus : EventBus V S P) (requester : Str)
      (r : ToolRequest V) (report : ToolRouteReport)
      → Agrees registry
      → (route_tool_request send (unregister_connection registry c).1 bus requester r).0
        ≡ inr report
      → ((c == report.provider_connection_id) ≡ false)
        × (offers registry report.provider_connection_id r.tool_name ≡ true)
        × WentTo send bus report.provider_connection_id
            (routed_frame (some requester) (invoke_of r))
            (route_tool_request send (unregister_connection registry c).1 bus requester r).1
  route_tool_request-unregister_connection registry c bus requester r report a h =
      let left : ((c == report.provider_connection_id) ≡ false)
          × (offers registry report.provider_connection_id r.tool_name ≡ true) =
        ground (
          arith,
          routed_provider (unregister_connection registry c).1 bus requester r report h,
          unregister_connection_lem registry c report.provider_connection_id r.tool_name a,
        ) in
      (
        left.0,
        left.1,
        routed_frame_went (unregister_connection registry c).1 bus requester r report h,
      )
