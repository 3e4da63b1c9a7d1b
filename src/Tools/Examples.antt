-- ===== src/Tools/Examples.antt =====
-- Tests and instances for the modules of Tools.
use shlop.Prelude.{inr, true, ◌+◌, ◌==◌, none, some, Option, ◌≡◌, refl, ℕ, false, [], ◌∷◌}
use shlop.Prelude.Text.{Str, str_eq, text}
use shlop.Prelude.Map
use shlop.Proto.Event.{ToolRequest, ToolType, PromptOriginator, ClientKind}
use shlop.Bus.Connection.{RoutedFrame, EventBus, in_memory, empty_report}
use shlop.Bus.Routing.{routed_frame, send_to}
use shlop.Bus.Directed.{WentTo}
use shlop.Tools.Routing.{
  invoke_of, route_tool_request, ToolRouteReport, route_tool_request-unregister_connection,
}
use shlop.Tools.Registry.{
  ToolSpec, ToolRegistry, resolve_provider, duplicate_registration, new, register, unregister,
  unregister_connection, providers_for, tools_of, add_provider, update_first,
}
use shlop.Tools.Agreement.{offers, Agrees}
use shlop.Tools.Lifetime.{
  new-Agrees, register-Agrees, unregister-Agrees, unregister_connection-Agrees,
  unregister_connection_lem,
}

abbrev shell : ToolSpec ℕ
shell = record { name = text "shell"; details = 1 }

abbrev one_tool : ToolRegistry ℕ
one_tool = (register new (text "a") shell).1

abbrev two_tools : ToolRegistry ℕ
two_tools = (register one_tool (text "b") shell).1

one_tool-Agrees : Agrees one_tool
one_tool-Agrees = register-Agrees new (text "a") shell new-Agrees

two_tools-Agrees : Agrees two_tools
two_tools-Agrees = register-Agrees one_tool (text "b") shell one_tool-Agrees

register_warns :
    (register one_tool (text "b") shell).0
    ≡ duplicate_registration (text "shell") (text "a" ∷ []) ∷ []
unfolding register providers_for tools_of add_provider update_first Map.get Map.insert
register_warns = refl

register-Agrees_instance : Agrees two_tools
register-Agrees_instance = register-Agrees one_tool (text "b") shell one_tool-Agrees

unregister-Agrees_instance : Agrees (unregister two_tools (text "a") (text "shell")).1
unregister-Agrees_instance = unregister-Agrees two_tools (text "a") (text "shell") two_tools-Agrees

unregister_connection-Agrees_example : Agrees (unregister_connection two_tools (text "a")).1
unregister_connection-Agrees_example =
    unregister_connection-Agrees two_tools (text "a") two_tools-Agrees

unregister_connection_lem_example :
    offers (unregister_connection two_tools (text "a")).1 (text "a") (text "shell") ≡ false
unregister_connection_lem_example =
    unregister_connection_lem two_tools (text "a") (text "a") (text "shell") two_tools-Agrees

abbrev send : ℕ → RoutedFrame ℕ → Option Str × ℕ
send n r = (none, n + 1)

abbrev bus : EventBus ℕ ℕ (Unit {0})
bus = record {
  next_connection_id = 0;
  connections =
      (
        text "b",
        record {
          metadata = record {
            id = text "b";
            name = text "tool";
            kind = ClientKind.tool;
            origin = in_memory;
          };
          sink = 0;
          visibility_filter = λ _. true;
          subscriptions = [];
        },
      )
      ∷ [];
  subscription_policy = tt;
}

abbrev request : ToolRequest ℕ
request = record {
  call_id = text "call";
  tool_name = text "shell";
  tool_type = ToolType.function;
  arguments = 7;
  originator = PromptOriginator.user;
}

abbrev to_b : ToolRouteReport
to_b = record {
  provider_connection_id = text "b";
  route_report = record empty_report { delivered_to = text "b" ∷ [] };
}

goes_to_b :
    (route_tool_request send
      (unregister_connection two_tools (text "a")).1
      bus
      (text "u")
      request).0
    ≡ inr to_b
unfolding route_tool_request resolve_provider unregister_connection register providers_for tools_of
    add_provider Map.get Map.insert Map.remove send_to
goes_to_b = refl

route_tool_request-unregister_connection_example :
    ((text "a" == text "b") ≡ false)
    × (offers two_tools (text "b") (text "shell") ≡ true)
    × WentTo send bus
        (text "b")
        (routed_frame (some (text "u")) (invoke_of request))
        (route_tool_request send
          (unregister_connection two_tools (text "a")).1
          bus
          (text "u")
          request).1
route_tool_request-unregister_connection_example =
    route_tool_request-unregister_connection send two_tools (text "a") bus (text "u") request to_b
      two_tools-Agrees goes_to_b
