-- ===== src/Proto/Examples.antt =====
-- Tests and instances for the modules of Proto.
use shlop.Prelude.{◌≡◌, refl, true, false, some}
use shlop.Prelude.Text.{text, starts_with}
use shlop.Proto.Category.{tool, as_str, from_wire, as_str-from_wire}
use shlop.Proto.Name.{EventName, from_str, display, display-from_str, from_str-display, split_once}
use shlop.Proto.Prefix.{matches_prefix, matches_prefix-eq-starts_with}

abbrev tool_request : EventName
tool_request = record { category = tool; call = text "request" }

from_str_runs : from_str (text "tool.request") ≡ some tool_request
unfolding from_str split_once from_wire
from_str_runs = refl

matches_across_dot : matches_prefix tool_request (text "tool.re") ≡ true
unfolding matches_prefix as_str starts_with
matches_across_dot = refl

matches_without_dot : matches_prefix tool_request (text "toolre") ≡ false
unfolding matches_prefix as_str starts_with
matches_without_dot = refl

as_str-from_wire_instance : as_str (from_wire (text "mcp")) ≡ text "mcp"
as_str-from_wire_instance = as_str-from_wire (text "mcp")

matches_prefix-eq-starts_with_example :
    matches_prefix tool_request (text "tool.re")
    ≡ starts_with (display tool_request) (text "tool.re")
matches_prefix-eq-starts_with_example = matches_prefix-eq-starts_with tool_request (text "tool.re")

display-from_str_instance : display tool_request ≡ text "tool.request"
unfolding from_str split_once from_wire
display-from_str_instance = display-from_str (text "tool.request") tool_request refl

from_str-display_example : from_str (display tool_request) ≡ some tool_request
unfolding from_wire as_str
from_str-display_example = from_str-display tool_request refl refl
