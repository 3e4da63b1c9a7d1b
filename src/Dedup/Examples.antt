-- ===== src/Dedup/Examples.antt =====
-- Tests and instances for the modules of Dedup. A payload here is its own text and its own hash.
use shlop.Prelude.{◌≡◌, refl, ℕ, zero, suc, none, some, List, [], ◌∷◌, ◌++◌}
use shlop.Prelude.Text.{Str, text, starts_with}
use shlop.Proto.Event.{ToolResult}
use shlop.Session.Tree.{SessionEntry}
use shlop.Dedup.Results.{
  ResultDedupMap, lookup, rebuild_from_branch, dedup_tool_result, is_dedup_pointer_value,
  default_threshold_bytes,
}
use shlop.Dedup.Rebuild.{first_call, InSync, entry_for, lookup-rebuild_from_branch}
use shlop.Dedup.Intake.{dedup_tool_result-InSync}

abbrev same : Str → Str
same s = s

abbrev long : ℕ → Str
long zero = []
long (suc n) = 120 ∷ long n

abbrev first_read : ToolResult Str
first_read = record { call_id = text "one"; tool_name = text "read"; result = long 300 }

abbrev again : ToolResult Str
again = record { call_id = text "two"; tool_name = text "read"; result = long 300 }

abbrev branch : List (SessionEntry Str)
branch = entry_for same same some same first_read ∷ []

abbrev built : ResultDedupMap
built =
    rebuild_from_branch same same some same (record { map = []; built_for = none }) branch (some 0)
      default_threshold_bytes

built-InSync : InSync same same some same built branch
built-InSync = record {
  at = λ h.
      lookup-rebuild_from_branch same same some same (record { map = []; built_for = none }) branch
        (some 0) default_threshold_bytes h;
}

lookup-rebuild_from_branch_instance :
    lookup built (text "h")
    ≡ first_call same same some same default_threshold_bytes (text "h") branch
lookup-rebuild_from_branch_instance =
    lookup-rebuild_from_branch same same some same (record { map = []; built_for = none }) branch
      (some 0) default_threshold_bytes (text "h")

dedup_tool_result-InSync_example :
    let (r', m') = dedup_tool_result same same some same built again in
    InSync same same some same m' (branch ++ entry_for same same some same r' ∷ [])
unfolding is_dedup_pointer_value starts_with
dedup_tool_result-InSync_example =
    dedup_tool_result-InSync same same some same built branch again (λ s. refl) built-InSync refl
