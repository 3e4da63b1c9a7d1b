-- ===== src/Dedup/Results.antt =====
-- `ResultDedupMap` (crates/tau-harness/src/dedup.rs), and the intake of tool results and errors
-- (`dedup_tool_result` and `dedup_tool_error` of crates/tau-harness/src/harness.rs) once the map
-- is built for the conversation's branch. CBOR and BLAKE3 are parameters: `encode` is
-- `encode_for_hash`, `hash` is `hash_truncated`, and `as_text` and `from_text` read and make a
-- `CborValue::Text`.
use shlop.Prelude.{
  ℕ, Bool, false, not, Option, none, some, List, [], ◌∷◌, ◌++◌, if◌then◌else◌, ltb, length, ◌==◌,
  nat_eq, option_eq,
}
use shlop.Prelude.Text.{Str, text, str_eq, starts_with}
use shlop.Prelude.Map
use shlop.Prelude.Map.{Map}
use shlop.Proto.Event.{ToolResult, ToolError}
use shlop.Session.Tree.{
  SessionEntry, ToolActivityOutcome, user_message, agent_message, tool_activity, requested, result,
  error,
}

abbrev pub dedup_marker : Str
dedup_marker = text "[tau-dedup]"

abbrev pub default_threshold_bytes : ℕ
default_threshold_bytes = 256

pub record ResultDedupMap : Type 0 where
  pub map : Map Str Str
  pub built_for : Option ℕ

unfoldable pub needs_rebuild : ResultDedupMap → Option ℕ → Bool
needs_rebuild m current = not (m.built_for == current)

unfoldable pub lookup : ResultDedupMap → Str → Option Str
lookup m h = Map.get m.map h

-- The debug assertion of the source is not checked in a release build, and not here.
unfoldable pub insert : ResultDedupMap → Str → Str → ResultDedupMap
insert m h call_id = record m { map = Map.insert m.map h call_id }

unfoldable pub note_head_advanced_to : ResultDedupMap → ℕ → ResultDedupMap
note_head_advanced_to m head = elim m.built_for [
  | none ↦ m
  | some _ ↦ record m { built_for = some head }
]

-- The text of a pointer, in a result and in an error.
unfoldable pub pointer_text : Str → Str → Str
pointer_text call_id tool_name =
    dedup_marker ++ (text " same as " ++ (tool_name ++ (text " " ++ call_id)))

module _ {V : Type 0} (encode : V → Str) (hash : Str → Str) (as_text : V → Option Str)
    (from_text : Str → V) where
  unfoldable pub is_dedup_pointer_value : V → Bool
  is_dedup_pointer_value v = elim (as_text v) [ none ↦ false | some s ↦ starts_with s dedup_marker ]

  unfoldable pub encode_error_for_hash : Str → Option V → Str
  encode_error_for_hash message details =
      text "err" ++ (0 ∷ (message ++ (0 ∷ elim details [ none ↦ [] | some v ↦ encode v ])))

  -- The bytes of an entry that the map takes notice of.
  unfoldable pub content_of : ToolActivityOutcome V → Option Str
  unfolding is_dedup_pointer_value encode_error_for_hash
  content_of (requested _ _) = none
  content_of (result v) = if is_dedup_pointer_value v then none else some (encode v)
  content_of (error message details) =
      if starts_with message dedup_marker
      then none
      else some (encode_error_for_hash message details)

  -- `entry(hash).or_insert_with(..)`, unless the content is below the threshold.
  unfoldable pub note_content : ℕ → Str → Option Str → Map Str Str → Map Str Str
  note_content threshold call_id none m = m
  note_content threshold call_id (some bytes) m =
      if ltb (length bytes) threshold
      then m
      else elim (Map.get m (hash bytes)) [ none ↦ Map.insert m (hash bytes) call_id | some _ ↦ m ]

  unfoldable pub note_entry : ℕ → SessionEntry V → Map Str Str → Map Str Str
  unfolding content_of note_content
  note_entry threshold (user_message _) m = m
  note_entry threshold (agent_message _ _ _ _) m = m
  note_entry threshold (tool_activity a) m =
      note_content threshold a.call_id (content_of a.outcome) m

  unfoldable pub note_entries : ℕ → List (SessionEntry V) → Map Str Str → Map Str Str
  unfolding note_entry
  note_entries threshold [] m = m
  note_entries threshold (e ∷ es) m = note_entries threshold es (note_entry threshold e m)

  unfoldable pub rebuild_from_branch :
      ResultDedupMap → List (SessionEntry V) → Option ℕ → ℕ → ResultDedupMap
  unfolding note_entries
  rebuild_from_branch m branch new_head threshold = record {
    map = note_entries threshold branch [];
    built_for = new_head;
  }

  unfoldable pub dedup_tool_result : ResultDedupMap → ToolResult V → ToolResult V × ResultDedupMap
  unfolding lookup insert pointer_text
  dedup_tool_result m r =
      let bytes = encode r.result in
      if ltb (length bytes) default_threshold_bytes then (r, m) else elim (lookup m (hash bytes)) [
        | none ↦ (r, insert m (hash bytes) r.call_id)
        | some original ↦
            if original == r.call_id
            then (r, m)
            else (record r { result = from_text (pointer_text original r.tool_name) }, m)
      ]

  unfoldable pub dedup_tool_error : ResultDedupMap → ToolError V → ToolError V × ResultDedupMap
  unfolding lookup insert pointer_text encode_error_for_hash
  dedup_tool_error m r =
      let bytes = encode_error_for_hash r.message r.details in
      if ltb (length bytes) default_threshold_bytes then (r, m) else elim (lookup m (hash bytes)) [
        | none ↦ (r, insert m (hash bytes) r.call_id)
        | some original ↦
            if original == r.call_id
            then (r, m)
            else (record r { message = pointer_text original r.tool_name; details = none }, m)
      ]
