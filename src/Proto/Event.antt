-- ===== src/Proto/Event.antt =====
-- The protocol's events, selectors and frames (crates/tau-proto/src/events.rs, messages.rs and
-- frame.rs), as far as the modelled code reads them.
-- `V` stands for `CborValue`, which the source takes from the crate `ciborium`. An event keeps the
-- payload that the modelled code reads; every event without one is `other` with its name, and a
-- message that no modelled code looks into is `control`.
use shlop.Prelude.{ℕ, Bool, Option, List}
use shlop.Prelude.Text.{Str, text}
use shlop.Proto.Category.{EventCategory}
use shlop.Proto.Name.{EventName}

pub data EventSelector : Type 0 where
  exact : EventName → EventSelector
  prefix : Str → EventSelector

pub data ClientKind : Type 0 where
  agent tool ui core external : ClientKind

pub data ToolType : Type 0 where
  function custom : ToolType

pub data MessagePhase : Type 0 where
  commentary final_answer : MessagePhase

-- Who started a prompt: the user, or an extension with its query.
pub data PromptOriginator : Type 0 where
  user : PromptOriginator
  extension_query : Str → Str → PromptOriginator

pub record ToolRequest (V : Type 0) : Type 0 where
  pub call_id : Str
  pub tool_name : Str
  pub tool_type : ToolType
  pub arguments : V
  pub originator : PromptOriginator

pub record ToolInvoke (V : Type 0) : Type 0 where
  pub call_id : Str
  pub tool_name : Str
  pub arguments : V
  pub originator : PromptOriginator

pub record ToolResult (V : Type 0) : Type 0 where
  pub call_id : Str
  pub tool_name : Str
  pub result : V

pub record ToolError (V : Type 0) : Type 0 where
  pub call_id : Str
  pub tool_name : Str
  pub message : Str
  pub details : Option V

pub record AgentResponseFinished : Type 0 where
  pub text : Option Str
  pub thinking : Option Str
  pub phase : Option MessagePhase
  pub reasoning_items : List Str

pub data Event (V : Type 0) : Type 0 where
  ui_prompt_submitted : Str → Event V
  session_user_message_injected : Str → Event V
  session_prompt_steered : Str → Event V
  agent_response_finished : AgentResponseFinished → Event V
  tool_request : ToolRequest V → Event V
  tool_invoke : ToolInvoke V → Event V
  tool_result : ToolResult V → Event V
  tool_error : ToolError V → Event V
  ui_navigate_tree : ℕ → Event V
  other : EventName → Event V

-- `Event::name`
unfoldable pub event_name : {V : Type 0} → Event V → EventName
event_name (ui_prompt_submitted _) = record {
  category = EventCategory.ui;
  call = text "prompt_submitted";
}
event_name (session_user_message_injected _) = record {
  category = EventCategory.session;
  call = text "user_message_injected";
}
event_name (session_prompt_steered _) = record {
  category = EventCategory.session;
  call = text "prompt_steered";
}
event_name (agent_response_finished _) = record {
  category = EventCategory.agent;
  call = text "response_finished";
}
event_name (tool_request _) = record { category = EventCategory.tool; call = text "request" }
event_name (tool_invoke _) = record { category = EventCategory.tool; call = text "invoke" }
event_name (tool_result _) = record { category = EventCategory.tool; call = text "result" }
event_name (tool_error _) = record { category = EventCategory.tool; call = text "error" }
event_name (ui_navigate_tree _) = record {
  category = EventCategory.ui;
  call = text "navigate_tree";
}
event_name (other n) = n

pub data Message (V : Type 0) : Type 0 where
  log_event : ℕ → ℕ → Event V → Message V
  intercept_request : Event V → Bool → Message V
  control : Message V

pub data Frame (V : Type 0) : Type 0 where
  message : Message V → Frame V
  event : Event V → Frame V
