-- ===== src/Chat/Types.antt =====
-- frontend/types/chat.type.ts. A field written with `?` is an `Option`. The event names that the
-- program tests for are constructors, and any other name is `other`.
use webbuilder.Base.{ℕ, String, Bool, Option, List}
use webbuilder.Json.{Json}

pub data RunStatus : Type 0 where
  running succeeded failed cancelled timed_out interrupted : RunStatus

pub data ToolStatus : Type 0 where
  running success error : ToolStatus

pub record ToolCall : Type 0 where
  pub id : Option String
  pub name : String
  pub status : ToolStatus
  pub output : Option String
  pub duration_ms : Option ℕ
  pub details : Option Json
  pub run_id : Option String
  pub event_id : Option String

pub data ActivityKind : Type 0 where
  stage verification : ActivityKind

pub record ActivityItem : Type 0 where
  pub id : String
  pub kind : ActivityKind
  pub created_at : String
  pub message : Option String
  pub ok : Option Bool
  pub checks : Option Json

pub data Role : Type 0 where
  user assistant : Role

pub record Message : Type 0 where
  pub id : String
  pub role : Role
  pub content : String
  pub created_at : String
  pub event_type : Option String
  pub tool_calls : Option (List ToolCall)
  pub activity : Option (List ActivityItem)
  pub run_status : Option RunStatus
  pub finished_at : Option String

-- the field `e` of an event
pub data EventName : Type 0 where
  run_started stage verification tool_started tool_completed run_finished : EventName
  other : String → EventName

pub record RunEvent : Type 0 where
  pub e : EventName
  pub run_id : String
  pub event_id : String
  pub created_at : String
  pub name : Option String
  pub call_id : Option String
  pub ok : Option Bool
  pub status : Option RunStatus
  pub message : Option String
  pub output : Option String
  pub details : Option Json
  pub duration_ms : Option ℕ
  pub url : Option String
  pub checks : Option Json

pub record RunSnapshot : Type 0 where
  pub id : String
  pub created_at : Option String
  pub status : RunStatus
  pub reason : Option String
  pub events : List RunEvent
