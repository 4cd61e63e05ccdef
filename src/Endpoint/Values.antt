-- ===== src/Endpoint/Values.antt =====
-- The literal types and the records of src/forge_tool/endpoint/models.py.
use adapter_forge_gateway.Prelude.{ℕ, String, Bool, Option, List, string_eq}
use adapter_forge_gateway.Endpoint.Json.{Fields}

pub data ToolSemantics : Type 0 where
  query action session : ToolSemantics

pub data ExecutionPhase : Type 0 where
  accepted running stopping completed failed cancelled stopped unknown : ExecutionPhase

pub data ToolEventType : Type 0 where
  progress heartbeat executor_completed executor_failed cancelled stopped : ToolEventType

pub data ToolResultStatus : Type 0 where
  succeeded failed cancelled stopped unknown : ToolResultStatus

pub record ToolError : Type 0 where
  pub code : String
  pub message : String
  pub retryable : Bool
  pub details : Fields

pub record ToolResult : Type 0 where
  pub status : ToolResultStatus
  pub outputs : Fields
  pub error : Option ToolError

pub record ToolEvent : Type 0 where
  pub type : ToolEventType
  pub payload : Fields

pub record ToolExecutionStatus : Type 0 where
  pub phase : ExecutionPhase
  pub error : Option ToolError
  pub details : Fields

pub record ToolOperationDescriptor : Type 0 where
  pub name : String
  pub semantics : ToolSemantics
  pub cancellable : Bool
  pub stoppable : Bool
  pub status_supported : Bool
  pub max_concurrency : ℕ

pub record ToolEndpointDescriptor : Type 0 where
  pub protocol_version : String
  pub endpoint_id : String
  pub operations : List ToolOperationDescriptor
