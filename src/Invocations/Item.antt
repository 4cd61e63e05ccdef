-- ===== src/Invocations/Item.antt =====
-- One invocation of src/forge_gateway/domain/action_invocations.py: its phases and its events.
-- Times are exact natural numbers of one clock.
use adapter_forge_gateway.Prelude.{
  ℕ, ◌-◌, String, Bool, true, false, ◌&&◌, Option, none, some, List, [], ◌∷◌, ◌++◌, length, drop,
  ◌==◌, Eq, string_eq, pair_eq,
}
use adapter_forge_gateway.Prelude.Int.{ℤ}
use adapter_forge_gateway.Endpoint.Json.{Fields, end}
use adapter_forge_gateway.Endpoint.Values.{ToolError, ToolResult, ToolEventType, ToolResultStatus}

pub data ActionPhase : Type 0 where
  dispatching accepted running stopping completed failed cancelled stopped unknown : ActionPhase

-- `phase in TERMINAL_PHASES`
abbrev pub is_terminal : ActionPhase → Bool
is_terminal ActionPhase.dispatching = false
is_terminal ActionPhase.accepted = false
is_terminal ActionPhase.running = false
is_terminal ActionPhase.stopping = false
is_terminal _ = true

abbrev pub is_unknown : ActionPhase → Bool
is_unknown ActionPhase.unknown = true
is_unknown _ = false

-- `event.type in _TERMINAL_EVENTS`
abbrev pub is_terminal_event : ToolEventType → Bool
is_terminal_event ToolEventType.progress = false
is_terminal_event ToolEventType.heartbeat = false
is_terminal_event _ = true

-- `_NONTERMINAL_ORDER`; `none` is a missing key.
abbrev pub nonterminal_order : ActionPhase → Option ℕ
nonterminal_order ActionPhase.dispatching = some 0
nonterminal_order ActionPhase.accepted = some 1
nonterminal_order ActionPhase.running = some 2
nonterminal_order ActionPhase.stopping = some 3
nonterminal_order _ = none

abbrev pub ActionKey : Type 0
ActionKey = String × String

instance abbrev pub key_eq : Eq ActionKey
key_eq = pair_eq string_eq string_eq

pub record ActionInvocationEvent : Type 0 where
  pub sequence : ℕ
  pub type : ToolEventType
  pub payload : Fields

-- `event_limit` is the `maxlen` of the deque of events; it is `none` until `create` sets it.
pub record ActionInvocation : Type 0 where
  pub invocation_id : String
  pub attempt_id : String
  pub tool_id : String
  pub implementation_id : String
  pub endpoint_id : String
  pub endpoint_instance_id : String
  pub operation : String
  pub caller_id : Option String
  pub deadline_ms : Option ℕ
  pub created_at : ℕ
  pub phase : ActionPhase
  pub result : Option ToolResult
  pub error : Option ToolError
  pub observation_error : Option ToolError
  pub cancel_status : Option String
  pub stop_status : Option String
  pub terminal_at : Option ℕ
  pub accepted_established : Bool
  pub occupies_concurrency : Bool
  pub terminal_status_hint : Option ActionPhase
  pub events : List ActionInvocationEvent
  pub event_limit : Option ℕ
  pub next_event_sequence : ℕ
  pub last_provider_sequence : ℤ
  pub terminal_event_seen : Bool

unfoldable pub key : ActionInvocation → ActionKey
key item = (item.invocation_id, item.attempt_id)

-- `deque.append`: a full deque drops its oldest element.
unfoldable pub append_bounded {ℓ} : {A : Type ℓ} → Option ℕ → List A → A → List A
append_bounded none xs x = xs ++ x ∷ []
append_bounded (some limit) xs x = let longer = xs ++ x ∷ [] in drop (length longer - limit) longer

-- `operation_active` and `active_count` test an item with this.
unfoldable pub is_active : String → String → ActionInvocation → Bool
is_active endpoint operation item =
    item.endpoint_id == endpoint && item.operation == operation && item.occupies_concurrency

-- The closing of an invocation whose outcome cannot be known.
unfoldable pub close_unknown : ℕ → ToolError → ActionInvocation → ActionInvocation
close_unknown now error item = record item {
  phase = ActionPhase.unknown;
  error = some error;
  result = some (record { status = ToolResultStatus.unknown; outputs = end; error = some error });
  terminal_at = some now;
}
