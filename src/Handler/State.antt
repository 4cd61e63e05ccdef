-- ===== src/Handler/State.antt =====
-- The execution records of `ToolEndpointHandler` in src/forge_tool/handler.py, their retention and
-- their permits. A locked section is one step; between two of them the provider's coroutine runs.
use adapter_forge_gateway.Prelude.{
  ℕ, zero, suc, String, Bool, true, false, not, ◌&&◌, ◌||◌, Option, none, some, [], ◌∷◌, ◌++◌, Eq,
  ltb, length, string_eq, nat_eq, pair_eq, List, ◌==◌, all, map, if◌then◌else◌,
}
use adapter_forge_gateway.Raise.{Result, ok, err, value_error, key_error, runtime_error, Action}
use adapter_forge_gateway.Dict.{Dict, lookup, insert, erase, elem}
use adapter_forge_gateway.Endpoint.Json.{Fields}
use adapter_forge_gateway.Endpoint.Values.{
  ExecutionPhase, ToolError, ToolResult, ToolResultStatus, ToolExecutionStatus,
  ToolOperationDescriptor, ToolEndpointDescriptor,
}
use adapter_forge_gateway.Directory.Manage.{is_blank}

abbrev pub ToolExecutionKey : Type 0
ToolExecutionKey = String × String

instance abbrev pub execution_key_eq : Eq ToolExecutionKey
execution_key_eq = pair_eq string_eq string_eq

-- What an invoke answers: `ToolAccepted | ToolResult | ToolError`.
pub data InvokeOutcome : Type 0 where
  accepted : Fields → InvokeOutcome
  finished : ToolResult → InvokeOutcome
  failed : ToolError → InvokeOutcome

-- `_ExecutionRecord`. `ready` says whether its event is set.
pub record ExecutionRecord : Type 0 where
  pub operation : String
  pub ready : Bool
  pub outcome : Option InvokeOutcome
  pub status : Option ToolExecutionStatus
  pub result : Option ToolResult
  pub invoke_started : Bool
  pub permit_held : Bool

-- The parts of `ToolEndpointHandler` that change, with the two bounds that the steps read. An
-- `OrderedDict` is the dict in insertion order.
pub record Handler : Type 0 where
  pub max_retained : ℕ
  pub max_concurrency : Dict String ℕ
  pub active : Dict String ℕ
  pub executions : Dict ToolExecutionKey ExecutionRecord

-- `_ExecutionRecord(operation=operation)`
abbrev pub observed : String → ExecutionRecord
observed operation = record {
  operation = operation;
  ready = false;
  outcome = none;
  status = none;
  result = none;
  invoke_started = false;
  permit_held = false;
}

-- The record that `_handle_start_invoke` makes.
abbrev pub started : String → ExecutionRecord
started operation = record {
  operation = operation;
  ready = false;
  outcome = none;
  status = none;
  result = none;
  invoke_started = true;
  permit_held = true;
}

-- The test of `_evict_one_locked`.
unfoldable pub is_evictable : ExecutionRecord → Bool
is_evictable r = not r.permit_held && (not r.invoke_started || r.ready)

-- `_evict_one_locked` on the records: `none` is the answer false.
unfoldable pub evict_first :
    Dict ToolExecutionKey ExecutionRecord → Option (Dict ToolExecutionKey ExecutionRecord)
evict_first [] = none
evict_first ((k, r) ∷ d) =
    let rest = evict_first d in
    if is_evictable r then some d else elim rest [ none ↦ none | some d' ↦ some ((k, r) ∷ d') ]

-- The loop of `_make_room_locked`, on fuel. The answer is beside the records that are left.
unfoldable pub make_room_loop :
    ℕ → ℕ → Dict ToolExecutionKey ExecutionRecord → Bool × Dict ToolExecutionKey ExecutionRecord
make_room_loop zero bound d = (false, d)
make_room_loop (suc fuel) bound d =
    if ltb (length d) bound
    then (true, d)
    else elim (evict_first d) [ none ↦ (false, d) | some d' ↦ make_room_loop fuel bound d' ]

-- Each turn removes a record, so one turn more than there are records is enough.
unfoldable pub make_room : Action Handler Bool
make_room h =
    let (room, left) = make_room_loop (suc (length h.executions)) h.max_retained h.executions in
    (ok room, record h { executions = left })

-- `self._executions.move_to_end(key)` for a record that is there.
unfoldable pub move_to_end :
    ToolExecutionKey
    → ExecutionRecord
    → Dict ToolExecutionKey ExecutionRecord
    → Dict ToolExecutionKey ExecutionRecord
move_to_end k r d = erase k d ++ (k, r) ∷ []

abbrev pub count_of : String → Dict String ℕ → ℕ
count_of operation d = elim (lookup operation d) [ none ↦ 0 | some n ↦ n ]

-- `_release_permit_locked` on the record at `k`, which is `r`.
unfoldable pub release_permit : ToolExecutionKey → ExecutionRecord → Action Handler ExecutionRecord
release_permit k r h = if not r.permit_held then (ok r, h) else elim (lookup r.operation h.active) [
  | none ↦ (
    err key_error,
    record h { executions = insert k (record r { permit_held = false }) h.executions },
  )
  | some zero ↦ (
    err runtime_error,
    record h { executions = insert k (record r { permit_held = false }) h.executions },
  )
  | some (suc active) ↦ (
    ok (record r { permit_held = false }),
    record h {
      active = insert r.operation active h.active;
      executions = insert k (record r { permit_held = false }) h.executions;
    },
  )
]

-- `phase in _TERMINAL_PHASES`
abbrev pub is_terminal : ExecutionPhase → Bool
is_terminal ExecutionPhase.accepted = false
is_terminal ExecutionPhase.running = false
is_terminal ExecutionPhase.stopping = false
is_terminal _ = true

-- `current in _ALLOWED_PHASE_TRANSITIONS[previous]`, for a nonterminal `previous`.
unfoldable pub is_allowed : ExecutionPhase → ExecutionPhase → Bool
is_allowed ExecutionPhase.accepted current = true
is_allowed ExecutionPhase.running ExecutionPhase.accepted = false
is_allowed ExecutionPhase.running current = true
is_allowed ExecutionPhase.stopping ExecutionPhase.accepted = false
is_allowed ExecutionPhase.stopping ExecutionPhase.running = false
is_allowed ExecutionPhase.stopping current = true
is_allowed _ current = false

-- `_TERMINAL_PHASE_RESULTS`
abbrev pub result_of_phase : ExecutionPhase → Option ToolResultStatus
result_of_phase ExecutionPhase.completed = some ToolResultStatus.succeeded
result_of_phase ExecutionPhase.failed = some ToolResultStatus.failed
result_of_phase ExecutionPhase.cancelled = some ToolResultStatus.cancelled
result_of_phase ExecutionPhase.stopped = some ToolResultStatus.stopped
result_of_phase ExecutionPhase.unknown = some ToolResultStatus.unknown
result_of_phase _ = none

unfoldable pub status_beq : ToolResultStatus → ToolResultStatus → Bool
status_beq ToolResultStatus.succeeded ToolResultStatus.succeeded = true
status_beq ToolResultStatus.failed ToolResultStatus.failed = true
status_beq ToolResultStatus.cancelled ToolResultStatus.cancelled = true
status_beq ToolResultStatus.stopped ToolResultStatus.stopped = true
status_beq ToolResultStatus.unknown ToolResultStatus.unknown = true
status_beq _ _ = false

-- `validate_execution_result` of src/forge_tool/endpoint/models.py.
unfoldable pub matches_result : ToolExecutionStatus → ToolResult → Bool
matches_result status result = elim (result_of_phase status.phase) [
  | none ↦ false
  | some expected ↦ status_beq result.status expected
]

-- The dict comprehensions of `__init__` over the operations.
unfoldable pub actives_from : List ToolOperationDescriptor → Dict String ℕ → Dict String ℕ
actives_from [] d = d
actives_from (o ∷ os) d = actives_from os (insert o.name 0 d)

unfoldable pub limits_from : List ToolOperationDescriptor → Dict String ℕ → Dict String ℕ
limits_from [] d = d
limits_from (o ∷ os) d = limits_from os (insert o.name o.max_concurrency d)

abbrev pub name_of : ToolOperationDescriptor → String
name_of o = o.name

abbrev pub tool_endpoint_protocol : String
tool_endpoint_protocol = "forge.tool.endpoint/v1alpha1"

-- `__init__`, by the names of the implementations. That each implementation has the methods of its
-- operation's semantics is taken as given.
unfoldable pub init : ToolEndpointDescriptor → String → List String → ℕ → ℕ → Result Handler
init descriptor endpoint_instance_id implementations max_early_events max_retained =
    let declared = map name_of descriptor.operations in
    if not (descriptor.protocol_version == tool_endpoint_protocol)
    then err value_error
    else if max_early_events == 0 || max_retained == 0
    then err value_error
    else if not (
        all (λ name. elem name implementations) declared
        && all (λ name. elem name declared) implementations)
    then err value_error
    else if is_blank endpoint_instance_id
    then err value_error
    else ok (record {
      max_retained = max_retained;
      max_concurrency = limits_from descriptor.operations [];
      active = actives_from descriptor.operations [];
      executions = [];
    })
