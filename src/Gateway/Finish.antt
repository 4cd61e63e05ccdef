-- ===== src/Gateway/Finish.antt =====
-- How `ToolGatewayService` of src/forge_gateway/services/tool_gateway_service.py ends pending
-- invocations and Action exchanges. An entry stands for itself by its key, since nothing is put
-- under a pending key while the loops over a snapshot of the entries run.
use adapter_forge_gateway.Prelude.{
  ℕ, ◌+◌, String, Bool, true, false, not, ◌&&◌, ◌||◌, Option, none, some, List, [], ◌∷◌, ◌==◌, leb,
  any, nat_eq, string_eq, is_some, if◌then◌else◌,
}
use adapter_forge_gateway.Raise.{runtime_error, assertion_error, Action}
use adapter_forge_gateway.Raise.Method.{
  pure, raise, lift, gets, ◌>>=◌, ◌>>◌, choose, branch, modify, when, for_each,
}
use adapter_forge_gateway.Dict.{lookup, insert, erase, keys_where}
use adapter_forge_gateway.Endpoint.Json.{end}
use adapter_forge_gateway.Endpoint.Values.{ToolError, ToolResult, ToolResultStatus}
use adapter_forge_gateway.Endpoint.Responses.{ToolControlCommand}
use adapter_forge_gateway.Invocations.Item.{ActionPhase, ActionKey, key_eq}
use adapter_forge_gateway.Invocations.Store.{set_phase, set_cancel_status, set_observation_error}
use adapter_forge_gateway.Invocations.Observe.{mark_instance_ambiguous}
use adapter_forge_gateway.Directory.State.{
  ToolProviderRouteIdentity, RegisteredEndpoint, route_beq, endpoint_id_of,
}
use adapter_forge_gateway.Gateway.Text.{text}
use adapter_forge_gateway.Gateway.Envelope.{
  ToolEnvelope, CorrelationKey, correlation_eq, option_beq, logical_error_response,
}
use adapter_forge_gateway.Gateway.State.{
  OutboundKind, PendingInvocation, Purpose, ActionExchange, Gateway, Ambient, on_invocations,
  append_to_caller, respond, make_error,
}

abbrev pub or_empty : Option String → String
or_empty none = ""
or_empty (some value) = value

-- `if not future.done(): future.set_result(response)`
unfoldable pub settle : ℕ → ToolEnvelope → Gateway → Gateway
settle future response g =
    if is_some (lookup future g.settled)
    then g
    else record g { settled = insert future response g.settled }

-- `_complete_without_pending_locked`
unfoldable pub complete_without_pending :
    ToolEnvelope → ToolError → Option ℕ → Bool → Action Gateway (Unit {0})
complete_without_pending request error future terminal_slot_reserved = do
  response ← lift (logical_error_response error request)
  choose future
      (when (not terminal_slot_reserved) (raise runtime_error)
        >> append_to_caller OutboundKind.caller_invoke_response response)
      (λ id. modify (settle id response))

abbrev pub invoke_timeout : ToolError
invoke_timeout = make_error "FORGE_TOOL_INVOKE_TIMEOUT" "Tool Query invocation timed out" true

-- `_timeout_response_locked`
unfoldable pub timeout_response : PendingInvocation → Action Gateway ToolEnvelope
timeout_response pending = lift (logical_error_response invoke_timeout pending.logical_request)

abbrev pub without_key : CorrelationKey → List CorrelationKey → List CorrelationKey
without_key key [] = []
without_key key (k ∷ ks) = let rest = without_key key ks in if k == key then rest else k ∷ rest

-- `_remove_pending_locked`, of a pending invocation that is held.
unfoldable pub remove_pending : CorrelationKey → PendingInvocation → Gateway → Gateway
remove_pending key pending g = record g {
  pending_by_provider_key = erase key g.pending_by_provider_key;
  pending_logical_keys = without_key pending.logical_key g.pending_logical_keys;
}

-- `pending.terminal_slot_reserved = False`
unfoldable pub release_terminal : CorrelationKey → PendingInvocation → Gateway → Gateway
release_terminal key pending g = record g {
  pending_by_provider_key =
      insert key (record pending { terminal_slot_reserved = false }) g.pending_by_provider_key;
}

-- The end of `_finish_pending_locked` for a Dora caller: the response takes the terminal slot.
unfoldable pub finish_dora :
    CorrelationKey → PendingInvocation → ToolEnvelope → Action Gateway (Unit {0})
finish_dora key pending response = do
  when (not pending.terminal_slot_reserved) (raise runtime_error)
  append_to_caller OutboundKind.caller_invoke_response response
  modify (release_terminal key pending)
  modify (remove_pending key pending)

-- `_finish_pending_locked`, of a pending invocation that is held.
unfoldable pub finish_held :
    CorrelationKey → PendingInvocation → ToolEnvelope → ℕ → Bool → Action Gateway (Unit {0})
finish_held key pending response observed_at timed_out = do
  chosen ←
      branch (timed_out || leb pending.deadline observed_at) (timeout_response pending)
        (pure response)
  choose pending.future (finish_dora key pending chosen)
      (λ id. modify (settle id chosen) >> modify (remove_pending key pending))

-- `_finish_pending_locked`
unfoldable pub finish_pending : CorrelationKey → ToolEnvelope → ℕ → Bool → Action Gateway Bool
finish_pending key response observed_at timed_out = do
  held ← gets (λ g. lookup key g.pending_by_provider_key)
  choose held (pure false)
      (λ pending. finish_held key pending response observed_at timed_out >> pure true)

-- `del self._action_exchanges[…]`
unfoldable pub delete_exchange : CorrelationKey → Gateway → Gateway
delete_exchange key g = record g { action_exchanges = erase key g.action_exchanges }

abbrev pub result_of : ToolResultStatus → ToolError → ToolResult
result_of status error = record { status = status; outputs = end; error = some error }

-- What a failed exchange does to its Action, by its purpose.
unfoldable pub fail_action : Purpose → ActionKey → ToolError → ℕ → Bool → Action Gateway (Unit {0})
fail_action Purpose.invoke key error observed_at execution_ambiguous =
    let unknown = make_error "FORGE_TOOL_EXECUTION_OUTCOME_UNKNOWN" error.message false in
    branch execution_ambiguous
      (on_invocations (
          set_phase key ActionPhase.unknown observed_at
            (some (result_of ToolResultStatus.unknown unknown)) (some unknown) false)
        >> pure tt)
      (on_invocations (
          set_phase key ActionPhase.failed observed_at
            (some (result_of ToolResultStatus.failed error)) (some error) true)
        >> pure tt)
fail_action (Purpose.control ToolControlCommand.cancel) key error observed_at execution_ambiguous =
    on_invocations (set_cancel_status key "transport_error")
    >> on_invocations (set_observation_error key error)
    >> pure tt
fail_action _ key error observed_at execution_ambiguous =
    on_invocations (set_observation_error key error) >> pure tt

-- The answer to the Dora caller of a failed exchange, which has been removed.
unfoldable pub answer_failed : ActionExchange → ToolError → Action Gateway (Unit {0})
answer_failed exchange error = when exchange.caller_response_reserved (
    choose exchange.logical_request (raise assertion_error)
      (λ request. respond OutboundKind.caller_action_response error request))

-- `_finish_action_exchange_error_locked`, of an exchange that is held.
unfoldable pub fail_exchange :
    CorrelationKey → ActionExchange → ToolError → ℕ → Bool → Action Gateway (Unit {0})
fail_exchange key exchange error observed_at execution_ambiguous = do
  modify (delete_exchange key)
  fail_action exchange.purpose exchange.execution_key error observed_at execution_ambiguous
  answer_failed exchange error

-- `_finish_action_exchange_error_locked` on the exchange that is held under a key, with an error and
-- a doubt that depend on the exchange.
unfoldable pub finish_action_exchange_error :
    CorrelationKey
    → (ActionExchange → ToolError)
    → ℕ
    → (ActionExchange → Bool)
    → Action Gateway Bool
finish_action_exchange_error key error_of observed_at is_ambiguous = do
  held ← gets (λ g. lookup key g.action_exchanges)
  choose held (pure false) (λ exchange.
      fail_exchange key exchange (error_of exchange) observed_at (is_ambiguous exchange)
      >> pure true)

-- `exchange.purpose == "invoke"`
abbrev pub is_invoke : ActionExchange → Bool
is_invoke exchange = elim exchange.purpose [ Purpose.invoke ↦ true | _ ↦ false ]

-- `exchange.purpose == "invoke" and exchange.dispatch_claimed`
abbrev pub is_claimed_invoke : ActionExchange → Bool
is_claimed_invoke exchange = is_invoke exchange && exchange.dispatch_claimed

-- Membership of a request and its route in `removed_routes`.
unfoldable pub is_removed :
    List RegisteredEndpoint → ToolEnvelope → ToolProviderRouteIdentity → Bool
is_removed removed request route =
    any
      (λ r.
        endpoint_id_of r == request.endpoint_id
        && option_beq (some r.endpoint_instance_id) request.endpoint_instance_id
        && route_beq r.route route)
      removed

abbrev pub exchange_removed : List RegisteredEndpoint → ActionExchange → Bool
exchange_removed removed exchange = is_removed removed exchange.provider_request exchange.route

abbrev pub pending_removed : List RegisteredEndpoint → PendingInvocation → Bool
pending_removed removed pending =
    not pending.dispatch_claimed && is_removed removed pending.provider_request pending.route

abbrev pub removed_error : ActionExchange → ToolError
removed_error exchange =
    make_error "FORGE_TOOL_ENDPOINT_UNAVAILABLE" "pinned provider instance became unavailable"
      (not exchange.dispatch_claimed)

abbrev pub is_claimed : ActionExchange → Bool
is_claimed exchange = exchange.dispatch_claimed

-- The second loop of `_finish_unclaimed_for_removed_locked`.
unfoldable pub forget_registration : ℕ → RegisteredEndpoint → Action Gateway (Unit {0})
forget_registration observed_at r = do
  modify (λ g. record g {
    endpoint_statuses = erase (endpoint_id_of r, r.endpoint_instance_id) g.endpoint_statuses;
  })
  on_invocations (
      mark_instance_ambiguous (endpoint_id_of r) r.endpoint_instance_id observed_at
        "pinned provider lease expired or provider instance restarted; the Action outcome is ambiguous")
  pure tt

-- The response of the third loop, and whether it counts as a timeout.
abbrev pub unavailable_before_dispatch : Ambient → ToolEnvelope → ToolError
unavailable_before_dispatch w request =
    make_error "FORGE_TOOL_ENDPOINT_UNAVAILABLE"
      (text (
        "endpoint "
        ∷ w.quote request.endpoint_id
        ∷ " instance "
        ∷ w.quote (or_empty request.endpoint_instance_id)
        ∷ " became unavailable before provider dispatch"
        ∷ []))
      true

unfoldable pub finish_removed :
    Ambient → ℕ → CorrelationKey → PendingInvocation → Action Gateway (ℕ × ℕ)
finish_removed w observed_at key pending = do
  when (not (is_some pending.provider_request.endpoint_instance_id)) (raise assertion_error)
  response ← lift (
      logical_error_response (unavailable_before_dispatch w pending.provider_request)
        pending.logical_request)
  finished ← finish_pending key response observed_at false
  pure (if finished then (1, if leb pending.deadline observed_at then 1 else 0) else (0, 0))

-- The third loop, over the keys of `affected`: how many it completed, and how many timed out.
unfoldable pub finish_each_removed : Ambient → ℕ → List CorrelationKey → Action Gateway (ℕ × ℕ)
finish_each_removed w observed_at [] = pure (0, 0)
finish_each_removed w observed_at (key ∷ keys) = do
  held ← gets (λ g. lookup key g.pending_by_provider_key)
  first ← choose held (pure (0, 0)) (finish_removed w observed_at key)
  rest ← finish_each_removed w observed_at keys
  pure (first.0 + rest.0, first.1 + rest.1)

-- `_finish_unclaimed_for_removed_locked`
unfoldable pub finish_unclaimed_for_removed :
    Ambient → List RegisteredEndpoint → ℕ → Action Gateway (ℕ × ℕ)
finish_unclaimed_for_removed w [] observed_at = pure (0, 0)
finish_unclaimed_for_removed w (r ∷ rs) observed_at = do
  exchanges ← gets (λ g. keys_where (exchange_removed (r ∷ rs)) g.action_exchanges)
  for_each exchanges
      (λ key. finish_action_exchange_error key removed_error observed_at is_claimed >> pure tt)
  for_each (r ∷ rs) (forget_registration observed_at)
  affected ← gets (λ g. keys_where (pending_removed (r ∷ rs)) g.pending_by_provider_key)
  finish_each_removed w observed_at affected
