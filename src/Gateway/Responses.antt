-- ===== src/Gateway/Responses.antt =====
-- Which response of a provider ends a Query, and with which answer.
use adapter_forge_gateway.Prelude.{
  Bool-cases, inl, inr, ℕ, ◌≡◌, refl, Bool, true, false, ◌&&◌, some, string_eq, arith,
}
use adapter_forge_gateway.Raise.{Exception, Result, ok, err, value_error}
use adapter_forge_gateway.Raise.Method.{raise, lift, gets, ◌>>=◌, ◌>>◌, choose, when}
use adapter_forge_gateway.Dict.{lookup}
use adapter_forge_gateway.Handler.State.{InvokeOutcome}
use adapter_forge_gateway.Directory.State.{ToolProviderRouteIdentity, route_beq}
use adapter_forge_gateway.Gateway.Envelope.{
  Payload, ToolEnvelope, CorrelationKey, correlation_eq, correlation_key, addressed,
  validate_correlation, logical_envelope, logical_error_response, logical_provider_response,
}
use adapter_forge_gateway.Gateway.Correlation.{matches, validate_correlation-Correlated}
use adapter_forge_gateway.Gateway.State.{PendingInvocation, Gateway, make_error}
use adapter_forge_gateway.Gateway.Slots.{is_logical_request, Holds}
use adapter_forge_gateway.Gateway.HttpQueries.{caller_response, end_query, handle_provider_response}
use adapter_forge_gateway.Gateway.Answered.{
  logical_error_response-ok, reply, answer, answered, pending-logical, finish_pending-answered,
}

-- A Query must end with its response, so an acceptance becomes an error.
abbrev pub query_payload : Payload → Payload
query_payload (Payload.invoke_response (InvokeOutcome.accepted details)) = Payload.tool_error (
    make_error "FORGE_TOOL_QUERY_NON_TERMINAL_RESPONSE"
      "a Query provider must return a terminal invoke response" false)
query_payload payload = payload

abbrev pub Decided : Bool → Gateway → Gateway → Result Bool × Gateway → Type 0
Decided true before ends r = r ≡ (ok true, ends)
Decided false before ends r = (x : Exception) × (r ≡ (err x, before))

caller_response-ok :
    (response : ToolEnvelope) (payload : Payload) (request : ToolEnvelope)
    → is_logical_request request ≡ true
    → response.payload ≡ payload
    → caller_response response payload request ≡ ok (reply (query_payload payload) request)
unfolding addressed logical_provider_response logical_envelope logical_error_response
caller_response-ok response (Payload.invoke_response (InvokeOutcome.accepted details)) request h
      same =
    logical_error_response-ok _ request h
caller_response-ok response payload request h same = ground (arith, h, same)

module _ {capacity n : ℕ} (route : ToolProviderRouteIdentity) (response : ToolEnvelope) (at : ℕ)
    (key : CorrelationKey) (pending : PendingInvocation) (g : Gateway)
    (h : Holds capacity n g) where
  -- The service after the answer that the response becomes.
  abbrev pub ended : Gateway
  ended =
      answered pending.future key pending
        (answer pending (reply (query_payload response.payload) pending.logical_request) at false) g

  end_query-Decided :
      lookup key g.pending_by_provider_key ≡ some pending
      → Decided
          (route_beq pending.route route && matches pending.provider_request response)
          g
          ended
          (end_query route response at key pending g)
  unfolding end_query when raise lift ◌>>=◌ ◌>>◌
  end_query-Decided held =
      let checked = validate_correlation-Correlated pending.provider_request response in
      elim (Bool-cases (route_beq pending.route route)) [
        | inr e ↦ rw (end_query, e) (value_error, refl)
        | inl e ↦ elim (Bool-cases (matches pending.provider_request response)) [
          | inr m ↦ let (x, refused) = rw m at checked in rw (end_query, e, m, refused) (x, refl)
          | inl m ↦
              let accepted : validate_correlation pending.provider_request response ≡ ok tt =
                rw m at checked in
              let made =
                caller_response-ok response response.payload pending.logical_request
                  (pending-logical key pending g h held) refl in
              rw (end_query, e, m, accepted, made)
                (finish_pending-answered key pending g h held _ at false)
        ]
      ]

  -- Where the mailbox's accounting holds, a provider's response to a pending Query is accepted if and
  -- only if it came by the provider's route, is of the type that answers the request, and repeats its
  -- IDs, endpoint, instance and operation. An accepted response ends the Query: its caller's answer is
  -- the response itself, an error where it is an acceptance, since a Query has to end with its
  -- response, and the timeout error after the deadline. Any other raises and changes nothing.
  pub handle_provider_response-Decided :
      correlation_key response ≡ ok key
      → lookup key g.pending_by_provider_key ≡ some pending
      → Decided
          (route_beq pending.route route && matches pending.provider_request response)
          g
          ended
          (handle_provider_response route response at g)
  unfolding handle_provider_response lift gets choose ◌>>=◌
  handle_provider_response-Decided keyed held =
      rw (handle_provider_response, keyed, held) (end_query-Decided held)
