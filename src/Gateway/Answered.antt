-- ===== src/Gateway/Answered.antt =====
-- That ending a pending Query succeeds, and gives its caller exactly one answer.
use adapter_forge_gateway.Prelude.{
  keep, not, ◌==◌, is_some, List, ap, nat_eq, ℕ, ◌-◌, ◌≡◌, refl, Bool, true, false, ◌||◌, Option,
  none, some, [], ◌∷◌, ◌++◌, leb, ltb, arith, Bool-cases, inl, inr, if◌then◌else◌,
}
use adapter_forge_gateway.Raise.{ok}
use adapter_forge_gateway.Raise.Method.{
  pure, raise, lift, gets, ◌>>=◌, ◌>>◌, choose, branch, modify, when,
}
use adapter_forge_gateway.Endpoint.Json.{end}
use adapter_forge_gateway.Dict.{insert, lookup, erase}
use adapter_forge_gateway.Dict.Size.{count-zero, count-erase, erase-insert}
use adapter_forge_gateway.Endpoint.Values.{ToolError}
use adapter_forge_gateway.Gateway.Envelope.{
  Payload, ToolEnvelope, CorrelationKey, correlation_eq, addressed, logical_envelope,
  logical_error_response,
}
use adapter_forge_gateway.Gateway.State.{
  OutboundKind, OutboundMessage, PendingInvocation, Gateway, append_reserved_outbound,
  append_to_caller, caller_message,
}
use adapter_forge_gateway.Gateway.Slots.{is_logical_request, is_owed_terminal, is_stuck, Holds}
use adapter_forge_gateway.Gateway.Finish.{
  invoke_timeout, settle, without_key, timeout_response, remove_pending, release_terminal,
  finish_dora, finish_held, finish_pending,
}

-- A response to the caller of a request, with the request's IDs.
abbrev pub reply : Payload → ToolEnvelope → ToolEnvelope
reply payload request = record {
  request_id = request.request_id;
  invocation_id = request.invocation_id;
  attempt_id = request.attempt_id;
  endpoint_id = request.endpoint_id;
  endpoint_instance_id = none;
  operation = request.operation;
  sequence = none;
  payload = payload;
}

-- The error of a Query that is past its deadline.
abbrev pub timed_out_error : ToolError
timed_out_error = record {
  code = "FORGE_TOOL_INVOKE_TIMEOUT";
  message = "Tool Query invocation timed out";
  retryable = true;
  details = end;
}

pub logical_error_response-ok :
    (error : ToolError) (request : ToolEnvelope)
    → is_logical_request request ≡ true
    → logical_error_response error request ≡ ok (reply (Payload.tool_error error) request)
unfolding addressed logical_error_response logical_envelope
logical_error_response-ok error request h = ground arith

-- The answer that a response becomes: after the deadline it is a timeout.
abbrev pub answer : PendingInvocation → ToolEnvelope → ℕ → Bool → ToolEnvelope
answer pending response at timed_out =
    if timed_out || leb pending.deadline at
    then reply (Payload.tool_error timed_out_error) pending.logical_request
    else response

-- The message to a Dora caller.
abbrev pub message_to_caller : ToolEnvelope → Gateway → OutboundMessage
message_to_caller envelope g = record {
  output_id = g.response_output_id;
  envelope = envelope;
  kind = OutboundKind.caller_invoke_response;
  pending_key = none;
  pending_token = none;
}

-- The service once a caller has its answer: a Dora caller by a message in the slot that was kept for
-- it, and an HTTP caller as the result of its future, if that has none yet.
abbrev pub answered :
    Option ℕ → CorrelationKey → PendingInvocation → ToolEnvelope → Gateway → Gateway
answered none key pending envelope g = record g {
  outbound = g.outbound ++ message_to_caller envelope g ∷ [];
  reserved_outbound_slots = g.reserved_outbound_slots - 1;
  pending_by_provider_key = erase key g.pending_by_provider_key;
  pending_logical_keys = keep (λ k. not (k == pending.logical_key)) g.pending_logical_keys;
}
answered (some future) key pending envelope g = record g {
  settled =
      if is_some (lookup future g.settled) then g.settled else insert future envelope g.settled;
  pending_by_provider_key = erase key g.pending_by_provider_key;
  pending_logical_keys = keep (λ k. not (k == pending.logical_key)) g.pending_logical_keys;
}

without_key-keep :
    (key : CorrelationKey) (ks : List CorrelationKey)
    → without_key key ks ≡ keep (λ k. not (k == key)) ks
without_key-keep key [] = refl
without_key-keep key (k ∷ ks) = ground (arith, without_key-keep key ks)

settle-remove_pending :
    (future : ℕ) (key : CorrelationKey) (pending : PendingInvocation) (envelope : ToolEnvelope)
    (g : Gateway)
    → remove_pending key pending (settle future envelope g)
      ≡ answered (some future) key pending envelope g
unfolding remove_pending settle
settle-remove_pending future key pending envelope g =
    elim (Bool-cases (is_some (lookup future g.settled))) [
      | inl e ↦ rw (settle, e, without_key-keep pending.logical_key g.pending_logical_keys) refl
      | inr e ↦ rw (settle, e, without_key-keep pending.logical_key g.pending_logical_keys) refl
    ]

module _ {capacity n : ℕ} (key : CorrelationKey) (pending : PendingInvocation) (g : Gateway)
    (h : Holds capacity n g) (held : lookup key g.pending_by_provider_key ≡ some pending) where
  pub pending-logical : is_logical_request pending.logical_request ≡ true
  pending-logical = ground (
    arith,
    count-zero is_stuck key pending g.pending_by_provider_key h.tables.pendings_answerable held,
  )

  pending-waits : pending.future ≡ none → pending.terminal_slot_reserved ≡ true
  pending-waits e = ground (
    arith,
    count-zero is_stuck key pending g.pending_by_provider_key h.tables.pendings_answerable held,
  )

  finish_dora-answered :
      (response : ToolEnvelope)
      → pending.terminal_slot_reserved ≡ true
      → finish_dora key pending response g ≡ (ok tt, answered none key pending response g)
  unfolding finish_dora append_to_caller append_reserved_outbound ◌>>◌ ◌>>=◌ modify gets when raise
      remove_pending release_terminal caller_message
  finish_dora-answered response e =
      let owed =
        count-erase is_owed_terminal key pending g.pending_by_provider_key h.tables.pending_keys
          held in
      let free : ltb g.reserved_outbound_slots 1 ≡ false = ground (arith, h.covered, owed, e) in
      rw
        (
          e,
          finish_dora,
          free,
          erase-insert,
          without_key-keep pending.logical_key g.pending_logical_keys,
        )
        refl

  finish_chosen-answered :
      (future : Option ℕ) (response : ToolEnvelope)
      → pending.future ≡ future
      → (choose future
            (finish_dora key pending response)
            (λ id. modify (settle id response) >> modify (remove_pending key pending)))
          g
        ≡ (ok tt, answered future key pending response g)
  unfolding choose modify ◌>>◌ ◌>>=◌
  finish_chosen-answered none response e = finish_dora-answered response (pending-waits e)
  finish_chosen-answered (some id) response e =
      ap (λ (after : Gateway). (ok tt, after)) (settle-remove_pending id key pending response g)

  finish_held-answered :
      (response : ToolEnvelope) (at : ℕ) (timed_out : Bool)
      → finish_held key pending response at timed_out g
        ≡ (ok tt, answered pending.future key pending (answer pending response at timed_out) g)
  unfolding finish_held timeout_response branch pure lift ◌>>=◌
  finish_held-answered response at timed_out =
      let timeout =
        logical_error_response-ok invoke_timeout pending.logical_request pending-logical in
      elim (Bool-cases (timed_out || leb pending.deadline at)) [
        | inl e ↦ rw (finish_held, e, timeout) (finish_chosen-answered pending.future _ refl)
        | inr e ↦ rw (finish_held, e) (finish_chosen-answered pending.future response refl)
      ]

  -- Where the mailbox's accounting holds, a pending Query ends without raising. A Dora caller gets the
  -- answer as the last message of the mailbox, in the slot that was kept for it; for an HTTP caller it
  -- becomes the result of the future, if that has none yet. The answer is the response, or the timeout
  -- error with the request's IDs if the call is a timeout or its time is not before the deadline. The
  -- Query is then no longer pending, nor its logical key taken, and nothing else changes.
  pub finish_pending-answered :
      (response : ToolEnvelope) (at : ℕ) (timed_out : Bool)
      → finish_pending key response at timed_out g
        ≡ (ok true, answered pending.future key pending (answer pending response at timed_out) g)
  unfolding finish_pending gets ◌>>=◌ ◌>>◌ choose pure
  finish_pending-answered response at timed_out =
      rw (finish_pending, held, finish_held-answered response at timed_out) refl
