-- ===== src/Gateway/Withdrawn.antt =====
-- How a Query ends whose HTTP caller gave up, or whose message to the provider could not be sent.
use adapter_forge_gateway.Gateway.Text.{text}
use adapter_forge_gateway.Endpoint.Json.{end}
use adapter_forge_gateway.Prelude.{
  ◌↔◌, ◌≢◌, ◌⊎◌, ◌∙◌, sym, arith, nat_eq, none, [], ◌∷◌, Option, String, ℕ, ◌≡◌, refl, Bool, true,
  false, some, Bool-cases, inl, inr,
}
use adapter_forge_gateway.Raise.{Exception, Result, ok}
use adapter_forge_gateway.Raise.Method.{pure, lift, gets, ◌>>=◌, choose, branch}
use adapter_forge_gateway.Dict.{lookup}
use adapter_forge_gateway.Endpoint.Values.{ToolError}
use adapter_forge_gateway.Gateway.Envelope.{
  Payload, CorrelationKey, correlation_eq, option_beq, option_beq_iff,
}
use adapter_forge_gateway.Gateway.State.{
  OutboundKind, OutboundMessage, PendingInvocation, Gateway, Ambient,
}
use adapter_forge_gateway.Gateway.Slots.{Holds}
use adapter_forge_gateway.Gateway.Endings.{
  Ticket, is_future, wait_error, end_pending, cancel_http_invoke, dispatch_failed, output_failed,
}
use adapter_forge_gateway.Gateway.Answered.{
  reply, logical_error_response-ok, answer, answered, pending-logical, finish_pending-answered,
}

-- The Query has ended with an error as its answer, or with the timeout error after its deadline.
abbrev pub failed_with :
    ToolError → ℕ → Bool → CorrelationKey → PendingInvocation → Gateway → Result Bool × Gateway
failed_with error now timed_out key pending g = (
  ok true,
  answered pending.future key pending
      (answer pending (reply (Payload.tool_error error) pending.logical_request) now timed_out) g,
)

-- The error of a Query whose caller went away before the deadline.
abbrev pub cancelled_error : ToolError
cancelled_error = record {
  code = "FORGE_TOOL_CALLER_CANCELLED";
  message = "HTTP caller stopped waiting for Tool Query invocation";
  retryable = false;
  details = end;
}

-- The error of a Query whose message could not be sent, by the text of the exception.
abbrev pub unsent_error : String → ToolError
unsent_error reason = record {
  code = "FORGE_TOOL_TRANSPORT_UNAVAILABLE";
  message = text ("provider request dispatch failed: " ∷ reason ∷ []);
  retryable = true;
  details = end;
}

is_future_iff : (o : Option ℕ) (id : ℕ) → (is_future o id ≡ true) ↔ (o ≡ some id)
is_future_iff none id = ground arith
is_future_iff (some f) id = ground (arith, nat_eq.beq_iff f id)

module _ {capacity n : ℕ} (key : CorrelationKey) (pending : PendingInvocation) (g : Gateway)
    (h : Holds capacity n g) (held : lookup key g.pending_by_provider_key ≡ some pending) where
  end_pending-answered :
      (error : ToolError) (now : ℕ) (timed_out : Bool)
      → end_pending key pending error now timed_out g
        ≡ failed_with error now timed_out key pending g
  unfolding end_pending lift ◌>>=◌
  end_pending-answered error now timed_out =
      rw
        (
          end_pending,
          logical_error_response-ok error pending.logical_request
              (pending-logical key pending g h held),
        )
        (finish_pending-answered key pending g h held _ now timed_out)

  wait_error-answer :
      (timed_out : Bool) (now : ℕ)
      → failed_with (wait_error timed_out) now timed_out key pending g
        ≡ failed_with cancelled_error now timed_out key pending g
  wait_error-answer true now = refl
  wait_error-answer false now = refl

  -- Where the mailbox's accounting holds and the ticket's key is that of a pending Query, a caller that
  -- gives up ends the Query if it waits for the ticket's future. Its answer is the timeout error if the
  -- caller ran out of time or the deadline has come, and otherwise the error that the caller stopped
  -- waiting. A Query that waits for another future stays, and nothing changes.
  pub cancel_http_invoke-answered :
      (ticket : Ticket) (timed_out : Bool) (now : ℕ)
      → ticket.pending_key ≡ some key
      → (pending.future ≡ some ticket.future)
          × (cancel_http_invoke ticket timed_out now g
              ≡ failed_with cancelled_error now timed_out key pending g)
        ⊎ (pending.future ≢ some ticket.future)
          × (cancel_http_invoke ticket timed_out now g ≡ (ok false, g))
  unfolding cancel_http_invoke gets choose branch pure ◌>>=◌
  cancel_http_invoke-answered ticket timed_out now keyed =
      let mine = is_future_iff pending.future ticket.future in
      elim (Bool-cases (is_future pending.future ticket.future)) [
        | inl e ↦ inl (
          mine.0 e,
          rw (cancel_http_invoke, keyed, held, e)
              (end_pending-answered (wait_error timed_out) now timed_out
                ∙ wait_error-answer timed_out now),
        )
        | inr e ↦ inr (
          λ same. absurd (ground (arith, e, mine.1 same)),
          rw (cancel_http_invoke, keyed, held, e) refl,
        )
      ]

  -- Where the mailbox's accounting holds, a message to the provider of a pending Query that could not
  -- be sent ends the Query if the message carries the Query's token. Its answer is then the error that
  -- the transport is unavailable, which may be retried, or the timeout error if the deadline has come.
  -- A message with another token was for an earlier Query under the same key, and nothing changes.
  pub output_failed-answered :
      (w : Ambient) (message : OutboundMessage) (error : Exception) (now : ℕ)
      → message.kind ≡ OutboundKind.provider_invoke_request
      → message.pending_key ≡ some key
      → (message.pending_token ≡ some pending.pending_token)
          × (output_failed w message error now g
              ≡ failed_with (unsent_error (w.text_of error)) now false key pending g)
        ⊎ (message.pending_token ≢ some pending.pending_token)
          × (output_failed w message error now g ≡ (ok false, g))
  unfolding output_failed gets choose branch pure ◌>>=◌
  output_failed-answered w message error now kind keyed =
      let mine = option_beq_iff (some pending.pending_token) message.pending_token in
      elim (Bool-cases (option_beq (some pending.pending_token) message.pending_token)) [
        | inl e ↦ inl (
          sym (mine.0 e),
          rw (output_failed, kind, keyed, held, e)
              (end_pending-answered (dispatch_failed w error) now false),
        )
        | inr e ↦ inr (
          λ same. absurd (ground (arith, e, mine.1 (sym same))),
          rw (output_failed, kind, keyed, held, e) refl,
        )
      ]
