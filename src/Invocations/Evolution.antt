-- ===== src/Invocations/Evolution.antt =====
-- How one invocation may change: its identity is pinned, its phase only moves forward, and once it is
-- closed with a known outcome the outcome stays.
use adapter_forge_gateway.Prelude.{
  ℕ, ◌≤◌, ◌≡◌, ◌∙◌, String, Bool, true, false, Option, none, some, arith,
}
use adapter_forge_gateway.Prelude.Int.{ℤ}
use adapter_forge_gateway.Raise.{ok}
use adapter_forge_gateway.Endpoint.Values.{ToolError, ToolResult, ToolEvent}
use adapter_forge_gateway.Invocations.Item.{
  ActionPhase, ActionInvocation, is_terminal, is_unknown, nonterminal_order, close_unknown,
}
use adapter_forge_gateway.Invocations.Changes.{
  Change, establish_accepted_item, set_phase_item, set_terminal_status_hint_item,
  set_observation_error_item, set_cancel_status_item, set_stop_status_item, record_event,
  append_event_item, mark_instance_item, mark_deadline_item,
}

-- The place of a phase in a life: the nonterminal phases in order, then every terminal one.
abbrev pub stage : ActionPhase → ℕ
stage phase = elim (nonterminal_order phase) [ none ↦ 4 | some n ↦ n ]

-- Closed with an outcome that is known.
abbrev pub is_settled : ActionInvocation → Bool
is_settled item = elim (is_unknown item.phase) [ true ↦ false | false ↦ is_terminal item.phase ]

pub record Evolves (a b : ActionInvocation) : Type 0 where
  pub same_invocation : b.invocation_id ≡ a.invocation_id
  pub same_attempt : b.attempt_id ≡ a.attempt_id
  pub same_endpoint : b.endpoint_id ≡ a.endpoint_id
  pub same_instance : b.endpoint_instance_id ≡ a.endpoint_instance_id
  pub same_operation : b.operation ≡ a.operation
  pub same_deadline : b.deadline_ms ≡ a.deadline_ms
  pub forward : stage a.phase ≤ stage b.phase
  pub accepted : a.accepted_established ≡ true → b.accepted_established ≡ true
  pub counted : a.next_event_sequence ≤ b.next_event_sequence
  pub phase_kept : is_settled a ≡ true → b.phase ≡ a.phase
  pub result_kept : is_settled a ≡ true → b.result ≡ a.result
  pub error_kept : is_settled a ≡ true → b.error ≡ a.error
  pub closing_kept : is_settled a ≡ true → b.terminal_at ≡ a.terminal_at
  pub events_kept : is_settled a ≡ true → b.events ≡ a.events

pub Evolves-refl : (a : ActionInvocation) → Evolves a a
Evolves-refl a = ground arith

-- A settled invocation stays settled.
pub Evolves-settled :
    (a b : ActionInvocation) → Evolves a b → is_settled a ≡ true → is_settled b ≡ true
Evolves-settled a b p h = rw (p.phase_kept h) h

pub Evolves-trans : (a b c : ActionInvocation) → Evolves a b → Evolves b c → Evolves a c
Evolves-trans a b c p q = record {
  same_invocation = q.same_invocation ∙ p.same_invocation;
  same_attempt = q.same_attempt ∙ p.same_attempt;
  same_endpoint = q.same_endpoint ∙ p.same_endpoint;
  same_instance = q.same_instance ∙ p.same_instance;
  same_operation = q.same_operation ∙ p.same_operation;
  same_deadline = q.same_deadline ∙ p.same_deadline;
  forward = omega (arith, p.forward, q.forward);
  accepted = λ h. q.accepted (p.accepted h);
  counted = omega (arith, p.counted, q.counted);
  phase_kept = λ h. q.phase_kept (Evolves-settled a b p h) ∙ p.phase_kept h;
  result_kept = λ h. q.result_kept (Evolves-settled a b p h) ∙ p.result_kept h;
  error_kept = λ h. q.error_kept (Evolves-settled a b p h) ∙ p.error_kept h;
  closing_kept = λ h. q.closing_kept (Evolves-settled a b p h) ∙ p.closing_kept h;
  events_kept = λ h. q.events_kept (Evolves-settled a b p h) ∙ p.events_kept h;
}

abbrev pub Advances : Change → Type 0
Advances change =
    (item item' : ActionInvocation) → change item ≡ ok (some item') → Evolves item item'

pub establish_accepted-Advances : Advances establish_accepted_item
unfolding establish_accepted_item
establish_accepted-Advances item item' h = ground arith

pub set_phase-Advances :
    (phase : ActionPhase) (now : ℕ) (result : Option ToolResult) (error : Option ToolError)
    (release : Bool)
    → Advances (set_phase_item phase now result error release)
unfolding set_phase_item
set_phase-Advances phase now result error release item item' h = ground arith

pub set_terminal_status_hint-Advances :
    (phase : ActionPhase) (error : Option ToolError)
    → Advances (set_terminal_status_hint_item phase error)
unfolding set_terminal_status_hint_item
set_terminal_status_hint-Advances phase error item item' h = ground arith

pub set_observation_error-Advances :
    (error : ToolError) → Advances (set_observation_error_item error)
unfolding set_observation_error_item
set_observation_error-Advances error item item' h = ground arith

pub set_cancel_status-Advances : (status : String) → Advances (set_cancel_status_item status)
unfolding set_cancel_status_item
set_cancel_status-Advances status item item' h = ground arith

pub set_stop_status-Advances : (status : String) → Advances (set_stop_status_item status)
unfolding set_stop_status_item
set_stop_status-Advances status item item' h = ground arith

pub append_event-Advances :
    (event : ToolEvent) (sequence : ℤ) → Advances (append_event_item event sequence)
unfolding append_event_item record_event
append_event-Advances event sequence item item' h = ground arith

pub mark_instance-Evolves :
    (endpoint instance_id : String) (now : ℕ) (error : ToolError) (item : ActionInvocation)
    → Evolves item (mark_instance_item endpoint instance_id now error item)
unfolding mark_instance_item close_unknown
mark_instance-Evolves endpoint instance_id now error item = ground arith

pub mark_deadline-Evolves :
    (now epoch : ℕ) (error : ToolError) (item : ActionInvocation)
    → Evolves item (mark_deadline_item now epoch error item)
unfolding mark_deadline_item close_unknown
mark_deadline-Evolves now epoch error item = ground arith
