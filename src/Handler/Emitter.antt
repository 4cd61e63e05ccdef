-- ===== src/Handler/Emitter.antt =====
-- `_ActionEventEmitter` of src/forge_tool/handler.py: its locked sections, between which a terminal
-- event's result is established. An envelope is its sequence number and its event.
use adapter_forge_gateway.Prelude.{
  ℕ, suc, Bool, true, false, not, ◌&&◌, ◌||◌, Option, none, some, List, [], ◌∷◌, ◌++◌, leb, length,
  is_some, if◌then◌else◌,
}
use adapter_forge_gateway.Raise.{ok, err, runtime_error, protocol_error, Action}
use adapter_forge_gateway.Endpoint.Values.{ExecutionPhase, ToolEventType, ToolEvent}

pub record Emitter : Type 0 where
  pub max_early_events : ℕ
  pub has_sink : Bool
  pub buffer : List (ℕ × ToolEvent)
  pub sequence : ℕ
  pub accepted : Bool
  pub closed : Bool
  pub terminal_pending : Bool

-- `__init__`
abbrev pub new_emitter : ℕ → Bool → Emitter
new_emitter max_early_events has_sink = record {
  max_early_events = max_early_events;
  has_sink = has_sink;
  buffer = [];
  sequence = 0;
  accepted = false;
  closed = false;
  terminal_pending = false;
}

-- `_TERMINAL_EVENT_PHASES.get(event.type)`
abbrev pub event_phase : ToolEventType → Option ExecutionPhase
event_phase ToolEventType.executor_completed = some ExecutionPhase.completed
event_phase ToolEventType.executor_failed = some ExecutionPhase.failed
event_phase ToolEventType.cancelled = some ExecutionPhase.cancelled
event_phase ToolEventType.stopped = some ExecutionPhase.stopped
event_phase _ = none

-- The first section of `emit`: the guard, and the mark of a terminal event.
unfoldable pub begin_emit : ToolEvent → Action Emitter (Unit {0})
begin_emit event s =
    if s.closed || s.terminal_pending
    then (err (protocol_error "FORGE_ENDPOINT_EVENT_AFTER_TERMINAL"), s)
    else (
      ok tt,
      record s { terminal_pending = is_some (event_phase event.type) || s.terminal_pending },
    )

-- The section after a terminal event's result could not be established.
unfoldable pub abandon_emit : Action Emitter (Unit {0})
abandon_emit s = (ok tt, record s { terminal_pending = false })

-- The numbering of `event` in the last section of `emit`.
unfoldable pub numbered : ToolEvent → Emitter → Emitter
numbered event s =
    if is_some (event_phase event.type)
    then record s { sequence = suc s.sequence; closed = true; terminal_pending = false }
    else record s { sequence = suc s.sequence }

-- The last section of `emit`. The answer is the envelope that the sink is given, if any.
unfoldable pub finish_emit : ToolEvent → Action Emitter (Option (ℕ × ToolEvent))
finish_emit event s =
    if not s.accepted && leb s.max_early_events (length s.buffer)
    then (
      err (protocol_error "FORGE_ENDPOINT_EARLY_EVENT_BUFFER_OVERFLOW"),
      record s { terminal_pending = false },
    )
    else if not s.accepted
    then (ok none, record (numbered event s) { buffer = s.buffer ++ (s.sequence, event) ∷ [] })
    else if not s.has_sink
    then (err runtime_error, numbered event s)
    else (ok (some (s.sequence, event)), numbered event s)

unfoldable pub accept : Action Emitter (List (ℕ × ToolEvent))
accept s = (ok s.buffer, record s { accepted = true; buffer = [] })

unfoldable pub reject : Action Emitter (Unit {0})
reject s = (ok tt, record s { closed = true; buffer = [] })

unfoldable pub close_terminal : Action Emitter (Unit {0})
close_terminal s = (ok tt, record s { closed = true })

-- One locked section of an emitter.
pub data EmitterSection : Type 0 where
  begun finished : ToolEvent → EmitterSection
  abandoned accepting rejecting closing : EmitterSection

-- The emitter after some sections, whether they raised or not.
unfoldable pub emit_all : List EmitterSection → Emitter → Emitter
emit_all [] s = s
emit_all (EmitterSection.begun event ∷ rest) s = emit_all rest (begin_emit event s).1
emit_all (EmitterSection.finished event ∷ rest) s = emit_all rest (finish_emit event s).1
emit_all (EmitterSection.abandoned ∷ rest) s = emit_all rest (abandon_emit s).1
emit_all (EmitterSection.accepting ∷ rest) s = emit_all rest (accept s).1
emit_all (EmitterSection.rejecting ∷ rest) s = emit_all rest (reject s).1
emit_all (EmitterSection.closing ∷ rest) s = emit_all rest (close_terminal s).1
