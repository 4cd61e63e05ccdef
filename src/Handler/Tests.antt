-- ===== src/Handler/Tests.antt =====
-- The theorems on the records of src/forge_tool/handler.py at concrete handlers.
use adapter_forge_gateway.Prelude.{
  arith, ◌≤◌, ◌⊎◌, ℕ, length, ◌≡◌, refl, Bool, true, false, none, some, List, [], ◌∷◌, string_eq,
  nat_eq,
}
use adapter_forge_gateway.Raise.{ok}
use adapter_forge_gateway.Dict.{lookup, insert, erase, elem}
use adapter_forge_gateway.Endpoint.Json.{end}
use adapter_forge_gateway.Endpoint.Values.{
  ToolEvent, ToolEventType, ToolSemantics, ExecutionPhase, ToolResult, ToolResultStatus,
  ToolExecutionStatus, ToolEndpointDescriptor,
}
use adapter_forge_gateway.Directory.Manage.{is_space, is_blank}
use adapter_forge_gateway.Handler.State.{
  execution_key_eq, ExecutionRecord, Handler, is_evictable, evict_first, make_room_loop, make_room,
  move_to_end, release_permit, status_beq, matches_result, actives_from, limits_from, init,
  observed, tool_endpoint_protocol,
}
use adapter_forge_gateway.Handler.Steps.{
  admit_known, admit_new, begin_start, finish_accepted, finish_unknown,
}
use adapter_forge_gateway.Handler.Observe.{
  observation_record, concluded, validate_phase_transition, conclude, record_terminal, Section,
  run_all,
}
use adapter_forge_gateway.Handler.Emitter.{
  Emitter, new_emitter, begin_emit, numbered, finish_emit, accept, EmitterSection, emit_all,
}
use adapter_forge_gateway.Handler.Fates.{Keeps, IsEquality}
use adapter_forge_gateway.Handler.Survival.{GivenUp, run_all-Keeps}
use adapter_forge_gateway.Handler.Numbering.{Run, accept-emit_all}
use adapter_forge_gateway.Handler.Records.{Records}
use adapter_forge_gateway.Handler.Room.{Cleared, make_room-Cleared}
use adapter_forge_gateway.Handler.Permits.{IsValid}
use adapter_forge_gateway.Handler.History.{Closed, init-run_all-IsValid, finish_unknown-Closed}

abbrev move_descriptor : ToolEndpointDescriptor
move_descriptor = record {
  protocol_version = tool_endpoint_protocol;
  endpoint_id = "arm";
  operations =
      (record {
        name = "move";
        semantics = ToolSemantics.action;
        cancellable = true;
        stoppable = false;
        status_supported = true;
        max_concurrency = 2;
      })
      ∷ [];
}

abbrev new_handler : Handler
new_handler = record {
  max_retained = 2;
  max_concurrency = ("move", 2) ∷ [];
  active = ("move", 0) ∷ [];
  executions = [];
}

init_new : init move_descriptor "arm-1" ("move" ∷ []) 32 2 ≡ ok new_handler
unfolding init actives_from limits_from insert elem is_blank is_space
init_new = refl

abbrev moved : ToolResult
moved = record { status = ToolResultStatus.succeeded; outputs = end; error = none }

abbrev completed : ToolExecutionStatus
completed = record { phase = ExecutionPhase.completed; error = none; details = end }

abbrev differ_status : ToolExecutionStatus → ToolExecutionStatus → Bool
differ_status a b = false

abbrev differ_result : ToolResult → ToolResult → Bool
differ_result a b = false

-- Two starts, a result for the first, a third that takes its place, and a fourth that finds none.
abbrev script : List Section
script =
    Section.start ("a", "1") "move"
    ∷ Section.start ("b", "1") "move"
    ∷ Section.terminal ("a", "1") "move" completed moved
    ∷ Section.accepted ("a", "1") end
    ∷ Section.start ("c", "1") "move"
    ∷ Section.start ("d", "1") "move"
    ∷ []

abbrev busy : Handler
busy = run_all differ_status differ_result script new_handler

busy_active : (busy.active ≡ ("move", 2) ∷ []) × (lookup ("a", "1") busy.executions ≡ none)
unfolding run_all begin_start admit_new admit_known make_room make_room_loop evict_first
    is_evictable record_terminal matches_result status_beq observation_record move_to_end
    validate_phase_transition conclude concluded release_permit finish_accepted lookup insert erase
busy_active = (refl, refl)

init-run_all-IsValid_example : IsValid busy
init-run_all-IsValid_example =
    init-run_all-IsValid differ_status differ_result move_descriptor "arm-1" ("move" ∷ []) 32 2
      new_handler script init_new

abbrev lost_record : ExecutionRecord
lost_record = record (observed "move") { invoke_started = true; permit_held = true }

lost_lookup : lookup ("c", "1") busy.executions ≡ some lost_record
unfolding run_all begin_start admit_new admit_known make_room make_room_loop evict_first
    is_evictable record_terminal matches_result status_beq observation_record move_to_end
    validate_phase_transition conclude concluded release_permit finish_accepted lookup insert erase
lost_lookup = refl

busy-IsValid : IsValid busy
busy-IsValid =
    init-run_all-IsValid differ_status differ_result move_descriptor "arm-1" ("move" ∷ []) 32 2
      new_handler script init_new

finish_unknown-Closed_example :
    (result : ToolResult) × (after : ExecutionRecord) × ((finish_unknown ("c", "1") busy).0
      ≡ ok result)
    × (lookup ("c", "1") (finish_unknown ("c", "1") busy).1.executions ≡ some after)
    × Closed lost_record after result
finish_unknown-Closed_example =
    finish_unknown-Closed ("c", "1") busy lost_record busy-IsValid lost_lookup

make_room-Cleared_example :
    (room : Bool) × (left : Records) × (make_room busy
      ≡ (ok room, record busy { executions = left }))
    × Cleared busy.max_retained busy.executions room left
make_room-Cleared_example = make_room-Cleared busy busy-IsValid.distinct

abbrev progress : ToolEvent
progress = record { type = ToolEventType.progress; payload = end }

-- Two events before acceptance, and one that is refused for the bound.
abbrev early_script : List EmitterSection
early_script =
    EmitterSection.begun progress
    ∷ EmitterSection.finished progress
    ∷ EmitterSection.begun progress
    ∷ EmitterSection.finished progress
    ∷ EmitterSection.finished progress
    ∷ []

abbrev early_emitter : Emitter
early_emitter = emit_all early_script (new_emitter 2 true)

early_buffer : early_emitter.buffer ≡ (0, progress) ∷ (1, progress) ∷ []
unfolding emit_all begin_emit finish_emit numbered
early_buffer = refl

accept-emit_all_example :
    (es : List (ℕ × ToolEvent)) × ((accept early_emitter).0 ≡ ok es)
    × Run es early_emitter.sequence
    × (length es ≤ early_emitter.max_early_events)
    × ((early_emitter.accepted ≡ false) ⊎ (es ≡ []))
accept-emit_all_example = accept-emit_all 2 true early_script

-- Results are told apart by their status.
abbrev like_result : ToolResult → ToolResult → Bool
like_result a b = status_beq a.status b.status

status_beq_refl : (a : ToolResultStatus) → status_beq a a ≡ true
unfolding status_beq
status_beq_refl ToolResultStatus.succeeded = refl
status_beq_refl ToolResultStatus.failed = refl
status_beq_refl ToolResultStatus.cancelled = refl
status_beq_refl ToolResultStatus.stopped = refl
status_beq_refl ToolResultStatus.unknown = refl

status_beq_trans :
    (a b c : ToolResultStatus)
    → status_beq a b ≡ true
    → status_beq b c ≡ true
    → status_beq a c ≡ true
unfolding status_beq
status_beq_trans a b c f g = ground (arith, f, g)

like_result-IsEquality : IsEquality like_result
like_result-IsEquality = record {
  reflexive = λ x. status_beq_refl x.status;
  transitive = λ x y z f g. status_beq_trans x.status y.status z.status f g;
}

-- The result of a start that is under way, its acceptance, and a start that needs its room.
abbrev late_script : List Section
late_script =
    Section.terminal ("c", "1") "move" completed moved
    ∷ Section.accepted ("c", "1") end
    ∷ Section.start ("d", "1") "move"
    ∷ []

run_all-Keeps_example :
    GivenUp differ_status like_result ("c", "1") lost_record late_script busy
    ⊎ ((after : ExecutionRecord) × (lookup
            ("c", "1")
            (run_all differ_status like_result late_script busy).executions
          ≡ some after)
        × Keeps like_result lost_record after)
run_all-Keeps_example =
    run_all-Keeps differ_status like_result like_result-IsEquality ("c", "1") lost_record
      late_script busy busy-IsValid lost_lookup
