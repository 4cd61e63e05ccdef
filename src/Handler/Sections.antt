-- ===== src/Handler/Sections.antt =====
-- Each locked section of src/forge_tool/handler.py keeps the invariant of the records.
use adapter_forge_gateway.Prelude.{
  ℕ, ◌≡◌, refl, inl, inr, String, Bool, false, none, some, List, [], ◌∷◌, arith, ◌==◌, string_eq,
  Bool-cases, Option-cases, leb, is_some, ◌||◌,
}
use adapter_forge_gateway.Raise.{Result, ok, err, Action, raise_if, protocol_error}
use adapter_forge_gateway.Raise.State.{then_do, ◌>>◌, lift, modify}
use adapter_forge_gateway.Dict.{lookup}
use adapter_forge_gateway.Dict.Inversion.{lookup-insert_self}
use adapter_forge_gateway.Endpoint.Json.{Fields}
use adapter_forge_gateway.Endpoint.Values.{ToolError, ToolResult, ToolExecutionStatus}
use adapter_forge_gateway.Handler.State.{
  ToolExecutionKey, execution_key_eq, ExecutionRecord, Handler, count_of, release_permit, observed,
  matches_result,
}
use adapter_forge_gateway.Handler.Steps.{
  put, at_end, admit_known, admit_new, begin_start, finish_accepted, finish_refused, finish_unknown,
  closed_unknown,
}
use adapter_forge_gateway.Handler.Observe.{
  observation_record, concluded, conclude, validate_phase_transition, is_changed, record_status,
  record_terminal, Section, run, run_all,
}
use adapter_forge_gateway.Handler.Records.{Records, lookup-move_to_end}
use adapter_forge_gateway.Handler.Room.{Cleared, make_room-Cleared}
use adapter_forge_gateway.Handler.Permits.{
  IsValid, Alike, put-IsValid, at_end-IsValid, observed-IsValid, started-IsValid, cleared-IsValid,
  release_permit-Released,
}

-- A check before a step keeps the invariant when the step does.
checked-IsValid :
    {B : Type 0} (c : Result (Unit {0})) (f : Action Handler B) (s : Handler)
    → IsValid s
    → IsValid (f s).1
    → IsValid ((lift c >> f) s).1
checked-IsValid (ok tt) f s v w = w
checked-IsValid (err x) f s v w = v

-- A key that is not bound is not bound after making room either.
still_free :
    (k : ToolExecutionKey) (bound : ℕ) (d : Records) (room : Bool) (left : Records)
    → Cleared bound d room left
    → lookup k d ≡ none
    → lookup k left ≡ none
still_free k bound d room left c free = elim (Option-cases (lookup k left)) [
  | inl e ↦ e
  | inr (r, e) ↦ absurd (ground (arith, free, c.older k r e))
]

-- The record that an observation is made on stands at its key.
abbrev pub Bound : ToolExecutionKey → Result ExecutionRecord × Handler → Type 0
Bound k (ok r, s) = IsValid s × (lookup k s.executions ≡ some r)
Bound k (err x, s) = IsValid s

module _ (h : Handler) (v : IsValid h) (k : ToolExecutionKey) where
  admit_known-IsValid :
      (operation : String) (r : ExecutionRecord)
      → lookup k h.executions ≡ some r
      → IsValid (admit_known k operation r h).1
  unfolding admit_known
  admit_known-IsValid operation r held =
      let moved = at_end-IsValid h v k r r held (refl, refl) in
      elim (Bool-cases (r.operation == operation)) [
        | inr e ↦ rw e v
        | inl e ↦ elim (Bool-cases (r.invoke_started || is_some r.outcome)) [
          | inl d ↦ rw (e, d) moved
          | inr d ↦ rw (e, d) moved
        ]
      ]

  admit_new-IsValid :
      (operation : String) → lookup k h.executions ≡ none → IsValid (admit_new k operation h).1
  unfolding admit_new
  admit_new-IsValid operation free =
      elim (Bool-cases (leb (count_of operation h.max_concurrency) (count_of operation h.active))) [
        | inl e ↦ rw e v
        | inr e ↦
            let (room, left, made, c) = make_room-Cleared h v.distinct in
            let w = cleared-IsValid h v room left c in
            elim c.answer [
              | inl (fits, size) ↦
                  rw (e, made, fits)
                    (started-IsValid (record h { executions = left }) w k
                      (still_free k h.max_retained h.executions room left c free) size operation
                      (ground (arith, e)))
              | inr (full, _, _) ↦ rw (e, made, full) w
            ]
      ]

  begin_start-IsValid : (operation : String) → IsValid (begin_start k operation h).1
  unfolding begin_start
  begin_start-IsValid operation = elim (Option-cases (lookup k h.executions)) [
    | inl e ↦ rw (e, begin_start) (admit_new-IsValid operation e)
    | inr (r, e) ↦ rw (e, begin_start) (admit_known-IsValid operation r e)
  ]

  pub observation_record-Bound : (operation : String) → Bound k (observation_record k operation h)
  unfolding observation_record
  observation_record-Bound operation = elim (Option-cases (lookup k h.executions)) [
    | inl free ↦
        let (room, left, made, c) = make_room-Cleared h v.distinct in
        let w = cleared-IsValid h v room left c in
        elim c.answer [
          | inl (fits, size) ↦
              rw (free, observation_record, made, fits)
                (
                  observed-IsValid (record h { executions = left }) w k
                      (still_free k h.max_retained h.executions room left c free) size operation,
                  lookup-insert_self k (observed operation) left,
                )
          | inr (full, _, _) ↦ rw (free, observation_record, made, full) w
        ]
    | inr (r, e) ↦ elim (Bool-cases (r.operation == operation)) [
      | inr other ↦ rw (e, observation_record, other) v
      | inl same ↦
          rw (e, observation_record, same)
            (
              at_end-IsValid h v k r r e (refl, refl),
              ground (
                arith,
                execution_key_eq.beq_iff k k,
                lookup-move_to_end k r h.executions v.distinct k,
              ),
            )
    ]
  ]

  -- A release, and then another writing of the same record.
  release-IsValid :
      {B : Type 0} (old r : ExecutionRecord) (f : ExecutionRecord → Handler → Result B × Handler)
      → lookup k h.executions ≡ some old
      → Alike old r
      → ((s : Handler) (stored : ExecutionRecord)
          → IsValid s
          → lookup k s.executions ≡ some stored
          → Alike stored (record r { permit_held = false })
          → IsValid (f (record r { permit_held = false }) s).1)
      → IsValid (then_do f (release_permit k r h)).1
  release-IsValid old r f held same g =
      let x = release_permit-Released h v k old r held same in
      rw x.done (g x.after x.stored x.valid x.held x.same)

  finish_accepted-IsValid : (details : Fields) → IsValid (finish_accepted k details h).1
  unfolding finish_accepted
  finish_accepted-IsValid details = elim (Option-cases (lookup k h.executions)) [
    | inl e ↦ rw (e, finish_accepted) v
    | inr (r, e) ↦ elim (Option-cases r.result) [
      | inl q ↦ rw (e, q, finish_accepted) (put-IsValid h v k r _ e (refl, refl))
      | inr (_, q) ↦ rw (e, q, finish_accepted) (put-IsValid h v k r _ e (refl, refl))
    ]
  ]

  finish_refused-IsValid : (error : ToolError) → IsValid (finish_refused k error h).1
  unfolding finish_refused
  finish_refused-IsValid error = elim (Option-cases (lookup k h.executions)) [
    | inl e ↦ rw (e, finish_refused) v
    | inr (r, e) ↦ elim (Option-cases r.result) [
      | inl q ↦
          rw (e, q, finish_refused)
            (release-IsValid r r _ e (refl, refl)
              (λ s stored w held same. put-IsValid s w k stored _ held same))
      | inr (_, q) ↦ rw (e, q, finish_refused) (put-IsValid h v k r _ e (refl, refl))
    ]
  ]

  finish_unknown-IsValid : IsValid (finish_unknown k h).1
  unfolding finish_unknown
  finish_unknown-IsValid = elim (Option-cases (lookup k h.executions)) [
    | inl e ↦ rw (e, finish_unknown) v
    | inr (r, e) ↦ elim (Option-cases r.result) [
      | inl q ↦
          rw (e, q, finish_unknown)
            (release-IsValid r (closed_unknown r) _ e (refl, refl)
              (λ s stored w held same. put-IsValid s w k stored _ held same))
      | inr (_, q) ↦ rw (e, q, finish_unknown) (put-IsValid h v k r _ e (refl, refl))
    ]
  ]

pub concluded-Alike :
    (status : ToolExecutionStatus) (result : ToolResult) (r : ExecutionRecord)
    → Alike r (concluded status result r)
unfolding concluded
concluded-Alike status result r = elim (Bool-cases r.invoke_started) [
  | inl e ↦ rw e (refl, refl)
  | inr e ↦ rw e (refl, refl)
]

-- What follows an observation keeps the invariant when it does on the record at its key.
observed-then :
    {B : Type 0} (k : ToolExecutionKey) (m : Result ExecutionRecord × Handler)
    (f : ExecutionRecord → Handler → Result B × Handler)
    → Bound k m
    → ((r : ExecutionRecord) (s : Handler)
        → IsValid s
        → lookup k s.executions ≡ some r
        → IsValid (f r s).1)
    → IsValid (then_do f m).1
observed-then k (ok r, s) f b g = g r s b.0 b.1
observed-then k (err x, s) f b g = b

conclude-IsValid :
    (s : Handler) (k : ToolExecutionKey) (status : ToolExecutionStatus) (result : ToolResult)
    (r : ExecutionRecord)
    → IsValid s
    → lookup k s.executions ≡ some r
    → IsValid (conclude k status result r s).1
unfolding conclude
conclude-IsValid s k status result r w held =
    let c = concluded status result r in
    release-IsValid (put k c s) (put-IsValid s w k r c held (concluded-Alike status result r)) k c c
      _ (lookup-insert_self k c s.executions) (refl, refl)
      (λ t stored x found like. at_end-IsValid t x k stored _ found like)

module _ (same_status : ToolExecutionStatus → ToolExecutionStatus → Bool)
    (same_result : ToolResult → ToolResult → Bool) where
  record_status-IsValid :
      (h : Handler) (k : ToolExecutionKey) (operation : String) (status : ToolExecutionStatus)
      → IsValid h
      → IsValid (record_status same_status same_result k operation status h).1
  unfolding record_status
  record_status-IsValid h k operation status v =
      observed-then k _ _ (observation_record-Bound h v k operation) (λ r s w held.
        let new = record r { status = some status } in
        checked-IsValid (validate_phase_transition same_status same_result r.status status)
          (modify (at_end k new)) s w (at_end-IsValid s w k r new held (refl, refl)))

  record_terminal-IsValid :
      (h : Handler) (k : ToolExecutionKey) (operation : String) (status : ToolExecutionStatus)
      (result : ToolResult)
      → IsValid h
      → IsValid (record_terminal same_status same_result k operation status result h).1
  unfolding record_terminal
  record_terminal-IsValid h k operation status result v =
      elim (Bool-cases (matches_result status result)) [
        | inr e ↦ rw e v
        | inl e ↦ rw e (
            observed-then k _ _ (observation_record-Bound h v k operation) (λ r s w held.
              let same =
                raise_if (is_changed same_status same_result r.result result)
                  (protocol_error "FORGE_ENDPOINT_TERMINAL_CHANGED") in
              let rest = conclude k status result r in
              checked-IsValid (validate_phase_transition same_status same_result r.status status)
                (lift same >> rest) s w
                (checked-IsValid same rest s w (conclude-IsValid s k status result r w held))))
      ]

  pub run-IsValid :
      (a : Section) (h : Handler) → IsValid h → IsValid (run same_status same_result a h)
  run-IsValid (Section.start k operation) h v = begin_start-IsValid h v k operation
  run-IsValid (Section.accepted k details) h v = finish_accepted-IsValid h v k details
  run-IsValid (Section.refused k error) h v = finish_refused-IsValid h v k error
  run-IsValid (Section.lost k) h v = finish_unknown-IsValid h v k
  run-IsValid (Section.status k operation s) h v = record_status-IsValid h k operation s v
  run-IsValid (Section.terminal k operation s r) h v = record_terminal-IsValid h k operation s r v

  -- Whatever sections run, in whatever order and whether they raise or not, each operation's active
  -- count stays the number of permits held for it and within its `max_concurrency`, no key is bound
  -- twice, and no more records are retained than the bound.
  pub run_all-IsValid :
      (sections : List Section) (h : Handler)
      → IsValid h
      → IsValid (run_all same_status same_result sections h)
  unfolding run_all
  run_all-IsValid [] h v = v
  run_all-IsValid (a ∷ sections) h v =
      run_all-IsValid sections (run same_status same_result a h) (run-IsValid a h v)
