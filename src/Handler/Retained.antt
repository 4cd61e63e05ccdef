-- ===== src/Handler/Retained.antt =====
-- No locked section of src/forge_tool/handler.py gives up an execution that is in flight, or changes a
-- result.
use adapter_forge_gateway.Prelude.{
  ◌≡◌, refl, inl, inr, String, Bool, none, some, arith, ◌==◌, string_eq, Bool-cases, Option-cases,
  leb, is_some, ◌||◌,
}
use adapter_forge_gateway.Dict.{lookup, lookup-insert}
use adapter_forge_gateway.Endpoint.Values.{ToolResult}
use adapter_forge_gateway.Handler.State.{
  ToolExecutionKey, execution_key_eq, ExecutionRecord, Handler, count_of, observed, started,
}
use adapter_forge_gateway.Handler.Steps.{put, at_end, admit_known, admit_new, begin_start}
use adapter_forge_gateway.Handler.Observe.{observation_record}
use adapter_forge_gateway.Handler.Records.{lookup-move_to_end}
use adapter_forge_gateway.Handler.Room.{make_room-Cleared}
use adapter_forge_gateway.Handler.Permits.{IsValid}
use adapter_forge_gateway.Handler.Fates.{
  Keeps, Fate, Tame, IsEquality, Keeps-refl, Fate-refl, written-Tame, Tame-Fate, Cleared-Fate,
}

module _ {same_result : ToolResult → ToolResult → Bool} (e : IsEquality same_result) where
  -- The two ways to write a record.
  pub put-Tame :
      (k : ToolExecutionKey) (old new : ExecutionRecord) (h : Handler)
      → lookup k h.executions ≡ some old
      → Keeps same_result old new
      → Tame same_result h.executions (put k new h).executions
  put-Tame k old new h held keeps =
      written-Tame e k old new _ _ held keeps (λ j. lookup-insert k j new h.executions)

  pub at_end-Tame :
      (k : ToolExecutionKey) (old new : ExecutionRecord) (h : Handler)
      → IsValid h
      → lookup k h.executions ≡ some old
      → Keeps same_result old new
      → Tame same_result h.executions (at_end k new h).executions
  at_end-Tame k old new h v held keeps =
      written-Tame e k old new _ _ held keeps (lookup-move_to_end k new h.executions v.distinct)

  module _ (h : Handler) (v : IsValid h) (k : ToolExecutionKey) where
    admit_known-Fate :
        (operation : String) (r : ExecutionRecord)
        → lookup k h.executions ≡ some r
        → Fate same_result h.executions (admit_known k operation r h).1.executions
    unfolding admit_known
    admit_known-Fate operation r held =
        let moved = Tame-Fate e _ _ (at_end-Tame k r r h v held (Keeps-refl e r)) in
        elim (Bool-cases (r.operation == operation)) [
          | inr d ↦ rw (admit_known, d) (Fate-refl e h.executions)
          | inl d ↦ elim (Bool-cases (r.invoke_started || is_some r.outcome)) [
            | inl f ↦ rw (admit_known, d, f) moved
            | inr f ↦ rw (admit_known, d, f) moved
          ]
        ]

    admit_new-Fate :
        (operation : String)
        → lookup k h.executions ≡ none
        → Fate same_result h.executions (admit_new k operation h).1.executions
    unfolding admit_new
    admit_new-Fate operation free =
        elim (Bool-cases
          (leb (count_of operation h.max_concurrency) (count_of operation h.active))) [
            | inl d ↦ rw (admit_new, d) (Fate-refl e h.executions)
            | inr d ↦
                let (room, left, made, c) = make_room-Cleared h v.distinct in
                elim c.answer [
                  | inl (fits, size) ↦
                      rw (admit_new, d, made, fits)
                        (Cleared-Fate e k _ _ h.max_retained room left c free (λ j other.
                          ground (arith, other, lookup-insert k j (started operation) left)))
                  | inr (full, _, _) ↦
                      rw (admit_new, d, made, full)
                        (Cleared-Fate e k _ _ h.max_retained room left c free (λ j other. refl))
                ]
          ]

    pub begin_start-Fate :
        (operation : String)
        → Fate same_result h.executions (begin_start k operation h).1.executions
    unfolding begin_start
    begin_start-Fate operation = elim (Option-cases (lookup k h.executions)) [
      | inl d ↦ rw (begin_start, d) (admit_new-Fate operation d)
      | inr (r, d) ↦ rw (begin_start, d) (admit_known-Fate operation r d)
    ]

    pub observation_record-Fate :
        (operation : String)
        → Fate same_result h.executions (observation_record k operation h).1.executions
    unfolding observation_record
    observation_record-Fate operation = elim (Option-cases (lookup k h.executions)) [
      | inl free ↦
          let (room, left, made, c) = make_room-Cleared h v.distinct in
          elim c.answer [
            | inl (fits, size) ↦
                rw (free, observation_record, made, fits)
                  (Cleared-Fate e k _ _ h.max_retained room left c free
                    (λ j other. ground (arith, other, lookup-insert k j (observed operation) left)))
            | inr (full, _, _) ↦
                rw (free, observation_record, made, full)
                  (Cleared-Fate e k _ _ h.max_retained room left c free (λ j other. refl))
          ]
      | inr (r, d) ↦ elim (Bool-cases (r.operation == operation)) [
        | inr other ↦ rw (d, observation_record, other) (Fate-refl e h.executions)
        | inl same ↦
            rw (d, observation_record, same)
              (Tame-Fate e _ _ (at_end-Tame k r r h v d (Keeps-refl e r)))
      ]
    ]
