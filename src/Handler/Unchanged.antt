-- ===== src/Handler/Unchanged.antt =====
-- That the locked sections which end an execution keep what is known of it, and so every section does.
use adapter_forge_gateway.Prelude.{
  ◌≡◌, refl, inl, inr, Bool, true, false, Option, none, some, arith, ◌==◌, string_eq, Bool-cases,
  Option-cases, if◌then◌else◌,
}
use adapter_forge_gateway.Raise.{ok}
use adapter_forge_gateway.Dict.{lookup, lookup-insert}
use adapter_forge_gateway.Endpoint.Json.{Fields}
use adapter_forge_gateway.Endpoint.Values.{ToolError, ToolResult, ToolExecutionStatus}
use adapter_forge_gateway.Handler.State.{
  ToolExecutionKey, execution_key_eq, ExecutionRecord, Handler, release_permit, InvokeOutcome,
}
use adapter_forge_gateway.Handler.Steps.{
  finish_accepted, finish_refused, finish_unknown, closed_unknown,
}
use adapter_forge_gateway.Handler.Records.{Records}
use adapter_forge_gateway.Handler.Permits.{IsValid, release_permit-Released}
use adapter_forge_gateway.Handler.Fates.{
  Keeps, Fate, Tame, IsEquality, Fate-refl, written-Tame, Tame-Fate, release_permit-beside,
}
use adapter_forge_gateway.Handler.Retained.{put-Tame}

module _ {same_result : ToolResult → ToolResult → Bool} (e : IsEquality same_result) where
  -- A release, and then another writing of the same record.
  pub released-Tame :
      (k : ToolExecutionKey) (old r r' new : ExecutionRecord) (h m : Handler) (after : Records)
      → release_permit k r h ≡ (ok r', m)
      → lookup k h.executions ≡ some old
      → Keeps same_result old new
      → ((j : ToolExecutionKey)
          → lookup j after ≡ (if k == j then some new else lookup j m.executions))
      → Tame same_result h.executions after
  released-Tame k old r r' new h m after done held keeps writes =
      written-Tame e k old new _ _ held keeps (λ j. elim (Bool-cases (k == j)) [
        | inl same ↦ rw (writes j, same) refl
        | inr other ↦
            let beside = release_permit-beside k j r h other in
            rw (writes j, other) (rw done at beside)
      ])

  -- A record that gets an outcome.
  answered-Keeps :
      (r : ExecutionRecord) (outcome : InvokeOutcome) (status : Option ToolExecutionStatus)
      → Keeps same_result r (record r { outcome = some outcome; ready = true; status = status })
  answered-Keeps r outcome status = record {
    operation = refl;
    invoke_started = refl;
    ready = λ h. refl;
    permit = λ h. h;
    result = λ x h. (x, h, e.reflexive x);
  }

  -- A record without a result gets one, or an outcome, and its permit is released.
  released-Keeps :
      (r : ExecutionRecord) (outcome : InvokeOutcome) (status : Option ToolExecutionStatus)
      (result : Option ToolResult)
      → r.result ≡ none
      → Keeps same_result r (record r {
        outcome = some outcome;
        ready = true;
        status = status;
        result = result;
        permit_held = false;
      })
  released-Keeps r outcome status result empty = record {
    operation = refl;
    invoke_started = refl;
    ready = λ h. refl;
    permit = λ h. refl;
    result = λ x h. absurd (ground (arith, empty, h));
  }

  module _ (h : Handler) (v : IsValid h) (k : ToolExecutionKey) where
    pub finish_accepted-Fate :
        (details : Fields)
        → Fate same_result h.executions (finish_accepted k details h).1.executions
    unfolding finish_accepted
    finish_accepted-Fate details = elim (Option-cases (lookup k h.executions)) [
      | inl d ↦ rw (d, finish_accepted) (Fate-refl e h.executions)
      | inr (r, d) ↦ elim (Option-cases r.result) [
        | inl q ↦
            rw (d, q, finish_accepted)
              (Tame-Fate e _ _ (put-Tame e k r _ h d (answered-Keeps r _ _)))
        | inr (_, q) ↦
            rw (d, q, finish_accepted)
              (Tame-Fate e _ _ (put-Tame e k r _ h d (answered-Keeps r _ _)))
      ]
    ]

    pub finish_refused-Fate :
        (error : ToolError) → Fate same_result h.executions (finish_refused k error h).1.executions
    unfolding finish_refused
    finish_refused-Fate error = elim (Option-cases (lookup k h.executions)) [
      | inl d ↦ rw (d, finish_refused) (Fate-refl e h.executions)
      | inr (r, d) ↦ elim (Option-cases r.result) [
        | inl q ↦
            let x = release_permit-Released h v k r r d (refl, refl) in
            rw (d, q, finish_refused, x.done)
              (Tame-Fate e _ _ (
                released-Tame k r r _ _ h x.after _ x.done d
                  (released-Keeps r (InvokeOutcome.failed error) r.status r.result q)
                  (λ j. lookup-insert k j _ x.after.executions)))
        | inr (_, q) ↦
            rw (d, q, finish_refused)
              (Tame-Fate e _ _ (put-Tame e k r _ h d (answered-Keeps r _ _)))
      ]
    ]

    pub finish_unknown-Fate : Fate same_result h.executions (finish_unknown k h).1.executions
    unfolding finish_unknown
    finish_unknown-Fate = elim (Option-cases (lookup k h.executions)) [
      | inl d ↦ rw (d, finish_unknown) (Fate-refl e h.executions)
      | inr (r, d) ↦ elim (Option-cases r.result) [
        | inl q ↦
            let x = release_permit-Released h v k r (closed_unknown r) d (refl, refl) in
            rw (d, q, finish_unknown, x.done)
              (Tame-Fate e _ _ (
                released-Tame k r (closed_unknown r) _ _ h x.after _ x.done d
                  (released-Keeps r _ _ _ q) (λ j. lookup-insert k j _ x.after.executions)))
        | inr (_, q) ↦
            rw (d, q, finish_unknown)
              (Tame-Fate e _ _ (put-Tame e k r _ h d (answered-Keeps r _ _)))
      ]
    ]
