-- ===== src/Handler/History.antt =====
-- A new handler satisfies the invariant, and what a lost start leaves for the caller.
use adapter_forge_gateway.Prelude.{
  ℕ, ◌≡◌, refl, sym, ◌⊎◌, inl, inr, String, Bool, true, false, none, some, List, [], ◌∷◌, arith,
  string_eq, Option-cases,
}
use adapter_forge_gateway.Raise.{ok}
use adapter_forge_gateway.Dict.{Dict, lookup, insert, count_values, lookup-insert}
use adapter_forge_gateway.Dict.Inversion.{lookup-insert_self}
use adapter_forge_gateway.Endpoint.Values.{
  ToolResult, ToolExecutionStatus, ToolOperationDescriptor, ToolEndpointDescriptor,
}
use adapter_forge_gateway.Handler.State.{
  ToolExecutionKey, execution_key_eq, InvokeOutcome, ExecutionRecord, Handler, count_of,
  actives_from, init,
}
use adapter_forge_gateway.Handler.Steps.{finish_unknown, unknown_result, closed_unknown}
use adapter_forge_gateway.Handler.Observe.{Section, run_all}
use adapter_forge_gateway.Handler.Permits.{IsValid, release_permit-Released}
use adapter_forge_gateway.Handler.Sections.{run_all-IsValid}

-- No operation is active in the first counts.
count_of-actives_from :
    (name : String) (operations : List ToolOperationDescriptor) (d : Dict String ℕ)
    → count_of name d ≡ 0
    → count_of name (actives_from operations d) ≡ 0
unfolding actives_from
count_of-actives_from name [] d h = h
count_of-actives_from name (o ∷ operations) d h =
    count_of-actives_from name operations (insert o.name 0 d)
      (ground (arith, h, lookup-insert o.name name 0 d))

init-IsValid :
    (descriptor : ToolEndpointDescriptor) (i : String) (names : List String) (early retained : ℕ)
    (h : Handler)
    → init descriptor i names early retained ≡ ok h
    → IsValid h
unfolding init count_values lookup
init-IsValid descriptor i names early retained h e =
    let empty : h.executions ≡ [] = ground (arith, e) in
    let counts : h.active ≡ actives_from descriptor.operations [] = ground (arith, e) in
    record {
      distinct = rw empty tt;
      size = rw empty (omega arith);
      permits =
          λ o. rw (empty, counts) (sym (count_of-actives_from o descriptor.operations [] refl));
      limits =
          λ o. rw counts (omega (arith, count_of-actives_from o descriptor.operations [] refl));
    }

-- From a new handler, whatever locked sections run, in whatever order and whether they raise or not:
-- each operation's active count is the number of permits held for it and within its
-- `max_concurrency`, no key is bound twice, and no more records are retained than the bound.
pub init-run_all-IsValid :
    (same_status : ToolExecutionStatus → ToolExecutionStatus → Bool)
    (same_result : ToolResult → ToolResult → Bool) (descriptor : ToolEndpointDescriptor)
    (i : String) (names : List String) (early retained : ℕ) (h : Handler) (sections : List Section)
    → init descriptor i names early retained ≡ ok h
    → IsValid (run_all same_status same_result sections h)
init-run_all-IsValid same_status same_result descriptor i names early retained h sections e =
    run_all-IsValid same_status same_result sections h
      (init-IsValid descriptor i names early retained h e)

-- What a lost start leaves of the record `r`: an outcome for the callers that wait, which is the
-- result that the record had, or else unknown with the permit released.
pub record Closed (r after : ExecutionRecord) (result : ToolResult) : Type 0 where
  pub ready : after.ready ≡ true
  pub outcome : after.outcome ≡ some (InvokeOutcome.finished result)
  pub kept : after.result ≡ some result
  pub known :
      (r.result ≡ some result)
      ⊎ (r.result ≡ none) × (result ≡ unknown_result) × (after.permit_held ≡ false)

-- In a sound handler a lost start of a bound execution always ends: `_finish_unknown` returns, and
-- the record then has an outcome for those who wait for it, which is the result that was established
-- before, or else unknown with the permit released.
pub finish_unknown-Closed :
    (k : ToolExecutionKey) (h : Handler) (r : ExecutionRecord)
    → IsValid h
    → lookup k h.executions ≡ some r
    → (result : ToolResult) × (after : ExecutionRecord) × ((finish_unknown k h).0 ≡ ok result)
      × (lookup k (finish_unknown k h).1.executions ≡ some after)
      × Closed r after result
unfolding finish_unknown
finish_unknown-Closed k h r v held = elim (Option-cases r.result) [
  | inl q ↦
      let x = release_permit-Released h v k r (closed_unknown r) held (refl, refl) in
      let after = record (closed_unknown r) { permit_held = false; ready = true } in
      (
        unknown_result,
        after,
        rw (held, q, finish_unknown, x.done) refl,
        rw (held, q, finish_unknown, x.done) (lookup-insert_self k after x.after.executions),
        record { ready = refl; outcome = refl; kept = refl; known = inr (q, refl, refl) },
      )
  | inr (result, q) ↦
      let after = record r { outcome = some (InvokeOutcome.finished result); ready = true } in
      (
        result,
        after,
        rw (held, q, finish_unknown) refl,
        ground (arith, held, q, lookup-insert_self k after h.executions),
        record { ready = refl; outcome = refl; kept = q; known = inl q },
      )
]
