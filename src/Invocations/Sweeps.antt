-- ===== src/Invocations/Sweeps.antt =====
-- What the two sweeps of the store leave: `mark_instance_ambiguous` and `mark_deadlines_ambiguous`.
use adapter_forge_gateway.Prelude.{
  ◌≢◌, ◌<◌, ◌≤◌, leb, none, inl, inr, Bool-cases, Option-cases, ℕ, ◌≡◌, refl, String, Bool, true,
  false, some, [], ◌∷◌, arith, ◌==◌, ◌⊎◌, string_eq, subst,
}
use adapter_forge_gateway.Raise.{ok}
use adapter_forge_gateway.Dict.{Dict, lookup, map_values, count_values}
use adapter_forge_gateway.Dict.Inversion.{lookup-map_values_inv, lookup-map_values-some}
use adapter_forge_gateway.Endpoint.Values.{ToolError}
use adapter_forge_gateway.Invocations.Item.{
  ActionPhase, ActionKey, key_eq, ActionInvocation, is_terminal, close_unknown,
}
use adapter_forge_gateway.Invocations.Changes.{mark_instance_item, mark_deadline_item, is_overdue}
use adapter_forge_gateway.Invocations.Store.{ActionInvocationStore}
use adapter_forge_gateway.Invocations.Observe.{
  mark_instance_ambiguous, mark_deadlines_ambiguous, outcome_unknown, deadline_exceeded,
  is_interrupted,
}

-- What the sweep of an instance does to an invocation: one of another endpoint or instance stays, a
-- closed one gives up its permit, and an open one is closed as unknown without its permit.
abbrev pub SweptInstance : String → String → ℕ → ActionInvocation → ActionInvocation → Type 0
SweptInstance e i now a b =
    ((a.endpoint_id ≢ e) ⊎ (a.endpoint_instance_id ≢ i)) × (b ≡ a)
    ⊎ (a.endpoint_id ≡ e)
      × (a.endpoint_instance_id ≡ i)
      × (is_terminal a.phase ≡ true)
      × (b ≡ record a { occupies_concurrency = false })
    ⊎ (a.endpoint_id ≡ e)
      × (a.endpoint_instance_id ≡ i)
      × (is_terminal a.phase ≡ false)
      × (b.phase ≡ ActionPhase.unknown)
      × (b.terminal_at ≡ some now)
      × (b.occupies_concurrency ≡ false)

mark_instance_item-SweptInstance :
    (e i : String) (now : ℕ) (error : ToolError) (a : ActionInvocation)
    → SweptInstance e i now a (mark_instance_item e i now error a)
unfolding mark_instance_item close_unknown
mark_instance_item-SweptInstance e i now error a = elim (Bool-cases (a.endpoint_id == e)) [
  | inr other ↦ inl (
    inl (λ same. absurd (ground (arith, other, same, string_eq.beq_iff a.endpoint_id e))),
    ground (arith, other),
  )
  | inl mine ↦ elim (Bool-cases (a.endpoint_instance_id == i)) [
    | inr other ↦ inl (
      inr (λ same.
          absurd (ground (arith, other, same, string_eq.beq_iff a.endpoint_instance_id i))),
      ground (arith, mine, other),
    )
    | inl same ↦
        let at : a.endpoint_id ≡ e = (string_eq.beq_iff a.endpoint_id e).0 mine in
        let by : a.endpoint_instance_id ≡ i = (string_eq.beq_iff a.endpoint_instance_id i).0 same in
        elim (Bool-cases (is_terminal a.phase)) [
          | inl closed ↦ inr (inl (at, by, closed, ground (arith, mine, same, closed)))
          | inr running ↦ rw (mine, same, running) (inr (inr (at, by, refl, refl, refl, refl)))
        ]
  ]
]

-- `mark_instance_ambiguous` leaves the invocations of another endpoint or of another instance as they
-- were. Of those of the instance, a closed one loses its permit and nothing else, and an open one is
-- closed as unknown at the time of the call with its permit released.
pub mark_instance_fence :
    (e i : String) (now : ℕ) (reason : String) (s : ActionInvocationStore) (j : ActionKey)
    (b : ActionInvocation)
    → lookup j (mark_instance_ambiguous e i now reason s).1.items ≡ some b
    → (a : ActionInvocation) × (lookup j s.items ≡ some a) × SweptInstance e i now a b
unfolding mark_instance_ambiguous
mark_instance_fence e i now reason s j b h =
    let f = mark_instance_item e i now (outcome_unknown reason) in
    let (a, held, same) = lookup-map_values_inv f j b s.items h in
    (
      a,
      held,
      subst (SweptInstance e i now a) same
          (mark_instance_item-SweptInstance e i now (outcome_unknown reason) a),
    )

mark_instance_item-done :
    (e i : String) (now : ℕ) (error : ToolError) (a : ActionInvocation)
    → is_interrupted e i (mark_instance_item e i now error a) ≡ false
unfolding mark_instance_item close_unknown is_interrupted
mark_instance_item-done e i now error a = ground arith

-- A test that every value fails after a sweep counts none.
count-map_values_zero :
    (p : ActionInvocation → Bool) (f : ActionInvocation → ActionInvocation)
    (d : Dict ActionKey ActionInvocation)
    → ((a : ActionInvocation) → p (f a) ≡ false)
    → count_values p (map_values f d) ≡ 0
unfolding count_values map_values
count-map_values_zero p f [] h = refl
count-map_values_zero p f ((k, a) ∷ d) h = ground (arith, h a, count-map_values_zero p f d h)

-- A second `mark_instance_ambiguous` of the same instance reports no change.
pub mark_instance_again :
    (e i : String) (now later : ℕ) (reason other : String) (s : ActionInvocationStore)
    → (mark_instance_ambiguous e i later other (mark_instance_ambiguous e i now reason s).1).0
      ≡ ok 0
unfolding mark_instance_ambiguous
mark_instance_again e i now later reason other s = ground (
  arith,
  count-map_values_zero (is_interrupted e i) (mark_instance_item e i now (outcome_unknown reason))
      s.items (mark_instance_item-done e i now (outcome_unknown reason)),
)

-- What the sweep of deadlines does to an invocation.
abbrev pub SweptDeadline : ℕ → ℕ → ActionInvocation → ActionInvocation → Type 0
SweptDeadline now epoch a b =
    (a.deadline_ms ≡ none) × (b ≡ a)
    ⊎ ((deadline : ℕ) × (a.deadline_ms ≡ some deadline)
        × ((epoch < deadline) ⊎ (is_terminal a.phase ≡ true))
        × (b ≡ a))
    ⊎ ((deadline : ℕ) × (a.deadline_ms ≡ some deadline)
        × (deadline ≤ epoch)
        × (is_terminal a.phase ≡ false)
        × (b.phase ≡ ActionPhase.unknown)
        × (b.terminal_at ≡ some now)
        × (b.occupies_concurrency ≡ true))

mark_deadline_item-SweptDeadline :
    (now epoch : ℕ) (error : ToolError) (a : ActionInvocation)
    → SweptDeadline now epoch a (mark_deadline_item now epoch error a)
unfolding mark_deadline_item close_unknown is_overdue
mark_deadline_item-SweptDeadline now epoch error a = elim (Option-cases a.deadline_ms) [
  | inl e ↦ inl (e, ground (arith, e))
  | inr (deadline, e) ↦ elim (Bool-cases (leb deadline epoch)) [
    | inr early ↦ inr (inl (deadline, e, inl (ground (arith, early)), ground (arith, e, early)))
    | inl due ↦ elim (Bool-cases (is_terminal a.phase)) [
      | inl closed ↦ inr (inl (deadline, e, inr closed, ground (arith, e, due, closed)))
      | inr running ↦
          rw (e, due, running)
            (inr (inr (deadline, refl, ground (arith, due), refl, refl, refl, refl)))
    ]
  ]
]

-- `mark_deadlines_ambiguous` leaves an invocation alone that has no deadline, has not reached it, or
-- is closed, and closes any other as unknown without releasing its permit.
pub mark_deadlines_fence :
    (now epoch : ℕ) (s : ActionInvocationStore) (j : ActionKey) (a : ActionInvocation)
    → lookup j s.items ≡ some a
    → (b : ActionInvocation) × (lookup j (mark_deadlines_ambiguous now epoch s).1.items ≡ some b)
      × SweptDeadline now epoch a b
unfolding mark_deadlines_ambiguous
mark_deadlines_fence now epoch s j a h = (
  mark_deadline_item now epoch deadline_exceeded a,
  lookup-map_values-some (mark_deadline_item now epoch deadline_exceeded) j a s.items h,
  mark_deadline_item-SweptDeadline now epoch deadline_exceeded a,
)
