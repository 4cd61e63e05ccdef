-- ===== src/Handler/Survival.antt =====
-- Over any sequence of locked sections, an execution's record is kept until it may be given up.
use adapter_forge_gateway.Prelude.{
  ◌≡◌, refl, ◌⊎◌, inl, inr, String, Bool, true, false, Option, none, some, List, [], ◌∷◌, ◌++◌,
  arith, string_eq, Bool-cases, Option-cases, ap,
}
use adapter_forge_gateway.Raise.{Result, ok, err, Action, raise_if, protocol_error}
use adapter_forge_gateway.Raise.State.{then_do, ◌>>◌, lift, modify}
use adapter_forge_gateway.Dict.{lookup}
use adapter_forge_gateway.Dict.Inversion.{lookup-insert_self}
use adapter_forge_gateway.Endpoint.Values.{ToolResult, ToolExecutionStatus}
use adapter_forge_gateway.Handler.State.{
  ToolExecutionKey, execution_key_eq, ExecutionRecord, Handler, matches_result, is_evictable,
}
use adapter_forge_gateway.Handler.Steps.{put, at_end}
use adapter_forge_gateway.Handler.Observe.{
  concluded, conclude, validate_phase_transition, is_changed, record_status, record_terminal,
  Section, run, run_all,
}
use adapter_forge_gateway.Handler.Records.{lookup-move_to_end}
use adapter_forge_gateway.Handler.Permits.{IsValid, put-IsValid, release_permit-Released}
use adapter_forge_gateway.Handler.Sections.{
  Bound, observation_record-Bound, concluded-Alike, run-IsValid,
}
use adapter_forge_gateway.Handler.Fates.{
  Keeps, Fate, Tame, IsEquality, Keeps-refl, Keeps-trans, Fate-Tame, Tame-refl, Tame-trans,
}
use adapter_forge_gateway.Handler.Retained.{
  put-Tame, at_end-Tame, begin_start-Fate, observation_record-Fate,
}
use adapter_forge_gateway.Handler.Unchanged.{
  released-Tame, finish_accepted-Fate, finish_refused-Fate, finish_unknown-Fate,
}

module _ {same_result : ToolResult → ToolResult → Bool} (e : IsEquality same_result) where
  checked-Tame :
      {B : Type 0} (c : Result (Unit {0})) (f : Action Handler B) (s : Handler)
      → (c ≡ ok tt → Tame same_result s.executions (f s).1.executions)
      → Tame same_result s.executions ((lift c >> f) s).1.executions
  checked-Tame (ok tt) f s t = t refl
  checked-Tame (err x) f s t = Tame-refl e s.executions

  -- A record without its permit.
  dropped-Keeps : (r : ExecutionRecord) → Keeps same_result r (record r { permit_held = false })
  dropped-Keeps r = record {
    operation = refl;
    invoke_started = refl;
    ready = λ h. h;
    permit = λ h. refl;
    result = λ x h. (x, h, e.reflexive x);
  }

  concluded-Keeps :
      (status : ToolExecutionStatus) (result : ToolResult) (r : ExecutionRecord)
      → ((x : ToolResult) → r.result ≡ some x → same_result x result ≡ true)
      → Keeps same_result r (concluded status result r)
  unfolding concluded
  concluded-Keeps status result r agrees = elim (Bool-cases r.invoke_started) [
    | inl d ↦ rw d (record {
      operation = refl;
      invoke_started = refl;
      ready = λ h. h;
      permit = λ h. h;
      result = λ x h. (result, refl, agrees x h);
    })
    | inr d ↦ rw d (record {
      operation = refl;
      invoke_started = refl;
      ready = λ h. refl;
      permit = λ h. h;
      result = λ x h. (result, refl, agrees x h);
    })
  ]

  conclude-Tame :
      (s : Handler) (k : ToolExecutionKey) (status : ToolExecutionStatus) (result : ToolResult)
      (r : ExecutionRecord)
      → IsValid s
      → lookup k s.executions ≡ some r
      → ((x : ToolResult) → r.result ≡ some x → same_result x result ≡ true)
      → Tame same_result s.executions (conclude k status result r s).1.executions
  unfolding conclude
  conclude-Tame s k status result r v held agrees =
      let c = concluded status result r in
      let w = put-IsValid s v k r c held (concluded-Alike status result r) in
      let found = lookup-insert_self k c s.executions in
      let x = release_permit-Released (put k c s) w k c c found (refl, refl) in
      rw (conclude, x.done)
        (Tame-trans e _ _ _ (put-Tame e k r c s held (concluded-Keeps status result r agrees)) (
          released-Tame e k c c _ _ (put k c s) x.after _ x.done found (dropped-Keeps c)
            (lookup-move_to_end k _ x.after.executions x.valid.distinct)))

-- What follows an observation rewrites the record at its key.
observed-then-Fate :
    {same_result : ToolResult → ToolResult → Bool} {B : Type 0} (e : IsEquality same_result)
    (h : Handler) (k : ToolExecutionKey) (m : Result ExecutionRecord × Handler)
    (f : ExecutionRecord → Handler → Result B × Handler)
    → Fate same_result h.executions m.1.executions
    → Bound k m
    → ((r : ExecutionRecord) (s : Handler)
        → IsValid s
        → lookup k s.executions ≡ some r
        → Tame same_result s.executions (f r s).1.executions)
    → Fate same_result h.executions (then_do f m).1.executions
observed-then-Fate e h k (ok r, s) f fate b g = Fate-Tame e _ _ _ fate (g r s b.0 b.1)
observed-then-Fate e h k (err x, s) f fate b g = fate

module _ (same_status : ToolExecutionStatus → ToolExecutionStatus → Bool)
    (same_result : ToolResult → ToolResult → Bool) (e : IsEquality same_result) where
  unchanged-Agrees :
      (old : Option ToolResult) (result x : ToolResult)
      → raise_if
          (is_changed same_status same_result old result)
          (protocol_error "FORGE_ENDPOINT_TERMINAL_CHANGED")
        ≡ ok tt
      → old ≡ some x
      → same_result x result ≡ true
  unchanged-Agrees none result x passed h = absurd (ground (arith, h))
  unchanged-Agrees (some y) result x passed h = ground (arith, passed, h)

  record_status-Fate :
      (h : Handler) (k : ToolExecutionKey) (operation : String) (status : ToolExecutionStatus)
      → IsValid h
      → Fate same_result h.executions
          (record_status same_status same_result k operation status h).1.executions
  unfolding record_status
  record_status-Fate h k operation status v =
      observed-then-Fate e h k _ _ (observation_record-Fate e h v k operation)
        (observation_record-Bound h v k operation)
        (λ r s w held.
          checked-Tame e (validate_phase_transition same_status same_result r.status status)
            (modify (at_end k (record r { status = some status }))) s
            (λ passed. at_end-Tame e k r _ s w held (record {
              operation = refl;
              invoke_started = refl;
              ready = λ q. q;
              permit = λ q. q;
              result = λ x q. (x, q, e.reflexive x);
            })))

  record_terminal-Fate :
      (h : Handler) (k : ToolExecutionKey) (operation : String) (status : ToolExecutionStatus)
      (result : ToolResult)
      → IsValid h
      → Fate same_result h.executions
          (record_terminal same_status same_result k operation status result h).1.executions
  unfolding record_terminal
  record_terminal-Fate h k operation status result v =
      elim (Bool-cases (matches_result status result)) [
        | inr d ↦ rw (record_terminal, d) (λ j r held. rw held (Keeps-refl e r))
        | inl d ↦
            rw (record_terminal, d)
              (observed-then-Fate e h k _ _ (observation_record-Fate e h v k operation)
                (observation_record-Bound h v k operation)
                (λ r s w held.
                  checked-Tame e (validate_phase_transition same_status same_result r.status status)
                    _ s
                    (λ _.
                      checked-Tame e
                        (raise_if (is_changed same_status same_result r.result result)
                          (protocol_error "FORGE_ENDPOINT_TERMINAL_CHANGED"))
                        (conclude k status result r) s
                        (λ passed.
                          conclude-Tame e s k status result r w held
                            (λ x q. unchanged-Agrees r.result result x passed q)))))
      ]

  run-Fate :
      (a : Section) (h : Handler)
      → IsValid h
      → Fate same_result h.executions (run same_status same_result a h).executions
  run-Fate (Section.start k operation) h v = begin_start-Fate e h v k operation
  run-Fate (Section.accepted k details) h v = finish_accepted-Fate e h v k details
  run-Fate (Section.refused k error) h v = finish_refused-Fate e h v k error
  run-Fate (Section.lost k) h v = finish_unknown-Fate e h v k
  run-Fate (Section.status k operation s) h v = record_status-Fate h k operation s v
  run-Fate (Section.terminal k operation s r) h v = record_terminal-Fate h k operation s r v

-- The section of `sections` that gave up the execution at `j`, whose record was `r` at first: the
-- record was then evictable, and had kept what `r` had.
pub record GivenUp (same_status : ToolExecutionStatus → ToolExecutionStatus → Bool)
    (same_result : ToolResult → ToolResult → Bool) (j : ToolExecutionKey) (r : ExecutionRecord)
    (sections : List Section) (h : Handler) : Type 0 where
  pub before : List Section
  pub section : Section
  pub later : List Section
  pub last : ExecutionRecord
  pub split : sections ≡ before ++ section ∷ later
  pub held : lookup j (run_all same_status same_result before h).executions ≡ some last
  pub keeps : Keeps same_result r last
  pub free : is_evictable last ≡ true
  pub gone :
      lookup j
        (run same_status same_result section (run_all same_status same_result before h)).executions
      ≡ none

module _ (same_status : ToolExecutionStatus → ToolExecutionStatus → Bool)
    (same_result : ToolResult → ToolResult → Bool) (e : IsEquality same_result) where
  -- Where `==` on results is reflexive and transitive, whatever locked sections run on a sound handler, in
  -- whatever order and whether they raise or not, the record of an execution ends in one of two ways.
  -- It is still there: its operation is the same and it counts as started if it did; if it was ready
  -- for its callers it is; a permit that it had released is not taken again; and a result that was
  -- established is there, up to `==`. Or some section gave it up, at a time when it had kept all
  -- that, held no permit, and was ready if its start had been called.
  pub run_all-Keeps :
      (j : ToolExecutionKey) (r : ExecutionRecord) (sections : List Section) (h : Handler)
      → IsValid h
      → lookup j h.executions ≡ some r
      → GivenUp same_status same_result j r sections h
        ⊎ ((after : ExecutionRecord) × (lookup j
                (run_all same_status same_result sections h).executions
              ≡ some after)
            × Keeps same_result r after)
  unfolding run_all
  run_all-Keeps j r [] h v held = inr (r, held, Keeps-refl e r)
  run_all-Keeps j r (a ∷ sections) h v held =
      let next = run same_status same_result a h in
      let fate = run-Fate same_status same_result e a h v j r held in
      elim (Option-cases (lookup j next.executions)) [
        | inl gone ↦
            let may : is_evictable r ≡ true = rw gone at fate in
            inl (record {
              before = [];
              section = a;
              later = sections;
              last = r;
              split = refl;
              held = held;
              keeps = Keeps-refl e r;
              free = may;
              gone = gone;
            })
        | inr (s, found) ↦
            let kept : Keeps same_result r s = rw found at fate in
            elim (run_all-Keeps j s sections next (run-IsValid same_status same_result a h v)
              found) [
                | inl g ↦ inl (record {
                  before = a ∷ g.before;
                  section = g.section;
                  later = g.later;
                  last = g.last;
                  split = ap (λ (rest : List Section). a ∷ rest) g.split;
                  held = g.held;
                  keeps = Keeps-trans e r s g.last kept g.keeps;
                  free = g.free;
                  gone = g.gone;
                })
                | inr (after, there, keeps) ↦ inr (after, there, Keeps-trans e r s after kept keeps)
              ]
      ]
