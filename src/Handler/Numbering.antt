-- ===== src/Handler/Numbering.antt =====
-- The events that an `_ActionEventEmitter` buffers before acceptance are numbered without a gap.
use adapter_forge_gateway.Prelude.{
  ℕ, suc, ◌+◌, ◌≤◌, ◌≡◌, refl, inl, inr, Bool, true, false, not, List, [], ◌∷◌, ◌++◌, arith, length,
  length-append, leb, Bool-cases, is_some, if◌then◌else◌, ◌⊎◌, ◌||◌, ◌&&◌, Option,
}
use adapter_forge_gateway.Raise.{ok, Result}
use adapter_forge_gateway.Endpoint.Values.{ToolEvent}
use adapter_forge_gateway.Handler.Emitter.{
  Emitter, new_emitter, event_phase, begin_emit, abandon_emit, numbered, finish_emit, accept,
  reject, close_terminal, EmitterSection, emit_all,
}

-- Consecutive numbers up to and without `next`.
abbrev pub Run : List (ℕ × ToolEvent) → ℕ → Type 0
Run [] next = Unit
Run ((n, e) ∷ es) next = (n + suc (length es) ≡ next) × Run es next

Run-append :
    (es : List (ℕ × ToolEvent)) (next : ℕ) (e : ToolEvent)
    → Run es next
    → Run (es ++ (next, e) ∷ []) (suc next)
Run-append [] next e r = ground arith
Run-append ((n, x) ∷ es) next e r =
    (omega (arith, r.0, length-append es ((next, e) ∷ [])), Run-append es next e r.1)

-- The buffer is a run up to the next number and within its bound, and empty once accepted.
pub record IsSound (s : Emitter) : Type 0 where
  pub run : Run s.buffer s.sequence
  pub bound : length s.buffer ≤ s.max_early_events
  pub flushed : (s.accepted ≡ false) ⊎ (s.buffer ≡ [])

abbrev Keeps : Result (Option (ℕ × ToolEvent)) × Emitter → Type 0
Keeps r = IsSound r.1

if_cases :
    {A : Type 0} (P : A → Type 0) (b : Bool) (x y : A)
    → (b ≡ true → P x)
    → (b ≡ false → P y)
    → P (if b then x else y)
if_cases P true x y f g = f refl
if_cases P false x y f g = g refl

module _ (event : ToolEvent) (s : Emitter) where
  flushed-IsSound : s.buffer ≡ [] → IsSound (numbered event s)
  unfolding numbered
  flushed-IsSound q = elim (Bool-cases (is_some (event_phase event.type))) [
    | inl e ↦ rw e (record { run = rw q tt; bound = rw q (omega arith); flushed = inr q })
    | inr e ↦ rw e (record { run = rw q tt; bound = rw q (omega arith); flushed = inr q })
  ]

  buffered-IsSound :
      IsSound s
      → s.accepted ≡ false
      → length s.buffer + 1 ≤ s.max_early_events
      → IsSound (record (numbered event s) { buffer = s.buffer ++ (s.sequence, event) ∷ [] })
  unfolding numbered
  buffered-IsSound v early room =
      let longer = Run-append s.buffer s.sequence event v.run in
      let size : length (s.buffer ++ (s.sequence, event) ∷ []) ≤ s.max_early_events =
        omega (arith, room, length-append s.buffer ((s.sequence, event) ∷ [])) in
      elim (Bool-cases (is_some (event_phase event.type))) [
        | inl e ↦ rw e (record { run = longer; bound = size; flushed = inl early })
        | inr e ↦ rw e (record { run = longer; bound = size; flushed = inl early })
      ]

  finish_emit-IsSound : IsSound s → IsSound (finish_emit event s).1
  unfolding finish_emit
  finish_emit-IsSound v =
      if_cases Keeps (not s.accepted && leb s.max_early_events (length s.buffer)) _ _
        (λ full. record { run = v.run; bound = v.bound; flushed = v.flushed })
        (λ room.
          if_cases Keeps (not s.accepted) _ _
            (λ early. buffered-IsSound v (ground (arith, early)) (ground (arith, early, room)))
            (λ late.
              let empty : s.buffer ≡ [] = ground (arith, late, v.flushed) in
              if_cases Keeps (not s.has_sink) _ _ (λ _. flushed-IsSound empty)
                (λ _. flushed-IsSound empty)))

begin_emit-IsSound : (event : ToolEvent) (s : Emitter) → IsSound s → IsSound (begin_emit event s).1
unfolding begin_emit
begin_emit-IsSound event s v = elim (Bool-cases (s.closed || s.terminal_pending)) [
  | inl e ↦ rw e v
  | inr e ↦ rw e (record { run = v.run; bound = v.bound; flushed = v.flushed })
]

emit_all-IsSound :
    (sections : List EmitterSection) (s : Emitter) → IsSound s → IsSound (emit_all sections s)
unfolding emit_all abandon_emit accept reject close_terminal
emit_all-IsSound [] s v = v
emit_all-IsSound (EmitterSection.begun event ∷ rest) s v =
    emit_all-IsSound rest _ (begin_emit-IsSound event s v)
emit_all-IsSound (EmitterSection.finished event ∷ rest) s v =
    emit_all-IsSound rest _ (finish_emit-IsSound event s v)
emit_all-IsSound (EmitterSection.abandoned ∷ rest) s v =
    emit_all-IsSound rest _ (record { run = v.run; bound = v.bound; flushed = v.flushed })
emit_all-IsSound (EmitterSection.accepting ∷ rest) s v =
    emit_all-IsSound rest _ (record { run = tt; bound = omega arith; flushed = inr refl })
emit_all-IsSound (EmitterSection.rejecting ∷ rest) s v =
    emit_all-IsSound rest _ (record { run = tt; bound = omega arith; flushed = inr refl })
emit_all-IsSound (EmitterSection.closing ∷ rest) s v =
    emit_all-IsSound rest _ (record { run = v.run; bound = v.bound; flushed = v.flushed })

-- After any sections of a new emitter, the events that `accept` returns are numbered without a gap up
-- to the next number, there are at most `max_early_events` of them, and there are none if acceptance
-- was already established.
pub accept-emit_all :
    (early : ℕ) (has_sink : Bool) (sections : List EmitterSection)
    → let s = emit_all sections (new_emitter early has_sink) in
      (es : List (ℕ × ToolEvent)) × ((accept s).0 ≡ ok es)
      × Run es s.sequence
      × (length es ≤ s.max_early_events)
      × ((s.accepted ≡ false) ⊎ (es ≡ []))
unfolding accept
accept-emit_all early has_sink sections =
    let s = emit_all sections (new_emitter early has_sink) in
    let v =
      emit_all-IsSound sections (new_emitter early has_sink)
        (record { run = tt; bound = omega arith; flushed = inr refl }) in
    (s.buffer, refl, v.run, v.bound, v.flushed)
