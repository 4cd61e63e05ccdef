-- ===== src/Invocations/Events.antt =====
-- The retained events of an invocation are a window of consecutive sequence numbers.
use adapter_forge_gateway.Prelude.{
  ℕ, zero, suc, ◌+◌, ◌-◌, ◌≤◌, ◌≡◌, some, List, [], ◌∷◌, ◌++◌, arith, length, drop, length-append,
  length-drop,
}
use adapter_forge_gateway.Invocations.Item.{ActionInvocationEvent, append_bounded}

-- Consecutive sequence numbers up to and without `next`.
abbrev pub Consecutive : List ActionInvocationEvent → ℕ → Type 0
Consecutive [] next = Unit
Consecutive (e ∷ es) next = (e.sequence + suc (length es) ≡ next) × Consecutive es next

Consecutive-append :
    (es : List ActionInvocationEvent) (e : ActionInvocationEvent)
    → Consecutive es e.sequence
    → Consecutive (es ++ e ∷ []) (e.sequence + 1)
Consecutive-append [] e h = (omega arith, tt)
Consecutive-append (x ∷ es) e h =
    (omega (arith, length-append es (e ∷ []), h.0), Consecutive-append es e h.1)

Consecutive-drop :
    (n : ℕ) (es : List ActionInvocationEvent) (next : ℕ)
    → Consecutive es next
    → Consecutive (drop n es) next
Consecutive-drop zero es next h = h
Consecutive-drop (suc n) [] next h = tt
Consecutive-drop (suc n) (e ∷ es) next h = Consecutive-drop n es next h.1

module _ (limit : ℕ) (es : List ActionInvocationEvent) (e : ActionInvocationEvent) where
  pub append_bounded-Consecutive :
      Consecutive es e.sequence → Consecutive (append_bounded (some limit) es e) (e.sequence + 1)
  unfolding append_bounded
  append_bounded-Consecutive h = Consecutive-drop _ (es ++ e ∷ []) _ (Consecutive-append es e h)

  pub length-append_bounded-le : length (append_bounded (some limit) es e) ≤ limit
  unfolding append_bounded
  length-append_bounded-le =
      omega (arith, length-drop (length (es ++ e ∷ []) - limit) (es ++ e ∷ []))
