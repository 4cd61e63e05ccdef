-- ===== src/Handler/Fates.antt =====
-- What a locked section of src/forge_tool/handler.py may do to a record that is retained.
use adapter_forge_gateway.Prelude.{
  ◌∙◌, subst, ℕ, zero, suc, ◌≡◌, refl, inl, inr, Bool, true, false, Option, none, some, arith, ◌==◌,
  string_eq, Bool-cases, Option-cases, if◌then◌else◌,
}
use adapter_forge_gateway.Dict.{lookup, lookup-insert}
use adapter_forge_gateway.Endpoint.Values.{ToolResult}
use adapter_forge_gateway.Handler.State.{
  ToolExecutionKey, execution_key_eq, ExecutionRecord, Handler, is_evictable, release_permit,
}
use adapter_forge_gateway.Handler.Records.{Records}
use adapter_forge_gateway.Handler.Room.{Cleared}

module _ (same_result : ToolResult → ToolResult → Bool) where
  -- What a later record of the same execution keeps of an earlier one.
  pub record Keeps (r after : ExecutionRecord) : Type 0 where
    pub operation : after.operation ≡ r.operation
    pub invoke_started : after.invoke_started ≡ r.invoke_started
    pub ready : r.ready ≡ true → after.ready ≡ true
    pub permit : r.permit_held ≡ false → after.permit_held ≡ false
    pub result :
        (x : ToolResult)
        → r.result ≡ some x
        → (y : ToolResult) × (after.result ≡ some y) × (same_result x y ≡ true)

  -- A record that is retained is kept, or given up where that is allowed.
  abbrev pub Kept : ExecutionRecord → Option ExecutionRecord → Type 0
  Kept r none = is_evictable r ≡ true
  Kept r (some after) = Keeps r after

  -- Neither made nor given up.
  abbrev pub Rewritten : Option ExecutionRecord → Option ExecutionRecord → Type 0
  Rewritten none o = o ≡ none
  Rewritten (some r) none = ⊥
  Rewritten (some r) (some after) = Keeps r after

  abbrev pub Fate : Records → Records → Type 0
  Fate h after =
      (j : ToolExecutionKey) (r : ExecutionRecord) → lookup j h ≡ some r → Kept r (lookup j after)

  abbrev pub Tame : Records → Records → Type 0
  Tame h after = (j : ToolExecutionKey) → Rewritten (lookup j h) (lookup j after)

-- `==` on results, as far as the handler relies on it.
pub record IsEquality (same_result : ToolResult → ToolResult → Bool) : Type 0 where
  pub reflexive : (x : ToolResult) → same_result x x ≡ true
  pub transitive :
      (x y z : ToolResult)
      → same_result x y ≡ true
      → same_result y z ≡ true
      → same_result x z ≡ true

module _ {same_result : ToolResult → ToolResult → Bool} (e : IsEquality same_result) where
  pub Keeps-refl : (r : ExecutionRecord) → Keeps same_result r r
  Keeps-refl r = record {
    operation = refl;
    invoke_started = refl;
    ready = λ h. h;
    permit = λ h. h;
    result = λ x h. (x, h, e.reflexive x);
  }

  pub Keeps-trans :
      (a b c : ExecutionRecord)
      → Keeps same_result a b
      → Keeps same_result b c
      → Keeps same_result a c
  Keeps-trans a b c f g = record {
    operation = g.operation ∙ f.operation;
    invoke_started = g.invoke_started ∙ f.invoke_started;
    ready = λ h. g.ready (f.ready h);
    permit = λ h. g.permit (f.permit h);
    result = λ x h.
        let (y, at_b, first) = f.result x h in
        let (z, at_c, second) = g.result y at_b in (z, at_c, e.transitive x y z first second);
  }

  Rewritten-refl : (o : Option ExecutionRecord) → Rewritten same_result o o
  Rewritten-refl none = refl
  Rewritten-refl (some r) = Keeps-refl r

  pub Tame-refl : (h : Records) → Tame same_result h h
  Tame-refl h j = Rewritten-refl (lookup j h)

  Rewritten-trans :
      (m n o : Option ExecutionRecord)
      → Rewritten same_result m n
      → Rewritten same_result n o
      → Rewritten same_result m o
  Rewritten-trans none n o f g = subst (λ x. Rewritten same_result x o) f g
  Rewritten-trans (some a) none o f g = absurd f
  Rewritten-trans (some a) (some b) none f g = absurd g
  Rewritten-trans (some a) (some b) (some c) f g = Keeps-trans a b c f g

  pub Tame-trans :
      (h m after : Records)
      → Tame same_result h m
      → Tame same_result m after
      → Tame same_result h after
  Tame-trans h m after f g j = Rewritten-trans _ _ _ (f j) (g j)

  Rewritten-Kept :
      (r : ExecutionRecord) (m o : Option ExecutionRecord)
      → Kept same_result r m
      → Rewritten same_result m o
      → Kept same_result r o
  Rewritten-Kept r none o k same = rw same k
  Rewritten-Kept r (some b) none k w = absurd w
  Rewritten-Kept r (some b) (some c) k w = Keeps-trans r b c k w

  pub Fate-refl : (h : Records) → Fate same_result h h
  Fate-refl h j r held = rw held (Keeps-refl r)

  pub Fate-Tame :
      (h m after : Records)
      → Fate same_result h m
      → Tame same_result m after
      → Fate same_result h after
  Fate-Tame h m after f t j r held = Rewritten-Kept r _ _ (f j r held) (t j)

  -- One record is written over.
  pub written-Tame :
      (k : ToolExecutionKey) (old new : ExecutionRecord) (h after : Records)
      → lookup k h ≡ some old
      → Keeps same_result old new
      → ((j : ToolExecutionKey) → lookup j after ≡ (if k == j then some new else lookup j h))
      → Tame same_result h after
  written-Tame k old new h after held keeps writes j = elim (Bool-cases (k == j)) [
    | inl same ↦
        let before : lookup j h ≡ some old =
          ground (arith, held, same, execution_key_eq.beq_iff k j) in
        rw (writes j, same, before) keeps
    | inr other ↦ rw (writes j, other) (Rewritten-refl (lookup j h))
  ]

  pub Tame-Fate : (h after : Records) → Tame same_result h after → Fate same_result h after
  Tame-Fate h after t = Fate-Tame h h after (Fate-refl h) t

  -- Room is made, and then a key that was free may be bound.
  pub Cleared-Fate :
      (k : ToolExecutionKey) (h after : Records) (bound : ℕ) (room : Bool) (left : Records)
      → Cleared bound h room left
      → lookup k h ≡ none
      → ((j : ToolExecutionKey) → (k == j) ≡ false → lookup j after ≡ lookup j left)
      → Fate same_result h after
  Cleared-Fate k h after bound room left c free beside j r held =
      let other : (k == j) ≡ false = ground (arith, free, held, execution_key_eq.beq_iff k j) in
      rw (beside j other) (elim (Option-cases (lookup j left)) [
        | inr (s, found) ↦
            let same : s ≡ r = ground (arith, c.older j s found, held) in
            rw (found, same) (Keeps-refl r)
        | inl gone ↦ elim (Bool-cases (is_evictable r)) [
          | inl may ↦ rw gone may
          | inr stays ↦ absurd (ground (arith, gone, c.keeps j r held stays))
        ]
      ])

-- A release writes nothing under another key.
pub release_permit-beside :
    (k j : ToolExecutionKey) (r : ExecutionRecord) (h : Handler)
    → (k == j) ≡ false
    → lookup j (release_permit k r h).1.executions ≡ lookup j h.executions
unfolding release_permit
release_permit-beside k j r h other = elim (Bool-cases r.permit_held) [
  | inr e ↦ rw (release_permit, e) refl
  | inl e ↦ elim (Option-cases (lookup r.operation h.active)) [
    | inl missing ↦ ground (
      arith,
      e,
      missing,
      other,
      lookup-insert k j (record r { permit_held = false }) h.executions,
    )
    | inr (zero, found) ↦
        ground (
          arith,
          e,
          found,
          other,
          lookup-insert k j (record r { permit_held = false }) h.executions,
        )
    | inr (suc n, found) ↦
        ground (
          arith,
          e,
          found,
          other,
          lookup-insert k j (record r { permit_held = false }) h.executions,
        )
  ]
]
