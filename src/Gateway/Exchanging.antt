-- ===== src/Gateway/Exchanging.antt =====
-- That opening an exchange keeps the mailbox's accounting.
use adapter_forge_gateway.Prelude.{
  refl, not, ◌&&◌, ℕ, suc, ◌+◌, ◌≡◌, String, Bool, true, false, Option, none, arith, if◌then◌else◌,
}
use adapter_forge_gateway.Raise.{Action}
use adapter_forge_gateway.Raise.Ensures.{
  Keeps-then, Keeps-raise, Ensures-branch, Ensures-choose, Ensures, Keeps, Ensures-bind,
  Ensures-then, Ensures-if_so, Ensures-raise, Ensures-lift, Ensures-modify, Ensures-weaken,
  Ensures-try, Ensures-gets, Ensures-pure, Keeps-bind,
}
use adapter_forge_gateway.Raise.Reading.{Ensures-read}
use adapter_forge_gateway.Dict.{lookup}
use adapter_forge_gateway.Dict.Size.{weight, count-insert_new, length-insert_new}
use adapter_forge_gateway.Dict.Distinct.{insert-IsDistinct}
use adapter_forge_gateway.Invocations.Item.{ActionKey, ActionInvocation}
use adapter_forge_gateway.Directory.State.{ToolProviderRouteIdentity, RegisteredEndpoint}
use adapter_forge_gateway.Invocations.Soundness.{get-IsSafe, resolve-IsSafe}
use adapter_forge_gateway.Gateway.Envelope.{ToolEnvelope, CorrelationKey, correlation_eq}
use adapter_forge_gateway.Gateway.State.{Purpose, ActionExchange, Gateway, Ambient}
use adapter_forge_gateway.Gateway.Slots.{
  part_rules, is_answerable, is_stuck_exchange, is_owed_answer, Holds, Holds-less, reserve-Holds,
  release-Holds, append-Holds, on_invocations-Holds,
}
use adapter_forge_gateway.Gateway.Removing.{finish_unclaimed_for_removed-Holds}
use adapter_forge_gateway.Gateway.Exchanges.{
  put_exchange, is_full, is_held, queue_at, queue_action_exchange, or_release, resolve_pinned,
  mark_unpinned, Lookup, refresh_at, refresh_item, refresh_action_key, refresh_action,
}

-- A response that is owed can be made.
abbrev pub IsPromised : Bool → Option ToolEnvelope → Type 0
IsPromised reserved logical = (reserved && not (is_answerable logical)) ≡ false

-- The slots that an exchange keeps for its caller.
abbrev owed : Bool → ℕ
owed caller_reserved = if caller_reserved then 1 else 0

module _ {capacity n : ℕ} where
  put_exchange-Holds :
      (key : CorrelationKey) (exchange : ActionExchange) (g : Gateway)
      → Holds capacity (weight is_owed_answer exchange + n) g
      → is_full g ≡ false
      → is_held key g ≡ false
      → is_stuck_exchange exchange ≡ false
      → Holds capacity n (put_exchange key exchange g)
  unfolding put_exchange
  put_exchange-Holds key exchange g h room free answerable =
      let absent : lookup key g.action_exchanges ≡ none = ground (arith, free) in
      record {
        fixed = h.fixed;
        room = h.room;
        covered = ground (
          arith,
          h.covered,
          count-insert_new is_owed_answer key exchange g.action_exchanges absent,
        );
        parts = h.parts;
        tables = record {
          pending_keys = h.tables.pending_keys;
          exchange_keys = insert-IsDistinct key exchange g.action_exchanges h.tables.exchange_keys;
          exchange_bound =
              ground
                (arith, h.fixed, room, length-insert_new key exchange g.action_exchanges absent);
          pendings_answerable = h.tables.pendings_answerable;
          exchanges_answerable = ground (
            arith,
            h.tables.exchanges_answerable,
            answerable,
            count-insert_new is_stuck_exchange key exchange g.action_exchanges absent,
          );
        };
      }

module _ {capacity n : ℕ} where
  -- An exchange takes one slot for its request, and keeps one for the answer that it owes.
  queue_at-Holds :
      (key : CorrelationKey) (exchange : ActionExchange)
      → is_stuck_exchange exchange ≡ false
      → Ensures
          (Holds capacity (weight is_owed_answer exchange + suc n))
          (queue_at key exchange)
          (Holds capacity n)
          (Holds capacity (weight is_owed_answer exchange + suc n))
  unfolding queue_at
  queue_at-Holds key exchange answerable = Ensures-read is_full _ (λ full.
      Ensures-then _ _
        (Ensures-if_so
          {Q = λ g. Holds capacity (weight is_owed_answer exchange + suc n) g × (is_full g ≡ false)}
          full _ (λ e. Ensures-weaken _ (λ g h. h.0) (Ensures-raise _) (λ g h. h) (λ g h. h))
          (λ g e h. (h.0, ground (arith, h.1, e))))
        (Ensures-read (is_held key) _ (λ held.
          Ensures-then _ _
            (Ensures-if_so
              {Q = λ g.
                (Holds capacity (weight is_owed_answer exchange + suc n) g × (is_full g ≡ false))
                × (is_held key g ≡ false)}
              held _ (λ e. Ensures-weaken _ (λ g h. h.0.0) (Ensures-raise _) (λ g h. h) (λ g h. h))
              (λ g e h. (h.0, ground (arith, h.1, e))))
            (Ensures-then _ _
              (Ensures-modify _
                (λ g h. put_exchange-Holds key exchange g h.0.0 h.0.1 h.1 answerable))
              (append-Holds _)))))

  pub queue_action_exchange-Holds :
      (key : ActionKey) (request : ToolEnvelope) (route : ToolProviderRouteIdentity)
      (purpose : Purpose) (deadline : ℕ) (logical : Option ToolEnvelope) (caller_reserved : Bool)
      → IsPromised caller_reserved logical
      → Ensures
          (Holds capacity (owed caller_reserved + suc n))
          (queue_action_exchange key request route purpose deadline logical caller_reserved)
          (Holds capacity n)
          (Holds capacity (owed caller_reserved + suc n))
  unfolding queue_action_exchange
  queue_action_exchange-Holds key request route purpose deadline logical caller_reserved promised =
      Ensures-bind _ _ (Ensures-lift _) (λ pk. queue_at-Holds pk _ promised)

module _ {capacity n : ℕ} where
  -- Reserved slots are given back when what they were for fails.
  pub or_release-Holds :
      {A : Type 0} (count : ℕ) (m : Action Gateway A) (undo : Action Gateway (Unit {0}))
      → Ensures
          (Holds capacity (suc count + n))
          m
          (Holds capacity n)
          (Holds capacity (suc count + n))
      → Keeps (Holds capacity n) undo
      → Ensures
          (Holds capacity (suc count + n))
          (or_release (suc count) m undo)
          (Holds capacity n)
          (Holds capacity n)
  unfolding or_release
  or_release-Holds count m undo hm hu =
      Ensures-try m _ hm
        (λ x. Ensures-then _ _ (release-Holds count) (Ensures-then undo _ hu (Ensures-raise x)))

  pub resolve_pinned-Holds :
      (w : Ambient) (item : ActionInvocation) (now : ℕ)
      → Keeps (Holds capacity n) (resolve_pinned w item now)
  unfolding resolve_pinned
  resolve_pinned-Holds w item now = search (part_rules, finish_unclaimed_for_removed-Holds) depth 12

  pub mark_unpinned-Holds :
      (item : ActionInvocation) (now : ℕ) → Keeps (Holds capacity n) (mark_unpinned item now)
  unfolding mark_unpinned
  mark_unpinned-Holds item now = search part_rules

module _ {capacity n : ℕ} where
  refresh_at-Holds :
      (w : Ambient) (key : ActionKey) (item : ActionInvocation) (purpose : Lookup) (now : ℕ)
      (logical : Option ToolEnvelope) (caller_reserved : Bool) (registration : RegisteredEndpoint)
      → IsPromised caller_reserved logical
      → Keeps
          (Holds capacity n)
          (refresh_at w key item purpose now logical caller_reserved registration)
  unfolding refresh_at
  refresh_at-Holds w key item purpose now logical true registration promised =
      Keeps-bind _ _ (Ensures-gets _) (λ timeout. Ensures-then _ _ (reserve-Holds 2) (
        Ensures-then _ _
          (or_release-Holds 1 _ _
            (Ensures-weaken _ (λ g h. Holds-less g (omega arith) h)
              (queue_action_exchange-Holds key _ _ _ _ logical true promised) (λ g h. h)
              (λ g h. Holds-less g (omega arith) h))
            (Ensures-pure tt))
          (Ensures-pure true)))
  refresh_at-Holds w key item purpose now logical false registration promised =
      Keeps-bind _ _ (Ensures-gets _) (λ timeout. Ensures-then _ _ (reserve-Holds 1) (
        Ensures-then _ _
          (or_release-Holds 0 _ _
            (Ensures-weaken _ (λ g h. Holds-less g (omega arith) h)
              (queue_action_exchange-Holds key _ _ _ _ logical false promised) (λ g h. h)
              (λ g h. Holds-less g (omega arith) h))
            (Ensures-pure tt))
          (Ensures-pure true)))

  refresh_item-Holds :
      (w : Ambient) (key : ActionKey) (purpose : Lookup) (now : ℕ) (logical : Option ToolEnvelope)
      (caller_reserved : Bool) (item : ActionInvocation)
      → IsPromised caller_reserved logical
      → Keeps (Holds capacity n) (refresh_item w key purpose now logical caller_reserved item)
  unfolding refresh_item
  refresh_item-Holds w key purpose now logical caller_reserved item promised =
      Keeps-bind _ _ (Ensures-gets _) (λ busy. Ensures-branch _ _ _ (Ensures-pure false) (
        Keeps-bind _ _ (resolve_pinned-Holds w item now) (λ found.
          Ensures-choose found _ _
            (Keeps-then _ _ (mark_unpinned-Holds item now) (Ensures-pure false))
            (λ registration.
              refresh_at-Holds w key item purpose now logical caller_reserved registration
                promised))))

  pub refresh_action_key-Holds :
      (w : Ambient) (key : ActionKey) (purpose : Lookup) (now : ℕ) (logical : Option ToolEnvelope)
      (caller_reserved : Bool)
      → IsPromised caller_reserved logical
      → Keeps (Holds capacity n) (refresh_action_key w key purpose now logical caller_reserved)
  unfolding refresh_action_key
  refresh_action_key-Holds w key purpose now logical caller_reserved promised =
      Keeps-bind _ _ (on_invocations-Holds _ (get-IsSafe key now)) (λ held.
        Ensures-choose held _ _ (Keeps-raise _)
          (λ item. refresh_item-Holds w key purpose now logical caller_reserved item promised))

  pub refresh_action-Holds :
      (w : Ambient) (invocation_id : String) (purpose : Lookup) (now : ℕ)
      → Keeps (Holds capacity n) (refresh_action w invocation_id purpose now)
  unfolding refresh_action
  refresh_action-Holds w invocation_id purpose now =
      Keeps-bind _ _ (on_invocations-Holds _ (resolve-IsSafe invocation_id now)) (λ found.
        Ensures-choose found _ _ (Keeps-raise _)
          (λ k. refresh_action_key-Holds w k purpose now none false refl))
