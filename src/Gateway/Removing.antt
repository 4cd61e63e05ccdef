-- ===== src/Gateway/Removing.antt =====
-- That the methods which end a pending Query keep the mailbox's accounting.
use adapter_forge_gateway.Prelude.{
  ℕ, suc, ◌≡◌, Bool, true, false, none, some, List, [], ◌∷◌, length-append, ltb, arith, Bool-cases,
  nat_eq, inl, inr,
}
use adapter_forge_gateway.Raise.Method.{raise, gets, ◌>>=◌, ◌>>◌, choose, modify, when}
use adapter_forge_gateway.Raise.Ensures.{
  Ensures, Keeps, keeps_rules, Keeps-then, Ensures-branch, Ensures-gets, Ensures-when, Keeps-bind,
  Ensures-bind, Ensures-then, Ensures-modify, Ensures-pure, Ensures-weaken, Ensures-choose,
  Ensures-raise, Ensures-lift, Keeps-modify,
}
use adapter_forge_gateway.Raise.Reading.{Ensures-find}
use adapter_forge_gateway.Dict.{lookup}
use adapter_forge_gateway.Dict.Size.{count-erase, count-erase-le, erase-insert}
use adapter_forge_gateway.Dict.Distinct.{erase-IsDistinct}
use adapter_forge_gateway.Endpoint.Values.{ToolError}
use adapter_forge_gateway.Directory.State.{RegisteredEndpoint}
use adapter_forge_gateway.Gateway.Envelope.{ToolEnvelope, CorrelationKey, correlation_eq}
use adapter_forge_gateway.Gateway.State.{
  OutboundKind, PendingInvocation, Gateway, Ambient, append_to_caller, append_reserved_outbound,
  caller_message,
}
use adapter_forge_gateway.Gateway.Slots.{
  part_rules, is_stuck, is_owed_terminal, Holds, append_to_caller-Holds,
}
use adapter_forge_gateway.Gateway.Finish.{
  finish_dora, release_terminal, finish_held, finish_pending, timeout_response, remove_pending,
  forget_registration, finish_removed, finish_each_removed, complete_without_pending,
  finish_unclaimed_for_removed,
}
use adapter_forge_gateway.Gateway.Finishing.{settle-Holds, finish_action_exchange_error-Holds}

module _ {capacity n : ℕ} where
  remove_pending-Holds :
      (key : CorrelationKey) (pending : PendingInvocation) (g : Gateway)
      → Holds capacity n g
      → Holds capacity n (remove_pending key pending g)
  unfolding remove_pending
  remove_pending-Holds key pending g h = record {
    fixed = h.fixed;
    room = h.room;
    covered =
        omega (arith, h.covered, count-erase-le is_owed_terminal key g.pending_by_provider_key);
    parts = h.parts;
    tables = record {
      pending_keys = erase-IsDistinct key g.pending_by_provider_key h.tables.pending_keys;
      exchange_keys = h.tables.exchange_keys;
      exchange_bound = h.tables.exchange_bound;
      pendings_answerable = omega (
        arith,
        h.tables.pendings_answerable,
        count-erase-le is_stuck key g.pending_by_provider_key,
      );
      exchanges_answerable = h.tables.exchanges_answerable;
    };
  }

  -- A Dora caller's response takes the terminal slot of its invocation, which is removed.
  finish_dora-Holds :
      (key : CorrelationKey) (pending : PendingInvocation) (response : ToolEnvelope)
      → Ensures
          (λ g. Holds capacity n g × (lookup key g.pending_by_provider_key ≡ some pending))
          (finish_dora key pending response)
          (Holds capacity n)
          (Holds capacity n)
  unfolding finish_dora append_to_caller append_reserved_outbound ◌>>◌ ◌>>=◌ modify gets when raise
      remove_pending release_terminal
  finish_dora-Holds key pending response = record {
    at = λ g (h, held). elim (Bool-cases pending.terminal_slot_reserved) [
      | inl e ↦
          let owed =
            count-erase is_owed_terminal key pending g.pending_by_provider_key h.tables.pending_keys
              held in
          let free : ltb g.reserved_outbound_slots 1 ≡ false = ground (arith, h.covered, owed, e) in
          rw (e, finish_dora, free, erase-insert)
            (record {
              fixed = h.fixed;
              room = ground (
                arith,
                h.room,
                free,
                length-append g.outbound
                    (caller_message OutboundKind.caller_invoke_response response g ∷ []),
              );
              covered = ground (arith, h.covered, owed, e);
              parts = h.parts;
              tables = record {
                pending_keys = erase-IsDistinct key g.pending_by_provider_key h.tables.pending_keys;
                exchange_keys = h.tables.exchange_keys;
                exchange_bound = h.tables.exchange_bound;
                pendings_answerable = omega (
                  arith,
                  h.tables.pendings_answerable,
                  count-erase-le is_stuck key g.pending_by_provider_key,
                );
                exchanges_answerable = h.tables.exchanges_answerable;
              };
            })
      | inr e ↦ rw (e, finish_dora) h
    ];
  }

  finish_held-Holds :
      (key : CorrelationKey) (pending : PendingInvocation) (response : ToolEnvelope) (at : ℕ)
      (timed_out : Bool)
      → Ensures
          (λ g. Holds capacity n g × (lookup key g.pending_by_provider_key ≡ some pending))
          (finish_held key pending response at timed_out)
          (Holds capacity n)
          (Holds capacity n)
  unfolding finish_held timeout_response
  finish_held-Holds key pending response at timed_out =
      Ensures-bind _ _
        (Ensures-weaken _ (λ g h. h) (Ensures-branch _ _ _ (Ensures-lift _) (Ensures-pure response))
          (λ g h. h) (λ g h. h.0))
        (λ chosen. Ensures-choose pending.future _ _ (finish_dora-Holds key pending chosen) (λ id.
          Ensures-then _ _ (Ensures-modify _ (λ g (h, held). settle-Holds id chosen g h))
            (Ensures-modify _ (remove_pending-Holds key pending))))

  pub finish_pending-Holds :
      (key : CorrelationKey) (response : ToolEnvelope) (at : ℕ) (timed_out : Bool)
      → Keeps (Holds capacity n) (finish_pending key response at timed_out)
  unfolding finish_pending
  finish_pending-Holds key response at timed_out =
      Ensures-find _ _ _ (Ensures-pure false) (λ pending.
        Ensures-then _ _ (finish_held-Holds key pending response at timed_out) (Ensures-pure true))

  forget_registration-Holds :
      (at : ℕ) (r : RegisteredEndpoint) → Keeps (Holds capacity n) (forget_registration at r)
  unfolding forget_registration
  forget_registration-Holds at r =
      Keeps-then _ _
        (Keeps-modify _ (λ g h. record {
          fixed = h.fixed;
          room = h.room;
          covered = h.covered;
          tables = h.tables;
          parts = h.parts;
        }))
        (search part_rules)

  finish_removed-Holds :
      (w : Ambient) (at : ℕ) (key : CorrelationKey) (pending : PendingInvocation)
      → Keeps (Holds capacity n) (finish_removed w at key pending)
  unfolding finish_removed
  finish_removed-Holds w at key pending = search (keeps_rules, finish_pending-Holds)

  finish_each_removed-Holds :
      (w : Ambient) (at : ℕ) (keys : List CorrelationKey)
      → Keeps (Holds capacity n) (finish_each_removed w at keys)
  unfolding finish_each_removed
  finish_each_removed-Holds w at [] = search keeps_rules
  finish_each_removed-Holds w at (key ∷ keys) = Keeps-bind _ _ (Ensures-gets _) (λ held.
      Keeps-bind _ _ (Ensures-choose held _ _ (Ensures-pure (0, 0)) (finish_removed-Holds w at key))
        (λ first. Keeps-bind _ _ (finish_each_removed-Holds w at keys) (λ rest. Ensures-pure _)))

  pub finish_unclaimed_for_removed-Holds :
      (w : Ambient) (removed : List RegisteredEndpoint) (at : ℕ)
      → Keeps (Holds capacity n) (finish_unclaimed_for_removed w removed at)
  unfolding finish_unclaimed_for_removed
  finish_unclaimed_for_removed-Holds w [] at = search keeps_rules
  finish_unclaimed_for_removed-Holds w (r ∷ rs) at = search (
    keeps_rules, finish_action_exchange_error-Holds, forget_registration-Holds,
    finish_each_removed-Holds,
  )

  pub complete_caller-Holds :
      (request : ToolEnvelope) (error : ToolError)
      → Ensures
          (Holds capacity (suc n))
          (complete_without_pending request error none true)
          (Holds capacity n)
          (Holds capacity (suc n))
  unfolding complete_without_pending choose
  complete_caller-Holds request error = Ensures-bind _ _ (Ensures-lift _) (λ response.
      Ensures-then _ _ (Ensures-when _ _ (Ensures-raise _))
        (append_to_caller-Holds OutboundKind.caller_invoke_response response))

  pub complete_future-Holds :
      (request : ToolEnvelope) (error : ToolError) (future : ℕ)
      → Keeps (Holds capacity n) (complete_without_pending request error (some future) false)
  unfolding complete_without_pending choose
  complete_future-Holds request error future =
      Ensures-bind _ _ (Ensures-lift _)
        (λ response. Ensures-modify _ (settle-Holds future response))
