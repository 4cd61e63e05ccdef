-- ===== src/Commands/Order.antt =====
-- That the mailbox of commands is a bounded queue: what was accepted comes out once, in order, until the
-- mailbox is blocked or closed for good.
use adapter_forge_gateway.Prelude.{
  sym, ◌∙◌, ap, ℕ, ◌≤◌, ◌≡◌, refl, String, true, Option, none, some, List, [], ◌∷◌, ◌++◌, length,
  length-append, leb, ltb, is_some, ◌||◌, arith, Bool-cases, inl, inr,
}
use adapter_forge_gateway.Raise.{Result, ok, err}
use adapter_forge_gateway.Endpoint.Json.{Fields}
use adapter_forge_gateway.Commands.{
  new_service, Command, CommandService, init, offer, enqueue_policy_command, set_record_root,
  take_head, take_next_command, close, block_command_dispatch, or_no_inputs, or_default,
}

append_assoc : (xs ys zs : List Command) → (xs ++ ys) ++ zs ≡ xs ++ (ys ++ zs)
append_assoc [] ys zs = refl
append_assoc (x ∷ xs) ys zs = ap (λ r. x ∷ r) (append_assoc xs ys zs)

pub data Call : Type 0 where
  policy : String → Option Fields → String → Option String → Call
  root : Option String → Call
  take : Call
  close_for : String → Call
  block_for : String → Call

-- The mailbox, with the commands it has accepted and those it has given out, in order.
pub record Log : Type 0 where
  pub service : CommandService
  pub accepted : List Command
  pub taken : List Command

abbrev pub log_offer : Command → Log → Result (Unit {0}) × CommandService → Log
log_offer command l (ok tt, s) = record l { service = s; accepted = l.accepted ++ command ∷ [] }
log_offer command l (err x, s) = record l { service = s }

abbrev pub log_take : Log → Result (Option Command) × CommandService → Log
log_take l (ok (some command), s) = record l { service = s; taken = l.taken ++ command ∷ [] }
log_take l (ok none, s) = record l { service = s }
log_take l (err x, s) = record l { service = s }

unfoldable pub perform : Call → Log → Log
perform (Call.policy command inputs request_id policy_id) l =
    log_offer
      (Command.policy_command command (or_no_inputs inputs) request_id
        (or_default policy_id l.service.default_policy_id))
      l (enqueue_policy_command command inputs request_id policy_id l.service)
perform (Call.root r) l = log_offer (Command.set_root r) l (set_record_root r l.service)
perform Call.take l = log_take l (take_next_command l.service)
perform (Call.close_for reason) l = record l { service = (close reason l.service).1 }
perform (Call.block_for reason) l = record l {
  service = (block_command_dispatch reason l.service).1;
}

unfoldable pub perform_all : List Call → Log → Log
perform_all [] l = l
perform_all (call ∷ calls) l = perform_all calls (perform call l)

-- What was accepted is what was given out and then what waits, and no more waits than may.
pub record IsQueue (capacity : ℕ) (l : Log) : Type 0 where
  pub size : l.service.maxsize ≡ capacity
  pub bound : length l.service.command_queue ≤ capacity
  pub order : l.accepted ≡ l.taken ++ l.service.command_queue

module _ {capacity : ℕ} where
  offer-IsQueue :
      (command : Command) (l : Log)
      → IsQueue capacity l
      → IsQueue capacity (log_offer command l (offer command l.service))
  unfolding offer
  offer-IsQueue command l h = elim (Bool-cases (is_some l.service.closed_reason)) [
    | inl e ↦ rw (offer, e) (record { size = h.size; bound = h.bound; order = h.order })
    | inr e ↦ elim (Bool-cases (is_some l.service.dispatch_blocked_reason)) [
      | inl f ↦ rw (offer, e, f) (record { size = h.size; bound = h.bound; order = h.order })
      | inr f ↦ elim (Bool-cases (leb l.service.maxsize (length l.service.command_queue))) [
        | inl full ↦
            rw (offer, e, f, full) (record { size = h.size; bound = h.bound; order = h.order })
        | inr room ↦
            rw (offer, e, f, room)
              (record {
                size = h.size;
                bound =
                    ground
                      (arith, room, h.size, length-append l.service.command_queue (command ∷ []));
                order =
                    ap (λ q. q ++ command ∷ []) h.order
                    ∙ append_assoc l.taken l.service.command_queue (command ∷ []);
              })
      ]
    ]
  ]

  take_head-IsQueue :
      (waiting : List Command) (l : Log)
      → l.service.command_queue ≡ waiting
      → IsQueue capacity l
      → IsQueue capacity (log_take l (take_head waiting l.service))
  take_head-IsQueue [] l e h = record { size = h.size; bound = h.bound; order = h.order }
  take_head-IsQueue (command ∷ rest) l e h = record {
    size = h.size;
    bound = ground (arith, h.bound, e);
    order = h.order ∙ ap (λ q. l.taken ++ q) e ∙ sym (append_assoc l.taken (command ∷ []) rest);
  }

  take-IsQueue :
      (l : Log) → IsQueue capacity l → IsQueue capacity (log_take l (take_next_command l.service))
  unfolding take_next_command
  take-IsQueue l h =
      elim (Bool-cases
        (is_some l.service.closed_reason || is_some l.service.dispatch_blocked_reason)) [
          | inl e ↦
              rw (take_next_command, e) (record { size = h.size; bound = h.bound; order = h.order })
          | inr e ↦ rw (take_next_command, e) (take_head-IsQueue l.service.command_queue l refl h)
        ]

  perform-IsQueue : (call : Call) (l : Log) → IsQueue capacity l → IsQueue capacity (perform call l)
  unfolding perform enqueue_policy_command set_record_root close block_command_dispatch
  perform-IsQueue (Call.policy command inputs request_id policy_id) l h = offer-IsQueue _ l h
  perform-IsQueue (Call.root r) l h = offer-IsQueue (Command.set_root r) l h
  perform-IsQueue Call.take l h = take-IsQueue l h
  perform-IsQueue (Call.close_for reason) l h =
      elim (Bool-cases (is_some l.service.closed_reason)) [
        | inl e ↦ rw (close, e) (record { size = h.size; bound = h.bound; order = h.order })
        | inr e ↦ rw (close, e) (record { size = h.size; bound = h.bound; order = h.order })
      ]
  perform-IsQueue (Call.block_for reason) l h =
      elim (Bool-cases
        (is_some l.service.closed_reason || is_some l.service.dispatch_blocked_reason)) [
          | inl e ↦
              rw (block_command_dispatch, e)
                (record { size = h.size; bound = h.bound; order = h.order })
          | inr e ↦
              rw (block_command_dispatch, e)
                (record { size = h.size; bound = h.bound; order = h.order })
        ]

  perform_all-IsQueue :
      (calls : List Call) (l : Log) → IsQueue capacity l → IsQueue capacity (perform_all calls l)
  unfolding perform_all
  perform_all-IsQueue [] l h = h
  perform_all-IsQueue (call ∷ calls) l h =
      perform_all-IsQueue calls (perform call l) (perform-IsQueue call l h)

abbrev pub new_log : CommandService → Log
new_log s = record { service = s; accepted = []; taken = [] }

-- From a new mailbox, whatever calls are made, the commands that were accepted are those that were
-- given out, followed by those that wait, in the order of their acceptance; and at most the capacity
-- wait.
pub init-perform_all-IsQueue :
    (default_policy_id : String) (capacity : ℕ) (calls : List Call) {s : CommandService}
    → init default_policy_id capacity ≡ ok s
    → IsQueue capacity (perform_all calls (new_log s))
unfolding init
init-perform_all-IsQueue default_policy_id capacity calls {s} h =
    elim (Bool-cases (ltb capacity 1)) [
      | inl e ↦ absurd (ground (arith, e, h))
      | inr e ↦
          let same : new_service default_policy_id capacity ≡ s = ground (arith, e, h) in
          perform_all-IsQueue calls (new_log s)
            (rw (← same) (record { size = refl; bound = omega arith; order = refl }))
    ]

module _ (l : Log) (closed : is_some l.service.closed_reason ≡ true) where
  perform-closed : (call : Call) → perform call l ≡ l
  unfolding perform enqueue_policy_command set_record_root offer take_next_command close
      block_command_dispatch
  perform-closed (Call.policy command inputs request_id policy_id) = rw (perform, closed) refl
  perform-closed (Call.root r) = rw (perform, closed) refl
  perform-closed Call.take = rw (perform, closed) refl
  perform-closed (Call.close_for reason) = rw (perform, closed) refl
  perform-closed (Call.block_for reason) = rw (perform, closed) refl

perform_all-closed :
    (calls : List Call) (l : Log) → is_some l.service.closed_reason ≡ true → perform_all calls l ≡ l
unfolding perform_all
perform_all-closed [] l closed = refl
perform_all-closed (call ∷ calls) l closed =
    rw (perform-closed l closed call) (perform_all-closed calls l closed)

close-closed_reason :
    (reason : String) (s : CommandService) → is_some (close reason s).1.closed_reason ≡ true
unfolding close
close-closed_reason reason s = ground arith

-- Once `close` has been called, no further call changes the mailbox, and none accepts a command or
-- gives one out.
pub perform_all-close :
    (calls : List Call) (reason : String) (l : Log)
    → perform_all calls (perform (Call.close_for reason) l) ≡ perform (Call.close_for reason) l
unfolding perform
perform_all-close calls reason l = perform_all-closed calls _ (close-closed_reason reason l.service)
