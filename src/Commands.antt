-- ===== src/Commands.antt =====
-- src/forge_gateway/services/command_service.py and src/forge_gateway/domain/commands.py: the bounded
-- mailbox of commands to the node. `queue.Queue` is a list, whose `put_nowait` refuses at `maxsize`.
pub mod Order
pub mod Tests
use adapter_forge_gateway.Prelude.{
  ℕ, String, Bool, true, false, not, ◌&&◌, ◌||◌, Option, none, some, List, [], ◌∷◌, ◌++◌, ◌==◌,
  length, ltb, leb, is_some, string_eq, if◌then◌else◌,
}
use adapter_forge_gateway.Raise.{Result, ok, err, value_error, mailbox_unavailable, Action}
use adapter_forge_gateway.Endpoint.Json.{Fields, end}

-- `Command`, its payload by its kind.
pub data Command : Type 0 where
  policy_command : (command : String) (inputs : Fields) (request_id policy_id : String) → Command
  set_root : Option String → Command

pub record CommandService : Type 0 where
  pub default_policy_id : String
  pub maxsize : ℕ
  pub command_queue : List Command
  pub dispatch_blocked_reason : Option String
  pub closed_reason : Option String

-- `__init__`
abbrev pub new_service : String → ℕ → CommandService
new_service default_policy_id capacity = record {
  default_policy_id = default_policy_id;
  maxsize = capacity;
  command_queue = [];
  dispatch_blocked_reason = none;
  closed_reason = none;
}

unfoldable pub init : String → ℕ → Result CommandService
init default_policy_id capacity =
    if ltb capacity 1 then err value_error else ok (new_service default_policy_id capacity)

-- `command_dispatch_allowed`
unfoldable pub command_dispatch_allowed : CommandService → Bool
command_dispatch_allowed s =
    not (is_some s.closed_reason) && not (is_some s.dispatch_blocked_reason)

-- `_offer`
unfoldable pub offer : Command → Action CommandService (Unit {0})
offer command s =
    if is_some s.closed_reason
    then (err mailbox_unavailable, s)
    else if is_some s.dispatch_blocked_reason
    then (err mailbox_unavailable, s)
    else if leb s.maxsize (length s.command_queue)
    then (err mailbox_unavailable, s)
    else (ok tt, record s { command_queue = s.command_queue ++ command ∷ [] })

-- `inputs or {}` and `policy_id or self.default_policy_id`
abbrev pub or_no_inputs : Option Fields → Fields
or_no_inputs none = end
or_no_inputs (some inputs) = inputs

abbrev pub or_default : Option String → String → String
or_default none default = default
or_default (some policy_id) default = if policy_id == "" then default else policy_id

unfoldable pub enqueue_policy_command :
    String → Option Fields → String → Option String → Action CommandService (Unit {0})
enqueue_policy_command command inputs request_id policy_id s =
    offer
      (Command.policy_command command (or_no_inputs inputs) request_id
        (or_default policy_id s.default_policy_id))
      s

unfoldable pub set_record_root : Option String → Action CommandService (Unit {0})
set_record_root root = offer (Command.set_root root)

-- `get_nowait`, and nothing where it raises `queue.Empty`.
abbrev pub take_head : List Command → Action CommandService (Option Command)
take_head [] s = (ok none, s)
take_head (command ∷ rest) s = (ok (some command), record s { command_queue = rest })

unfoldable pub take_next_command : Action CommandService (Option Command)
take_next_command s =
    if is_some s.closed_reason || is_some s.dispatch_blocked_reason
    then (ok none, s)
    else take_head s.command_queue s

unfoldable pub close : String → Action CommandService Bool
close reason s =
    if is_some s.closed_reason
    then (ok false, s)
    else (ok true, record s { closed_reason = some reason })

unfoldable pub block_command_dispatch : String → Action CommandService Bool
block_command_dispatch reason s =
    if is_some s.closed_reason || is_some s.dispatch_blocked_reason
    then (ok false, s)
    else (ok true, record s { dispatch_blocked_reason = some reason })
