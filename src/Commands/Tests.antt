-- ===== src/Commands/Tests.antt =====
-- Concrete runs of the mailbox in src/forge_gateway/services/command_service.py.
use adapter_forge_gateway.Prelude.{◌≡◌, refl, none, some, List, [], ◌∷◌}
use adapter_forge_gateway.Commands.{CommandService, new_service, init}
use adapter_forge_gateway.Commands.Order.{
  Call, IsQueue, new_log, perform, perform_all, init-perform_all-IsQueue, perform_all-close,
}

abbrev small_mailbox : CommandService
small_mailbox = new_service "policy" 2

-- The third command finds the mailbox full.
abbrev script : List Call
script =
    Call.policy "start" none "r1" none
    ∷ Call.root (some "/data")
    ∷ Call.root none
    ∷ Call.take
    ∷ Call.block_for "node lost"
    ∷ Call.take
    ∷ []

init-perform_all-IsQueue_example : IsQueue 2 (perform_all script (new_log small_mailbox))
unfolding init
init-perform_all-IsQueue_example = init-perform_all-IsQueue "policy" 2 script refl

perform_all-close_example :
    perform_all script (perform (Call.close_for "stopped") (new_log small_mailbox))
    ≡ perform (Call.close_for "stopped") (new_log small_mailbox)
perform_all-close_example = perform_all-close script "stopped" (new_log small_mailbox)
