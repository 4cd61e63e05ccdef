-- ===== src/Lib.antt =====
-- A verification library for the Forge gateway: the service that carries the invocations of Tools
-- between callers and providers, the two stores in which it keeps what it knows of the providers and
-- of the work it has given them, and the records that a provider process keeps of the same work.
--
-- The parts and how they interact. A provider registers its endpoint over a configured route, and
-- `EndpointDirectory` holds the lease. A caller, over HTTP or over the Dora input, asks
-- `ToolGatewayService` for a Query or an Action. The service finds the Tool in `ToolSpecCatalog` and
-- the instance in the directory, keeps a pending entry for a Query or an exchange for an Action, and
-- puts a message for the provider in its bounded outbound mailbox, in which it reserves a slot for each
-- answer that it owes. `ActionInvocationStore` holds an Action under its execution key until its
-- retention has run out: responses, events, deadlines and the expiry of a lease change it. In the
-- provider's process `ToolEndpointHandler` binds the same key to one start of the provider's
-- coroutine.
--
-- Which file models what:
--   Prelude, Raise, Dict, Sorted: shared helpers. Lists, tests and integers; results with
--     Python's exceptions as values, the state-passing `Action` with its do blocks, and in
--     Raise/Ensures and Raise/Reading the rules for what a method leaves; a `dict` as a list of
--     entries in insertion order; `sorted` on a dict's keys, texts by their code points.
--   Endpoint/Json, Values, Equality, Checks, Responses: src/forge_tool/endpoint/models.py, its literal
--     types and records, the `==` of its dataclasses, and what `__post_init__` tests. Endpoint/Copies is
--     proofs.
--   Invocations/Item, Changes, Store, Observe: src/forge_gateway/domain/action_invocations.py. One
--     invocation, the change each method makes to it, and the methods of the store with their names.
--     Invocations/Calls puts the methods in a data type of calls. The other files under Invocations
--     are proofs, named for what they prove.
--   Directory/State, Register, Manage: src/forge_gateway/domain/tool_directory.py, its methods with
--     their names. Directory/Expiry, Cases, Leases, Soundness, Resolving, Leaving
--     and Listing are proofs.
--   Handler/State, Steps, Observe, Emitter: src/forge_tool/handler.py, the records and the sections of
--     code that run under the handler's lock. Between two of them the provider's coroutine runs, so any
--     sequence of sections is an interleaving. Handler/Records, Room, Permits, Sections, History,
--     Numbering, Fates, Retained, Unchanged and Survival are proofs.
--   Catalog: src/forge_gateway/domain/tool_catalog.py, the Tools and the checks of the configured list.
--     Catalog/Bindings is proofs.
--   Commands: src/forge_gateway/services/command_service.py and src/forge_gateway/domain/commands.py,
--     the mailbox of commands to the node, apart from the Tools. Commands/Order is proofs.
--   Wire/Text, Wire/Envelope: src/forge_tool/wire/envelope.py, the tests of `ToolEnvelope` on the fields
--     of a message. `Payload` in Gateway/Envelope is the payload of a message after its decoding, one
--     constructor for each message type, with what the service reads of it.
--   Gateway: src/forge_gateway/services/tool_gateway_service.py. Envelope and Text are its
--     functions on messages; State is its state and the mailbox, and Start is `__init__`. Queries
--     has the admission of Queries and HttpQueries their HTTP entry and their responses, Dora the
--     requests of Dora callers and the Actions they start; Actions, Controls and Exchanges the
--     Actions of HTTP callers; Callers the status, result and control requests of Dora callers;
--     Answers the responses of providers and Events their events and reports; Locals the local
--     variables of an admission; Inputs `handle_input`; Dispatch `take_outbound`; Finish how a
--     Query or an exchange ends, and Endings the methods that end them: `cancel_http_invoke`,
--     `output_failed`, `sweep` and `begin_close`. Snapshots has what the HTTP side reads. A Python
--     method `_x_locked` is `x` here. Calls puts the methods in a data type of calls, with the reads
--     of the Action store by the controllers' stream of events. The other files under Gateway are
--     proofs.
--   The modules whose names end in Tests hold concrete runs.
--
-- A method runs under the lock of its object, so it is one step on the state; a method that raises
-- gives the error beside the state it has written so far. `submit_http_action` gives up the service's
-- lock between its resolution, its admission and its last reading, so Calls has each of the three as a
-- call of its own, and any other calls may stand between them; `submit_http_action` itself is the
-- three with no other call between them. The two readings of the store in `action_invocation_snapshot`
-- and in `action_result_snapshot`, each under the store's lock, are one call. A mutated invocation is reached only through
-- the store, except the one that `create` is given, which the store then owns. The condition variable
-- and the timers only wake waiting threads and are left out. A future of an HTTP caller is a number,
-- and the service's `settled` maps it to its result.
--
-- Times are exact natural numbers: Python's are finite floats of one clock that are not negative, and
-- rounding is not modelled; a caller's deadline that is past counts as no time left. A method of the
-- service reads each clock once, but for `handle_action_event`, which reads the monotonic one up to
-- three times, and the three calls of `submit_http_action`, which share one reading. What it takes from outside, the clocks, fresh identifiers, and the text
-- of an exception or of a quoted string, is a parameter, `Ambient`. Revisions are natural numbers with
-- the source's bound of 2^53 - 1 written out. The only fuel is that of `make_room_loop` in Handler/State:
-- each turn of the loop removes a record, so one turn more than there are records is enough. All else
-- is structural recursion.
--
-- What is not modelled: the conversion of payloads to and from JSON and its checks, which a message has
-- passed when it comes here; the check of an envelope that the service makes itself from fields of a
-- checked one; what the handler's coroutines do between the locked sections; Python's `==` on the
-- JSON values in statuses and results, which is a parameter; a `Mapping` of the caller's own class, which
-- stands as its entries; the text of a binding error in the ToolSpec snapshot; the service's counts and
-- lookups that only read, such as `pending_count` and `get_tool_spec`; the controllers and the
-- transport, which are mostly input and output; configuration and process supervision.
pub mod Prelude
pub mod Raise
pub mod Dict
pub mod Sorted
pub mod Endpoint
pub mod Invocations
pub mod Directory
pub mod Handler
pub mod Catalog
pub mod Commands
pub mod Wire
pub mod Gateway
