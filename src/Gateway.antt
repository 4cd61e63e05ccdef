-- ===== src/Gateway.antt =====
-- src/forge_gateway/services/tool_gateway_service.py
pub mod Text
pub mod Envelope
pub mod State
pub mod Start
pub mod Finish
pub mod Slots
pub mod Finishing
pub mod Removing
pub mod Dispatch
pub mod Dispatching
pub mod Taking
pub mod Endings
pub mod Ending
pub mod Exchanges
pub mod Exchanging
pub mod Actions
pub mod Controls
pub mod Acting
pub mod Snapshots
pub mod Showing
pub mod Locals
pub mod Queries
pub mod HttpQueries
pub mod Querying
pub mod Admitting
pub mod Answers
pub mod Events
pub mod Dora
pub mod Callers
pub mod Inputs
pub mod Answering
pub mod Reporting
pub mod Bodies
pub mod Calling
pub mod Requesting
pub mod Inputting
pub mod Calls
pub mod Answered
pub mod Correlation
pub mod Responses
pub mod Closing
pub mod Closed
pub mod Drained
pub mod Counted
pub mod Sweeping
pub mod Shutdown
pub mod Withdrawn
pub mod Tests
pub mod QueryTests
pub mod SweepTests
