-- ===== src/StateMachine.antt =====
-- The state machine primitive (backend/contrib/state_machine): definitions that modules declare, and
-- instances that move along their transitions. Texts that are only compared are numbers, and 0 is
-- the empty text.
pub mod Registry
pub mod Runtime
pub mod Valid
mod Accepts
pub mod Requests
pub mod History
mod Registration
mod Moves
mod Reached
pub mod Permits
mod Routes
mod Tests
