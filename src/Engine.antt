-- ===== src/Engine.antt =====
-- internal/operations/engine.go: the operation engine. Base has its configuration, inputs and
-- helpers; Dispatch, Poll and Verify are the three handlers and Drive composes them. The other
-- children are about what these guarantee.
pub mod Base
pub mod Dispatch
pub mod Poll
pub mod Verify
pub mod Drive
pub mod Trail
pub mod Handlers
pub mod Progress
pub mod Polling
pub mod Observing
pub mod Safety
pub mod Recovery
pub mod Moves
pub mod Pacing
