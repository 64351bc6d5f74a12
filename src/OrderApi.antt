-- ===== src/OrderApi.antt =====
-- The order API (orderapi/): the accepted orders, the cached responses and the HTTP handlers.
pub mod Sweep
pub mod Orders
pub mod Idempotency
pub mod Validate
pub mod Handlers
pub mod Session
pub mod Cleanup
pub mod SessionHandlers
mod Tests
