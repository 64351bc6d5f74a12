-- ===== src/Trader.antt =====
-- The traders (trader/): the tick a price is rounded to, and the submission of an order.
pub mod TickSize
pub mod Retry
mod Tests
