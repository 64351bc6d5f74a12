-- ===== src/Matching.antt =====
-- The matching service: its order book, engine, division of markets, registry and consumer.
pub mod OrderBook
pub mod Engine
pub mod Rebalance
pub mod Registry
pub mod Consumer
pub mod Tests
