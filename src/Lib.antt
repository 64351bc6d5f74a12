-- ===== src/Lib.antt =====
-- The back end of a simulated exchange: orders are accepted over HTTP (orderapi), pass through Kafka
-- to the matching service (matching), and its executions are recorded in a database (recorder).
--
-- Matching.OrderBook models matching/orderbook/orderbook.go and Matching.OrderBook.Match its
-- match.go: one function for each function of the source, over a record of the maps and slices.
-- Matching.OrderBook.Spec is the abstract book: a list of orders in priority for each side, with
-- insert_order, remove_order and fill_orders. The files below OrderBook and Match relate the maps,
-- the sorted prices and the two loops to it.
-- Matching.Engine models matching/engine/engine.go. The publisher and the snapshot store are the
-- record Services of functions on a state of the services; a failed call answers false.
-- An event is handled by Engine.apply, which calls Match.apply or OrderBook.cancel as Apply does.
-- OrderApi.Orders, Idempotency and Validate model orderapi/order/order.go,
-- orderapi/idempotency/idempotency.go and orderapi/validate/validate.go, OrderApi.Sweep the loop that
-- the first two share. OrderApi.Handlers models the two handlers of orderapi/server.go, which call them.
-- Recorder.Tables has the rows and the inputs of the batches. Recorder.Store models the batches of
-- recorder/store/mysql.go as functions on the rows of the tables
-- trade_order and execution; each statement is read as standard SQL, with the
-- keys, the foreign key and the CHECKs that recorder/schema.sql gives trade_order. An execution is
-- left out only for its pair of orders: its market is taken to be in the table market and its id to be new.
-- Recorder.Assignments models its statements on matching_engine_assignment, and Recorder.Apply the
-- functions of recorder/store/apply.go, which hand the decoded events to it.
-- Matching.Rebalance models matching/rebalance/assign.go, which divides the markets among the engines,
-- and Matching.Rebalance.Groups its caller AssignGroups of rebalance/balancer.go.
-- Matching.Consumer models toOrderEvent and readLoop of matching/kafkaclient/consumer.go, which feed
-- the engine with the messages of a partition; the registry of markets between them is Matching.Registry.
-- Trader.TickSize models trader/order/ticksize.go, the rounding of a bot's price, over the
-- floating-point interface of OrderApi.Validate.
-- Trader.Retry models trader/order/retry.go, the repeated submission of an order; durations are natural
-- numbers of nanoseconds, since no attempt below maxRetries comes near the bounds of int64.
-- OrderApi.Session models orderapi/session/session.go, the lock that lets one run at a time use the
-- system. Redis holds the keys and the Lua scripts run on them as functions; OrderApi.Session.Calls puts
-- the operations one after the other. The random ids, the JSON, the delays of the commands and their
-- failures are the record Outside. The commands are read as the documentation of Redis says; a failed
-- command changes nothing, and the time to live is at least a second.
-- OrderApi.Cleanup models orderapi/sessioncleanup.go: at most 4 passes of the automatic cleanup with 3
-- attempts of a request each, as recursion on the passes and attempts that are left, and the manual
-- cleanup with its slot; OrderApi.Cleanup.Single has the steps of the cleanups that run at the same time.
-- OrderApi.Cleanup.Limits counts what the automatic cleanup calls.
-- Matching.Registry models marketRegistry of matching/main.go, which keeps a market with one instance by a
-- lock in Redis, and consumePartition, as phases of instances over a shared lock; each command, renewal,
-- event and handoff is an event in a list. Redis may fail before or after it runs a command. The loop of
-- acquireMarketLock is repeated attempts until its deadline, for which the clock is read after each answer;
-- Matching.Registry.Attempts has it on fuel, of which 102 attempts are enough for 10 seconds of waits of 100
-- milliseconds. Redis' clock and the instances' are taken as one.
-- OrderApi.SessionHandlers models orderapi/sessionhandlers.go over these operations; the JSON of a request is
-- given as it is read, and the run whose cleanup a release starts is a part of its answer.
-- Backpressure models the watchers of matching/backpressure and recorder/backpressure, which are the same
-- code, their flags, and the checkers of orderapi/backpressure.
-- Matching.Consumer.Group models Run of matching/kafkaclient/consumer.go over the answers of the consumer
-- group, and Matching.Consumer.Readers the readers that Lag adds up.
-- Prelude has the shared names, Dict the maps of Go, Decimal the interface of shopspring/decimal with
-- its documented laws, and Decimal.Whole an instance of it for the tests.
--
-- Bounds: fill_level runs on the number of orders of a level and match_loop on the number of prices:
-- each pass uses up an order, or a price, or the incoming order. Offsets are Go's int64, of which only
-- the step to the next one can wrap. Counters are natural numbers.
--
-- Not modelled: Kafka, HTTP and AWS, which are parameters or left out, and Redis but for the commands of the
-- sessions, the markets' locks and the flags of the backpressure; of MySQL its locks and deadlocks;
-- goroutines and locks but for the instances of Matching.Registry, the readers of Matching.Consumer and the
-- manual cleanups, since one goroutine calls the engine of a market; the encoding of snapshots, the recorder's
-- readers, archive and queries, the replay engine, the traders' bots and the market data backend, whose
-- code is for the most part calls of those services; the error texts and logs. A side is buy or
-- sell, where the source has a string type with these two values.
pub mod Backpressure
pub mod Decimal
pub mod Dict
pub mod Matching
pub mod OrderApi
pub mod Prelude
pub mod Recorder
pub mod Trader
