-- ===== src/Lib.antt =====
-- Verification of the automated trading program for the Korean stock market (src/): from a strategy's
-- signal through the checks of an order and of the risks to the broker, with the limits on the
-- requests that the program may make.
--
-- The parts and how they interact. The strategy engine evaluates its strategies on each price, and
-- their order books and charts, and hands an order to the order executor, which checks its price
-- and looks for duplicates, reads the account through the broker's client with retries, asks the
-- risk manager whether to stop, checks cash or holdings, and submits the order; the broker's
-- notices of executions and balances later change the pending orders and the positions. The client
-- is the real broker behind the API's rate limiter, or the simulated broker. The proxy of the
-- WebSocket has a limiter of its own, of token buckets. The market's hours say when orders may go.
--
-- The files:
--   Market, Market/...        src/utils/time_utils.py: one function for each of the source's, over a
--                             day number and the microseconds of the day.
--   ApiLimiter, ...           src/api/rate_limiter.py: `wait_for_slot` is _wait_for_slot with the
--                             readings of the clock before and after its sleep, `process` is a round
--                             of _process_requests.
--   TokenBucket, ...          src/websocket_proxy/rate_limiter.py: the bucket, and in Limiter the
--                             class RateLimiter (`acquire_key` is its acquire).
--   Trading/Models            src/models/order.py, position.py, account.py, __init__.py.
--   Trading/Division          the rounding of Python's decimals, as a record of its laws.
--   Trading/Checks            src/services/order_validator.py, duplicate_checker.py.
--   Trading/Risk              src/services/risk_manager.py.
--   Trading/AccountService    src/services/account_service.py.
--   Trading/Simulator         src/simulator/fake_exchange.py (Exchange), kiwoom_simulator.py.
--   Trading/Executor          src/services/order_executor.py: Positions (fills), Retry, Submission
--                             (execute_order, cancel_order), Events (the event loop); Clients has
--                             what the program's clients do with an order; Settled, Ended, Sole,
--                             Races, Notices and Renamed are on the pending orders.
--   Trading/Batches           src/services/order_batch_aggregator.py: OrderBatch and the grouping, and
--                             in Aggregator the class OrderBatchAggregator.
--   Trading/Monitor           src/services/risk_monitor.py: a round of the monitor, which sells
--                             through the executor what has reached a limit.
--   Bars                      src/services/minute_bar_collector.py: ticks and bars, in Collector the class
--                             MinuteBarCollector, in Series what the bars of a stock are to be, in
--                             Runs that they are, in Closing what is left at the end.
--   Engine                    src/services/strategy_engine.py: in Turns _evaluate_strategies (`turn` is
--                             the body of its loop), in Registry the loading and switching of
--                             strategies, in Books the order books.
--   Strategies                src/strategies, with src/models/order_book.py and chart_data.py: Charts,
--                             Imbalance, GoldenCross, Rsi, Vwap; Sizes has what a size costs.
--   Workers                   src/services/order_worker_pool.py, as a step relation.
--   Events                    src/events/event_bus.py.
--   StockInfo                 src/services/stock_info_cache.py.
--   Aggregation               src/services/data_aggregator.py: aggregate_bars and what it calls.
--   Tests                     runs of the theorems on concrete inputs.
--   Prelude                   Booleans, lists, dicts, integers.
--
-- Values. Prices and amounts are whole multiples of a small decimal unit; a ratio counts
-- millionths, and those that the strategies compute count 10^-28. A quotient is rounded by the
-- context of the source's decimals, of which the record Division states monotone rounding and
-- exactness on representable values, and which Division.floor satisfies. The sums and products from
-- which the average buy price and the volume-weighted average price are made are rounded as well
-- (`rounded`). All others are taken as exact, which they are in the source as long as the digits of
-- the operands, prices and counts, stay within the context's 28; where a difference with an average
-- buy price is multiplied (the realized and unrealized results), the source may round and the model
-- does not. Times are microseconds. Floats of the limiters are exact fractions. Codes, names and
-- identifiers, which are only compared, are numbers; a text for the user is the constructor that
-- stands for it. A dict is an association list in insertion order.
--
-- State and errors. An object's state is a record that a method takes and returns; an object that
-- the source changes in place is put back into the dict that holds it. So is the order of a
-- submission: the caller, the pending orders and the client have one object, the client's call says
-- what it left of it and of the executor's positions (`Handling`, `positions_left`), and the
-- pending entry, under the key that it has, is what was left. A client that answers with a partial
-- fill under another identifier, as none of the program's does, would give one object two keys,
-- which the model keeps as two orders. An exception is a value: a result of `Option`, `Reply`,
-- `Checked` or `Outcome`, with the state that it leaves. What the broker answers during a call is
-- an argument (`Client`), as are the readings of the clock. Loops are structural: over the readings
-- at which a wait tries, over the attempts that are left, over the events or actions of a run, so
-- that no fuel is needed; a run of the pool of workers ends within a number of steps that its state
-- gives.
--
-- Interleaving. A run of actions treats each call as whole, and so does an evaluation of the
-- strategies; Races has the steps of two calls between their awaits, and Workers those of a pool of
-- any size, with the task that the queue gives and the answer of the processor left open.
--
-- Not modelled: the order of the priority queue (the runs of ApiLimiter hold for any order), logging,
-- the dashboard, the writes to the time series, sockets, HTTP, Redis and databases, the import of
-- strategy classes, the data collection, the float indicators of the aggregator, and the
-- event store.
pub mod Aggregation
pub mod StockInfo
pub mod Events
pub mod Workers
pub mod Strategies
pub mod Engine
pub mod Prelude
pub mod Market
pub mod TokenBucket
pub mod ApiLimiter
pub mod Bars
pub mod Trading
pub mod Tests
