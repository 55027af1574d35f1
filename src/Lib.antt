-- ===== src/Lib.antt =====
-- The verification library of rust-low-latency-trading: an exchange (books, matching engine,
-- protocol), the structures that both sides share (queue, memory pool) and a trading client
-- (best prices, positions, risk checks, trade engine, strategies), with the servers between them, modelled from the Rust sources with the
-- theorems that make them correct.
--
-- How the parts interact: the exchange takes a ClientRequest to MatchingEngine::process_request, which
-- finds the book of the ticker and adds or cancels an order there; a book keeps its orders in the slots of
-- a MemPool and answers with a ClientResponse and MarketUpdates. Messages go between threads through
-- an LFQueue. The TradeEngine of the client asks the RiskManager before it sends an order,
-- tracks it until its last response, and books fills in a PositionKeeper. Over the network an
-- OrderGateway sends requests to the OrderServer, which numbers them, and a MarketDataPublisher sends
-- updates to MarketDataReceivers, whose best prices feed the FeatureEngine and the two strategies.
--
-- Files, with the code that each models:
--   Types          common/src/types.rs: identifiers, Price, Qty, Side
--   Protocol       exchange/src/protocol.rs: the messages (Request, Response, Update) and their kinds
--   Pool           common/src/mem_pool.rs: MemPool::new, allocate, deallocate, deallocate_by_index;
--                  Pool/Owners has the users of a pool as a step relation
--   Queue          common/src/lf_queue.rs: LFQueue::new, push, pop, drop; Queue/Spec is the list that it
--                  implements; Queue/Threads has push and pop access by access in two threads
--   Book           exchange/src/order_book.rs: OrderBook::add_order, cancel_order, best_bid, best_ask;
--                  Book/Invariant and Book/Live have the invariant and the live orders seen from outside
--   Engine         exchange/src/matching_engine.rs: MatchingEngine::add_ticker, process_request and its
--                  handlers; Engine/Histories has whole sessions
--   Position       trading/src/position.rs: Position::on_fill and the other updates; Position/Keeper is
--                  the PositionKeeper
--   Risk           trading/src/risk.rs: RiskManager with check_order and the other checks
--   Bbo            trading/src/market_data.rs: BBO and MarketDataReceiver::process_update; Bbo/Poll its reads
--   Trade          trading/src/trade_engine.rs: market updates and responses; Trade/Orders has
--                  submit_order and the cancels, Trade/Actions the actions of strategies, Trade/Cycle
--                  run_cycle
--   Net            common/src/net/tcp.rs: the read that does not block; Net/Wire is the interface of the
--                  byte views of messages, Net/Packed and Net/Messages their packed layout
--   Server         exchange/src/order_server.rs: OrderServer::poll and the rest; Server/Connection has
--                  ClientConnection::receive
--   Gateway        trading/src/order_gateway.rs: OrderGateway::send_new_order, send_cancel, poll
--   Publisher      exchange/src/market_data.rs: MarketDataPublisher; Publisher/Ticker has the state of one
--                  ticker and the messages of its snapshot
--   Exchange       exchange/src/main.rs: the setup, the loop and the shutdown of the exchange's program
--   Client         trading/src/main.rs: the turns of the client's program; Client/Decisions has the orders
--                  that it sends, Client/Fills the responses
--   Float          the interface of f64, with an instance in thousandths
--   Features       trading/src/features.rs: FeatureEngine::on_bbo_update and the signal
--   Maker          trading/src/strategies/market_maker.rs: MarketMaker::on_features and its quotes
--   Taker          trading/src/strategies/liquidity_taker.rs: LiquidityTaker::on_features and its cooldown
--   Time           common/src/time.rs: Nanos and LatencyStats
--   Prelude        numbers, the integers and i64, maps, and code that may stop (Run)
--
-- How code is represented:
--   * The build is a release build: u32, u64, usize and i64 wrap around, debug_assert is absent. The
--     wraps are written out (wrap32, wrap64, Prelude/I64); saturating subtraction is that of ℕ.
--   * `Run.fault` is a panic (an assertion, an index out of range, a division by zero) or the read of
--     memory that was never written. Theorems say that the code returns, not only what it returns if it does.
--   * A HashMap is an association list under a test of keys; its iteration order is that of the list, and
--     no theorem promises more of it. A method that changes `self` returns the changed state.
--   * The capacity of a pool or a queue is a parameter n; the source's are 65536 slots for a book, and
--     powers of two for queues. Pool theorems ask for 0 < n < 2^64, queue theorems that `new` returned.
--   * A pool pointer is the index of its slot; new and new_boxed are one definition. The two loops of
--     add_order over the order map have no effect and are left out.
--   * The loop of LFQueue's drop runs on fuel; one turn more than the capacity is shown to be enough.
--     The mask with N - 1 is the remainder by N, which is a power of two.
--   * A callback of the caller is a function with its own state, and the clock is an argument. The calls of
--     cancel callbacks and of subscribers are returned as values. A stream is the list of what waits.
--   * The accesses of the two threads of a queue are interleaved in any order, one at a time, which is
--     what Acquire and Release give between these accesses.
--
--   * Sockets are arguments: a read gives bytes, nothing, or an error; a send answers. The byte views of
--     messages come from the crate zerocopy and are a value of the interface Net/Wire: its laws say that
--     a view has the size of the type, that each slice of that size is a value, and that a view reads
--     back. The packed layout of the messages is shown to be such a value.
--   * The arithmetic of f64 is a value of the interface Float. Its laws are the ranges of the casts, that
--     no number is below itself, and the order of -1, 0 and 1; one theorem asks besides that a cooldown
--     factor makes no interval shorter.
--   * The loop of ClientConnection::receive takes a byte at least in each turn; the length of the buffer
--     is its fuel, and is shown to be enough.
--
-- Not modelled: clocks, the time stamp counter, logging, the calls of sockets, the arguments of the two
-- programs and what they print; and plain getters.
pub mod Prelude
pub mod Types
pub mod Protocol
pub mod Pool
pub mod Book
pub mod Queue
pub mod Position
pub mod Risk
pub mod Bbo
pub mod Trade
pub mod Engine
pub mod Net
pub mod Server
pub mod Gateway
pub mod Publisher
pub mod Float
pub mod Features
pub mod Maker
pub mod Taker
pub mod Time
pub mod Exchange
pub mod Client
