-- ===== src/Exchange.antt =====
-- exchange/src/main.rs: the program of the exchange. Its arguments, the sockets and the shutdown signal
-- stand outside, and what it prints is left out.
pub mod Answers
mod Tests
use rust_low_latency_trading.Prelude.{ℕ, ◌+◌, ◌≡◌, Bool, Option, List, [], ◌∷◌, ◌++◌, wrap64}
use rust_low_latency_trading.Prelude.Run.{Run, done, ◌>>=◌}
use rust_low_latency_trading.Types.{TickerId, ClientId}
use rust_low_latency_trading.Protocol.Request.{ClientRequest}
use rust_low_latency_trading.Protocol.Response.{ClientResponse}
use rust_low_latency_trading.Protocol.Update.{MarketUpdate}
use rust_low_latency_trading.Net.{Io, Bytes}
use rust_low_latency_trading.Net.Wire.{Wire}
use rust_low_latency_trading.Engine
use rust_low_latency_trading.Engine.{MatchingEngine, process_request}
use rust_low_latency_trading.Engine.Histories.{add_tickers}
use rust_low_latency_trading.Server.{
  OrderServer, SequencedRequest, poll, send_response, disconnect_all,
}
use rust_low_latency_trading.Publisher.{MarketDataPublisher, register_ticker, publish}

-- The state of the program; `socket` is that of the publisher's socket.
pub record Exchange (S : Type 0) : Type 0 where
  pub order_server : OrderServer
  pub matching_engine : MatchingEngine
  pub market_data_publisher : MarketDataPublisher
  pub socket : S
  pub stats_interval : ℕ

-- A call of `send_response`, and what it answered.
pub record Answer : Type 0 where
  pub client_id : ClientId
  pub response : ClientResponse
  pub result : Io ℕ

abbrev pub register_each : MarketDataPublisher → List TickerId → MarketDataPublisher
register_each p [] = p
register_each p (t ∷ ts) = register_each (register_ticker p t) ts

-- What `main` does before its loop, with the server and the publisher that it made. `n` is the number
-- of slots of a book.
unfoldable pub set_up :
    ℕ → {S : Type 0} → OrderServer → MarketDataPublisher → S → List TickerId → Run (Exchange S)
set_up n server publisher socket tickers = do
  engine ← add_tickers n Engine.new tickers
  done record {
    order_server = server;
    matching_engine = engine;
    market_data_publisher = register_each publisher tickers;
    socket = socket;
    stats_interval = 0;
  }

module _ {S : Type 0} (send_update : S → MarketUpdate → Io ℕ × S) where
  -- The updates of one request. An error is printed, and the next one is published all the same.
  unfoldable pub publish_each :
      MarketDataPublisher → S → List MarketUpdate → MarketDataPublisher × S
  publish_each p s [] = (p, s)
  publish_each p s (update ∷ updates) =
      let r = publish send_update p s update in publish_each (r.1) (r.2) updates

  module _ (n : ℕ) {Fits : ClientRequest → Type 0} {width : ℕ} (w : Wire ClientRequest Fits width)
      (send : ClientId → Bytes → Io ℕ) (as_bytes : ClientResponse → Bytes) where
    -- The requests of one poll, one after the other.
    unfoldable pub answer_each : Exchange S → List SequencedRequest → Run (List Answer × Exchange S)
    answer_each x [] = done ([], x)
    answer_each x (q ∷ qs) = do
      s ← process_request n x.matching_engine q.request
      let result = send_response send as_bytes x.order_server q.client_id (s.0.0)
      let published = publish_each x.market_data_publisher x.socket (s.0.1)
      others ←
          answer_each
            (record x {
              matching_engine = s.1;
              market_data_publisher = published.0;
              socket = published.1;
            })
            qs
      done (
        record { client_id = q.client_id; response = s.0.0; result = result } ∷ others.0,
        others.1,
      )

    -- One turn of the loop, with the connections that wait and the reads that it meets.
    unfoldable pub turn :
        List Bool → (ClientId → Io (Option Bytes)) → Exchange S → Run (List Answer × Exchange S)
    turn waiting reads x = do
      let p = poll w waiting reads x.order_server
      t ← answer_each (record x { order_server = p.1 }) (p.0)
      done (t.0, record (t.1) { stats_interval = wrap64 (t.1.stats_interval + 1) })

    unfoldable pub turns :
        List (List Bool × (ClientId → Io (Option Bytes)))
        → Exchange S
        → Run (List Answer × Exchange S)
    turns [] x = done ([], x)
    turns ((waiting, reads) ∷ rounds) x = do
      t ← turn waiting reads x
      others ← turns rounds (t.1)
      done (t.0 ++ others.0, others.1)

-- What follows the loop.
abbrev pub shut_down : {S : Type 0} → Exchange S → Exchange S
shut_down x = record x { order_server = disconnect_all x.order_server }
