-- ===== src/Engine.antt =====
-- exchange/src/matching_engine.rs: requests are routed to the book of their ticker and answered.
-- A reply is the response for the client with the market updates to broadcast.
pub mod Invariant
pub mod Seen
pub mod Requests
pub mod Cancels
pub mod Histories
pub mod RoundTrip
mod Tests
use rust_low_latency_trading.Prelude.{
  ℕ, ◌+◌, Option, none, some, List, [], ◌∷◌, if◌then◌else◌, wrap64,
}
use rust_low_latency_trading.Prelude.Int.{ℤ, pos, negsuc}
use rust_low_latency_trading.Prelude.Run.{Run, done, fault, ◌>>=◌}
use rust_low_latency_trading.Prelude.Map.{Map, lookup, insert, size, ◌==◌, ℕ_eq, ℤ_eq}
use rust_low_latency_trading.Types.{
  OrderId, TickerId, ClientId, Price, Qty, Side, buy, sell, as_sign,
}
use rust_low_latency_trading.Pool.{PoolPtr}
use rust_low_latency_trading.Book
use rust_low_latency_trading.Book.{Order, OrderBook, add_order, cancel_order}
use rust_low_latency_trading.Protocol.Request
use rust_low_latency_trading.Protocol.Request.{ClientRequest, ClientRequestType}
use rust_low_latency_trading.Protocol.Response
use rust_low_latency_trading.Protocol.Response.{
  ClientResponse, accepted, canceled, cancel_rejected, invalid_request,
}
use rust_low_latency_trading.Protocol.Update
use rust_low_latency_trading.Protocol.Update.{MarketUpdate, MarketUpdateType}

pub record MatchingEngine : Type 0 where
  pub order_books : Map TickerId OrderBook
  pub next_order_id : OrderId

abbrev pub Reply : Type 0
Reply = ClientResponse × List MarketUpdate

-- `MatchingEngine::new`
abbrev pub new : MatchingEngine
new = record { order_books = []; next_order_id = 1 }

-- The `match` on the raw side byte.
unfoldable pub parse_side : ℤ → Option Side
parse_side side_raw =
    if side_raw == pos 1 then some buy else if side_raw == negsuc 0 then some sell else none

abbrev pub create_reject_response : ClientId → TickerId → OrderId → ℤ → Price → Qty → Reply
create_reject_response client_id ticker_id client_order_id side price qty =
    (Response.create invalid_request client_id ticker_id client_order_id 0 side price 0 qty, [])

abbrev pub create_cancel_reject_response : ClientId → TickerId → OrderId → ℤ → Price → Reply
create_cancel_reject_response client_id ticker_id order_id side price =
    (Response.create cancel_rejected client_id ticker_id order_id 0 side price 0 0, [])

abbrev pub handle_invalid_request : ClientRequest → Reply
handle_invalid_request r = (
  Response.create invalid_request r.client_id r.ticker_id r.order_id 0 r.side r.price 0 r.qty,
  [],
)

-- The refusal of a new order, and of a cancel, with the fields of the request.
abbrev pub reject_new : ClientRequest → Reply
reject_new r = create_reject_response r.client_id r.ticker_id r.order_id r.side r.price r.qty

abbrev pub reject_cancel : ClientRequest → Reply
reject_cancel r = create_cancel_reject_response r.client_id r.ticker_id r.order_id r.side r.price

-- The answer to an accepted order and to a cancelled one.
abbrev pub accept_reply : ClientRequest → OrderId → Reply
accept_reply r market_order_id = (
  Response.create accepted r.client_id r.ticker_id r.order_id market_order_id r.side r.price 0
      r.qty,
  Update.create MarketUpdateType.add r.ticker_id market_order_id r.side r.price r.qty
        market_order_id
      ∷ [],
)

abbrev pub cancel_reply : ClientRequest → Order → Reply
cancel_reply r o = (
  Response.create canceled r.client_id r.ticker_id r.order_id r.order_id (as_sign o.side) o.price 0
      o.qty,
  Update.create MarketUpdateType.cancel r.ticker_id r.order_id (as_sign o.side) o.price o.qty
        o.priority
      ∷ [],
)

-- The engine with the book of a ticker put back.
abbrev pub put_book : MatchingEngine → TickerId → OrderBook → MatchingEngine
put_book e ticker_id book = record e { order_books = insert ticker_id book e.order_books }

-- The answer that the result of `add_order` and of `cancel_order` calls for.
abbrev pub answer_new : ClientRequest → OrderId → Option PoolPtr → Reply
answer_new r market_order_id none = reject_new r
answer_new r market_order_id (some ptr) = accept_reply r market_order_id

abbrev pub answer_cancel : ClientRequest → Option Order → Reply
answer_cancel r none = reject_cancel r
answer_cancel r (some o) = cancel_reply r o

module _ (n : ℕ) where
  unfoldable pub add_ticker : MatchingEngine → TickerId → Run MatchingEngine
  add_ticker e ticker_id = elim (lookup ticker_id e.order_books) [
    | some _ ↦ done e
    | none ↦ Book.new n ticker_id >>= λ book. done (put_book e ticker_id book)
  ]

  unfoldable pub handle_new_order : MatchingEngine → ClientRequest → Run (Reply × MatchingEngine)
  unfolding parse_side
  handle_new_order e r = elim (lookup r.ticker_id e.order_books) [
    | none ↦ done (reject_new r, e)
    | some book ↦ elim (parse_side r.side) [
      | none ↦ done (reject_new r, e)
      | some side ↦ add_order n book r.client_id e.next_order_id side r.price r.qty >>= λ result.
          done (
            answer_new r e.next_order_id result.0,
            put_book (record e { next_order_id = wrap64 (e.next_order_id + 1) }) r.ticker_id
                result.1,
          )
    ]
  ]

  unfoldable pub handle_cancel : MatchingEngine → ClientRequest → Run (Reply × MatchingEngine)
  handle_cancel e r = elim (lookup r.ticker_id e.order_books) [
    | none ↦ done (reject_cancel r, e)
    | some book ↦ cancel_order n book r.order_id >>= λ result.
        done (answer_cancel r result.0, put_book e r.ticker_id result.1)
  ]

  unfoldable pub process_request : MatchingEngine → ClientRequest → Run (Reply × MatchingEngine)
  unfolding handle_new_order handle_cancel Request.from_u8
  process_request e r = elim (Request.from_u8 r.msg_type) [
    | some ClientRequestType.new ↦ handle_new_order e r
    | some ClientRequestType.cancel ↦ handle_cancel e r
    | none ↦ done (handle_invalid_request r, e)
  ]

abbrev pub get_order_book : MatchingEngine → TickerId → Option OrderBook
get_order_book e ticker_id = lookup ticker_id e.order_books

unfoldable pub ticker_count : MatchingEngine → ℕ
unfolding size
ticker_count e = size e.order_books
