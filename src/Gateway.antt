-- ===== src/Gateway.antt =====
-- trading/src/order_gateway.rs: the client's end of the connection to the exchange.
pub mod Streams
pub mod Pending
mod Tests
use rust_low_latency_trading.Prelude.{
  ℕ, ◌+◌, ◌<◌, ◌≡◌, Option, none, some, List, [], ◌∷◌, ◌++◌, if◌then◌else◌, leb, ◌==◌, wrap64,
}
use rust_low_latency_trading.Prelude.Lists.{length, take, drop}
use rust_low_latency_trading.Prelude.Int.{ℤ, pos}
use rust_low_latency_trading.Prelude.Map.{Map, size, lookup, insert, remove, ℕ_eq}
use rust_low_latency_trading.Types.{ClientId, OrderId, TickerId, Price, Qty, Side, as_sign}
use rust_low_latency_trading.Protocol.Request
use rust_low_latency_trading.Protocol.Request.{ClientRequest}
use rust_low_latency_trading.Protocol.Response.{ClientResponse, ClientResponseType, response_type}
use rust_low_latency_trading.Net.{Io, ok, err, Bytes}
use rust_low_latency_trading.Net.Wire.{Wire}

pub record PendingOrder : Type 0 where
  pub order_id : OrderId
  pub ticker_id : TickerId
  pub side : Side
  pub price : Price
  pub qty : Qty
  pub sent_time : ℕ

-- The socket stands outside: the operations return the message that they send.
pub record OrderGateway : Type 0 where
  pub client_id : ClientId
  pub next_order_id : OrderId
  pub pending_orders : Map OrderId PendingOrder
  pub recv_buffer : Bytes

-- `connect`, with what `TcpSocket::connect` and `set_nonblocking` answer.
abbrev pub connect : Io (Unit {0}) → Io (Unit {0}) → ClientId → Io OrderGateway
connect (err e) _ id = err e
connect (ok _) (err e) id = err e
connect (ok _) (ok _) id =
    ok record { client_id = id; next_order_id = 1; pending_orders = []; recv_buffer = [] }

-- The time of the clock is an argument. What the socket answers to the message is ignored.
unfoldable pub send_new_order :
    OrderGateway → ℕ → TickerId → Side → Price → Qty → OrderId × ClientRequest × OrderGateway
send_new_order g now ticker_id side price qty =
    let id = g.next_order_id in
    (
      id,
      Request.create Request.new g.client_id ticker_id id (as_sign side) price qty,
      record g {
        next_order_id = wrap64 (id + 1);
        pending_orders =
            insert id
              (record {
                order_id = id;
                ticker_id = ticker_id;
                side = side;
                price = price;
                qty = qty;
                sent_time = now;
              })
              g.pending_orders;
      },
    )

-- What a cancel tells of the order: zeros, if it is not pending.
abbrev pub details : Option PendingOrder → ℤ × Price × Qty
details (some p) = (as_sign p.side, p.price, p.qty)
details none = (pos 0, pos 0, 0)

unfoldable pub send_cancel : OrderGateway → OrderId → TickerId → ClientRequest
send_cancel g id ticker_id =
    let d = details (lookup id g.pending_orders) in
    Request.create Request.cancel g.client_id ticker_id id (d.0) (d.1) (d.2)

-- The responses after which an order is no longer pending.
abbrev pub settle :
    Option ClientResponseType → ClientResponse → Map OrderId PendingOrder → Map OrderId PendingOrder
settle none r pending = pending
settle (some ClientResponseType.canceled) r pending = remove r.client_order_id pending
settle (some ClientResponseType.cancel_rejected) r pending = remove r.client_order_id pending
settle (some ClientResponseType.invalid_request) r pending = remove r.client_order_id pending
settle (some ClientResponseType.filled) r pending =
    if r.leaves_qty == 0 then remove r.client_order_id pending else pending
settle (some ClientResponseType.accepted) r pending = pending

module _ {Fits : ClientResponse → Type 0} {width : ℕ} (w : Wire ClientResponse Fits width) where
  -- The message at the front of the buffer, if it is whole.
  pub take_response : OrderGateway → Option ClientResponse × OrderGateway
  take_response g =
      if leb width (length g.recv_buffer)
      then elim (w.from_bytes (take width g.recv_buffer)) [
        | none ↦ (none, g)
        | some r ↦ (
          some r,
          record g {
            recv_buffer = drop width g.recv_buffer;
            pending_orders = settle (response_type r) r g.pending_orders;
          },
        )
      ]
      else (none, g)

  -- `poll`, on what `try_recv` returned. At most one response is taken, and none after an error.
  unfoldable pub poll : OrderGateway → Io (Option Bytes) → Option ClientResponse × OrderGateway
  unfolding take_response
  poll g (ok (some bytes)) = take_response (record g { recv_buffer = g.recv_buffer ++ bytes })
  poll g (ok none) = take_response g
  poll g (err e) = (none, g)

abbrev pub get_pending : OrderGateway → OrderId → Option PendingOrder
get_pending g id = lookup id g.pending_orders

abbrev pub pending_count : OrderGateway → ℕ
pending_count g = size g.pending_orders
