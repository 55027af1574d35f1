-- ===== src/Gateway/Tests.antt =====
-- trading/src/order_gateway.rs: runs of the gateway, and instances of its theorems.
use rust_low_latency_trading.Prelude.{
  ℕ, ◌+◌, ◌≡◌, refl, arith, Option, none, some, List, [], ◌∷◌, ◌++◌,
}
use rust_low_latency_trading.Prelude.Lists.{length, take, drop}
use rust_low_latency_trading.Prelude.Int.{pos}
use rust_low_latency_trading.Prelude.Map.{lookup, insert, remove, ℕ_eq}
use rust_low_latency_trading.Types.{buy}
use rust_low_latency_trading.Protocol.Response
use rust_low_latency_trading.Protocol.Response.{ClientResponse}
use rust_low_latency_trading.Net.{Io, ok, err, Bytes, other}
use rust_low_latency_trading.Net.Wire.{stream}
use rust_low_latency_trading.Net.Packed.{pack, unpack}
use rust_low_latency_trading.Net.Messages.{response_wire}
use rust_low_latency_trading.Gateway.{OrderGateway, send_new_order, poll}
use rust_low_latency_trading.Gateway.Streams.{polls, idle, polls_catch_up}
use rust_low_latency_trading.Gateway.Pending.{Order, Call, sends, run, fate, PlacedFrom, run_tracks}

abbrev accepted : ClientResponse
accepted = Response.create Response.accepted 1 7 1 55 (pos 1) (pos 10000) 0 50

abbrev filled : ClientResponse
filled = Response.create Response.filled 1 7 1 55 (pos 1) (pos 10000) 50 0

abbrev gateway : OrderGateway
gateway = record { client_id = 1; next_order_id = 1; pending_orders = []; recv_buffer = [] }

abbrev answer : Bytes
answer = stream response_wire (accepted ∷ filled ∷ []) ++ (3 ∷ [])

-- The answers come in two reads, with an error between them.
abbrev reads : List (Io (Option Bytes))
reads = ok (some (take 50 answer)) ∷ err other ∷ ok (some (drop 50 answer)) ∷ []

polls_catch_up_example :
    let g = (polls response_wire gateway reads).1 in
    (n : ℕ) × (accepted ∷ filled ∷ []
      ≡ (polls response_wire gateway reads).0 ++ (polls response_wire g (idle response_wire n)).0)
    × (n ≡ length (polls response_wire g (idle response_wire n)).0)
    × ((polls response_wire g (idle response_wire n)).1.recv_buffer ≡ 3 ∷ [])
unfolding response_wire pack
polls_catch_up_example =
    polls_catch_up response_wire gateway reads (accepted ∷ filled ∷ []) (3 ∷ []) (omega arith)
      (omega arith) refl

abbrev order : Order
order = record { ticker_id = 7; side = buy; price = pos 10000; qty = 50 }

abbrev calls : List Call
calls =
    sends 100 order
    ∷ Call.polls (ok (some (take 50 answer)))
    ∷ sends 200 order
    ∷ Call.polls (ok (some (drop 50 answer)))
    ∷ []

-- The first order is filled, and the second one is pending.
second_pending :
    (lookup 1 (run response_wire gateway calls).1.pending_orders ≡ none)
    × (lookup 2 (run response_wire gateway calls).1.pending_orders
        ≡ some record {
          order_id = 2;
          ticker_id = 7;
          side = buy;
          price = pos 10000;
          qty = 50;
          sent_time = 200;
        })
unfolding run poll send_new_order insert lookup remove response_wire pack unpack
    Response.response_type
second_pending = (refl, refl)

run_tracks_example :
    (lookup 2 (run response_wire gateway calls).1.pending_orders
      ≡ fate 2 (lookup 2 gateway.pending_orders) (run response_wire gateway calls).0)
    × PlacedFrom 1 1 (run response_wire gateway calls).0
    × ((run response_wire gateway calls).1.next_order_id ≡ 1 + 2)
run_tracks_example = run_tracks response_wire gateway calls 2 (omega arith)
