-- ===== src/Client/Tests.antt =====
-- trading/src/main.rs: runs of the client, and instances of its theorems.
use rust_low_latency_trading.Prelude.{ℕ, ◌+◌, ◌≡◌, ◌⊎◌, refl, arith, some, List, [], ◌∷◌, wrap32}
use rust_low_latency_trading.Prelude.Lists.{length, All}
use rust_low_latency_trading.Prelude.Int.{pos, ◌+ℤ◌, ◌-ℤ◌, ◌*ℤ◌}
use rust_low_latency_trading.Prelude.I64.{wrap}
use rust_low_latency_trading.Prelude.Run.{done, ◌>>=◌}
use rust_low_latency_trading.Prelude.Map.{lookup, insert, ℕ_eq, ℤ_eq}
use rust_low_latency_trading.Types.{buy}
use rust_low_latency_trading.Protocol.Request.{ClientRequest}
use rust_low_latency_trading.Protocol.Response
use rust_low_latency_trading.Protocol.Response.{ClientResponse, ClientResponseType}
use rust_low_latency_trading.Position
use rust_low_latency_trading.Position.{Position}
use rust_low_latency_trading.Position.Fills.{magnitude, exact}
use rust_low_latency_trading.Position.Keeper.{get_position}
use rust_low_latency_trading.Risk.{check_order, check_position}
use rust_low_latency_trading.Risk.Limits.{open_qty}
use rust_low_latency_trading.Risk.Allowed.{PositionInLimit, LossInLimit}
use rust_low_latency_trading.Float.Thousandths.{thousandths}
use rust_low_latency_trading.Features.{TickerFeatures}
use rust_low_latency_trading.Maker.{
  clamp_u32, calculate_quotes, calculate_quantities, should_update_quotes, requote, on_features,
}
use rust_low_latency_trading.Gateway.{OrderGateway, send_new_order}
use rust_low_latency_trading.Client.{
  Args, as_market_maker, set_up, Client, on_kind, choose, send_checked, perform, act, decide,
}
use rust_low_latency_trading.Client.Decisions.{IsPermitted, decide_lem}
use rust_low_latency_trading.Client.Fills.{fill_stays_pending}

abbrev balanced : TickerFeatures thousandths
unfolding thousandths
balanced = record {
  ticker_id = 1;
  fair_value = pos 10000;
  spread = pos 100;
  mid_price = pos 10000;
  imbalance = pos 0;
  trade_signal = pos 0;
}

-- A market maker whose limits are 100 of an order and 1000 of the position, once it has features.
abbrev args : Args thousandths
unfolding thousandths
args = record {
  strategy = as_market_maker;
  ticker_id = 1;
  max_order_qty = 100;
  max_position = pos 1000;
  max_loss = pos 100000;
  half_spread = pos 50;
  signal_threshold = pos 300;
}

abbrev gateway : OrderGateway
gateway = record { client_id = 1; next_order_id = 1; pending_orders = []; recv_buffer = [] }

abbrev client : Client thousandths
unfolding thousandths set_up
client = record (set_up thousandths args (record { bbo = [] }) gateway) {
  feature_engine = record { features = (1, balanced) ∷ []; fair_value_alpha = pos 100 };
}

abbrev totals : List ClientRequest × Client thousandths → List ℕ
totals r = length (r.0) ∷ r.1.orders_sent ∷ r.1.order_gateway.next_order_id ∷ []

two_quotes : (decide thousandths client 5 6 7 >>= λ r. done (totals r)) ≡ done (2 ∷ 2 ∷ 3 ∷ [])
unfolding decide act choose perform send_checked send_new_order thousandths on_features clamp_u32
    calculate_quotes calculate_quantities should_update_quotes requote lookup insert check_order
    check_position wrap ◌+ℤ◌ ◌-ℤ◌ ◌*ℤ◌ client
two_quotes = refl

decide_lem_example :
    (r : List ClientRequest × Client thousandths) × (decide thousandths client 5 6 7 ≡ done r)
    × All (IsPermitted client.risk_manager (Position.new 1)) (r.0)
    × ((r.0 ≡ [])
        ⊎ (PositionInLimit client.risk_manager (Position.new 1)
            × LossInLimit client.risk_manager (Position.new 1)))
unfolding lookup insert client magnitude
decide_lem_example = decide_lem thousandths client 5 6 7 (omega arith) (omega arith)

abbrev accepted : ClientResponse
accepted = Response.create Response.accepted 1 1 1 9 (pos 1) (pos 9950) 0 100

abbrev filled : ClientResponse
filled = Response.create Response.filled 1 1 1 9 (pos 1) (pos 9950) 100 0

fill_stays_pending_example :
    (c' : Client thousandths) × (q : Position) × ((on_kind thousandths
          (some ClientResponseType.accepted)
          client
          accepted
        >>= λ d. on_kind thousandths (some ClientResponseType.filled) d filled)
      ≡ done c')
    × (get_position c'.position_keeper 1 ≡ some q)
    × (q.position ≡ pos 0 +ℤ exact buy 100)
    × (open_qty buy q ≡ wrap32 (0 + 100))
unfolding lookup client magnitude
fill_stays_pending_example = fill_stays_pending thousandths client accepted filled (omega arith)
