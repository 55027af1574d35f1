-- ===== src/Trade/Tests.antt =====
-- trading/src/trade_engine.rs: an engine with one pending order.
use rust_low_latency_trading.Prelude.{
  ℕ, ◌+◌, ◌-◌, ◌≡◌, refl, arith, subst, sym, true, some, List, [], ◌∷◌,
}
use rust_low_latency_trading.Prelude.Int.{pos, ◌+ℤ◌, ◌-ℤ◌}
use rust_low_latency_trading.Prelude.I64
use rust_low_latency_trading.Prelude.Run.{done, from_done}
use rust_low_latency_trading.Prelude.Map.{lookup, insert, ℕ_eq}
use rust_low_latency_trading.Prelude.Totals.{total}
use rust_low_latency_trading.Types.{Side, TickerId, OrderId, Price, Qty, buy}
use rust_low_latency_trading.Protocol.Response
use rust_low_latency_trading.Protocol.Response.{
  ClientResponse, filled, accepted, response_type, from_u8,
}
use rust_low_latency_trading.Protocol.Update
use rust_low_latency_trading.Protocol.Update.{MarketUpdate}
use rust_low_latency_trading.Position
use rust_low_latency_trading.Position.Keeper
use rust_low_latency_trading.Position.Fills.{magnitude}
use rust_low_latency_trading.Risk.{check_order, check_open_orders, check_order_with_open_orders}
use rust_low_latency_trading.Trade.{
  TradeEngine, TradeEngineConfig, book_fill, new, init_tickers, on_response, pending_order_count,
  check_order_risk,
}
use rust_low_latency_trading.Trade.Orders.{cancel_all_orders, Submitted, submit_order, track_order}
use rust_low_latency_trading.Trade.Cycle.{run_cycle}
use rust_low_latency_trading.Trade.Events.{length, Takes, Hears, cycled, run_cycle_lem}
use rust_low_latency_trading.Trade.Account.{IsAccount, one_at, new-IsAccount}
use rust_low_latency_trading.Trade.Submit.{order_of, submit_order-IsAccount}
use rust_low_latency_trading.Trade.Cancels.{AllPending, cancel_all_orders_lem}
use rust_low_latency_trading.Trade.Respond.{on_response-IsAccount, stray_fill_lowers_count}

-- A callback that counts.
abbrev call : ℕ → TickerId → Side → Price → Qty → OrderId × ℕ
call s t side price qty = (s, s + 1)

abbrev config : TradeEngineConfig
config = record {
  client_id = 1;
  tickers = 5 ∷ [];
  enable_risk_checks = true;
  max_events_per_cycle = 100;
}

abbrev fresh : TradeEngine ℕ
fresh = record (new config) { order_submit_callback = some 900 }

fresh-IsAccount : IsAccount fresh
fresh-IsAccount =
    let v = new-IsAccount config in
    record { unique = v.unique; counts = v.counts; quantities = v.quantities }

abbrev one_open : TradeEngine ℕ
one_open = (submit_order call fresh 17 5 buy (pos 100) 40).1

one_open-IsAccount : IsAccount one_open
unfolding new init_tickers insert lookup
one_open-IsAccount =
    let (result, e, made, v, _) =
      submit_order-IsAccount call fresh 17 5 buy (pos 100) 40 fresh-IsAccount
        (omega arith, omega arith) refl in
    subst (λ (s : Submitted × TradeEngine ℕ). IsAccount s.1) (sym made) v

-- 15 of the 40 are filled at 99.
abbrev part_fill : ClientResponse
part_fill = Response.create filled 1 5 900 1 (pos 1) (pos 99) 15 25

on_response-IsAccount_example :
    (e : TradeEngine ℕ) × (on_response one_open part_fill ≡ done e) × IsAccount e
unfolding new init_tickers insert lookup submit_order magnitude check_order_risk track_order
    check_order_with_open_orders check_open_orders check_order I64.wrap ◌+ℤ◌ ◌-ℤ◌
on_response-IsAccount_example =
    on_response-IsAccount one_open part_fill (order_of 900 17 5 buy (pos 100) 40) one_open-IsAccount
      refl refl (λ _. (refl, omega arith))

-- A last fill of an order that the engine does not know.
abbrev stray : ClientResponse
stray = Response.create filled 1 5 901 1 (pos 1) (pos 99) 40 0

stray_fill_lowers_count_example :
    (e : TradeEngine ℕ) × (on_response one_open stray ≡ done e)
    × (e.pending_orders ≡ one_open.pending_orders)
    × (pending_order_count e 5 + 1 ≡ total (one_at 5) e.pending_orders)
unfolding new init_tickers insert lookup submit_order total response_type from_u8 check_order_risk
    track_order check_order_with_open_orders check_open_orders check_order I64.wrap ◌+ℤ◌ ◌-ℤ◌
stray_fill_lowers_count_example =
    stray_fill_lowers_count one_open stray one_open-IsAccount refl refl refl (omega arith)

-- An order that is accepted and partly filled, and two updates, with a limit of three events.
abbrev accept : ClientResponse
accept = Response.create accepted 1 5 900 1 (pos 1) (pos 100) 0 40

abbrev update : MarketUpdate
update = Update.create Update.add 5 2 (pos 1) (pos 98) 10 1

abbrev busy : TradeEngine ℕ
busy = record one_open { running = true; config = record config { max_events_per_cycle = 3 } }

abbrev filled_once : TradeEngine ℕ
unfolding on_response response_type from_u8 new init_tickers insert lookup submit_order
    check_order_risk track_order check_order_with_open_orders check_open_orders check_order I64.wrap
    ◌+ℤ◌ ◌-ℤ◌
filled_once = from_done busy (on_response (from_done busy (on_response busy accept)) part_fill)

run_cycle_lem_example :
    (a : ℕ × TradeEngine ℕ × List ClientResponse) × (b : ℕ × TradeEngine ℕ × List MarketUpdate)
    × (run_cycle busy (accept ∷ part_fill ∷ []) (update ∷ update ∷ [])
        ≡ done (a.0 + b.0, cycled b.1, a.2, b.2))
    × Takes 3 busy (accept ∷ part_fill ∷ []) a
    × Hears (3 - a.0) a.1 (update ∷ update ∷ []) b
unfolding filled_once book_fill Keeper.on_fill Position.on_fill
run_cycle_lem_example =
    run_cycle_lem busy filled_once (accept ∷ part_fill ∷ []) (update ∷ update ∷ []) refl
      (_, refl, (_, refl, refl))

abbrev with_callback : TradeEngine ℕ
with_callback = record one_open { order_cancel_callback = true }

with_callback-IsAccount : IsAccount with_callback
with_callback-IsAccount =
    let v = one_open-IsAccount in
    record { unique = v.unique; counts = v.counts; quantities = v.quantities }

cancel_all_orders_lem_example :
    (calls : List (OrderId × TickerId)) × (cancel_all_orders with_callback 5 ≡ calls)
    × (length calls ≡ pending_order_count with_callback 5)
    × AllPending with_callback 5 calls
cancel_all_orders_lem_example = cancel_all_orders_lem with_callback 5 with_callback-IsAccount refl
