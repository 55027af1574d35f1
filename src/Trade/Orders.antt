-- ===== src/Trade/Orders.antt =====
-- trading/src/trade_engine.rs: submitting and cancelling orders, and the actions of a strategy.
use rust_low_latency_trading.Prelude.{
  ℕ, ◌+◌, Bool, true, not, Option, none, some, List, [], ◌∷◌, ◌++◌, if◌then◌else◌, wrap32, wrap64,
}
use rust_low_latency_trading.Prelude.Map.{Map, lookup, insert, ◌==◌, ℕ_eq}
use rust_low_latency_trading.Types.{OrderId, TickerId, Price, Qty, Side}
use rust_low_latency_trading.Position.{add_open_order}
use rust_low_latency_trading.Risk.{RiskCheckResult, is_allowed}
use rust_low_latency_trading.Trade.{
  TradeEngine, TrackedOrder, pending_order_count, position_of, put_open, check_order_risk,
}

-- A result of `submit_order`.
pub data Submitted : Type 0 where
  ok : OrderId → Submitted
  err : RiskCheckResult → Submitted

module _ {S : Type 0} (call : S → TickerId → Side → Price → Qty → OrderId × S) where
  -- The identifier that the callback assigns, or the placeholder if there is none.
  abbrev pub assign_id : Option S → ℕ → TickerId → Side → Price → Qty → OrderId × Option S
  assign_id none submitted t side price qty = (wrap64 (submitted + 1), none)
  assign_id (some s) submitted t side price qty =
      let r = call s t side price qty in (r.0, some (r.1))

  -- What `submit_order` does once the order was allowed and has its identifier.
  unfoldable pub track_order :
      TradeEngine S → ℕ → TickerId → Side → Price → Qty → OrderId × Option S → TradeEngine S
  track_order e now t side price qty assigned =
      put_open
        (record e {
          order_submit_callback = assigned.1;
          pending_orders =
              insert (assigned.0)
                (record {
                  order_id = assigned.0;
                  ticker_id = t;
                  side = side;
                  price = price;
                  original_qty = qty;
                  leaves_qty = qty;
                  sent_time = now;
                })
                e.pending_orders;
          stats = record (e.stats) { orders_submitted = wrap64 (e.stats.orders_submitted + 1) };
        })
        t (add_open_order (position_of e t) side qty) (wrap32 (pending_order_count e t + 1))

  -- `submit_order`, at the time `now`.
  unfoldable pub submit_order :
      TradeEngine S → ℕ → TickerId → Side → Price → Qty → Submitted × TradeEngine S
  unfolding check_order_risk track_order
  submit_order e now t side price qty =
      let result = check_order_risk e t side price qty in
      if not (is_allowed result)
      then (
        err result,
        record e {
          stats = record (e.stats) {
            orders_rejected_risk = wrap64 (e.stats.orders_rejected_risk + 1);
          };
        },
      )
      else (let assigned =
            assign_id e.order_submit_callback e.stats.orders_submitted t side price qty in
          (ok (assigned.0), track_order e now t side price qty assigned))

-- `cancel_order`: the call that it makes, if the callback is set and the order is pending.
abbrev pub cancel_call : Bool → OrderId → Option TrackedOrder → List (OrderId × TickerId)
cancel_call true id (some o) = (id, o.ticker_id) ∷ []
cancel_call _ id _ = []

abbrev pub cancel_order : {S : Type 0} → TradeEngine S → OrderId → List (OrderId × TickerId)
cancel_order e id = cancel_call e.order_cancel_callback id (lookup id e.pending_orders)

-- The identifiers of the pending orders of a ticker, in the order of the map.
unfoldable pub ids_at : TickerId → Map OrderId TrackedOrder → List OrderId
ids_at t [] = []
ids_at t ((id, o) ∷ m) = let rest = ids_at t m in if o.ticker_id == t then id ∷ rest else rest

unfoldable pub cancel_each : {S : Type 0} → TradeEngine S → List OrderId → List (OrderId × TickerId)
cancel_each e [] = []
cancel_each e (id ∷ ids) = cancel_order e id ++ cancel_each e ids

unfoldable pub cancel_all_orders :
    {S : Type 0} → TradeEngine S → TickerId → List (OrderId × TickerId)
unfolding ids_at cancel_each
cancel_all_orders e t = cancel_each e (ids_at t e.pending_orders)
