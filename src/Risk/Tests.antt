-- ===== src/Risk/Tests.antt =====
-- trading/src/risk.rs: a long position under the default limits.
use rust_low_latency_trading.Prelude.{◌≡◌, ◌<◌, ◌≤◌, refl, arith, true, ◌⊎◌}
use rust_low_latency_trading.Prelude.Int.{pos, ◌+ℤ◌, ◌-ℤ◌}
use rust_low_latency_trading.Prelude.I64
use rust_low_latency_trading.Prelude.Map.{lookup}
use rust_low_latency_trading.Types.{buy}
use rust_low_latency_trading.Position
use rust_low_latency_trading.Position.{Position}
use rust_low_latency_trading.Position.Fills.{magnitude}
use rust_low_latency_trading.Risk.{
  new, get_limits, is_risk_reducing, check_order, check_open_orders, check_order_with_open_orders,
}
use rust_low_latency_trading.Risk.Allowed.{
  LossInLimit, FillsInLimit, allowed_order_stays_within_limits,
}

abbrev long : Position
long = record (Position.new 1) { position = pos 10; avg_open_price = pos 7; open_buy_qty = 30 }

allowed_order_stays_within_limits_example :
    (2 < (get_limits new 1).max_open_orders)
    × (500 ≤ (get_limits new 1).max_order_qty)
    × LossInLimit new long
    × ((is_risk_reducing long buy ≡ true) ⊎ FillsInLimit new long buy 500)
unfolding check_order_with_open_orders check_open_orders check_order lookup magnitude I64.wrap ◌+ℤ◌
    ◌-ℤ◌
allowed_order_stays_within_limits_example =
    allowed_order_stays_within_limits new long buy 500 (pos 7) 2 (omega arith) refl
