-- ===== src/Risk.antt =====
-- trading/src/risk.rs: the checks before an order is sent, and of a position.
pub mod Limits
pub mod Allowed
mod Tests
use rust_low_latency_trading.Prelude.{
  ℕ, ◌+◌, Bool, true, false, not, Option, none, some, [], if◌then◌else◌, ltb, leb,
}
use rust_low_latency_trading.Prelude.Int.{ℤ, pos, ltb_ℤ}
use rust_low_latency_trading.Prelude.I64
use rust_low_latency_trading.Prelude.Map.{Map, lookup, insert, remove, ℕ_eq}
use rust_low_latency_trading.Types.{TickerId, Price, Qty, Side, buy, sell}
use rust_low_latency_trading.Position.{Position, total_pnl, max_long_exposure, max_short_exposure}

pub data RiskCheckResult : Type 0 where
  allowed order_too_large position_too_large loss_too_large open_orders_too_many : RiskCheckResult

abbrev pub is_allowed : RiskCheckResult → Bool
is_allowed allowed = true
is_allowed _ = false

pub record RiskLimits : Type 0 where
  pub max_order_qty : Qty
  pub max_position : ℤ
  pub max_loss : ℤ
  pub max_open_orders : ℕ

abbrev pub default_limits : RiskLimits
default_limits = record {
  max_order_qty = 1000;
  max_position = pos 10000;
  max_loss = pos 100000;
  max_open_orders = 100;
}

pub record RiskManager : Type 0 where
  pub limits : Map TickerId RiskLimits
  pub default_limits : RiskLimits

abbrev pub with_default_limits : RiskLimits → RiskManager
with_default_limits d = record { limits = []; default_limits = d }

abbrev pub new : RiskManager
new = with_default_limits default_limits

abbrev pub set_limits : RiskManager → TickerId → RiskLimits → RiskManager
set_limits m ticker_id l = record m { limits = insert ticker_id l m.limits }

abbrev pub unwrap_or : Option RiskLimits → RiskLimits → RiskLimits
unwrap_or none d = d
unwrap_or (some l) d = l

abbrev pub get_limits : RiskManager → TickerId → RiskLimits
get_limits m ticker_id = unwrap_or (lookup ticker_id m.limits) m.default_limits

abbrev pub remove_limits : RiskManager → TickerId → RiskManager
remove_limits m ticker_id = record m { limits = remove ticker_id m.limits }

abbrev pub is_risk_reducing : Position → Side → Bool
is_risk_reducing p buy = ltb_ℤ p.position (pos 0)
is_risk_reducing p sell = ltb_ℤ (pos 0) p.position

abbrev pub projected_position : Position → Side → Qty → ℤ
projected_position p buy qty = I64.add (max_long_exposure p) (pos qty)
projected_position p sell qty = I64.sub (max_short_exposure p) (pos qty)

-- The third check, shared with `check_position`.
abbrev pub check_loss : RiskLimits → Position → RiskCheckResult
check_loss l p = if ltb_ℤ (total_pnl p) (I64.neg l.max_loss) then loss_too_large else allowed

abbrev pub exceeds : ℤ → RiskLimits → Bool
exceeds a l = ltb_ℤ l.max_position (I64.abs a)

unfoldable pub check_order : RiskManager → Position → Side → Qty → Price → RiskCheckResult
check_order m p side qty price =
    let l = get_limits m p.ticker_id in
    if ltb l.max_order_qty qty
    then order_too_large
    else if is_risk_reducing p side
    then check_loss l p
    else if exceeds (projected_position p side qty) l
    then position_too_large
    else check_loss l p

unfoldable pub check_open_orders : RiskManager → TickerId → ℕ → RiskCheckResult
check_open_orders m ticker_id current =
    if leb (get_limits m ticker_id).max_open_orders current then open_orders_too_many else allowed

unfoldable pub check_position : RiskManager → Position → RiskCheckResult
check_position m p =
    let l = get_limits m p.ticker_id in
    if exceeds p.position l then position_too_large else check_loss l p

unfoldable pub check_order_with_open_orders :
    RiskManager → Position → Side → Qty → Price → ℕ → RiskCheckResult
check_order_with_open_orders m p side qty price current =
    let open_orders = check_open_orders m p.ticker_id current in
    if not (is_allowed open_orders) then open_orders else check_order m p side qty price
