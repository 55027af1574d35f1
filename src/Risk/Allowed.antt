-- ===== src/Risk/Allowed.antt =====
-- trading/src/risk.rs with trading/src/position.rs: an order that was allowed, and its fills.
use rust_low_latency_trading.Prelude.{
  ℕ, ◌+◌, ◌^◌, ◌<◌, ◌≤◌, ◌≡◌, arith, true, false, ap, Bool-cases, inl, inr, ◌⊎◌, leb,
}
use rust_low_latency_trading.Prelude.Int.{ℤ, pos, ◌+ℤ◌, ◌≤ℤ◌, ltb_ℤ}
use rust_low_latency_trading.Prelude.I64
use rust_low_latency_trading.Prelude.Run.{done}
use rust_low_latency_trading.Types.{Price, Qty, Side}
use rust_low_latency_trading.Position.{Position, total_pnl, on_fill}
use rust_low_latency_trading.Position.Fills.{magnitude, exact, on_fill_lem}
use rust_low_latency_trading.Risk.{
  RiskManager, allowed, is_allowed, get_limits, is_risk_reducing, projected_position, check_loss,
  exceeds, check_order, check_open_orders, check_order_with_open_orders, check_position,
}
use rust_low_latency_trading.Risk.Limits.{
  open_qty, passed, projected_exact, abs_exact, part_smaller, magnitude-add,
}

-- The profit is not below the loss that the limits allow.
abbrev pub LossInLimit : RiskManager → Position → Type 0
LossInLimit m p = ltb_ℤ (total_pnl p) (I64.neg (get_limits m p.ticker_id).max_loss) ≡ false

loss_in_limit :
    (m : RiskManager) (p : Position)
    → check_loss (get_limits m p.ticker_id) p ≡ allowed
    → LossInLimit m p
loss_in_limit m p h =
    elim (Bool-cases (ltb_ℤ (total_pnl p) (I64.neg (get_limits m p.ticker_id).max_loss))) [
      | inl low ↦ absurd (ground (arith, ap is_allowed (rw low at h)))
      | inr fine ↦ fine
    ]

open_orders_passed :
    (m : RiskManager) (p : Position) (side : Side) (qty : Qty) (price : Price) (current : ℕ)
    → check_order_with_open_orders m p side qty price current ≡ allowed
    → (current < (get_limits m p.ticker_id).max_open_orders)
      × (check_order m p side qty price ≡ allowed)
unfolding check_order_with_open_orders check_open_orders
open_orders_passed m p side qty price current h =
    elim (Bool-cases (leb (get_limits m p.ticker_id).max_open_orders current)) [
      | inl many ↦ absurd (ground (arith, ap is_allowed (rw many at h)))
      | inr few ↦ (ground (arith, few), rw few at h)
    ]

bounded :
    (a limit : ℤ)
    → magnitude a < 2 ^ 63
    → ltb_ℤ limit (I64.abs a) ≡ false
    → pos (magnitude a) ≤ℤ limit
bounded a limit small h =
    let tested : ltb_ℤ limit (pos (magnitude a)) ≡ false = rw (abs_exact a small) at h in
    ground (arith, tested)

-- Each part of the order and of the pending quantity of its side, filled at any price, is booked
-- and leaves the position within the limit.
abbrev pub FillsInLimit : RiskManager → Position → Side → Qty → Type 0
FillsInLimit m p side qty =
    (x : ℕ) (at : Price)
    → x ≤ open_qty side p + qty
    → (q : Position) × (on_fill p side x at ≡ done q)
      × (pos (magnitude q.position) ≤ℤ (get_limits m p.ticker_id).max_position)

fills_in_limit :
    (m : RiskManager) (p : Position) (side : Side) (qty : Qty)
    → magnitude p.position + (open_qty side p + qty) < 2 ^ 63
    → is_risk_reducing p side ≡ false
    → exceeds (projected_position p side qty) (get_limits m p.ticker_id) ≡ false
    → FillsInLimit m p side qty
fills_in_limit m p side qty range other within x at part =
    let (q, made, (net, _, _, _, _)) = on_fill_lem p side x at (omega (arith, range, part)) in
    let all = p.position +ℤ exact side (open_qty side p + qty) in
    let limit : pos (magnitude all) ≤ℤ (get_limits m p.ticker_id).max_position =
      bounded all (get_limits m p.ticker_id).max_position
        (omega (arith, range, magnitude-add p.position side (open_qty side p + qty)))
        (rw (projected_exact p side qty range) at within) in
    (
      q,
      made,
      omega (
        arith,
        ap magnitude net,
        limit,
        part_smaller p side x (open_qty side p + qty) other part,
      ),
    )

-- What `check_order` has made sure of when it allows an order.
abbrev pub StaysInLimits : RiskManager → Position → Side → Qty → Type 0
StaysInLimits m p side qty =
    (qty ≤ (get_limits m p.ticker_id).max_order_qty)
    × LossInLimit m p
    × ((is_risk_reducing p side ≡ true) ⊎ FillsInLimit m p side qty)

pub check_order-StaysInLimits :
    (m : RiskManager) (p : Position) (side : Side) (qty : Qty) (price : Price)
    → magnitude p.position + (open_qty side p + qty) < 2 ^ 63
    → check_order m p side qty price ≡ allowed
    → StaysInLimits m p side qty
check_order-StaysInLimits m p side qty price range h =
    let (fits, loss, position) = passed m p side qty price h in
    (
      fits,
      loss_in_limit m p loss,
      elim (Bool-cases (is_risk_reducing p side)) [
        | inl reducing ↦ inl reducing
        | inr other ↦ elim position [
          | inl reducing ↦ inl reducing
          | inr within ↦ inr (fills_in_limit m p side qty range other within)
        ]
      ],
    )

-- An order that `check_order_with_open_orders` allows has one open order less than the limit
-- before it, is not larger than the limit of an order, and the loss so far is within its limit. If
-- the side does not reduce the position, then whatever part of the order and of the pending
-- quantity of its side is filled in one fill, at any price, the fill is booked without a panic and
-- the position stays within the limit. The quantities must not reach the end of the range.
pub allowed_order_stays_within_limits :
    (m : RiskManager) (p : Position) (side : Side) (qty : Qty) (price : Price) (current : ℕ)
    → magnitude p.position + (open_qty side p + qty) < 2 ^ 63
    → check_order_with_open_orders m p side qty price current ≡ allowed
    → (current < (get_limits m p.ticker_id).max_open_orders)
      × (qty ≤ (get_limits m p.ticker_id).max_order_qty)
      × LossInLimit m p
      × ((is_risk_reducing p side ≡ true) ⊎ FillsInLimit m p side qty)
allowed_order_stays_within_limits m p side qty price current range h =
    let (few, order) = open_orders_passed m p side qty price current h in
    let (fits, loss, position) = check_order-StaysInLimits m p side qty price range order in
    (few, fits, loss, position)

-- The position is not beyond the limit on either side.
abbrev pub PositionInLimit : RiskManager → Position → Type 0
PositionInLimit m p = pos (magnitude p.position) ≤ℤ (get_limits m p.ticker_id).max_position

-- What `check_position` has made sure of when it allows to trade.
pub check_position_lem :
    (m : RiskManager) (p : Position)
    → magnitude p.position < 2 ^ 63
    → check_position m p ≡ allowed
    → PositionInLimit m p × LossInLimit m p
unfolding check_position
check_position_lem m p range h = elim (Bool-cases (exceeds p.position (get_limits m p.ticker_id))) [
  | inl beyond ↦ absurd (ground (arith, ap is_allowed (rw beyond at h)))
  | inr within ↦ (
    bounded p.position (get_limits m p.ticker_id).max_position range within,
    loss_in_limit m p (rw within at h),
  )
]
