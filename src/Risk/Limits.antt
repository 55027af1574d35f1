-- ===== src/Risk/Limits.antt =====
-- trading/src/risk.rs: what an order that passes the checks can do to a position.
use rust_low_latency_trading.Prelude.{
  ℕ, ◌+◌, ◌^◌, ◌<◌, ◌≤◌, ◌≡◌, refl, arith, true, false, ◌∙◌, ap, Bool-cases, inl, inr, ◌⊎◌, ltb,
}
use rust_low_latency_trading.Prelude.Int.{ℤ, pos, negsuc, ◌+ℤ◌, ◌-ℤ◌, ltb_ℤ, +ℤ_assoc}
use rust_low_latency_trading.Prelude.I64
use rust_low_latency_trading.Prelude.I64.{IsI64, wrap_small}
use rust_low_latency_trading.Types.{Price, Qty, Side, buy, sell}
use rust_low_latency_trading.Position.{Position}
use rust_low_latency_trading.Position.Fills.{magnitude, exact, exact_parts, fresh_exact}
use rust_low_latency_trading.Risk.{
  RiskCheckResult, RiskManager, allowed, is_allowed, get_limits, is_risk_reducing,
  projected_position, check_loss, exceeds, check_order, position_too_large, order_too_large,
}

-- The pending quantity of a side.
abbrev pub open_qty : Side → Position → Qty
open_qty buy p = p.open_buy_qty
open_qty sell p = p.open_sell_qty

-- A refusal is not an allowance.
refused : (r : RiskCheckResult) → is_allowed r ≡ false → ¬ (r ≡ allowed)
refused r f e = ground (arith, f, ap is_allowed e)

-- What an allowed order has passed: its size, the loss so far, and the limit on the position unless
-- it was taken for a reducing one.
pub passed :
    (m : RiskManager) (p : Position) (side : Side) (qty : Qty) (price : Price)
    → check_order m p side qty price ≡ allowed
    → (qty ≤ (get_limits m p.ticker_id).max_order_qty)
      × (check_loss (get_limits m p.ticker_id) p ≡ allowed)
      × ((is_risk_reducing p side ≡ true)
          ⊎ (exceeds (projected_position p side qty) (get_limits m p.ticker_id) ≡ false))
unfolding check_order
passed m p side qty price h = elim (Bool-cases (ltb (get_limits m p.ticker_id).max_order_qty qty)) [
  | inl large ↦ absurd (refused order_too_large refl (rw large at h))
  | inr fits ↦ elim (Bool-cases (is_risk_reducing p side)) [
    | inl reducing ↦ (ground (arith, fits), rw (fits, reducing) at h, inl reducing)
    | inr other ↦
        elim (Bool-cases (exceeds (projected_position p side qty) (get_limits m p.ticker_id))) [
          | inl beyond ↦ absurd (refused position_too_large refl (rw (fits, other, beyond) at h))
          | inr within ↦ (ground (arith, fits), rw (fits, other, within) at h, inr within)
        ]
  ]
]

pub magnitude-add : (a : ℤ) (side : Side) (x : ℕ) → magnitude (a +ℤ exact side x) ≤ magnitude a + x
unfolding magnitude ◌+ℤ◌ ◌-ℤ◌
magnitude-add (pos a) buy x = ground arith
magnitude-add (pos a) sell x = ground arith
magnitude-add (negsuc a) buy x = ground arith
magnitude-add (negsuc a) sell x = ground arith

pos_add : (x y : ℕ) → pos x +ℤ pos y ≡ pos (x + y)
unfolding ◌+ℤ◌
pos_add x y = ground arith

neg_add : (x y : ℕ) → pos 0 -ℤ pos x +ℤ (pos 0 -ℤ pos y) ≡ pos 0 -ℤ pos (x + y)
unfolding ◌+ℤ◌ ◌-ℤ◌
neg_add x y = ground arith

exact_twice :
    (a : ℤ) (side : Side) (x y : ℕ) → a +ℤ exact side x +ℤ exact side y ≡ a +ℤ exact side (x + y)
exact_twice a buy x y = +ℤ_assoc a (pos x) (pos y) ∙ ap (λ b. a +ℤ b) (pos_add x y)
exact_twice a sell x y =
    +ℤ_assoc a (pos 0 -ℤ pos x) (pos 0 -ℤ pos y) ∙ ap (λ b. a +ℤ b) (neg_add x y)

sub_as_add : (a : ℤ) (x : ℕ) → a -ℤ pos x ≡ a +ℤ (pos 0 -ℤ pos x)
unfolding ◌+ℤ◌ ◌-ℤ◌
sub_as_add (pos a) x = ground arith
sub_as_add (negsuc a) x = ground arith

-- The step that `max_long_exposure` and `max_short_exposure` take, and the check after them.
abbrev move : ℤ → Side → ℕ → ℤ
move a buy x = I64.add a (pos x)
move a sell x = I64.sub a (pos x)

move_once :
    (a : ℤ) (side : Side) (x : ℕ) → magnitude a + x < 2 ^ 63 → move a side x ≡ a +ℤ exact side x
move_once a buy x h = fresh_exact a buy x h
move_once a sell x h =
    rw (sub_as_add a x) (wrap_small (a +ℤ exact sell x) (exact_parts a sell x h).1)

-- The projection is exact for a position away from the ends.
move-exact :
    (a : ℤ) (side : Side) (x y : ℕ)
    → magnitude a + (x + y) < 2 ^ 63
    → move (move a side x) side y ≡ a +ℤ exact side (x + y)
move-exact a side x y h =
    let near : magnitude a + x < 2 ^ 63 = omega (arith, h) in
    let first = move_once a side x near in
    rw first (
      move_once (a +ℤ exact side x) side y (omega (arith, h, magnitude-add a side x))
      ∙ exact_twice a side x y)

pub projected_exact :
    (p : Position) (side : Side) (qty : Qty)
    → magnitude p.position + (open_qty side p + qty) < 2 ^ 63
    → projected_position p side qty ≡ p.position +ℤ exact side (open_qty side p + qty)
projected_exact p buy qty h = move-exact p.position buy p.open_buy_qty qty h
projected_exact p sell qty h = move-exact p.position sell p.open_sell_qty qty h

pub abs_exact : (a : ℤ) → magnitude a < 2 ^ 63 → I64.abs a ≡ pos (magnitude a)
unfolding magnitude I64.wrap ◌-ℤ◌
abs_exact (pos n) h = ground arith
abs_exact (negsuc n) h = ground arith

-- Away from zero the distance grows with the quantity.
grows_bought : (a : ℤ) (x : ℕ) → ltb_ℤ a (pos 0) ≡ false → magnitude (a +ℤ pos x) ≡ magnitude a + x
unfolding magnitude ◌+ℤ◌
grows_bought (pos a) x r = ground arith
grows_bought (negsuc a) x r = ground arith

grows_sold :
    (a : ℤ) (x : ℕ) → ltb_ℤ (pos 0) a ≡ false → magnitude (a +ℤ (pos 0 -ℤ pos x)) ≡ magnitude a + x
unfolding magnitude ◌+ℤ◌ ◌-ℤ◌
grows_sold (pos a) x r = ground arith
grows_sold (negsuc a) x r = ground arith

pub part_smaller :
    (p : Position) (side : Side) (x y : ℕ)
    → is_risk_reducing p side ≡ false
    → x ≤ y
    → magnitude (p.position +ℤ exact side x) ≤ magnitude (p.position +ℤ exact side y)
part_smaller p buy x y r h = omega (arith, grows_bought p.position x r, grows_bought p.position y r)
part_smaller p sell x y r h = omega (arith, grows_sold p.position x r, grows_sold p.position y r)
