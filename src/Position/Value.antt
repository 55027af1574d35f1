-- ===== src/Position/Value.antt =====
-- trading/src/position.rs: a fill at the price of the market leaves the value of a position alone.
use rust_low_latency_trading.Prelude.{
  ℕ, zero, suc, ◌+◌, ◌-◌, ◌^◌, ◌<◌, ◌≡◌, refl, arith, true, false, sym, ◌∙◌, ap, ap₂, inl, inr, ◌⊎◌,
  if◌then◌else◌, wrap64,
}
use native.Mathlib.Decide.{dec_lt}
use rust_low_latency_trading.Prelude.Int.{ℤ, pos, negsuc, ◌+ℤ◌, ◌-ℤ◌}
use rust_low_latency_trading.Prelude.I64
use rust_low_latency_trading.Prelude.I64.{wrap, is_zero}
use rust_low_latency_trading.Prelude.Run.{done}
use rust_low_latency_trading.Types.{Price, Qty, Side, buy, sell}
use rust_low_latency_trading.Position.{
  Position, unrealized_at, update_unrealized_pnl, closes, flips, on_close, on_fill, total_pnl,
  update_market_price,
}
use rust_low_latency_trading.Position.Fills.{magnitude, exact, fresh_exact, signed_qty-exact}
use rust_low_latency_trading.Position.Unrealized.{
  unrealized_long, unrealized_short, unrealized_level, per_unit, value_after, sell_rest,
  sell_beyond, buy_rest, buy_beyond, abs_sold, abs_short, whole, whole_realized, abs_pos, min_first,
  min_second, from_parts, kept_average, new_average,
}

value_long :
    (r : ℤ) (m x : ℕ) (avg price : ℤ)
    → 0 < m
    → m + x < 2 ^ 63
    → value_after r (pos m) (pos 0 -ℤ pos x) avg price ≡ I64.add r (unrealized_at (pos m) avg price)
value_long r m x avg price held h = elim (dec_lt m x) [
  | yes beyond ↦
      from_parts r (pos m) (pos 0 -ℤ pos x) avg price d (pos m) (pos 0) unit
        (ap₂ I64.min (abs_pos m) (abs_sold x (omega arith)) ∙ min_first m x (omega arith))
        (new_average (pos m) (pos m +ℤ (pos 0 -ℤ pos x)) avg price
          (rw (sell_beyond m x beyond) (ground arith)))
      ∙ whole_realized r d m
      ∙ ap (I64.add r) (sym (unrealized_long m avg price))
  | no within ↦
      from_parts r (pos m) (pos 0 -ℤ pos x) avg price d (pos x) (I64.mul d (pos (m - x))) unit
        (ap₂ I64.min (abs_pos m) (abs_sold x (omega arith)) ∙ min_second m x (omega arith))
        (kept_average (pos m) (pos m +ℤ (pos 0 -ℤ pos x)) avg price
            (rw (sell_rest m x (omega arith)) (ground arith))
          ∙ ap (λ a. unrealized_at a avg price) (sell_rest m x (omega arith))
          ∙ unrealized_long (m - x) avg price)
      ∙ whole r d x (m - x) m (omega arith)
      ∙ ap (I64.add r) (sym (unrealized_long m avg price))
]
  where
    d : ℤ
    d = I64.sub price avg

    unit : per_unit (pos m) avg price ≡ d
    unit = ground (arith, held)

short_turned :
    (k y : ℕ) (avg price : ℤ)
    → unrealized_at (pos y) (if flips (negsuc k) (pos y) then price else avg) price ≡ pos 0
unfolding unrealized_at
short_turned k zero avg price = refl
short_turned k (suc y) avg price = new_average (negsuc k) (pos (suc y)) avg price (ground arith)

value_short :
    (r : ℤ) (k x : ℕ) (avg price : ℤ)
    → suc k + x < 2 ^ 63
    → value_after r (negsuc k) (pos x) avg price ≡ I64.add r (unrealized_at (negsuc k) avg price)
value_short r k x avg price h = elim (dec_lt x (suc k)) [
  | yes within ↦
      from_parts r (negsuc k) (pos x) avg price d (pos x) (I64.mul d (pos (suc (k - x)))) unit
        (ap₂ I64.min (abs_short k (omega arith)) (abs_pos x) ∙ min_second (suc k) x (omega arith))
        (kept_average (negsuc k) (negsuc k +ℤ pos x) avg price
            (rw (buy_rest k x within) (ground arith))
          ∙ ap (λ a. unrealized_at a avg price) (buy_rest k x within)
          ∙ unrealized_short (k - x) avg price (omega arith))
      ∙ whole r d x (suc (k - x)) (suc k) (omega arith)
      ∙ ap (I64.add r) (sym (unrealized_short k avg price (omega arith)))
  | no beyond ↦
      from_parts r (negsuc k) (pos x) avg price d (pos (suc k)) (pos 0) unit
        (ap₂ I64.min (abs_short k (omega arith)) (abs_pos x) ∙ min_first (suc k) x (omega arith))
        (ap (λ a. unrealized_at a (if flips (negsuc k) a then price else avg) price)
            (buy_beyond k x (omega arith))
          ∙ short_turned k (x - suc k) avg price)
      ∙ whole_realized r d (suc k)
      ∙ ap (I64.add r) (sym (unrealized_short k avg price (omega arith)))
]
  where
    d : ℤ
    d = I64.sub avg price

    unit : per_unit (negsuc k) avg price ≡ d
    unit = ground arith

sold_not_bought : (k x : ℕ) → closes (negsuc k) (pos 0 -ℤ pos x) ≡ false
unfolding ◌-ℤ◌
sold_not_bought k x = ground arith

closes_held : (a signed : ℤ) → closes a signed ≡ true → is_zero a ≡ false
closes_held a signed c = ground (arith, c)

-- Either kind of closing fill.
value_closed :
    (r a : ℤ) (side : Side) (qty : Qty) (avg price : ℤ)
    → magnitude a + qty < 2 ^ 63
    → closes a (exact side qty) ≡ true
    → value_after r a (exact side qty) avg price ≡ I64.add r (unrealized_at a avg price)
unfolding magnitude
value_closed r (pos m) buy qty avg price h c = absurd (ground (arith, c))
value_closed r (pos m) sell qty avg price h c =
    value_long r m qty avg price (ground (arith, c)) (omega arith)
value_closed r (negsuc k) buy qty avg price h c = value_short r k qty avg price (omega arith)
value_closed r (negsuc k) sell qty avg price h c = absurd (ground (arith, c, sold_not_bought k qty))

unrealized_none : (a avg price : ℤ) → is_zero a ≡ true → unrealized_at a avg price ≡ pos 0
unfolding unrealized_at
unrealized_none a avg price flat = rw flat refl

-- The position once the fill is counted in the volume and as the last price.
abbrev counted : Position → Qty → Price → Position
counted p qty price = record p {
  volume_traded = wrap64 (p.volume_traded + qty);
  last_price = price;
}

-- A fill that opens a position, or closes, reduces or turns round one, where the distance from zero and
-- the quantity together stay below 2^63, is booked without a panic, and leaves the total profit that the position has at the price of the fill, realized and
-- unrealized together, exactly as it was, in the wrapped arithmetic of the code.
pub on_fill_keeps_value :
    (p : Position) (side : Side) (qty : Qty) (price : Price)
    → magnitude p.position + qty < 2 ^ 63
    → (is_zero p.position ≡ true) ⊎ (closes p.position (exact side qty) ≡ true)
    → (q : Position) × (on_fill p side qty price ≡ done q)
      × (total_pnl q ≡ total_pnl (update_market_price p price))
unfolding on_fill
on_fill_keeps_value p side qty price range (inl flat) =
    let fresh = p.position +ℤ exact side qty in
    (
      update_unrealized_pnl
          (record (counted p qty price) { avg_open_price = price; position = fresh }),
      rw (fresh_exact p.position side qty range, flat) refl,
      ap (I64.add p.realized_pnl) (
          unrealized_level fresh price
          ∙ sym (unrealized_none p.position p.avg_open_price price flat)),
    )
on_fill_keeps_value p side qty price range (inr closing) =
    let fresh = p.position +ℤ exact side qty in
    (
      update_unrealized_pnl (record (on_close (counted p qty price) (exact side qty) fresh price) {
        position = fresh;
      }),
      rw
          (
            fresh_exact p.position side qty range,
            signed_qty-exact p.position side qty range,
            closes_held p.position (exact side qty) closing,
            closing,
          )
          refl,
      value_closed p.realized_pnl p.position side qty p.avg_open_price price range closing,
    )
