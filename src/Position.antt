-- ===== src/Position.antt =====
-- trading/src/position.rs: the position and the profit of one ticker, and of all tickers.
pub mod Fills
pub mod Series
pub mod Products
pub mod Unrealized
pub mod Value
pub mod Keeper
mod Tests
use rust_low_latency_trading.Prelude.{
  ℕ, ◌+◌, ◌-◌, ◌^◌, Bool, true, false, ◌&&◌, ◌||◌, not, Option, none, some, List, [], ◌∷◌,
  if◌then◌else◌, ltb, wrap32, wrap64,
}
use rust_low_latency_trading.Prelude.Int.{ℤ, pos, negsuc, ltb_ℤ}
use rust_low_latency_trading.Prelude.I64
use rust_low_latency_trading.Prelude.I64.{is_zero}
use rust_low_latency_trading.Prelude.Run.{Run, done, fault, ◌>>=◌}
use rust_low_latency_trading.Prelude.Map.{Map, lookup, insert, values, ℕ_eq}
use rust_low_latency_trading.Types.{TickerId, Price, Qty, Side, buy, sell}

pub record Position : Type 0 where
  pub ticker_id : TickerId
  pub position : ℤ
  pub open_buy_qty : Qty
  pub open_sell_qty : Qty
  pub volume_traded : ℕ
  pub realized_pnl : ℤ
  pub unrealized_pnl : ℤ
  pub avg_open_price : Price
  pub last_price : Price

abbrev pub new : TickerId → Position
new ticker_id = record {
  ticker_id = ticker_id;
  position = pos 0;
  open_buy_qty = 0;
  open_sell_qty = 0;
  volume_traded = 0;
  realized_pnl = pos 0;
  unrealized_pnl = pos 0;
  avg_open_price = pos 0;
  last_price = pos 0;
}

-- `update_unrealized_pnl`
unfoldable pub unrealized_at : (position avg_open_price last_price : ℤ) → ℤ
unrealized_at position avg_open_price last_price =
    if is_zero position
    then pos 0
    else if ltb_ℤ (pos 0) position
    then I64.mul (I64.sub last_price avg_open_price) position
    else I64.mul (I64.sub avg_open_price last_price) (I64.neg position)

abbrev pub update_unrealized_pnl : Position → Position
update_unrealized_pnl p = record p {
  unrealized_pnl = unrealized_at p.position p.avg_open_price p.last_price;
}

abbrev pub signed_qty : Side → Qty → ℤ
signed_qty buy qty = pos qty
signed_qty sell qty = I64.neg (pos qty)

-- The tests of `on_fill` on the old position and the signed quantity.
abbrev pub closes : ℤ → ℤ → Bool
closes old signed =
    (ltb_ℤ (pos 0) old && ltb_ℤ signed (pos 0)) || (ltb_ℤ old (pos 0) && ltb_ℤ (pos 0) signed)

abbrev pub bool_ne : Bool → Bool → Bool
bool_ne true b = not b
bool_ne false b = b

abbrev pub flips : ℤ → ℤ → Bool
flips old fresh = not (is_zero fresh) && bool_ne (ltb_ℤ (pos 0) fresh) (ltb_ℤ (pos 0) old)

-- The part of `on_fill` that closes, reduces or flips a position.
abbrev pub on_close : Position → (signed fresh : ℤ) → Price → Position
on_close p signed fresh price =
    let closing_qty = I64.min (I64.abs p.position) (I64.abs signed) in
    let pnl_per_unit =
      if ltb_ℤ (pos 0) p.position
      then I64.sub price p.avg_open_price
      else I64.sub p.avg_open_price price in
    record p {
      realized_pnl = I64.add p.realized_pnl (I64.mul pnl_per_unit closing_qty);
      avg_open_price = if flips p.position fresh then price else p.avg_open_price;
    }

-- The part that adds to a position: the average price is weighted.
abbrev pub on_increase : Position → (signed fresh : ℤ) → Price → Run Position
on_increase p signed fresh price =
    I64.div
      (I64.add (I64.mul p.avg_open_price (I64.abs p.position)) (I64.mul price (I64.abs signed)))
      (I64.abs fresh)
    >>= λ average. done (record p { avg_open_price = average })

abbrev pub average_and_realize : Position → (signed fresh : ℤ) → Price → Run Position
average_and_realize p signed fresh price =
    if is_zero p.position
    then done (record p { avg_open_price = price })
    else if closes p.position signed
    then done (on_close p signed fresh price)
    else on_increase p signed fresh price

-- `Position::on_fill`
unfoldable pub on_fill : Position → Side → Qty → Price → Run Position
on_fill p side qty price =
    let signed = signed_qty side qty in
    let fresh = I64.add p.position signed in
    let counted = record p { volume_traded = wrap64 (p.volume_traded + qty); last_price = price } in
    average_and_realize counted signed fresh price >>= λ q.
    done (update_unrealized_pnl (record q { position = fresh }))

abbrev pub add_open_order : Position → Side → Qty → Position
add_open_order p buy qty = record p { open_buy_qty = wrap32 (p.open_buy_qty + qty) }
add_open_order p sell qty = record p { open_sell_qty = wrap32 (p.open_sell_qty + qty) }

-- The subtraction of ℕ stops at 0, as `saturating_sub` does.
abbrev pub remove_open_order : Position → Side → Qty → Position
remove_open_order p buy qty = record p { open_buy_qty = p.open_buy_qty - qty }
remove_open_order p sell qty = record p { open_sell_qty = p.open_sell_qty - qty }

abbrev pub update_market_price : Position → Price → Position
update_market_price p price = update_unrealized_pnl (record p { last_price = price })

abbrev pub net_position : Position → ℤ
net_position p = p.position

abbrev pub total_pnl : Position → ℤ
total_pnl p = I64.add p.realized_pnl p.unrealized_pnl

abbrev pub max_long_exposure : Position → ℤ
max_long_exposure p = I64.add p.position (pos p.open_buy_qty)

abbrev pub max_short_exposure : Position → ℤ
max_short_exposure p = I64.sub p.position (pos p.open_sell_qty)
