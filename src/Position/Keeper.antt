-- ===== src/Position/Keeper.antt =====
-- trading/src/position.rs: `PositionKeeper`, the positions of all tickers with their cached total.
pub mod Total
mod Tests
use rust_low_latency_trading.Prelude.{ℕ, Option, none, some, List, [], ◌∷◌}
use rust_low_latency_trading.Prelude.Int.{ℤ, pos}
use rust_low_latency_trading.Prelude.I64
use rust_low_latency_trading.Prelude.Run.{Run, done, ◌>>=◌}
use rust_low_latency_trading.Prelude.Map.{Map, lookup, insert, values, ℕ_eq}
use rust_low_latency_trading.Types.{TickerId, Price, Qty, Side}
use rust_low_latency_trading.Position
use rust_low_latency_trading.Position.{Position}

pub record PositionKeeper : Type 0 where
  pub positions : Map TickerId Position
  pub total_pnl : ℤ

abbrev pub new : PositionKeeper
new = record { positions = []; total_pnl = pos 0 }

abbrev pub get_position : PositionKeeper → TickerId → Option Position
get_position k ticker_id = lookup ticker_id k.positions

-- `get_position_mut`: the position that the entry of the ticker holds, a new one if it is absent.
abbrev pub or_new : TickerId → Option Position → Position
or_new ticker_id none = Position.new ticker_id
or_new ticker_id (some p) = p

-- The sum over the positions, in the order in which the map gives them.
unfoldable pub sum : List Position → ℤ
sum [] = pos 0
sum (p ∷ ps) = I64.add (Position.total_pnl p) (sum ps)

unfoldable pub all_positions : PositionKeeper → List Position
all_positions k = values k.positions

abbrev pub recalculate_total_pnl : PositionKeeper → PositionKeeper
recalculate_total_pnl k = record k { total_pnl = sum (all_positions k) }

-- The change of a position in place.
abbrev pub put_position : PositionKeeper → TickerId → Position → PositionKeeper
put_position k ticker_id p = record k { positions = insert ticker_id p k.positions }

unfoldable pub on_fill : PositionKeeper → TickerId → Side → Qty → Price → Run PositionKeeper
on_fill k ticker_id side qty price =
    Position.on_fill (or_new ticker_id (lookup ticker_id k.positions)) side qty price >>= λ p.
    done (recalculate_total_pnl (put_position k ticker_id p))

unfoldable pub update_market_price : PositionKeeper → TickerId → Price → PositionKeeper
update_market_price k ticker_id price = elim (lookup ticker_id k.positions) [
  | none ↦ k
  | some p ↦ recalculate_total_pnl (put_position k ticker_id (Position.update_market_price p price))
]
