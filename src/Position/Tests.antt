-- ===== src/Position/Tests.antt =====
-- trading/src/position.rs: a long position that is turned round, and the theorems at it.
use rust_low_latency_trading.Prelude.{inr, ◌+◌, ◌≡◌, refl, arith, List, [], ◌∷◌}
use rust_low_latency_trading.Prelude.Int.{pos, negsuc, ◌+ℤ◌, ◌-ℤ◌, ◌*ℤ◌}
use rust_low_latency_trading.Prelude.I64
use rust_low_latency_trading.Prelude.Run.{done, ◌>>=◌}
use rust_low_latency_trading.Types.{buy, sell}
use rust_low_latency_trading.Position.{
  Position, new, on_fill, unrealized_at, total_pnl, update_market_price,
}
use rust_low_latency_trading.Position.Fills.{magnitude}
use rust_low_latency_trading.Position.Value.{on_fill_keeps_value}
use rust_low_latency_trading.Position.Series.{Fill, fill_all, filled, fill_all_lem}

abbrev fills : List Fill
fills =
    record { side = buy; qty = 100; price = pos 50 }
    ∷ record { side = buy; qty = 100; price = pos 61 }
    ∷ record { side = sell; qty = 250; price = pos 60 }
    ∷ []

fill_all_lem_example :
    (q : Position) × (fill_all (new 1) fills ≡ done q)
    × (q.position ≡ pos (filled buy fills) -ℤ pos (filled sell fills))
    × (q.volume_traded ≡ filled buy fills + filled sell fills)
    × (q.open_buy_qty ≡ 0)
    × (q.open_sell_qty ≡ 0)
fill_all_lem_example = fill_all_lem 1 fills (omega arith)

-- The average of 50 and 61 is cut to 55, and the fifty sold beyond the position are open at 60.
turned_round :
    (fill_all (new 1) fills >>= λ q.
    done (q.position ∷ q.realized_pnl ∷ q.avg_open_price ∷ q.unrealized_pnl ∷ []))
    ≡ done (negsuc 49 ∷ pos 1000 ∷ pos 60 ∷ pos 0 ∷ [])
unfolding fill_all on_fill unrealized_at I64.wrap ◌+ℤ◌ ◌-ℤ◌ ◌*ℤ◌
turned_round = refl

-- A short position of 10 at 50 that is bought back, and 20 more, at 47.
abbrev short : Position
short = record (new 1) { position = negsuc 9; avg_open_price = pos 50; last_price = pos 52 }

on_fill_keeps_value_example :
    (q : Position) × (on_fill short buy 30 (pos 47) ≡ done q)
    × (total_pnl q ≡ total_pnl (update_market_price short (pos 47)))
unfolding magnitude
on_fill_keeps_value_example = on_fill_keeps_value short buy 30 (pos 47) (omega arith) (inr refl)
