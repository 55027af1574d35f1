-- ===== src/Position/Keeper/Tests.antt =====
-- trading/src/position.rs: a keeper with one fill.
use rust_low_latency_trading.Prelude.{◌≡◌, arith, some}
use rust_low_latency_trading.Prelude.Int.{pos, ◌+ℤ◌}
use rust_low_latency_trading.Prelude.Run.{done}
use rust_low_latency_trading.Prelude.Map.{lookup, ℕ_eq}
use rust_low_latency_trading.Types.{buy}
use rust_low_latency_trading.Position.{Position}
use rust_low_latency_trading.Position.Fills.{magnitude}
use rust_low_latency_trading.Position.Keeper.{PositionKeeper, new, on_fill}
use rust_low_latency_trading.Position.Keeper.Total.{
  IsKeeper, SameBeside, new-IsKeeper, on_fill_keeps_total,
}

on_fill_keeps_total_example :
    (k : PositionKeeper) × (q : Position) × (on_fill new 3 buy 100 (pos 50) ≡ done k)
    × IsKeeper k
    × (lookup 3 k.positions ≡ some q)
    × (q.position ≡ pos 0 +ℤ pos 100)
    × SameBeside 3 new k
unfolding lookup magnitude
on_fill_keeps_total_example = on_fill_keeps_total new 3 buy 100 (pos 50) new-IsKeeper (omega arith)
