-- ===== src/Features/Tests.antt =====
-- trading/src/features.rs: runs of the engine, and instances of its theorems.
use rust_low_latency_trading.Prelude.{◌≡◌, refl, arith, false, none, ◌⊎◌}
use rust_low_latency_trading.Prelude.Int.{pos, negsuc, ◌+ℤ◌, ◌-ℤ◌, ◌≤ℤ◌}
use rust_low_latency_trading.Prelude.Map.{lookup, ◌==◌, ℕ_eq, ℤ_eq}
use rust_low_latency_trading.Bbo
use rust_low_latency_trading.Float.{Within, one_f}
use rust_low_latency_trading.Float.Thousandths.{thousandths}
use rust_low_latency_trading.Features.{TickerFeatures, new, or_new, on_bbo_update}
use rust_low_latency_trading.Features.Bounds.{on_bbo_update_bounds}

abbrev quoted : Bbo.Bbo
quoted = record { bid_price = pos 10000; bid_qty = 300; ask_price = pos 10010; ask_qty = 100 }

on_bbo_update_bounds_example :
    let after = (on_bbo_update thousandths (new thousandths) 7 quoted).features in
    (t : TickerFeatures thousandths) × (lookup 8 after ≡ none)
    × (pos 10000 ≤ℤ t.mid_price)
    × (t.mid_price ≤ℤ pos 10010)
    × (t.spread ≡ pos 10010 -ℤ pos 10000)
    × ((((or_new thousandths 7 none).fair_value == pos 0) ≡ false) ⊎ (t.fair_value ≡ t.mid_price))
    × Within thousandths (thousandths.decimal (negsuc 0) 0) (one_f thousandths) t.trade_signal
unfolding lookup ◌+ℤ◌ ◌-ℤ◌
on_bbo_update_bounds_example =
    on_bbo_update_bounds thousandths (new thousandths) 7 8 quoted (omega arith)
      (record { above = omega arith; below = omega arith })
      (record { above = omega arith; below = omega arith }) refl
