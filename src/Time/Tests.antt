-- ===== src/Time/Tests.antt =====
-- common/src/time.rs: runs of the statistics, and an instance of their theorem.
use rust_low_latency_trading.Prelude.{ℕ, ◌≡◌, refl, arith, List, [], ◌∷◌}
use rust_low_latency_trading.Prelude.Lists.{All}
use rust_low_latency_trading.Time.{new, measure}
use rust_low_latency_trading.Time.Latency.{
  measure_all, IsStats, InRange, Attained, measure_all_bounds,
}

abbrev latencies : List ℕ
latencies = 120 ∷ 80 ∷ 100 ∷ []

three_measured : measure_all new latencies ≡ record { count = 3; sum = 300; min = 80; max = 120 }
unfolding measure_all measure
three_measured = refl

measure_all_bounds_example :
    IsStats 3 300 (measure_all new latencies)
    × All (InRange (measure_all new latencies)) latencies
    × Attained (measure_all new latencies) latencies
measure_all_bounds_example = measure_all_bounds latencies (omega arith) (omega arith)
