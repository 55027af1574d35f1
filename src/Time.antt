-- ===== src/Time.antt =====
-- common/src/time.rs: time stamps in nanoseconds and the statistics of latencies. The clock is an
-- argument.
pub mod Latency
mod Tests
use rust_low_latency_trading.Prelude.{
  ℕ, ◌+◌, ◌-◌, ◌^◌, Bool, if◌then◌else◌, ltb, ◌==◌, wrap64, List, [], ◌∷◌,
}
use rust_low_latency_trading.Float.{Float, zero_f}

abbrev pub u64_max : ℕ
u64_max = 2 ^ 64 - 1

abbrev pub Nanos : Type 0
Nanos = ℕ

-- `Sub for Nanos` and `nanos_since`, from the later time: a number of ℕ stops at 0 as
-- `saturating_sub` does.
abbrev pub since : Nanos → Nanos → ℕ
since now start = now - start

-- `u64::saturating_add`, of `Add for Nanos` and of the sum of latencies.
abbrev pub saturating_add : ℕ → ℕ → ℕ
saturating_add a b = if ltb u64_max (a + b) then u64_max else a + b

pub record LatencyStats : Type 0 where
  pub count : ℕ
  pub sum : ℕ
  pub min : ℕ
  pub max : ℕ

abbrev pub new : LatencyStats
new = record { count = 0; sum = 0; min = u64_max; max = 0 }

-- `record`
unfoldable pub measure : LatencyStats → ℕ → LatencyStats
measure s latency = record {
  count = wrap64 (s.count + 1);
  sum = saturating_add s.sum latency;
  min = if ltb latency s.min then latency else s.min;
  max = if ltb s.max latency then latency else s.max;
}

module _ (f : Float) where
  abbrev pub mean : LatencyStats → f.F
  mean s = if s.count == 0 then zero_f f else f.div (f.of_nat s.sum) (f.of_nat s.count)

abbrev pub reset : LatencyStats → LatencyStats
reset s = new

-- A `ScopedTimer` that started at `start` and is dropped at `now`.
abbrev pub drop_timer : LatencyStats → Nanos → Nanos → LatencyStats
drop_timer s start now = measure s (since now start)
