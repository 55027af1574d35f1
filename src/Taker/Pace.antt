-- ===== src/Taker/Pace.antt =====
-- trading/src/strategies/liquidity_taker.rs: the bounds of the interval between orders.
use rust_low_latency_trading.Prelude.{ℕ, ◌*◌, ◌^◌, ◌≤◌, ◌<◌, arith}
use rust_low_latency_trading.Float.{Float}
use rust_low_latency_trading.Taker.{LiquidityTakerConfig, LiquidityTaker, record_order, on_fill}

module _ (f : Float) where
  -- A cooldown factor under which no interval of less than 2^53 nanoseconds gets shorter, as under any
  -- factor of 1 or more: such numbers are floats, and rounding keeps the order.
  abbrev pub Grows : f.F → Type 0
  Grows factor = (n : ℕ) → n < 2 ^ 53 → n ≤ f.to_u64 (f.mul (f.of_nat n) factor)

  -- The interval is from the least one up to ten times that.
  pub record IsPaced (k : LiquidityTaker f) : Type 0 where
    pub low : k.config.min_order_interval_ns ≤ k.effective_interval_ns
    pub high : k.effective_interval_ns ≤ k.config.min_order_interval_ns * 10

  -- A configuration whose intervals are small and do not get shorter.
  pub record IsCalm (c : LiquidityTakerConfig f) : Type 0 where
    pub short : c.min_order_interval_ns * 10 < 2 ^ 53
    pub grows : Grows c.cooldown_factor

  pub record_order-IsPaced :
      (k : LiquidityTaker f) (now : ℕ)
      → IsCalm k.config
      → IsPaced k
      → IsPaced (record_order f k now)
  unfolding record_order
  record_order-IsPaced k now c p =
      let longer = c.grows k.effective_interval_ns (omega (arith, c.short, p.high)) in
      record { low = ground (arith, longer, p.low, c.short); high = ground (arith, c.short) }

  pub on_fill-IsPaced : (k : LiquidityTaker f) → IsPaced k → IsPaced (on_fill f k)
  unfolding on_fill
  on_fill-IsPaced k p = record { low = ground arith; high = ground (arith, p.high, p.low) }
