-- ===== src/Taker/Orders.antt =====
-- trading/src/strategies/liquidity_taker.rs: what the liquidity taker orders, whatever the arithmetic
-- of its floats.
use rust_low_latency_trading.Prelude.{
  ℕ, ◌+◌, ◌≤◌, ◌&&◌, wrap64, ◌<◌, ◌≡◌, ◌⊎◌, refl, ◌∙◌, arith, inl, inr, Bool, true, false, not,
  if◌then◌else◌, ◌==◌, Bool-cases,
}
use rust_low_latency_trading.Prelude.Int.{ℤ, pos, ltb_ℤ, ◌≤ℤ◌}
use rust_low_latency_trading.Prelude.I64
use rust_low_latency_trading.Prelude.Run.{Run, done}
use rust_low_latency_trading.Types.{Price, Side, buy, sell}
use rust_low_latency_trading.Trade.Actions.{
  OrderRequest, StrategyAction, nothing, quote, take, cancel_all,
}
use rust_low_latency_trading.Float.{Float}
use rust_low_latency_trading.Features.{TickerFeatures, is_valid}
use rust_low_latency_trading.Maker.Quotes.{clamp_u32_lem}
use rust_low_latency_trading.Taker.{
  LiquidityTaker, can_send_order, record_order, scaled, calculate_quantity, create_order, sends,
  is_long, is_short, try_sell, try_buy, on_features,
}

if_true {ℓ} : {A : Type ℓ} (x y : A) (b : Bool) → b ≡ true → (if b then x else y) ≡ x
if_true x y true e = refl
if_true x y false e = cc

if_false {ℓ} : {A : Type ℓ} (x y : A) (b : Bool) → b ≡ false → (if b then x else y) ≡ y
if_false x y true e = cc
if_false x y false e = refl

both_left : (a b : Bool) → (a && b) ≡ true → a ≡ true
both_left true b e = refl
both_left false b e = cc

both_right : (a b : Bool) → (a && b) ≡ true → b ≡ true
both_right true b e = e
both_right false b e = cc

-- The three tests of `on_features`, all passed.
gates_open {ℓ} :
    {A : Type ℓ} (active valid ready : Bool) (idle acts : A)
    → active ≡ true
    → valid ≡ true
    → ready ≡ true
    → (if not active then idle else if not valid then idle else if not ready then idle else acts)
      ≡ acts
gates_open active valid ready idle acts a v r = rw (a, v, r) refl

-- A test of a limit that is above 0 has failed.
limit_or_room :
    (limit : ℤ) (room : Bool)
    → (ltb_ℤ (pos 0) limit && not room) ≡ false
    → (limit ≤ℤ pos 0) ⊎ (room ≡ true)
limit_or_room limit true e = inr refl
limit_or_room limit false e = inl (ground (arith, e))

module _ (f : Float) where
  -- A quantity that does not scale, or is the greatest one at most.
  abbrev pub SizeOf : LiquidityTaker f → ℕ → Type 0
  SizeOf k q = (k.config.scale_with_signal ≡ false) ⊎ (q ≤ k.config.max_qty)

  -- The position has not reached the limit on either side; a limit that is not above 0 is none.
  abbrev pub MayBuy : LiquidityTaker f → Type 0
  MayBuy k =
      (k.config.max_position ≤ℤ pos 0) ⊎ (ltb_ℤ k.current_position k.config.max_position ≡ true)

  abbrev pub MaySell : LiquidityTaker f → Type 0
  MaySell k =
      (k.config.max_position ≤ℤ pos 0)
      ⊎ (ltb_ℤ (I64.neg k.config.max_position) k.current_position ≡ true)

  is_long-MayBuy : (k : LiquidityTaker f) → is_long f k ≡ false → MayBuy k
  is_long-MayBuy k room = limit_or_room k.config.max_position _ room

  is_short-MaySell : (k : LiquidityTaker f) → is_short f k ≡ false → MaySell k
  is_short-MaySell k room = limit_or_room k.config.max_position _ room

  -- The order that is sent: of the ticker, of some quantity, by the side's rule.
  abbrev pub IsOrder : LiquidityTaker f → f.F → OrderRequest → Type 0
  IsOrder k signal o =
      (o.ticker_id ≡ k.config.ticker_id)
      × (0 < o.qty)
      × SizeOf k o.qty
      × (((o.side ≡ buy) × (f.lt k.config.buy_threshold signal ≡ true) × MayBuy k)
          ⊎ ((o.side ≡ sell) × (f.lt signal k.config.sell_threshold ≡ true) × MaySell k))

  -- Nothing, and the taker stays as it was; or an order, which is recorded.
  abbrev pub IsDecision : LiquidityTaker f → f.F → ℕ → StrategyAction → LiquidityTaker f → Type 0
  IsDecision k signal now nothing k' = k' ≡ k
  IsDecision k signal now (take o) k' =
      (k' ≡ record_order f k now) × (k'.last_order_time_ns ≡ now) × IsOrder k signal o
  IsDecision k signal now (quote q) k' = ⊥
  IsDecision k signal now (cancel_all t) k' = ⊥

  abbrev Decides : LiquidityTaker f → f.F → ℕ → Run (StrategyAction × LiquidityTaker f) → Type 0
  Decides k signal now r =
      (action : StrategyAction) × (k' : LiquidityTaker f) × (r ≡ done (action, k'))
      × IsDecision k signal now action k'

  calculate_quantity_lem :
      (k : LiquidityTaker f) (signal : f.F)
      → 1 ≤ k.config.max_qty
      → (q : ℕ) × (calculate_quantity f k signal ≡ done q) × SizeOf k q
  unfolding calculate_quantity
  calculate_quantity_lem k signal h = elim (Bool-cases k.config.scale_with_signal) [
    | inl scales ↦
        let q = clamp_u32_lem (scaled f k signal) k.config.max_qty h in
        (q.0, if_true _ _ k.config.scale_with_signal scales ∙ q.1, inr q.3)
    | inr plain ↦ (k.config.base_qty, if_false _ _ k.config.scale_with_signal plain, inl plain)
  ]

  -- One side: an order, unless the quantity is 0.
  side_decides :
      (k : LiquidityTaker f) (signal : f.F) (now : ℕ) (side : Side) (price : Price) (q : ℕ)
      (rest : Run (StrategyAction × LiquidityTaker f))
      → SizeOf k q
      → ((side ≡ buy) × (f.lt k.config.buy_threshold signal ≡ true) × MayBuy k)
        ⊎ ((side ≡ sell) × (f.lt signal k.config.sell_threshold ≡ true) × MaySell k)
      → Decides k signal now rest
      → Decides k signal now (sends f k now (create_order f k side price q) rest)
  unfolding record_order
  side_decides k signal now side price q rest small rule others = elim (Bool-cases (q == 0)) [
    | inl zero_qty ↦ rw zero_qty others
    | inr some_qty ↦ rw some_qty (
      take record { ticker_id = k.config.ticker_id; side = side; price = price; qty = q },
      record_order f k now,
      refl,
      (refl, refl, (refl, ground arith, small, rule)),
    )
  ]

  stays : (k : LiquidityTaker f) (signal : f.F) (now : ℕ) → Decides k signal now (done (nothing, k))
  stays k signal now = (nothing, k, refl, refl)

  try_sell-Decides :
      (k : LiquidityTaker f) (signal : f.F) (now : ℕ) (best_bid : Price)
      → 1 ≤ k.config.max_qty
      → Decides k signal now (try_sell f k signal now best_bid)
  unfolding try_sell
  try_sell-Decides k signal now best_bid h =
      elim (Bool-cases (f.lt signal k.config.sell_threshold)) [
        | inr weak ↦ rw (try_sell, weak) (stays k signal now)
        | inl strong ↦ elim (Bool-cases (is_short f k)) [
          | inl full ↦ rw (try_sell, strong, full) (stays k signal now)
          | inr room ↦
              let q = calculate_quantity_lem k signal h in
              rw (try_sell, strong, room, q.1)
                (side_decides k signal now sell _ (q.0) _ (q.2)
                  (inr (refl, strong, is_short-MaySell k room)) (stays k signal now))
        ]
      ]

  try_buy-Decides :
      (k : LiquidityTaker f) (signal : f.F) (now : ℕ) (best_bid best_ask : Price)
      → 1 ≤ k.config.max_qty
      → Decides k signal now (try_buy f k signal now best_bid best_ask)
  unfolding try_buy
  try_buy-Decides k signal now best_bid best_ask h =
      let others = try_sell-Decides k signal now best_bid h in
      elim (Bool-cases (f.lt k.config.buy_threshold signal)) [
        | inr weak ↦ rw (try_buy, weak) others
        | inl strong ↦ elim (Bool-cases (is_long f k)) [
          | inl full ↦ rw (try_buy, strong, full) (stays k signal now)
          | inr room ↦
              let q = calculate_quantity_lem k signal h in
              rw (try_buy, strong, room, q.1)
                (side_decides k signal now buy _ (q.0) _ (q.2)
                  (inl (refl, strong, is_long-MayBuy k room)) others)
        ]
      ]

  -- An order comes only from an active taker, on valid features, at a time that the interval allows.
  abbrev pub Allows : LiquidityTaker f → TickerFeatures f → ℕ → StrategyAction → Type 0
  Allows k t now (take o) =
      (k.active ≡ true)
      × (ltb_ℤ (pos 0) t.mid_price ≡ true)
      × (ltb_ℤ (pos 0) t.fair_value ≡ true)
      × ((k.last_order_time_ns ≡ 0)
          ⊎ (wrap64 (k.last_order_time_ns + k.effective_interval_ns) ≤ now))
  Allows k t now nothing = Unit {0}
  Allows k t now (quote q) = ⊥
  Allows k t now (cancel_all i) = ⊥

  interval_over :
      (k : LiquidityTaker f) (now : ℕ)
      → can_send_order f k now ≡ true
      → (k.last_order_time_ns ≡ 0) ⊎ (wrap64 (k.last_order_time_ns + k.effective_interval_ns) ≤ now)
  interval_over k now c = elim (Bool-cases (k.last_order_time_ns == 0)) [
    | inl zero_time ↦ inl (ground arith)
    | inr later ↦ inr (ground arith)
  ]

  allowed :
      (k : LiquidityTaker f) (t : TickerFeatures f) (now : ℕ) (action : StrategyAction)
      (k' : LiquidityTaker f)
      → k.active ≡ true
      → is_valid f t ≡ true
      → can_send_order f k now ≡ true
      → IsDecision k t.trade_signal now action k'
      → Allows k t now action
  allowed k t now nothing k' a v c d = tt
  allowed k t now (take o) k' a v c d =
      (a, both_left _ _ v, both_right _ _ v, interval_over k now c)
  allowed k t now (quote q) k' a v c d = d
  allowed k t now (cancel_all i) k' a v c d = d

  -- The liquidity taker never fails where its greatest quantity is at least 1. It does nothing and
  -- stays as it was; or it sends one order and records its time: only while it is active, on features
  -- whose mid price and fair value are above 0, and when there was no order yet or the interval since
  -- the last one is over, by the sum that wraps around; of its ticker, of a quantity above 0 and, if it
  -- scales with the signal, up to the greatest one; to buy only on a signal above the one threshold, to
  -- sell only on a signal below the other; and, where the limit on the position is above 0, to buy only
  -- with a position below it and to sell only with one above its negative. So it is whatever the
  -- arithmetic of the floats gives.
  pub on_features-IsDecision :
      (k : LiquidityTaker f) (t : TickerFeatures f) (now : ℕ) (best_bid best_ask : Price)
      → 1 ≤ k.config.max_qty
      → (action : StrategyAction) × (k' : LiquidityTaker f) × (on_features f k t now best_bid
            best_ask
          ≡ done (action, k'))
        × IsDecision k t.trade_signal now action k'
        × Allows k t now action
  unfolding on_features
  on_features-IsDecision k t now best_bid best_ask h = elim (Bool-cases k.active) [
    | inr asleep ↦ (nothing, k, rw (on_features, asleep) refl, refl, tt)
    | inl active ↦ elim (Bool-cases (is_valid f t)) [
      | inr invalid ↦ (nothing, k, rw (on_features, active, invalid) refl, refl, tt)
      | inl valid ↦ elim (Bool-cases (can_send_order f k now)) [
        | inr early ↦ (nothing, k, rw (on_features, active, valid, early) refl, refl, tt)
        | inl ready ↦
            let d = try_buy-Decides k t.trade_signal now best_bid best_ask h in
            (
              d.0,
              d.1,
              gates_open k.active (is_valid f t) (can_send_order f k now) _ _ active valid ready
                  ∙ d.2,
              d.3,
              allowed k t now (d.0) (d.1) active valid ready (d.3),
            )
      ]
    ]
  ]
