-- ===== src/Taker.antt =====
-- trading/src/strategies/liquidity_taker.rs: aggressive orders on a strong signal.
pub mod Orders
pub mod Pace
pub mod Interval
mod Tests
use rust_low_latency_trading.Prelude.{
  ℕ, ◌+◌, ◌*◌, ◌/◌, Bool, true, false, not, ◌&&◌, ◌||◌, Option, none, some, if◌then◌else◌, ltb, leb,
  ◌==◌, wrap64,
}
use rust_low_latency_trading.Prelude.Int.{ℤ, pos, negsuc, ltb_ℤ}
use rust_low_latency_trading.Prelude.I64
use rust_low_latency_trading.Prelude.Run.{Run, done, fault, ◌>>=◌}
use rust_low_latency_trading.Types.{TickerId, Price, Qty, Side, buy, sell}
use rust_low_latency_trading.Trade.Actions.{OrderRequest, StrategyAction, nothing, take}
use rust_low_latency_trading.Float.{Float, zero_f, one_f, clamp}
use rust_low_latency_trading.Features.{TickerFeatures, is_valid}
use rust_low_latency_trading.Maker.{clamp_u32}

module _ (f : Float) where
  open f use {
    F, decimal, of_int, of_nat, add, sub, mul, div, neg, abs, max, lt, to_i64, to_u32, to_u64,
  }

  pub record LiquidityTakerConfig : Type 0 where
    pub ticker_id : TickerId
    pub buy_threshold : F
    pub sell_threshold : F
    pub base_qty : Qty
    pub max_qty : Qty
    pub scale_with_signal : Bool
    pub aggression_bps : ℕ
    pub min_order_interval_ns : ℕ
    pub max_position : ℤ
    pub cooldown_factor : F

  abbrev pub default_config : LiquidityTakerConfig
  default_config = record {
    ticker_id = 0;
    buy_threshold = decimal (pos 3) 1;
    sell_threshold = neg (decimal (pos 3) 1);
    base_qty = 100;
    max_qty = 500;
    scale_with_signal = true;
    aggression_bps = 10;
    min_order_interval_ns = 100000000;
    max_position = pos 5000;
    cooldown_factor = decimal (pos 2) 0;
  }

  abbrev pub new_config : TickerId → LiquidityTakerConfig
  new_config id = record default_config { ticker_id = id }

  abbrev pub with_buy_threshold : LiquidityTakerConfig → F → LiquidityTakerConfig
  with_buy_threshold c threshold = record c {
    buy_threshold = clamp f threshold (zero_f f) (one_f f);
  }

  abbrev pub with_sell_threshold : LiquidityTakerConfig → F → LiquidityTakerConfig
  with_sell_threshold c threshold = record c {
    sell_threshold = clamp f threshold (neg (one_f f)) (zero_f f);
  }

  abbrev pub with_threshold : LiquidityTakerConfig → F → LiquidityTakerConfig
  with_threshold c threshold =
      let size = clamp f (abs threshold) (zero_f f) (one_f f) in
      record c { buy_threshold = size; sell_threshold = neg size }

  abbrev pub with_base_qty : LiquidityTakerConfig → Qty → LiquidityTakerConfig
  with_base_qty c base_qty = record c { base_qty = base_qty }

  abbrev pub with_max_qty : LiquidityTakerConfig → Qty → LiquidityTakerConfig
  with_max_qty c max_qty = record c { max_qty = max_qty }

  abbrev pub with_signal_scaling : LiquidityTakerConfig → Bool → LiquidityTakerConfig
  with_signal_scaling c enabled = record c { scale_with_signal = enabled }

  abbrev pub with_aggression_bps : LiquidityTakerConfig → ℕ → LiquidityTakerConfig
  with_aggression_bps c bps = record c { aggression_bps = bps }

  abbrev pub with_min_interval_ns : LiquidityTakerConfig → ℕ → LiquidityTakerConfig
  with_min_interval_ns c interval_ns = record c { min_order_interval_ns = interval_ns }

  abbrev pub with_max_position : LiquidityTakerConfig → ℤ → LiquidityTakerConfig
  with_max_position c max_position = record c { max_position = max_position }

  abbrev pub with_cooldown_factor : LiquidityTakerConfig → F → LiquidityTakerConfig
  with_cooldown_factor c factor = record c { cooldown_factor = max factor (one_f f) }

  pub record LiquidityTaker : Type 0 where
    pub config : LiquidityTakerConfig
    pub last_order_time_ns : ℕ
    pub effective_interval_ns : ℕ
    pub current_position : ℤ
    pub active : Bool
    pub orders_sent : ℕ

  abbrev pub new : LiquidityTakerConfig → LiquidityTaker
  new config = record {
    config = config;
    last_order_time_ns = 0;
    effective_interval_ns = config.min_order_interval_ns;
    current_position = pos 0;
    active = true;
    orders_sent = 0;
  }

  abbrev pub for_ticker : TickerId → LiquidityTaker
  for_ticker id = new (new_config id)

  abbrev pub set_position : LiquidityTaker → ℤ → LiquidityTaker
  set_position k position = record k { current_position = position }

  abbrev pub activate : LiquidityTaker → LiquidityTaker
  activate k = record k { active = true }

  abbrev pub deactivate : LiquidityTaker → LiquidityTaker
  deactivate k = record k { active = false }

  abbrev pub can_send_order : LiquidityTaker → ℕ → Bool
  can_send_order k now =
      if k.last_order_time_ns == 0
      then true
      else leb (wrap64 (k.last_order_time_ns + k.effective_interval_ns)) now

  -- The interval after an order: longer by the factor, and ten times the least one at most.
  abbrev pub cooled : LiquidityTaker → ℕ
  cooled k =
      let longer = to_u64 (mul (of_nat k.effective_interval_ns) k.config.cooldown_factor) in
      let most = wrap64 (k.config.min_order_interval_ns * 10) in
      if ltb most longer then most else longer

  unfoldable pub record_order : LiquidityTaker → ℕ → LiquidityTaker
  record_order k now = record k {
    last_order_time_ns = now;
    orders_sent = wrap64 (k.orders_sent + 1);
    effective_interval_ns = cooled k;
  }

  abbrev pub reset_cooldown : LiquidityTaker → LiquidityTaker
  reset_cooldown k = record k { effective_interval_ns = k.config.min_order_interval_ns }

  -- The quantity by the strength of the signal, before it is clamped.
  abbrev pub scaled : LiquidityTaker → F → ℕ
  scaled k signal =
      let threshold =
        if lt (zero_f f) signal then k.config.buy_threshold else abs k.config.sell_threshold in
      let excess = div (sub (abs signal) threshold) (sub (one_f f) threshold) in
      let factor = clamp f excess (zero_f f) (one_f f) in
      let base = of_nat k.config.base_qty in
      let most = of_nat k.config.max_qty in to_u32 (add base (mul (sub most base) factor))

  unfoldable pub calculate_quantity : LiquidityTaker → F → Run Qty
  unfolding clamp_u32
  calculate_quantity k signal =
      if k.config.scale_with_signal
      then clamp_u32 (scaled k signal) 1 k.config.max_qty
      else done k.config.base_qty

  -- How far an order crosses the spread.
  abbrev pub aggression : LiquidityTaker → Price → Price
  aggression k price =
      to_i64 (div (mul (of_int price) (of_nat k.config.aggression_bps)) (decimal (pos 10000) 0))

  -- `create_buy_order` and `create_sell_order`, which differ in the price and the side.
  abbrev pub create_order : LiquidityTaker → Side → Price → Qty → Option OrderRequest
  create_order k side price qty =
      if qty == 0
      then none
      else some record { ticker_id = k.config.ticker_id; side = side; price = price; qty = qty }

  abbrev pub create_buy_order : LiquidityTaker → F → Price → Run (Option OrderRequest)
  create_buy_order k signal best_ask = do
    qty ← calculate_quantity k signal
    done (create_order k buy (I64.add best_ask (aggression k best_ask)) qty)

  abbrev pub create_sell_order : LiquidityTaker → F → Price → Run (Option OrderRequest)
  create_sell_order k signal best_bid = do
    qty ← calculate_quantity k signal
    done (create_order k sell (I64.sub best_bid (aggression k best_bid)) qty)

  -- An order that is sent is recorded; without one, what follows is done.
  abbrev pub sends :
      LiquidityTaker
      → ℕ
      → Option OrderRequest
      → Run (StrategyAction × LiquidityTaker)
      → Run (StrategyAction × LiquidityTaker)
  sends k now (some o) rest = done (take o, record_order k now)
  sends k now none rest = rest

  -- Whether the position forbids to buy, and to sell.
  abbrev pub is_long : LiquidityTaker → Bool
  is_long k =
      ltb_ℤ (pos 0) k.config.max_position && not (ltb_ℤ k.current_position k.config.max_position)

  abbrev pub is_short : LiquidityTaker → Bool
  is_short k =
      ltb_ℤ (pos 0) k.config.max_position
      && not (ltb_ℤ (I64.neg k.config.max_position) k.current_position)

  -- The part of `on_features` on a selling signal.
  unfoldable pub try_sell : LiquidityTaker → F → ℕ → Price → Run (StrategyAction × LiquidityTaker)
  try_sell k signal now best_bid =
      if lt signal k.config.sell_threshold
      then (if is_short k
          then done (nothing, k)
          else (do o ← create_sell_order k signal best_bid; sends k now o (done (nothing, k))))
      else done (nothing, k)

  -- The part on a buying signal, which goes on to the selling one where it makes no order.
  unfoldable pub try_buy :
      LiquidityTaker → F → ℕ → Price → Price → Run (StrategyAction × LiquidityTaker)
  try_buy k signal now best_bid best_ask =
      if lt k.config.buy_threshold signal
      then (if is_long k then done (nothing, k) else (do
        o ← create_buy_order k signal best_ask
        sends k now o (try_sell k signal now best_bid)))
      else try_sell k signal now best_bid

  unfoldable pub on_features :
      LiquidityTaker → TickerFeatures f → ℕ → Price → Price → Run (StrategyAction × LiquidityTaker)
  on_features k t now best_bid best_ask =
      if not k.active
      then done (nothing, k)
      else if not (is_valid f t)
      then done (nothing, k)
      else if not (can_send_order k now)
      then done (nothing, k)
      else try_buy k t.trade_signal now best_bid best_ask

  abbrev pub on_features_simple :
      LiquidityTaker → TickerFeatures f → ℕ → Run (StrategyAction × LiquidityTaker)
  on_features_simple k t now =
      let half = I64.quotient t.spread (pos 2) in
      on_features k t now (I64.sub t.mid_price half) (I64.add t.mid_price half)

  unfoldable pub on_fill : LiquidityTaker → LiquidityTaker
  on_fill k =
      let half = k.effective_interval_ns / 2 in
      record k {
        effective_interval_ns =
            if ltb half k.config.min_order_interval_ns
            then k.config.min_order_interval_ns
            else half;
      }

  abbrev pub reset : LiquidityTaker → LiquidityTaker
  reset k = record k {
    last_order_time_ns = 0;
    effective_interval_ns = k.config.min_order_interval_ns;
    orders_sent = 0;
  }
