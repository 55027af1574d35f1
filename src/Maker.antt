-- ===== src/Maker.antt =====
-- trading/src/strategies/market_maker.rs: quotes around the fair value.
pub mod Quotes
mod Tests
use rust_low_latency_trading.Prelude.{
  ℕ, ◌≤◌, Bool, true, false, not, ◌&&◌, ◌||◌, Option, none, some, if◌then◌else◌, ltb, leb, ◌≡◌,
}
use rust_low_latency_trading.Prelude.Int.{ℤ, pos, negsuc, ltb_ℤ}
use rust_low_latency_trading.Prelude.I64
use rust_low_latency_trading.Prelude.Map.{◌==◌, ℤ_eq}
use rust_low_latency_trading.Prelude.Run.{Run, done, fault, ◌>>=◌}
use rust_low_latency_trading.Types.{TickerId, Price, Qty, buy, sell}
use rust_low_latency_trading.Trade.Actions.{OrderRequest, QuotePair, StrategyAction, nothing, quote}
use rust_low_latency_trading.Float.{Float, zero_f, one_f, clamp}
use rust_low_latency_trading.Features.{TickerFeatures, is_valid}

-- `u32::clamp`, which panics if the bounds are out of order.
unfoldable pub clamp_u32 : ℕ → ℕ → ℕ → Run ℕ
clamp_u32 n low high =
    if ltb high low then fault else done (if ltb n low then low else if ltb high n then high else n)

-- The larger of two prices.
abbrev pub max_price : Price → Price → Price
max_price a b = if ltb_ℤ b a then a else b

module _ (f : Float) where
  open f use {F, decimal, of_int, of_nat, add, sub, mul, div, abs, min, max, lt, to_i64, to_u32}

  pub record MarketMakerConfig : Type 0 where
    pub ticker_id : TickerId
    pub half_spread : Price
    pub min_spread : Price
    pub base_qty : Qty
    pub max_qty : Qty
    pub price_update_threshold : Price
    pub position_skew_factor : F
    pub max_position : ℤ

  abbrev pub default_config : MarketMakerConfig
  default_config = record {
    ticker_id = 0;
    half_spread = pos 50;
    min_spread = pos 20;
    base_qty = 100;
    max_qty = 500;
    price_update_threshold = pos 10;
    position_skew_factor = decimal (pos 5) 1;
    max_position = pos 1000;
  }

  abbrev pub new_config : TickerId → MarketMakerConfig
  new_config id = record default_config { ticker_id = id }

  abbrev pub with_half_spread : MarketMakerConfig → Price → MarketMakerConfig
  with_half_spread c half_spread = record c { half_spread = half_spread }

  abbrev pub with_min_spread : MarketMakerConfig → Price → MarketMakerConfig
  with_min_spread c min_spread = record c { min_spread = min_spread }

  abbrev pub with_base_qty : MarketMakerConfig → Qty → MarketMakerConfig
  with_base_qty c base_qty = record c { base_qty = base_qty }

  abbrev pub with_max_qty : MarketMakerConfig → Qty → MarketMakerConfig
  with_max_qty c max_qty = record c { max_qty = max_qty }

  abbrev pub with_price_threshold : MarketMakerConfig → Price → MarketMakerConfig
  with_price_threshold c threshold = record c { price_update_threshold = threshold }

  abbrev pub with_position_skew : MarketMakerConfig → F → MarketMakerConfig
  with_position_skew c factor = record c {
    position_skew_factor = clamp f factor (zero_f f) (one_f f);
  }

  abbrev pub with_max_position : MarketMakerConfig → ℤ → MarketMakerConfig
  with_max_position c max_position = record c { max_position = max_position }

  pub record MarketMaker : Type 0 where
    pub config : MarketMakerConfig
    pub last_bid_price : Price
    pub last_ask_price : Price
    pub current_position : ℤ
    pub active : Bool

  abbrev pub new : MarketMakerConfig → MarketMaker
  new config = record {
    config = config;
    last_bid_price = pos 0;
    last_ask_price = pos 0;
    current_position = pos 0;
    active = true;
  }

  abbrev pub for_ticker : TickerId → MarketMaker
  for_ticker id = new (new_config id)

  abbrev pub set_position : MarketMaker → ℤ → MarketMaker
  set_position m position = record m { current_position = position }

  abbrev pub activate : MarketMaker → MarketMaker
  activate m = record m { active = true }

  abbrev pub deactivate : MarketMaker → MarketMaker
  deactivate m = record m { active = false }

  -- The half of the spread, widened by the imbalance.
  abbrev pub adjusted_half_spread : MarketMaker → TickerFeatures f → Price
  adjusted_half_spread m t =
      let adjustment =
        to_i64 (mul (mul (abs t.imbalance) (of_int m.config.half_spread)) (decimal (pos 5) 1)) in
      max_price (I64.add m.config.half_spread adjustment) m.config.min_spread

  abbrev pub imbalance_skew : MarketMaker → TickerFeatures f → Price
  imbalance_skew m t =
      to_i64 (mul (mul t.imbalance (of_int (adjusted_half_spread m t))) (decimal (pos 2) 1))

  unfoldable pub calculate_quotes : MarketMaker → TickerFeatures f → Price × Price
  calculate_quotes m t =
      let half = adjusted_half_spread m t in
      let skew = imbalance_skew m t in
      let bid_price = I64.sub (I64.sub t.fair_value half) skew in
      let ask_price = I64.sub (I64.add t.fair_value half) skew in
      (I64.min bid_price (I64.sub ask_price (pos 1)), ask_price)

  abbrev pub position_ratio : MarketMaker → F
  position_ratio m =
      let max_pos = of_int m.config.max_position in
      if lt (zero_f f) max_pos
      then clamp f (div (of_int m.current_position) max_pos) (decimal (negsuc 0) 0) (one_f f)
      else zero_f f

  -- The quantities before the limits of the position.
  abbrev pub bid_size : MarketMaker → ℕ
  bid_size m =
      let factor =
        sub (one_f f) (max (mul m.config.position_skew_factor (position_ratio m)) (zero_f f)) in
      to_u32 (mul (of_nat m.config.base_qty) factor)

  abbrev pub ask_size : MarketMaker → ℕ
  ask_size m =
      let factor =
        add (one_f f) (min (mul m.config.position_skew_factor (position_ratio m)) (zero_f f)) in
      to_u32 (mul (of_nat m.config.base_qty) factor)

  unfoldable pub calculate_quantities : MarketMaker → Run (Qty × Qty)
  unfolding clamp_u32
  calculate_quantities m = do
    bid_qty ← clamp_u32 (bid_size m) 1 m.config.max_qty
    ask_qty ← clamp_u32 (ask_size m) 1 m.config.max_qty
    done (
      if ltb_ℤ m.current_position m.config.max_position then bid_qty else 0,
      if ltb_ℤ (I64.neg m.config.max_position) m.current_position then ask_qty else 0,
    )

  -- Whether a price has moved by the threshold at least.
  abbrev pub moved : MarketMaker → Price → Price → Bool
  moved m price last = not (ltb_ℤ (I64.abs (I64.sub price last)) m.config.price_update_threshold)

  unfoldable pub should_update_quotes : MarketMaker → Price → Price → Bool
  should_update_quotes m new_bid new_ask =
      if (m.last_bid_price == pos 0) || (m.last_ask_price == pos 0)
      then true
      else moved m new_bid m.last_bid_price || moved m new_ask m.last_ask_price

  abbrev pub build_quote_pair : MarketMaker → Price → Qty → Price → Qty → QuotePair
  build_quote_pair m bid_price bid_qty ask_price ask_qty = record {
    bid =
        if ltb 0 bid_qty
        then some
            record { ticker_id = m.config.ticker_id; side = buy; price = bid_price; qty = bid_qty }
        else none;
    ask =
        if ltb 0 ask_qty
        then some
            record { ticker_id = m.config.ticker_id; side = sell; price = ask_price; qty = ask_qty }
        else none;
  }

  -- The branch that quotes anew.
  unfoldable pub requote : MarketMaker → Price → Price → Run (StrategyAction × MarketMaker)
  unfolding calculate_quantities
  requote m bid_price ask_price = do
    q ← calculate_quantities m
    done (
      quote (build_quote_pair m bid_price (q.0) ask_price (q.1)),
      record m { last_bid_price = bid_price; last_ask_price = ask_price },
    )

  unfoldable pub on_features : MarketMaker → TickerFeatures f → Run (StrategyAction × MarketMaker)
  unfolding calculate_quotes should_update_quotes requote
  on_features m t =
      let quotes = calculate_quotes m t in
      if not m.active
      then done (nothing, m)
      else if not (is_valid f t)
      then done (nothing, m)
      else if should_update_quotes m (quotes.0) (quotes.1)
      then requote m (quotes.0) (quotes.1)
      else done (nothing, m)

  abbrev pub reset : MarketMaker → MarketMaker
  reset m = record m { last_bid_price = pos 0; last_ask_price = pos 0 }
