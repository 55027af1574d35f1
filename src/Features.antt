-- ===== src/Features.antt =====
-- trading/src/features.rs: the features that the strategies read, computed from the best bid and
-- offer of each ticker.
pub mod Bounds
mod Tests
use rust_low_latency_trading.Prelude.{
  ℕ, Bool, true, false, not, ◌&&◌, ◌||◌, Option, none, some, List, [], ◌∷◌, if◌then◌else◌,
}
use rust_low_latency_trading.Prelude.Int.{ℤ, pos, negsuc, ltb_ℤ}
use rust_low_latency_trading.Prelude.I64
use rust_low_latency_trading.Prelude.Map.{Map, lookup, insert, size, ◌==◌, ℕ_eq, ℤ_eq}
use rust_low_latency_trading.Types.{TickerId, Price}
use rust_low_latency_trading.Bbo
use rust_low_latency_trading.Float.{Float, zero_f, one_f, clamp}

module _ (f : Float) where
  open f use {F, decimal, of_int, of_nat, add, sub, mul, div, round, eq, to_i64}

  pub record TickerFeatures : Type 0 where
    pub ticker_id : TickerId
    pub fair_value : Price
    pub spread : Price
    pub mid_price : Price
    pub imbalance : F
    pub trade_signal : F

  abbrev pub new_features : TickerId → TickerFeatures
  new_features id = record {
    ticker_id = id;
    fair_value = pos 0;
    spread = pos 0;
    mid_price = pos 0;
    imbalance = zero_f f;
    trade_signal = zero_f f;
  }

  abbrev pub is_valid : TickerFeatures → Bool
  is_valid t = ltb_ℤ (pos 0) t.mid_price && ltb_ℤ (pos 0) t.fair_value

  pub record FeatureEngine : Type 0 where
    pub features : Map TickerId TickerFeatures
    pub fair_value_alpha : F

  abbrev pub default_fair_value_alpha : F
  default_fair_value_alpha = decimal (pos 1) 1

  abbrev pub new : FeatureEngine
  new = record { features = []; fair_value_alpha = default_fair_value_alpha }

  abbrev pub with_alpha : F → FeatureEngine
  with_alpha alpha = record { features = []; fair_value_alpha = clamp f alpha (zero_f f) (one_f f) }

  unfoldable pub calculate_imbalance : Bbo.Bbo → F
  calculate_imbalance b =
      let bid_qty = of_nat b.bid_qty in
      let ask_qty = of_nat b.ask_qty in
      let total_qty = add bid_qty ask_qty in
      if eq total_qty (zero_f f) then zero_f f else div (sub bid_qty ask_qty) total_qty

  -- `calculate_trade_signal_from_features`
  unfoldable pub signal_of : TickerFeatures → F
  signal_of t =
      let deviation = of_int (I64.sub t.fair_value t.mid_price) in
      let fv_signal = clamp f (div deviation (of_int t.spread)) (decimal (negsuc 0) 0) (one_f f) in
      let combined =
        add (mul (decimal (pos 7) 1) fv_signal) (mul (decimal (pos 3) 1) t.imbalance) in
      if not (is_valid t) || not (ltb_ℤ (pos 0) t.spread)
      then zero_f f
      else clamp f combined (decimal (negsuc 0) 0) (one_f f)

  -- The smoothed mid price, which starts at the first one.
  unfoldable pub smoothed : F → Price → Price → Price
  smoothed alpha mid_price fair_value =
      let new_fv =
        add (mul alpha (of_int mid_price)) (mul (sub (one_f f) alpha) (of_int fair_value)) in
      if fair_value == pos 0 then mid_price else to_i64 (round new_fv)

  abbrev pub or_new : TickerId → Option TickerFeatures → TickerFeatures
  or_new id none = new_features id
  or_new id (some t) = t

  -- The mid price of a valid best bid and offer, by the sum that wraps around.
  abbrev pub mid_of : Bbo.Bbo → Price
  mid_of b = I64.quotient (I64.add b.bid_price b.ask_price) (pos 2)

  -- The features that an update makes of those before, but for the signal.
  unfoldable pub measured : F → Bbo.Bbo → TickerFeatures → TickerFeatures
  unfolding smoothed calculate_imbalance
  measured alpha b t = record t {
    mid_price = mid_of b;
    fair_value = smoothed alpha (mid_of b) t.fair_value;
    spread = I64.sub b.ask_price b.bid_price;
    imbalance = calculate_imbalance b;
  }

  abbrev pub signalled : TickerFeatures → TickerFeatures
  signalled t = record t { trade_signal = signal_of t }

  unfoldable pub on_bbo_update : FeatureEngine → TickerId → Bbo.Bbo → FeatureEngine
  unfolding measured signal_of
  on_bbo_update e id b = if not (Bbo.is_valid b) then e else record e {
    features =
        insert id (signalled (measured e.fair_value_alpha b (or_new id (lookup id e.features))))
          e.features;
  }

  abbrev pub get_features : FeatureEngine → TickerId → Option TickerFeatures
  get_features e id = lookup id e.features

  abbrev pub signal_or_zero : Option TickerFeatures → F
  signal_or_zero none = zero_f f
  signal_or_zero (some t) = signal_of t

  abbrev pub calculate_trade_signal : FeatureEngine → TickerId → F
  calculate_trade_signal e id = signal_or_zero (lookup id e.features)

  abbrev pub ticker_count : FeatureEngine → ℕ
  ticker_count e = size e.features

  -- An entry for each ticker that has none.
  unfoldable pub reserve_tickers : FeatureEngine → List TickerId → FeatureEngine
  reserve_tickers e [] = e
  reserve_tickers e (id ∷ ids) =
      reserve_tickers
        (record e { features = insert id (or_new id (lookup id e.features)) e.features }) ids

  abbrev pub clear : FeatureEngine → FeatureEngine
  clear e = record e { features = [] }
