-- ===== src/Maker/Tests.antt =====
-- trading/src/strategies/market_maker.rs: runs of the market maker, and instances of its theorems.
use rust_low_latency_trading.Prelude.{◌≡◌, refl, arith, Option, some}
use rust_low_latency_trading.Prelude.Int.{pos, ◌+ℤ◌, ◌-ℤ◌, ◌*ℤ◌}
use rust_low_latency_trading.Prelude.I64.{wrap}
use rust_low_latency_trading.Prelude.Run.{done}
use rust_low_latency_trading.Types.{sell}
use rust_low_latency_trading.Trade.Actions.{StrategyAction, quote}
use rust_low_latency_trading.Float.Thousandths.{thousandths}
use rust_low_latency_trading.Features.{TickerFeatures}
use rust_low_latency_trading.Maker.{
  MarketMaker, for_ticker, set_position, clamp_u32, calculate_quotes, calculate_quantities,
  should_update_quotes, requote, on_features,
}
use rust_low_latency_trading.Maker.Quotes.{IsAction, on_features-IsAction}

abbrev balanced : TickerFeatures thousandths
unfolding thousandths
balanced = record {
  ticker_id = 1;
  fair_value = pos 10000;
  spread = pos 100;
  mid_price = pos 10000;
  imbalance = pos 0;
  trade_signal = pos 0;
}

abbrev maker : MarketMaker thousandths
maker = for_ticker thousandths 1

-- At the greatest long position there is only an ask, of the base quantity.
only_ask :
    on_features thousandths (set_position thousandths maker (pos 1000)) balanced
    ≡ done (
      quote record {
        bid = Option.none;
        ask = some record { ticker_id = 1; side = sell; price = pos 10050; qty = 100 };
      },
      record (set_position thousandths maker (pos 1000)) {
        last_bid_price = pos 9950;
        last_ask_price = pos 10050;
      },
    )
unfolding on_features calculate_quotes calculate_quantities should_update_quotes requote clamp_u32
    thousandths wrap ◌+ℤ◌ ◌-ℤ◌ ◌*ℤ◌
only_ask = refl

on_features-IsAction_example :
    (action : StrategyAction) × (m : MarketMaker thousandths) × (on_features thousandths maker
        balanced
      ≡ done (action, m))
    × IsAction thousandths maker action m
on_features-IsAction_example = on_features-IsAction thousandths maker balanced (omega arith)
