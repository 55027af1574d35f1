-- ===== src/Taker/Tests.antt =====
-- trading/src/strategies/liquidity_taker.rs: runs of the taker, and instances of its theorems.
use rust_low_latency_trading.Prelude.{◌≡◌, refl, arith, none, List, [], ◌∷◌}
use rust_low_latency_trading.Prelude.Int.{pos, ◌+ℤ◌, ◌-ℤ◌, ◌*ℤ◌}
use rust_low_latency_trading.Prelude.I64.{wrap}
use rust_low_latency_trading.Prelude.Run.{done}
use rust_low_latency_trading.Types.{buy}
use rust_low_latency_trading.Trade.Actions.{StrategyAction, take}
use rust_low_latency_trading.Float.Thousandths.{thousandths}
use rust_low_latency_trading.Features.{TickerFeatures}
use rust_low_latency_trading.Maker.{clamp_u32}
use rust_low_latency_trading.Taker.{
  LiquidityTaker, new_config, for_ticker, calculate_quantity, record_order, try_sell, try_buy,
  on_features,
}
use rust_low_latency_trading.Taker.Orders.{IsDecision, Allows, on_features-IsDecision}
use rust_low_latency_trading.Taker.Pace.{Grows}
use rust_low_latency_trading.Taker.Interval.{
  Event, features, filled, restart, Mark, run, Spaced, IsTaker, run-Spaced,
}

abbrev strong : TickerFeatures thousandths
unfolding thousandths
strong = record {
  ticker_id = 1;
  fair_value = pos 10000;
  spread = pos 100;
  mid_price = pos 10000;
  imbalance = pos 0;
  trade_signal = pos 650;
}

abbrev taker : LiquidityTaker thousandths
taker = for_ticker thousandths 1

-- Halfway between the threshold and the greatest signal the quantity is halfway, too.
buys :
    on_features thousandths taker strong 1000 (pos 9950) (pos 10050)
    ≡ done (
      take record { ticker_id = 1; side = buy; price = pos 10060; qty = 300 },
      record taker {
        last_order_time_ns = 1000;
        orders_sent = 1;
        effective_interval_ns = 200000000;
      },
    )
unfolding on_features try_buy try_sell calculate_quantity record_order clamp_u32 thousandths wrap
    ◌+ℤ◌ ◌-ℤ◌ ◌*ℤ◌
buys = refl

on_features-IsDecision_example :
    (action : StrategyAction) × (k : LiquidityTaker thousandths) × (on_features thousandths taker
        strong 1000
        (pos 9950)
        (pos 10050)
      ≡ done (action, k))
    × IsDecision thousandths taker strong.trade_signal 1000 action k
    × Allows thousandths taker strong 1000 action
on_features-IsDecision_example =
    on_features-IsDecision thousandths taker strong 1000 (pos 9950) (pos 10050) (omega arith)

doubling-Grows : Grows thousandths (new_config thousandths 1).cooldown_factor
unfolding thousandths wrap ◌*ℤ◌
doubling-Grows n h = ground arith

abbrev events : List (Event thousandths)
events =
    features strong 1000 (pos 9950) (pos 10050)
    ∷ features strong 2000 (pos 9950) (pos 10050)
    ∷ filled
    ∷ features strong 100001000 (pos 9950) (pos 10050)
    ∷ restart
    ∷ features strong 100002000 (pos 9950) (pos 10050)
    ∷ []

run-Spaced_example :
    (r : List (Mark thousandths) × LiquidityTaker thousandths) × (run thousandths events taker
      ≡ done r)
    × Spaced thousandths 100000000 none r.0
    × IsTaker thousandths (new_config thousandths 1) r.1
run-Spaced_example =
    run-Spaced thousandths (new_config thousandths 1) events taker
      (record { short = omega arith; grows = doubling-Grows }) (omega arith) (omega arith)
      (record {
        same = refl;
        paced = record { low = omega arith; high = omega arith };
        past = omega arith;
      })
