-- ===== src/Trade/Cycle.antt =====
-- trading/src/trade_engine.rs: one cycle of the engine over the responses and updates that wait.
use rust_low_latency_trading.Prelude.{ℕ, zero, suc, ◌+◌, ◌-◌, List, [], ◌∷◌, if◌then◌else◌, wrap64}
use rust_low_latency_trading.Prelude.Run.{Run, done, ◌>>=◌}
use rust_low_latency_trading.Protocol.Response.{ClientResponse}
use rust_low_latency_trading.Protocol.Update.{MarketUpdate}
use rust_low_latency_trading.Trade.{TradeEngine, on_response, on_market_update}

module _ {S : Type 0} where
  -- At most `max` responses, with their number and the responses that are left.
  unfoldable pub take_responses :
      ℕ → TradeEngine S → List ClientResponse → Run (ℕ × TradeEngine S × List ClientResponse)
  take_responses zero e rs = done (0, e, rs)
  take_responses (suc max) e [] = done (0, e, [])
  take_responses (suc max) e (r ∷ rs) =
      on_response e r >>= λ f. take_responses max f rs >>= λ s. done (s.0 + 1, s.1, s.2)

  unfoldable pub take_updates :
      ℕ → TradeEngine S → List MarketUpdate → ℕ × TradeEngine S × List MarketUpdate
  take_updates zero e us = (0, e, us)
  take_updates (suc max) e [] = (0, e, [])
  take_updates (suc max) e (u ∷ us) =
      let s = take_updates max (on_market_update e u) us in (s.0 + 1, s.1, s.2)

  -- `run_cycle`: the number of events, the engine, and what is left of both queues.
  unfoldable pub run_cycle :
      TradeEngine S
      → List ClientResponse
      → List MarketUpdate
      → Run (ℕ × TradeEngine S × List ClientResponse × List MarketUpdate)
  unfolding take_responses take_updates
  run_cycle e rs us =
      if e.running
      then (take_responses e.config.max_events_per_cycle e rs >>= λ a.
          let b = take_updates (e.config.max_events_per_cycle - a.0) a.1 us in
          done (
            a.0 + b.0,
            record (b.1) {
              stats = record (b.1.stats) { total_cycles = wrap64 (b.1.stats.total_cycles + 1) };
            },
            a.2,
            b.2,
          ))
      else done (0, e, rs, us)
