-- ===== src/Trade/Actions.antt =====
-- trading/src/trade_engine.rs with trading/src/strategies/mod.rs: the actions that strategies decide
-- on, each order of which goes through the risk check.
use rust_low_latency_trading.Prelude.{ℕ, ◌+◌, Option, none, some, List, [], ◌∷◌, ◌++◌, wrap64}
use rust_low_latency_trading.Types.{OrderId, TickerId, Price, Qty, Side}
use rust_low_latency_trading.Risk.{RiskCheckResult, allowed}
use rust_low_latency_trading.Trade.{TradeEngine}
use rust_low_latency_trading.Trade.Orders.{Submitted, ok, err, submit_order, cancel_all_orders}

pub record OrderRequest : Type 0 where
  pub ticker_id : TickerId
  pub side : Side
  pub price : Price
  pub qty : Qty

pub record QuotePair : Type 0 where
  pub bid : Option OrderRequest
  pub ask : Option OrderRequest

pub data StrategyAction : Type 0 where
  nothing : StrategyAction
  quote : QuotePair → StrategyAction
  take : OrderRequest → StrategyAction
  cancel_all : TickerId → StrategyAction

-- What is told of one order that was attempted.
abbrev pub Attempt : Type 0
Attempt = Option OrderId × RiskCheckResult

abbrev pub attempt_of : Submitted → Attempt
attempt_of (ok id) = (some id, allowed)
attempt_of (err risk) = (none, risk)

module _ {S : Type 0} (call : S → TickerId → Side → Price → Qty → OrderId × S) where
  abbrev pub process_order_request : TradeEngine S → ℕ → OrderRequest → Submitted × TradeEngine S
  process_order_request e now o = submit_order call e now o.ticker_id o.side o.price o.qty

  -- A quote of a pair, if there is one.
  unfoldable pub process_quote :
      TradeEngine S → ℕ → Option OrderRequest → List Attempt × TradeEngine S
  process_quote e now none = ([], e)
  process_quote e now (some o) =
      let s = process_order_request e now o in (attempt_of (s.0) ∷ [], s.1)

  -- The attempts, the calls of the cancel callback, and the engine. All orders of one action take the
  -- time `now`.
  unfoldable pub act :
      TradeEngine S → ℕ → StrategyAction → List Attempt × List (OrderId × TickerId) × TradeEngine S
  unfolding process_quote
  act e now nothing = ([], [], e)
  act e now (quote pair) =
      let b = process_quote e now pair.bid in
      let a = process_quote (b.1) now pair.ask in (b.0 ++ a.0, [], a.1)
  act e now (take o) = let s = process_quote e now (some o) in (s.0, [], s.1)
  act e now (cancel_all t) = ([], cancel_all_orders e t, e)

  unfoldable pub process_strategy_action :
      TradeEngine S → ℕ → StrategyAction → List Attempt × List (OrderId × TickerId) × TradeEngine S
  unfolding act
  process_strategy_action e now action =
      let r = act e now action in
      (
        r.0,
        r.1,
        record (r.2) {
          stats = record (r.2.stats) { strategy_cycles = wrap64 (r.2.stats.strategy_cycles + 1) };
        },
      )
