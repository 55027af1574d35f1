-- ===== src/Trade.antt =====
-- trading/src/trade_engine.rs: orders of the client from the check before they are sent to the last
-- response. The feature engine, which only reads the prices, is left out.
pub mod Orders
pub mod Actions
pub mod Cycle
pub mod Events
pub mod Account
pub mod Submit
pub mod Respond
pub mod Cancels
mod Tests
use rust_low_latency_trading.Prelude.{
  ℕ, zero, suc, ◌+◌, ◌-◌, Bool, true, false, not, Option, none, some, List, [], ◌∷◌, ◌++◌,
  if◌then◌else◌, wrap32, wrap64,
}
use rust_low_latency_trading.Prelude.Run.{Run, done, ◌>>=◌}
use rust_low_latency_trading.Prelude.Map.{Map, lookup, insert, remove, size, ◌==◌, ℕ_eq}
use rust_low_latency_trading.Types.{OrderId, TickerId, ClientId, Price, Qty, Side}
use rust_low_latency_trading.Protocol.Response.{
  ClientResponse, ClientResponseType, accepted, filled, canceled, cancel_rejected, invalid_request,
  response_type,
}
use rust_low_latency_trading.Protocol.Update.{MarketUpdate, MarketUpdateType, update_type}
use rust_low_latency_trading.Position
use rust_low_latency_trading.Position.{Position, add_open_order, remove_open_order}
use rust_low_latency_trading.Position.Keeper
use rust_low_latency_trading.Position.Keeper.{PositionKeeper, or_new, put_position}
use rust_low_latency_trading.Risk
use rust_low_latency_trading.Risk.{
  RiskManager, RiskCheckResult, allowed, is_allowed, check_order_with_open_orders,
}
use rust_low_latency_trading.Bbo
use rust_low_latency_trading.Bbo.{Bbo, on_kind, mid_price}

pub record TradeEngineConfig : Type 0 where
  pub client_id : ClientId
  pub tickers : List TickerId
  pub enable_risk_checks : Bool
  pub max_events_per_cycle : ℕ

pub record TradeEngineStats : Type 0 where
  pub market_updates_processed : ℕ
  pub responses_processed : ℕ
  pub orders_submitted : ℕ
  pub orders_rejected_risk : ℕ
  pub fills_received : ℕ
  pub strategy_cycles : ℕ
  pub total_cycles : ℕ

abbrev pub new_stats : TradeEngineStats
new_stats = record {
  market_updates_processed = 0;
  responses_processed = 0;
  orders_submitted = 0;
  orders_rejected_risk = 0;
  fills_received = 0;
  strategy_cycles = 0;
  total_cycles = 0;
}

pub record TrackedOrder : Type 0 where
  pub order_id : OrderId
  pub ticker_id : TickerId
  pub side : Side
  pub price : Price
  pub original_qty : Qty
  pub leaves_qty : Qty
  pub sent_time : ℕ

-- The callbacks are closures of the caller: `S` is what the one for orders keeps, if it is set.
pub record TradeEngine (S : Type 0) : Type 0 where
  pub config : TradeEngineConfig
  pub risk_manager : RiskManager
  pub position_keeper : PositionKeeper
  pub bbo_state : Map TickerId Bbo
  pub pending_orders : Map OrderId TrackedOrder
  pub open_order_count : Map TickerId ℕ
  pub order_submit_callback : Option S
  pub order_cancel_callback : Bool
  pub stats : TradeEngineStats
  pub running : Bool

-- `entry(ticker_id).or_insert(0)` and `get(..).unwrap_or(&0)`
abbrev pub or_zero : Option ℕ → ℕ
or_zero none = 0
or_zero (some n) = n

module _ {S : Type 0} where
  -- The state of the tickers of the configuration, as `new` and `reset` set it up.
  unfoldable pub init_tickers : List TickerId → TradeEngine S → TradeEngine S
  init_tickers [] e = e
  init_tickers (t ∷ ts) e = init_tickers ts (record e {
    bbo_state = insert t Bbo.new e.bbo_state;
    open_order_count = insert t 0 e.open_order_count;
  })

  unfoldable pub new : TradeEngineConfig → TradeEngine S
  unfolding init_tickers
  new config = init_tickers config.tickers (record {
    config = config;
    risk_manager = Risk.new;
    position_keeper = Keeper.new;
    bbo_state = [];
    pending_orders = [];
    open_order_count = [];
    order_submit_callback = none;
    order_cancel_callback = false;
    stats = new_stats;
    running = false;
  })

  abbrev pub start : TradeEngine S → TradeEngine S
  start e = record e { running = true }

  abbrev pub stop : TradeEngine S → TradeEngine S
  stop e = record e { running = false }

  unfoldable pub reset : TradeEngine S → TradeEngine S
  unfolding init_tickers
  reset e =
      init_tickers e.config.tickers
        (record e { bbo_state = []; pending_orders = []; open_order_count = []; stats = new_stats })

  abbrev pub pending_order_count : TradeEngine S → TickerId → ℕ
  pending_order_count e t = or_zero (lookup t e.open_order_count)

  abbrev pub get_pending_order : TradeEngine S → OrderId → Option TrackedOrder
  get_pending_order e id = lookup id e.pending_orders

  abbrev pub total_pending_orders : TradeEngine S → ℕ
  total_pending_orders e = size e.pending_orders

  -- `get_position`, with the new position of a ticker that has none.
  abbrev pub position_of : TradeEngine S → TickerId → Position
  position_of e t = or_new t (lookup t e.position_keeper.positions)

  -- A trade tells the position keeper the price.
  abbrev pub on_trade_price : MarketUpdateType → TradeEngine S → TickerId → Price → TradeEngine S
  on_trade_price MarketUpdateType.trade e t price = record e {
    position_keeper = Keeper.update_market_price e.position_keeper t price;
  }
  on_trade_price _ e t price = e

  -- What `on_market_update` does with an update of a known kind, and with another.
  abbrev pub on_update_kind : Option MarketUpdateType → TradeEngine S → MarketUpdate → TradeEngine S
  on_update_kind none e u = record e {
    bbo_state = insert u.ticker_id (Bbo.or_new (lookup u.ticker_id e.bbo_state)) e.bbo_state;
  }
  on_update_kind (some kind) e u =
      let b = on_kind kind (Bbo.or_new (lookup u.ticker_id e.bbo_state)) u.side u.price u.qty in
      on_trade_price kind (record e { bbo_state = insert u.ticker_id b e.bbo_state }) u.ticker_id
        u.price

  unfoldable pub on_market_update : TradeEngine S → MarketUpdate → TradeEngine S
  on_market_update e u = record (on_update_kind (update_type u) e u) {
    stats = record (e.stats) {
      market_updates_processed = wrap64 (e.stats.market_updates_processed + 1);
    };
  }

  -- The price that `update_bbo` tells the position keeper.
  abbrev pub on_mid : Option Price → TradeEngine S → TickerId → TradeEngine S
  on_mid none e t = e
  on_mid (some mid) e t = record e {
    position_keeper = Keeper.update_market_price e.position_keeper t mid;
  }

  abbrev pub update_bbo : TradeEngine S → TickerId → Bbo → TradeEngine S
  update_bbo e t b = on_mid (mid_price b) (record e { bbo_state = insert t b e.bbo_state }) t

  unfoldable pub check_order_risk : TradeEngine S → TickerId → Side → Price → Qty → RiskCheckResult
  check_order_risk e t side price qty =
      if not e.config.enable_risk_checks
      then allowed
      else check_order_with_open_orders e.risk_manager (position_of e t) side qty price
          (pending_order_count e t)

  -- A change of the position and of the count of open orders of a ticker.
  abbrev pub put_open : TradeEngine S → TickerId → Position → ℕ → TradeEngine S
  put_open e t p count = record e {
    position_keeper = put_position e.position_keeper t p;
    open_order_count = insert t count e.open_order_count;
  }

  -- The order leaves the tracking, with the quantity that it has left.
  abbrev pub drop_order : TradeEngine S → TickerId → OrderId → TrackedOrder → TradeEngine S
  drop_order e t id o =
      put_open (record e { pending_orders = remove id e.pending_orders }) t
        (remove_open_order (position_of e t) o.side o.leaves_qty) (pending_order_count e t - 1)

  -- `Canceled`, `CancelRejected` and `InvalidRequest`.
  unfoldable pub on_removed : TradeEngine S → TickerId → OrderId → TradeEngine S
  on_removed e t id = elim (lookup id e.pending_orders) [ none ↦ e | some o ↦ drop_order e t id o ]

  -- The first part of `Filled`: the position, if the order is known.
  unfoldable pub book_fill : TradeEngine S → ClientResponse → Run (TradeEngine S)
  book_fill e r = elim (lookup r.client_order_id e.pending_orders) [
    | none ↦ done e
    | some o ↦ Keeper.on_fill e.position_keeper r.ticker_id o.side r.exec_qty r.price >>= λ k.
        done (record e {
          position_keeper = put_position k r.ticker_id (
              remove_open_order (or_new r.ticker_id (lookup r.ticker_id k.positions)) o.side
                r.exec_qty);
          stats = record (e.stats) { fills_received = wrap64 (e.stats.fills_received + 1) };
        })
  ]

  -- The second part: the order is removed, or keeps what is left of it.
  unfoldable pub track_fill : TradeEngine S → ClientResponse → TradeEngine S
  track_fill e r =
      if r.leaves_qty == 0
      then record e {
        pending_orders = remove r.client_order_id e.pending_orders;
        open_order_count =
            insert r.ticker_id (pending_order_count e r.ticker_id - 1) e.open_order_count;
      }
      else elim (lookup r.client_order_id e.pending_orders) [
        | none ↦ e
        | some o ↦ record e {
          pending_orders =
              insert r.client_order_id (record o { leaves_qty = r.leaves_qty }) e.pending_orders;
        }
      ]

  -- The `match` on the kind of a response.
  abbrev pub on_response_kind :
      Option ClientResponseType → TradeEngine S → ClientResponse → Run (TradeEngine S)
  on_response_kind none e r = done e
  on_response_kind (some accepted) e r = done e
  on_response_kind (some filled) e r = book_fill e r >>= λ f. done (track_fill f r)
  on_response_kind (some canceled) e r = done (on_removed e r.ticker_id r.client_order_id)
  on_response_kind (some cancel_rejected) e r = done (on_removed e r.ticker_id r.client_order_id)
  on_response_kind (some invalid_request) e r = done (on_removed e r.ticker_id r.client_order_id)

  unfoldable pub on_response : TradeEngine S → ClientResponse → Run (TradeEngine S)
  on_response e r =
      on_response_kind (response_type r)
        (record e {
          stats = record (e.stats) {
            responses_processed = wrap64 (e.stats.responses_processed + 1);
          };
        })
        r
