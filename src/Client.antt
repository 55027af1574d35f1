-- ===== src/Client.antt =====
-- trading/src/main.rs: the program of the trading client. Its arguments, the sockets, the clock and the
-- shutdown signal stand outside, and what it prints is left out.
pub mod Decisions
pub mod Fills
mod Tests
use rust_low_latency_trading.Prelude.{
  ℕ, ◌+◌, ◌≤◌, ◌≡◌, Bool, true, false, not, Option, none, some, List, [], ◌∷◌, ◌++◌, if◌then◌else◌,
  ltb, wrap64,
}
use rust_low_latency_trading.Prelude.Int.{ℤ, pos}
use rust_low_latency_trading.Prelude.I64
use rust_low_latency_trading.Prelude.Run.{Run, done, ◌>>=◌}
use rust_low_latency_trading.Prelude.Map.{lookup, ◌==◌, ℕ_eq, ℤ_eq}
use rust_low_latency_trading.Types.{TickerId, Price, Qty, Side, buy, sell}
use rust_low_latency_trading.Protocol.Request.{ClientRequest}
use rust_low_latency_trading.Protocol.Response.{ClientResponse, ClientResponseType, response_type}
use rust_low_latency_trading.Net.{Io, Bytes}
use rust_low_latency_trading.Net.Wire.{Wire}
use rust_low_latency_trading.Bbo
use rust_low_latency_trading.Bbo.{Bbo, MarketDataReceiver, get_bbo}
use rust_low_latency_trading.Bbo.Poll.{poll_and_process, reserve_tickers}
use rust_low_latency_trading.Protocol.Update.{MarketUpdate}
use rust_low_latency_trading.Position
use rust_low_latency_trading.Position.{Position, add_open_order, remove_open_order}
use rust_low_latency_trading.Position.Keeper
use rust_low_latency_trading.Position.Keeper.{PositionKeeper, get_position, or_new, put_position}
use rust_low_latency_trading.Risk
use rust_low_latency_trading.Risk.{RiskManager, is_allowed, check_order, check_position}
use rust_low_latency_trading.Trade.Actions.{
  OrderRequest, QuotePair, StrategyAction, nothing, quote, take, cancel_all,
}
use rust_low_latency_trading.Float.{Float}
use rust_low_latency_trading.Features
use rust_low_latency_trading.Features.{
  FeatureEngine, TickerFeatures, is_valid, on_bbo_update, get_features,
}
use rust_low_latency_trading.Maker
use rust_low_latency_trading.Maker.{MarketMaker}
use rust_low_latency_trading.Taker
use rust_low_latency_trading.Taker.{LiquidityTaker}
use rust_low_latency_trading.Gateway
use rust_low_latency_trading.Gateway.{OrderGateway, send_new_order}

-- The side that `main` reads off a response.
abbrev pub side_of : ℤ → Side
side_of side = if side == pos 1 then buy else sell

abbrev pub position_or_zero : Option Position → ℤ
position_or_zero none = pos 0
position_or_zero (some p) = p.position

pub data Strategy : Type 0 where
  as_market_maker as_liquidity_taker : Strategy

module _ (f : Float) where
  -- `ticker` is the argument of the program. `main` sets one of the two strategies.
  pub record Client : Type 0 where
    pub ticker : TickerId
    pub market_data_receiver : MarketDataReceiver
    pub order_gateway : OrderGateway
    pub feature_engine : FeatureEngine f
    pub position_keeper : PositionKeeper
    pub risk_manager : RiskManager
    pub market_maker : Option (MarketMaker f)
    pub liquidity_taker : Option (LiquidityTaker f)
    pub orders_sent : ℕ
    pub fills_received : ℕ

  -- `Args`, but for the addresses and the number of the client.
  pub record Args : Type 0 where
    pub strategy : Strategy
    pub ticker_id : TickerId
    pub max_order_qty : Qty
    pub max_position : ℤ
    pub max_loss : ℤ
    pub half_spread : Price
    pub signal_threshold : f.F

  abbrev pub maker_of : Args → Strategy → Option (MarketMaker f)
  maker_of a as_market_maker =
      let config = Maker.with_half_spread f (Maker.new_config f a.ticker_id) a.half_spread in
      some (
        Maker.new f
          (Maker.with_max_position f (Maker.with_base_qty f config a.max_order_qty) a.max_position))
  maker_of a as_liquidity_taker = none

  abbrev pub taker_of : Args → Strategy → Option (LiquidityTaker f)
  taker_of a as_market_maker = none
  taker_of a as_liquidity_taker =
      let config = Taker.with_threshold f (Taker.new_config f a.ticker_id) a.signal_threshold in
      some (
        Taker.new f
          (Taker.with_max_position f (Taker.with_base_qty f config a.max_order_qty) a.max_position))

  -- What `main` does before its loop, with the receiver and the gateway that it made.
  unfoldable pub set_up : Args → MarketDataReceiver → OrderGateway → Client
  set_up a receiver gateway = record {
    ticker = a.ticker_id;
    market_data_receiver = reserve_tickers receiver (a.ticker_id ∷ []);
    order_gateway = gateway;
    feature_engine = Features.reserve_tickers f (Features.new f) (a.ticker_id ∷ []);
    position_keeper = Keeper.new;
    risk_manager = Risk.set_limits Risk.new a.ticker_id record {
      max_order_qty = a.max_order_qty;
      max_position = a.max_position;
      max_loss = a.max_loss;
      max_open_orders = 100;
    };
    market_maker = maker_of a a.strategy;
    liquidity_taker = taker_of a a.strategy;
    orders_sent = 0;
    fills_received = 0;
  }

  -- The best bid and offer after some updates: the features, and the price of the position.
  abbrev pub on_bbo : Client → Option Bbo → Client
  on_bbo c none = c
  on_bbo c (some b) =
      let mid = I64.quotient (I64.add b.bid_price b.ask_price) (pos 2) in
      record c {
        feature_engine = on_bbo_update f c.feature_engine c.ticker b;
        position_keeper =
            if Bbo.is_valid b
            then Keeper.update_market_price c.position_keeper c.ticker mid
            else c.position_keeper;
      }

  -- The updates that the receiver's polls meet.
  unfoldable pub on_updates :
      {Fits : MarketUpdate → Type 0} {width : ℕ}
      → Wire MarketUpdate Fits width
      → Client
      → List (Io (Option Bytes))
      → Client
  on_updates w c reads =
      let u = poll_and_process w c.market_data_receiver reads in
      let c' = record c { market_data_receiver = u.1 } in
      if ltb 0 (u.0) then on_bbo c' (get_bbo (u.1) c.ticker) else c'

  abbrev pub maker_at : ℤ → Option (MarketMaker f) → Option (MarketMaker f)
  maker_at position none = none
  maker_at position (some m) = some (Maker.set_position f m position)

  abbrev pub taker_filled : ℤ → Option (LiquidityTaker f) → Option (LiquidityTaker f)
  taker_filled position none = none
  taker_filled position (some k) = some (Taker.on_fill f (Taker.set_position f k position))

  -- The strategies learn of the position after a fill.
  abbrev pub after_fill : Client → PositionKeeper → Client
  after_fill c keeper =
      let position = position_or_zero (get_position keeper c.ticker) in
      record c {
        position_keeper = keeper;
        market_maker = maker_at position c.market_maker;
        liquidity_taker = taker_filled position c.liquidity_taker;
        fills_received = wrap64 (c.fills_received + 1);
      }

  unfoldable pub on_filled : Client → ClientResponse → Run Client
  on_filled c r = do
    keeper ← Keeper.on_fill c.position_keeper c.ticker (side_of r.side) r.exec_qty r.price
    done (after_fill c keeper)

  -- A change of the position of the ticker in place.
  abbrev pub change_position : Client → (Position → Position) → Client
  change_position c change = record c {
    position_keeper =
        put_position c.position_keeper c.ticker
          (change (or_new c.ticker (get_position c.position_keeper c.ticker)));
  }

  unfoldable pub on_kind : Option ClientResponseType → Client → ClientResponse → Run Client
  unfolding on_filled
  on_kind (some ClientResponseType.filled) c r = on_filled c r
  on_kind (some ClientResponseType.accepted) c r =
      done (change_position c (λ p. add_open_order p (side_of r.side) r.leaves_qty))
  on_kind (some ClientResponseType.canceled) c r =
      done (change_position c (λ p. remove_open_order p (side_of r.side) r.leaves_qty))
  on_kind (some ClientResponseType.cancel_rejected) c r =
      done (change_position c (λ p. remove_open_order p (side_of r.side) r.leaves_qty))
  on_kind (some ClientResponseType.invalid_request) c r = done c
  on_kind none c r = done c

  -- The loop over the gateway's responses, with the reads that its polls meet. It ends with the first
  -- poll that returns none.
  unfoldable pub on_responses :
      {Fits : ClientResponse → Type 0} {width : ℕ}
      → Wire ClientResponse Fits width
      → Client
      → List (Io (Option Bytes))
      → Run Client
  unfolding on_kind
  on_responses w c [] = done c
  on_responses w c (read ∷ reads) =
      let p = Gateway.poll w c.order_gateway read in
      let c' = record c { order_gateway = p.1 } in
      elim (p.0) [
        | none ↦ done c'
        | some r ↦ on_kind (response_type r) c' r >>= λ c''. on_responses w c'' reads
      ]

  -- The strategy that is set decides on an action. `now` is what the clock says.
  unfoldable pub choose :
      Client
      → TickerFeatures f
      → ℕ
      → Option (MarketMaker f)
      → Option (LiquidityTaker f)
      → Run (StrategyAction × Client)
  choose c t now (some m) none = do
    r ← Maker.on_features f m t
    done (r.0, record c { market_maker = some (r.1) })
  choose c t now none (some k) = elim (get_bbo c.market_data_receiver c.ticker) [
    | none ↦ done (nothing, c)
    | some b ↦ Taker.on_features f k t now b.bid_price b.ask_price >>= λ r.
        done (r.0, record c { liquidity_taker = some (r.1) })
  ]
  choose c t now (some m) (some k) = done (nothing, c)
  choose c t now none none = done (nothing, c)

  -- An order goes to the gateway if the risk check of the position allows it.
  unfoldable pub send_checked : Position → ℕ → Client → OrderRequest → List ClientRequest × Client
  send_checked p at c o =
      let s = send_new_order c.order_gateway at o.ticker_id o.side o.price o.qty in
      if is_allowed (check_order c.risk_manager p o.side o.qty o.price)
      then ((s.1) ∷ [], record c { order_gateway = s.2; orders_sent = wrap64 (c.orders_sent + 1) })
      else ([], c)

  abbrev pub send_side : Position → ℕ → Client → Option OrderRequest → List ClientRequest × Client
  send_side p at c none = ([], c)
  send_side p at c (some o) = send_checked p at c o

  -- The action with the position as it was before it, and the times of the two sends.
  unfoldable pub perform : Position → ℕ → ℕ → Client → StrategyAction → List ClientRequest × Client
  perform p at at' c (quote pair) =
      let bid = send_side p at c pair.bid in
      let ask = send_side p at' (bid.1) pair.ask in (bid.0 ++ ask.0, ask.1)
  perform p at at' c (take o) = send_checked p at c o
  perform p at at' c (cancel_all ticker_id) = ([], c)
  perform p at at' c nothing = ([], c)

  -- The action on valid features, and its orders.
  unfoldable pub act :
      Client → Position → TickerFeatures f → ℕ → ℕ → ℕ → Run (List ClientRequest × Client)
  unfolding choose perform
  act c p t now at at' = do
    r ← choose c t now c.market_maker c.liquidity_taker
    done (perform p at at' (r.1) (r.0))

  -- The part of a turn that sends orders. The messages are those that it sends. `get_position_mut` makes
  -- an entry for the position, if there is none.
  unfoldable pub decide : Client → ℕ → ℕ → ℕ → Run (List ClientRequest × Client)
  unfolding act
  decide c now at at' = elim (get_features f c.feature_engine c.ticker) [
    | none ↦ done ([], c)
    | some t ↦
        let p = or_new c.ticker (get_position c.position_keeper c.ticker) in
        let c' = change_position c (λ q. q) in
        if not (is_valid f t)
        then done ([], c)
        else if is_allowed (check_position c.risk_manager p)
        then act c' p t now at at'
        else done ([], c')
  ]

  -- One turn of the loop: the updates, the responses, then the strategy.
  unfoldable pub turn :
      {FitsUpdate : MarketUpdate → Type 0} {update_width : ℕ}
      {FitsResponse : ClientResponse → Type 0} {response_width : ℕ}
      → Wire MarketUpdate FitsUpdate update_width
      → Wire ClientResponse FitsResponse response_width
      → Client
      → List (Io (Option Bytes))
      → List (Io (Option Bytes))
      → ℕ
      → ℕ
      → ℕ
      → Run (List ClientRequest × Client)
  unfolding on_updates on_responses decide
  turn u w c updates responses now at at' =
      on_responses w (on_updates u c updates) responses >>= λ c'. decide c' now at at'
