-- ===== src/Client/Decisions.antt =====
-- trading/src/main.rs: what the client sends.
use rust_low_latency_trading.Prelude.{
  ℕ, ◌+◌, ◌^◌, ◌<◌, ◌≤◌, ◌≡◌, refl, sym, ◌∙◌, subst, arith, inl, inr, ◌⊎◌, true, Option, none, some,
  List, [], ◌++◌, Bool-cases, Option-cases,
}
use rust_low_latency_trading.Prelude.Lists.{All, append-All}
use rust_low_latency_trading.Prelude.Run.{done}
use rust_low_latency_trading.Prelude.Map.{ℕ_eq}
use rust_low_latency_trading.Types.{Side, as_sign, buy, sell}
use rust_low_latency_trading.Protocol.Request.{ClientRequest}
use rust_low_latency_trading.Bbo.{get_bbo}
use rust_low_latency_trading.Position.{Position}
use rust_low_latency_trading.Position.Fills.{magnitude}
use rust_low_latency_trading.Position.Keeper.{PositionKeeper, get_position, or_new}
use rust_low_latency_trading.Risk.{
  RiskManager, RiskCheckResult, allowed, is_allowed, get_limits, check_order, check_position,
}
use rust_low_latency_trading.Risk.Limits.{open_qty, passed}
use rust_low_latency_trading.Risk.Allowed.{
  PositionInLimit, LossInLimit, check_position_lem, StaysInLimits, check_order-StaysInLimits,
}
use rust_low_latency_trading.Trade.Actions.{
  OrderRequest, StrategyAction, nothing, quote, take, cancel_all,
}
use rust_low_latency_trading.Float.{Float}
use rust_low_latency_trading.Features.{TickerFeatures, is_valid, get_features}
use rust_low_latency_trading.Maker.{MarketMaker}
use rust_low_latency_trading.Maker.Quotes.{on_features-IsAction}
use rust_low_latency_trading.Taker.{LiquidityTaker}
use rust_low_latency_trading.Taker.Orders.{on_features-IsDecision}
use rust_low_latency_trading.Gateway.{send_new_order}
use rust_low_latency_trading.Client.{
  Client, choose, send_checked, send_side, perform, act, decide, change_position,
}

-- A message that asks for an order which the limits on the position allow.
abbrev pub IsPermitted : RiskManager → Position → ClientRequest → Type 0
IsPermitted m p r = (side : Side) × (r.side ≡ as_sign side) × StaysInLimits m p side r.qty

is_allowed-only : (r : RiskCheckResult) → is_allowed r ≡ true → r ≡ allowed
is_allowed-only allowed h = refl
is_allowed-only RiskCheckResult.order_too_large h = cc
is_allowed-only RiskCheckResult.position_too_large h = cc
is_allowed-only RiskCheckResult.loss_too_large h = cc
is_allowed-only RiskCheckResult.open_orders_too_many h = cc

-- The position is so far from the ends of `i64` that an order of the greatest quantity stays there.
abbrev pub HasRange : RiskManager → Position → Type 0
HasRange m p =
    magnitude p.position
      + (p.open_buy_qty + p.open_sell_qty + (get_limits m p.ticker_id).max_order_qty)
    < 2 ^ 63

open_of_both : (side : Side) (p : Position) → open_qty side p ≤ p.open_buy_qty + p.open_sell_qty
open_of_both buy p = omega arith
open_of_both sell p = omega arith

order_permitted :
    (m : RiskManager) (p : Position) (o : OrderRequest)
    → HasRange m p
    → check_order m p o.side o.qty o.price ≡ allowed
    → StaysInLimits m p o.side o.qty
order_permitted m p o range h =
    check_order-StaysInLimits m p o.side o.qty o.price
      (omega (arith, range, (passed m p o.side o.qty o.price h).0, open_of_both o.side p)) h

module _ (f : Float) where
  -- The strategy that is set, if there is one, has a greatest quantity of 1 at least.
  abbrev pub CanTrade : Option (MarketMaker f) → Option (LiquidityTaker f) → Type 0
  CanTrade (some m) none = 1 ≤ m.config.max_qty
  CanTrade none (some k) = 1 ≤ k.config.max_qty
  CanTrade (some m) (some k) = Unit
  CanTrade none none = Unit

  -- What was sent is permitted, and neither the limits nor the positions changed.
  pub record Sends (m : RiskManager) (p : Position) (k : PositionKeeper)
      (r : List ClientRequest × Client f) : Type 0 where
    pub permitted : All (IsPermitted m p) (r.0)
    pub same_risk : r.1.risk_manager ≡ m
    pub same_keeper : r.1.position_keeper ≡ k

  send_checked-Sends :
      (p : Position) (at : ℕ) (c : Client f) (o : OrderRequest)
      → HasRange c.risk_manager p
      → Sends c.risk_manager p c.position_keeper (send_checked f p at c o)
  unfolding send_checked send_new_order
  send_checked-Sends p at c o range =
      elim (Bool-cases (is_allowed (check_order c.risk_manager p o.side o.qty o.price))) [
        | inr refused ↦
            rw (send_checked, refused)
              (record { permitted = tt; same_risk = refl; same_keeper = refl })
        | inl passes ↦
            let fine = order_permitted c.risk_manager p o range (is_allowed-only _ passes) in
            rw (send_checked, passes)
              (record {
                permitted = ((o.side, refl, fine), tt);
                same_risk = refl;
                same_keeper = refl;
              })
      ]

  -- The same beside what was sent before.
  then-Sends :
      (m : RiskManager) (p : Position) (k : PositionKeeper) (at : ℕ)
      (r : List ClientRequest × Client f) (o : Option OrderRequest)
      → HasRange m p
      → Sends m p k r
      → Sends m p k (r.0 ++ (send_side f p at (r.1) o).0, (send_side f p at (r.1) o).1)
  then-Sends m p k at r none range h = record {
    permitted = append-All (IsPermitted m p) (r.0) [] h.permitted tt;
    same_risk = h.same_risk;
    same_keeper = h.same_keeper;
  }
  then-Sends m p k at r (some o) range h =
      let s = send_checked-Sends p at (r.1) o (subst (λ x. HasRange x p) (sym h.same_risk) range) in
      let sent = (send_checked f p at (r.1) o).0 in
      record {
        permitted =
            append-All (IsPermitted m p) (r.0) sent h.permitted
              (subst (λ x. All (IsPermitted x p) sent) h.same_risk s.permitted);
        same_risk = s.same_risk ∙ h.same_risk;
        same_keeper = s.same_keeper ∙ h.same_keeper;
      }

  perform-Sends :
      (m : RiskManager) (p : Position) (k : PositionKeeper) (at at' : ℕ) (c : Client f)
      (action : StrategyAction)
      → HasRange m p
      → Sends m p k ([], c)
      → Sends m p k (perform f p at at' c action)
  unfolding perform
  perform-Sends m p k at at' c (quote pair) range h =
      then-Sends m p k at' (send_side f p at c pair.bid) pair.ask range
        (then-Sends m p k at ([], c) pair.bid range h)
  perform-Sends m p k at at' c (take o) range h = then-Sends m p k at ([], c) (some o) range h
  perform-Sends m p k at at' c (cancel_all ticker_id) range h = h
  perform-Sends m p k at at' c nothing range h = h

  choose_lem :
      (c : Client f) (t : TickerFeatures f) (now : ℕ) (m : Option (MarketMaker f))
      (k : Option (LiquidityTaker f))
      → CanTrade m k
      → (r : StrategyAction × Client f) × (choose f c t now m k ≡ done r)
        × (r.1.risk_manager ≡ c.risk_manager)
        × (r.1.position_keeper ≡ c.position_keeper)
  unfolding choose
  choose_lem c t now (some m) none h =
      let a = on_features-IsAction f m t h in
      ((a.0, record c { market_maker = some (a.1) }), rw (choose, a.2) refl, refl, refl)
  choose_lem c t now none (some k) h =
      elim (Option-cases (get_bbo c.market_data_receiver c.ticker)) [
        | inl absent ↦ ((nothing, c), rw (choose, absent) refl, refl, refl)
        | inr (b, found) ↦
            let d = on_features-IsDecision f k t now b.bid_price b.ask_price h in
            (
              (d.0, record c { liquidity_taker = some (d.1) }),
              rw (choose, found, d.2) refl,
              refl,
              refl,
            )
      ]
  choose_lem c t now (some m) (some k) h = ((nothing, c), refl, refl, refl)
  choose_lem c t now none none h = ((nothing, c), refl, refl, refl)

  -- The part of a turn that sends orders never fails where the greatest quantity of the strategy is at
  -- least 1. Whatever the strategy decides, it sends an order only while the position is within its
  -- limit and the loss within its own, and no order that it sends is larger than the limit of an order.
  -- An order of the side that does not reduce the position leaves it within its limit, whatever part of
  -- the order and of the pending quantity of its side is filled in one fill, at any price; one of the
  -- side that reduces it need not. So it is for each of two quotes by itself, as long as the quantities
  -- do not reach the end of the range.
  pub decide_lem :
      (c : Client f) (now at at' : ℕ)
      → let p = or_new c.ticker (get_position c.position_keeper c.ticker) in
        CanTrade c.market_maker c.liquidity_taker
        → HasRange c.risk_manager p
        → (r : List ClientRequest × Client f) × (decide f c now at at' ≡ done r)
          × All (IsPermitted c.risk_manager p) r.0
          × ((r.0 ≡ []) ⊎ (PositionInLimit c.risk_manager p × LossInLimit c.risk_manager p))
  unfolding decide act
  decide_lem c now at at' can range =
      elim (Option-cases (get_features f c.feature_engine c.ticker)) [
        | inl absent ↦ (([], c), rw (decide, absent) refl, tt, inl refl)
        | inr (t, found) ↦ elim (Bool-cases (is_valid f t)) [
          | inr invalid ↦ (([], c), rw (decide, found, invalid) refl, tt, inl refl)
          | inl valid ↦
              let p = or_new c.ticker (get_position c.position_keeper c.ticker) in
              let c' = change_position f c (λ q. q) in
              elim (Bool-cases (is_allowed (check_position c.risk_manager p))) [
                | inr refused ↦ (([], c'), rw (decide, found, valid, refused) refl, tt, inl refl)
                | inl passes ↦
                    let (a, chosen, risk, keeper) =
                      choose_lem c' t now c.market_maker c.liquidity_taker can in
                    let s =
                      perform-Sends c.risk_manager p c'.position_keeper at at' (a.1) (a.0) range
                        (record { permitted = tt; same_risk = risk; same_keeper = keeper }) in
                    (
                      perform f p at at' (a.1) (a.0),
                      rw (decide, found, valid, passes, chosen) refl,
                      s.permitted,
                      inr (
                          check_position_lem c.risk_manager p (omega (arith, range))
                            (is_allowed-only _ passes)),
                    )
              ]
        ]
      ]
