-- ===== src/Trade/Cancels.antt =====
-- trading/src/trade_engine.rs: cancelling all orders of a ticker.
use rust_low_latency_trading.Prelude.{
  ◌≡◌, refl, arith, Bool, true, some, List, [], ◌∷◌, sym, ◌∙◌, ap, ◌==◌, Bool-cases, inl, inr,
  ==_iff,
}
use rust_low_latency_trading.Prelude.Map.{Map, lookup, IsMap, ℕ_eq}
use rust_low_latency_trading.Prelude.Totals.{total}
use rust_low_latency_trading.Types.{OrderId, TickerId}
use rust_low_latency_trading.Trade.{TradeEngine, TrackedOrder, pending_order_count}
use rust_low_latency_trading.Trade.Orders.{
  cancel_call, cancel_order, ids_at, cancel_each, cancel_all_orders,
}
use rust_low_latency_trading.Trade.Account.{IsAccount, one_at}
use rust_low_latency_trading.Trade.Events.{length}

-- Each call names an order that is pending at the ticker.
abbrev pub AllPending : {S : Type 0} → TradeEngine S → TickerId → List (OrderId × TickerId) → Type 0
AllPending e t [] = Unit
AllPending e t ((id, u) ∷ calls) =
    (u ≡ t)
    × ((o : TrackedOrder) × (lookup id e.pending_orders ≡ some o) × (o.ticker_id ≡ t))
    × AllPending e t calls

module _ {S : Type 0} (e : TradeEngine S) (on : e.order_cancel_callback ≡ true) (t : TickerId) where
  one_call :
      (id : OrderId) (o : TrackedOrder)
      → lookup id e.pending_orders ≡ some o
      → cancel_order e id ≡ (id, o.ticker_id) ∷ []
  one_call id o found =
      ap (λ (b : Bool). cancel_call b id (lookup id e.pending_orders)) on
      ∙ ap (cancel_call true id) found

  -- The calls for the orders of a part of the map.
  calls_for :
      (m : Map OrderId TrackedOrder)
      → IsMap m
      → ((id : OrderId) (o : TrackedOrder)
          → lookup id m ≡ some o
          → lookup id e.pending_orders ≡ some o)
      → (calls : List (OrderId × TickerId)) × (cancel_each e (ids_at t m) ≡ calls)
        × (length calls ≡ total (one_at t) m)
        × AllPending e t calls
  unfolding cancel_each ids_at total lookup
  calls_for [] u part = ([], refl, refl, tt)
  calls_for ((id, o) ∷ m) (new, u) part =
      let (calls, made, count, all) =
        calls_for m u (λ k p found. part k p (ground (arith, found, new, ==_iff id k))) in
      let here : lookup id e.pending_orders ≡ some o = part id o (ground arith) in
      elim (Bool-cases (o.ticker_id == t)) [
        | inl hit ↦ (
          (id, o.ticker_id) ∷ calls,
          rw (ids_at, hit, cancel_each, one_call id o here, made) refl,
          ground (arith, hit, count),
          ((==_iff o.ticker_id t).0 hit, (o, here, (==_iff o.ticker_id t).0 hit), all),
        )
        | inr miss ↦ (calls, rw (ids_at, miss) made, ground (arith, miss, count), all)
      ]

-- On an engine whose counts agree with its pending orders and whose cancel callback is set,
-- `cancel_all_orders` calls it as often as the ticker has open orders by the count, each time for an
-- order that is pending at the ticker.
pub cancel_all_orders_lem :
    {S : Type 0} (e : TradeEngine S) (t : TickerId)
    → IsAccount e
    → e.order_cancel_callback ≡ true
    → (calls : List (OrderId × TickerId)) × (cancel_all_orders e t ≡ calls)
      × (length calls ≡ pending_order_count e t)
      × AllPending e t calls
unfolding cancel_all_orders
cancel_all_orders_lem e t v on =
    let (calls, made, count, all) =
      calls_for e on t e.pending_orders v.unique (λ id o found. found) in
    (calls, made, count ∙ sym (v.counts t), all)
