-- ===== src/Trade/Submit.antt =====
-- trading/src/trade_engine.rs: an order that is submitted keeps the account in order.
use rust_low_latency_trading.Prelude.{
  ℕ, ◌+◌, ◌^◌, ◌<◌, ◌≡◌, refl, ap, arith, true, Option, none, some, ◌∙◌, wrap32, wrap64, Bool-cases,
  inl, inr, ◌⊎◌, ==_iff,
}
use rust_low_latency_trading.Prelude.Map.{lookup, insert, insert-IsMap, lookup-insert_self, ℕ_eq}
use rust_low_latency_trading.Prelude.Totals.{total-insert_new}
use rust_low_latency_trading.Types.{OrderId, TickerId, Price, Qty, Side}
use rust_low_latency_trading.Position.{add_open_order}
use rust_low_latency_trading.Risk.{RiskCheckResult, is_allowed, allowed}
use rust_low_latency_trading.Risk.Limits.{open_qty}
use rust_low_latency_trading.Trade.{
  TradeEngine, TrackedOrder, pending_order_count, position_of, check_order_risk,
}
use rust_low_latency_trading.Trade.Orders.{Submitted, ok, err, assign_id, track_order, submit_order}
use rust_low_latency_trading.Trade.Account.{
  IsAccount, one_at, qty_at, count-put_open, quantity-put_open, open-add,
}

-- The order as it is tracked.
abbrev pub order_of : OrderId → ℕ → TickerId → Side → Price → Qty → TrackedOrder
order_of id now t side price qty = record {
  order_id = id;
  ticker_id = t;
  side = side;
  price = price;
  original_qty = qty;
  leaves_qty = qty;
  sent_time = now;
}

module _ {S : Type 0} where
  -- The counters of the ticker do not reach the end of the u32 range.
  abbrev pub HasRoom : TradeEngine S → TickerId → Side → Qty → Type 0
  HasRoom e t side qty =
      (pending_order_count e t + 1 < 2 ^ 32) × (open_qty side (position_of e t) + qty < 2 ^ 32)

  -- An order that was not allowed is answered with the reason of the risk check, and changes nothing but
  -- the count of rejections.
  abbrev pub Rejects :
      TradeEngine S → TickerId → Side → Price → Qty → Submitted → TradeEngine S → Type 0
  Rejects e t side price qty result e' =
      (r : RiskCheckResult) × (result ≡ err r)
      × (check_order_risk e t side price qty ≡ r)
      × ¬ (r ≡ allowed)
      × (e' ≡ record e {
        stats = record (e.stats) {
          orders_rejected_risk = wrap64 (e.stats.orders_rejected_risk + 1);
        };
      })

  -- An order that was allowed is pending, with all of its quantity, under the identifier that the one
  -- call of the callback assigned.
  abbrev pub Tracks :
      TradeEngine S
      → OrderId × Option S
      → ℕ
      → TickerId
      → Side
      → Price
      → Qty
      → Submitted
      → TradeEngine S
      → Type 0
  Tracks e (id, callback) now t side price qty result e' =
      (result ≡ ok id)
      × (check_order_risk e t side price qty ≡ allowed)
      × (e'.order_submit_callback ≡ callback)
      × (lookup id e'.pending_orders ≡ some (order_of id now t side price qty))

allowed_only : (r : RiskCheckResult) → is_allowed r ≡ true → r ≡ allowed
allowed_only r e = ground (arith, e)

module _ {S : Type 0} (call : S → TickerId → Side → Price → Qty → OrderId × S) where
  track_order-IsAccount :
      (e : TradeEngine S) (now : ℕ) (t : TickerId) (side : Side) (price : Price) (qty : Qty)
      (assigned : OrderId × Option S)
      → IsAccount e
      → HasRoom e t side qty
      → lookup (assigned.0) e.pending_orders ≡ none
      → IsAccount (track_order call e now t side price qty assigned)
  unfolding track_order
  track_order-IsAccount e now t side price qty assigned v (few, small) fresh = record {
    unique = insert-IsMap (assigned.0) o e.pending_orders v.unique;
    counts = λ u.
        count-put_open e₁ t u (add_open_order (position_of e t) side qty)
          (wrap32 (pending_order_count e t + 1))
        ∙ ground (
          arith,
          v.counts u,
          v.counts t,
          total-insert_new (one_at u) (assigned.0) o e.pending_orders fresh,
          few,
          ==_iff t u,
        );
    quantities = λ u s.
        quantity-put_open e₁ t u (add_open_order (position_of e t) side qty)
          (wrap32 (pending_order_count e t + 1)) s
        ∙ ground (
          arith,
          v.quantities u s,
          v.quantities t s,
          total-insert_new (qty_at u s) (assigned.0) o e.pending_orders fresh,
          open-add (position_of e t) side s qty small,
          ==_iff t u,
        );
  }
    where
      o : TrackedOrder
      o = order_of (assigned.0) now t side price qty

      e₁ : TradeEngine S
      e₁ = record e {
        order_submit_callback = assigned.1;
        pending_orders = insert (assigned.0) o e.pending_orders;
        stats = record (e.stats) { orders_submitted = wrap64 (e.stats.orders_submitted + 1) };
      }

  pub submit_order-IsAccount :
      (e : TradeEngine S) (now : ℕ) (t : TickerId) (side : Side) (price : Price) (qty : Qty)
      → IsAccount e
      → HasRoom e t side qty
      → lookup
          (assign_id call e.order_submit_callback e.stats.orders_submitted t side price qty).0
          e.pending_orders
        ≡ none
      → (result : Submitted) × (e' : TradeEngine S) × (submit_order call e now t side price qty
          ≡ (result, e'))
        × IsAccount e'
        × (Rejects e t side price qty result e'
            ⊎ Tracks e
                (assign_id call e.order_submit_callback e.stats.orders_submitted t side price qty)
                now
                t
                side
                price
                qty
                result
                e')
  unfolding submit_order track_order
  submit_order-IsAccount e now t side price qty v room fresh =
      elim (Bool-cases (is_allowed (check_order_risk e t side price qty))) [
        | inl good ↦ (
          ok (assigned.0),
          track_order call e now t side price qty assigned,
          rw good refl,
          track_order-IsAccount e now t side price qty assigned v room fresh,
          inr (refl, allowed_only (check_order_risk e t side price qty) good, refl, tracked),
        )
        | inr bad ↦ (
          err (check_order_risk e t side price qty),
          refused,
          rw bad refl,
          record { unique = v.unique; counts = v.counts; quantities = v.quantities },
          inl (
            check_order_risk e t side price qty,
            refl,
            refl,
            λ same. ground (arith, bad, ap is_allowed same),
            refl,
          ),
        )
      ]
    where
      assigned : OrderId × Option S
      assigned = assign_id call e.order_submit_callback e.stats.orders_submitted t side price qty

      refused : TradeEngine S
      refused = record e {
        stats = record (e.stats) {
          orders_rejected_risk = wrap64 (e.stats.orders_rejected_risk + 1);
        };
      }

      tracked :
          lookup (assigned.0) (track_order call e now t side price qty assigned).pending_orders
          ≡ some (order_of (assigned.0) now t side price qty)
      tracked =
          lookup-insert_self (assigned.0) (order_of (assigned.0) now t side price qty)
            e.pending_orders
