-- ===== src/Trade/Respond.antt =====
-- trading/src/trade_engine.rs: a response for a pending order keeps the account in order.
use rust_low_latency_trading.Prelude.{
  ◌+◌, ◌-◌, ◌^◌, ◌<◌, ◌≡◌, refl, arith, ◌&&◌, Option, none, some, ◌∙◌, ap, if◌then◌else◌, ◌==◌,
  wrap64, Bool-cases, inl, inr, ==_iff,
}
use rust_low_latency_trading.Prelude.Run.{done}
use rust_low_latency_trading.Prelude.Map.{
  lookup, insert, remove, remove_absent, IsMap, insert-IsMap, remove-IsMap, lookup-insert,
  lookup-insert_self, ℕ_eq,
}
use rust_low_latency_trading.Prelude.Totals.{total, total-insert_old, total-remove}
use rust_low_latency_trading.Types.{OrderId, TickerId, Qty, Side, buy, sell, side_eq}
use rust_low_latency_trading.Protocol.Response.{
  ClientResponse, ClientResponseType, accepted, filled, canceled, cancel_rejected, invalid_request,
  response_type,
}
use rust_low_latency_trading.Position.{Position, remove_open_order}
use rust_low_latency_trading.Position.Fills.{magnitude}
use rust_low_latency_trading.Position.Keeper.{or_new, put_position}
use rust_low_latency_trading.Position.Keeper.Total.{on_fill_pending}
use rust_low_latency_trading.Risk.Limits.{open_qty}
use rust_low_latency_trading.Trade.{
  TradeEngine, TrackedOrder, or_zero, pending_order_count, position_of, on_removed, book_fill,
  track_fill, on_response_kind, on_response,
}
use rust_low_latency_trading.Trade.Account.{
  IsAccount, one_at, qty_at, open-remove, drop_order-IsAccount,
}

open_kept :
    (s : Side) (p q : Position)
    → (q.open_buy_qty ≡ p.open_buy_qty) × (q.open_sell_qty ≡ p.open_sell_qty)
    → open_qty s q ≡ open_qty s p
open_kept buy p q (b, _) = b
open_kept sell p q (_, c) = c

module _ {S : Type 0} where
  removed-IsAccount :
      (e : TradeEngine S) (t : TickerId) (id : OrderId) (o : TrackedOrder)
      → lookup id e.pending_orders ≡ some o
      → t ≡ o.ticker_id
      → IsAccount e
      → IsAccount (on_removed e t id)
  unfolding on_removed
  removed-IsAccount e t id o found at v =
      rw (on_removed, found, at) (drop_order-IsAccount e id o found v)

  -- Between the two parts of a fill of `x` the pending quantity of one side at a ticker is less by
  -- `x` than that of the pending orders, and the rest agrees.
  record IsHalfway (f : TradeEngine S) (t : TickerId) (side : Side) (x : Qty) : Type 0 where
    unique : IsMap f.pending_orders
    counts : (u : TickerId) → pending_order_count f u ≡ total (one_at u) f.pending_orders
    quantities :
        (u : TickerId) (s : Side)
        → open_qty s (position_of f u) ≡ (
            if (t == u) && side_eq side s
            then total (qty_at u s) f.pending_orders - x
            else total (qty_at u s) f.pending_orders)

  booked :
      (e : TradeEngine S) (r : ClientResponse) (o : TrackedOrder)
      → lookup r.client_order_id e.pending_orders ≡ some o
      → magnitude ((position_of e r.ticker_id).position) + r.exec_qty < 2 ^ 63
      → IsAccount e
      → (f : TradeEngine S) × (book_fill e r ≡ done f)
        × (lookup r.client_order_id f.pending_orders ≡ some o)
        × IsHalfway f r.ticker_id o.side r.exec_qty
  unfolding book_fill
  booked e r o found range v =
      let (k, made, same) =
        on_fill_pending e.position_keeper r.ticker_id o.side r.exec_qty r.price range in
      let at : Position = or_new r.ticker_id (lookup r.ticker_id k.positions) in
      (
        record e {
          position_keeper = put_position k r.ticker_id (remove_open_order at o.side r.exec_qty);
          stats = record (e.stats) { fills_received = wrap64 (e.stats.fills_received + 1) };
        },
        rw (book_fill, found, made) refl,
        found,
        record {
          unique = v.unique;
          counts = v.counts;
          quantities = λ u s.
              ap (λ (p : Option Position). open_qty s (or_new u p))
                (lookup-insert r.ticker_id u (remove_open_order at o.side r.exec_qty) k.positions)
              ∙ elim (Bool-cases (r.ticker_id == u)) [
                | inl hit ↦ rw hit (
                    ground (
                      arith,
                      open-remove at o.side s r.exec_qty,
                      open_kept s (position_of e r.ticker_id) at (same r.ticker_id),
                      v.quantities r.ticker_id s,
                      hit,
                      ==_iff r.ticker_id u,
                    ))
                | inr miss ↦ rw miss (
                    open_kept s (position_of e u) (or_new u (lookup u k.positions)) (same u)
                    ∙ v.quantities u s)
              ];
        },
      )

  -- A fill that leaves nothing takes the order out, another one lowers what is left of it.
  tracked-IsAccount :
      (f : TradeEngine S) (r : ClientResponse) (o : TrackedOrder)
      → lookup r.client_order_id f.pending_orders ≡ some o
      → r.ticker_id ≡ o.ticker_id
      → r.exec_qty + r.leaves_qty ≡ o.leaves_qty
      → IsHalfway f r.ticker_id o.side r.exec_qty
      → IsAccount (track_fill f r)
  unfolding track_fill
  tracked-IsAccount f r o found at split h = elim (Bool-cases (r.leaves_qty == 0)) [
    | inl last ↦
        rw (track_fill, last)
          (record {
            unique = remove-IsMap r.client_order_id f.pending_orders h.unique;
            counts = λ u.
                ap or_zero (
                  lookup-insert r.ticker_id u (pending_order_count f r.ticker_id - 1)
                    f.open_order_count)
                ∙ ground (
                  arith,
                  h.counts u,
                  h.counts r.ticker_id,
                  total-remove (one_at u) r.client_order_id o f.pending_orders h.unique found,
                  at,
                  ==_iff r.ticker_id u,
                );
            quantities = λ u s.
                h.quantities u s
                ∙ ground (
                  arith,
                  total-remove (qty_at u s) r.client_order_id o f.pending_orders h.unique found,
                  at,
                  split,
                  last,
                );
          })
    | inr part ↦
        rw (track_fill, part, found)
          (record {
            unique =
                insert-IsMap r.client_order_id (record o { leaves_qty = r.leaves_qty })
                  f.pending_orders h.unique;
            counts = λ u.
                h.counts u
                ∙ ground (
                  arith,
                  total-insert_old (one_at u) r.client_order_id
                      (record o { leaves_qty = r.leaves_qty }) o f.pending_orders found,
                );
            quantities = λ u s.
                h.quantities u s
                ∙ ground (
                  arith,
                  total-insert_old (qty_at u s) r.client_order_id
                      (record o { leaves_qty = r.leaves_qty }) o f.pending_orders found,
                  at,
                  split,
                );
          })
  ]

  by_kind :
      (kind : Option ClientResponseType) (e : TradeEngine S) (r : ClientResponse) (o : TrackedOrder)
      → lookup r.client_order_id e.pending_orders ≡ some o
      → r.ticker_id ≡ o.ticker_id
      → (kind ≡ some filled
          → (r.exec_qty + r.leaves_qty ≡ o.leaves_qty)
            × (magnitude ((position_of e r.ticker_id).position) + r.exec_qty < 2 ^ 63))
      → IsAccount e
      → (e' : TradeEngine S) × (on_response_kind kind e r ≡ done e') × IsAccount e'
  by_kind none e r o found at fill v = (e, refl, v)
  by_kind (some accepted) e r o found at fill v = (e, refl, v)
  by_kind (some filled) e r o found at fill v =
      let (split, range) = fill refl in
      let (f, made, there, half) = booked e r o found range v in
      (track_fill f r, rw made refl, tracked-IsAccount f r o there at split half)
  by_kind (some canceled) e r o found at fill v =
      (_, refl, removed-IsAccount e r.ticker_id r.client_order_id o found at v)
  by_kind (some cancel_rejected) e r o found at fill v =
      (_, refl, removed-IsAccount e r.ticker_id r.client_order_id o found at v)
  by_kind (some invalid_request) e r o found at fill v =
      (_, refl, removed-IsAccount e r.ticker_id r.client_order_id o found at v)

-- On an engine whose counts and pending quantities agree with its pending orders, a response of any
-- kind for a pending order, with the order's ticker, is processed without a panic, and they agree
-- again. Of a fill it is asked that what it executes and what it leaves make up what was left of the
-- order, and that the position stays in range.
pub on_response-IsAccount :
    {S : Type 0} (e : TradeEngine S) (r : ClientResponse) (o : TrackedOrder)
    → IsAccount e
    → lookup r.client_order_id e.pending_orders ≡ some o
    → r.ticker_id ≡ o.ticker_id
    → (response_type r ≡ some filled
        → (r.exec_qty + r.leaves_qty ≡ o.leaves_qty)
          × (magnitude ((position_of e r.ticker_id).position) + r.exec_qty < 2 ^ 63))
    → (e' : TradeEngine S) × (on_response e r ≡ done e') × IsAccount e'
unfolding on_response
on_response-IsAccount e r o v found at fill =
    by_kind (response_type r)
      (record e {
        stats = record (e.stats) { responses_processed = wrap64 (e.stats.responses_processed + 1) };
      })
      r o found at fill (record { unique = v.unique; counts = v.counts; quantities = v.quantities })

-- On an engine whose counts and pending quantities agree with its pending orders, a last fill that
-- names an order which is not pending, as a repeated one does, is taken from the count of open orders
-- all the same: at a ticker with pending orders the count is then one less than their number, and the
-- orders are as they were.
pub stray_fill_lowers_count :
    {S : Type 0} (e : TradeEngine S) (r : ClientResponse)
    → IsAccount e
    → response_type r ≡ some filled
    → lookup r.client_order_id e.pending_orders ≡ none
    → r.leaves_qty ≡ 0
    → 0 < total (one_at r.ticker_id) e.pending_orders
    → (e' : TradeEngine S) × (on_response e r ≡ done e')
      × (e'.pending_orders ≡ e.pending_orders)
      × (pending_order_count e' r.ticker_id + 1 ≡ total (one_at r.ticker_id) e'.pending_orders)
unfolding on_response book_fill track_fill
stray_fill_lowers_count {S} e r v kind absent last some_open = (
  record e₁ {
    pending_orders = remove r.client_order_id e.pending_orders;
    open_order_count =
        insert r.ticker_id (pending_order_count e r.ticker_id - 1) e.open_order_count;
  },
  rw (kind, book_fill, absent, track_fill, last) refl,
  remove_absent r.client_order_id e.pending_orders absent,
  ground (
    arith,
    ap or_zero
        (lookup-insert_self r.ticker_id (pending_order_count e r.ticker_id - 1) e.open_order_count),
    v.counts r.ticker_id,
    some_open,
    ap (total (one_at r.ticker_id)) (remove_absent r.client_order_id e.pending_orders absent),
  ),
)
  where
    e₁ : TradeEngine S
    e₁ = record e {
      stats = record (e.stats) { responses_processed = wrap64 (e.stats.responses_processed + 1) };
    }
