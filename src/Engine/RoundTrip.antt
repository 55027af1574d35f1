-- ===== src/Engine/RoundTrip.antt =====
-- exchange/src/matching_engine.rs: an order that is accepted and then cancelled.
use rust_low_latency_trading.Prelude.{
  ℕ, ◌^◌, ◌<◌, ◌≡◌, arith, none, some, ap, ◌∙◌, sym, inl, inr, ◌⊎◌, Bool-cases, if◌then◌else◌, ◌&&◌,
  ◌==◌,
}
use mathlib.Core.Option.{some-injective, none-ne-some}
use rust_low_latency_trading.Prelude.Int.{ℤ, pos, negsuc}
use rust_low_latency_trading.Prelude.Run.{done}
use rust_low_latency_trading.Prelude.Map.{ℤ_beq_iff}
use rust_low_latency_trading.Types.{TickerId, OrderId, Side, as_sign}
use rust_low_latency_trading.Book.{new_order}
use rust_low_latency_trading.Book.Live.{Resting, resting}
use rust_low_latency_trading.Protocol.Request.{ClientRequest}
use rust_low_latency_trading.Protocol.Response
use rust_low_latency_trading.Protocol.Response.{ClientResponse, canceled}
use rust_low_latency_trading.Engine.{MatchingEngine, Reply, parse_side, handle_cancel}
use rust_low_latency_trading.Engine.Invariant.{IsEngine, live_of}
use rust_low_latency_trading.Engine.Requests.{Accepts}
use rust_low_latency_trading.Engine.Cancels.{Withdraws, Misses, handle_cancel_lem}

-- A raw side that is understood is the sign of the side.
as_sign-parse_side : (raw : ℤ) (s : Side) → parse_side raw ≡ some s → as_sign s ≡ raw
unfolding parse_side
as_sign-parse_side raw s e = ground (arith, ℤ_beq_iff raw (pos 1), ℤ_beq_iff raw (negsuc 0), e)

module _ (n : ℕ) (small : n < 2 ^ 64) (e : MatchingEngine) (r c : ClientRequest)
    (s : Reply × MatchingEngine) (v : IsEngine n s.1) (acc : Accepts e r s)
    (ticker : c.ticker_id ≡ r.ticker_id) (order : c.order_id ≡ e.next_order_id) where
  abbrev placed : Resting
  placed = resting (new_order acc.0 r.client_id e.next_order_id acc.1 r.price r.qty)

  -- The answer gives the order back as it was sent, and the live orders are what they were before.
  abbrev pub Restores : Reply × MatchingEngine → Type 0
  Restores u =
      (u.0.0
        ≡ Response.create canceled c.client_id c.ticker_id c.order_id c.order_id r.side r.price 0
            r.qty)
      × ((t : TickerId) (k : OrderId) → live_of u.1 t k ≡ live_of e t k)

  is_live : live_of s.1 c.ticker_id c.order_id ≡ some placed
  is_live = acc.6 c.ticker_id c.order_id ∙ ground (arith, ticker, order)

  -- The response to a cancel of an order that is seen like this.
  abbrev response_for : Resting → ClientResponse
  response_for x =
      Response.create canceled c.client_id c.ticker_id c.order_id c.order_id (as_sign x.side)
        x.price 0 x.qty

  -- Beside the order both engines show the same, and of the order nothing.
  elsewhere :
      (t : TickerId) (k : OrderId)
      → (if (c.ticker_id == t) && (c.order_id == k) then none else live_of s.1 t k) ≡ live_of e t k
  elsewhere t k = elim (Bool-cases ((c.ticker_id == t) && (c.order_id == k))) [
    | inl hit ↦ rw hit (
        sym acc.5
        ∙ ap (λ w. live_of e w e.next_order_id) (ground (arith, hit, ticker))
        ∙ ap (live_of e t) (ground (arith, hit, order)))
    | inr miss ↦ rw miss (acc.6 t k ∙ ground (arith, miss, ticker, order))
  ]

  restored : (u : Reply × MatchingEngine) → Withdraws s.1 c u → Restores u
  restored u (o, seen, reply, gone, _) = (
    ap (λ (t : Reply). t.0) reply
        ∙ ap response_for (some-injective (resting o) placed (sym seen ∙ is_live))
        ∙ ap
            (λ (raw : ℤ).
              Response.create canceled c.client_id c.ticker_id c.order_id c.order_id raw r.price 0
                r.qty)
            (as_sign-parse_side r.side acc.1 acc.3),
    λ t k. gone t k ∙ elsewhere t k,
  )

  -- An order that was accepted can be cancelled by its identifier: the cancel is handled, answers
  -- `Canceled` with the side, the price and the quantity that the order was sent with, and the live
  -- orders of every ticker are again what they were before the order came.
  pub cancel-Restores : (u : Reply × MatchingEngine) × (handle_cancel n s.1 c ≡ done u) × Restores u
  cancel-Restores =
      let (u, made, _, answer) = handle_cancel_lem n small s.1 v c in (u, made, by_answer u answer)
    where
      by_answer : (u : Reply × MatchingEngine) → Withdraws s.1 c u ⊎ Misses s.1 c u → Restores u
      by_answer u (inl w) = restored u w
      by_answer u (inr m) = absurd (none-ne-some placed (sym m.0 ∙ is_live))
