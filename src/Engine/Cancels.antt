-- ===== src/Engine/Cancels.antt =====
-- exchange/src/matching_engine.rs: what a cancel does to the live orders, and how it is answered.
use rust_low_latency_trading.Prelude.{
  ℕ, ◌^◌, ◌<◌, ◌≡◌, refl, arith, Option, none, some, ap, ◌∙◌, sym, if◌then◌else◌, ◌==◌, Bool-cases,
  Option-cases, inl, inr, ◌⊎◌, ◌&&◌,
}
use rust_low_latency_trading.Prelude.Run.{done}
use rust_low_latency_trading.Prelude.Map.{lookup, ℕ_eq}
use rust_low_latency_trading.Types.{OrderId, TickerId}
use rust_low_latency_trading.Book.{Order, OrderBook}
use rust_low_latency_trading.Book.Invariant.{IsBook}
use rust_low_latency_trading.Book.Live.{resting, live}
use rust_low_latency_trading.Book.Remove.{Cancels, cancel_order_lem}
use rust_low_latency_trading.Protocol.Request.{ClientRequest}
use rust_low_latency_trading.Engine.{
  MatchingEngine, Reply, put_book, reject_cancel, cancel_reply, answer_cancel, handle_cancel,
}
use rust_low_latency_trading.Engine.Invariant.{IsEngine, live_of, live_of_book, put_book-IsEngine}
use rust_low_latency_trading.Engine.Seen.{live_of_found, seen_same, seen_change}

-- The order is live: it is answered with its own side, price, quantity and priority, and exactly it
-- is gone.
abbrev pub Withdraws : MatchingEngine → ClientRequest → Reply × MatchingEngine → Type 0
Withdraws e r (reply, e') =
    (o : Order) × (live_of e r.ticker_id r.order_id ≡ some (resting o))
    × (reply ≡ cancel_reply r o)
    × ((t : TickerId) (k : OrderId)
        → live_of e' t k
          ≡ (if (r.ticker_id == t) && (r.order_id == k) then none else live_of e t k))
    × (e'.next_order_id ≡ e.next_order_id)

-- The order is not live: the cancel is refused, and nothing is seen to change.
abbrev pub Misses : MatchingEngine → ClientRequest → Reply × MatchingEngine → Type 0
Misses e r (reply, e') =
    (live_of e r.ticker_id r.order_id ≡ none)
    × (reply ≡ reject_cancel r)
    × ((t : TickerId) (k : OrderId) → live_of e' t k ≡ live_of e t k)
    × (e'.next_order_id ≡ e.next_order_id)

abbrev cancel_outcome :
    MatchingEngine → ClientRequest → Option Order × OrderBook → Reply × MatchingEngine
cancel_outcome e r result = (answer_cancel r result.0, put_book e r.ticker_id result.1)

module _ (n : ℕ) (small : n < 2 ^ 64) (e : MatchingEngine) (v : IsEngine n e) where
  answered_cancel :
      (r : ClientRequest) (b : OrderBook) (result : Option Order × OrderBook)
      → lookup r.ticker_id e.order_books ≡ some b
      → IsBook n result.1
      → Cancels b r.order_id result
      → IsEngine n (cancel_outcome e r result).1
        × (Withdraws e r (cancel_outcome e r result) ⊎ Misses e r (cancel_outcome e r result))
  answered_cancel r b (none, b') found book gone =
      let same = λ (k : OrderId). ap (λ (c : OrderBook). live c k) gone.1 in
      (
        put_book-IsEngine n e e.next_order_id r.ticker_id b' v (omega arith) (record {
          book = book;
          ticker = ap (λ (c : OrderBook). c.ticker_id) gone.1 ∙ (v.fits r.ticker_id b found).ticker;
          used = λ k x l. (v.fits r.ticker_id b found).used k x (sym (same k) ∙ l);
        }),
        inr (
          live_of_found n e v r.ticker_id b r.order_id found ∙ gone.0,
          refl,
          seen_same n e v e.next_order_id r.ticker_id b b' found same,
          refl,
        ),
      )
  answered_cancel r b (some o, b') found book gone = (
    put_book-IsEngine n e e.next_order_id r.ticker_id b' v (omega arith) (record {
      book = book;
      ticker = gone.4 ∙ (v.fits r.ticker_id b found).ticker;
      used = λ k x l. elim (Bool-cases (r.order_id == k)) [
        | inl hit ↦ absurd (ground (arith, gone.2 k, l, hit))
        | inr miss ↦ (v.fits r.ticker_id b found).used k x (ground (arith, gone.2 k, l, miss))
      ];
    }),
    inl (
      o,
      live_of_found n e v r.ticker_id b r.order_id found ∙ gone.0,
      refl,
      seen_change n e v e.next_order_id r.ticker_id b b' r.order_id none found gone.2,
      refl,
    ),
  )

  -- On an engine that keeps the invariant a cancel is handled without a panic and the invariant is
  -- kept. If the order is live at the ticker it is answered with that order's data and exactly it
  -- is gone (`Withdraws`); otherwise the cancel is refused and nothing changes (`Misses`).
  pub handle_cancel_lem :
      (r : ClientRequest)
      → (s : Reply × MatchingEngine) × (handle_cancel n e r ≡ done s)
        × IsEngine n s.1
        × (Withdraws e r s ⊎ Misses e r s)
  unfolding handle_cancel
  handle_cancel_lem r = elim (Option-cases (lookup r.ticker_id e.order_books)) [
    | inl absent ↦ (
      (reject_cancel r, e),
      rw (absent, handle_cancel),
      v,
      inr (
        ap (λ (o : Option OrderBook). live_of_book o r.order_id) absent,
        refl,
        (λ t k. refl),
        refl,
      ),
    )
    | inr (b, found) ↦
        let (result, made, book, gone) =
          cancel_order_lem n small b (v.fits r.ticker_id b found).book r.order_id in
        let (kept, answer) = answered_cancel r b result found book gone in
        (cancel_outcome e r result, rw (found, handle_cancel, made), kept, answer)
  ]
