-- ===== src/Engine/Requests.antt =====
-- exchange/src/matching_engine.rs: what each request does to the live orders, and how it is answered.
use rust_low_latency_trading.Prelude.{
  ℕ, ◌+◌, ◌^◌, ◌<◌, ◌≤◌, ◌≡◌, ◌≢◌, refl, arith, Option, none, some, ◌∙◌, sym, if◌then◌else◌, ◌==◌,
  Bool-cases, Option-cases, inl, inr, ==_iff, ◌⊎◌, ◌&&◌, wrap64,
}
use rust_low_latency_trading.Prelude.Run.{done}
use rust_low_latency_trading.Prelude.Map.{lookup, size, ℕ_eq}
use rust_low_latency_trading.Types.{OrderId, TickerId, Side}
use rust_low_latency_trading.Pool.{PoolPtr}
use rust_low_latency_trading.Book.{OrderBook, new_order}
use rust_low_latency_trading.Book.Invariant.{IsBook}
use rust_low_latency_trading.Book.Live.{resting, live}
use rust_low_latency_trading.Book.Add.{Adds, add_order_lem}
use rust_low_latency_trading.Protocol.Request.{ClientRequest}
use rust_low_latency_trading.Engine.{
  MatchingEngine, Reply, put_book, parse_side, reject_new, accept_reply, answer_new,
  handle_new_order,
}
use rust_low_latency_trading.Engine.Invariant.{IsEngine, live_of, put_book-IsEngine}
use rust_low_latency_trading.Engine.Seen.{live_of_found, next_unused, seen_same, seen_change}

-- A new order is accepted: it has the ticker's book and a side, it is answered under the next
-- identifier, which is used up, and exactly that identifier becomes live at the ticker.
abbrev pub Accepts : MatchingEngine → ClientRequest → Reply × MatchingEngine → Type 0
Accepts e r (reply, e') =
    (b : OrderBook) × (side : Side) × (lookup r.ticker_id e.order_books ≡ some b)
    × (parse_side r.side ≡ some side)
    × (reply ≡ accept_reply r e.next_order_id)
    × (live_of e r.ticker_id e.next_order_id ≡ none)
    × ((t : TickerId) (k : OrderId)
        → live_of e' t k ≡ (
            if (r.ticker_id == t) && (e.next_order_id == k)
            then some (resting (new_order b r.client_id e.next_order_id side r.price r.qty))
            else live_of e t k))
    × (e'.next_order_id ≡ e.next_order_id + 1)

-- A new order is refused for one of three reasons, and the live orders stay as they are; at most
-- one identifier is used up.
abbrev pub Refuses : ℕ → MatchingEngine → ClientRequest → Reply × MatchingEngine → Type 0
Refuses n e r (reply, e') =
    (reply ≡ reject_new r)
    × ((t : TickerId) (k : OrderId) → live_of e' t k ≡ live_of e t k)
    × ((lookup r.ticker_id e.order_books ≡ none)
        ⊎ ((parse_side r.side ≡ none)
            ⊎ ((b : OrderBook) × (lookup r.ticker_id e.order_books ≡ some b)
                × (size b.order_map ≡ n))))
    × (e.next_order_id ≤ e'.next_order_id)
    × (e'.next_order_id ≤ e.next_order_id + 1)

-- What a result of `add_order` makes of the engine.
abbrev new_outcome :
    MatchingEngine → ClientRequest → Option PoolPtr × OrderBook → Reply × MatchingEngine
new_outcome e r result = (
  answer_new r e.next_order_id result.0,
  put_book (record e { next_order_id = wrap64 (e.next_order_id + 1) }) r.ticker_id result.1,
)

module _ (n : ℕ) (small : n < 2 ^ 64) (e : MatchingEngine) (v : IsEngine n e) where
  answered_new :
      (r : ClientRequest) (b : OrderBook) (side : Side) (result : Option PoolPtr × OrderBook)
      → e.next_order_id + 1 < 2 ^ 64
      → lookup r.ticker_id e.order_books ≡ some b
      → parse_side r.side ≡ some side
      → IsBook n result.1
      → Adds n b e.next_order_id
          (resting (new_order b r.client_id e.next_order_id side r.price r.qty))
          result
      → IsEngine n (new_outcome e r result).1
        × (Accepts e r (new_outcome e r result) ⊎ Refuses n e r (new_outcome e r result))
  answered_new r b side (none, b') ids found sided book adds = (
    put_book-IsEngine n e _ r.ticker_id b' v (omega (arith, ids)) (record {
      book = book;
      ticker = adds.2 ∙ (v.fits r.ticker_id b found).ticker;
      used =
          λ k x l. omega (arith, ids, (v.fits r.ticker_id b found).used k x (sym (adds.0 k) ∙ l));
    }),
    inr (
      refl,
      seen_same n e v (wrap64 (e.next_order_id + 1)) r.ticker_id b b' found adds.0,
      inr (inr (b, found, full adds.1)),
      omega (arith, ids),
      omega (arith, ids),
    ),
  )
    where
      full : (live b e.next_order_id ≢ none) ⊎ (size b.order_map ≡ n) → size b.order_map ≡ n
      full (inl taken) = absurd (taken (next_unused n e v r.ticker_id b found))
      full (inr all) = all
  answered_new r b side (some ptr, b') ids found sided book adds = (
    put_book-IsEngine n e _ r.ticker_id b' v (omega (arith, ids)) (record {
      book = book;
      ticker = adds.3 ∙ (v.fits r.ticker_id b found).ticker;
      used = λ k x l. elim (Bool-cases (e.next_order_id == k)) [
        | inl hit ↦ omega (arith, ids, (==_iff e.next_order_id k).0 hit)
        | inr miss ↦
            omega (
              arith,
              ids,
              (v.fits r.ticker_id b found).used k x (ground (arith, adds.1 k, l, miss)),
            )
      ];
    }),
    inl (
      b,
      side,
      found,
      sided,
      refl,
      live_of_found n e v r.ticker_id b e.next_order_id found ∙ adds.0,
      seen_change n e v (wrap64 (e.next_order_id + 1)) r.ticker_id b b' e.next_order_id _ found
          adds.1,
      omega (arith, ids),
    ),
  )

  -- On an engine that keeps the invariant, with u32 quantities and before the identifiers run out,
  -- a new order is handled without a panic, the invariant is kept, and the order is either accepted
  -- (`Accepts`) or refused for want of a book, of a side or of a slot (`Refuses`).
  pub handle_new_order_lem :
      (r : ClientRequest)
      → e.next_order_id + 1 < 2 ^ 64
      → r.qty < 2 ^ 32
      → (s : Reply × MatchingEngine) × (handle_new_order n e r ≡ done s)
        × IsEngine n s.1
        × (Accepts e r s ⊎ Refuses n e r s)
  unfolding handle_new_order
  handle_new_order_lem r ids range = elim (Option-cases (lookup r.ticker_id e.order_books)) [
    | inl absent ↦ (
      (reject_new r, e),
      rw (absent, handle_new_order),
      v,
      inr (refl, (λ t k. refl), inl absent, omega arith, omega arith),
    )
    | inr (b, found) ↦ elim (Option-cases (parse_side r.side)) [
      | inl bad ↦ (
        (reject_new r, e),
        rw (found, handle_new_order, bad),
        v,
        inr (refl, (λ t k. refl), inr (inl bad), omega arith, omega arith),
      )
      | inr (side, good) ↦
          let (result, made, book, adds) =
            add_order_lem n small b (v.fits r.ticker_id b found).book r.client_id e.next_order_id
              side r.price r.qty range in
          let (kept, answer) = answered_new r b side result ids found good book adds in
          (new_outcome e r result, rw (found, handle_new_order, good, made), kept, answer)
    ]
  ]
