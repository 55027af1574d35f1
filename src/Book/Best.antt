-- ===== src/Book/Best.antt =====
-- exchange/src/order_book.rs: `best_bid` and `best_ask` against the live orders.
use rust_low_latency_trading.Prelude.{ℕ, ◌≡◌, ◌≢◌, refl, arith, Option, none, some, ap, ◌∙◌, subst}
use rust_low_latency_trading.Prelude.Int.{ℤ, ◌≤ℤ◌}
use rust_low_latency_trading.Prelude.Map.{lookup, keys, ℕ_eq, ℤ_eq}
use rust_low_latency_trading.Types.{Side, buy, sell, Price, OrderId}
use rust_low_latency_trading.Book.{
  Order, OrderBook, PriceLevel, levels, max_price, min_price, best_bid, best_ask,
}
use rust_low_latency_trading.Book.Weigh.{one_at, qty_at, weigh, weigh-pos}
use rust_low_latency_trading.Book.Invariant.{IsBook, Tells, rests_at→eq}
use rust_low_latency_trading.Book.Remove.{level_of}
use rust_low_latency_trading.Book.Live.{Resting, resting, live, seen, seen_at}
use rust_low_latency_trading.Book.Extremes.{IsBest, max_price-IsBest, min_price-IsBest}

-- What a best price of a side promises: with none no order of the side is live; a price is that of
-- a live order of the side, and no live order of the side lies beyond it.
abbrev pub IsBestOf : (ℤ → ℤ → Type 0) → OrderBook → Side → Option Price → Type 0
IsBestOf beyond b s none = (k : OrderId) (x : Resting) → live b k ≡ some x → x.side ≢ s
IsBestOf beyond b s (some p) =
    ((k : OrderId) × (x : Resting) × (live b k ≡ some x) × (x.side ≡ s) × (x.price ≡ p))
    × ((k : OrderId) (x : Resting) → live b k ≡ some x → x.side ≡ s → beyond x.price p)

module _ (n : ℕ) (b : OrderBook) (v : IsBook n b) where
  -- The level of a live order, by what is seen of it.
  level_seen :
      (k : OrderId) (x : Resting)
      → live b k ≡ some x
      → (l : PriceLevel) × (lookup x.price (levels b x.side) ≡ some l)
  level_seen k x e = from (lookup k b.order_map) refl e
    where
      read :
          (i : ℕ)
          → lookup k b.order_map ≡ some i
          → (r : Option Order) → b.order_pool.storage i ≡ r
          → seen r ≡ some x
          → (l : PriceLevel) × (lookup x.price (levels b x.side) ≡ some l)
      read i found none w s = absurd (cc)
      read i found (some o) w s =
          let same : resting o ≡ x = ground (arith, s) in
          subst (λ y. (l : PriceLevel) × (lookup y.price (levels b y.side) ≡ some l)) same
            (level_of n b v k i o found w)

      from :
          (r : Option ℕ)
          → lookup k b.order_map ≡ r
          → seen_at b.order_pool.storage r ≡ some x
          → (l : PriceLevel) × (lookup x.price (levels b x.side) ≡ some l)
      from none found s = absurd (cc)
      from (some i) found s = read i found (b.order_pool.storage i) refl s

  -- A level has a live order.
  order_of :
      (s : Side) (price : Price) (l : PriceLevel)
      → lookup price (levels b s) ≡ some l
      → (k : OrderId) × (x : Resting) × (live b k ≡ some x) × (x.side ≡ s) × (x.price ≡ price)
  order_of s price l e =
      let count = weigh (one_at s price) b.order_pool.storage b.order_map in
      let qty = weigh (qty_at s price) b.order_pool.storage b.order_map in
      let t : Tells price (some l) count qty =
        subst (λ r. Tells price r count qty) e (v.tells s price) in
      let (k, i, o, found, w, hit) =
        weigh-pos s price b.order_pool.storage b.order_map v.unique t.2 in
      let (es, ep) = rests_at→eq s price o hit in
      (k, resting o, ap (seen_at b.order_pool.storage) found ∙ ap seen w, es, ep)

  best_of :
      (beyond : ℤ → ℤ → Type 0) (s : Side) (r : Option Price)
      → IsBest beyond (levels b s) r
      → IsBestOf beyond b s r
  best_of beyond s none h = λ k x e at.
      let (l, found) = level_seen k x e in
      let gone : lookup x.price (levels b s) ≡ none = h x.price in
      let there : lookup x.price (levels b s) ≡ some l =
        subst (λ t. lookup x.price (levels b t) ≡ some l) at found in
      absurd (cc)
  best_of beyond s (some p) h = (
    order_of s p h.0.0 h.0.1,
    λ k x e at.
        let (l, found) = level_seen k x e in
        h.1 x.price l (subst (λ t. lookup x.price (levels b t) ≡ some l) at found),
  )

  -- On a book that keeps the invariant, `best_bid` is the highest price of the live buy orders and
  -- `best_ask` the lowest of the live sell orders: each answers none exactly when the side has no
  -- live order, and otherwise a price at which one rests and beyond which none does.
  pub best_prices :
      IsBestOf (λ k p. k ≤ℤ p) b buy (best_bid b) × IsBestOf (λ k p. p ≤ℤ k) b sell (best_ask b)
  unfolding best_bid best_ask
  best_prices = (
    best_of (λ k p. k ≤ℤ p) buy (max_price (keys b.bid_levels)) (max_price-IsBest b.bid_levels),
    best_of (λ k p. p ≤ℤ k) sell (min_price (keys b.ask_levels)) (min_price-IsBest b.ask_levels),
  )
