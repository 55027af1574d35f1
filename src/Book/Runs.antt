-- ===== src/Book/Runs.antt =====
-- exchange/src/order_book.rs: whole histories of one book.
use rust_low_latency_trading.Prelude.{ℕ, ◌^◌, ◌<◌, ◌≡◌, ◌≢◌, refl, arith, List, [], ◌∷◌, none, some}
use rust_low_latency_trading.Prelude.Run.{Run, done, ◌>>=◌}
use rust_low_latency_trading.Prelude.Map.{Map, lookup, size, ℕ_eq, ℤ_eq}
use rust_low_latency_trading.Types.{Side, buy, sell, Price, Qty, OrderId, ClientId, TickerId}
use rust_low_latency_trading.Pool.Valid.{new_lem}
use rust_low_latency_trading.Book.{OrderBook, PriceLevel, levels, new, add_order, cancel_order}
use rust_low_latency_trading.Book.Weigh.{weigh}
use rust_low_latency_trading.Book.Invariant.{IsBook, Tells}
use rust_low_latency_trading.Book.Live.{live}
use rust_low_latency_trading.Book.Add.{add_order_lem}
use rust_low_latency_trading.Book.Remove.{cancel_order_lem}

-- A call that changes a book, with its arguments.
pub data Call : Type 0 where
  adds : ClientId → OrderId → Side → Price → Qty → Call
  cancels : OrderId → Call

module _ (n : ℕ) where
  unfoldable pub step : OrderBook → Call → Run OrderBook
  step b (adds c k s p q) = add_order n b c k s p q >>= λ r. done r.1
  step b (cancels k) = cancel_order n b k >>= λ r. done r.1

  unfoldable pub run : OrderBook → List Call → Run OrderBook
  unfolding step
  run b [] = done b
  run b (c ∷ cs) = step b c >>= λ b'. run b' cs

-- The quantity of an order is a u32.
abbrev pub InRange : Call → Type 0
InRange (adds c k s p q) = q < 2 ^ 32
InRange (cancels k) = Unit

abbrev pub AllInRange : List Call → Type 0
AllInRange [] = Unit
AllInRange (c ∷ cs) = InRange c × AllInRange cs

module _ (n : ℕ) (small : n < 2 ^ 64) where
  pub new-IsBook :
      0 < n
      → (t : TickerId)
      → (b : OrderBook) × (new n t ≡ done b)
        × IsBook n b
        × (b.ticker_id ≡ t)
        × ((k : OrderId) → live b k ≡ none)
  unfolding new lookup size weigh
  new-IsBook pos t =
      let (p, made, valid, _, blank, count) = new_lem n pos in
      (
        record {
          ticker_id = t;
          bid_levels = [];
          ask_levels = [];
          order_map = [];
          order_pool = p;
          next_priority = 1;
        },
        rw made,
        record {
          valid = valid;
          unique = tt;
          slot = λ k i e. absurd (cc);
          room = omega (arith, count);
          no_next = λ i o e. absurd (ground (arith, blank i, e));
          qty_in = λ i o e. absurd (ground (arith, blank i, e));
          prev_in = λ i j o e _. absurd (ground (arith, blank i, e));
          tail_in = λ s price l u e _. absurd (no_level s price e);
          tells = no_orders;
        },
        refl,
        (λ k. refl),
      )
    where
      no_levels : Side → Map Price PriceLevel
      no_levels = levels (record {
        ticker_id = t;
        bid_levels = [];
        ask_levels = [];
        order_map = [];
        order_pool = (new_lem n pos).0;
        next_priority = 1;
      })

      no_level : (s : Side) (price : Price) {l : PriceLevel} → lookup price (no_levels s) ≢ some l
      no_level buy price e = cc
      no_level sell price e = cc

      no_orders : (s : Side) (price : Price) → Tells price (lookup price (no_levels s)) 0 0
      no_orders buy price = (refl, refl)
      no_orders sell price = (refl, refl)

  step-IsBook :
      (b : OrderBook) (c : Call)
      → IsBook n b
      → InRange c
      → (b' : OrderBook) × (step n b c ≡ done b') × IsBook n b'
  unfolding step
  step-IsBook b (adds c k s p q) v h =
      let (r, made, v', _) = add_order_lem n small b v c k s p q h in (r.1, rw made, v')
  step-IsBook b (cancels k) v h =
      let (r, made, v', _) = cancel_order_lem n small b v k in (r.1, rw made, v')

  run-IsBook :
      (b : OrderBook) (cs : List Call)
      → IsBook n b
      → AllInRange cs
      → (b' : OrderBook) × (run n b cs ≡ done b') × IsBook n b'
  unfolding run
  run-IsBook b [] v h = (b, refl, v)
  run-IsBook b (c ∷ cs) v h =
      let (b₁, made, v₁) = step-IsBook b c v h.0 in
      let (b₂, rest, v₂) = run-IsBook b₁ cs v₁ h.1 in (b₂, rw made rest, v₂)

  -- Any history of adds (with u32 quantities) and cancels on a new book of between 1 and 2^64 - 1
  -- slots runs without a panic or a read of unwritten memory, and the book that it leaves keeps the
  -- invariant: the pool, the order map and the levels agree, and each level tells the number of the
  -- live orders at its price and the sum of their quantities modulo 2^32.
  pub run-new-IsBook :
      (t : TickerId) (cs : List Call)
      → 0 < n
      → AllInRange cs
      → (b : OrderBook) × ((new n t >>= λ b₀. run n b₀ cs) ≡ done b) × IsBook n b
  run-new-IsBook t cs pos h =
      let (b₀, made, v₀, _, _) = new-IsBook pos t in
      let (b, ran, v) = run-IsBook b₀ cs v₀ h in (b, rw made ran, v)
