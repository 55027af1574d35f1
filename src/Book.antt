-- ===== src/Book.antt =====
-- exchange/src/order_book.rs: the order book of one ticker over a pool of n slots (65536 in the
-- source). Its two loops over the order map change nothing: they stop at the old tail and leave.
pub mod Weigh
pub mod Invariant
pub mod Place
pub mod Cancel
pub mod Live
pub mod Add
pub mod Remove
pub mod Runs
pub mod Extremes
pub mod Best
pub mod Links
mod Tests
use rust_low_latency_trading.Prelude.{
  ℕ, ◌+◌, ◌-◌, ◌^◌, Option, none, some, List, [], ◌∷◌, ltb, ◌==◌, if◌then◌else◌, wrap32, wrap64,
}
use rust_low_latency_trading.Prelude.Int.{ℤ, ltb_ℤ}
use rust_low_latency_trading.Prelude.Run.{Run, done, fault, ◌>>=◌}
use rust_low_latency_trading.Prelude.Map.{Map, lookup, insert, remove, size, keys, ℕ_eq, ℤ_eq}
use rust_low_latency_trading.Types.{
  OrderId, TickerId, ClientId, Price, Qty, Priority, Side, buy, sell,
}
use rust_low_latency_trading.Pool.{
  MemPool, PoolPtr, allocate, deallocate_by_index, get_by_index, write,
}
use rust_low_latency_trading.Pool

pub record Order : Type 0 where
  pub order_id : OrderId
  pub client_id : ClientId
  pub ticker_id : TickerId
  pub side : Side
  pub price : Price
  pub qty : Qty
  pub priority : Priority
  pub prev_idx : Option ℕ
  pub next_idx : Option ℕ

pub record PriceLevel : Type 0 where
  pub price : Price
  pub total_qty : Qty
  pub head_idx : Option ℕ
  pub tail_idx : Option ℕ
  pub order_count : ℕ

-- `PriceLevel::new`
abbrev pub new_level : Price → PriceLevel
new_level price = record {
  price = price;
  total_qty = 0;
  head_idx = none;
  tail_idx = none;
  order_count = 0;
}

-- The order map holds the pool index that `OrderIndex` wraps.
pub record OrderBook : Type 0 where
  pub ticker_id : TickerId
  pub bid_levels : Map Price PriceLevel
  pub ask_levels : Map Price PriceLevel
  pub order_map : Map OrderId ℕ
  pub order_pool : MemPool Order
  pub next_priority : Priority

-- The levels of a side, and a book with those of one side replaced.
abbrev pub levels : OrderBook → Side → Map Price PriceLevel
levels b buy = b.bid_levels
levels b sell = b.ask_levels

abbrev pub with_levels : OrderBook → Side → Map Price PriceLevel → OrderBook
with_levels b buy ls = record b { bid_levels = ls }
with_levels b sell ls = record b { ask_levels = ls }

-- `entry(price).or_insert_with(..)`
abbrev pub level_at : Map Price PriceLevel → Price → PriceLevel
level_at ls price = elim (lookup price ls) [ none ↦ new_level price | some l ↦ l ]

-- The level after an order of `qty` in slot `idx` is put at its tail. The head is set only when the
-- level has no tail.
unfoldable pub join_level : PriceLevel → ℕ → Qty → PriceLevel
join_level l idx qty = record l {
  total_qty = wrap32 (l.total_qty + qty);
  head_idx = elim l.tail_idx [ some _ ↦ l.head_idx | none ↦ some idx ];
  tail_idx = some idx;
  order_count = wrap64 (l.order_count + 1);
}

-- The order as it is written to its slot. Its `prev_idx` is set if the level has a tail.
abbrev pub new_order : OrderBook → ClientId → OrderId → Side → Price → Qty → Order
new_order b client_id order_id side price qty = record {
  order_id = order_id;
  client_id = client_id;
  ticker_id = b.ticker_id;
  side = side;
  price = price;
  qty = qty;
  priority = b.next_priority;
  prev_idx = (level_at (levels b side) price).tail_idx;
  next_idx = none;
}

-- The parts of the book beside the levels, once slot `idx` of `pool` belongs to the order.
abbrev pub filled : OrderBook → MemPool Order → ℕ → Order → OrderBook
filled b pool idx o = record b {
  order_pool = write pool idx o;
  order_map = insert o.order_id idx b.order_map;
  next_priority = wrap64 (b.next_priority + 1);
}

-- What `add_order` does once slot `idx` of `pool` is its own.
unfoldable pub place : OrderBook → MemPool Order → ℕ → Order → OrderBook
unfolding join_level
place b pool idx o =
    let ls = levels b o.side in
    with_levels (filled b pool idx o) o.side
      (insert o.price (join_level (level_at ls o.price) idx o.qty) ls)

-- The level after an order leaves it, with the two ends changed where the order was an end.
unfoldable pub leave_level : PriceLevel → Order → PriceLevel
leave_level l o = record l {
  total_qty = wrap32 (l.total_qty + 2 ^ 32 - o.qty);
  head_idx = elim o.prev_idx [ some _ ↦ l.head_idx | none ↦ o.next_idx ];
  tail_idx = elim o.next_idx [ some _ ↦ l.tail_idx | none ↦ o.prev_idx ];
  order_count = wrap64 (l.order_count + 2 ^ 64 - 1);
}

-- The levels `ls` of the order's side without the order: an empty level is removed.
unfoldable pub withdraw : OrderBook → Order → Map Price PriceLevel → PriceLevel → OrderBook
unfolding leave_level
withdraw b o ls l =
    let l' = leave_level l o in
    with_levels b o.side (if l'.order_count == 0 then remove o.price ls else insert o.price l' ls)

module _ (n : ℕ) where
  -- `OrderBook::new`
  unfoldable pub new : TickerId → Run OrderBook
  new ticker_id = Pool.new n >>= λ pool. done (record {
    ticker_id = ticker_id;
    bid_levels = [];
    ask_levels = [];
    order_map = [];
    order_pool = pool;
    next_priority = 1;
  })

  unfoldable pub add_order :
      OrderBook → ClientId → OrderId → Side → Price → Qty → Run (Option PoolPtr × OrderBook)
  unfolding place
  add_order b client_id order_id side price qty = elim (lookup order_id b.order_map) [
    | some _ ↦ done (none, b)
    | none ↦ allocate n b.order_pool >>= λ r. elim r.0 [
      | none ↦ done (none, record b { order_pool = r.1 })
      | some ptr ↦
          done (some ptr, place b r.1 ptr.index (new_order b client_id order_id side price qty))
    ]
  ]

  -- A write of one field of the order in slot `index`; an index out of range is passed over.
  unfoldable pub modify : MemPool Order → Option ℕ → (Order → Order) → Run (MemPool Order)
  modify pool none f = done pool
  modify pool (some index) f = elim (get_by_index n pool index) [
    | none ↦ done pool
    | some none ↦ fault
    | some (some o) ↦ done (write pool index (f o))
  ]

  -- What `cancel_order` does once it has read the order and found its level among `ls`.
  unfoldable pub unlink :
      OrderBook → ℕ → Order → Map Price PriceLevel → PriceLevel → Run (Option Order × OrderBook)
  unfolding modify withdraw
  unlink b pool_idx o ls l = do
    pool₁ ← modify b.order_pool o.prev_idx (λ p. record p { next_idx = o.next_idx })
    pool₂ ← modify pool₁ o.next_idx (λ p. record p { prev_idx = o.prev_idx })
    pool₃ ← deallocate_by_index n pool₂ pool_idx
    done (some o, withdraw (record b { order_pool = pool₃ }) o ls l)

  unfoldable pub cancel_order : OrderBook → OrderId → Run (Option Order × OrderBook)
  unfolding unlink
  cancel_order b order_id = elim (lookup order_id b.order_map) [
    | none ↦ done (none, b)
    | some pool_idx ↦
        let b' = record b { order_map = remove order_id b.order_map } in
        elim (get_by_index n b.order_pool pool_idx) [
          | none ↦ done (none, b')
          | some none ↦ fault
          | some (some o) ↦
              let ls = levels b o.side in
              elim (lookup o.price ls) [
                | none ↦ done (none, b')
                | some l ↦ unlink b' pool_idx o ls l
              ]
        ]
  ]

-- `keys().max()` and `keys().min()`
unfoldable pub max_price : List Price → Option Price
max_price [] = none
max_price (p ∷ ps) = elim (max_price ps) [
  | none ↦ some p
  | some q ↦ some (if ltb_ℤ q p then p else q)
]

unfoldable pub min_price : List Price → Option Price
min_price [] = none
min_price (p ∷ ps) = elim (min_price ps) [
  | none ↦ some p
  | some q ↦ some (if ltb_ℤ p q then p else q)
]

unfoldable pub best_bid : OrderBook → Option Price
unfolding max_price keys
best_bid b = max_price (keys b.bid_levels)

unfoldable pub best_ask : OrderBook → Option Price
unfolding min_price keys
best_ask b = min_price (keys b.ask_levels)

-- Stubs of the source: they answer nothing and change nothing.
abbrev pub get_order : OrderBook → OrderId → Option Order
get_order b order_id = none

abbrev pub match_order : OrderBook → Side → Price → Qty → List (OrderId × Qty × Price)
match_order b side price qty = []

unfoldable pub order_count : OrderBook → ℕ
unfolding size
order_count b = size b.order_map
