-- ===== src/Book/Links.antt =====
-- exchange/src/order_book.rs: what becomes of the list of a level, whose `next_idx` links are never
-- set.
use rust_low_latency_trading.Prelude.{
  ℕ, ◌+◌, ◌^◌, ◌<◌, ◌≤◌, ◌≡◌, refl, arith, none, some, subst, false, ◌==◌,
}
use rust_low_latency_trading.Prelude.Run.{done}
use rust_low_latency_trading.Prelude.Map.{Map, lookup, remove, lookup-insert, ℕ_eq, ℤ_eq, ℤ_beq_iff}
use rust_low_latency_trading.Types.{Side, Price}
use rust_low_latency_trading.Book.{
  Order, OrderBook, PriceLevel, levels, leave_level, withdraw, cancel_order,
}
use rust_low_latency_trading.Book.Weigh.{one_at, qty_at, weigh, weigh-le-size}
use rust_low_latency_trading.Book.Invariant.{IsBook, Tells, levels-with_levels, side_eq_self}
use rust_low_latency_trading.Book.Remove.{cancel_live}

-- A level that is not empty after the order has left it is found with what it has become.
lookup-withdraw :
    (c : OrderBook) (o : Order) (ls : Map Price PriceLevel) (l : PriceLevel)
    → ((leave_level l o).order_count == 0) ≡ false
    → lookup o.price (levels (withdraw c o ls l) o.side) ≡ some (leave_level l o)
unfolding withdraw
lookup-withdraw c o ls l some_left = rw (
  levels-with_levels,
  side_eq_self o.side,
  some_left,
  lookup-insert,
  (ℤ_beq_iff o.price o.price).1 refl,
)

module _ (n : ℕ) (small : n < 2 ^ 64) (b : OrderBook) (v : IsBook n b) where
  -- The counter of a level does not reach the width of its type.
  count_bound :
      (s : Side) (price : Price) (l : PriceLevel)
      → lookup price (levels b s) ≡ some l
      → l.order_count < 2 ^ 64
  count_bound s price l e =
      let count = weigh (one_at s price) b.order_pool.storage b.order_map in
      let qty = weigh (qty_at s price) b.order_pool.storage b.order_map in
      let t : Tells price (some l) count qty =
        subst (λ r. Tells price r count qty) e (v.tells s price) in
      omega (
        arith,
        t.1,
        weigh-le-size (one_at s price) b.order_pool.storage (λ a. ground arith) b.order_map,
        v.room,
        small,
      )

  left_over :
      (o : Order) (l : PriceLevel)
      → o.next_idx ≡ none
      → o.prev_idx ≡ none
      → 2 ≤ l.order_count
      → l.order_count < 2 ^ 64
      → ((leave_level l o).order_count + 1 ≡ l.order_count)
        × ((leave_level l o).head_idx ≡ none)
        × ((leave_level l o).tail_idx ≡ none)
  unfolding leave_level
  left_over o l nn pn two top = ground arith

  -- The head and the tail of a level are lost: when a live order that has no predecessor is cancelled at
  -- a level with others, on a book that keeps the invariant, the level stays with one order less and
  -- has neither head nor tail, though orders are still live at it; the book keeps the invariant.
  pub cancel_loses_list :
      (k i : ℕ) (o : Order) (l : PriceLevel)
      → lookup k b.order_map ≡ some i
      → b.order_pool.storage i ≡ some o
      → o.prev_idx ≡ none
      → lookup o.price (levels b o.side) ≡ some l
      → 2 ≤ l.order_count
      → (b' : OrderBook) × (l' : PriceLevel) × (cancel_order n b k ≡ done (some o, b'))
        × IsBook n b'
        × (lookup o.price (levels b' o.side) ≡ some l')
        × (l'.order_count + 1 ≡ l.order_count)
        × (l'.head_idx ≡ none)
        × (l'.tail_idx ≡ none)
  cancel_loses_list k i o l found reads pn level two =
      let (q, made, kept) = cancel_live n small b v k i o l found reads level in
      let (fewer, no_head, no_tail) =
        left_over o l (v.no_next i o reads) pn two (count_bound o.side o.price l level) in
      let stays : ((leave_level l o).order_count == 0) ≡ false = ground (arith, fewer, two) in
      (
        withdraw (record b { order_pool = q; order_map = remove k b.order_map }) o (levels b o.side)
            l,
        leave_level l o,
        made,
        kept.0,
        lookup-withdraw _ o (levels b o.side) l stays,
        fewer,
        no_head,
        no_tail,
      )
