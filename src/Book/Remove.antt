-- ===== src/Book/Remove.antt =====
-- exchange/src/order_book.rs: what `cancel_order` does to the live orders.
use rust_low_latency_trading.Prelude.{
  ℕ, ◌+◌, ◌^◌, ◌<◌, ◌≤◌, ◌≡◌, ◌≢◌, refl, arith, Option, none, some, if◌then◌else◌, subst, sym, ap,
  ◌∙◌, inl, inr, Option-cases, ◌==◌, lt→ltb,
}
use rust_low_latency_trading.Prelude.Run.{done}
use rust_low_latency_trading.Prelude.Map.{Map, lookup, insert, remove, ℕ_eq, ℤ_eq}
use rust_low_latency_trading.Types.{Side, side_eq, buy, sell, Price, OrderId}
use rust_low_latency_trading.Pool.{MemPool, deallocate_by_index}
use rust_low_latency_trading.Pool.Valid.{IsFree, IsValid, deallocate_by_index_lem}
use rust_low_latency_trading.Book.{
  Order, OrderBook, PriceLevel, levels, leave_level, withdraw, unlink, cancel_order,
}
use rust_low_latency_trading.Book.Weigh.{one_at, qty_at, weight, weigh, weight-le-weigh}
use rust_low_latency_trading.Book.Invariant.{
  IsStore, IsBook, IsBook-with_levels, Tells, rests_at_self,
}
use rust_low_latency_trading.Book.Cancel.{modify_prev, cancel-IsStore}
use rust_low_latency_trading.Book.Live.{
  resting, seen, seen_at, live, live_in, live_in-remove, live-with_levels, scalars-with_levels,
}

-- The outcome of cancelling order `k`: nothing, if it is not live; otherwise the order itself, and
-- exactly `k` is gone.
abbrev pub Cancels : OrderBook → OrderId → Option Order × OrderBook → Type 0
Cancels b k (none, b') = (live b k ≡ none) × (b' ≡ b)
Cancels b k (some o, b') =
    (live b k ≡ some (resting o))
    × (o.order_id ≡ k)
    × ((j : OrderId) → live b' j ≡ (if k == j then none else live b j))
    × (b'.next_priority ≡ b.next_priority)
    × (b'.ticker_id ≡ b.ticker_id)

module _ (n : ℕ) (b : OrderBook) (v : IsBook n b) where
  -- A live order has its level.
  pub level_of :
      (k i : ℕ) (o : Order)
      → lookup k b.order_map ≡ some i
      → b.order_pool.storage i ≡ some o
      → (l : PriceLevel) × (lookup o.price (levels b o.side) ≡ some l)
  level_of k i o found reads = from (lookup o.price (levels b o.side)) refl (v.tells o.side o.price)
    where
      weighs_one : weight (one_at o.side o.price) b.order_pool.storage i ≡ 1
      weighs_one = ground (arith, reads, rests_at_self o)

      counted : 1 ≤ weigh (one_at o.side o.price) b.order_pool.storage b.order_map
      counted = omega (
        arith,
        weight-le-weigh (one_at o.side o.price) b.order_pool.storage k i b.order_map found,
        weighs_one,
      )

      from :
          (r : Option PriceLevel)
          → lookup o.price (levels b o.side) ≡ r
          → Tells o.price r
              (weigh (one_at o.side o.price) b.order_pool.storage b.order_map)
              (weigh (qty_at o.side o.price) b.order_pool.storage b.order_map)
          → (l : PriceLevel) × (lookup o.price (levels b o.side) ≡ some l)
      from none e t = absurd (omega (arith, t.0, counted))
      from (some l) e t = (l, e)

module _ (n : ℕ) (small : n < 2 ^ 64) (b : OrderBook) (v : IsBook n b) where
  abbrev pub without : MemPool Order → OrderId → OrderBook
  without q k = record b { order_pool = q; order_map = remove k b.order_map }

  -- The links are left alone, and the slot is given back.
  unlink_lem :
      (k i : ℕ) (o : Order) (ls : Map Price PriceLevel) (l : PriceLevel) (q : MemPool Order)
      → b.order_pool.storage i ≡ some o
      → deallocate_by_index n b.order_pool i ≡ done q
      → unlink n (record b { order_map = remove k b.order_map }) i o ls l
        ≡ done (some o, withdraw (without q k) o ls l)
  unfolding unlink
  unlink_lem k i o ls l q reads freed =
      rw (modify_prev n b.order_pool b.order_map (levels b) v i o reads, v.no_next i o reads, freed)

  levels-without :
      (q : MemPool Order) (k : OrderId) (t : Side) → levels (without q k) t ≡ levels b t
  levels-without q k buy = refl
  levels-without q k sell = refl

  withdraw_lem :
      (k i : ℕ) (o : Order) (l : PriceLevel) (q : MemPool Order)
      → lookup k b.order_map ≡ some i
      → b.order_pool.storage i ≡ some o
      → lookup o.price (levels b o.side) ≡ some l
      → IsValid n q
      → ((x : ℕ) → x ≢ i → IsFree q x → IsFree b.order_pool x)
      → q.storage ≡ b.order_pool.storage
      → q.free_count ≡ b.order_pool.free_count + 1
      → let b' = withdraw (without q k) o (levels b o.side) l in
        IsBook n b'
        × ((j : OrderId) → live b' j ≡ (if k == j then none else live b j))
        × (b'.next_priority ≡ b.next_priority)
        × (b'.ticker_id ≡ b.ticker_id)
  unfolding withdraw
  withdraw_lem k i o l q found reads level valid back same count = (
    IsBook-with_levels n (without q k) o.side ls' (levels b) (levels-without q k) (
        subst
          (λ (s : ℕ → Option Order).
            IsStore n (record q { storage = s }) (remove k b.order_map)
              (λ t. if side_eq o.side t then ls' else levels b t))
          (sym same)
          (cancel-IsStore n small b.order_pool q b.order_map (levels b) k i o l v found reads level
            valid back count)),
    (λ j.
        live-with_levels (without q k) o.side ls' j
        ∙ ap (λ (s : ℕ → Option Order). live_in s (remove k b.order_map) j) same
        ∙ live_in-remove b.order_pool.storage b.order_map k j),
    (scalars-with_levels (without q k) o.side ls').0,
    (scalars-with_levels (without q k) o.side ls').1,
  )
    where
      ls' : Map Price PriceLevel
      ls' =
          let l' = leave_level l o in
          if l'.order_count == 0
          then remove o.price (levels b o.side)
          else insert o.price l' (levels b o.side)

  -- What a call finds and leaves when the order is live.
  pub cancel_live :
      (k i : ℕ) (o : Order) (l : PriceLevel)
      → lookup k b.order_map ≡ some i
      → b.order_pool.storage i ≡ some o
      → lookup o.price (levels b o.side) ≡ some l
      → (q : MemPool Order) × (cancel_order n b k
          ≡ done (some o, withdraw (without q k) o (levels b o.side) l))
        × (let b' = withdraw (without q k) o (levels b o.side) l in
            IsBook n b'
            × ((j : OrderId) → live b' j ≡ (if k == j then none else live b j))
            × (b'.next_priority ≡ b.next_priority)
            × (b'.ticker_id ≡ b.ticker_id))
  unfolding cancel_order
  cancel_live k i o l found reads level =
      let (lt, held, _) = v.slot k i found in
      let (q, freed, valid, _, _, back, same, count) =
        deallocate_by_index_lem n b.order_pool i v.valid lt held in
      (
        q,
        rw (found, cancel_order, lt→ltb i n lt, reads, level)
            (unlink_lem k i o (levels b o.side) l q reads freed),
        withdraw_lem k i o l q found reads level valid back same count,
      )

  -- On a book that keeps the invariant `cancel_order` returns and keeps it. It answers none, and
  -- leaves the book as it is, exactly when the identifier is not live; otherwise it answers the live
  -- order of that identifier, and exactly this order is live no more.
  pub cancel_order_lem :
      (k : OrderId)
      → (r : Option Order × OrderBook) × (cancel_order n b k ≡ done r)
        × IsBook n r.1
        × Cancels b k r
  unfolding cancel_order
  cancel_order_lem k = elim (Option-cases (lookup k b.order_map)) [
    | inl absent ↦
        ((none, b), rw (absent, cancel_order), v, (ap (seen_at b.order_pool.storage) absent, refl))
    | inr (i, found) ↦
        let (o, reads, named) = (v.slot k i found).2 in
        let (l, level) = level_of n b v k i o found reads in
        let (q, made, kept) = cancel_live k i o l found reads level in
        (
          (some o, withdraw (without q k) o (levels b o.side) l),
          made,
          kept.0,
          (ap (seen_at b.order_pool.storage) found ∙ ap seen reads, named, kept.1, kept.2, kept.3),
        )
  ]
