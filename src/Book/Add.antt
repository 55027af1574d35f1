-- ===== src/Book/Add.antt =====
-- exchange/src/order_book.rs: what `add_order` does to the live orders.
use rust_low_latency_trading.Prelude.{
  ℕ, ◌+◌, ◌^◌, ◌<◌, ◌≡◌, ◌≢◌, refl, arith, Option, none, some, if◌then◌else◌, subst, sym, ap, ◌∙◌,
  inl, inr, ◌⊎◌, Option-cases, ◌==◌, update, wrap64,
}
use rust_low_latency_trading.Prelude.Run.{done}
use rust_low_latency_trading.Prelude.Map.{lookup, insert, size, ℕ_eq, ℤ_eq}
use rust_low_latency_trading.Types.{Side, side_eq, buy, sell, Price, Qty, OrderId, ClientId}
use rust_low_latency_trading.Pool.{MemPool, PoolPtr}
use rust_low_latency_trading.Pool.Valid.{IsFree, IsValid, Allocates, allocate_lem}
use rust_low_latency_trading.Book.{
  Order, OrderBook, levels, level_at, filled, new_order, join_level, place, add_order,
}
use rust_low_latency_trading.Book.Invariant.{IsStore, IsBook, IsBook-with_levels}
use rust_low_latency_trading.Book.Place.{place-IsStore}
use rust_low_latency_trading.Book.Live.{
  Resting, resting, seen_at, live, live_in, live_in-insert, live-with_levels, scalars-with_levels,
}

-- The outcome of adding order `k`: a refusal leaves the live orders alone, and is given only if `k`
-- is live or all slots are taken; otherwise exactly `k` is new, with the next priority.
abbrev pub Adds : ℕ → OrderBook → OrderId → Resting → Option PoolPtr × OrderBook → Type 0
Adds n b k x (none, b') =
    ((j : OrderId) → live b' j ≡ live b j)
    × ((live b k ≢ none) ⊎ (size b.order_map ≡ n))
    × (b'.ticker_id ≡ b.ticker_id)
Adds n b k x (some ptr, b') =
    (live b k ≡ none)
    × ((j : OrderId) → live b' j ≡ (if k == j then some x else live b j))
    × (b'.next_priority ≡ wrap64 (b.next_priority + 1))
    × (b'.ticker_id ≡ b.ticker_id)

module _ (n : ℕ) (small : n < 2 ^ 64) (b : OrderBook) (v : IsBook n b) where
  levels-filled :
      (q : MemPool Order) (idx : ℕ) (o : Order) (t : Side)
      → levels (filled b q idx o) t ≡ levels b t
  levels-filled q idx o buy = refl
  levels-filled q idx o sell = refl

  place-IsBook :
      (q : MemPool Order) (idx : ℕ) (o : Order)
      → IsValid n q
      → Allocates n b.order_pool (some (record { index = idx }), q)
      → lookup o.order_id b.order_map ≡ none
      → o.prev_idx ≡ (level_at (levels b o.side) o.price).tail_idx
      → o.next_idx ≡ none
      → o.qty < 2 ^ 32
      → IsBook n (place b q idx o)
  unfolding place
  place-IsBook q idx o valid has fresh prev nn range =
      IsBook-with_levels n (filled b q idx o) o.side _ (levels b) (levels-filled q idx o) (
        subst
          (λ (s : ℕ → Option Order).
            IsStore n (record q { storage = update s idx (some o) })
              (insert o.order_id idx b.order_map)
              (λ t.
                if side_eq o.side t
                then insert o.price (join_level (level_at (levels b o.side) o.price) idx o.qty)
                    (levels b o.side)
                else levels b t))
          (sym has.5)
          (place-IsStore n small b.order_pool q b.order_map (levels b) idx o v has fresh prev valid
            nn range))

  live-place :
      (q : MemPool Order) (idx : ℕ) (o : Order) (j : OrderId)
      → Allocates n b.order_pool (some (record { index = idx }), q)
      → live (place b q idx o) j ≡ (if o.order_id == j then some (resting o) else live b j)
  unfolding place
  live-place q idx o j has =
      live-with_levels (filled b q idx o) o.side _ j
      ∙ ap
          (λ (s : ℕ → Option Order).
            live_in (update s idx (some o)) (insert o.order_id idx b.order_map) j)
          has.5
      ∙ live_in-insert b.order_pool.storage b.order_map o.order_id idx o j
          (λ i e s. (v.slot j i e).1 (subst (IsFree b.order_pool) (sym s) has.1))

  scalars-place :
      (q : MemPool Order) (idx : ℕ) (o : Order)
      → ((place b q idx o).next_priority ≡ wrap64 (b.next_priority + 1))
        × ((place b q idx o).ticker_id ≡ b.ticker_id)
  unfolding place
  scalars-place q idx o = scalars-with_levels (filled b q idx o) o.side _

  -- The identifiers in the order map are exactly the live ones.
  pub lookup-live : (k : OrderId) → live b k ≡ none → lookup k b.order_map ≡ none
  lookup-live k e = elim (Option-cases (lookup k b.order_map)) [
    | inl absent ↦ absent
    | inr (i, found) ↦ let (a, w, _) = (v.slot k i found).2 in absurd (ground (arith, e, found, w))
  ]

  pub lookup-live-some : (k : OrderId) (i : ℕ) → lookup k b.order_map ≡ some i → live b k ≢ none
  lookup-live-some k i found e = let absent : lookup k b.order_map ≡ none = lookup-live k e in cc

  -- On a book that keeps the invariant, with a u32 quantity, `add_order` returns and keeps it. It
  -- refuses, with no change of the live orders, only an identifier that is live already or any at
  -- all when every slot is taken; otherwise exactly the new order becomes live, with the next
  -- priority, which is used up.
  pub add_order_lem :
      (client_id : ClientId) (k : OrderId) (side : Side) (price : Price) (qty : Qty)
      → qty < 2 ^ 32
      → (r : Option PoolPtr × OrderBook) × (add_order n b client_id k side price qty ≡ done r)
        × IsBook n r.1
        × Adds n b k (resting (new_order b client_id k side price qty)) r
  unfolding add_order
  add_order_lem client_id k side price qty range = elim (Option-cases (lookup k b.order_map)) [
    | inr (i, found) ↦
        ((none, b), rw (found, add_order), v, ((λ j. refl), inl (lookup-live-some k i found), refl))
    | inl fresh ↦
        let (r, made, valid, has) = allocate_lem n b.order_pool v.valid in
        let (s, e, h) = finish r fresh valid has in (s, rw (fresh, add_order, made) e, h.0, h.1)
  ]
    where
      o : Order
      o = new_order b client_id k side price qty

      same :
          {q : MemPool Order}
          → q ≡ b.order_pool
          → ◌≡◌ {A = OrderBook} (record b { order_pool = q }) b
      same e = ap (λ (q : MemPool Order). record b { order_pool = q }) e

      finish :
          (r : Option PoolPtr × MemPool Order)
          → lookup k b.order_map ≡ none
          → IsValid n r.1
          → Allocates n b.order_pool r
          → (s : Option PoolPtr × OrderBook) × ((elim r.0 [
            | none ↦ done (none, record b { order_pool = r.1 })
            | some ptr ↦ done (some ptr, place b r.1 ptr.index o)
          ])
              ≡ done s)
            × (IsBook n s.1 × Adds n b k (resting o) s)
      finish (none, q) fresh valid has = (
        (none, record b { order_pool = q }),
        refl,
        (
          subst (IsBook n) (sym (same has.1)) v,
          (
            (λ j. ap (λ (c : OrderBook). live c j) (same has.1)),
            inr (omega (arith, v.room, has.0)),
            refl,
          ),
        ),
      )
      finish (some ptr, q) fresh valid has = (
        (some ptr, place b q ptr.index o),
        refl,
        (
          place-IsBook q ptr.index o valid has fresh refl refl range,
          (
            ap (seen_at b.order_pool.storage) fresh,
            (λ j. live-place q ptr.index o j has),
            (scalars-place q ptr.index o).0,
            (scalars-place q ptr.index o).1,
          ),
        ),
      )
