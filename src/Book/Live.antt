-- ===== src/Book/Live.antt =====
-- exchange/src/order_book.rs seen from outside: which orders are live, and what they ask for.
use rust_low_latency_trading.Prelude.{
  ℕ, ◌≡◌, refl, Option, none, some, ap, ◌∙◌, if◌then◌else◌, ◌==◌, update, update_ne, update_self,
  Bool-cases, inl, inr, sym, ◌≢◌,
}
use rust_low_latency_trading.Prelude.Map.{
  Map, lookup, insert, remove, lookup-insert, lookup-remove, ℕ_eq,
}
use rust_low_latency_trading.Types.{
  OrderId, TickerId, ClientId, Price, Qty, Priority, Side, buy, sell,
}
use rust_low_latency_trading.Book.{Order, PriceLevel, OrderBook, with_levels}

-- An order without its place in the store.
pub record Resting : Type 0 where
  pub client_id : ClientId
  pub ticker_id : TickerId
  pub side : Side
  pub price : Price
  pub qty : Qty
  pub priority : Priority

abbrev pub resting : Order → Resting
resting o = record {
  client_id = o.client_id;
  ticker_id = o.ticker_id;
  side = o.side;
  price = o.price;
  qty = o.qty;
  priority = o.priority;
}

abbrev pub seen : Option Order → Option Resting
seen none = none
seen (some o) = some (resting o)

abbrev pub seen_at : (ℕ → Option Order) → Option ℕ → Option Resting
seen_at slots none = none
seen_at slots (some i) = seen (slots i)

abbrev pub live_in : (ℕ → Option Order) → Map OrderId ℕ → OrderId → Option Resting
live_in slots m k = seen_at slots (lookup k m)

-- The live orders of a book, by identifier.
abbrev pub live : OrderBook → OrderId → Option Resting
live b = live_in b.order_pool.storage b.order_map

pub live-with_levels :
    (b : OrderBook) (s : Side) (ls : Map Price PriceLevel) (k : OrderId)
    → live (with_levels b s ls) k ≡ live b k
live-with_levels b buy ls k = refl
live-with_levels b sell ls k = refl

pub scalars-with_levels :
    (b : OrderBook) (s : Side) (ls : Map Price PriceLevel)
    → ((with_levels b s ls).next_priority ≡ b.next_priority)
      × ((with_levels b s ls).ticker_id ≡ b.ticker_id)
scalars-with_levels b buy ls = (refl, refl)
scalars-with_levels b sell ls = (refl, refl)

-- A new entry in a slot of its own changes what is seen of its key alone.
pub live_in-insert :
    (slots : ℕ → Option Order) (m : Map OrderId ℕ) (k idx : ℕ) (o : Order) (j : OrderId)
    → ((i : ℕ) → lookup j m ≡ some i → i ≢ idx)
    → live_in (update slots idx (some o)) (insert k idx m) j
      ≡ (if k == j then some (resting o) else live_in slots m j)
live_in-insert slots m k idx o j away =
    ap (seen_at (update slots idx (some o))) (lookup-insert k j idx m)
    ∙ elim (Bool-cases (k == j)) [
      | inl hit ↦ rw hit (ap seen (update_self slots idx (some o)))
      | inr miss ↦ rw miss (other (lookup j m) refl)
    ]
  where
    other :
        (r : Option ℕ) → lookup j m ≡ r → seen_at (update slots idx (some o)) r ≡ seen_at slots r
    other none e = refl
    other (some i) e = ap seen (update_ne slots idx i (some o) (λ s. away i e (sym s)))

-- A removed key is no longer seen; the others are as they were.
pub live_in-remove :
    (slots : ℕ → Option Order) (m : Map OrderId ℕ) (k j : OrderId)
    → live_in slots (remove k m) j ≡ (if k == j then none else live_in slots m j)
live_in-remove slots m k j =
    ap (seen_at slots) (lookup-remove k j m)
    ∙ elim (Bool-cases (k == j)) [ inl hit ↦ rw hit | inr miss ↦ rw miss ]
