-- ===== src/Publisher/Sides.antt =====
-- exchange/src/market_data.rs with trading/src/market_data.rs: both ends keep the best prices of a
-- ticker by code of their own. One side of it, at both ends.
use rust_low_latency_trading.Prelude.{
  ℕ, ◌-◌, ◌<◌, ◌≡◌, ◌⊎◌, refl, arith, inl, inr, Bool, if◌then◌else◌, ltb, ==_iff, ◌^◌, ◌||◌,
  Bool-cases, sym, ap, ◌∙◌,
}
use rust_low_latency_trading.Prelude.Int.{pos, ltb_ℤ}
use rust_low_latency_trading.Prelude.Map.{◌==◌, ℕ_eq, ℤ_eq}
use rust_low_latency_trading.Types.{Price, Qty, invalid_price}
use rust_low_latency_trading.Bbo
use rust_low_latency_trading.Publisher.Ticker
use rust_low_latency_trading.Publisher.Ticker.{TickerState, bid_shows}

-- A price that stands for orders at both ends.
abbrev pub IsPrice : ℕ → Type 0
IsPrice n = (0 < n) × (n < 2 ^ 63 - 1)

-- A side at both ends: no price at both, 0 here and the invalid one there, or one and the same price.
abbrev pub SameSide : Price → Qty → Price → Qty → Type 0
SameSide p q p' q' =
    ((p ≡ pos 0) × (q ≡ 0) × (p' ≡ invalid_price) × (q' ≡ 0))
    ⊎ ((n : ℕ) × IsPrice n × (p ≡ pos n) × (p' ≡ pos n) × (q' ≡ q))

-- What a message makes of the price and the quantity of one side, at the publisher and at a receiver;
-- `better` tells whether its price is better than that of the side.
abbrev pub joins : Bool → Bool → Bool → Price → Qty → Price → Qty → Price × Qty
joins better unset same p q price qty =
    if better || unset then (price, qty) else if same then (p, qty) else (p, q)

abbrev pub here_add : (Price → Price → Bool) → Price → Qty → Price → Qty → Price × Qty
here_add better p q price qty = joins (better price p) (p == pos 0) (price == p) p q price qty

abbrev pub there_add : (Price → Price → Bool) → Price → Qty → Price → Qty → Price × Qty
there_add better p q price qty =
    joins (better price p) (p == invalid_price) (price == p) p q price qty

abbrev pub above : Price → Price → Bool
above price p = ltb_ℤ p price

abbrev pub below : Price → Price → Bool
below price p = ltb_ℤ price p

pub add_same_bid :
    (p : Price) (q : Qty) (p' : Price) (q' n qty : ℕ)
    → IsPrice n
    → SameSide p q p' q'
    → SameSide
        (here_add above p q (pos n) qty).0
        (here_add above p q (pos n) qty).1
        (there_add above p' q' (pos n) qty).0
        (there_add above p' q' (pos n) qty).1
add_same_bid p q p' q' n qty h (inl (e1, e2, e3, e4)) =
    rw (e1, e2, e3, e4)
      (inr (n, h, ground (arith, h.0, h.1), ground (arith, h.0, h.1), ground (arith, h.0, h.1)))
add_same_bid p q p' q' n qty h (inr (m, hm, e1, e2, e3)) =
    rw (e1, e2, e3)
      (inr (
        if ltb m n then n else m,
        (ground (arith, h.0, hm.0), ground (arith, h.1, hm.1)),
        ground (arith, h.0, h.1, hm.0, hm.1),
        ground (arith, h.0, h.1, hm.0, hm.1),
        ground (arith, h.0, h.1, hm.0, hm.1),
      ))

pub add_same_ask :
    (p : Price) (q : Qty) (p' : Price) (q' n qty : ℕ)
    → IsPrice n
    → SameSide p q p' q'
    → SameSide
        (here_add below p q (pos n) qty).0
        (here_add below p q (pos n) qty).1
        (there_add below p' q' (pos n) qty).0
        (there_add below p' q' (pos n) qty).1
add_same_ask p q p' q' n qty h (inl (e1, e2, e3, e4)) =
    rw (e1, e2, e3, e4)
      (inr (n, h, ground (arith, h.0, h.1), ground (arith, h.0, h.1), ground (arith, h.0, h.1)))
add_same_ask p q p' q' n qty h (inr (m, hm, e1, e2, e3)) =
    rw (e1, e2, e3)
      (inr (
        if ltb n m then n else m,
        (ground (arith, h.0, hm.0), ground (arith, h.1, hm.1)),
        ground (arith, h.0, h.1, hm.0, hm.1),
        ground (arith, h.0, h.1, hm.0, hm.1),
        ground (arith, h.0, h.1, hm.0, hm.1),
      ))

-- A trade takes from a side, and a cancel may.
pub take_same :
    (p : Price) (q : Qty) (p' : Price) (q' n qty : ℕ)
    → IsPrice n
    → SameSide p q p' q'
    → SameSide p (if pos n == p then q - qty else q) p' (if pos n == p' then q' - qty else q')
take_same p q p' q' n qty h (inl (e1, e2, e3, e4)) =
    rw (e1, e2, e3, e4) (inl (refl, ground (arith, h.0, h.1), refl, ground (arith, h.0, h.1)))
take_same p q p' q' n qty h (inr (m, hm, e1, e2, e3)) =
    rw (e1, e2, e3) (inr (m, hm, refl, refl, refl))

-- A cancel that takes something, and not all, of the best level.
abbrev pub LeavesSome : Price → Qty → ℕ → Qty → Type 0
LeavesSome p q n qty = (p ≡ pos n) → (0 < qty) × (qty < q)

pub cancel_same :
    (p : Price) (q : Qty) (p' : Price) (q' n qty : ℕ)
    → IsPrice n
    → LeavesSome p q n qty
    → SameSide p q p' q'
    → SameSide
        (if pos n == p then Ticker.price_left p (q - qty) else p)
        (if pos n == p then q - qty else q)
        p'
        (if pos n == p' then Bbo.after_cancel qty q' else q')
cancel_same p q p' q' n qty h some_left (inl (e1, e2, e3, e4)) =
    rw (e1, e2, e3, e4)
      (inl (ground (arith, h.0, h.1), ground (arith, h.0, h.1), refl, ground (arith, h.0, h.1)))
cancel_same p q p' q' n qty h some_left (inr (m, hm, e1, e2, e3)) = elim (Bool-cases (n == m)) [
  | inl same ↦
      let left = some_left (e1 ∙ ap (λ (k : ℕ). pos k) (sym ((==_iff n m).0 same))) in
      rw (e1, e2, e3, same)
        (inr (m, hm, ground (arith, left.0, left.1), refl, ground (arith, left.0, left.1)))
  | inr different ↦ rw (e1, e2, e3, different) (inr (m, hm, refl, refl, refl))
]
