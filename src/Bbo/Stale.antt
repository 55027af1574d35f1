-- ===== src/Bbo/Stale.antt =====
-- trading/src/market_data.rs: what is seen of the bids after the best one was cancelled.
use rust_low_latency_trading.Prelude.{
  ◌≤◌, ◌≡◌, ◌≢◌, refl, arith, true, false, ◌∙◌, ap, List, [], ◌∷◌, Bool-cases, inl, inr,
}
use rust_low_latency_trading.Prelude.Int.{ℤ, ltb_ℤ}
use rust_low_latency_trading.Prelude.Map.{ℤ_beq_iff, ◌==◌, ℤ_eq}
use rust_low_latency_trading.Types.{Price, Qty, buy, as_sign, invalid_price}
use rust_low_latency_trading.Bbo.{Bbo, has_bid, on_add, on_cancel, after_cancel}

-- Bids added in a row.
pub record Bid : Type 0 where
  pub price : Price
  pub qty : Qty

unfoldable pub add_bids : Bbo → List Bid → Bbo
add_bids b [] = b
add_bids b (d ∷ ds) = add_bids (on_add b (as_sign buy) d.price d.qty) ds

-- No bid of the list is higher than the price, and none is at it.
abbrev pub AllBelow : Price → List Bid → Type 0
AllBelow p [] = Unit
AllBelow p (d ∷ ds) = (ltb_ℤ d.price p ≡ true) × AllBelow p ds

lower_ignored :
    (b : Bbo) (price : Price) (qty : Qty)
    → b.bid_price ≢ invalid_price
    → ltb_ℤ price b.bid_price ≡ true
    → on_add b (as_sign buy) price qty ≡ b
lower_ignored b price qty real low = rw (not_higher, not_missing, not_same) refl
  where
    not_higher : ltb_ℤ b.bid_price price ≡ false
    not_higher = ground (arith, low)

    not_missing : (b.bid_price == invalid_price) ≡ false
    not_missing = elim (Bool-cases (b.bid_price == invalid_price)) [
      | inl e ↦ absurd (real ((ℤ_beq_iff b.bid_price invalid_price).0 e))
      | inr e ↦ e
    ]

    not_same : (price == b.bid_price) ≡ false
    not_same = elim (Bool-cases (price == b.bid_price)) [
      | inl e ↦ absurd (
          ground
            (arith, low, ap (λ (p : ℤ). ltb_ℤ p b.bid_price) ((ℤ_beq_iff price b.bid_price).0 e)))
      | inr e ↦ e
    ]

lowers_ignored :
    (b : Bbo) (ds : List Bid)
    → b.bid_price ≢ invalid_price
    → AllBelow b.bid_price ds
    → add_bids b ds ≡ b
unfolding add_bids
lowers_ignored b [] real below = refl
lowers_ignored b (d ∷ ds) real (low, below) =
    rw (lower_ignored b d.price d.qty real low) (lowers_ignored b ds real below)

cancelled :
    (b : Bbo) (qty : Qty)
    → b.bid_qty ≤ qty
    → on_cancel b (as_sign buy) b.bid_price qty ≡ record b { bid_qty = 0 }
cancelled b qty all = rw (found, emptied) refl
  where
    found : (b.bid_price == b.bid_price) ≡ true
    found = (ℤ_beq_iff b.bid_price b.bid_price).1 refl

    emptied : after_cancel qty b.bid_qty ≡ 0
    emptied = ground (arith, all)

-- Once the best bid is cancelled for all of its quantity, no number of lower bids brings a bid
-- back: the price stays that of the cancelled bid with quantity 0, and there is no bid to be seen.
pub cancelled_best_hides_lower :
    (b : Bbo) (qty : Qty) (ds : List Bid)
    → b.bid_price ≢ invalid_price
    → b.bid_qty ≤ qty
    → AllBelow b.bid_price ds
    → (c : Bbo) × (add_bids (on_cancel b (as_sign buy) b.bid_price qty) ds ≡ c)
      × (c.bid_price ≡ b.bid_price)
      × (c.bid_qty ≡ 0)
      × (has_bid c ≡ false)
cancelled_best_hides_lower b qty ds real all below = (
  record b { bid_qty = 0 },
  ap (λ a. add_bids a ds) (cancelled b qty all)
      ∙ lowers_ignored (record b { bid_qty = 0 }) ds real below,
  refl,
  refl,
  ground arith,
)
