-- ===== src/Bbo/Tests.antt =====
-- trading/src/market_data.rs: the best bid is cancelled, then a lower one is added.
use rust_low_latency_trading.Prelude.{◌≡◌, refl, arith, ap, false, List, [], ◌∷◌}
use rust_low_latency_trading.Prelude.Int.{pos, pos_part}
use rust_low_latency_trading.Prelude.Map.{ℤ_eq}
use rust_low_latency_trading.Types.{buy, as_sign}
use rust_low_latency_trading.Bbo.{Bbo, new, has_bid, on_add, on_cancel}
use rust_low_latency_trading.Bbo.Stale.{Bid, add_bids, cancelled_best_hides_lower}

abbrev one_bid : Bbo
one_bid = on_add new (as_sign buy) (pos 100) 7

abbrev lower : List Bid
lower = record { price = pos 99; qty = 5 } ∷ record { price = pos 98; qty = 5 } ∷ []

cancelled_best_hides_lower_example :
    (c : Bbo) × (add_bids (on_cancel one_bid (as_sign buy) (pos 100) 7) lower ≡ c)
    × (c.bid_price ≡ pos 100)
    × (c.bid_qty ≡ 0)
    × (has_bid c ≡ false)
cancelled_best_hides_lower_example =
    cancelled_best_hides_lower one_bid 7 lower (λ e. omega (arith, ap pos_part e)) (omega arith)
      (refl, (refl, tt))
