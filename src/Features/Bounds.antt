-- ===== src/Features/Bounds.antt =====
-- trading/src/features.rs: what an update makes of the features, and the ranges of its results.
use rust_low_latency_trading.Prelude.{
  ◌≡◌, refl, ap, ◌∙◌, arith, inl, inr, true, false, not, ◌||◌, some, if◌then◌else◌, Bool-cases, ◌⊎◌,
}
use rust_low_latency_trading.Prelude.Int.{ℤ, pos, negsuc, ltb_ℤ, ◌+ℤ◌, ◌-ℤ◌, ◌≤ℤ◌}
use rust_low_latency_trading.Prelude.I64
use rust_low_latency_trading.Prelude.I64.{IsI64, wrap_small}
use rust_low_latency_trading.Prelude.Map.{lookup, insert, ◌==◌, ℕ_eq, ℤ_eq, lookup-insert}
use rust_low_latency_trading.Types.{TickerId, Price}
use rust_low_latency_trading.Bbo
use rust_low_latency_trading.Float.{Float, one_f, clamp-Within, Within}
use rust_low_latency_trading.Features.{
  TickerFeatures, FeatureEngine, signal_of, measured, signalled, or_new, on_bbo_update, mid_of,
  smoothed, is_valid,
}

-- Half of a sum lies between its parts.
half_between :
    (a b : ℤ) → a ≤ℤ b → (a ≤ℤ I64.quotient (a +ℤ b) (pos 2)) × (I64.quotient (a +ℤ b) (pos 2) ≤ℤ b)
unfolding ◌+ℤ◌ ◌-ℤ◌
half_between (pos a) (pos b) h = ground arith
half_between (pos a) (negsuc b) h = ground arith
half_between (negsuc a) (pos b) h = ground arith
half_between (negsuc a) (negsuc b) h = ground arith

mid_between :
    (a b : ℤ)
    → a ≤ℤ b
    → IsI64 (a +ℤ b)
    → (a ≤ℤ I64.quotient (I64.add a b) (pos 2)) × (I64.quotient (I64.add a b) (pos 2) ≤ℤ b)
mid_between a b h range = rw (wrap_small (a +ℤ b) range) (half_between a b h)

module _ (f : Float) where
  signal-Within :
      (t : TickerFeatures f) → Within f (f.decimal (negsuc 0) 0) (one_f f) (signal_of f t)
  unfolding signal_of
  signal-Within t = elim (Bool-cases (not (is_valid f t) || not (ltb_ℤ (pos 0) t.spread))) [
    | inl still ↦ rw (signal_of, still) (f.zero_above_minus_one, f.one_above_zero)
    | inr moves ↦
        rw (signal_of, moves)
          (clamp-Within f _ (f.decimal (negsuc 0) 0) (one_f f) f.one_above_minus_one)
  ]

  first_or_not :
      (alpha : f.F) (mid fair_value : Price)
      → ((fair_value == pos 0) ≡ false) ⊎ (smoothed f alpha mid fair_value ≡ mid)
  unfolding smoothed
  first_or_not alpha mid fair_value = elim (Bool-cases (fair_value == pos 0)) [
    | inl first ↦ inr (rw (smoothed, first) refl)
    | inr later ↦ inl later
  ]

  -- An update with a best bid and offer that is not valid changes nothing.
  pub on_bbo_update_ignores :
      (e : FeatureEngine f) (id : TickerId) (b : Bbo.Bbo)
      → Bbo.is_valid b ≡ false
      → on_bbo_update f e id b ≡ e
  unfolding on_bbo_update
  on_bbo_update_ignores e id b invalid = rw (on_bbo_update, invalid) refl

  stored_in :
      (e : FeatureEngine f) (id : TickerId) (b : Bbo.Bbo)
      → Bbo.is_valid b ≡ true
      → on_bbo_update f e id b ≡ record e {
        features =
            insert id
              (signalled f (measured f e.fair_value_alpha b (or_new f id (lookup id e.features))))
              e.features;
      }
  unfolding on_bbo_update
  stored_in e id b valid = rw (on_bbo_update, valid) refl

  -- A valid best bid and offer, with bid <= ask, at prices whose sum and difference are in the range of
  -- `i64`, gives its ticker features whose mid price lies between the two, whose spread is their
  -- difference, whose fair value is the mid price if there was none before, and whose signal is neither
  -- below -1 nor above 1; and the features of the other tickers stay.
  pub on_bbo_update_bounds :
      (e : FeatureEngine f) (id j : TickerId) (b : Bbo.Bbo)
      → b.bid_price ≤ℤ b.ask_price
      → IsI64 (b.bid_price +ℤ b.ask_price)
      → IsI64 (b.ask_price -ℤ b.bid_price)
      → Bbo.is_valid b ≡ true
      → let after = (on_bbo_update f e id b).features in
        (t : TickerFeatures f) × (lookup j after
          ≡ (if id == j then some t else lookup j e.features))
        × (b.bid_price ≤ℤ t.mid_price)
        × (t.mid_price ≤ℤ b.ask_price)
        × (t.spread ≡ b.ask_price -ℤ b.bid_price)
        × ((((or_new f id (lookup id e.features)).fair_value == pos 0) ≡ false)
            ⊎ (t.fair_value ≡ t.mid_price))
        × Within f (f.decimal (negsuc 0) 0) (one_f f) t.trade_signal
  unfolding on_bbo_update measured smoothed
  on_bbo_update_bounds e id j b h sum_range spread_range valid =
      let old = or_new f id (lookup id e.features) in
      let t = signalled f (measured f e.fair_value_alpha b old) in
      let mid = mid_between b.bid_price b.ask_price h sum_range in
      let stored =
        ap (λ (x : FeatureEngine f). lookup j x.features) (stored_in e id b valid)
        ∙ lookup-insert id j t e.features in
      (
        t,
        stored,
        mid.0,
        mid.1,
        wrap_small (b.ask_price -ℤ b.bid_price) spread_range,
        first_or_not e.fair_value_alpha (mid_of f b) old.fair_value,
        signal-Within (measured f e.fair_value_alpha b old),
      )
