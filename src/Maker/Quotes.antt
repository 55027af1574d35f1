-- ===== src/Maker/Quotes.antt =====
-- trading/src/strategies/market_maker.rs: what the market maker quotes, whatever the arithmetic of its
-- floats.
use rust_low_latency_trading.Prelude.{
  ℕ, ◌-◌, ◌^◌, ◌≤◌, ◌≡◌, refl, ap, ◌∙◌, arith, inl, inr, Bool, true, false, not, Option, none, some,
  if◌then◌else◌, ltb, Bool-cases, ==_iff, ◌⊎◌,
}
use rust_low_latency_trading.Prelude.Int.{ℤ, pos, negsuc, ltb_ℤ, ◌-ℤ◌}
use rust_low_latency_trading.Prelude.I64
use rust_low_latency_trading.Prelude.I64.{IsI64, wrap, wrap-IsI64}
use rust_low_latency_trading.Prelude.Map.{◌==◌, ℕ_eq, ℤ_eq}
use rust_low_latency_trading.Prelude.Run.{done}
use rust_low_latency_trading.Types.{Price, Qty, Side, buy, sell}
use rust_low_latency_trading.Trade.Actions.{
  OrderRequest, StrategyAction, nothing, quote, take, cancel_all,
}
use rust_low_latency_trading.Float.{Float}
use rust_low_latency_trading.Features.{TickerFeatures, is_valid}
use rust_low_latency_trading.Maker.{
  MarketMaker, clamp_u32, bid_size, ask_size, calculate_quantities, calculate_quotes,
  should_update_quotes, build_quote_pair, requote, on_features,
}

-- The least price of the machine.
abbrev pub least_price : Price
least_price = negsuc (2 ^ 63 - 1)

below_one_less :
    (a b : ℤ) → IsI64 b → (b ≡ least_price) ⊎ (ltb_ℤ (I64.min a (I64.sub b (pos 1))) b ≡ true)
unfolding wrap ◌-ℤ◌
below_one_less (pos a) (pos b) h = inr (ground (arith, h.above))
below_one_less (negsuc a) (pos b) h = inr (ground (arith, h.above))
below_one_less (pos a) (negsuc b) h = elim (Bool-cases (b == 2 ^ 63 - 1)) [
  | inl least ↦ inl (ap (λ (k : ℕ). negsuc k) ((==_iff b (2 ^ 63 - 1)).0 least))
  | inr more ↦ inr (ground (arith, h.below))
]
below_one_less (negsuc a) (negsuc b) h = elim (Bool-cases (b == 2 ^ 63 - 1)) [
  | inl least ↦ inl (ap (λ (k : ℕ). negsuc k) ((==_iff b (2 ^ 63 - 1)).0 least))
  | inr more ↦ inr (ground (arith, h.below))
]

-- The three tests of `on_features`.
abbrev gated {ℓ} : {A : Type ℓ} → Bool → Bool → Bool → A → A → A
gated active valid moves idle acts =
    if not active then idle else if not valid then idle else if moves then acts else idle

all_pass {ℓ} :
    {A : Type ℓ} (active valid moves : Bool) (idle acts : A)
    → active ≡ true
    → valid ≡ true
    → moves ≡ true
    → gated active valid moves idle acts ≡ acts
all_pass active valid moves idle acts a v m = rw (a, v, m) refl

last_fails {ℓ} :
    {A : Type ℓ} (active valid moves : Bool) (idle acts : A)
    → moves ≡ false
    → gated active valid moves idle acts ≡ idle
last_fails true true moves idle acts m = rw m refl
last_fails true false moves idle acts m = refl
last_fails false valid moves idle acts m = refl

-- A price that did not move.
unmoved : (a : ℤ) → I64.abs (I64.sub a a) ≡ pos 0
unfolding wrap ◌-ℤ◌
unmoved (pos n) = ground arith
unmoved (negsuc n) = ground arith

pub clamp_u32_lem :
    (n high : ℕ) → 1 ≤ high → (q : ℕ) × (clamp_u32 n 1 high ≡ done q) × (1 ≤ q) × (q ≤ high)
unfolding clamp_u32
clamp_u32_lem n high h = (
  if ltb n 1 then 1 else if ltb high n then high else n,
  ground arith,
  ground arith,
  ground arith,
)

module _ (f : Float) where
  -- One side of a pair: no quote, or a quote of the ticker at the price, of 1 up to the most, where the
  -- position leaves room.
  abbrev pub IsQuote : MarketMaker f → Bool → Side → Price → Option OrderRequest → Type 0
  IsQuote m room side price none = Unit {0}
  IsQuote m room side price (some o) =
      (room ≡ true)
      × (o.ticker_id ≡ m.config.ticker_id)
      × (o.side ≡ side)
      × (o.price ≡ price)
      × (1 ≤ o.qty)
      × (o.qty ≤ m.config.max_qty)

  -- Whether the position is below the greatest long one, and above the greatest short one.
  abbrev pub room_to_buy : MarketMaker f → Bool
  room_to_buy m = ltb_ℤ m.current_position m.config.max_position

  abbrev pub room_to_sell : MarketMaker f → Bool
  room_to_sell m = ltb_ℤ (I64.neg m.config.max_position) m.current_position

  -- What the market maker does: nothing, and it stays as it was; or it is active, quotes by the rules,
  -- and keeps the prices.
  abbrev pub IsAction : MarketMaker f → StrategyAction → MarketMaker f → Type 0
  IsAction m nothing m' = m' ≡ m
  IsAction m (quote pair) m' =
      (m.active ≡ true)
      × (m' ≡ record m { last_bid_price = m'.last_bid_price; last_ask_price = m'.last_ask_price })
      × IsQuote m (room_to_buy m) buy m'.last_bid_price pair.bid
      × IsQuote m (room_to_sell m) sell m'.last_ask_price pair.ask
      × ((m'.last_ask_price ≡ least_price) ⊎ (ltb_ℤ m'.last_bid_price m'.last_ask_price ≡ true))
  IsAction m (take o) m' = ⊥
  IsAction m (cancel_all t) m' = ⊥

  -- The two quantities, each 0 if the position is at its limit, and otherwise from 1 to the most.
  abbrev InLimits : MarketMaker f → Bool → ℕ → Type 0
  InLimits m room q = (q ≤ m.config.max_qty) × ((q ≡ 0) ⊎ (room ≡ true))

  calculate_quantities_lem :
      (m : MarketMaker f)
      → 1 ≤ m.config.max_qty
      → (q : Qty × Qty) × (calculate_quantities f m ≡ done q)
        × InLimits m (room_to_buy m) q.0
        × InLimits m (room_to_sell m) q.1
  unfolding calculate_quantities
  calculate_quantities_lem m h =
      let bids = clamp_u32_lem (bid_size f m) m.config.max_qty h in
      let asks = clamp_u32_lem (ask_size f m) m.config.max_qty h in
      let long_room = room_to_buy m in
      let short_room = room_to_sell m in
      (
        (if long_room then bids.0 else 0, if short_room then asks.0 else 0),
        rw (calculate_quantities, bids.1, asks.1) refl,
        limited long_room bids.0 m.config.max_qty bids.3,
        limited short_room asks.0 m.config.max_qty asks.3,
      )
    where
      limited :
          (room : Bool) (q most : ℕ)
          → q ≤ most
          → ((if room then q else 0) ≤ most) × (((if room then q else 0) ≡ 0) ⊎ (room ≡ true))
      limited true q most within = (within, inr refl)
      limited false q most within = (omega arith, inl refl)

  quoted :
      (m : MarketMaker f) (room : Bool) (side : Side) (price : Price) (qty : Qty)
      → InLimits m room qty
      → IsQuote m room side price (
          if ltb 0 qty
          then some record { ticker_id = m.config.ticker_id; side = side; price = price; qty = qty }
          else none)
  quoted m room side price qty (most, inl none_left) = rw none_left tt
  quoted m room side price qty (most, inr leaves) = elim (Bool-cases (ltb 0 qty)) [
    | inl some_qty ↦ rw some_qty (leaves, refl, refl, refl, ground arith, most)
    | inr no_qty ↦ rw no_qty tt
  ]

  requote_lem :
      (m : MarketMaker f) (bid ask : Price)
      → 1 ≤ m.config.max_qty
      → m.active ≡ true
      → (ask ≡ least_price) ⊎ (ltb_ℤ bid ask ≡ true)
      → (action : StrategyAction) × (m' : MarketMaker f) × (requote f m bid ask ≡ done (action, m'))
        × IsAction m action m'
  unfolding requote
  requote_lem m bid ask h active ordered =
      let q = calculate_quantities_lem m h in
      (
        quote (build_quote_pair f m bid (q.0.0) ask (q.0.1)),
        record m { last_bid_price = bid; last_ask_price = ask },
        rw (requote, q.1) refl,
        (
          active,
          refl,
          quoted m (room_to_buy m) buy bid (q.0.0) (q.2),
          quoted m (room_to_sell m) sell ask (q.0.1) (q.3),
          ordered,
        ),
      )

  quotes_ordered :
      (m : MarketMaker f) (t : TickerFeatures f)
      → ((calculate_quotes f m t).1 ≡ least_price)
        ⊎ (ltb_ℤ (calculate_quotes f m t).0 (calculate_quotes f m t).1 ≡ true)
  unfolding calculate_quotes
  quotes_ordered m t = below_one_less _ _ (wrap-IsI64 _)

  -- The market maker never fails where its greatest quantity is at least 1. It does nothing and stays
  -- as it was, or it is active and quotes: each quote is of its ticker, at the price that it keeps, of
  -- 1 up to the greatest quantity; there is no bid at the greatest long position and no ask at the
  -- greatest short one; and the bid price is below the ask price, unless the latter is the least
  -- price of the machine. So it is whatever the arithmetic of the floats gives.
  pub on_features-IsAction :
      (m : MarketMaker f) (t : TickerFeatures f)
      → 1 ≤ m.config.max_qty
      → (action : StrategyAction) × (m' : MarketMaker f) × (on_features f m t ≡ done (action, m'))
        × IsAction m action m'
  unfolding on_features
  on_features-IsAction m t h =
      let q = calculate_quotes f m t in
      elim (Bool-cases m.active) [
        | inr asleep ↦ (nothing, m, rw (on_features, asleep) refl, refl)
        | inl active ↦ elim (Bool-cases (is_valid f t)) [
          | inr invalid ↦ (nothing, m, rw (on_features, active, invalid) refl, refl)
          | inl valid ↦ elim (Bool-cases (should_update_quotes f m (q.0) (q.1))) [
            | inr still ↦ (nothing, m, rw (on_features, active, valid, still) refl, refl)
            | inl moves ↦
                let r = requote_lem m (q.0) (q.1) h active (quotes_ordered m t) in
                (r.0, r.1, all_pass _ _ _ _ _ active valid moves ∙ r.2, r.3)
          ]
        ]
      ]

  -- A market maker whose last prices are those of the features, and are prices, stays silent.
  same_prices_stay :
      (m : MarketMaker f)
      → ltb_ℤ (pos 0) m.config.price_update_threshold ≡ true
      → (m.last_bid_price == pos 0) ≡ false
      → (m.last_ask_price == pos 0) ≡ false
      → should_update_quotes f m m.last_bid_price m.last_ask_price ≡ false
  unfolding should_update_quotes
  same_prices_stay m h bid ask =
      rw (should_update_quotes, bid, ask, unmoved m.last_bid_price, unmoved m.last_ask_price)
        (rw h refl)

  -- After a quote at prices other than 0, with a threshold above 0, the same features give nothing
  -- more, and the market maker stays as it is.
  pub requote_silent :
      (m : MarketMaker f) (t : TickerFeatures f)
      → ltb_ℤ (pos 0) m.config.price_update_threshold ≡ true
      → let q = calculate_quotes f m t in
        let m' = record m { last_bid_price = q.0; last_ask_price = q.1 } in
        (q.0 == pos 0) ≡ false → (q.1 == pos 0) ≡ false → on_features f m' t ≡ done (nothing, m')
  unfolding on_features calculate_quotes
  requote_silent m t h bid ask =
      let q = calculate_quotes f m t in
      let m' = record m { last_bid_price = q.0; last_ask_price = q.1 } in
      last_fails _ _ _ _ _ (same_prices_stay m' h bid ask)
