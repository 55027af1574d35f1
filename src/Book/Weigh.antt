-- ===== src/Book/Weigh.antt =====
-- exchange/src/order_book.rs: sums over the orders that the order map names.
use rust_low_latency_trading.Prelude.{
  ℕ, ◌+◌, ◌≤◌, ◌<◌, ◌≡◌, ◌≢◌, refl, arith, Bool, true, Bool-cases, inl, inr, Option, none, some, [],
  ◌∷◌, ◌&&◌, update, update_ne, ap, ap₂, sym, if◌then◌else◌,
}
use rust_low_latency_trading.Prelude.Map.{
  Map, lookup, insert, remove, size, IsMap, remove_absent, ℕ_eq, ℤ_eq,
}
use rust_low_latency_trading.Prelude.Map.{◌==◌ as same}
use rust_low_latency_trading.Types.{Side, side_eq, Price}
use rust_low_latency_trading.Book.{Order}

-- The order rests on this side at this price, as a test and as two weights.
abbrev pub rests_at : Side → Price → Order → Bool
rests_at side price o = side_eq o.side side && same o.price price

abbrev pub one_at : Side → Price → Order → ℕ
one_at side price o = if rests_at side price o then 1 else 0

abbrev pub qty_at : Side → Price → Order → ℕ
qty_at side price o = if rests_at side price o then o.qty else 0

module _ (f : Order → ℕ) (slots : ℕ → Option Order) where
  abbrev pub weight : ℕ → ℕ
  weight i = elim (slots i) [ none ↦ 0 | some o ↦ f o ]

  unfoldable pub weigh : Map ℕ ℕ → ℕ
  weigh [] = 0
  weigh ((k, i) ∷ m) = weight i + weigh m

  pub weigh-insert_new :
      (k i : ℕ) (m : Map ℕ ℕ) → lookup k m ≡ none → weigh (insert k i m) ≡ weigh m + weight i
  unfolding weigh lookup insert
  weigh-insert_new k i [] h = omega arith
  weigh-insert_new k i ((j, x) ∷ m) h = ground (arith, weigh-insert_new k i m)

  pub weigh-remove :
      (k i : ℕ) (m : Map ℕ ℕ)
      → IsMap m
      → lookup k m ≡ some i
      → weigh (remove k m) + weight i ≡ weigh m
  unfolding weigh lookup remove
  weigh-remove k i [] u h = ground arith
  weigh-remove k i ((j, x) ∷ m) u h = ground (arith, weigh-remove k i m u.1, remove_absent k m)

  -- An order that the map names is part of the sum.
  pub weight-le-weigh : (k i : ℕ) (m : Map ℕ ℕ) → lookup k m ≡ some i → weight i ≤ weigh m
  unfolding weigh lookup
  weight-le-weigh k i [] h = ground arith
  weight-le-weigh k i ((j, x) ∷ m) h = ground (arith, weight-le-weigh k i m)

  pub weigh-le-size : ((o : Order) → f o ≤ 1) → (m : Map ℕ ℕ) → weigh m ≤ size m
  unfolding weigh size
  weigh-le-size small [] = omega arith
  weigh-le-size small ((k, i) ∷ m) = grind (arith, weigh-le-size small m, small)

-- Where no order rests there is no quantity.
pub weigh_zero :
    (side : Side) (price : Price) (slots : ℕ → Option Order) (m : Map ℕ ℕ)
    → weigh (one_at side price) slots m ≡ 0
    → weigh (qty_at side price) slots m ≡ 0
unfolding weigh
weigh_zero side price slots [] h = refl
weigh_zero side price slots ((k, i) ∷ m) h = ground (arith, weigh_zero side price slots m)

-- The sum depends only on the slots that the map names.
pub weigh-cong :
    (f : Order → ℕ) (slots new_slots : ℕ → Option Order) (m : Map ℕ ℕ)
    → IsMap m
    → ((k i : ℕ) → lookup k m ≡ some i → weight f new_slots i ≡ weight f slots i)
    → weigh f new_slots m ≡ weigh f slots m
unfolding weigh lookup
weigh-cong f slots new_slots [] u same = refl
weigh-cong f slots new_slots ((k, i) ∷ m) u same =
    ap₂ ◌+◌ (same k i (ground arith))
      (weigh-cong f slots new_slots m u.1 (λ j y e. same j y (ground (arith, u.0, e))))

pub weigh-update_ne :
    (f : Order → ℕ) (slots : ℕ → Option Order) (x : ℕ) (v : Option Order) (m : Map ℕ ℕ)
    → IsMap m
    → ((k i : ℕ) → lookup k m ≡ some i → i ≢ x)
    → weigh f (update slots x v) m ≡ weigh f slots m
weigh-update_ne f slots x v m u away = weigh-cong f slots (update slots x v) m u (λ k i e.
    ap (λ (o : Option Order). elim o [ none ↦ 0 | some p ↦ f p ])
      (update_ne slots x i v (λ s. away k i e (sym s))))

-- A count that is not zero has an order that it counts.
pub weigh-pos :
    (side : Side) (price : Price) (slots : ℕ → Option Order) (m : Map ℕ ℕ)
    → IsMap m
    → 0 < weigh (one_at side price) slots m
    → (k : ℕ) × (i : ℕ) × (o : Order) × (lookup k m ≡ some i)
      × (slots i ≡ some o)
      × (rests_at side price o ≡ true)
unfolding weigh lookup
weigh-pos side price slots [] u h = absurd (omega arith)
weigh-pos side price slots ((k, i) ∷ m) u h = here (slots i) refl (weigh-pos side price slots m u.1)
  where
    later :
        (0 < weigh (one_at side price) slots m
          → (j : ℕ) × (x : ℕ) × (o : Order) × (lookup j m ≡ some x)
            × (slots x ≡ some o)
            × (rests_at side price o ≡ true))
        → 0 < weigh (one_at side price) slots m
        → (j : ℕ) × (x : ℕ) × (o : Order) × (lookup j ((k, i) ∷ m) ≡ some x)
          × (slots x ≡ some o)
          × (rests_at side price o ≡ true)
    later ih pos = let (j, x, o, e, w, r) = ih pos in (j, x, o, ground (arith, e, u.0), w, r)

    here :
        (r : Option Order)
        → slots i ≡ r
        → (0 < weigh (one_at side price) slots m
            → (j : ℕ) × (x : ℕ) × (o : Order) × (lookup j m ≡ some x)
              × (slots x ≡ some o)
              × (rests_at side price o ≡ true))
        → (j : ℕ) × (x : ℕ) × (o : Order) × (lookup j ((k, i) ∷ m) ≡ some x)
          × (slots x ≡ some o)
          × (rests_at side price o ≡ true)
    here none e ih = later ih (ground (arith, h, e))
    here (some o) e ih = elim (Bool-cases (rests_at side price o)) [
      | inl hit ↦ (k, i, o, ground arith, e, hit)
      | inr miss ↦ later ih (ground (arith, h, e, miss))
    ]
