-- ===== src/Book/Extremes.antt =====
-- exchange/src/order_book.rs: the highest and the lowest key of a map of levels.
use rust_low_latency_trading.Prelude.{
  ◌≡◌, refl, arith, Option, none, some, [], ◌∷◌, inl, inr, Bool-cases, ◌∙◌, true, false, Bool,
  subst, if◌then◌else◌,
}
use rust_low_latency_trading.Prelude.Int.{ℤ, ◌≤ℤ◌, ltb_ℤ}
use rust_low_latency_trading.Prelude.Map.{Map, lookup, keys, ℤ_eq, ℤ_beq_iff, ◌==◌ as same}
use rust_low_latency_trading.Book.{max_price, min_price}

-- The key is in the map, and no key of the map lies beyond it.
abbrev pub IsBest {ℓ} : {V : Type ℓ} → (ℤ → ℤ → Type 0) → Map ℤ V → Option ℤ → Type ℓ
IsBest beyond m none = (k : ℤ) → lookup k m ≡ none
IsBest {V = V} beyond m (some p) =
    ((v : V) × (lookup p m ≡ some v)) × ((k : ℤ) (v : V) → lookup k m ≡ some v → beyond k p)

module _ {ℓ} {V : Type ℓ} where
  lookup-cons :
      (j k : ℤ) (w : V) (m : Map ℤ V)
      → lookup k ((j, w) ∷ m) ≡ (if same j k then some w else lookup k m)
  unfolding lookup
  lookup-cons j k w m = refl

-- Choosing between the best key so far and one more, by a test that agrees with the order.
module _ {ℓ} {V : Type ℓ} (beyond : ℤ → ℤ → Type 0) (test : ℤ → ℤ → Bool)
    (itself : (k : ℤ) → beyond k k) (win : (k q j : ℤ) → test q j ≡ true → beyond k q → beyond k j)
    (lose : (q j : ℤ) → test q j ≡ false → beyond j q) where
  grow :
      (j : ℤ) (w : V) (m : Map ℤ V) (r : Option ℤ)
      → IsBest beyond m r
      → IsBest beyond
          ((j, w) ∷ m)
          (elim r [ none ↦ some j | some q ↦ some (if test q j then j else q) ])
  grow j w m none h = (
    (w, lookup-cons j j w m ∙ rw ((ℤ_beq_iff j j).1 refl)),
    λ k v e. elim (Bool-cases (same j k)) [
      | inl hit ↦ subst (λ i. beyond i j) ((ℤ_beq_iff j k).0 hit) (itself j)
      | inr miss ↦ absurd (ground (arith, lookup-cons j k w m, h k, e, miss))
    ],
  )
  grow j w m (some q) h = elim (Bool-cases (test q j)) [
    | inl better ↦ rw better (
      (w, lookup-cons j j w m ∙ rw ((ℤ_beq_iff j j).1 refl)),
      λ k v e. elim (Bool-cases (same j k)) [
        | inl hit ↦ subst (λ i. beyond i j) ((ℤ_beq_iff j k).0 hit) (itself j)
        | inr miss ↦ win k q j better (h.1 k v (rest k v e miss))
      ],
    )
    | inr worse ↦ rw worse (
      elim (Bool-cases (same j q)) [
        | inl hit ↦ (w, lookup-cons j q w m ∙ rw hit)
        | inr miss ↦ (h.0.0, lookup-cons j q w m ∙ rw miss h.0.1)
      ],
      λ k v e. elim (Bool-cases (same j k)) [
        | inl hit ↦ subst (λ i. beyond i q) ((ℤ_beq_iff j k).0 hit) (lose q j worse)
        | inr miss ↦ h.1 k v (rest k v e miss)
      ],
    )
  ]
    where
      rest :
          (k : ℤ) (v : V) → lookup k ((j, w) ∷ m) ≡ some v → same j k ≡ false → lookup k m ≡ some v
      rest k v e miss = ground (arith, lookup-cons j k w m, e, miss)

module _ {ℓ} {V : Type ℓ} where
  pub max_price-IsBest : (m : Map ℤ V) → IsBest (λ k p. k ≤ℤ p) m (max_price (keys m))
  unfolding max_price keys lookup
  max_price-IsBest [] = λ k. refl
  max_price-IsBest ((j, w) ∷ m) =
      grow (λ k p. k ≤ℤ p) ltb_ℤ (λ k. omega arith) (λ k q i t b. ground (arith, t, b))
        (λ q i t. ground (arith, t)) j w m (max_price (keys m)) (max_price-IsBest m)

  pub min_price-IsBest : (m : Map ℤ V) → IsBest (λ k p. p ≤ℤ k) m (min_price (keys m))
  unfolding min_price keys lookup
  min_price-IsBest [] = λ k. refl
  min_price-IsBest ((j, w) ∷ m) =
      grow (λ k p. p ≤ℤ k) (λ q i. ltb_ℤ i q) (λ k. omega arith) (λ k q i t b. ground (arith, t, b))
        (λ q i t. ground (arith, t)) j w m (min_price (keys m)) (min_price-IsBest m)
