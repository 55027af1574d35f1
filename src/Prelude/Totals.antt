-- ===== src/Prelude/Totals.antt =====
-- Sums over the values of a map.
use rust_low_latency_trading.Prelude.{ℕ, ◌+◌, ◌≡◌, arith, none, some, [], ◌∷◌}
use rust_low_latency_trading.Prelude.Map.{Map, lookup, insert, remove, IsMap, remove_absent, ℕ_eq}

module _ {V : Type 0} (f : V → ℕ) where
  unfoldable pub total : Map ℕ V → ℕ
  total [] = 0
  total ((k, v) ∷ m) = f v + total m

  pub total-insert_new :
      (k : ℕ) (v : V) (m : Map ℕ V) → lookup k m ≡ none → total (insert k v m) ≡ total m + f v
  unfolding total lookup insert
  total-insert_new k v [] h = omega arith
  total-insert_new k v ((j, w) ∷ m) h = ground (arith, total-insert_new k v m)

  pub total-insert_old :
      (k : ℕ) (v w : V) (m : Map ℕ V)
      → lookup k m ≡ some w
      → total (insert k v m) + f w ≡ total m + f v
  unfolding total lookup insert
  total-insert_old k v w [] h = ground arith
  total-insert_old k v w ((j, u) ∷ m) h = ground (arith, total-insert_old k v w m)

  pub total-remove :
      (k : ℕ) (v : V) (m : Map ℕ V)
      → IsMap m
      → lookup k m ≡ some v
      → total (remove k m) + f v ≡ total m
  unfolding total lookup remove
  total-remove k v [] u h = ground arith
  total-remove k v ((j, w) ∷ m) u h = ground (arith, total-remove k v m u.1, remove_absent k m)
