-- ===== src/Time/Latency.antt =====
-- common/src/time.rs: what the statistics tell of the latencies that were recorded.
use rust_low_latency_trading.Prelude.{
  ℕ, suc, ◌+◌, ◌*◌, ◌^◌, ◌≤◌, ◌<◌, ◌≡◌, ◌⊎◌, ◌-◌, refl, ◌∙◌, subst, arith, inl, inr, List, [], ◌∷◌,
  if◌then◌else◌, ltb, Bool-cases, ltb→lt, sym, subst₂,
}
use rust_low_latency_trading.Prelude.Lists.{length, All}
use rust_low_latency_trading.Time.{LatencyStats, new, measure, u64_max}

unfoldable pub measure_all : LatencyStats → List ℕ → LatencyStats
measure_all s [] = s
measure_all s (x ∷ xs) = measure_all (measure s x) xs

-- The sum without a bound.
abbrev pub total : List ℕ → ℕ
total [] = 0
total (x ∷ xs) = x + total xs

-- The statistics of `n` latencies of the sum `t`, each of which lies between the least and the
-- greatest.
pub record IsStats (n t : ℕ) (s : LatencyStats) : Type 0 where
  pub counted : s.count ≡ n
  pub summed : s.sum ≡ (if ltb u64_max t then u64_max else t)
  pub above : n * s.min ≤ t
  pub below : t ≤ n * s.max

-- A product with the less of two factors, and with the greater.
mul_least : (n a x : ℕ) → n * (if ltb x a then x else a) ≤ n * a
mul_least n a x = elim (Bool-cases (ltb x a)) [
  | inl less ↦ rw less (grind (arith, ltb→lt x a less))
  | inr more ↦ rw more (omega arith)
]

mul_greatest : (n a x : ℕ) → n * a ≤ n * (if ltb a x then x else a)
mul_greatest n a x = elim (Bool-cases (ltb a x)) [
  | inl less ↦ rw less (grind (arith, ltb→lt a x less))
  | inr more ↦ rw more (omega arith)
]

least_le : (a x : ℕ) → (if ltb x a then x else a) ≤ x
least_le a x = ground arith

le_greatest : (a x : ℕ) → x ≤ (if ltb a x then x else a)
le_greatest a x = ground arith

measure-IsStats :
    (n t x : ℕ) (s : LatencyStats)
    → n + 1 < 2 ^ 64
    → IsStats n t s
    → IsStats (n + 1) (t + x) (measure s x)
unfolding measure
measure-IsStats n t x s room h = record {
  counted = omega (arith, h.counted);
  summed = ground (arith, h.summed);
  above = omega (arith, mul_least n s.min x, least_le s.min x, h.above);
  below = omega (arith, mul_greatest n s.max x, le_greatest s.max x, h.below);
}

-- The range only grows.
range_grows :
    (s : LatencyStats) (xs : List ℕ)
    → ((measure_all s xs).min ≤ s.min) × (s.max ≤ (measure_all s xs).max)
unfolding measure_all measure
range_grows s [] = (omega arith, omega arith)
range_grows s (x ∷ xs) = ground (arith, range_grows (measure s x) xs)

abbrev pub InRange : LatencyStats → ℕ → Type 0
InRange s x = (s.min ≤ x) × (x ≤ s.max)

All-InRange : (s : LatencyStats) (xs : List ℕ) → All (InRange (measure_all s xs)) xs
unfolding measure_all measure
All-InRange s [] = tt
All-InRange s (x ∷ xs) =
    let grows = range_grows (measure s x) xs in
    (
      (omega (arith, grows.0, least_le s.min x), omega (arith, grows.1, le_greatest s.max x)),
      All-InRange (measure s x) xs,
    )

nothing_before : (a : ℕ) → a ≡ 0 + a
nothing_before a = omega arith

no_more : (a : ℕ) → a ≡ a + 0
no_more a = omega arith

measure_all-IsStats :
    (n t : ℕ) (s : LatencyStats) (xs : List ℕ)
    → n + length xs < 2 ^ 64
    → IsStats n t s
    → IsStats (n + length xs) (t + total xs) (measure_all s xs)
unfolding measure_all
measure_all-IsStats n t s [] room h = subst₂ (λ a b. IsStats a b s) (no_more n) (no_more t) h
measure_all-IsStats n t s (x ∷ xs) room h =
    subst₂ (λ a b. IsStats a b (measure_all (measure s x) xs)) (shift n (length xs))
      (shift_by t x (total xs))
      (measure_all-IsStats (n + 1) (t + x) (measure s x) xs (omega arith)
        (measure-IsStats n t x s (omega arith) h))
  where
    shift : (a b : ℕ) → a + 1 + b ≡ a + suc b
    shift a b = omega arith

    shift_by : (a b c : ℕ) → a + b + c ≡ a + (b + c)
    shift_by a b c = omega arith

-- A number is one of the list.
abbrev pub Occurs : ℕ → List ℕ → Type 0
Occurs n [] = ⊥
Occurs n (x ∷ xs) = (n ≡ x) ⊎ Occurs n xs

-- The least and the greatest are among the latencies, or those of the statistics before.
all_occur :
    (s : LatencyStats) (xs : List ℕ)
    → Occurs (measure_all s xs).min (s.min ∷ xs) × Occurs (measure_all s xs).max (s.max ∷ xs)
unfolding measure_all measure
all_occur s [] = (inl refl, inl refl)
all_occur s (x ∷ xs) =
    let others = all_occur (measure s x) xs in
    (
      older s.min x _ _ xs (lesser s.min x) (others.0),
      older s.max x _ _ xs (greater s.max x) (others.1),
    )
  where
    lesser : (a b : ℕ) → ((if ltb b a then b else a) ≡ a) ⊎ ((if ltb b a then b else a) ≡ b)
    lesser a b = elim (Bool-cases (ltb b a)) [
      | inl less ↦ inr (rw less refl)
      | inr more ↦ inl (rw more refl)
    ]

    greater : (a b : ℕ) → ((if ltb a b then b else a) ≡ a) ⊎ ((if ltb a b then b else a) ≡ b)
    greater a b = elim (Bool-cases (ltb a b)) [
      | inl less ↦ inr (rw less refl)
      | inr more ↦ inl (rw more refl)
    ]

    older :
        (a b c n : ℕ) (ys : List ℕ) → (c ≡ a) ⊎ (c ≡ b) → Occurs n (c ∷ ys) → Occurs n (a ∷ b ∷ ys)
    older a b c n ys (inl e) (inl h) = inl (h ∙ e)
    older a b c n ys (inr e) (inl h) = inr (inl (h ∙ e))
    older a b c n ys e (inr h) = inr (inr h)

-- What the least and the greatest are: two of the latencies, and those of new statistics without any.
abbrev pub Attained : LatencyStats → List ℕ → Type 0
Attained s [] = (s.min ≡ 2 ^ 64 - 1) × (s.max ≡ 0)
Attained s (x ∷ xs) = Occurs s.min (x ∷ xs) × Occurs s.max (x ∷ xs)

measure_all-Attained : (xs : List ℕ) → All (λ x. x < 2 ^ 64) xs → Attained (measure_all new xs) xs
unfolding measure_all measure
measure_all-Attained [] small = (refl, refl)
measure_all-Attained (x ∷ xs) (small, _) =
    let found = all_occur (measure new x) xs in
    let first_min : (measure new x).min ≡ x = ground (arith, small) in
    let first_max : (measure new x).max ≡ x = ground (arith, small) in
    (
      subst (λ y. Occurs (measure_all (measure new x) xs).min (y ∷ xs)) first_min (found.0),
      subst (λ y. Occurs (measure_all (measure new x) xs).max (y ∷ xs)) first_max (found.1),
    )

-- After any latencies, fewer than 2^64 and each a `u64`, the count is their number and the sum is theirs
-- or the greatest `u64` if that is less. The least and the greatest that are told are two of the
-- latencies, and each latency lies between them; without any, the least is the greatest `u64` and the
-- greatest is 0. The mean lies between them, too: the number times the least is at most their sum, and
-- this at most the number times the greatest.
pub measure_all_bounds :
    (xs : List ℕ)
    → length xs < 2 ^ 64
    → All (λ x. x < 2 ^ 64) xs
    → IsStats (length xs) (total xs) (measure_all new xs)
      × All (InRange (measure_all new xs)) xs
      × Attained (measure_all new xs) xs
measure_all_bounds xs room small = (
  subst₂ (λ a b. IsStats a b (measure_all new xs)) (sym (nothing_before (length xs)))
      (sym (nothing_before (total xs)))
      (measure_all-IsStats 0 0 new xs (omega arith)
        (record { counted = refl; summed = refl; above = omega arith; below = omega arith })),
  All-InRange new xs,
  measure_all-Attained xs small,
)
