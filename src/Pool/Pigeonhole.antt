-- ===== src/Pool/Pigeonhole.antt =====
-- No function sends n + 1 indices to different numbers below n.
use rust_low_latency_trading.Prelude.{
  ℕ, zero, suc, ◌<◌, ◌≡◌, ◌≢◌, arith, ◌==◌, if◌then◌else◌, update,
}

-- The function differs at any two of the first n indices.
abbrev pub IsInjectiveBelow : ℕ → (ℕ → ℕ) → Type 0
IsInjectiveBelow n f = (i j : ℕ) → i < j → j < n → f i ≢ f j

-- The last value takes the place of n, so that all values fall below n.
abbrev lower : ℕ → (ℕ → ℕ) → ℕ → ℕ
lower n f k = if f k == n then f (suc n) else f k

lower-lt :
    (n : ℕ) (f : ℕ → ℕ)
    → ((i : ℕ) → i < suc (suc n) → f i < suc n)
    → IsInjectiveBelow (suc (suc n)) f
    → (k : ℕ) → k < suc n
    → lower n f k < n
lower-lt n f range inj k h =
    ground
      (arith, range k (omega arith), range (suc n) (omega arith), inj k (suc n) h (omega arith))

lower-IsInjectiveBelow :
    (n : ℕ) (f : ℕ → ℕ) → IsInjectiveBelow (suc (suc n)) f → IsInjectiveBelow (suc n) (lower n f)
lower-IsInjectiveBelow n f inj i j lt h e = ground (
  arith,
  inj i j lt (omega arith),
  inj i (suc n) (omega arith) (omega arith),
  inj j (suc n) h (omega arith),
)

pub pigeonhole :
    (n : ℕ) (f : ℕ → ℕ) → ((i : ℕ) → i < suc n → f i < n) → IsInjectiveBelow (suc n) f → ⊥
pigeonhole zero f range inj = elim (range 0 (omega arith)) [ ]
pigeonhole (suc n) f range inj =
    pigeonhole n (lower n f) (lower-lt n f range inj) (lower-IsInjectiveBelow n f inj)

-- So n different numbers below n are all of them: a number that none of them is lies above.
pub missed-lt :
    (n c x : ℕ) (f : ℕ → ℕ)
    → ((i : ℕ) → i < c → f i < n)
    → IsInjectiveBelow c f
    → c ≡ n
    → x < n
    → ((i : ℕ) → i < c → f i ≢ x)
    → ⊥
missed-lt n c x f range inj e h miss =
    pigeonhole n (update f n x) (λ i lt. ground (arith, range i))
      λ i j lt hj. ground (arith, inj i j lt, miss i)
