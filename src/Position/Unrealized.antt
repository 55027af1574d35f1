-- ===== src/Position/Unrealized.antt =====
-- trading/src/position.rs: the unrealized profit of each kind of position, and how a closing fill
-- divides the profit into a part that is realized and a part that stays.
use rust_low_latency_trading.Prelude.{
  ℕ, zero, suc, ◌+◌, ◌-◌, ◌^◌, ◌<◌, ◌≤◌, ◌≡◌, refl, arith, Bool, true, false, sym, ◌∙◌, ap, ap₂,
  Bool-cases, inl, inr, if◌then◌else◌,
}
use native.Mathlib.Nat.{mul-zero, zero-mul}
use rust_low_latency_trading.Prelude.Int.{ℤ, pos, negsuc, ◌+ℤ◌, ◌-ℤ◌, ◌*ℤ◌, ltb_ℤ}
use rust_low_latency_trading.Prelude.I64
use rust_low_latency_trading.Prelude.I64.{wrap, is_zero}
use rust_low_latency_trading.Position.{unrealized_at, flips}
use rust_low_latency_trading.Position.Products.{parts_add_up}

pub mul_zero : (a : ℤ) → I64.mul a (pos 0) ≡ pos 0
unfolding I64.wrap ◌*ℤ◌
mul_zero (pos n) = ground (arith, mul-zero n)
mul_zero (negsuc n) = ground (arith, mul-zero (suc n))

pub zero_mul : (a : ℤ) → I64.mul (pos 0) a ≡ pos 0
unfolding I64.wrap ◌*ℤ◌
zero_mul (pos n) = ground (arith, zero-mul n)
zero_mul (negsuc n) = ground (arith, zero-mul (suc n))

pub sub_self : (a : ℤ) → I64.sub a a ≡ pos 0
unfolding I64.wrap ◌-ℤ◌
sub_self (pos n) = ground arith
sub_self (negsuc n) = ground arith

-- The unrealized profit of a long position, of a short one, and at the average price.
pub unrealized_long :
    (m : ℕ) (avg price : ℤ) → unrealized_at (pos m) avg price ≡ I64.mul (I64.sub price avg) (pos m)
unfolding unrealized_at
unrealized_long zero avg price = sym (mul_zero (I64.sub price avg))
unrealized_long (suc m) avg price =
    let held : is_zero (pos (suc m)) ≡ false = ground arith in
    let long : ltb_ℤ (pos 0) (pos (suc m)) ≡ true = ground arith in rw (held, long) refl

pub neg_negsuc : (k : ℕ) → suc k < 2 ^ 63 → I64.neg (negsuc k) ≡ pos (suc k)
unfolding I64.wrap ◌-ℤ◌
neg_negsuc k h = ground arith

pub unrealized_short :
    (k : ℕ) (avg price : ℤ)
    → suc k < 2 ^ 63
    → unrealized_at (negsuc k) avg price ≡ I64.mul (I64.sub avg price) (pos (suc k))
unfolding unrealized_at
unrealized_short k avg price h =
    let held : is_zero (negsuc k) ≡ false = ground arith in
    let short : ltb_ℤ (pos 0) (negsuc k) ≡ false = ground arith in
    rw (held, short, neg_negsuc k h) refl

pub unrealized_level : (a price : ℤ) → unrealized_at a price price ≡ pos 0
unfolding unrealized_at
unrealized_level a price = elim (Bool-cases (is_zero a)) [
  | inl flat ↦ rw flat refl
  | inr held ↦ elim (Bool-cases (ltb_ℤ (pos 0) a)) [
    | inl long ↦ rw (held, long, sub_self price) (zero_mul a)
    | inr short ↦ rw (held, short, sub_self price) (zero_mul (I64.neg a))
  ]
]

-- The profit for one unit that a closing fill realizes.
abbrev pub per_unit : ℤ → (avg price : ℤ) → ℤ
per_unit a avg price = if ltb_ℤ (pos 0) a then I64.sub price avg else I64.sub avg price

-- The value after a closing fill, from the old position, the signed quantity and the prices.
abbrev pub value_after : ℤ → ℤ → ℤ → (avg price : ℤ) → ℤ
value_after r a signed avg price =
    I64.add (I64.add r (I64.mul (per_unit a avg price) (I64.min (I64.abs a) (I64.abs signed))))
      (unrealized_at (a +ℤ signed) (if flips a (a +ℤ signed) then price else avg) price)

-- Selling from a long position of `m`, and buying back a short one.
pub sell_rest : (m x : ℕ) → x ≤ m → pos m +ℤ (pos 0 -ℤ pos x) ≡ pos (m - x)
unfolding ◌+ℤ◌ ◌-ℤ◌
sell_rest m x h = ground arith

pub sell_beyond : (m x : ℕ) → m < x → pos m +ℤ (pos 0 -ℤ pos x) ≡ negsuc (x - m - 1)
unfolding ◌+ℤ◌ ◌-ℤ◌
sell_beyond m x h = ground arith

pub buy_rest : (k x : ℕ) → x < suc k → negsuc k +ℤ pos x ≡ negsuc (k - x)
unfolding ◌+ℤ◌
buy_rest k x h = ground arith

pub buy_beyond : (k x : ℕ) → suc k ≤ x → negsuc k +ℤ pos x ≡ pos (x - suc k)
unfolding ◌+ℤ◌
buy_beyond k x h = ground arith

pub abs_sold : (x : ℕ) → x < 2 ^ 63 → I64.abs (pos 0 -ℤ pos x) ≡ pos x
unfolding I64.wrap ◌-ℤ◌
abs_sold x h = ground arith

pub abs_short : (k : ℕ) → suc k < 2 ^ 63 → I64.abs (negsuc k) ≡ pos (suc k)
unfolding I64.wrap ◌-ℤ◌
abs_short k h = ground arith

-- A part `x` realized at the unit profit `d` and the rest `y` held.
pub whole :
    (r d : ℤ) (x y m : ℕ)
    → x + y ≡ m
    → I64.add (I64.add r (I64.mul d (pos x))) (I64.mul d (pos y)) ≡ I64.add r (I64.mul d (pos m))
whole r d x y m e = parts_add_up r d x y ∙ ap (λ k. I64.add r (I64.mul d (pos k))) e

-- All of it realized.
pub whole_realized :
    (r d : ℤ) (m : ℕ)
    → I64.add (I64.add r (I64.mul d (pos m))) (pos 0) ≡ I64.add r (I64.mul d (pos m))
whole_realized r d m =
    ap (I64.add (I64.add r (I64.mul d (pos m)))) (sym (mul_zero d)) ∙ whole r d m 0 m (omega arith)

pub abs_pos : (m : ℕ) → I64.abs (pos m) ≡ pos m
abs_pos m = ground arith

pub min_first : (m x : ℕ) → m ≤ x → I64.min (pos m) (pos x) ≡ pos m
min_first m x h = ground arith

pub min_second : (m x : ℕ) → x ≤ m → I64.min (pos m) (pos x) ≡ pos x
min_second m x h = ground (arith, ap pos)

-- The value from its three parts: the unit profit, the quantity closed, and what stays unrealized.
pub from_parts :
    (r a signed avg price d c u : ℤ)
    → per_unit a avg price ≡ d
    → I64.min (I64.abs a) (I64.abs signed) ≡ c
    → unrealized_at (a +ℤ signed) (if flips a (a +ℤ signed) then price else avg) price ≡ u
    → value_after r a signed avg price ≡ I64.add (I64.add r (I64.mul d c)) u
from_parts r a signed avg price d c u unit closing rest =
    ap₂ I64.add (ap (I64.add r) (ap₂ I64.mul unit closing)) rest

-- What stays unrealized, by whether the position was turned round.
pub kept_average :
    (a fresh avg price : ℤ)
    → flips a fresh ≡ false
    → unrealized_at fresh (if flips a fresh then price else avg) price
      ≡ unrealized_at fresh avg price
kept_average a fresh avg price e =
    ap (λ (b : Bool). unrealized_at fresh (if b then price else avg) price) e

pub new_average :
    (a fresh avg price : ℤ)
    → flips a fresh ≡ true
    → unrealized_at fresh (if flips a fresh then price else avg) price ≡ pos 0
new_average a fresh avg price e =
    ap (λ (b : Bool). unrealized_at fresh (if b then price else avg) price) e
    ∙ unrealized_level fresh price
