-- ===== src/Prelude/I64.antt =====
-- The machine's `i64`: the integers from -2^63 below 2^63, on which the operations of a release
-- build wrap around.
use rust_low_latency_trading.Prelude.{
  ℕ, ◌+◌, ◌-◌, ◌/◌, ◌%◌, ◌^◌, ◌≤◌, ◌<◌, ◌≡◌, arith, Bool, ◌&&◌, ltb, if◌then◌else◌, ◌==◌,
}
use rust_low_latency_trading.Prelude.Int.{
  ℤ, pos, negsuc, pos_part, neg_part, ◌+ℤ◌, ◌-ℤ◌, ◌*ℤ◌, ltb_ℤ,
}
use rust_low_latency_trading.Prelude.Run.{Run, done, fault}

-- The 64 bits of a number, and the number of 64 bits, in two's complement.
abbrev pub to_bits : ℤ → ℕ
to_bits (pos n) = n % 2 ^ 64
to_bits (negsuc n) = 2 ^ 64 - 1 - n % 2 ^ 64

abbrev pub from_bits : ℕ → ℤ
from_bits m = if ltb m (2 ^ 63) then pos m else negsuc (2 ^ 64 - 1 - m)

unfoldable pub wrap : ℤ → ℤ
wrap a = from_bits (to_bits a)

abbrev pub add : ℤ → ℤ → ℤ
add a b = wrap (a +ℤ b)

abbrev pub sub : ℤ → ℤ → ℤ
sub a b = wrap (a -ℤ b)

abbrev pub mul : ℤ → ℤ → ℤ
mul a b = wrap (a *ℤ b)

abbrev pub neg : ℤ → ℤ
neg a = sub (pos 0) a

-- `i64::abs`, which leaves the least number as it is.
abbrev pub abs : ℤ → ℤ
abs a = if ltb_ℤ a (pos 0) then neg a else a

abbrev pub min : ℤ → ℤ → ℤ
min a b = if ltb_ℤ b a then b else a

-- Division towards zero, of magnitudes; it panics on zero and on the quotient 2^63.
abbrev pub quotient : ℤ → ℤ → ℤ
quotient a b =
    let q = (pos_part a + neg_part a) / (pos_part b + neg_part b) in
    if ltb_ℤ a (pos 0)
    then (if ltb_ℤ b (pos 0) then pos q else pos 0 -ℤ pos q)
    else if ltb_ℤ b (pos 0)
    then pos 0 -ℤ pos q
    else pos q

abbrev pub is_zero : ℤ → Bool
is_zero a = pos_part a + neg_part a == 0

abbrev pub div : ℤ → ℤ → Run ℤ
div a b =
    if is_zero b
    then fault
    else if (neg_part a == 2 ^ 63) && (neg_part b == 1)
    then fault
    else done (quotient a b)

-- The range of the type.
pub record IsI64 (a : ℤ) : Type 0 where
  pub above : pos_part a < 2 ^ 63
  pub below : neg_part a ≤ 2 ^ 63

pub wrap_small : (a : ℤ) → IsI64 a → wrap a ≡ a
unfolding wrap
wrap_small (pos n) h = ground (arith, h.above)
wrap_small (negsuc n) h = ground (arith, h.below)

pub wrap-IsI64 : (a : ℤ) → IsI64 (wrap a)
unfolding wrap
wrap-IsI64 (pos n) = ground arith
wrap-IsI64 (negsuc n) = ground arith

-- Sums wrap at any time or at the end.
pub wrap-add_wrap : (a b : ℤ) → wrap (a +ℤ wrap b) ≡ wrap (a +ℤ b)
unfolding wrap ◌+ℤ◌
wrap-add_wrap (pos a) (pos b) = ground arith
wrap-add_wrap (pos a) (negsuc b) = ground arith
wrap-add_wrap (negsuc a) (pos b) = ground arith
wrap-add_wrap (negsuc a) (negsuc b) = ground arith
