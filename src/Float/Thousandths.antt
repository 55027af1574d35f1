-- ===== src/Float/Thousandths.antt =====
-- Numbers in thousandths as a value of the interface of `f64`: what is assumed of it can hold, and the
-- strategies run.
use rust_low_latency_trading.Prelude.{◌+◌, ◌%◌, ◌^◌, ◌<◌, ◌≡◌, refl, arith, false, if◌then◌else◌}
use rust_low_latency_trading.Prelude.Int.{
  ℤ, pos, negsuc, pos_part, neg_part, ◌+ℤ◌, ◌-ℤ◌, ◌*ℤ◌, ltb_ℤ,
}
use rust_low_latency_trading.Prelude.I64.{IsI64, wrap, wrap-IsI64, quotient}
use rust_low_latency_trading.Prelude.Map.{◌==◌, ℤ_eq}
use rust_low_latency_trading.Float.{Float}

abbrev whole : ℤ → ℤ
whole a = quotient a (pos 1000)

abbrev magnitude : ℤ → ℤ
magnitude a = pos (pos_part a + neg_part a)

abbrev rounded : ℤ → ℤ
rounded a = (if ltb_ℤ a (pos 0) then whole (a -ℤ pos 500) else whole (a +ℤ pos 500)) *ℤ pos 1000

pub whole-IsI64 : (a : ℤ) → IsI64 (wrap (whole a))
whole-IsI64 a = wrap-IsI64 (whole a)

pub whole_u32 : (a : ℤ) → pos_part (whole a) % 2 ^ 32 < 2 ^ 32
whole_u32 a = omega arith

pub whole_u64 : (a : ℤ) → pos_part (whole a) % 2 ^ 64 < 2 ^ 64
whole_u64 a = omega arith

pub not_below_itself : (a : ℤ) → ltb_ℤ a a ≡ false
not_below_itself (pos n) = ground arith
not_below_itself (negsuc n) = ground arith

unfoldable pub thousandths : Float
unfolding ◌+ℤ◌ ◌-ℤ◌ ◌*ℤ◌ wrap
thousandths = record {
  F = ℤ;
  decimal = λ a k. quotient (a *ℤ pos 1000) (pos (10 ^ k));
  of_int = λ a. a *ℤ pos 1000;
  of_nat = λ n. pos n *ℤ pos 1000;
  add = λ a b. a +ℤ b;
  sub = λ a b. a -ℤ b;
  mul = λ a b. whole (a *ℤ b);
  div = λ a b. quotient (a *ℤ pos 1000) b;
  neg = λ a. pos 0 -ℤ a;
  abs = λ a. magnitude a;
  round = λ a. rounded a;
  min = λ a b. if ltb_ℤ b a then b else a;
  max = λ a b. if ltb_ℤ a b then b else a;
  lt = λ a b. ltb_ℤ a b;
  eq = λ a b. a == b;
  to_i64 = λ a. wrap (whole a);
  to_u32 = λ a. pos_part (whole a) % 2 ^ 32;
  to_u64 = λ a. pos_part (whole a) % 2 ^ 64;
  to_i64-IsI64 = λ a. whole-IsI64 a;
  to_u32_bound = λ a. whole_u32 a;
  to_u64_bound = λ a. whole_u64 a;
  lt_irreflexive = λ a. not_below_itself a;
  one_above_zero = refl;
  zero_above_minus_one = refl;
  one_above_minus_one = refl;
}
