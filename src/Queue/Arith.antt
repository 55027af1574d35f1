-- ===== src/Queue/Arith.antt =====
-- common/src/lf_queue.rs: the counters wrap and the slots go round without harm, since the capacity
-- divides 2^64.
use rust_low_latency_trading.Prelude.{
  ℕ, zero, suc, ◌+◌, ◌-◌, ◌%◌, ◌^◌, ◌≤◌, ◌<◌, ◌≡◌, ◌≢◌, arith, true, wrap64, subst, sym, ◌∙◌, ap,
  Bool-cases, inl, inr, ◌==◌, ==_iff,
}
use native.Mathlib.Nat.{
  dvd_refl, dvd-mul_right, pow-suc, one-le-pow, mod-mod_of_dvd, le_of_dvd, dvd_trans, mod-lt,
  mod-eq_of_lt, mod-eq-sub-mod, mod-add-mod,
}
use Prim.Native.Nat.{◌∣◌}
use native.Mathlib.Decide.{dec_lt}
use rust_low_latency_trading.Queue.{is_power_of_two, wrapping_sub, wrapping_add}

-- What the constructor asserts of the capacity.
pub record IsCapacity (n : ℕ) : Type 0 where
  pub positive : 0 < n
  pub small : n ≤ 2 ^ 63
  pub divides : n ∣ 2 ^ 64

powers_divide : (k j : ℕ) → 2 ^ k ∣ 2 ^ (j + k)
powers_divide k zero = subst (λ e. 2 ^ k ∣ 2 ^ e) (omega arith) (dvd_refl (2 ^ k))
powers_divide k (suc j) =
    subst (λ w. 2 ^ k ∣ w) (sym (pow-suc 2 (j + k)) ∙ ap (λ e. 2 ^ e) (omega arith))
      (dvd_trans (2 ^ k) (powers_divide k j) (dvd-mul_right (2 ^ (j + k)) 2))

power-IsCapacity : (k : ℕ) → k < 64 → IsCapacity (2 ^ k)
power-IsCapacity k h = record {
  positive = one-le-pow k 2 (omega arith);
  small =
      le_of_dvd (omega arith)
        (subst (λ e. 2 ^ k ∣ 2 ^ e) {y = 63} (omega (arith, h)) (powers_divide k (63 - k)));
  divides = subst (λ e. 2 ^ k ∣ 2 ^ e) {y = 64} (omega (arith, h)) (powers_divide k (64 - k));
}

pub is_power_of_two-IsCapacity : (i n : ℕ) → i ≤ 64 → is_power_of_two i n ≡ true → IsCapacity n
unfolding is_power_of_two
is_power_of_two-IsCapacity zero n h e = absurd (cc)
is_power_of_two-IsCapacity (suc i) n h e = elim (Bool-cases (n == 2 ^ i)) [
  | inl hit ↦ subst IsCapacity (sym ((==_iff n (2 ^ i)).0 hit)) (power-IsCapacity i (omega arith))
  | inr miss ↦ is_power_of_two-IsCapacity i n (omega arith) (ground (arith, e, miss))
]

-- Fewer than N steps round the slots do not come back.
pub slots_differ : (n i j : ℕ) → i < j → j < i + n → i % n ≢ j % n
slots_differ n i j lt near same = elim (dec_lt (i % n + (j - i)) n) [
  | yes p ↦ omega (arith, same, shift, mod-eq_of_lt p)
  | no p ↦ omega (
    arith,
    same,
    shift,
    mod-lt i {m = n} (omega arith),
    mod-eq-sub-mod {n = i % n + (j - i)} {m = n} (omega arith),
    mod-eq_of_lt {n = i % n + (j - i) - n} {m = n} (omega (arith, mod-lt i {m = n} (omega arith))),
  )
]
  where
    shift : j % n ≡ (i % n + (j - i)) % n
    shift = ap (λ k. k % n) (omega arith) ∙ sym (mod-add-mod i n (j - i))

module _ (n : ℕ) (c : IsCapacity n) where
  pub slot-wrap64 : (i : ℕ) → wrap64 i % n ≡ i % n
  slot-wrap64 i = mod-mod_of_dvd n i c.divides

-- The counters of `p` items pushed and `c` popped.
pub wrapping_sub_lem :
    (p c : ℕ) → c ≤ p → p < c + 2 ^ 64 → wrapping_sub (wrap64 p) (wrap64 c) ≡ p - c
wrapping_sub_lem p c h near = omega arith

pub wrapping_add_lem : (p : ℕ) → wrapping_add (wrap64 p) 1 ≡ wrap64 (p + 1)
wrapping_add_lem p = omega arith

pub counters_meet : (p c : ℕ) → c ≤ p → p < c + 2 ^ 64 → wrap64 c ≡ wrap64 p → p ≡ c
counters_meet p c h near e = omega arith
