-- ===== src/Float.antt =====
-- The `f64` of the machine, as the strategies use it: a value of this record, with what is documented
-- of it. Nothing is assumed of rounding, and nothing of the numbers that are no numbers but that they
-- compare with nothing.
pub mod Thousandths
use rust_low_latency_trading.Prelude.{
  ℕ, ◌^◌, ◌<◌, ◌≡◌, Bool, true, false, refl, if◌then◌else◌, Bool-cases, inl, inr,
}
use rust_low_latency_trading.Prelude.Int.{ℤ, pos, negsuc, ltb_ℤ, pos_part, neg_part}
use rust_low_latency_trading.Prelude.I64.{IsI64}

pub record Float : Type 1 where
  pub F : Type 0
  -- The literal `a * 10^-k`.
  pub decimal : ℤ → ℕ → F
  -- `as f64`, from a signed and from an unsigned number.
  pub of_int : ℤ → F
  pub of_nat : ℕ → F
  pub add : F → F → F
  pub sub : F → F → F
  pub mul : F → F → F
  pub div : F → F → F
  pub neg : F → F
  pub abs : F → F
  pub round : F → F
  pub min : F → F → F
  pub max : F → F → F
  pub lt : F → F → Bool
  pub eq : F → F → Bool
  -- `as i64`, `as u32` and `as u64`, which stay within the range of their type.
  pub to_i64 : F → ℤ
  pub to_u32 : F → ℕ
  pub to_u64 : F → ℕ
  pub to_i64-IsI64 : (x : F) → IsI64 (to_i64 x)
  pub to_u32_bound : (x : F) → to_u32 x < 2 ^ 32
  pub to_u64_bound : (x : F) → to_u64 x < 2 ^ 64
  -- No value is below itself, and the literals -1, 0 and 1 stand in their order.
  pub lt_irreflexive : (x : F) → lt x x ≡ false
  pub one_above_zero : lt (decimal (pos 1) 0) (decimal (pos 0) 0) ≡ false
  pub zero_above_minus_one : lt (decimal (pos 0) 0) (decimal (negsuc 0) 0) ≡ false
  pub one_above_minus_one : lt (decimal (pos 1) 0) (decimal (negsuc 0) 0) ≡ false

module _ (f : Float) where
  open f use {F, decimal, lt}

  abbrev pub zero_f : F
  zero_f = decimal (pos 0) 0

  abbrev pub one_f : F
  one_f = decimal (pos 1) 0

  -- `f64::clamp`, whose assertion that the bounds are in order holds wherever the program calls it.
  abbrev pub clamp : F → F → F → F
  clamp x low high = let y = if lt x low then low else x in if lt high y then high else y

  -- Neither below the one bound nor above the other.
  abbrev pub Within : F → F → F → Type 0
  Within low high x = (lt x low ≡ false) × (lt high x ≡ false)

  pub clamp-Within : (x low high : F) → lt high low ≡ false → Within low high (clamp x low high)
  clamp-Within x low high ordered = elim (Bool-cases (lt x low)) [
    | inl less ↦ rw (less, ordered) (f.lt_irreflexive low, ordered)
    | inr more ↦ rw more (elim (Bool-cases (lt high x)) [
      | inl above ↦ rw above (ordered, f.lt_irreflexive high)
      | inr inside ↦ rw inside (more, inside)
    ])
  ]
