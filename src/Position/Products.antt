-- ===== src/Position/Products.antt =====
-- trading/src/position.rs: products with a quantity distribute over its parts, wrapped or not.
use rust_low_latency_trading.Prelude.{ℕ, suc, ◌+◌, ◌*◌, ◌≡◌, arith, sym, ◌∙◌, ap}
use native.Mathlib.Nat.{mul-add, mul-zero, zero-mul}
use rust_low_latency_trading.Prelude.Int.{ℤ, pos, negsuc, ◌+ℤ◌, ◌-ℤ◌, ◌*ℤ◌, +ℤ_comm, +ℤ_assoc}
use rust_low_latency_trading.Prelude.I64
use rust_low_latency_trading.Prelude.I64.{wrap, wrap-add_wrap}

times_pos : (n x : ℕ) → pos n *ℤ pos x ≡ pos (n * x)
unfolding ◌*ℤ◌
times_pos n x = ground (arith, mul-zero n, zero-mul x)

times_neg : (n x : ℕ) → negsuc n *ℤ pos x ≡ pos 0 -ℤ pos (suc n * x)
unfolding ◌*ℤ◌ ◌-ℤ◌
times_neg n x = ground (arith, mul-zero (suc n), zero-mul x)

sum_pos : (x y : ℕ) → pos x +ℤ pos y ≡ pos (x + y)
unfolding ◌+ℤ◌
sum_pos x y = ground arith

sum_neg : (x y : ℕ) → pos 0 -ℤ pos x +ℤ (pos 0 -ℤ pos y) ≡ pos 0 -ℤ pos (x + y)
unfolding ◌+ℤ◌ ◌-ℤ◌
sum_neg x y = ground arith

pub distribute : (a : ℤ) (x y : ℕ) → a *ℤ pos x +ℤ a *ℤ pos y ≡ a *ℤ pos (x + y)
distribute (pos n) x y =
    rw (times_pos n x, times_pos n y, times_pos n (x + y))
      (sum_pos (n * x) (n * y) ∙ ap pos (sym (mul-add n x y)))
distribute (negsuc n) x y =
    rw (times_neg n x, times_neg n y, times_neg n (x + y))
      (sum_neg (suc n * x) (suc n * y) ∙ ap (λ k. pos 0 -ℤ pos k) (sym (mul-add (suc n) x y)))

-- A part that is realized and the part that stays make up the whole, in wrapped arithmetic.
pub parts_add_up :
    (r a : ℤ) (x y : ℕ)
    → I64.add (I64.add r (I64.mul a (pos x))) (I64.mul a (pos y))
      ≡ I64.add r (I64.mul a (pos (x + y)))
parts_add_up r a x y =
    wrap-add_wrap (wrap (r +ℤ wrap (a *ℤ pos x))) (a *ℤ pos y)
    ∙ ap wrap (+ℤ_comm (wrap (r +ℤ wrap (a *ℤ pos x))) (a *ℤ pos y))
    ∙ wrap-add_wrap (a *ℤ pos y) (r +ℤ wrap (a *ℤ pos x))
    ∙ ap wrap (sym (+ℤ_assoc (a *ℤ pos y) r (wrap (a *ℤ pos x))))
    ∙ wrap-add_wrap (a *ℤ pos y +ℤ r) (a *ℤ pos x)
    ∙ ap wrap (
        ap (λ b. b +ℤ a *ℤ pos x) (+ℤ_comm (a *ℤ pos y) r)
        ∙ +ℤ_assoc r (a *ℤ pos y) (a *ℤ pos x)
        ∙ ap (λ b. r +ℤ b) (+ℤ_comm (a *ℤ pos y) (a *ℤ pos x) ∙ distribute a x y))
    ∙ sym (wrap-add_wrap r (a *ℤ pos (x + y)))
