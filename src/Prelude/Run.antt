-- ===== src/Prelude/Run.antt =====
-- Code that may stop: a panic of the program (an array index or an assertion that fails) or a read
-- of memory that was never written.

use rust_low_latency_trading.Prelude.{◌≡◌, ap}

pub data Run {ℓ} (Result : Type ℓ) : Type ℓ where
  done : Result → Run Result
  fault : Run Result

infixl 5 ◌>>=◌
abbrev pub ◌>>=◌ {ℓ κ} : {A : Type ℓ} {B : Type κ} → Run A → (A → Run B) → Run B
done a >>= f = f a
fault >>= f = fault

abbrev pub from_done {ℓ} : {A : Type ℓ} → A → Run A → A
from_done d (done a) = a
from_done d fault = d

pub done-injective {ℓ} : {A : Type ℓ} {a b : A} → done a ≡ done b → a ≡ b
done-injective {a = a} e = ap (from_done a) e
