-- ===== src/Net/Wire.antt =====
-- exchange/src/protocol.rs: the byte views of a message, `as_bytes` and `from_bytes`, which the crate
-- zerocopy derives. The crate is third-party code, so its two functions are a value of this record,
-- with what is documented of them: a view has the size of the type, each slice of that size is a
-- value, and the view of a value reads back as the value.
use rust_low_latency_trading.Prelude.{ℕ, ◌<◌, ◌≡◌, Option, some, List, [], ◌∷◌, ◌++◌}
use rust_low_latency_trading.Prelude.Lists.{length}

pub record Wire (M : Type 0) (Fits : M → Type 0) (size : ℕ) : Type 0 where
  pub to_bytes : M → List ℕ
  pub from_bytes : List ℕ → Option M
  pub size_pos : 0 < size
  pub length-to_bytes : (m : M) → length (to_bytes m) ≡ size
  pub from_bytes_sized :
      (bytes : List ℕ) → length bytes ≡ size → (m : M) × (from_bytes bytes ≡ some m)
  pub from_bytes-to_bytes : (m : M) → Fits m → from_bytes (to_bytes m) ≡ some m

module _ {M : Type 0} {Fits : M → Type 0} {size : ℕ} (w : Wire M Fits size) where
  -- The stream of some messages.
  abbrev pub stream : List M → List ℕ
  stream [] = []
  stream (m ∷ ms) = w.to_bytes m ++ stream ms
