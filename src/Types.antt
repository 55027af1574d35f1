-- ===== src/Types.antt =====
-- common/src/types.rs: identifiers and quantities are numbers, prices are signed.
use rust_low_latency_trading.Prelude.{ℕ, ◌-◌, ◌^◌, Bool, true, false}
use rust_low_latency_trading.Prelude.Int.{ℤ, pos, negsuc}

-- u64, u32, u32, i64, u32 and u64 in the source.
abbrev pub OrderId : Type 0
OrderId = ℕ

abbrev pub TickerId : Type 0
TickerId = ℕ

abbrev pub ClientId : Type 0
ClientId = ℕ

abbrev pub Price : Type 0
Price = ℤ

abbrev pub Qty : Type 0
Qty = ℕ

abbrev pub Priority : Type 0
Priority = ℕ

abbrev pub invalid_order_id : OrderId
invalid_order_id = 0

abbrev pub invalid_ticker_id : TickerId
invalid_ticker_id = 2 ^ 32 - 1

abbrev pub invalid_client_id : ClientId
invalid_client_id = 2 ^ 32 - 1

abbrev pub invalid_price : Price
invalid_price = pos (2 ^ 63 - 1)

abbrev pub invalid_qty : Qty
invalid_qty = 2 ^ 32 - 1

pub data Side : Type 0 where
  buy sell : Side

-- Equality of sides, which the source derives.
abbrev pub side_eq : Side → Side → Bool
side_eq buy buy = true
side_eq sell sell = true
side_eq _ _ = false

unfoldable pub opposite : Side → Side
opposite buy = sell
opposite sell = buy

-- The discriminant, 1 or -1: `side as i8` and `as_sign`.
abbrev pub as_sign : Side → ℤ
as_sign buy = pos 1
as_sign sell = negsuc 0
