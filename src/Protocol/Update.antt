-- ===== src/Protocol/Update.antt =====
-- exchange/src/protocol.rs: MarketUpdateType and MarketUpdate.
use rust_low_latency_trading.Prelude.{ℕ, Option, none, some, ◌==◌, if◌then◌else◌}
use rust_low_latency_trading.Prelude.Int.{ℤ}

pub data MarketUpdateType : Type 0 where
  add modify cancel trade snapshot clear : MarketUpdateType

-- `kind as u8`
abbrev pub code : MarketUpdateType → ℕ
code add = 1
code modify = 2
code cancel = 3
code trade = 4
code snapshot = 5
code clear = 6

unfoldable pub from_u8 : ℕ → Option MarketUpdateType
from_u8 value =
    if value == 1
    then some add
    else (if value == 2
        then some modify
        else (if value == 3
            then some cancel
            else (if value == 4
                then some trade
                else (if value == 5
                    then some snapshot
                    else (if value == 6 then some clear else none)))))

pub record MarketUpdate : Type 0 where
  pub msg_type : ℕ
  pub ticker_id : ℕ
  pub order_id : ℕ
  pub side : ℤ
  pub price : ℤ
  pub qty : ℕ
  pub priority : ℕ

-- `MarketUpdate::new`
abbrev pub create : MarketUpdateType → ℕ → ℕ → ℤ → ℤ → ℕ → ℕ → MarketUpdate
create kind ticker_id order_id side price qty priority = record {
  msg_type = code kind;
  ticker_id = ticker_id;
  order_id = order_id;
  side = side;
  price = price;
  qty = qty;
  priority = priority;
}

unfoldable pub update_type : MarketUpdate → Option MarketUpdateType
unfolding from_u8
update_type u = from_u8 u.msg_type
