-- ===== src/Protocol/Response.antt =====
-- exchange/src/protocol.rs: ClientResponseType and ClientResponse.
use rust_low_latency_trading.Prelude.{ℕ, Option, none, some, ◌==◌, if◌then◌else◌}
use rust_low_latency_trading.Prelude.Int.{ℤ}

pub data ClientResponseType : Type 0 where
  accepted canceled filled cancel_rejected invalid_request : ClientResponseType

-- `kind as u8`
abbrev pub code : ClientResponseType → ℕ
code accepted = 1
code canceled = 2
code filled = 3
code cancel_rejected = 4
code invalid_request = 5

unfoldable pub from_u8 : ℕ → Option ClientResponseType
from_u8 value =
    if value == 1
    then some accepted
    else (if value == 2
        then some canceled
        else (if value == 3
            then some filled
            else (if value == 4
                then some cancel_rejected
                else (if value == 5 then some invalid_request else none))))

pub record ClientResponse : Type 0 where
  pub msg_type : ℕ
  pub client_id : ℕ
  pub ticker_id : ℕ
  pub client_order_id : ℕ
  pub market_order_id : ℕ
  pub side : ℤ
  pub price : ℤ
  pub exec_qty : ℕ
  pub leaves_qty : ℕ

-- `ClientResponse::new`
abbrev pub create : ClientResponseType → ℕ → ℕ → ℕ → ℕ → ℤ → ℤ → ℕ → ℕ → ClientResponse
create kind client_id ticker_id client_order_id market_order_id side price exec_qty leaves_qty =
    record {
      msg_type = code kind;
      client_id = client_id;
      ticker_id = ticker_id;
      client_order_id = client_order_id;
      market_order_id = market_order_id;
      side = side;
      price = price;
      exec_qty = exec_qty;
      leaves_qty = leaves_qty;
    }

unfoldable pub response_type : ClientResponse → Option ClientResponseType
unfolding from_u8
response_type r = from_u8 r.msg_type
