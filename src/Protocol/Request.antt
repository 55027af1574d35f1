-- ===== src/Protocol/Request.antt =====
-- exchange/src/protocol.rs: ClientRequestType and ClientRequest.
use rust_low_latency_trading.Prelude.{ℕ, Option, none, some, ◌==◌, if◌then◌else◌}
use rust_low_latency_trading.Prelude.Int.{ℤ}

pub data ClientRequestType : Type 0 where
  new cancel : ClientRequestType

-- `kind as u8`
abbrev pub code : ClientRequestType → ℕ
code new = 1
code cancel = 2

unfoldable pub from_u8 : ℕ → Option ClientRequestType
from_u8 value = if value == 1 then some new else if value == 2 then some cancel else none

pub record ClientRequest : Type 0 where
  pub msg_type : ℕ
  pub client_id : ℕ
  pub ticker_id : ℕ
  pub order_id : ℕ
  pub side : ℤ
  pub price : ℤ
  pub qty : ℕ

-- `ClientRequest::new`
abbrev pub create : ClientRequestType → ℕ → ℕ → ℕ → ℤ → ℤ → ℕ → ClientRequest
create kind client_id ticker_id order_id side price qty = record {
  msg_type = code kind;
  client_id = client_id;
  ticker_id = ticker_id;
  order_id = order_id;
  side = side;
  price = price;
  qty = qty;
}

unfoldable pub request_type : ClientRequest → Option ClientRequestType
unfolding from_u8
request_type r = from_u8 r.msg_type
