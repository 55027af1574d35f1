-- ===== src/Protocol/Codes.antt =====
-- exchange/src/protocol.rs: the kind bytes of the three messages and their readers.
use rust_low_latency_trading.Prelude.{ℕ, ◌≡◌, ◌↔◌, some, arith}
use rust_low_latency_trading.Protocol.Request
use rust_low_latency_trading.Protocol.Request.{ClientRequestType}
use rust_low_latency_trading.Protocol.Response
use rust_low_latency_trading.Protocol.Response.{ClientResponseType}
use rust_low_latency_trading.Protocol.Update
use rust_low_latency_trading.Protocol.Update.{MarketUpdateType}

request_code : (v : ℕ) (t : ClientRequestType) → (Request.from_u8 v ≡ some t) ↔ (v ≡ Request.code t)
unfolding Request.from_u8
request_code v ClientRequestType.new = ground arith
request_code v _ = ground arith

response_code :
    (v : ℕ) (t : ClientResponseType) → (Response.from_u8 v ≡ some t) ↔ (v ≡ Response.code t)
unfolding Response.from_u8
response_code v ClientResponseType.accepted = ground arith
response_code v _ = ground arith

update_code : (v : ℕ) (t : MarketUpdateType) → (Update.from_u8 v ≡ some t) ↔ (v ≡ Update.code t)
unfolding Update.from_u8
update_code v MarketUpdateType.add = ground arith
update_code v _ = ground arith

-- Each reader of a message's kind byte recognises exactly the bytes that its own `as u8` writes,
-- and reads each as the kind that was written: for every byte and every kind of a request, a
-- response and a market update, the reader gives that kind if and only if the byte is its code.
pub from_u8-code_iff :
    (v : ℕ) (r : ClientRequestType) (s : ClientResponseType) (u : MarketUpdateType)
    → ((Request.from_u8 v ≡ some r) ↔ (v ≡ Request.code r))
      × ((Response.from_u8 v ≡ some s) ↔ (v ≡ Response.code s))
      × ((Update.from_u8 v ≡ some u) ↔ (v ≡ Update.code u))
from_u8-code_iff v r s u = (request_code v r, response_code v s, update_code v u)
