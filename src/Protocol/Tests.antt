-- ===== src/Protocol/Tests.antt =====
-- exchange/src/protocol.rs: the readers at a byte.
use rust_low_latency_trading.Prelude.{◌≡◌, refl, none, some}
use rust_low_latency_trading.Protocol.Request
use rust_low_latency_trading.Protocol.Request.{ClientRequestType}
use rust_low_latency_trading.Protocol.Response

two_cancels : Request.from_u8 2 ≡ some ClientRequestType.cancel
unfolding Request.from_u8
two_cancels = refl

six_is_no_response : Response.from_u8 6 ≡ none
unfolding Response.from_u8
six_is_no_response = refl
