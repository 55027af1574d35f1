-- ===== src/Net/Messages.antt =====
-- The byte views of the two messages that go over TCP, in the packed layout.
use rust_low_latency_trading.Prelude.{
  ℕ, ◌^◌, ◌<◌, ◌≡◌, refl, arith, Option, none, some, List, [], ◌∷◌, ◌==◌, if◌then◌else◌,
}
use rust_low_latency_trading.Prelude.Lists.{length, All}
use rust_low_latency_trading.Prelude.I64.{to_bits, from_bits, IsI64}
use rust_low_latency_trading.Protocol.Request.{ClientRequest}
use rust_low_latency_trading.Protocol.Response.{ClientResponse}
use rust_low_latency_trading.Net.Wire.{Wire}
use rust_low_latency_trading.Net.Packed.{
  Fields, pack, unpack, at, to_byte, from_byte, IsI8, InWidth, length-pack, unpack-pack,
  from_byte-to_byte, to_byte_small, from_bits-to_bits, to_bits_small,
}

-- A value of the type: each field within its width.
pub record IsRequest (m : ClientRequest) : Type 0 where
  pub request_msg_type : m.msg_type < 2 ^ 8
  pub request_client_id : m.client_id < 2 ^ 32
  pub request_ticker_id : m.ticker_id < 2 ^ 32
  pub request_order_id : m.order_id < 2 ^ 64
  pub request_side : IsI8 m.side
  pub request_price : IsI64 m.price
  pub request_qty : m.qty < 2 ^ 32

abbrev pub request_fields : ClientRequest → Fields
request_fields m =
    (1, m.msg_type)
    ∷ (4, m.client_id)
    ∷ (4, m.ticker_id)
    ∷ (8, m.order_id)
    ∷ (1, to_byte m.side)
    ∷ (8, to_bits m.price)
    ∷ (4, m.qty)
    ∷ []

abbrev pub request_of : List ℕ → ClientRequest
request_of vs = record {
  msg_type = at 0 vs;
  client_id = at 1 vs;
  ticker_id = at 2 vs;
  order_id = at 3 vs;
  side = from_byte (at 4 vs);
  price = from_bits (at 5 vs);
  qty = at 6 vs;
}

abbrev pub request_widths : List ℕ
request_widths = 1 ∷ 4 ∷ 4 ∷ 8 ∷ 1 ∷ 8 ∷ 4 ∷ []

abbrev pub request_from_bytes : List ℕ → Option ClientRequest
request_from_bytes bytes =
    if length bytes == 30 then some (request_of (unpack request_widths bytes)) else none

pub request_sized :
    (bytes : List ℕ) → length bytes ≡ 30 → (m : ClientRequest) × (request_from_bytes bytes ≡ some m)
request_sized bytes h = (request_of (unpack request_widths bytes), rw h refl)

pub request_reads_back :
    (m : ClientRequest) → IsRequest m → request_from_bytes (pack (request_fields m)) ≡ some m
request_reads_back m h =
    let fits : All InWidth (request_fields m) =
      omega (arith, to_byte_small m.side, to_bits_small m.price) in
    rw
      (
        length-pack (request_fields m),
        unpack-pack (request_fields m) fits,
        from_byte-to_byte m.side h.request_side,
        from_bits-to_bits m.price h.request_price,
      )
      refl

unfoldable pub request_wire : Wire ClientRequest IsRequest 30
unfolding pack unpack
request_wire = record {
  to_bytes = λ m. pack (request_fields m);
  from_bytes = request_from_bytes;
  size_pos = omega arith;
  length-to_bytes = λ m. length-pack (request_fields m);
  from_bytes_sized = request_sized;
  from_bytes-to_bytes = request_reads_back;
}

-- A value of the type: each field within its width.
pub record IsResponse (m : ClientResponse) : Type 0 where
  pub response_msg_type : m.msg_type < 2 ^ 8
  pub response_client_id : m.client_id < 2 ^ 32
  pub response_ticker_id : m.ticker_id < 2 ^ 32
  pub response_client_order_id : m.client_order_id < 2 ^ 64
  pub response_market_order_id : m.market_order_id < 2 ^ 64
  pub response_side : IsI8 m.side
  pub response_price : IsI64 m.price
  pub response_exec_qty : m.exec_qty < 2 ^ 32
  pub response_leaves_qty : m.leaves_qty < 2 ^ 32

abbrev pub response_fields : ClientResponse → Fields
response_fields m =
    (1, m.msg_type)
    ∷ (4, m.client_id)
    ∷ (4, m.ticker_id)
    ∷ (8, m.client_order_id)
    ∷ (8, m.market_order_id)
    ∷ (1, to_byte m.side)
    ∷ (8, to_bits m.price)
    ∷ (4, m.exec_qty)
    ∷ (4, m.leaves_qty)
    ∷ []

abbrev pub response_of : List ℕ → ClientResponse
response_of vs = record {
  msg_type = at 0 vs;
  client_id = at 1 vs;
  ticker_id = at 2 vs;
  client_order_id = at 3 vs;
  market_order_id = at 4 vs;
  side = from_byte (at 5 vs);
  price = from_bits (at 6 vs);
  exec_qty = at 7 vs;
  leaves_qty = at 8 vs;
}

abbrev pub response_widths : List ℕ
response_widths = 1 ∷ 4 ∷ 4 ∷ 8 ∷ 8 ∷ 1 ∷ 8 ∷ 4 ∷ 4 ∷ []

abbrev pub response_from_bytes : List ℕ → Option ClientResponse
response_from_bytes bytes =
    if length bytes == 42 then some (response_of (unpack response_widths bytes)) else none

pub response_sized :
    (bytes : List ℕ)
    → length bytes ≡ 42
    → (m : ClientResponse) × (response_from_bytes bytes ≡ some m)
response_sized bytes h = (response_of (unpack response_widths bytes), rw h refl)

pub response_reads_back :
    (m : ClientResponse) → IsResponse m → response_from_bytes (pack (response_fields m)) ≡ some m
response_reads_back m h =
    let fits : All InWidth (response_fields m) =
      omega (arith, to_byte_small m.side, to_bits_small m.price) in
    rw
      (
        length-pack (response_fields m),
        unpack-pack (response_fields m) fits,
        from_byte-to_byte m.side h.response_side,
        from_bits-to_bits m.price h.response_price,
      )
      refl

unfoldable pub response_wire : Wire ClientResponse IsResponse 42
unfolding pack unpack
response_wire = record {
  to_bytes = λ m. pack (response_fields m);
  from_bytes = response_from_bytes;
  size_pos = omega arith;
  length-to_bytes = λ m. length-pack (response_fields m);
  from_bytes_sized = response_sized;
  from_bytes-to_bytes = response_reads_back;
}
