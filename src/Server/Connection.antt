-- ===== src/Server/Connection.antt =====
-- exchange/src/order_server.rs: a client's connection and the messages that its bytes hold.
use rust_low_latency_trading.Prelude.{
  ℕ, zero, suc, Option, none, some, List, [], ◌∷◌, ◌++◌, if◌then◌else◌, ltb,
}
use rust_low_latency_trading.Prelude.Lists.{length, take, drop}
use rust_low_latency_trading.Types.{ClientId}
use rust_low_latency_trading.Net.{Io, ok, err, Bytes, connection_reset, would_block}
use rust_low_latency_trading.Net.Wire.{Wire}

-- The socket of the connection is third-party code: its reads are arguments.
pub record ClientConnection : Type 0 where
  pub client_id : ClientId
  pub recv_buffer : Bytes

abbrev pub connection : ClientId → ClientConnection
connection id = record { client_id = id; recv_buffer = [] }

-- The bytes that a read adds to the buffer, or the error that ends the connection: a read of no
-- bytes is the end of the stream.
abbrev pub gained : Io (Option Bytes) → Io Bytes
gained (ok none) = ok []
gained (ok (some [])) = err connection_reset
gained (ok (some (b ∷ bytes))) = ok (b ∷ bytes)
gained (err would_block) = ok []
gained (err e) = err e

module _ {M : Type 0} {Fits : M → Type 0} {size : ℕ} (w : Wire M Fits size) where
  -- The loop over the buffer: the messages taken, and what is left. Each round takes a byte at least,
  -- so the buffer's length is enough fuel.
  unfoldable pub parse : ℕ → Bytes → List M × Bytes
  parse zero buffer = ([], buffer)
  parse (suc fuel) buffer =
      let next : List M × Bytes = elim (w.from_bytes (take size buffer)) [
        | none ↦ parse fuel (drop 1 buffer)
        | some m ↦ let r = parse fuel (drop size buffer) in (m ∷ r.0, r.1)
      ] in
      if ltb (length buffer) size then ([], buffer) else next

  abbrev pub parse_all : Bytes → List M × Bytes
  parse_all buffer = parse (length buffer) buffer

  -- `receive`, on what `try_recv` returned.
  unfoldable pub receive : ClientConnection → Io (Option Bytes) → Io (List M) × ClientConnection
  unfolding parse
  receive c read = elim (gained read) [
    | err e ↦ (err e, c)
    | ok bytes ↦
        let r = parse_all (c.recv_buffer ++ bytes) in (ok (r.0), record c { recv_buffer = r.1 })
  ]
