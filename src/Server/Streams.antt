-- ===== src/Server/Streams.antt =====
-- exchange/src/order_server.rs: a connection over many reads.
use rust_low_latency_trading.Prelude.{
  ℕ, ◌<◌, ◌≡◌, refl, sym, ◌∙◌, arith, Option, List, [], ◌∷◌, ◌++◌, inl, inr,
}
use rust_low_latency_trading.Prelude.Lists.{length, All, append-nil, append_assoc}
use rust_low_latency_trading.Types.{ClientId}
use rust_low_latency_trading.Net.{Io-cases, ok-injective, Io, ok, err, Bytes, ◌>>=◌}
use rust_low_latency_trading.Net.Wire.{Wire, stream}
use rust_low_latency_trading.Server.Connection.{
  ClientConnection, connection, gained, parse_all, receive,
}
use rust_low_latency_trading.Server.Framing.{
  parse_short, parse-stream, parse_all-append, parse_all_short,
}

-- The bytes that some reads gave in all.
unfoldable pub gained_in_all : List (Io (Option Bytes)) → Io Bytes
gained_in_all [] = ok []
gained_in_all (read ∷ reads) = do
  bytes ← gained read
  more ← gained_in_all reads
  ok (bytes ++ more)

-- Some reads in a row, with all the messages that they gave.
module _ {M : Type 0} {Fits : M → Type 0} {size : ℕ} (w : Wire M Fits size) where
  abbrev pub and_then : List M → Io (List M) × ClientConnection → Io (List M) × ClientConnection
  and_then ms (ok more, c) = (ok (ms ++ more), c)
  and_then ms (err e, c) = (err e, c)

  abbrev pub resume :
      Io (List M) × ClientConnection
      → (ClientConnection → Io (List M) × ClientConnection)
      → Io (List M) × ClientConnection
  resume (err e, c) next = (err e, c)
  resume (ok ms, c) next = and_then ms (next c)

  unfoldable pub receive_each :
      ClientConnection → List (Io (Option Bytes)) → Io (List M) × ClientConnection
  receive_each c [] = (ok [], c)
  receive_each c (read ∷ reads) = resume (receive w c read) (λ c'. receive_each c' reads)

  -- What a connection makes of some bytes.
  abbrev pub takes : ClientConnection → Bytes → Io (List M) × ClientConnection
  takes c bytes =
      let r = parse_all w (c.recv_buffer ++ bytes) in (ok (r.0), record c { recv_buffer = r.1 })

  -- One read that gives bytes.
  pub receive_ok :
      (c : ClientConnection) (read : Io (Option Bytes)) (bytes : Bytes)
      → gained read ≡ ok bytes
      → receive w c read ≡ takes c bytes
  unfolding receive
  receive_ok c read bytes e = rw (receive, e) refl

  -- The reads have the messages, and leave the bytes, of one read of all their bytes.
  receive_each_lem :
      (c : ClientConnection) (reads : List (Io (Option Bytes))) (bytes : Bytes)
      → length c.recv_buffer < size
      → gained_in_all reads ≡ ok bytes
      → receive_each c reads ≡ takes c bytes
  unfolding receive_each gained_in_all
  receive_each_lem c [] bytes short e =
      rw
        (
          sym (ok-injective e),
          append-nil c.recv_buffer,
          parse_short w (length c.recv_buffer) _ short,
        )
        refl
  receive_each_lem c (read ∷ reads) bytes short e = elim (Io-cases (gained read)) [
    | inr (k, failed) ↦ cc
    | inl (x, first) ↦ elim (Io-cases (gained_in_all reads)) [
      | inr (k, failed) ↦ cc
      | inl (y, others) ↦
          let b = c.recv_buffer in
          let middle = (receive w c read).1 in
          let left = parse_all_short w (b ++ x) in
          let whole : bytes ≡ x ++ y = sym (ok-injective (rw (first, others) at e)) in
          rw (receive_each, receive_ok c read x first, whole)
            (rw
              (
                receive_each_lem (takes c x).1 reads y left others,
                sym (append_assoc b x y),
                parse_all-append w (b ++ x) y,
              )
              refl)
    ]
  ]

  -- However the network cuts the bytes of messages into reads that give no error, the connection
  -- takes exactly these messages, in their order, and keeps the bytes of a last one that is not whole.
  pub receive_each-stream :
      (id : ClientId) (reads : List (Io (Option Bytes))) (ms : List M) (rest : Bytes)
      → All Fits ms
      → length rest < size
      → gained_in_all reads ≡ ok (stream w ms ++ rest)
      → receive_each (connection id) reads ≡ (ok ms, record (connection id) { recv_buffer = rest })
  receive_each-stream id reads ms rest fits short cut =
      receive_each_lem (connection id) reads (stream w ms ++ rest) (omega (arith, w.size_pos)) cut
      ∙ rw (parse-stream w (length (stream w ms ++ rest)) ms rest fits short (omega arith)) refl
