-- ===== src/Server/Delivery.antt =====
-- exchange/src/order_server.rs: what a client sends over many polls.
use rust_low_latency_trading.Prelude.{
  ℕ, ◌+◌, ◌^◌, ◌<◌, ◌≡◌, refl, ap, ap₂, ◌∙◌, arith, Bool, Option, some, List, [], ◌∷◌, ◌++◌,
}
use rust_low_latency_trading.Prelude.Lists.{length, length-append, All}
use rust_low_latency_trading.Prelude.Map.{lookup, ℕ_eq}
use rust_low_latency_trading.Types.{ClientId}
use rust_low_latency_trading.Protocol.Request.{ClientRequest}
use rust_low_latency_trading.Net.{Io, ErrorKind, ok-injective, ok, err, Bytes}
use rust_low_latency_trading.Net.Wire.{Wire, stream}
use rust_low_latency_trading.Server.Connection.{ClientConnection, connection, receive}
use rust_low_latency_trading.Server.{OrderServer, poll}
use rust_low_latency_trading.Server.Streams.{
  gained_in_all, and_then, resume, receive_each, receive_each-stream,
}
use rust_low_latency_trading.Server.Numbers.{polls, poll-IsNumbered}
use rust_low_latency_trading.Server.Requests.{requests_of, requests_of-append}
use rust_low_latency_trading.Server.Clients.{poll_receives}
use rust_low_latency_trading.Server.Identities.{IsServer, accept_connections_lem, poll-IsServer}

-- The connections that wait for a poll, and what its reads give.
abbrev pub Round : Type 0
Round = List Bool × (ClientId → Io (Option Bytes))

-- What the reads of one client give in some polls, and how many connections they accept.
abbrev pub reads_of : ClientId → List Round → List (Io (Option Bytes))
reads_of id [] = []
reads_of id ((waiting, reads) ∷ rounds) = reads id ∷ reads_of id rounds

abbrev pub waiting_in_all : List Round → ℕ
waiting_in_all [] = 0
waiting_in_all ((waiting, reads) ∷ rounds) = length waiting + waiting_in_all rounds

err_ok : {k : ErrorKind} {ms : List ClientRequest} → err k ≡ ok ms → ⊥
err_ok e = cc

module _ {Fits : ClientRequest → Type 0} {width : ℕ} (w : Wire ClientRequest Fits width) where
  -- Some reads in a row succeed only if each does.
  and_then_splits :
      (first : List ClientRequest) (r : Io (List ClientRequest) × ClientConnection)
      (ms : List ClientRequest) (c' : ClientConnection)
      → and_then w first r ≡ (ok ms, c')
      → (more : List ClientRequest) × (r ≡ (ok more, c')) × (first ++ more ≡ ms)
  and_then_splits first (ok more, c) ms c' e =
      (more, ap (λ c. (ok more, c)) (ap (λ p. p.1) e), ok-injective (ap (λ p. p.0) e))
  and_then_splits first (err k, c) ms c' e = absurd (err_ok (ap (λ p. p.0) e))

  resume_splits :
      (r : Io (List ClientRequest) × ClientConnection)
      (others : ClientConnection → Io (List ClientRequest) × ClientConnection)
      (ms : List ClientRequest) (c' : ClientConnection)
      → resume w r others ≡ (ok ms, c')
      → (first : List ClientRequest) × (c : ClientConnection) × (more : List ClientRequest) × (r
          ≡ (ok first, c))
        × (others c ≡ (ok more, c'))
        × (first ++ more ≡ ms)
  resume_splits (ok first, c) others ms c' e =
      let later = and_then_splits first (others c) ms c' e in
      (first, c, later.0, refl, later.1, later.2)
  resume_splits (err k, c) others ms c' e = absurd (err_ok (ap (λ p. p.0) e))

  -- One poll serves a client that stays connected as its read says.
  poll_serves :
      (waiting : List Bool) (reads : ClientId → Io (Option Bytes)) (s : OrderServer) (id : ClientId)
      (c : ClientConnection) (ms : List ClientRequest) (c' : ClientConnection)
      → IsServer s
      → s.next_client_id + length waiting < 2 ^ 32
      → s.sequencer_state.next_seq + length (poll w waiting reads s).0 < 2 ^ 64
      → lookup id s.clients ≡ some c
      → receive w c (reads id) ≡ (ok ms, c')
      → (requests_of id (poll w waiting reads s).0 ≡ ms)
        × (lookup id (poll w waiting reads s).1.clients ≡ some c')
  poll_serves waiting reads s id c ms c' h room bound found taken =
      let accepted = accept_connections_lem waiting s h room in
      rw (accepted.1 id c found, taken) at
        (poll_receives w waiting reads s id accepted.0.unique bound)

  polls_serve :
      (rounds : List Round) (s : OrderServer) (id : ClientId) (c : ClientConnection)
      (ms : List ClientRequest) (c' : ClientConnection)
      → IsServer s
      → s.next_client_id + waiting_in_all rounds < 2 ^ 32
      → s.sequencer_state.next_seq + length (polls w rounds s).0 < 2 ^ 64
      → lookup id s.clients ≡ some c
      → receive_each w c (reads_of id rounds) ≡ (ok ms, c')
      → (requests_of id (polls w rounds s).0 ≡ ms)
        × (lookup id (polls w rounds s).1.clients ≡ some c')
  unfolding polls receive_each requests_of
  polls_serve [] s id c ms c' h room bound found taken =
      (ok-injective (ap (λ p. p.0) taken), found ∙ ap (λ p. some (p.1)) taken)
  polls_serve ((waiting, reads) ∷ rounds) s id c ms c' h room bound found taken =
      let a = resume_splits (receive w c (reads id)) _ ms c' taken in
      let p = poll w waiting reads s in
      let counted = length-append (p.0) (polls w rounds (p.1)).0 in
      let below : s.sequencer_state.next_seq + length (p.0) < 2 ^ 64 = omega (arith, counted) in
      let first = poll_serves waiting reads s id c (a.0) (a.1) h (omega arith) below found (a.3) in
      let numbered = poll-IsNumbered w waiting reads s below in
      let next = poll-IsServer w waiting reads s h (omega arith) in
      let others =
        polls_serve rounds (p.1) id (a.1) (a.2) c' (next.0) (omega (arith, next.1))
          (omega (arith, numbered.goes_on, counted)) (first.1) (a.4) in
      (
        requests_of-append id (p.0) (polls w rounds (p.1)).0
            ∙ ap₂ (λ xs ys. xs ++ ys) (first.0) (others.0)
            ∙ a.5,
        others.1,
      )

  -- However the network cuts the requests of a connected client into the reads of some polls, if none
  -- of these reads is an error or the end of the stream, the polls return under the client's number
  -- exactly its requests, in the order in which it sent them, whatever the other clients do; the client
  -- stays connected, and its buffer holds the bytes of a last request that is not whole. The numbers of
  -- the clients are not to reach 2^32 and those of the requests not 2^64.
  pub polls_lem :
      (rounds : List Round) (s : OrderServer) (id : ClientId) (ms : List ClientRequest)
      (rest : Bytes)
      → IsServer s
      → s.next_client_id + waiting_in_all rounds < 2 ^ 32
      → s.sequencer_state.next_seq + length (polls w rounds s).0 < 2 ^ 64
      → lookup id s.clients ≡ some (connection id)
      → All Fits ms
      → length rest < width
      → gained_in_all (reads_of id rounds) ≡ ok (stream w ms ++ rest)
      → (requests_of id (polls w rounds s).0 ≡ ms)
        × (lookup id (polls w rounds s).1.clients
            ≡ some (record (connection id) { recv_buffer = rest }))
  polls_lem rounds s id ms rest h room bound found fits short cut =
      polls_serve rounds s id (connection id) ms (record (connection id) { recv_buffer = rest }) h
        room bound found (receive_each-stream w id (reads_of id rounds) ms rest fits short cut)
