-- ===== src/Server/Clients.antt =====
-- exchange/src/order_server.rs: what a poll does to each client.
use rust_low_latency_trading.Prelude.{
  ℕ, ◌+◌, ◌^◌, ◌<◌, ◌≡◌, ◌⊎◌, subst₂, refl, sym, ap, ◌∙◌, arith, inl, inr, Bool, true, false,
  Option, none, some, List, [], ◌∷◌, ◌++◌, if◌then◌else◌, Bool-cases, ==_iff,
}
use rust_low_latency_trading.Prelude.Lists.{length, append-nil}
use rust_low_latency_trading.Prelude.Map.{Map, lookup, ◌==◌, ℕ_eq, IsMap}
use rust_low_latency_trading.Types.{ClientId}
use rust_low_latency_trading.Protocol.Request.{ClientRequest}
use rust_low_latency_trading.Net.{
  Io, ok, err, Bytes, would_block, connection_reset, not_connected, invalid_input, other,
}
use rust_low_latency_trading.Net.Wire.{Wire}
use rust_low_latency_trading.Server.Connection.{ClientConnection, parse_all, receive}
use rust_low_latency_trading.Server.{
  FifoSequencer, OrderServer, accept_connections, take_in, visit, poll,
}
use rust_low_latency_trading.Server.Framing.{Holds, parse_all-Holds}
use rust_low_latency_trading.Server.Numbers.{poll_in_order}
use rust_low_latency_trading.Server.Requests.{
  requests_of, requests_of-append, requests_of-assign, contains, contains-append,
  lookup-remove_each,
}

-- Whether a read ends the connection, and the bytes that it gives.
abbrev pub ends : Io (Option Bytes) → Bool
ends (ok none) = false
ends (ok (some [])) = true
ends (ok (some (b ∷ bytes))) = false
ends (err would_block) = false
ends (err connection_reset) = true
ends (err not_connected) = true
ends (err invalid_input) = true
ends (err other) = true

abbrev pub given : Io (Option Bytes) → Bytes
given (ok (some bytes)) = bytes
given (ok none) = []
given (err e) = []

-- What a read makes of a client: its requests, its connection if it stays, and whether it goes.
abbrev messages : Io (List ClientRequest) → List ClientRequest
messages (ok ms) = ms
messages (err e) = []

abbrev is_err : Io (List ClientRequest) → Bool
is_err (ok ms) = false
is_err (err e) = true

requests_of-take_in :
    (id j : ClientId) (r : Io (List ClientRequest)) (q : FifoSequencer)
    → requests_of id (take_in j r q).0 ≡ (if j == id then messages r else [])
unfolding requests_of
requests_of-take_in id j (ok ms) q = requests_of-assign id j ms q
requests_of-take_in id j (err e) q = ground arith

contains-take_in :
    (id j : ClientId) (r : Io (List ClientRequest)) (q : FifoSequencer)
    → contains id (take_in j r q).1 ≡ (if j == id then is_err r else false)
unfolding contains
contains-take_in id j (ok ms) q = ground arith
contains-take_in id j (err e) q = ground arith

module _ {Fits : ClientRequest → Type 0} {width : ℕ} (w : Wire ClientRequest Fits width) where
  -- What is served of a client, by the words of the source: an error other than that nothing waits, and
  -- a read of no bytes, end the connection, and the messages are those in the buffer and the bytes read.
  abbrev served : Option ClientConnection → Io (Option Bytes) → List ClientRequest
  served none read = []
  served (some c) read = if ends read then [] else (parse_all w (c.recv_buffer ++ given read)).0

  -- The connection that a client has after a poll.
  abbrev stays : Option ClientConnection → Io (Option Bytes) → Option ClientConnection
  stays none read = none
  stays (some c) read =
      if ends read
      then none
      else some (record c { recv_buffer = (parse_all w (c.recv_buffer ++ given read)).1 })

  abbrev pub answered : Option ClientConnection → Io (Option Bytes) → List ClientRequest
  answered none read = []
  answered (some c) read = messages (receive w c read).0

  abbrev pub goes : Option ClientConnection → Io (Option Bytes) → Bool
  goes none read = false
  goes (some c) read = is_err (receive w c read).0

  abbrev pub after : Option ClientConnection → Io (Option Bytes) → Option ClientConnection
  after none read = none
  after (some c) read = some (receive w c read).1

  pub visit_clients :
      (reads : ClientId → Io (Option Bytes)) (clients : Map ClientId ClientConnection)
      (q : FifoSequencer) (id : ClientId)
      → lookup id (visit w reads clients q).2 ≡ after (lookup id clients) (reads id)
  unfolding visit lookup
  visit_clients reads [] q id = refl
  visit_clients reads ((j, c) ∷ clients) q id =
      let t = take_in j (receive w c (reads j)).0 q in
      elim (Bool-cases (j == id)) [
        | inl same ↦ rw (same, sym ((==_iff j id).0 same)) refl
        | inr different ↦ rw (different, visit_clients reads clients (t.2) id) refl
      ]

  visit_requests :
      (reads : ClientId → Io (Option Bytes)) (clients : Map ClientId ClientConnection)
      (q : FifoSequencer) (id : ClientId)
      → IsMap clients
      → requests_of id (visit w reads clients q).0 ≡ answered (lookup id clients) (reads id)
  unfolding visit lookup requests_of
  visit_requests reads [] q id h = refl
  visit_requests reads ((j, c) ∷ clients) q id (fresh, h) =
      let r = (receive w c (reads j)).0 in
      let t = take_in j r q in
      let others = visit_requests reads clients (t.2) id h in
      rw
        (
          requests_of-append id (t.0) (visit w reads clients (t.2)).0,
          requests_of-take_in id j r q,
          others,
        )
        (elim (Bool-cases (j == id)) [
          | inl same ↦ rw (same, sym ((==_iff j id).0 same), fresh, append-nil) refl
          | inr different ↦ rw different refl
        ])

  visit_gone :
      (reads : ClientId → Io (Option Bytes)) (clients : Map ClientId ClientConnection)
      (q : FifoSequencer) (id : ClientId)
      → IsMap clients
      → contains id (visit w reads clients q).1 ≡ goes (lookup id clients) (reads id)
  unfolding visit lookup contains
  visit_gone reads [] q id h = refl
  visit_gone reads ((j, c) ∷ clients) q id (fresh, h) =
      let r = (receive w c (reads j)).0 in
      let t = take_in j r q in
      let others = visit_gone reads clients (t.2) id h in
      rw
        (
          contains-append id (t.1) (visit w reads clients (t.2)).1,
          contains-take_in id j r q,
          others,
        )
        (elim (Bool-cases (j == id)) [
          | inl same ↦ rw (same, sym ((==_iff j id).0 same), fresh) (ground arith)
          | inr different ↦ rw different refl
        ])

  abbrev pub kept : Option ClientConnection → Io (Option Bytes) → Option ClientConnection
  kept c read = if goes c read then none else after c read

  -- The code keeps to these words.
  answered-served :
      (c : Option ClientConnection) (read : Io (Option Bytes)) → answered c read ≡ served c read
  unfolding receive
  answered-served none read = refl
  answered-served (some c) (ok none) = rw (append-nil c.recv_buffer) refl
  answered-served (some c) (ok (some [])) = refl
  answered-served (some c) (ok (some (b ∷ bytes))) = refl
  answered-served (some c) (err would_block) = rw (append-nil c.recv_buffer) refl
  answered-served (some c) (err connection_reset) = refl
  answered-served (some c) (err not_connected) = refl
  answered-served (some c) (err invalid_input) = refl
  answered-served (some c) (err other) = refl

  kept-stays : (c : Option ClientConnection) (read : Io (Option Bytes)) → kept c read ≡ stays c read
  unfolding receive
  kept-stays none read = refl
  kept-stays (some c) (ok none) = rw (append-nil c.recv_buffer) refl
  kept-stays (some c) (ok (some [])) = refl
  kept-stays (some c) (ok (some (b ∷ bytes))) = refl
  kept-stays (some c) (err would_block) = rw (append-nil c.recv_buffer) refl
  kept-stays (some c) (err connection_reset) = refl
  kept-stays (some c) (err not_connected) = refl
  kept-stays (some c) (err invalid_input) = refl
  kept-stays (some c) (err other) = refl

  -- One poll by what each connection receives.
  pub poll_receives :
      (waiting : List Bool) (reads : ClientId → Io (Option Bytes)) (s : OrderServer) (id : ClientId)
      → IsMap (accept_connections waiting s).clients
      → s.sequencer_state.next_seq + length (poll w waiting reads s).0 < 2 ^ 64
      → let p = poll w waiting reads s in
        let c = lookup id (accept_connections waiting s).clients in
        (requests_of id p.0 ≡ answered c (reads id)) × (lookup id p.1.clients ≡ kept c (reads id))
  unfolding poll
  poll_receives waiting reads s id h bound =
      let a = accept_connections waiting s in
      let v = visit w reads a.clients a.sequencer_state in
      (
        ap (requests_of id) (poll_in_order w waiting reads s bound)
            ∙ visit_requests reads a.clients a.sequencer_state id h,
        rw
            (
              lookup-remove_each (v.1) id (v.2),
              visit_gone reads a.clients a.sequencer_state id h,
              visit_clients reads a.clients a.sequencer_state id,
            )
            refl,
      )

  -- What a poll does to a client, by its read: the requests under its number, and its connection after
  -- that. A read that ends the connection drops the client; else the requests are those that its buffer
  -- and the bytes read hold, and the rest stays in the buffer.
  abbrev pub Serves :
      Option ClientConnection
      → Io (Option Bytes)
      → List ClientRequest
      → Option ClientConnection
      → Type 0
  Serves none read requests after_it = (requests ≡ []) × (after_it ≡ none)
  Serves (some c) read requests after_it =
      ((ends read ≡ true) × (requests ≡ []) × (after_it ≡ none))
      ⊎ ((ends read ≡ false)
          × (left : Bytes) × Holds w (c.recv_buffer ++ given read) requests left
          × (after_it ≡ some (record c { recv_buffer = left })))

  served-Serves :
      (c : Option ClientConnection) (read : Io (Option Bytes))
      → Serves c read (served c read) (stays c read)
  served-Serves none read = (refl, refl)
  served-Serves (some c) read = elim (Bool-cases (ends read)) [
    | inl over ↦ rw over (inl (refl, refl, refl))
    | inr goes_on ↦
        let bytes = c.recv_buffer ++ given read in
        rw goes_on (inr (refl, (parse_all w bytes).1, parse_all-Holds w bytes, refl))
  ]

  -- One poll serves each client by its own read: it drops the client exactly when the read is the end of
  -- the stream, a read of no bytes, or an error other than that nothing waits, and then returns no
  -- request under its number. Else it returns under that number the requests that the client's buffer
  -- and the bytes read hold, in their order, and no others, and keeps the connection with the bytes that
  -- are left, less than a request. A number without a client has no request and no connection. The
  -- clients are those after the waiting connections were accepted, no two of which have one number, and
  -- the counter is not to reach 2^64.
  pub poll_lem :
      (waiting : List Bool) (reads : ClientId → Io (Option Bytes)) (s : OrderServer) (id : ClientId)
      → IsMap (accept_connections waiting s).clients
      → s.sequencer_state.next_seq + length (poll w waiting reads s).0 < 2 ^ 64
      → let p = poll w waiting reads s in
        Serves
          (lookup id (accept_connections waiting s).clients)
          (reads id)
          (requests_of id p.0)
          (lookup id p.1.clients)
  poll_lem waiting reads s id h bound =
      let p = poll_receives waiting reads s id h bound in
      let c = lookup id (accept_connections waiting s).clients in
      subst₂ (λ rs o. Serves c (reads id) rs o) (sym (p.0 ∙ answered-served c (reads id)))
        (sym (p.1 ∙ kept-stays c (reads id))) (served-Serves c (reads id))
