-- ===== src/Server/Identities.antt =====
-- exchange/src/order_server.rs: the numbers that the server gives its clients.
use rust_low_latency_trading.Prelude.{
  ℕ, ◌+◌, ◌^◌, ◌<◌, ◌≡◌, refl, sym, ap, ◌∙◌, arith, inl, inr, Bool, true, false, Option, none, some,
  List, [], ◌∷◌, if◌then◌else◌, wrap32, Bool-cases, ==_iff,
}
use rust_low_latency_trading.Prelude.Lists.{length}
use rust_low_latency_trading.Prelude.Map.{
  Map, lookup, insert, remove, ◌==◌, ℕ_eq, IsMap, insert-IsMap, remove-IsMap, lookup-insert,
}
use rust_low_latency_trading.Types.{ClientId}
use rust_low_latency_trading.Protocol.Request.{ClientRequest}
use rust_low_latency_trading.Net.{Io, Bytes, Io-cases}
use rust_low_latency_trading.Net.Wire.{Wire}
use rust_low_latency_trading.Server.Connection.{ClientConnection, connection, gained, receive}
use rust_low_latency_trading.Server.{
  FifoSequencer, OrderServer, accept, accept_connections, take_in, visit, remove_each, poll,
}
use rust_low_latency_trading.Server.Requests.{lookup-remove_each}
use rust_low_latency_trading.Server.Clients.{visit_clients, after}

abbrev some_or : ClientConnection → Option ClientConnection → ClientConnection
some_or d none = d
some_or d (some c) = c

some-injective : {a b : ClientConnection} → some a ≡ some b → a ≡ b
some-injective {a = a} e = ap (some_or a) e

-- No number stands for two clients, each connection knows its number, and the next number is new.
abbrev IsKnown : ℕ → Map ClientId ClientConnection → Type 0
IsKnown bound clients =
    (id : ClientId) (c : ClientConnection)
    → lookup id clients ≡ some c
    → (id < bound) × (c.client_id ≡ id)

pub record IsServer (s : OrderServer) : Type 0 where
  pub unique : IsMap s.clients
  pub known : IsKnown s.next_client_id s.clients

accept-IsKnown :
    (n : ℕ) (clients : Map ClientId ClientConnection)
    → IsKnown n clients
    → IsKnown (n + 1) (insert n (connection n) clients)
accept-IsKnown n clients h id c found = elim (Bool-cases (n == id)) [
  | inl same ↦ ground (arith, lookup-insert n id (connection n) clients, (==_iff n id).0 same, same)
  | inr other ↦ ground (arith, lookup-insert n id (connection n) clients, h id c)
]

accept-IsServer :
    (nonblocking : Bool) (s : OrderServer)
    → s.next_client_id + 1 < 2 ^ 32
    → IsServer s
    → IsServer (accept nonblocking s)
accept-IsServer true s room h =
    let n = s.next_client_id in
    let same : wrap32 (n + 1) ≡ n + 1 = omega arith in
    record {
      unique = insert-IsMap n (connection n) s.clients h.unique;
      known = rw same (accept-IsKnown n s.clients h.known);
    }
accept-IsServer false s room h =
    let same : wrap32 (s.next_client_id + 1) ≡ s.next_client_id + 1 = omega arith in
    record {
      unique = h.unique;
      known = λ id c found. let k = h.known id c found in (rw same (omega (arith, k.0)), k.1);
    }

-- A client of before is there after, with the connection that it had.
accept_keeps :
    (nonblocking : Bool) (s : OrderServer) (id : ClientId) (c : ClientConnection)
    → IsServer s
    → lookup id s.clients ≡ some c
    → lookup id (accept nonblocking s).clients ≡ some c
accept_keeps false s id c h found = found
accept_keeps true s id c h found =
    let n = s.next_client_id in
    ground (arith, lookup-insert n id (connection n) s.clients, h.known id c found, (==_iff n id).0)

accept_next :
    (nonblocking : Bool) (s : OrderServer)
    → s.next_client_id + 1 < 2 ^ 32
    → (accept nonblocking s).next_client_id ≡ s.next_client_id + 1
accept_next true s room = omega arith
accept_next false s room = omega arith

-- The connections that wait are accepted under new numbers: the server's clients stay as they were,
-- and the numbers are still known and unique, as long as they do not reach 2^32.
pub accept_connections_lem :
    (waiting : List Bool) (s : OrderServer)
    → IsServer s
    → s.next_client_id + length waiting < 2 ^ 32
    → IsServer (accept_connections waiting s)
      × ((id : ClientId) (c : ClientConnection)
          → lookup id s.clients ≡ some c
          → lookup id (accept_connections waiting s).clients ≡ some c)
      × ((accept_connections waiting s).next_client_id ≡ s.next_client_id + length waiting)
unfolding accept_connections
accept_connections_lem [] s h room = (h, λ id c found. found, omega arith)
accept_connections_lem (nonblocking ∷ waiting) s h room =
    let next = accept_next nonblocking s (omega arith) in
    let others =
      accept_connections_lem waiting (accept nonblocking s)
        (accept-IsServer nonblocking s (omega arith) h) (omega (arith, next)) in
    (
      others.0,
      λ id c found. others.1 id c (accept_keeps nonblocking s id c h found),
      omega (arith, next, others.2),
    )

remove_each-IsMap :
    (ids : List ClientId) (clients : Map ClientId ClientConnection)
    → IsMap clients
    → IsMap (remove_each ids clients)
unfolding remove_each
remove_each-IsMap [] clients h = h
remove_each-IsMap (j ∷ ids) clients h =
    remove_each-IsMap ids (remove j clients) (remove-IsMap j clients h)

pub none_or :
    (b : Bool) (o : Option ClientConnection) (c : ClientConnection)
    → (if b then none else o) ≡ some c
    → o ≡ some c
none_or true o c e = cc
none_or false o c e = e

pub empty_finds : (id : ClientId) (c : ClientConnection) → lookup id [] ≡ some c → ⊥
unfolding lookup
empty_finds id c found = cc

module _ {Fits : ClientRequest → Type 0} {width : ℕ} (w : Wire ClientRequest Fits width) where
  receive_client :
      (c : ClientConnection) (read : Io (Option Bytes))
      → (receive w c read).1.client_id ≡ c.client_id
  unfolding receive
  receive_client c read = elim (Io-cases (gained read)) [
    | inl (bytes, e) ↦ rw (receive, e) refl
    | inr (kind, e) ↦ rw (receive, e) refl
  ]

  after_known :
      (n : ℕ) (id : ClientId) (o : Option ClientConnection) (read : Io (Option Bytes))
      (c : ClientConnection)
      → ((d : ClientConnection) → o ≡ some d → (id < n) × (d.client_id ≡ id))
      → after w o read ≡ some c
      → (id < n) × (c.client_id ≡ id)
  after_known n id none read c h e = cc
  after_known n id (some d) read c h e =
      let k = h d refl in
      (
        k.0,
        ap (λ (x : ClientConnection). x.client_id) (some-injective (sym e))
            ∙ receive_client d read
            ∙ k.1,
      )

  visit-IsMap :
      (reads : ClientId → Io (Option Bytes)) (clients : Map ClientId ClientConnection)
      (q : FifoSequencer)
      → IsMap clients
      → IsMap (visit w reads clients q).2
  unfolding visit
  visit-IsMap reads [] q h = tt
  visit-IsMap reads ((j, c) ∷ clients) q (fresh, h) =
      let t = take_in j (receive w c (reads j)).0 q in
      (visit_clients w reads clients (t.2) j ∙ rw fresh refl, visit-IsMap reads clients (t.2) h)

  pub poll-IsServer :
      (waiting : List Bool) (reads : ClientId → Io (Option Bytes)) (s : OrderServer)
      → IsServer s
      → s.next_client_id + length waiting < 2 ^ 32
      → IsServer (poll w waiting reads s).1
        × ((poll w waiting reads s).1.next_client_id ≡ s.next_client_id + length waiting)
  unfolding poll
  poll-IsServer waiting reads s h room =
      let a = accept_connections waiting s in
      let v = visit w reads a.clients a.sequencer_state in
      let accepted = accept_connections_lem waiting s h room in
      (
        record {
          unique =
              remove_each-IsMap (v.1) (v.2)
                (visit-IsMap reads a.clients a.sequencer_state accepted.0.unique);
          known = λ id c found.
              after_known a.next_client_id id (lookup id a.clients) (reads id) c
                (accepted.0.known id)
                (sym (visit_clients w reads a.clients a.sequencer_state id)
                  ∙ none_or _ (lookup id (v.2)) c
                      (sym (lookup-remove_each (v.1) id (v.2)) ∙ found));
        },
        accepted.2,
      )
