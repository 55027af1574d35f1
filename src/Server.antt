-- ===== src/Server.antt =====
-- exchange/src/order_server.rs: the order server. The operating system's part is an argument: which
-- connections wait to be accepted, what each read gives, and what each send answers.
pub mod Connection
pub mod Framing
pub mod Streams
pub mod Numbers
pub mod Requests
pub mod Clients
pub mod Identities
pub mod Runs
pub mod Delivery
mod Tests
use rust_low_latency_trading.Prelude.{
  ℕ, ◌+◌, Bool, true, false, Option, none, some, List, [], ◌∷◌, ◌++◌, if◌then◌else◌, leb, wrap32,
  wrap64,
}
use rust_low_latency_trading.Prelude.Map.{Map, size, keys, lookup, insert, remove, ℕ_eq}
use rust_low_latency_trading.Types.{ClientId}
use rust_low_latency_trading.Protocol.Request.{ClientRequest}
use rust_low_latency_trading.Protocol.Response.{ClientResponse}
use rust_low_latency_trading.Net.{Io, ok, err, Bytes, ErrorKind, not_connected}
use rust_low_latency_trading.Net.Wire.{Wire}
use rust_low_latency_trading.Server.Connection.{ClientConnection, connection, receive}

pub record FifoSequencer : Type 0 where
  pub next_seq : ℕ

abbrev pub sequencer : FifoSequencer
sequencer = record { next_seq = 1 }

abbrev pub next : FifoSequencer → ℕ × FifoSequencer
next q = (q.next_seq, record { next_seq = wrap64 (q.next_seq + 1) })

pub record SequencedRequest : Type 0 where
  pub sequence_number : ℕ
  pub client_id : ClientId
  pub request : ClientRequest

-- The listener stands outside, and so does the configuration, which only names its address.
pub record OrderServer : Type 0 where
  pub clients : Map ClientId ClientConnection
  pub sequencer_state : FifoSequencer
  pub next_client_id : ClientId

-- `OrderServer::new`, with what `TcpListener::bind` and `set_nonblocking` answer.
abbrev pub new : Io (Unit {0}) → Io (Unit {0}) → Io OrderServer
new (err e) _ = err e
new (ok _) (err e) = err e
new (ok _) (ok _) = ok record { clients = []; sequencer_state = sequencer; next_client_id = 1 }

-- A connection that was accepted. The flag says whether its socket could be set not to block: if not,
-- the connection is dropped, and its number is used up.
abbrev pub accept : Bool → OrderServer → OrderServer
accept nonblocking s =
    let id = s.next_client_id in
    let counted = record s { next_client_id = wrap32 (id + 1) } in
    if nonblocking
    then record counted { clients = insert id (connection id) s.clients }
    else counted

-- The connections that wait, up to the first error of `accept`.
unfoldable pub accept_connections : List Bool → OrderServer → OrderServer
accept_connections [] s = s
accept_connections (nonblocking ∷ waiting) s = accept_connections waiting (accept nonblocking s)

-- `sort_by_key` by the sequence number, which keeps the order of equal keys.
unfoldable pub sorted_in : SequencedRequest → List SequencedRequest → List SequencedRequest
sorted_in r [] = r ∷ []
sorted_in r (x ∷ xs) =
    if leb r.sequence_number x.sequence_number then r ∷ x ∷ xs else x ∷ sorted_in r xs

unfoldable pub sort_by_number : List SequencedRequest → List SequencedRequest
sort_by_number [] = []
sort_by_number (r ∷ rs) = sorted_in r (sort_by_number rs)

-- The requests of one client, numbered.
unfoldable pub assign :
    ClientId → List ClientRequest → FifoSequencer → List SequencedRequest × FifoSequencer
assign id [] q = ([], q)
assign id (request ∷ requests) q =
    let n = next q in
    let others = assign id requests (n.1) in
    (record { sequence_number = n.0; client_id = id; request = request } ∷ others.0, others.1)

-- What one client adds: requests, or its place among the disconnected.
abbrev pub take_in :
    ClientId
    → Io (List ClientRequest)
    → FifoSequencer
    → List SequencedRequest × List ClientId × FifoSequencer
take_in id (ok requests) q = let n = assign id requests q in (n.0, [], n.1)
take_in id (err e) q = ([], id ∷ [], q)

unfoldable pub remove_each :
    List ClientId → Map ClientId ClientConnection → Map ClientId ClientConnection
remove_each [] clients = clients
remove_each (id ∷ ids) clients = remove_each ids (remove id clients)

module _ {Fits : ClientRequest → Type 0} {width : ℕ} (w : Wire ClientRequest Fits width) where
  -- The loop over the clients: the requests, the disconnected, the connections and the sequencer. The
  -- order of the clients is that of the list, which stands for any order of the hash map.
  unfoldable pub visit :
      (ClientId → Io (Option Bytes))
      → Map ClientId ClientConnection
      → FifoSequencer
      → List SequencedRequest × List ClientId × Map ClientId ClientConnection × FifoSequencer
  unfolding assign
  visit reads [] q = ([], [], [], q)
  visit reads ((id, c) ∷ clients) q =
      let r = receive w c (reads id) in
      let t = take_in id (r.0) q in
      let others = visit reads clients (t.2) in
      (t.0 ++ others.0, t.1 ++ others.1, (id, r.1) ∷ others.2, others.3)

  unfoldable pub poll :
      List Bool → (ClientId → Io (Option Bytes)) → OrderServer → List SequencedRequest × OrderServer
  unfolding accept_connections visit remove_each sort_by_number sorted_in
  poll waiting reads s =
      let accepted = accept_connections waiting s in
      let v = visit reads accepted.clients accepted.sequencer_state in
      (
        sort_by_number (v.0),
        record accepted { clients = remove_each (v.1) (v.2); sequencer_state = v.3 },
      )

-- `send_response`, with what the client's socket answers to the bytes.
abbrev pub send_response :
    (ClientId → Bytes → Io ℕ)
    → (ClientResponse → Bytes)
    → OrderServer
    → ClientId
    → ClientResponse
    → Io ℕ
send_response send as_bytes s id response = elim (lookup id s.clients) [
  | some c ↦ send id (as_bytes response)
  | none ↦ err not_connected
]

-- The clients whose send succeeds.
unfoldable pub count_sent : (ClientId → Io ℕ) → Map ClientId ClientConnection → ℕ
count_sent sent [] = 0
count_sent sent ((id, c) ∷ clients) = elim (sent id) [
  | ok n ↦ count_sent sent clients + 1
  | err e ↦ count_sent sent clients
]

abbrev pub broadcast :
    (ClientId → Bytes → Io ℕ) → (ClientResponse → Bytes) → OrderServer → ClientResponse → ℕ
broadcast send as_bytes s response = count_sent (λ id. send id (as_bytes response)) s.clients

abbrev pub client_count : OrderServer → ℕ
client_count s = size s.clients

abbrev pub current_sequence : OrderServer → ℕ
current_sequence s = s.sequencer_state.next_seq

abbrev pub get_client : OrderServer → ClientId → Option ClientConnection
get_client s id = lookup id s.clients

abbrev is_some {ℓ} : {A : Type ℓ} → Option A → Bool
is_some none = false
is_some (some a) = true

abbrev pub disconnect_client : OrderServer → ClientId → Bool × OrderServer
disconnect_client s id = (is_some (lookup id s.clients), record s { clients = remove id s.clients })

abbrev pub disconnect_all : OrderServer → OrderServer
disconnect_all s = record s { clients = [] }

abbrev pub client_ids : OrderServer → List ClientId
client_ids s = keys s.clients
