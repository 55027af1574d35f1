-- ===== src/Server/Tests.antt =====
-- exchange/src/order_server.rs: runs of the server, and instances of its theorems.
use rust_low_latency_trading.Prelude.{
  ◌≡◌, refl, arith, Bool, true, false, Option, none, some, List, [], ◌∷◌, ◌++◌, ◌==◌, if◌then◌else◌,
}
use rust_low_latency_trading.Prelude.Lists.{length, take, drop}
use rust_low_latency_trading.Prelude.Int.{pos, negsuc}
use rust_low_latency_trading.Prelude.Map.{lookup, insert, remove, ℕ_eq}
use rust_low_latency_trading.Types.{ClientId}
use rust_low_latency_trading.Protocol.Request
use rust_low_latency_trading.Protocol.Request.{ClientRequest}
use rust_low_latency_trading.Net.{Io, ok, err, Bytes, other}
use rust_low_latency_trading.Net.Wire.{stream}
use rust_low_latency_trading.Net.Packed.{pack, unpack}
use rust_low_latency_trading.Net.Messages.{request_wire}
use rust_low_latency_trading.Server.{
  OrderServer, sequencer, accept_connections, assign, visit, sort_by_number, poll,
}
use rust_low_latency_trading.Server.Connection.{connection, receive}
use rust_low_latency_trading.Server.Streams.{gained_in_all}
use rust_low_latency_trading.Server.Numbers.{IsNumbered, polls, polls-IsNumbered}
use rust_low_latency_trading.Server.Requests.{requests_of}
use rust_low_latency_trading.Server.Clients.{Serves, poll_lem}
use rust_low_latency_trading.Server.Identities.{IsServer, accept_connections_lem, empty_finds}
use rust_low_latency_trading.Server.Delivery.{Round, polls_lem}
use rust_low_latency_trading.Server.Runs.{polled, disconnected, run, run-IsServer}

abbrev buy_order : ClientRequest
buy_order = Request.create Request.new 1 7 1 (pos 1) (pos 10000) 50

abbrev sell_order : ClientRequest
sell_order = Request.create Request.new 1 7 2 (negsuc 0) (pos 10050) 300

-- Two orders, and the first bytes of a third.
abbrev sent : Bytes
sent = stream request_wire (buy_order ∷ sell_order ∷ []) ++ (1 ∷ 1 ∷ [])

abbrev empty_server : OrderServer
empty_server = record { clients = []; sequencer_state = sequencer; next_client_id = 1 }

-- The first client sends two orders, the second one has an error.
abbrev reads : ClientId → Io (Option Bytes)
reads id = if id == 1 then ok (some sent) else err other

abbrev rounds : List (List Bool × (ClientId → Io (Option Bytes)))
rounds = (true ∷ true ∷ [], reads) ∷ (false ∷ [], reads) ∷ []

four_requests : length (polls request_wire rounds empty_server).0 ≡ 4
unfolding polls poll receive request_wire pack unpack insert remove
four_requests = refl

polls-IsNumbered_example :
    IsNumbered 1
      (polls request_wire rounds empty_server).0
      (polls request_wire rounds empty_server).1.sequencer_state
polls-IsNumbered_example =
    polls-IsNumbered request_wire rounds empty_server (rw four_requests (omega arith))

poll_lem_example :
    Serves request_wire
      (some (connection 1))
      (reads 1)
      (requests_of 1 (poll request_wire (true ∷ true ∷ []) reads empty_server).0)
      (lookup 1 (poll request_wire (true ∷ true ∷ []) reads empty_server).1.clients)
unfolding accept_connections lookup insert poll visit receive request_wire pack unpack
    sort_by_number assign
poll_lem_example =
    poll_lem request_wire (true ∷ true ∷ []) reads empty_server 1 (refl, (refl, tt)) (omega arith)

empty_server-IsServer : IsServer empty_server
empty_server-IsServer = record {
  unique = tt;
  known = λ id c found. absurd (empty_finds id c found);
}

run-IsServer_example :
    IsServer (run request_wire (polled (true ∷ true ∷ []) reads ∷ disconnected 1 ∷ []) empty_server)
    × ((run request_wire
          (polled (true ∷ true ∷ []) reads ∷ disconnected 1 ∷ [])
          empty_server).next_client_id
        ≡ 3)
run-IsServer_example =
    run-IsServer request_wire (polled (true ∷ true ∷ []) reads ∷ disconnected 1 ∷ []) empty_server
      empty_server-IsServer (omega arith)

-- A server at which two clients are connected, and three polls over which the first one's bytes come.
abbrev connected : OrderServer
connected = accept_connections (true ∷ true ∷ []) empty_server

abbrev parts : List Round
parts =
    ([], λ id. if id == 1 then ok (some (take 7 sent)) else ok none)
    ∷ (true ∷ [], λ id. if id == 1 then ok none else ok (some sent))
    ∷ ([], λ id. if id == 1 then ok (some (drop 7 sent)) else err other)
    ∷ []

polls_lem_example :
    (requests_of 1 (polls request_wire parts connected).0 ≡ buy_order ∷ sell_order ∷ [])
    × (lookup 1 (polls request_wire parts connected).1.clients
        ≡ some (record (connection 1) { recv_buffer = 1 ∷ 1 ∷ [] }))
unfolding polls poll accept_connections visit assign sort_by_number receive request_wire pack unpack
    insert remove gained_in_all lookup
polls_lem_example =
    polls_lem request_wire parts connected 1 (buy_order ∷ sell_order ∷ []) (1 ∷ 1 ∷ [])
      (accept_connections_lem (true ∷ true ∷ []) empty_server empty_server-IsServer (omega arith)).0
      (omega arith) (omega arith) refl (omega arith) (omega arith) refl
