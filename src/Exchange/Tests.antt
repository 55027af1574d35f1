-- ===== src/Exchange/Tests.antt =====
-- exchange/src/main.rs: two clients at an exchange with one ticker, and the theorem at it.
use rust_low_latency_trading.Prelude.{
  ℕ, ◌≡◌, refl, arith, sym, ap, ◌∙◌, subst, true, Option, some, List, [], ◌∷◌, ◌==◌, if◌then◌else◌,
}
use rust_low_latency_trading.Prelude.Lists.{length, take, drop}
use rust_low_latency_trading.Prelude.Int.{pos, negsuc}
use rust_low_latency_trading.Prelude.Run.{Run, done, ◌>>=◌, from_done, done-injective}
use rust_low_latency_trading.Prelude.Map.{lookup, insert, remove, ℕ_eq, ℤ_eq}
use rust_low_latency_trading.Types.{ClientId}
use rust_low_latency_trading.Pool
use rust_low_latency_trading.Pool.{allocate, fill_free_list}
use rust_low_latency_trading.Book
use rust_low_latency_trading.Book.{add_order, place, join_level}
use rust_low_latency_trading.Protocol.Request
use rust_low_latency_trading.Protocol.Request.{ClientRequest}
use rust_low_latency_trading.Protocol.Update.{MarketUpdate}
use rust_low_latency_trading.Net.{Io, ok, err, Bytes, other}
use rust_low_latency_trading.Net.Wire.{stream}
use rust_low_latency_trading.Net.Packed.{pack, unpack}
use rust_low_latency_trading.Net.Messages.{request_wire, response_wire}
use rust_low_latency_trading.Engine
use rust_low_latency_trading.Engine.{
  MatchingEngine, Reply, add_ticker, parse_side, handle_new_order, handle_cancel, process_request,
}
use rust_low_latency_trading.Engine.Invariant.{IsEngine}
use rust_low_latency_trading.Engine.Histories.{add_tickers, serve, serve-new}
use rust_low_latency_trading.Server.{
  OrderServer, sequencer, accept_connections, assign, visit, sort_by_number, poll,
}
use rust_low_latency_trading.Server.Connection.{connection, receive}
use rust_low_latency_trading.Server.Streams.{gained_in_all}
use rust_low_latency_trading.Server.Numbers.{polls}
use rust_low_latency_trading.Server.Identities.{IsServer, accept_connections_lem, empty_finds}
use rust_low_latency_trading.Server.Delivery.{Round}
use rust_low_latency_trading.Publisher
use rust_low_latency_trading.Publisher.{
  update_ticker_state, publish, after_send, publish_snapshot, send_each, all_messages,
}
use rust_low_latency_trading.Publisher.Ticker.{apply_update}
use rust_low_latency_trading.Publisher.LateJoin.{log}
use rust_low_latency_trading.Exchange.{
  Exchange, Answer, register_each, publish_each, answer_each, turn, turns,
}
use rust_low_latency_trading.Exchange.Answers.{Pairwise, Concerns, Replies, responses_to, turns_lem}

abbrev session : Run (List Reply × MatchingEngine)
session = add_tickers 4 Engine.new (7 ∷ []) >>= λ e. serve 4 e []

abbrev engine : MatchingEngine
unfolding add_tickers serve add_ticker Book.new Pool.new fill_free_list lookup insert
engine = (from_done ([], Engine.new) session).1

session_ran : (session >>= λ s. done s.1) ≡ done engine
unfolding engine
session_ran = refl

engine-IsEngine : IsEngine 4 engine
engine-IsEngine =
    let (s, made, v, _) =
      serve-new 4 (omega arith) (7 ∷ []) [] (omega arith) (omega arith) (omega arith) in
    subst (IsEngine 4)
      (done-injective (
        sym (ap (λ (t : Run (List Reply × MatchingEngine)). t >>= λ r. done r.1) made)
        ∙ session_ran))
      v

abbrev server : OrderServer
server =
    accept_connections (true ∷ true ∷ [])
      record { clients = []; sequencer_state = sequencer; next_client_id = 1 }

server-IsServer : IsServer server
server-IsServer =
    (accept_connections_lem (true ∷ true ∷ [])
      (record { clients = []; sequencer_state = sequencer; next_client_id = 1 })
      (record { unique = tt; known = λ id c found. absurd (empty_finds id c found) })
      (omega arith)).0

abbrev exchange : Exchange (List MarketUpdate)
exchange = record {
  order_server = server;
  matching_engine = engine;
  market_data_publisher =
      register_each
        (record {
          config = Publisher.default_config;
          ticker_state = [];
          sequence = 0;
          updates_since_snapshot = 0;
          total_updates_sent = 0;
          total_bytes_sent = 0;
        })
        (7 ∷ []);
  socket = [];
  stats_interval = 0;
}

abbrev buy_order : ClientRequest
buy_order = Request.create Request.new 1 7 1 (pos 1) (pos 10000) 50

-- An order of a ticker that the exchange does not have.
abbrev foreign_order : ClientRequest
foreign_order = Request.create Request.new 1 8 2 (negsuc 0) (pos 10050) 300

abbrev sent : Bytes
sent = stream request_wire (buy_order ∷ foreign_order ∷ [])

-- The first client's bytes come in two parts; the second client sends one order, then an error comes.
abbrev first_reads : ClientId → Io (Option Bytes)
first_reads id =
    if id == 1 then ok (some (take 40 sent)) else ok (some (stream request_wire (buy_order ∷ [])))

abbrev last_reads : ClientId → Io (Option Bytes)
last_reads id = if id == 1 then ok (some (drop 40 sent)) else err other

abbrev rounds : List Round
rounds = ([], first_reads) ∷ (true ∷ [], last_reads) ∷ []

abbrev send : ClientId → Bytes → Io ℕ
send id bytes = ok (length bytes)

three_requests : length (polls request_wire rounds server).0 ≡ 3
unfolding polls poll accept_connections visit assign sort_by_number receive request_wire pack unpack
    insert remove
three_requests = refl

-- The two orders for ticker 7 are published, and the server numbers three requests.
abbrev totals : List Answer × Exchange (List MarketUpdate) → List ℕ
totals t = length (t.0) ∷ length t.1.socket ∷ t.1.stats_interval ∷ []

two_published :
    (turns (log 46) 4 request_wire send response_wire.to_bytes rounds exchange >>= λ t.
    done (totals t))
    ≡ done (3 ∷ 2 ∷ 2 ∷ [])
unfolding turns turn answer_each publish_each publish after_send update_ticker_state polls poll
    accept_connections visit assign sort_by_number receive request_wire response_wire pack unpack
    insert remove lookup engine process_request handle_new_order parse_side Request.from_u8
    add_order allocate place join_level apply_update
two_published = refl

turns_lem_example :
    (t : List Answer × Exchange (List MarketUpdate)) × (turns
        (log 46)
        4
        request_wire
        send
        response_wire.to_bytes
        rounds
        exchange
      ≡ done t)
    × IsEngine 4 t.1.matching_engine
    × Pairwise Replies (polls request_wire rounds server).0 (t.0)
    × Pairwise Concerns (buy_order ∷ foreign_order ∷ []) (responses_to 1 (t.0))
    × (lookup 1 t.1.order_server.clients ≡ some (connection 1))
unfolding polls poll accept_connections visit assign sort_by_number receive request_wire pack unpack
    insert remove gained_in_all lookup engine
turns_lem_example =
    turns_lem (log 46) 4 (omega arith) request_wire send response_wire.to_bytes rounds exchange 1
      (buy_order ∷ foreign_order ∷ []) [] server-IsServer engine-IsEngine (omega arith)
      (omega arith) (omega arith) (omega arith) refl (omega arith) (omega arith) refl
