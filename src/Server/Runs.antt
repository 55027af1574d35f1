-- ===== src/Server/Runs.antt =====
-- exchange/src/order_server.rs: whole runs of the server.
use rust_low_latency_trading.Prelude.{
  ℕ, ◌+◌, ◌^◌, ◌<◌, ◌≡◌, sym, ◌∙◌, arith, Bool, Option, List, [], ◌∷◌,
}
use rust_low_latency_trading.Prelude.Lists.{length}
use rust_low_latency_trading.Prelude.Map.{lookup, ℕ_eq, remove-IsMap, lookup-remove}
use rust_low_latency_trading.Types.{ClientId}
use rust_low_latency_trading.Protocol.Request.{ClientRequest}
use rust_low_latency_trading.Net.{Io, Bytes}
use rust_low_latency_trading.Net.Wire.{Wire}
use rust_low_latency_trading.Server.{OrderServer, poll, disconnect_client, disconnect_all}
use rust_low_latency_trading.Server.Identities.{IsServer, poll-IsServer, none_or, empty_finds}

module _ {Fits : ClientRequest → Type 0} {width : ℕ} (w : Wire ClientRequest Fits width) where
  -- What may happen to a server, and how many connections it accepts by that.
  pub data Event : Type 0 where
    polled : List Bool → (ClientId → Io (Option Bytes)) → Event
    disconnected : ClientId → Event
    all_disconnected : Event

  abbrev pub happens : Event → OrderServer → OrderServer
  happens (polled waiting reads) s = (poll w waiting reads s).1
  happens (disconnected id) s = (disconnect_client s id).1
  happens all_disconnected s = disconnect_all s

  unfoldable pub run : List Event → OrderServer → OrderServer
  run [] s = s
  run (e ∷ es) s = run es (happens e s)

  abbrev pub arrivals : Event → ℕ
  arrivals (polled waiting reads) = length waiting
  arrivals (disconnected id) = 0
  arrivals all_disconnected = 0

  abbrev pub arrivals_in_all : List Event → ℕ
  arrivals_in_all [] = 0
  arrivals_in_all (e ∷ es) = arrivals e + arrivals_in_all es

  happens-IsServer :
      (e : Event) (s : OrderServer)
      → IsServer s
      → s.next_client_id + arrivals e < 2 ^ 32
      → IsServer (happens e s) × ((happens e s).next_client_id ≡ s.next_client_id + arrivals e)
  unfolding lookup
  happens-IsServer (polled waiting reads) s h room = poll-IsServer w waiting reads s h room
  happens-IsServer (disconnected id) s h room = (
    record {
      unique = remove-IsMap id s.clients h.unique;
      known = λ j c found.
          h.known j c
            (none_or _ (lookup j s.clients) c (sym (lookup-remove id j s.clients) ∙ found));
    },
    omega arith,
  )
  happens-IsServer all_disconnected s h room =
      (record { unique = tt; known = λ j c found. absurd (empty_finds j c found) }, omega arith)

  -- Whatever polls and disconnections a server goes through, no number stands for two of its clients,
  -- each connection knows the number under which it stands, every number is below the next one to be
  -- given, and the next one counts all connections that were ever accepted, so that none is given
  -- twice; as long as the next one stays below 2^32.
  pub run-IsServer :
      (es : List Event) (s : OrderServer)
      → IsServer s
      → s.next_client_id + arrivals_in_all es < 2 ^ 32
      → IsServer (run es s) × ((run es s).next_client_id ≡ s.next_client_id + arrivals_in_all es)
  unfolding run
  run-IsServer [] s h room = (h, omega arith)
  run-IsServer (e ∷ es) s h room =
      let first = happens-IsServer e s h (omega arith) in
      let others = run-IsServer es (happens e s) (first.0) (omega (arith, first.1)) in
      (others.0, omega (arith, first.1, others.1))
