-- ===== src/Publisher.antt =====
-- exchange/src/market_data.rs: the publisher of market data. A section takes the socket: its state,
-- and what sending one message (as_bytes and send_to) answers.
pub mod Ticker
pub mod LateJoin
pub mod Sides
pub mod Agreement
pub mod Counts
mod Tests
use rust_low_latency_trading.Prelude.{
  ℕ, ◌+◌, Bool, true, false, ◌&&◌, Option, none, some, List, [], ◌∷◌, ◌++◌, if◌then◌else◌, ltb, leb,
  wrap64,
}
use rust_low_latency_trading.Prelude.Int.{ℤ, pos}
use rust_low_latency_trading.Prelude.Map.{Map, size, keys, lookup, insert, remove, ℕ_eq}
use rust_low_latency_trading.Types.{TickerId, Price, Qty, as_sign, buy, sell}
use rust_low_latency_trading.Protocol.Update
use rust_low_latency_trading.Protocol.Update.{MarketUpdate, update_type}
use rust_low_latency_trading.Net.{Io, ok, err}
use rust_low_latency_trading.Publisher.Ticker.{
  TickerState, default_state, or_default, apply_update, snapshot_messages,
}

-- The addresses and the time-to-live only go to the socket.
pub record MarketDataPublisherConfig : Type 0 where
  pub enable_snapshots : Bool
  pub snapshot_interval : ℕ

abbrev pub default_config : MarketDataPublisherConfig
default_config = record { enable_snapshots = true; snapshot_interval = 1000 }

pub record MarketDataPublisher : Type 0 where
  pub config : MarketDataPublisherConfig
  pub ticker_state : Map TickerId TickerState
  pub sequence : ℕ
  pub updates_since_snapshot : ℕ
  pub total_updates_sent : ℕ
  pub total_bytes_sent : ℕ

-- `new`, with what the calls on the socket answer.
abbrev pub new :
    Io (Unit {0})
    → Io (Unit {0})
    → Io (Unit {0})
    → MarketDataPublisherConfig
    → Io MarketDataPublisher
new (err e) _ _ config = err e
new (ok _) (err e) _ config = err e
new (ok _) (ok _) (err e) config = err e
new (ok _) (ok _) (ok _) config = ok record {
  config = config;
  ticker_state = [];
  sequence = 0;
  updates_since_snapshot = 0;
  total_updates_sent = 0;
  total_bytes_sent = 0;
}

unfoldable pub update_ticker_state :
    MarketDataPublisher → TickerId → MarketUpdate → MarketDataPublisher
update_ticker_state p ticker_id update =
    let st = apply_update (or_default (lookup ticker_id p.ticker_state)) update in
    record p {
      ticker_state = insert ticker_id (record st { last_seq = p.sequence }) p.ticker_state;
    }

abbrev pub register_ticker : MarketDataPublisher → TickerId → MarketDataPublisher
register_ticker p ticker_id = record p {
  ticker_state = insert ticker_id (or_default (lookup ticker_id p.ticker_state)) p.ticker_state;
}

-- The messages of the snapshots of all tickers. The order is that of the list, which stands for any
-- order of the hash map.
unfoldable pub all_messages : ℕ → Map TickerId TickerState → List MarketUpdate
all_messages sequence [] = []
all_messages sequence ((ticker_id, st) ∷ tickers) =
    snapshot_messages ticker_id st sequence ++ all_messages sequence tickers

-- One message was sent.
abbrev pub counted : MarketDataPublisher → ℕ → MarketDataPublisher
counted p sent = record p {
  sequence = wrap64 (p.sequence + 1);
  total_updates_sent = wrap64 (p.total_updates_sent + 1);
  total_bytes_sent = wrap64 (p.total_bytes_sent + sent);
}

-- The condition under which `publish` sends a snapshot.
abbrev pub snapshot_due : MarketDataPublisher → Bool
snapshot_due p =
    p.config.enable_snapshots
    && (ltb 0 p.config.snapshot_interval && leb p.config.snapshot_interval p.updates_since_snapshot)

-- The state of the ticker before the send.
abbrev pub noted : MarketDataPublisher → MarketUpdate → MarketDataPublisher
noted p update =
    if p.config.enable_snapshots then update_ticker_state p update.ticker_id update else p

module _ {S : Type 0} (send : S → MarketUpdate → Io ℕ × S) where
  -- The messages are sent one by one, up to the first error.
  unfoldable pub send_each : S → List MarketUpdate → ℕ → Io ℕ × S
  send_each s [] total = (ok total, s)
  send_each s (m ∷ ms) total =
      let r = send s m in
      elim (r.0) [ err e ↦ (err e, r.1) | ok sent ↦ send_each (r.1) ms (wrap64 (total + sent)) ]

  unfoldable pub publish_snapshot : MarketDataPublisher → S → Io ℕ × MarketDataPublisher × S
  publish_snapshot p s =
      let r = send_each s (all_messages p.sequence p.ticker_state) 0 in
      elim (r.0) [
        | err e ↦ (err e, p, r.1)
        | ok total ↦ (ok total, record p { updates_since_snapshot = 0 }, r.1)
      ]

  unfoldable pub publish_ticker_snapshot : MarketDataPublisher → S → TickerId → Io ℕ × S
  publish_ticker_snapshot p s ticker_id = elim (lookup ticker_id p.ticker_state) [
    | none ↦ (ok 0, s)
    | some st ↦ send_each s (snapshot_messages ticker_id st p.sequence) 0
  ]

  -- What follows the counting in `publish`: the snapshot, if it is due, whose error is the result.
  unfoldable pub after_send : ℕ → MarketDataPublisher → S → Io ℕ × MarketDataPublisher × S
  unfolding publish_snapshot
  after_send sent p s =
      if snapshot_due p
      then (let r = publish_snapshot p s in
          elim (r.0) [ err e ↦ (err e, r.1, r.2) | ok _ ↦ (ok sent, r.1, r.2) ])
      else (ok sent, p, s)

  unfoldable pub publish : MarketDataPublisher → S → MarketUpdate → Io ℕ × MarketDataPublisher × S
  unfolding after_send
  publish p s update =
      let p' = noted p update in
      let r = send s update in
      elim (r.0) [
        | err e ↦ (err e, p', r.1)
        | ok sent ↦
            after_send sent
              (record (counted p' sent) {
                updates_since_snapshot = wrap64 (p'.updates_since_snapshot + 1);
              })
              (r.1)
      ]

  unfoldable pub publish_batch :
      MarketDataPublisher → S → List MarketUpdate → ℕ → Io ℕ × MarketDataPublisher × S
  publish_batch p s [] total = (ok total, p, s)
  publish_batch p s (update ∷ updates) total =
      let r = publish p s update in
      elim (r.0) [
        | err e ↦ (err e, r.1, r.2)
        | ok sent ↦ publish_batch (r.1) (r.2) updates (wrap64 (total + sent))
      ]

  unfoldable pub publish_clear : MarketDataPublisher → S → TickerId → Io ℕ × MarketDataPublisher × S
  publish_clear p s ticker_id =
      let update = Update.create Update.clear ticker_id 0 (pos 0) (pos 0) 0 p.sequence in
      let p' = record p { ticker_state = remove ticker_id p.ticker_state } in
      let r = send s update in
      elim (r.0) [ err e ↦ (err e, p', r.1) | ok sent ↦ (ok sent, counted p' sent, r.1) ]

abbrev pub ticker_count : MarketDataPublisher → ℕ
ticker_count p = size p.ticker_state

abbrev pub shown : Option TickerState → Option (Price × Qty × Price × Qty)
shown none = none
shown (some st) = some (st.bid_price, st.bid_qty, st.ask_price, st.ask_qty)

abbrev pub get_ticker_state : MarketDataPublisher → TickerId → Option (Price × Qty × Price × Qty)
get_ticker_state p ticker_id = shown (lookup ticker_id p.ticker_state)
