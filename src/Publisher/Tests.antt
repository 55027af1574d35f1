-- ===== src/Publisher/Tests.antt =====
-- exchange/src/market_data.rs: runs of the publisher, and instances of its theorems.
use rust_low_latency_trading.Prelude.{◌≡◌, refl, inr, arith, true, some, [], ◌∷◌}
use rust_low_latency_trading.Prelude.Int.{pos, negsuc}
use rust_low_latency_trading.Prelude.Map.{lookup, insert, ℕ_eq}
use rust_low_latency_trading.Types.{buy}
use rust_low_latency_trading.Protocol.Update
use rust_low_latency_trading.Protocol.Update.{MarketUpdate}
use rust_low_latency_trading.Bbo
use rust_low_latency_trading.Publisher.{
  MarketDataPublisher, update_ticker_state, publish, publish_batch, publish_snapshot, send_each,
  all_messages, after_send,
}
use rust_low_latency_trading.Publisher.Ticker
use rust_low_latency_trading.Publisher.Ticker.{
  TickerState, apply_update, snapshot_messages, bid_shows,
}
use rust_low_latency_trading.Publisher.LateJoin.{log, hear_all, seen, snapshot-late_joiner}
use rust_low_latency_trading.Publisher.Agreement.{Agrees, on_kind-Agrees}

abbrev publisher : MarketDataPublisher
publisher = record {
  config = record { enable_snapshots = true; snapshot_interval = 2 };
  ticker_state = [];
  sequence = 0;
  updates_since_snapshot = 0;
  total_updates_sent = 0;
  total_bytes_sent = 0;
}

abbrev bid : MarketUpdate
bid = Update.create Update.add 7 1 (pos 1) (pos 100) 10 1

abbrev ask : MarketUpdate
ask = Update.create Update.add 7 2 (negsuc 0) (pos 105) 20 2

abbrev two_sided : TickerState
two_sided = record {
  bid_price = pos 100;
  bid_qty = 10;
  ask_price = pos 105;
  ask_qty = 20;
  last_seq = 1;
}

-- Two updates, and the snapshot that the second one makes due.
snapshot_after_two :
    (publish_batch (log 34) publisher [] (bid ∷ ask ∷ []) 0).2
    ≡ bid ∷ ask ∷ snapshot_messages 7 two_sided 2
unfolding publish_batch publish after_send publish_snapshot send_each all_messages
    update_ticker_state apply_update snapshot_messages insert lookup Update.update_type
snapshot_after_two = refl

abbrev published : MarketDataPublisher
published = record publisher { ticker_state = (7, two_sided) ∷ [] }

snapshot-late_joiner_example :
    lookup 7 (hear_all (record { bbo = [] }) (publish_snapshot (log 34) published []).2).bbo
    ≡ seen (lookup 7 published.ticker_state)
unfolding lookup
snapshot-late_joiner_example = snapshot-late_joiner published 34 7 (refl, tt)

abbrev same_bbo : Bbo.Bbo
same_bbo = record { bid_price = pos 100; bid_qty = 10; ask_price = pos 105; ask_qty = 20 }

on_kind-Agrees_example :
    Agrees
      (Ticker.on_kind (some Update.cancel) two_sided (pos 1) (pos 100) 4)
      (Bbo.on_kind Update.cancel same_bbo (pos 1) (pos 100) 4)
on_kind-Agrees_example =
    on_kind-Agrees Update.cancel two_sided same_bbo buy 100 4 (omega arith) (λ e. omega arith)
      (record {
        bid = inr (100, omega arith, refl, refl, refl);
        ask = inr (105, omega arith, refl, refl, refl);
      })
