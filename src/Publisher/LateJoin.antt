-- ===== src/Publisher/LateJoin.antt =====
-- exchange/src/market_data.rs with trading/src/market_data.rs: what a client that joins late makes of
-- a snapshot.
use rust_low_latency_trading.Prelude.{
  ℕ, zero, suc, Bool, false, ltb, ◌&&◌, ◌+◌, ◌≡◌, refl, ap, ◌∙◌, arith, inl, inr, true, ◌||◌,
  Option, none, some, List, [], ◌∷◌, ◌++◌, if◌then◌else◌, Bool-cases, subst, ==_iff, wrap64,
}
use rust_low_latency_trading.Prelude.Lists.{append_assoc, append-nil}
use rust_low_latency_trading.Prelude.Map.{Map, lookup, ◌==◌, ℕ_eq, IsMap, lookup-insert}
use rust_low_latency_trading.Prelude.Int.{pos, negsuc, ltb_ℤ}
use rust_low_latency_trading.Types.{TickerId, Price, Qty, invalid_price}
use rust_low_latency_trading.Protocol.Update.{MarketUpdate, update_type}
use rust_low_latency_trading.Net.{Io, ok}
use rust_low_latency_trading.Bbo
use rust_low_latency_trading.Bbo.{MarketDataReceiver, process_update}
use rust_low_latency_trading.Publisher.Ticker.{
  TickerState, bid_shows, ask_shows, bid_message, ask_message, snapshot_messages,
}
use rust_low_latency_trading.Publisher.{
  MarketDataPublisher, all_messages, send_each, publish_snapshot,
}

-- A receiver takes messages in turn.
unfoldable pub hear_all : MarketDataReceiver → List MarketUpdate → MarketDataReceiver
hear_all r [] = r
hear_all r (m ∷ ms) = hear_all (process_update r m).1 ms

hear_all-append :
    (r : MarketDataReceiver) (xs ys : List MarketUpdate)
    → hear_all r (xs ++ ys) ≡ hear_all (hear_all r xs) ys
unfolding hear_all
hear_all-append r [] ys = refl
hear_all-append r (x ∷ xs) ys = hear_all-append (process_update r x).1 xs ys

-- A price and a quantity above 0.
abbrev pub is_order : Price → Qty → Bool
is_order (pos (suc price)) (suc qty) = true
is_order (pos (suc price)) zero = false
is_order (pos zero) qty = false
is_order (negsuc price) qty = false

-- The state of the publisher as a receiver should know it: only a side with a price and a quantity,
-- and no entry without a side.
abbrev pub seen : Option TickerState → Option Bbo.Bbo
seen none = none
seen (some st) =
    let bid = is_order st.bid_price st.bid_qty in
    let ask = is_order st.ask_price st.ask_qty in
    if bid || ask
    then some record {
      bid_price = if bid then st.bid_price else invalid_price;
      bid_qty = if bid then st.bid_qty else 0;
      ask_price = if ask then st.ask_price else invalid_price;
      ask_qty = if ask then st.ask_qty else 0;
    }
    else none

-- The same by the tests of the code.
abbrev sides : TickerState → Bbo.Bbo
sides st = record {
  bid_price = if bid_shows st then st.bid_price else invalid_price;
  bid_qty = if bid_shows st then st.bid_qty else 0;
  ask_price = if ask_shows st then st.ask_price else invalid_price;
  ask_qty = if ask_shows st then st.ask_qty else 0;
}

abbrev told : Option TickerState → Option Bbo.Bbo
told none = none
told (some st) = if bid_shows st || ask_shows st then some (sides st) else none

hear_bid :
    (r : MarketDataReceiver) (t j : TickerId) (st : TickerState) (sequence : ℕ)
    → lookup j (process_update r (bid_message t st sequence)).1.bbo ≡ (
        if t == j
        then some (Bbo.on_add (Bbo.or_new (lookup t r.bbo)) (pos 1) st.bid_price st.bid_qty)
        else lookup j r.bbo)
unfolding process_update update_type
hear_bid r t j st sequence =
    lookup-insert t j (Bbo.on_add (Bbo.or_new (lookup t r.bbo)) (pos 1) st.bid_price st.bid_qty)
      r.bbo

hear_ask :
    (r : MarketDataReceiver) (t j : TickerId) (st : TickerState) (sequence : ℕ)
    → lookup j (process_update r (ask_message t st sequence)).1.bbo ≡ (
        if t == j
        then some (Bbo.on_add (Bbo.or_new (lookup t r.bbo)) (negsuc 0) st.ask_price st.ask_qty)
        else lookup j r.bbo)
unfolding process_update update_type
hear_ask r t j st sequence =
    lookup-insert t j (Bbo.on_add (Bbo.or_new (lookup t r.bbo)) (negsuc 0) st.ask_price st.ask_qty)
      r.bbo

-- A side without a price takes any.
first_bid :
    (b : Bbo.Bbo) (price : Price) (qty : Qty)
    → b.bid_price ≡ invalid_price
    → Bbo.on_add b (pos 1) price qty ≡ record b { bid_price = price; bid_qty = qty }
first_bid b price qty e = rw e (elim (Bool-cases (ltb_ℤ invalid_price price)) [
  | inl more ↦ rw more refl
  | inr less ↦ rw less refl
])

first_ask :
    (b : Bbo.Bbo) (price : Price) (qty : Qty)
    → b.ask_price ≡ invalid_price
    → Bbo.on_add b (negsuc 0) price qty ≡ record b { ask_price = price; ask_qty = qty }
first_ask b price qty e = rw e (elim (Bool-cases (ltb_ℤ price invalid_price)) [
  | inl more ↦ rw more refl
  | inr less ↦ rw less refl
])

-- The messages of one ticker, of which the receiver knows nothing yet.
hear_ticker :
    (r : MarketDataReceiver) (t j : TickerId) (st : TickerState) (sequence : ℕ)
    → lookup t r.bbo ≡ none
    → lookup j (hear_all r (snapshot_messages t st sequence)).bbo
      ≡ (if t == j then told (some st) else lookup j r.bbo)
unfolding hear_all snapshot_messages
hear_ticker r t j st sequence unknown = elim (Bool-cases (bid_shows st)) [
  | inl bid ↦
      let r' = (process_update r (bid_message t st sequence)).1 in
      let fresh = first_bid Bbo.new st.bid_price st.bid_qty refl in
      let known : lookup t r'.bbo
          ≡ some (record Bbo.new { bid_price = st.bid_price; bid_qty = st.bid_qty }) =
        hear_bid r t t st sequence ∙ rw ((==_iff t t).1 refl, unknown, fresh) refl in
      elim (Bool-cases (ask_shows st)) [
        | inl ask ↦ elim (Bool-cases (t == j)) [
          | inl same ↦
              rw
                (
                  snapshot_messages,
                  bid,
                  ask,
                  hear_all,
                  hear_ask r' t j st sequence,
                  same,
                  known,
                  first_ask (record Bbo.new { bid_price = st.bid_price; bid_qty = st.bid_qty })
                      st.ask_price st.ask_qty refl,
                )
                refl
          | inr different ↦
              rw
                (
                  snapshot_messages,
                  bid,
                  ask,
                  hear_all,
                  hear_ask r' t j st sequence,
                  different,
                  hear_bid r t j st sequence,
                  different,
                )
                refl
        ]
        | inr no_ask ↦ rw (bid, no_ask, hear_bid r t j st sequence, unknown, fresh) refl
      ]
  | inr no_bid ↦ elim (Bool-cases (ask_shows st)) [
    | inl ask ↦
        rw
          (
            no_bid,
            ask,
            hear_ask r t j st sequence,
            unknown,
            first_ask Bbo.new st.ask_price st.ask_qty refl,
          )
          refl
    | inr no_ask ↦ rw (no_bid, no_ask) (ground (arith, unknown, ==_iff t j))
  ]
]

-- What a receiver knows of a ticker after the snapshots of some.
abbrev over : Option TickerState → Option Bbo.Bbo → Option Bbo.Bbo
over none b = b
over (some st) b = told (some st)

-- The receiver knows nothing of the tickers.
abbrev IsUnknown : Map TickerId TickerState → MarketDataReceiver → Type 0
IsUnknown tickers r =
    (t : TickerId) (st : TickerState) → lookup t tickers ≡ some st → lookup t r.bbo ≡ none

is_order-shown :
    (price : Price) (qty : Qty) → (ltb_ℤ (pos 0) price && ltb 0 qty) ≡ is_order price qty
is_order-shown (pos (suc price)) (suc qty) = ground arith
is_order-shown (pos (suc price)) zero = ground arith
is_order-shown (pos zero) qty = ground arith
is_order-shown (negsuc price) qty = ground arith

over_nothing : (o : Option TickerState) → over o none ≡ seen o
over_nothing none = refl
over_nothing (some st) =
    rw (is_order-shown st.bid_price st.bid_qty, is_order-shown st.ask_price st.ask_qty) refl

hear_tickers :
    (tickers : Map TickerId TickerState) (sequence : ℕ) (r : MarketDataReceiver) (j : TickerId)
    → IsMap tickers
    → IsUnknown tickers r
    → lookup j (hear_all r (all_messages sequence tickers)).bbo
      ≡ over (lookup j tickers) (lookup j r.bbo)
unfolding all_messages hear_all lookup
hear_tickers [] sequence r j h unknown = refl
hear_tickers ((t, st) ∷ tickers) sequence r j (fresh, h) unknown =
    let r' = hear_all r (snapshot_messages t st sequence) in
    let mine : lookup t r.bbo ≡ none = unknown t st (rw ((==_iff t t).1 refl) refl) in
    let heard = λ (i : TickerId). hear_ticker r t i st sequence mine in
    let absent : (i : TickerId) → (t == i) ≡ true → lookup i tickers ≡ none =
      λ i same. subst (λ k. lookup k tickers ≡ none) ((==_iff t i).0 same) fresh in
    ap (λ (x : MarketDataReceiver). lookup j x.bbo)
      (hear_all-append r (snapshot_messages t st sequence) (all_messages sequence tickers))
    ∙ hear_tickers tickers sequence r' j h (λ i st' found. heard i ∙ elim (Bool-cases (t == i)) [
      | inl same ↦ cc (absent i same)
      | inr different ↦ rw different (unknown i st' (rw different found))
    ])
    ∙ elim (Bool-cases (t == j)) [
      | inl same ↦ rw (heard j, same, absent j same) refl
      | inr different ↦ rw (heard j, different) refl
    ]

-- A socket that takes `n` bytes of each message and keeps what was sent.
abbrev pub log : ℕ → List MarketUpdate → MarketUpdate → Io ℕ × List MarketUpdate
log n sent message = (ok n, sent ++ (message ∷ []))

send_each-log :
    (n : ℕ) (sent ms : List MarketUpdate) (total : ℕ)
    → (bytes : ℕ) × (send_each (log n) sent ms total ≡ (ok bytes, sent ++ ms))
unfolding send_each
send_each-log n sent [] total = (total, rw (append-nil sent) refl)
send_each-log n sent (m ∷ ms) total =
    let others = send_each-log n (sent ++ (m ∷ [])) ms (wrap64 (total + n)) in
    (others.0, others.1 ∙ rw (append_assoc sent (m ∷ []) ms) refl)

-- A client that knows nothing and hears a snapshot that could be sent knows of each ticker exactly
-- what the publisher keeps: each side that has a price and a quantity above 0, with both, and no other.
pub snapshot-late_joiner :
    (p : MarketDataPublisher) (n : ℕ) (t : TickerId)
    → IsMap p.ticker_state
    → let heard = (publish_snapshot (log n) p []).2 in
      lookup t (hear_all (record { bbo = [] }) heard).bbo ≡ seen (lookup t p.ticker_state)
unfolding publish_snapshot lookup
snapshot-late_joiner p n t h =
    let messages = all_messages p.sequence p.ticker_state in
    let sent = send_each-log n [] messages 0 in
    rw (publish_snapshot, sent.1, sent.1)
      (hear_tickers p.ticker_state p.sequence (record { bbo = [] }) t h (λ i st found. refl)
        ∙ over_nothing (lookup t p.ticker_state))
