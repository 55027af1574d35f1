-- ===== src/Publisher/Counts.antt =====
-- exchange/src/market_data.rs: the counters of the publisher and when it sends a snapshot.
use rust_low_latency_trading.Prelude.{
  ℕ, ◌+◌, ◌≡◌, ◌⊎◌, refl, ap, arith, inl, inr, true, false, Bool-cases, wrap64,
}
use rust_low_latency_trading.Protocol.Update.{MarketUpdate}
use rust_low_latency_trading.Net.{Io, ok, err, ErrorKind, Io-cases}
use rust_low_latency_trading.Publisher.{
  MarketDataPublisher, all_messages, update_ticker_state, noted, counted, snapshot_due, send_each,
  publish_snapshot, after_send, publish,
}

not_due_at_zero :
    (p : MarketDataPublisher) → snapshot_due (record p { updates_since_snapshot = 0 }) ≡ false
not_due_at_zero p = ground arith

noted_sequence :
    (p : MarketDataPublisher) (update : MarketUpdate)
    → ((noted p update).sequence ≡ p.sequence)
      × ((noted p update).updates_since_snapshot ≡ p.updates_since_snapshot)
unfolding update_ticker_state
noted_sequence p update = elim (Bool-cases p.config.enable_snapshots) [
  | inl enabled ↦ rw enabled (refl, refl)
  | inr disabled ↦ rw disabled (refl, refl)
]

module _ {S : Type 0} (send : S → MarketUpdate → Io ℕ × S) where
  -- A snapshot that was sent sets the count back; one that was not changes nothing.
  publish_snapshot_lem :
      (p : MarketDataPublisher) (s : S)
      → let r = publish_snapshot send p s in
        ((n : ℕ) × (r.0 ≡ ok n) × (r.1 ≡ record p { updates_since_snapshot = 0 }))
        ⊎ ((e : ErrorKind) × (r.0 ≡ err e) × (r.1 ≡ p))
  unfolding publish_snapshot
  publish_snapshot_lem p s =
      elim (Io-cases (send_each send s (all_messages p.sequence p.ticker_state) 0).0) [
        | inl (n, e) ↦ inl (n, rw (publish_snapshot, e) refl, rw (publish_snapshot, e) refl)
        | inr (k, e) ↦ inr (k, rw (publish_snapshot, e) refl, rw (publish_snapshot, e) refl)
      ]

  -- What `publish` answers, and the counters then.
  abbrev pub Unsent : MarketDataPublisher → Io ℕ → Io ℕ × MarketDataPublisher × S → Type 0
  Unsent p sent r =
      (e : ErrorKind) × (sent ≡ err e)
      × (r.0 ≡ err e)
      × (r.1.sequence ≡ p.sequence)
      × (r.1.updates_since_snapshot ≡ p.updates_since_snapshot)

  abbrev pub Sent : MarketDataPublisher → Io ℕ → Io ℕ × MarketDataPublisher × S → Type 0
  Sent p sent r =
      (n : ℕ) × (sent ≡ ok n)
      × (r.0 ≡ ok n)
      × (r.1.sequence ≡ wrap64 (p.sequence + 1))
      × (snapshot_due r.1 ≡ false)

  abbrev pub SnapshotFailed : MarketDataPublisher → Io ℕ → Io ℕ × MarketDataPublisher × S → Type 0
  SnapshotFailed p sent r =
      (n : ℕ) × (e : ErrorKind) × (sent ≡ ok n)
      × (r.0 ≡ err e)
      × (r.1.sequence ≡ wrap64 (p.sequence + 1))
      × (snapshot_due r.1 ≡ true)

  after_send_lem :
      (p q : MarketDataPublisher) (n : ℕ) (s : S)
      → q.sequence ≡ wrap64 (p.sequence + 1)
      → Sent p (ok n) (after_send send n q s) ⊎ SnapshotFailed p (ok n) (after_send send n q s)
  unfolding after_send
  after_send_lem p q n s next = elim (Bool-cases (snapshot_due q)) [
    | inr not_due ↦ inl (rw (after_send, not_due) (n, refl, refl, next, not_due))
    | inl due ↦ elim (publish_snapshot_lem q s) [
      | inl (total, e, same) ↦
          rw (after_send, due, e, same) (inl (n, refl, refl, next, not_due_at_zero q))
      | inr (k, e, same) ↦ rw (after_send, due, e, same) (inr (n, k, refl, refl, next, due))
    ]
  ]

  -- What `publish` answers on every branch. If the update cannot be sent, its error is the answer and
  -- the counters stay. If it is sent, the sequence number counts it; then either the answer is the
  -- number of its bytes, and no snapshot is due, since one that was due has been sent; or a snapshot
  -- was due and failed: its error is the answer although the update went out, and the snapshot stays
  -- due.
  pub publish_lem :
      (p : MarketDataPublisher) (s : S) (update : MarketUpdate)
      → let sent = (send s update).0 in
        let r = publish send p s update in Unsent p sent r ⊎ Sent p sent r ⊎ SnapshotFailed p sent r
  unfolding publish
  publish_lem p s update =
      let before = noted_sequence p update in
      elim (Io-cases (send s update).0) [
        | inr (k, e) ↦ rw (publish, e) (inl (k, refl, refl, before.0, before.1))
        | inl (n, e) ↦
            let q = record (counted (noted p update) n) {
              updates_since_snapshot = wrap64 ((noted p update).updates_since_snapshot + 1);
            } in
            rw (publish, e)
              (inr (
                after_send_lem p q n (send s update).1 (ap (λ (k : ℕ). wrap64 (k + 1)) (before.0))))
      ]
