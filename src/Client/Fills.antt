-- ===== src/Client/Fills.antt =====
-- trading/src/main.rs: what responses make of the position.
use rust_low_latency_trading.Prelude.{ℕ, ◌+◌, ◌^◌, ◌<◌, ◌≡◌, refl, ap, ◌∙◌, some, wrap32}
use rust_low_latency_trading.Prelude.Int.{◌+ℤ◌}
use rust_low_latency_trading.Prelude.Run.{done, ◌>>=◌}
use rust_low_latency_trading.Prelude.Map.{lookup-insert_self, ℕ_eq}
use rust_low_latency_trading.Types.{Side, buy, sell}
use rust_low_latency_trading.Protocol.Response.{ClientResponse, ClientResponseType}
use rust_low_latency_trading.Position.{Position, add_open_order}
use rust_low_latency_trading.Position.Fills.{magnitude, exact, on_fill_lem}
use rust_low_latency_trading.Position.Keeper
use rust_low_latency_trading.Position.Keeper.{
  get_position, or_new, recalculate_total_pnl, put_position,
}
use rust_low_latency_trading.Risk.Limits.{open_qty}
use rust_low_latency_trading.Float.{Float}
use rust_low_latency_trading.Client.{
  Client, side_of, after_fill, change_position, on_kind, on_filled,
}

opened :
    (side : Side) (p : Position) (qty : ℕ)
    → (open_qty side (add_open_order p side qty) ≡ wrap32 (open_qty side p + qty))
      × ((add_open_order p side qty).position ≡ p.position)
opened buy p qty = (refl, refl)
opened sell p qty = (refl, refl)

still_open :
    (side : Side) (p q : Position)
    → q.open_buy_qty ≡ p.open_buy_qty
    → q.open_sell_qty ≡ p.open_sell_qty
    → open_qty side q ≡ open_qty side p
still_open buy p q b s = b
still_open sell p q b s = s

module _ (f : Float) where
  abbrev pub position_of : Client f → Position
  position_of c = or_new c.ticker (get_position c.position_keeper c.ticker)

  filled_lem :
      (c : Client f) (r : ClientResponse) (p : Position)
      → position_of c ≡ p
      → magnitude p.position + r.exec_qty < 2 ^ 63
      → (c' : Client f) × (on_kind f (some ClientResponseType.filled) c r ≡ done c')
        × (q : Position) × (get_position c'.position_keeper c.ticker ≡ some q)
        × (q.position ≡ p.position +ℤ exact (side_of r.side) r.exec_qty)
        × ((side : Side) → open_qty side q ≡ open_qty side p)
  unfolding on_kind on_filled Keeper.on_fill
  filled_lem c r p e range =
      let (q, made, fills) = on_fill_lem p (side_of r.side) r.exec_qty r.price range in
      let keeper = recalculate_total_pnl (put_position c.position_keeper c.ticker q) in
      (
        after_fill f c keeper,
        rw (on_filled, Keeper.on_fill, e, made) refl,
        q,
        lookup-insert_self c.ticker q c.position_keeper.positions,
        fills.0,
        λ side. still_open side p q (fills.2) (fills.3),
      )

  -- A fill moves the position by its quantity, but leaves the pending quantity, which the acceptance of
  -- the order raised, as it was: once an order is accepted and then filled, the position has its
  -- quantity and the pending quantity of its side still has it, too, so that it counts twice towards
  -- the limit. The position is to stay in range.
  pub fill_stays_pending :
      (c : Client f) (a r : ClientResponse)
      → magnitude (position_of c).position + r.exec_qty < 2 ^ 63
      → (c' : Client f) × (q : Position) × ((on_kind f (some ClientResponseType.accepted) c a
            >>= λ d. on_kind f (some ClientResponseType.filled) d r)
          ≡ done c')
        × (get_position c'.position_keeper c.ticker ≡ some q)
        × (q.position ≡ (position_of c).position +ℤ exact (side_of r.side) r.exec_qty)
        × (open_qty (side_of a.side) q
            ≡ wrap32 (open_qty (side_of a.side) (position_of c) + a.leaves_qty))
  unfolding on_kind
  fill_stays_pending c a r range =
      let p = position_of c in
      let p' = add_open_order p (side_of a.side) a.leaves_qty in
      let d = change_position f c (λ x. add_open_order x (side_of a.side) a.leaves_qty) in
      let (more, same) = opened (side_of a.side) p a.leaves_qty in
      let now : position_of d ≡ p' =
        ap (or_new c.ticker) (lookup-insert_self c.ticker p' c.position_keeper.positions) in
      let (c', made, q, found, moved, pending) = filled_lem d r p' now (rw same range) in
      (c', q, made, found, rw same at moved, pending (side_of a.side) ∙ more)
