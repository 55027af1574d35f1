-- ===== src/Position/Fills.antt =====
-- trading/src/position.rs: any series of fills is counted exactly and without a panic.
use rust_low_latency_trading.Prelude.{
  ℕ, ◌+◌, ◌^◌, ◌<◌, ◌≡◌, ◌≢◌, refl, arith, true, false, Bool-cases, inl, inr, wrap64,
}
use rust_low_latency_trading.Prelude.Int.{ℤ, pos, negsuc, pos_part, neg_part, ◌+ℤ◌, ◌-ℤ◌, ltb_ℤ}
use rust_low_latency_trading.Prelude.I64
use rust_low_latency_trading.Prelude.I64.{is_zero, IsI64, wrap_small}
use rust_low_latency_trading.Prelude.Run.{done}
use rust_low_latency_trading.Types.{Price, Qty, Side, buy, sell}
use rust_low_latency_trading.Position.{
  Position, signed_qty, closes, on_close, average_and_realize, on_fill, update_unrealized_pnl,
}

-- The distance from zero.
unfoldable pub magnitude : ℤ → ℕ
magnitude a = pos_part a + neg_part a

-- The signed quantity, as an integer that is not cut to 64 bits.
abbrev pub exact : Side → Qty → ℤ
exact buy qty = pos qty
exact sell qty = pos 0 -ℤ pos qty

pub exact_parts :
    (a : ℤ) (side : Side) (qty : Qty)
    → magnitude a + qty < 2 ^ 63
    → IsI64 (exact side qty) × IsI64 (a +ℤ exact side qty)
unfolding magnitude ◌+ℤ◌ ◌-ℤ◌
exact_parts a buy qty h = (
  record { above = omega arith; below = omega arith },
  record { above = ground arith; below = ground arith },
)
exact_parts a sell qty h = (
  record { above = ground arith; below = ground arith },
  record { above = ground arith; below = ground arith },
)

pub signed_qty-exact :
    (a : ℤ) (side : Side) (qty : Qty)
    → magnitude a + qty < 2 ^ 63
    → signed_qty side qty ≡ exact side qty
signed_qty-exact a buy qty h = refl
signed_qty-exact a sell qty h = wrap_small (pos 0 -ℤ pos qty) (exact_parts a sell qty h).0

-- The new position, when it does not leave the range of the type.
pub fresh_exact :
    (a : ℤ) (side : Side) (qty : Qty)
    → magnitude a + qty < 2 ^ 63
    → I64.add a (signed_qty side qty) ≡ a +ℤ exact side qty
fresh_exact a side qty h =
    rw (signed_qty-exact a side qty h)
      (wrap_small (a +ℤ exact side qty) (exact_parts a side qty h).1)

-- A division by a positive number returns.
div_returns : (a b : ℤ) → ltb_ℤ (pos 0) b ≡ true → (q : ℤ) × (I64.div a b ≡ done q)
div_returns a b h = (I64.quotient a b, ground (arith, h))

abs_positive : (a : ℤ) → magnitude a < 2 ^ 63 → magnitude a ≢ 0 → ltb_ℤ (pos 0) (I64.abs a) ≡ true
unfolding magnitude I64.wrap ◌-ℤ◌
abs_positive (pos n) h z = ground arith
abs_positive (negsuc n) h z = ground arith

grows :
    (a : ℤ) (side : Side) (qty : Qty)
    → is_zero a ≡ false
    → closes a (exact side qty) ≡ false
    → magnitude (a +ℤ exact side qty) ≡ magnitude a + qty
unfolding magnitude ◌+ℤ◌ ◌-ℤ◌
grows (pos a) buy qty z c = ground arith
grows (pos a) sell qty z c = ground arith
grows (negsuc a) buy qty z c = ground arith
grows (negsuc a) sell qty z c = ground arith

-- Adding to a position does not bring it to zero.
increase_positive :
    (a : ℤ) (side : Side) (qty : Qty)
    → magnitude a + qty < 2 ^ 63
    → is_zero a ≡ false
    → closes a (exact side qty) ≡ false
    → ltb_ℤ (pos 0) (I64.abs (a +ℤ exact side qty)) ≡ true
unfolding magnitude
increase_positive a side qty h z c =
    abs_positive (a +ℤ exact side qty) (omega (arith, grows a side qty z c, h))
      (λ e. ground (arith, grows a side qty z c, e, z))

average_and_realize_returns :
    (p : Position) (side : Side) (qty : Qty) (price : Price)
    → magnitude p.position + qty < 2 ^ 63
    → (q : Position) × (average_and_realize p
          (signed_qty side qty)
          (I64.add p.position (signed_qty side qty))
          price
        ≡ done q)
      × (q.volume_traded ≡ p.volume_traded)
      × (q.open_buy_qty ≡ p.open_buy_qty)
      × (q.open_sell_qty ≡ p.open_sell_qty)
      × (q.ticker_id ≡ p.ticker_id)
average_and_realize_returns p side qty price h =
    rw (fresh_exact p.position side qty h, signed_qty-exact p.position side qty h)
      (elim (Bool-cases (is_zero p.position)) [
        | inl flat ↦ (record p { avg_open_price = price }, rw flat refl, refl, refl, refl, refl)
        | inr held ↦ elim (Bool-cases (closes p.position (exact side qty))) [
          | inl closing ↦ (
            on_close p (exact side qty) (p.position +ℤ exact side qty) price,
            rw (held, closing) refl,
            refl,
            refl,
            refl,
            refl,
          )
          | inr adding ↦
              let (average, made) =
                div_returns
                  (I64.add (I64.mul p.avg_open_price (I64.abs p.position))
                    (I64.mul price (I64.abs (exact side qty))))
                  (I64.abs (p.position +ℤ exact side qty))
                  (increase_positive p.position side qty h held adding) in
              (
                record p { avg_open_price = average },
                rw (held, adding, made) refl,
                refl,
                refl,
                refl,
                refl,
              )
        ]
      ])

-- What a fill leaves of a position, whose new net position is `fresh`.
abbrev pub Fills : Position → ℤ → Qty → Price → Position → Type 0
Fills p fresh qty price q =
    (q.position ≡ fresh)
    × (q.volume_traded ≡ wrap64 (p.volume_traded + qty))
    × (q.open_buy_qty ≡ p.open_buy_qty)
    × (q.open_sell_qty ≡ p.open_sell_qty)
    × (q.ticker_id ≡ p.ticker_id)

pub on_fill_lem :
    (p : Position) (side : Side) (qty : Qty) (price : Price)
    → magnitude p.position + qty < 2 ^ 63
    → (q : Position) × (on_fill p side qty price ≡ done q)
      × Fills p (p.position +ℤ exact side qty) qty price q
unfolding on_fill
on_fill_lem p side qty price h =
    let (q, made, volume, buys, sells, ticker) =
      average_and_realize_returns
        (record p { volume_traded = wrap64 (p.volume_traded + qty); last_price = price }) side qty
        price h in
    (
      update_unrealized_pnl (record q { position = I64.add p.position (signed_qty side qty) }),
      rw made refl,
      (fresh_exact p.position side qty h, volume, buys, sells, ticker),
    )
