-- ===== src/Engine/Seen.antt =====
-- exchange/src/matching_engine.rs: what is seen of an engine whose book has been put back.
use rust_low_latency_trading.Prelude.{
  ℕ, ◌≡◌, arith, Option, none, some, ap, ◌∙◌, sym, if◌then◌else◌, ◌==◌, Bool-cases, Option-cases,
  inl, inr, ==_iff, ◌&&◌,
}
use rust_low_latency_trading.Prelude.Map.{lookup, ℕ_eq}
use rust_low_latency_trading.Types.{OrderId, TickerId}
use rust_low_latency_trading.Book.{OrderBook}
use rust_low_latency_trading.Book.Live.{Resting, live}
use rust_low_latency_trading.Engine.{MatchingEngine, put_book}
use rust_low_latency_trading.Engine.Invariant.{IsEngine, live_of, live_of_book, live_of-put_book}

module _ (n : ℕ) (e : MatchingEngine) (v : IsEngine n e) where
  pub live_of_found :
      (t : TickerId) (b : OrderBook) (k : OrderId)
      → lookup t e.order_books ≡ some b
      → live_of e t k ≡ live b k
  live_of_found t b k found = ap (λ (o : Option OrderBook). live_of_book o k) found

  -- The next identifier has never been used.
  pub next_unused :
      (t : TickerId) (b : OrderBook)
      → lookup t e.order_books ≡ some b
      → live b e.next_order_id ≡ none
  next_unused t b found = elim (Option-cases (live b e.next_order_id)) [
    | inl free ↦ free
    | inr (x, taken) ↦ absurd (omega (arith, (v.fits t b found).used e.next_order_id x taken))
  ]

  -- A book whose live orders are as they were can be put back unseen.
  pub seen_same :
      (next_id : OrderId) (t : TickerId) (b b' : OrderBook)
      → lookup t e.order_books ≡ some b
      → ((k : OrderId) → live b' k ≡ live b k)
      → (u : TickerId) (k : OrderId)
      → live_of (put_book (record e { next_order_id = next_id }) t b') u k ≡ live_of e u k
  seen_same next_id t b b' found same u k =
      live_of-put_book e next_id t u b' k ∙ elim (Bool-cases (t == u)) [
        | inl hit ↦ rw hit (
            same k ∙ sym (live_of_found t b k found) ∙ ap (λ w. live_of e w k) ((==_iff t u).0 hit))
        | inr miss ↦ rw miss
      ]

  -- One that has changed at one identifier shows that change alone.
  pub seen_change :
      (next_id : OrderId) (t : TickerId) (b b' : OrderBook) (j : OrderId) (x : Option Resting)
      → lookup t e.order_books ≡ some b
      → ((k : OrderId) → live b' k ≡ (if j == k then x else live b k))
      → (u : TickerId) (k : OrderId)
      → live_of (put_book (record e { next_order_id = next_id }) t b') u k
        ≡ (if (t == u) && (j == k) then x else live_of e u k)
  seen_change next_id t b b' j x found change u k =
      live_of-put_book e next_id t u b' k ∙ elim (Bool-cases (t == u)) [
        | inl hit ↦ rw hit (
            change k
            ∙ ap (λ (w : Option Resting). if j == k then x else w)
                (sym (live_of_found t b k found) ∙ ap (λ w. live_of e w k) ((==_iff t u).0 hit)))
        | inr miss ↦ rw miss
      ]
