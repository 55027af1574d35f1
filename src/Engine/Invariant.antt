-- ===== src/Engine/Invariant.antt =====
-- exchange/src/matching_engine.rs: what every engine that the code builds satisfies, and what is
-- seen of it from outside.
use rust_low_latency_trading.Prelude.{
  ℕ, ◌<◌, ◌≤◌, ◌≡◌, arith, Option, none, some, ap, ◌∙◌, subst, if◌then◌else◌, ◌==◌, Bool-cases, inl,
  inr, ==_iff,
}
use rust_low_latency_trading.Prelude.Map.{lookup, lookup-insert, ℕ_eq}
use rust_low_latency_trading.Types.{OrderId, TickerId}
use rust_low_latency_trading.Book.{OrderBook}
use rust_low_latency_trading.Book.Invariant.{IsBook}
use rust_low_latency_trading.Book.Live.{Resting, live}
use rust_low_latency_trading.Engine.{MatchingEngine, put_book}

-- A book fits its ticker, keeps its invariant, and has used only identifiers below the next one.
pub record Fits (n : ℕ) (next_id : OrderId) (t : TickerId) (b : OrderBook) : Type 0 where
  pub book : IsBook n b
  pub ticker : b.ticker_id ≡ t
  pub used : (k : OrderId) (x : Resting) → live b k ≡ some x → k < next_id

pub record IsEngine (n : ℕ) (e : MatchingEngine) : Type 0 where
  pub fits :
      (t : TickerId) (b : OrderBook) → lookup t e.order_books ≡ some b → Fits n e.next_order_id t b

-- The live orders of the engine, by ticker and identifier.
abbrev pub live_of_book : Option OrderBook → OrderId → Option Resting
live_of_book none k = none
live_of_book (some b) k = live b k

abbrev pub live_of : MatchingEngine → TickerId → OrderId → Option Resting
live_of e t = live_of_book (lookup t e.order_books)

-- Putting a book that fits back keeps the invariant, with any later identifier to come.
pub put_book-IsEngine :
    (n : ℕ) (e : MatchingEngine) (next_id : OrderId) (t : TickerId) (b : OrderBook)
    → IsEngine n e
    → e.next_order_id ≤ next_id
    → Fits n next_id t b
    → IsEngine n (put_book (record e { next_order_id = next_id }) t b)
put_book-IsEngine n e next_id t b v h f = record {
  fits = λ u c found. elim (Bool-cases (t == u)) [
    | inl hit ↦
        let at : b ≡ c = ground (arith, lookup-insert t u b e.order_books, found, hit) in
        subst (Fits n next_id u) at (subst (λ w. Fits n next_id w b) ((==_iff t u).0 hit) f)
    | inr miss ↦
        let old : lookup u e.order_books ≡ some c =
          ground (arith, lookup-insert t u b e.order_books, found, miss) in
        let g = v.fits u c old in
        record { book = g.book; ticker = g.ticker; used = λ k x l. omega (arith, g.used k x l, h) }
  ];
}

-- What is seen after a book has been put back.
pub live_of-put_book :
    (e : MatchingEngine) (next_id : OrderId) (t u : TickerId) (b : OrderBook) (k : OrderId)
    → live_of (put_book (record e { next_order_id = next_id }) t b) u k
      ≡ (if t == u then live b k else live_of e u k)
live_of-put_book e next_id t u b k =
    ap (λ (r : Option OrderBook). live_of_book r k) (lookup-insert t u b e.order_books)
    ∙ elim (Bool-cases (t == u)) [ inl hit ↦ rw hit | inr miss ↦ rw miss ]
