-- ===== src/Engine/Histories.antt =====
-- exchange/src/matching_engine.rs: every request by its kind, and whole sessions of the engine.
use rust_low_latency_trading.Prelude.{
  ℕ, suc, ◌+◌, ◌^◌, ◌<◌, ◌≤◌, ◌≡◌, refl, arith, Option, none, some, List, [], ◌∷◌, ap, ◌∙◌, inl,
  inr, ◌⊎◌, Option-cases,
}
use rust_low_latency_trading.Prelude.Run.{Run, done, ◌>>=◌}
use rust_low_latency_trading.Prelude.Map.{lookup, ℕ_eq}
use rust_low_latency_trading.Types.{TickerId}
use rust_low_latency_trading.Book.Runs.{new-IsBook}
use rust_low_latency_trading.Protocol.Request
use rust_low_latency_trading.Protocol.Request.{ClientRequest, ClientRequestType}
use rust_low_latency_trading.Engine.{
  MatchingEngine, Reply, new, add_ticker, put_book, process_request, handle_invalid_request,
}
use rust_low_latency_trading.Engine.Invariant.{IsEngine, put_book-IsEngine}
use rust_low_latency_trading.Engine.Requests.{Accepts, Refuses, handle_new_order_lem}
use rust_low_latency_trading.Engine.Cancels.{Withdraws, Misses, handle_cancel_lem}

-- What a request may lead to, by its kind: an unknown kind is answered and changes nothing.
abbrev pub Handles :
    ℕ → MatchingEngine → ClientRequest → Option ClientRequestType → Reply × MatchingEngine → Type 0
Handles n e r none s = s ≡ (handle_invalid_request r, e)
Handles n e r (some ClientRequestType.new) s = Accepts e r s ⊎ Refuses n e r s
Handles n e r (some ClientRequestType.cancel) s = Withdraws e r s ⊎ Misses e r s

-- A session: the engine is set up with its tickers, then serves requests in order.
module _ (n : ℕ) where
  unfoldable pub add_tickers : MatchingEngine → List TickerId → Run MatchingEngine
  unfolding add_ticker
  add_tickers e [] = done e
  add_tickers e (t ∷ ts) = add_ticker n e t >>= λ e'. add_tickers e' ts

  unfoldable pub serve : MatchingEngine → List ClientRequest → Run (List Reply × MatchingEngine)
  unfolding process_request
  serve e [] = done ([], e)
  serve e (r ∷ rs) = process_request n e r >>= λ s. serve s.1 rs >>= λ t. done (s.0 ∷ t.0, t.1)

abbrev pub AllInRange : List ClientRequest → Type 0
AllInRange [] = Unit
AllInRange (r ∷ rs) = (r.qty < 2 ^ 32) × AllInRange rs

abbrev pub length : List ClientRequest → ℕ
length [] = 0
length (r ∷ rs) = suc (length rs)

abbrev pub replies : List Reply → ℕ
replies [] = 0
replies (r ∷ rs) = suc (replies rs)

module _ (n : ℕ) (small : n < 2 ^ 64) where
  -- On an engine that keeps the invariant, with a u32 quantity and before the identifiers run out,
  -- every request is handled without a panic and keeps the invariant. A new order is either
  -- accepted under the next identifier, which alone becomes live at its ticker, or refused, for want
  -- of a book, a side or a slot, with no change of the live orders. A cancel either answers with the
  -- live order that it names, which alone is gone then, or is refused because none is live. A request
  -- of an unknown kind is answered as invalid and changes nothing.
  pub process_request_lem :
      (e : MatchingEngine) (r : ClientRequest)
      → IsEngine n e
      → e.next_order_id + 1 < 2 ^ 64
      → r.qty < 2 ^ 32
      → (s : Reply × MatchingEngine) × (process_request n e r ≡ done s)
        × IsEngine n s.1
        × Handles n e r (Request.from_u8 r.msg_type) s
  unfolding process_request
  process_request_lem e r v ids range = by_kind (Request.from_u8 r.msg_type) refl
    where
      by_kind :
          (kind : Option ClientRequestType)
          → Request.from_u8 r.msg_type ≡ kind
          → (s : Reply × MatchingEngine) × (process_request n e r ≡ done s)
            × IsEngine n s.1
            × Handles n e r kind s
      by_kind none k = ((handle_invalid_request r, e), rw (k, process_request), v, refl)
      by_kind (some ClientRequestType.new) k =
          let (s, made, kept, answer) = handle_new_order_lem n small e v r ids range in
          (s, rw (k, process_request) made, kept, answer)
      by_kind (some ClientRequestType.cancel) k =
          let (s, made, kept, answer) = handle_cancel_lem n small e v r in
          (s, rw (k, process_request) made, kept, answer)

  -- A request uses up one identifier at most.
  pub Handles-next :
      (e : MatchingEngine) (r : ClientRequest) (kind : Option ClientRequestType)
      (s : Reply × MatchingEngine)
      → Handles n e r kind s
      → s.1.next_order_id ≤ e.next_order_id + 1
  Handles-next e r none s h =
      omega (arith, ap (λ (t : Reply × MatchingEngine). t.1.next_order_id) h)
  Handles-next e r (some ClientRequestType.new) s (inl h) = omega (arith, h.7)
  Handles-next e r (some ClientRequestType.new) s (inr h) = omega (arith, h.4)
  Handles-next e r (some ClientRequestType.cancel) s (inl h) = omega (arith, h.4)
  Handles-next e r (some ClientRequestType.cancel) s (inr h) = omega (arith, h.3)

  serve-IsEngine :
      (e : MatchingEngine) (rs : List ClientRequest)
      → IsEngine n e
      → e.next_order_id + length rs < 2 ^ 64
      → AllInRange rs
      → (s : List Reply × MatchingEngine) × (serve n e rs ≡ done s)
        × IsEngine n s.1
        × (replies s.0 ≡ length rs)
  unfolding serve
  serve-IsEngine e [] v ids range = (([], e), refl, v, refl)
  serve-IsEngine e (r ∷ rs) v ids range =
      let (s, made, kept, handled) = process_request_lem e r v (omega (arith, ids)) range.0 in
      let next = Handles-next e r (Request.from_u8 r.msg_type) s handled in
      let (t, rest, last, count) = serve-IsEngine s.1 rs kept (omega (arith, ids, next)) range.1 in
      ((s.0 ∷ t.0, t.1), rw (made, rest), last, omega (arith, count))

  -- A new engine fits, and so does one that has a ticker more.
  new-IsEngine : IsEngine n new
  unfolding lookup
  new-IsEngine = record { fits = λ t b e. absurd (cc) }

  add_ticker-IsEngine :
      (e : MatchingEngine) (t : TickerId)
      → 0 < n
      → IsEngine n e
      → (e' : MatchingEngine) × (add_ticker n e t ≡ done e')
        × IsEngine n e'
        × (e'.next_order_id ≡ e.next_order_id)
  unfolding add_ticker
  add_ticker-IsEngine e t pos v = elim (Option-cases (lookup t e.order_books)) [
    | inr (b, found) ↦ (e, rw (found, add_ticker), v, refl)
    | inl absent ↦
        let (b, made, book, named, blank) = new-IsBook n small pos t in
        (
          put_book e t b,
          rw (absent, add_ticker, made),
          put_book-IsEngine n e e.next_order_id t b v (omega arith) (record {
            book = book;
            ticker = named;
            used = λ k x l. absurd (ground (arith, blank k, l));
          }),
          refl,
        )
  ]

  add_tickers-IsEngine :
      (e : MatchingEngine) (ts : List TickerId)
      → 0 < n
      → IsEngine n e
      → (e' : MatchingEngine) × (add_tickers n e ts ≡ done e')
        × IsEngine n e'
        × (e'.next_order_id ≡ e.next_order_id)
  unfolding add_tickers
  add_tickers-IsEngine e [] pos v = (e, refl, v, refl)
  add_tickers-IsEngine e (t ∷ ts) pos v =
      let (e₁, made, v₁, same₁) = add_ticker-IsEngine e t pos v in
      let (e₂, rest, v₂, same₂) = add_tickers-IsEngine e₁ ts pos v₁ in
      (e₂, rw made rest, v₂, same₂ ∙ same₁)

  -- Any session of a new engine over books of between 1 and 2^64 - 1 slots, with any tickers and
  -- fewer than 2^64 - 1 requests of u32 quantities, runs without a panic, gives one reply for each
  -- request, and leaves an engine that keeps the invariant.
  pub serve-new :
      (ts : List TickerId) (rs : List ClientRequest)
      → 0 < n
      → 1 + length rs < 2 ^ 64
      → AllInRange rs
      → (s : List Reply × MatchingEngine) × ((add_tickers n new ts >>= λ e. serve n e rs) ≡ done s)
        × IsEngine n s.1
        × (replies s.0 ≡ length rs)
  serve-new ts rs pos ids range =
      let (e, built, v, same) = add_tickers-IsEngine new ts pos new-IsEngine in
      let (s, made, kept, count) = serve-IsEngine e rs v (omega (arith, ids, same)) range in
      (s, rw built made, kept, count)
