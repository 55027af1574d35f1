-- ===== src/Engine/Tests.antt =====
-- exchange/src/matching_engine.rs: a small session, run, and the theorems at it.
use rust_low_latency_trading.Prelude.{
  ◌≡◌, refl, arith, some, List, [], ◌∷◌, sym, ap, ◌∙◌, subst, inl, inr, ◌⊎◌,
}
use rust_low_latency_trading.Prelude.Int.{pos, negsuc}
use rust_low_latency_trading.Prelude.Run.{Run, done, ◌>>=◌, from_done, done-injective}
use rust_low_latency_trading.Prelude.Map.{lookup, insert, ℕ_eq, ℤ_eq}
use rust_low_latency_trading.Pool
use rust_low_latency_trading.Pool.{allocate, deallocate_by_index, fill_free_list}
use rust_low_latency_trading.Book
use rust_low_latency_trading.Book.{
  add_order, cancel_order, place, withdraw, unlink, modify, join_level, leave_level,
}
use rust_low_latency_trading.Protocol.Request
use rust_low_latency_trading.Protocol.Request.{ClientRequest, ClientRequestType}
use rust_low_latency_trading.Engine.{
  MatchingEngine, Reply, new, add_ticker, parse_side, handle_new_order, handle_cancel,
  process_request, accept_reply,
}
use rust_low_latency_trading.Engine.Invariant.{IsEngine}
use rust_low_latency_trading.Engine.Requests.{Accepts, Refuses, handle_new_order_lem}
use rust_low_latency_trading.Engine.Histories.{
  Handles, add_tickers, serve, replies, process_request_lem, serve-new,
}
use rust_low_latency_trading.Engine.RoundTrip.{Restores, cancel-Restores}

abbrev buy_order : ClientRequest
buy_order = Request.create ClientRequestType.new 100 1 12345 (pos 1) (pos 10050) 100

abbrev sell_order : ClientRequest
sell_order = Request.create ClientRequestType.new 200 1 777 (negsuc 0) (pos 10060) 40

-- The cancel of the first order, by the identifier that the exchange gave it.
abbrev first_cancel : ClientRequest
first_cancel = Request.create ClientRequestType.cancel 100 1 1 (pos 1) (pos 10050) 0

abbrev session : Run (List Reply × MatchingEngine)
session = add_tickers 4 new (1 ∷ 2 ∷ []) >>= λ e. serve 4 e (buy_order ∷ sell_order ∷ [])

serve-new_example :
    (s : List Reply × MatchingEngine) × (session ≡ done s) × IsEngine 4 s.1 × (replies s.0 ≡ 2)
serve-new_example =
    serve-new 4 (omega arith) (1 ∷ 2 ∷ []) (buy_order ∷ sell_order ∷ []) (omega arith) (omega arith)
      (omega arith)

abbrev demo : MatchingEngine
unfolding add_tickers serve add_ticker process_request handle_new_order handle_cancel parse_side
    Request.from_u8 Book.new Pool.new fill_free_list add_order allocate lookup insert place
    join_level
demo = (from_done ([], new) session).1

session_ran : (session >>= λ s. done s.1) ≡ done demo
unfolding demo
session_ran = refl

demo-IsEngine : IsEngine 4 demo
demo-IsEngine =
    let (s, made, v, _) =
      serve-new 4 (omega arith) (1 ∷ 2 ∷ []) (buy_order ∷ sell_order ∷ []) (omega arith)
        (omega arith) (omega arith) in
    subst (IsEngine 4)
      (done-injective (
        sym (ap (λ (t : Run (List Reply × MatchingEngine)). t >>= λ r. done r.1) made)
        ∙ session_ran))
      v

process_request_lem_example :
    (s : Reply × MatchingEngine) × (process_request 4 demo first_cancel ≡ done s)
    × IsEngine 4 s.1
    × Handles 4 demo first_cancel (some ClientRequestType.cancel) s
unfolding demo Request.from_u8
process_request_lem_example =
    process_request_lem 4 (omega arith) demo first_cancel demo-IsEngine (omega arith) (omega arith)

-- A third order, and the engine after it.
abbrev third : ClientRequest
third = Request.create ClientRequestType.new 100 2 5 (negsuc 0) (pos 99) 3

abbrev third_cancel : ClientRequest
third_cancel = Request.create ClientRequestType.cancel 100 2 3 (pos 0) (pos 0) 0

abbrev after_third : Reply × MatchingEngine
unfolding demo handle_new_order parse_side add_order allocate lookup insert place join_level
    fill_free_list
after_third = from_done (accept_reply third 0, new) (handle_new_order 4 demo third)

third_ran : handle_new_order 4 demo third ≡ done after_third
unfolding demo handle_new_order parse_side add_order allocate lookup insert place join_level
    fill_free_list
third_ran = refl

third_id : third_cancel.order_id ≡ demo.next_order_id
unfolding demo
third_id = refl

third_not_refused : ¬ Refuses 4 demo third after_third
unfolding after_third
third_not_refused (reply, _, _, _, _) =
    absurd (omega (arith, ap (λ (t : Reply). t.0.msg_type) reply))

third_handled : IsEngine 4 after_third.1 × Accepts demo third after_third
third_handled =
    let (s, made, v, answer) =
      handle_new_order_lem 4 (omega arith) demo demo-IsEngine third (omega (arith, sym third_id))
        (omega arith) in
    let same : s ≡ after_third = done-injective (sym made ∙ third_ran) in
    (
      subst (λ (t : Reply × MatchingEngine). IsEngine 4 t.1) same v,
      elim (subst (λ t. Accepts demo third t ⊎ Refuses 4 demo third t) same answer) [
        | inl a ↦ a
        | inr r ↦ absurd (third_not_refused r)
      ],
    )

cancel-Restores_example :
    (u : Reply × MatchingEngine) × (handle_cancel 4 after_third.1 third_cancel ≡ done u)
    × Restores 4
        (omega arith)
        demo
        third
        third_cancel
        after_third
        third_handled.0
        third_handled.1
        refl
        third_id
        u
cancel-Restores_example =
    cancel-Restores 4 (omega arith) demo third third_cancel after_third third_handled.0
      third_handled.1 refl third_id
