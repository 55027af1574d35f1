-- ===== src/Book/Tests.antt =====
-- exchange/src/order_book.rs: a small book, run, and the theorems at it.
use rust_low_latency_trading.Prelude.{
  ◌+◌, ◌≡◌, refl, arith, Option, none, some, List, [], ◌∷◌, sym, ◌∙◌, subst,
}
use rust_low_latency_trading.Prelude.Int.{pos, ◌≤ℤ◌}
use rust_low_latency_trading.Prelude.Run.{Run, done, ◌>>=◌, from_done, done-injective}
use rust_low_latency_trading.Prelude.Map.{lookup, insert, remove, ℕ_eq, ℤ_eq}
use rust_low_latency_trading.Types.{buy, sell}
use rust_low_latency_trading.Pool
use rust_low_latency_trading.Pool.{PoolPtr, allocate, deallocate_by_index, fill_free_list}
use rust_low_latency_trading.Book.{
  Order, OrderBook, PriceLevel, levels, new, new_order, add_order, cancel_order, place, withdraw,
  unlink, modify, join_level, leave_level, best_bid, best_ask, order_count,
}
use rust_low_latency_trading.Book.Invariant.{IsBook}
use rust_low_latency_trading.Book.Live.{resting}
use rust_low_latency_trading.Book.Add.{Adds, add_order_lem}
use rust_low_latency_trading.Book.Remove.{Cancels, cancel_order_lem}
use rust_low_latency_trading.Book.Runs.{Call, adds, cancels, step, run, run-new-IsBook}
use rust_low_latency_trading.Book.Best.{IsBestOf, best_prices}
use rust_low_latency_trading.Book.Links.{cancel_loses_list}

-- Three bids, two of them at one price, and an ask; the best bid is then cancelled.
abbrev calls : List Call
calls =
    adds 9 1 buy (pos 100) 10
    ∷ adds 9 2 buy (pos 100) 20
    ∷ adds 9 3 buy (pos 101) 5
    ∷ adds 8 4 sell (pos 103) 7
    ∷ cancels 3
    ∷ []

abbrev blank : OrderBook
blank = record {
  ticker_id = 7;
  bid_levels = [];
  ask_levels = [];
  order_map = [];
  order_pool = record { storage = λ _. none; free_list = λ _. 0; free_count = 0 };
  next_priority = 1;
}

abbrev demo_run : Run OrderBook
demo_run = new 4 7 >>= λ b. run 4 b calls

abbrev demo : OrderBook
unfolding run step new Pool.new fill_free_list add_order allocate lookup insert remove place
    join_level cancel_order unlink modify withdraw leave_level deallocate_by_index
demo = from_done blank demo_run

demo_ran : demo_run ≡ done demo
unfolding run step new Pool.new fill_free_list add_order allocate lookup insert remove place
    join_level cancel_order unlink modify withdraw leave_level deallocate_by_index
demo_ran = refl

demo_counts : order_count demo ≡ 3
unfolding demo order_count
demo_counts = refl

-- The best bid was 101 while order 3 was live, and is 100 after its cancel; its level is gone.
demo_best : (best_bid demo ≡ some (pos 100)) × (best_ask demo ≡ some (pos 103))
unfolding demo best_bid best_ask
demo_best = (refl, refl)

demo_level : lookup (pos 101) (levels demo buy) ≡ none
unfolding demo lookup
demo_level = refl

demo-IsBook : IsBook 4 demo
demo-IsBook =
    let (b, made, v) = run-new-IsBook 4 (omega arith) 7 calls (omega arith) (omega arith) in
    subst (IsBook 4) (done-injective (sym made ∙ demo_ran)) v

-- One slot is left: the order is accepted.
add_order_lem_example :
    (r : Option PoolPtr × OrderBook) × (add_order 4 demo 9 5 sell (pos 102) 1 ≡ done r)
    × IsBook 4 r.1
    × Adds 4 demo 5 (resting (new_order demo 9 5 sell (pos 102) 1)) r
add_order_lem_example =
    add_order_lem 4 (omega arith) demo demo-IsBook 9 5 sell (pos 102) 1 (omega arith)

cancel_order_lem_example :
    (r : Option Order × OrderBook) × (cancel_order 4 demo 1 ≡ done r)
    × IsBook 4 r.1
    × Cancels demo 1 r
cancel_order_lem_example = cancel_order_lem 4 (omega arith) demo demo-IsBook 1

best_prices_example :
    IsBestOf (λ k p. k ≤ℤ p) demo buy (best_bid demo)
    × IsBestOf (λ k p. p ≤ℤ k) demo sell (best_ask demo)
best_prices_example = best_prices 4 demo demo-IsBook

-- Order 1 stands before order 2 at the price 100.
abbrev first : Order
first = record {
  order_id = 1;
  client_id = 9;
  ticker_id = 7;
  side = buy;
  price = pos 100;
  qty = 10;
  priority = 1;
  prev_idx = none;
  next_idx = none;
}

abbrev level : PriceLevel
level = record {
  price = pos 100;
  total_qty = 30;
  head_idx = some 3;
  tail_idx = some 2;
  order_count = 2;
}

cancel_loses_list_example :
    (b' : OrderBook) × (l' : PriceLevel) × (cancel_order 4 demo 1 ≡ done (some first, b'))
    × IsBook 4 b'
    × (lookup (pos 100) (levels b' buy) ≡ some l')
    × (l'.order_count + 1 ≡ 2)
    × (l'.head_idx ≡ none)
    × (l'.tail_idx ≡ none)
unfolding demo lookup
cancel_loses_list_example =
    cancel_loses_list 4 (omega arith) demo demo-IsBook 1 3 first level refl refl refl refl
      (omega arith)
