-- ===== src/Queue/Tests.antt =====
-- common/src/lf_queue.rs: a queue of two slots, run, and the theorems at it.
use rust_low_latency_trading.Prelude.{ℕ, ◌≡◌, refl, arith, true, none, some, List, [], ◌∷◌}
use rust_low_latency_trading.Prelude.Run.{done, fault}
use rust_low_latency_trading.Queue
use rust_low_latency_trading.Queue.{LfQueue, ok, err, new, drain, is_empty, is_power_of_two}
use rust_low_latency_trading.Queue.Arith.{IsCapacity, is_power_of_two-IsCapacity}
use rust_low_latency_trading.Queue.Spec.{Call, put, take, pushed, popped, answers, run}
use rust_low_latency_trading.Queue.Refine.{new-Holds, push_refines, run_refines, drain_takes_all}

abbrev fresh : LfQueue ℕ
fresh = record { buffer = λ _. none; tail = 0; head = 0 }

fresh-new : new 2 ≡ done fresh
unfolding new is_power_of_two
fresh-new = refl

two-IsCapacity : IsCapacity 2
unfolding is_power_of_two
two-IsCapacity = is_power_of_two-IsCapacity 64 2 (omega arith) refl

abbrev calls : List (Call ℕ)
calls = put 7 ∷ put 8 ∷ put 9 ∷ take ∷ put 10 ∷ take ∷ take ∷ take ∷ []

run_refines_example : run 2 fresh calls ≡ done (answers 2 [] calls)
run_refines_example = run_refines 2 fresh calls fresh-new

calls_answered :
    run 2 fresh calls
    ≡ done (
        pushed ok
        ∷ pushed ok
        ∷ pushed (err 9)
        ∷ popped (some 7)
        ∷ pushed ok
        ∷ popped (some 8)
        ∷ popped (some 10)
        ∷ popped none
        ∷ [])
unfolding run Queue.push Queue.pop
calls_answered = refl

drain_takes_all_example :
    (q : LfQueue ℕ) × (drain 2 3 (Queue.push 2 fresh 7).1 ≡ done (7 ∷ [], q))
    × (is_empty 2 q ≡ true)
drain_takes_all_example =
    drain_takes_all 2 two-IsCapacity (Queue.push 2 fresh 7).1 0 (7 ∷ [])
      (push_refines 2 two-IsCapacity fresh 0 [] 7 (new-Holds 2 two-IsCapacity fresh fresh-new)).0

-- Three slots are refused by the constructor.
three_refused : new {A = ℕ} 3 ≡ fault
unfolding new is_power_of_two
three_refused = refl
