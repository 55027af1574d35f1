-- ===== src/Queue/Spec.antt =====
-- common/src/lf_queue.rs: what the queue promises, a first-in first-out list of at most N items.
use rust_low_latency_trading.Prelude.{
  ℕ, zero, suc, Option, none, some, if◌then◌else◌, leb, List, [], ◌∷◌, ◌++◌,
}
use rust_low_latency_trading.Prelude.Run.{Run, done, ◌>>=◌}
use rust_low_latency_trading.Queue
use rust_low_latency_trading.Queue.{LfQueue, Pushed, ok, err}

pub data Call (A : Type 0) : Type 0 where
  put : A → Call A
  take : Call A

pub data Answer (A : Type 0) : Type 0 where
  pushed : Pushed A → Answer A
  popped : Option A → Answer A

module _ {A : Type 0} where
  abbrev pub length : List A → ℕ
  length [] = 0
  length (x ∷ xs) = suc (length xs)

  abbrev pub get_elem? : List A → ℕ → Option A
  get_elem? [] i = none
  get_elem? (x ∷ xs) zero = some x
  get_elem? (x ∷ xs) (suc i) = get_elem? xs i

  -- The calls on the list, each with its answer.
  abbrev pub push : ℕ → List A → A → Pushed A × List A
  push n xs x = if leb n (length xs) then (err x, xs) else (ok, xs ++ (x ∷ []))

  abbrev pub pop : List A → Option A × List A
  pop [] = (none, [])
  pop (x ∷ xs) = (some x, xs)

  abbrev pub answers : ℕ → List A → List (Call A) → List (Answer A)
  answers n xs [] = []
  answers n xs (put x ∷ calls) = pushed (push n xs x).0 ∷ answers n (push n xs x).1 calls
  answers n xs (take ∷ calls) = popped (pop xs).0 ∷ answers n (pop xs).1 calls

  -- The same calls on the queue.
  unfoldable pub run : ℕ → LfQueue A → List (Call A) → Run (List (Answer A))
  run n q [] = done []
  run n q (put x ∷ calls) =
      run n (Queue.push n q x).1 calls >>= λ rest. done (pushed (Queue.push n q x).0 ∷ rest)
  run n q (take ∷ calls) =
      Queue.pop n q >>= λ r. run n r.1 calls >>= λ rest. done (popped r.0 ∷ rest)
