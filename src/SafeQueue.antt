-- ===== src/SafeQueue.antt =====
-- `SafeQueue` of src/common/queue_utils.cppm. Each operation holds the mutex for its whole body, so it is one step, and a
-- run of several threads is the sequence of their steps.
use fast_db.Prelude.{
  ◌-◌, ◌%◌, ◌^◌, Bool, true, false, List, [], ◌∷◌, ◌++◌, append_assoc, append-nil, ℤ, pos, negsuc,
  ltb, if◌then◌else◌, length, ◌≡◌, sym, ap, ◌∙◌,
}

-- A call by some thread.
pub data Call (T : Type 0) : Type 0 where
  push : T → Call T
  pop : Call T

module _ {T : Type 0} where
  -- The queue from its front.
  unfoldable pub empty : List T → Bool
  empty [] = true
  empty (x ∷ xs) = false

  -- The size as an `int` of 32 bits.
  unfoldable pub size : List T → ℤ
  size queue =
      let n = length queue % 2 ^ 32 in if ltb n (2 ^ 31) then pos n else negsuc (2 ^ 32 - n - 1)

  unfoldable pub enqueue : T → List T → List T
  enqueue t queue = queue ++ t ∷ []

  -- What is at `t` afterwards, the queue, and whether an element was taken.
  unfoldable pub dequeue : T → List T → T × List T × Bool
  dequeue t [] = (t, [], false)
  dequeue t (x ∷ queue) = (x, queue, true)

  -- The elements that the calls of a run take, in their order, and the queue afterwards. `d` is what a caller's `t` has
  -- before the call.
  unfoldable pub run : T → List (Call T) → List T → List T × List T
  run d [] queue = ([], queue)
  run d (push t ∷ calls) queue = run d calls (enqueue t queue)
  run d (pop ∷ calls) queue =
      let (t, rest, taken) = dequeue d queue in
      let (more, last) = run d calls rest in (if taken then t ∷ more else more, last)

  -- The elements that the calls put in, in their order.
  unfoldable pub pushed : List (Call T) → List T
  pushed [] = []
  pushed (push t ∷ calls) = t ∷ pushed calls
  pushed (pop ∷ calls) = pushed calls

  -- Whatever calls run in whatever order, the elements that were taken, followed by those still there, are those that were
  -- there, followed by those put in: none is lost, doubled or overtaken.
  pub run_fifo :
      (d : T) (calls : List (Call T)) (queue : List T)
      → (run d calls queue).0 ++ (run d calls queue).1 ≡ queue ++ pushed calls
  unfolding run pushed enqueue dequeue
  run_fifo d [] queue = sym (append-nil queue)
  run_fifo d (push t ∷ calls) queue =
      run_fifo d calls (queue ++ t ∷ []) ∙ append_assoc queue (t ∷ []) (pushed calls)
  run_fifo d (pop ∷ calls) [] = run_fifo d calls []
  run_fifo d (pop ∷ calls) (x ∷ queue) = ap (λ rest. x ∷ rest) (run_fifo d calls queue)
