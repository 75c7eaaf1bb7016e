-- ===== src/Ctrl/SharedQueue.antt =====
-- ctrl/shared_queue.py: the methods of `SharedQueue` over the items that `multiprocessing.Queue`
-- holds, first in, first out.
pub mod Order
use lustre_ost_performance_t.Base.{
  Bool, List, Option, [], err, if◌then◌else◌, is_nil, length, none, not, ok, runtime_error, some,
  ◌++◌, ◌==◌, ◌∷◌,
}
use lustre_ost_performance_t.Base.Exec.{Exec}

module _ {A : Type 0} where
  unfoldable pub is_empty : List A → Bool
  is_empty q = is_nil q

  -- `self._queue.put` for each item of a list
  unfoldable pub put_all : List A → List A → List A
  put_all [] q = q
  put_all (item ∷ items) q = put_all items (q ++ item ∷ [])

  unfoldable pub fill : List A → Exec (List A) (Unit {0})
  unfolding put_all
  fill in_list q =
      if length in_list == 0
      then (err runtime_error, q)
      else if not (is_nil q)
      then (err runtime_error, q)
      else (ok tt, put_all in_list q)

  -- The loop ends when the queue is empty.
  unfoldable pub clear : List A → List A
  clear [] = []
  clear (item ∷ q) = clear q

  -- `truthy` is Python's truth value of an item.
  unfoldable pub push : (A → Bool) → A → Exec (List A) (Unit {0})
  push truthy item q = if truthy item then (ok tt, q ++ item ∷ []) else (err runtime_error, q)

  unfoldable pub pop_nowait : List A → Option A × List A
  pop_nowait [] = (none, [])
  pop_nowait (item ∷ q) = (some item, q)

  -- `pop` waits on an empty queue: it has no result there.
  unfoldable pub pop : List A → Option (A × List A)
  pop [] = none
  pop (item ∷ q) = some (item, q)
