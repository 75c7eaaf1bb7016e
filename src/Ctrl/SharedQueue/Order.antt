-- ===== src/Ctrl/SharedQueue/Order.antt =====
-- The order in which items leave the queue.
use lustre_ost_performance_t.Base.{
  List, Option, [], append-nil, append_assoc, arith, if◌then◌else◌, length, map, ok, refl, some,
  suc, sym, zero, ℕ, ◌++◌, ◌∙◌, ◌∷◌, ◌≡◌,
}
use lustre_ost_performance_t.Ctrl.SharedQueue.{put_all, fill, clear, pop_nowait, is_empty}

module _ {A : Type 0} where
  put_all-eq-append : (items q : List A) → put_all items q ≡ q ++ items
  unfolding put_all
  put_all-eq-append [] q = sym (append-nil q)
  put_all-eq-append (x ∷ items) q =
      put_all-eq-append items (q ++ x ∷ []) ∙ append_assoc q (x ∷ []) items

  pub clear-nil : (q : List A) → clear q ≡ []
  unfolding clear
  clear-nil [] = refl
  clear-nil (x ∷ q) = clear-nil q

  -- What the generators do under the lock, `if not is_empty(): clear()` and then `fill`, leaves
  -- exactly the new items, in their order, whatever the queue held; only an empty list is refused.
  pub fill-clear :
      (x : A) (items q : List A)
      → fill (x ∷ items) (if is_empty q then q else clear q) ≡ (ok tt, x ∷ items)
  unfolding fill is_empty clear
  fill-clear x items [] = ground (arith, put_all-eq-append items (x ∷ []))
  fill-clear x items (y ∷ q) = rw (clear-nil q) (ground (arith, put_all-eq-append items (x ∷ [])))

  -- `pop_nowait` `n` times.
  unfoldable pub pop_many : ℕ → List A → List (Option A) × List A
  pop_many zero q = ([], q)
  pop_many (suc n) q =
      let (item, q') = pop_nowait q in let (items, rest) = pop_many n q' in (item ∷ items, rest)

  pop_many_all : (q : List A) → pop_many (length q) q ≡ (map (λ x. some x) q, [])
  unfolding pop_many pop_nowait
  pop_many_all [] = refl
  pop_many_all (x ∷ q) = ground (arith, pop_many_all q)

  -- Items pushed onto a queue leave it in the order of the pushes, behind those that were there.
  pub pop_many-put_all :
      (items q : List A)
      → pop_many (length (q ++ items)) (put_all items q) ≡ (map (λ x. some x) (q ++ items), [])
  pop_many-put_all items q = rw (put_all-eq-append items q) (pop_many_all (q ++ items))
