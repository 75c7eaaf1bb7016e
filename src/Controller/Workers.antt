-- ===== src/Controller/Workers.antt =====
-- The worker that a controller makes and starts.
use lustre_ost_performance_t.Base.{
  ==_refl, Bool, Bool-cases, List, Result, [], ap, append-nil, append_assoc, arith, drop, err,
  false, if◌then◌else◌, inl, inr, is_nil, length, not, ok, refl, runtime_error, suc, sym, true,
  zero, ℕ, ◌&&◌, ◌*◌, ◌++◌, ◌+◌, ◌==◌, ◌||◌, ◌∙◌, ◌∷◌, ◌≡◌, ◌≤◌,
}
use lustre_ost_performance_t.Text.{Text, codes, text_eq, text_eq_iff}
use lustre_ost_performance_t.Text.Number.{str_of}
use lustre_ost_performance_t.Dict.{Dict, has, put, keys}
use lustre_ost_performance_t.Dict.Laws.{keys-put_new, length-keys, has-put}
use lustre_ost_performance_t.Text.RoundTrip.{str_of-injective}
use lustre_ost_performance_t.Controller.{is_ready}
use lustre_ost_performance_t.Worker.{WorkerState, WorkerStateTableItem, new_item}

-- `range(i, i + n)`
unfoldable pub worker_ids_from : ℕ → ℕ → List Text
worker_ids_from i zero = []
worker_ids_from i (suc n) = (codes "WORKER_" ++ str_of i) ∷ worker_ids_from (suc i) n

unfoldable pub create_worker_ids : ℕ → List Text
unfolding worker_ids_from
create_worker_ids worker_count = worker_ids_from 0 worker_count

unfoldable pub put_items : List Text → Dict WorkerStateTableItem → Dict WorkerStateTableItem
put_items [] table = table
put_items (worker_id ∷ ids) table = put_items ids (put table worker_id new_item)

unfoldable pub create_worker_state_table : List Text → Result (Dict WorkerStateTableItem)
unfolding put_items
create_worker_state_table worker_ids =
    let table = put_items worker_ids [] in
    if length table == length worker_ids then ok table else err runtime_error

abbrev pub all : (Text → Bool) → List Text → Bool
all test [] = true
all test (worker_id ∷ ids) = test worker_id && all test ids

abbrev pub all_ready : (Text → Bool × WorkerState) → List Text → Bool
all_ready seen ids = all (λ worker_id. (seen worker_id).0 && is_ready (seen worker_id).1) ids

-- `start_worker` from its retries on, over what is alive and ready in each; the time waited is the
-- second result.
unfoldable pub wait_ready : List Text → ℕ → List (Text → Bool × WorkerState) → ℕ → Bool × ℕ
wait_ready ids retry_count [] waited = (false, waited)
wait_ready ids retry_count (seen ∷ retries) waited =
    let later = wait_ready ids (retry_count + 1) retries (waited + retry_count * retry_count) in
    if all_ready seen ids then (true, waited) else later

-- The handles have the keys of the table, from which `create_worker` makes them.
unfoldable pub start_worker :
    List Text
    → Dict WorkerStateTableItem
    → (first second third : Text → Bool × WorkerState) → Result (Bool × ℕ)
unfolding wait_ready
start_worker handles table first second third =
    if is_nil handles
    then err runtime_error
    else if is_nil table
    then err runtime_error
    else if not (length handles == length table)
    then err runtime_error
    else ok (wait_ready handles 1 (first ∷ second ∷ third ∷ []) 0)

abbrev worker_id_of : ℕ → Text
worker_id_of i = codes "WORKER_" ++ str_of i

worker_id_of-injective : (i j : ℕ) → worker_id_of i ≡ worker_id_of j → i ≡ j
worker_id_of-injective i j e = str_of-injective i j (ap (λ s. drop 7 s) e)

-- No worker from this number on has an item.
AllNew : ℕ → Dict WorkerStateTableItem → Type 0
AllNew i table = (j : ℕ) → i ≤ j → has table (worker_id_of j) ≡ false

AllNew-put :
    (i : ℕ) (table : Dict WorkerStateTableItem)
    → AllNew i table
    → AllNew (suc i) (put table (worker_id_of i) new_item)
unfolding AllNew
AllNew-put i table new j l =
    rw (has-put table (worker_id_of i) (worker_id_of j) new_item)
      (elim (Bool-cases (text_eq (worker_id_of i) (worker_id_of j))) [
        | inl e ↦ absurd (omega (arith, l, worker_id_of-injective i j ((text_eq_iff _ _).0 e)))
        | inr e ↦ rw e (new j (omega (arith, l)))
      ])

put_items-keys :
    (n i : ℕ) (table : Dict WorkerStateTableItem)
    → AllNew i table
    → keys (put_items (worker_ids_from i n) table) ≡ keys table ++ worker_ids_from i n
unfolding put_items worker_ids_from AllNew
put_items-keys zero i table new = sym (append-nil (keys table))
put_items-keys (suc n) i table new =
    put_items-keys n (suc i) (put table (worker_id_of i) new_item) (AllNew-put i table new)
    ∙ rw (keys-put_new table (worker_id_of i) new_item (new i (omega arith)))
        (append_assoc (keys table) (worker_id_of i ∷ []) (worker_ids_from (suc i) n))

-- The table of the worker that a controller makes has an item for each number, in their order, and its
-- check of the size never fails: no two worker have the same name.
pub create_worker_state_table-ids :
    (n : ℕ)
    → (table : Dict WorkerStateTableItem) × (create_worker_state_table (create_worker_ids n)
        ≡ ok table)
      × (keys table ≡ create_worker_ids n)
unfolding create_worker_state_table create_worker_ids
create_worker_state_table-ids n =
    let k = put_items-keys n 0 [] (unfold AllNew in λ j l. unfold has in refl) in
    (
      put_items (worker_ids_from 0 n) [],
      rw (sym (length-keys (put_items (worker_ids_from 0 n) [])), k)
          (ground (arith, ==_refl (length (worker_ids_from 0 n)))),
      k,
    )

-- A start that gets as far as waiting succeeds exactly if all worker are alive and ready at one of the
-- three looks at them, and it waits 14 seconds at most.
pub start_worker-bounds :
    (handles : List Text) (table : Dict WorkerStateTableItem)
    (first second third : Text → Bool × WorkerState) (started : Bool) (waited : ℕ)
    → start_worker handles table first second third ≡ ok (started, waited)
    → (started ≡ (all_ready first handles || (all_ready second handles || all_ready third handles)))
      × (waited ≤ 14)
unfolding start_worker wait_ready
start_worker-bounds handles table first second third started waited h = ground arith
