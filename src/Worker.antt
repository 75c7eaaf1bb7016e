-- ===== src/Worker.antt =====
-- worker.py: a process that pops tasks, executes them one after another, and pushes the TID of each
-- one to the queue of results. Its item of the state table is shared with the controller.
pub mod Results
mod Tests
use lustre_ost_performance_t.Base.{
  Bool, List, Option, Result, [], attribute_error, err, false, if◌then◌else◌, is_nil, ltb, none,
  not, ok, runtime_error, some, true, value_error, ℕ, ◌%◌, ◌++◌, ◌+◌, ◌||◌, ◌∷◌,
}
use lustre_ost_performance_t.Base.Exec.{Exec, ◌>>◌}
use lustre_ost_performance_t.Text.{Text, codes}
use lustre_ost_performance_t.Task.{Task}
use lustre_ost_performance_t.Ctrl.SharedQueue.{push, pop}

pub data WorkerState : Type 0 where
  not_ready ready executing : WorkerState

unfoldable pub state_to_string : WorkerState → Text
state_to_string not_ready = codes "NOT_READY"
state_to_string ready = codes "READY"
state_to_string executing = codes "EXECUTING"

pub record WorkerStateTableItem : Type 0 where
  pub state : WorkerState
  pub tid : Text
  pub timestamp : ℕ

abbrev pub new_item : WorkerStateTableItem
new_item = record { state = not_ready; tid = []; timestamp = 0 }

-- The number of bytes of `encode`.
unfoldable pub encoded_length : Text → ℕ
encoded_length [] = 0
encoded_length (c ∷ s) =
    (if ltb c 128 then 1 else if ltb c 2048 then 2 else if ltb c 65536 then 3 else 4)
    + encoded_length s

unfoldable pub set_state : WorkerState → Exec WorkerStateTableItem (Unit {0})
set_state state item = (ok tt, record item { state = state })

-- The array holds 64 bytes.
unfoldable pub set_task_name : Text → Exec WorkerStateTableItem (Unit {0})
set_task_name task_name item =
    if ltb 64 (encoded_length task_name)
    then (err value_error, item)
    else (ok tt, record item { tid = task_name })

-- An unsigned number of 32 bits.
unfoldable pub set_timestamp : ℕ → Exec WorkerStateTableItem (Unit {0})
set_timestamp timestamp item = (ok tt, record item { timestamp = timestamp % 4294967296 })

-- `waiting` tells that the worker is inside `pop`, where it does not look at the flag.
pub record Worker : Type 0 where
  pub run_flag : Bool
  pub waiting : Bool
  pub item : WorkerStateTableItem
  pub task_queue : List Task
  pub result_queue : List Text

-- What a round meets: the clock before and after the task, what `execute` does, whether the signal to
-- shut down came, and the tasks that were put into the queue.
pub record Round : Type 0 where
  pub begun : ℕ
  pub executed : Result (Unit {0})
  pub ended : ℕ
  pub signalled : Bool
  pub arrived : List Task

-- Code of the worker that changes its item.
abbrev pub on_item : Exec WorkerStateTableItem (Unit {0}) → Exec Worker (Unit {0})
on_item m w = let (done, item) = m w.item in (done, record w { item = item })

unfoldable pub show_ready : ℕ → Exec WorkerStateTableItem (Unit {0})
unfolding set_state set_timestamp
show_ready now = do set_state ready; set_timestamp now

-- A TID of None has no `encode`.
unfoldable pub show_tid : Option Text → Exec WorkerStateTableItem (Unit {0})
unfolding set_task_name
show_tid none item = (err attribute_error, item)
show_tid (some task_id) item = set_task_name task_id item

unfoldable pub show_executing : ℕ → Option Text → Exec WorkerStateTableItem (Unit {0})
unfolding set_state show_tid set_timestamp
show_executing now task_id = do set_state executing; show_tid task_id; set_timestamp now

unfoldable pub show_done : ℕ → Exec WorkerStateTableItem (Unit {0})
unfolding set_state set_task_name set_timestamp
show_done now = do set_state ready; set_task_name []; set_timestamp now

unfoldable pub push_result : Option Text → Exec Worker (Unit {0})
push_result none w = (err runtime_error, w)
push_result (some task_id) w =
    let (done, results) = push (λ t. not (is_nil t)) task_id w.result_queue in
    (done, record w { result_queue = results })

-- An exception of `execute` is caught and logged.
abbrev pub caught : Result (Unit {0}) → Exec Worker (Unit {0})
caught executed w = (ok tt, w)

unfoldable pub work : Round → Task → Exec Worker (Unit {0})
unfolding show_executing push_result show_done
work r task = do
  on_item (show_executing r.begun task.tid)
  caught r.executed
  push_result task.tid
  on_item (show_done r.ended)

unfoldable pub signal_handler_shutdown : Bool → Worker → Worker
signal_handler_shutdown signalled w = if signalled then record w { run_flag = false } else w

-- One round: on an empty queue `pop` goes on waiting.
unfoldable pub iterate : Round → Exec Worker (Unit {0})
unfolding work signal_handler_shutdown
iterate r w = elim (pop (w.task_queue ++ r.arrived)) [
  | none ↦
      (ok tt, signal_handler_shutdown r.signalled (record w { waiting = true; task_queue = [] }))
  | some (task, rest) ↦
      work r task
        (signal_handler_shutdown r.signalled (record w { waiting = false; task_queue = rest }))
]

unfoldable pub loop : List Round → Exec Worker (Unit {0})
unfolding iterate
loop [] w = (ok tt, w)
loop (r ∷ rounds) w =
    let next = (iterate r >> loop rounds) w in if w.waiting || w.run_flag then next else (ok tt, w)

-- `run`, for the rounds until the process exits, which is with 0 if it returns and with 1 if it raises.
unfoldable pub run : ℕ → List Round → Exec Worker (Unit {0})
unfolding show_ready loop
run now rounds = do on_item (show_ready now); loop rounds
