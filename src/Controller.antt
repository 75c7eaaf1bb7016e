-- ===== src/Controller.antt =====
-- cyclone-controller.py: the worker of a node and the loop that asks the master for tasks. The state
-- holds the global flag, the variables of the loop, the queues that it shares with the worker, and the
-- calls of the communication handler.
pub mod Workers
pub mod Responses
pub mod Retries
mod Tests
use lustre_ost_performance_t.Base.{
  Bool, List, Option, Result, [], err, false, if◌then◌else◌, is_nil, none, not, ok, some, true,
  value_error, ℕ, ◌&&◌, ◌++◌, ◌+◌, ◌==◌, ◌||◌, ◌∷◌,
}
use lustre_ost_performance_t.Base.Exec.{Exec, pure, lift, modify, ◌>>=◌, ◌>>◌}
use lustre_ost_performance_t.Text.{Text, text_eq}
use lustre_ost_performance_t.Text.Number.{ℤ, pos, negsuc}
use lustre_ost_performance_t.Task.{Task}
use lustre_ost_performance_t.Task.Factory.{Modules}
use lustre_ost_performance_t.Ctrl.SharedQueue.{pop_nowait}
use lustre_ost_performance_t.Msg.{
  Message, message_type, task_assign, acknowledge, wait_command, exit_command, type, to_string,
  duration, new_task_finished, new_task_request, new_heartbeat,
}
use lustre_ost_performance_t.Msg.Factory.{create}
use lustre_ost_performance_t.Msg.Assign.{to_task}
use lustre_ost_performance_t.Worker.{WorkerState, ready}

pub data CommCall : Type 0 where
  sent : Text → CommCall
  disconnected reconnected : CommCall

pub record Controller : Type 0 where
  pub run_condition : Bool
  pub request_retry_count : ℕ
  pub task_queue : List Task
  pub result_queue : List Text
  pub calls : List CommCall

pub record Config : Type 0 where
  pub fqdn : Text
  pub max_num_request_retries : ℕ
  pub worker_ids : List Text
  pub modules : Modules

-- What an iteration reads: which worker is alive, what its item shows, the TIDs that the worker push
-- while the controller waits for one, and what the two calls of `recv_string` return or raise.
pub record Round : Type 0 where
  pub is_alive : Text → Bool
  pub state : Text → WorkerState
  pub arrived : List Text
  pub response : Result (Option Text)
  pub late_response : Result (Option Text)

abbrev pub is_ready : WorkerState → Bool
is_ready ready = true
is_ready _ = false

abbrev pub any : (Text → Bool) → List Text → Bool
any test [] = false
any test (worker_id ∷ ids) = test worker_id || any test ids

-- `worker_count == worker_count_not_active`
abbrev pub none_alive : (Text → Bool) → List Text → Bool
none_alive is_alive ids = not (any is_alive ids)

module _ (cfg : Config) (r : Round) where
  -- A finished task goes first; a TID that is not true in Python is dropped.
  unfoldable pub take_result : Exec Controller (Option Text)
  take_result c =
      let (task_id, rest) = pop_nowait c.result_queue in
      (ok task_id, record c { result_queue = rest })

  abbrev pub message_of : Result Message → Result (Option Message)
  message_of (ok m) = ok (some m)
  message_of (err e) = err e

  abbrev pub finished_message : Option Text → Result (Option Message)
  finished_message none = ok none
  finished_message (some []) = ok none
  finished_message (some (a ∷ task_id)) = message_of (new_task_finished cfg.fqdn (a ∷ task_id))

  unfoldable pub found_ready_worker : Bool
  found_ready_worker =
      any (λ worker_id. r.is_alive worker_id && is_ready (r.state worker_id)) cfg.worker_ids

  unfoldable pub request : Exec Controller (Option Message)
  request c = (message_of (new_task_request cfg.fqdn), c)

  -- The available worker are busy: after the wait a heartbeat is sent if there is no result.
  unfoldable pub await_result : Exec Controller (Option Message)
  await_result c =
      let waited = record c { result_queue = c.result_queue ++ r.arrived } in
      if is_nil waited.result_queue
      then (message_of (new_heartbeat cfg.fqdn), waited)
      else (ok none, waited)

  unfoldable pub without_result : Exec Controller (Option Message)
  unfolding found_ready_worker request await_result
  without_result c =
      if found_ready_worker
      then request c
      else if none_alive r.is_alive cfg.worker_ids
      then (ok none, record c { run_condition = false })
      else await_result c

  abbrev pub or_without : Option Message → Exec Controller (Option Message)
  or_without none = without_result
  or_without (some m) = pure (some m)

  unfoldable pub choose_message : Exec Controller (Option Message)
  unfolding take_result
  choose_message = do
    task_id ← take_result
    send_msg ← lift (finished_message task_id)
    or_without send_msg

  -- `time.sleep`
  abbrev pub sleep : ℤ → Result (Unit {0})
  sleep (pos n) = ok tt
  sleep (negsuc n) = err value_error

  unfoldable pub push_task : Task → Exec Controller (Unit {0})
  push_task task c = (ok tt, record c { task_queue = c.task_queue ++ task ∷ [] })

  -- Any other type is passed over.
  unfoldable pub process_type : Message → Exec Controller (Unit {0})
  unfolding push_task
  process_type in_msg =
      if text_eq (message_type task_assign) (type in_msg)
      then (do task ← lift (to_task cfg.modules in_msg); push_task task)
      else if text_eq (message_type acknowledge) (type in_msg)
      then pure tt
      else if text_eq (message_type wait_command) (type in_msg)
      then (do wait_duration ← lift (duration in_msg); lift (sleep wait_duration))
      else if text_eq (message_type exit_command) (type in_msg)
      then modify (λ c. record c { run_condition = false })
      else pure tt

  unfoldable pub process_response : Text → Exec Controller (Unit {0})
  unfolding process_type
  process_response in_raw_data = do
    in_msg ← lift (create in_raw_data)
    process_type in_msg
    modify (λ c. record c { request_retry_count = 0 })

  -- The second call of `recv_string`, after the wait of a retry.
  unfoldable pub on_late : Result (Option Text) → Exec Controller (Unit {0})
  unfolding process_response
  on_late (err e) c = (err e, c)
  on_late (ok none) c = (
    ok tt,
    record c {
      request_retry_count = c.request_retry_count + 1;
      calls = c.calls ++ reconnected ∷ [];
    },
  )
  on_late (ok (some in_raw_data)) c = process_response in_raw_data c

  unfoldable pub check_retries : Controller → Controller
  check_retries c =
      if c.request_retry_count == cfg.max_num_request_retries
      then record c { run_condition = false; calls = c.calls ++ disconnected ∷ [] }
      else c

  unfoldable pub on_response : Result (Option Text) → Exec Controller (Unit {0})
  unfolding process_response on_late check_retries
  on_response (err e) c = (err e, c)
  on_response (ok none) c = on_late r.late_response (check_retries c)
  on_response (ok (some in_raw_data)) c = process_response in_raw_data c

  unfoldable pub exchange : Option Message → Exec Controller (Unit {0})
  unfolding on_response
  exchange none c = (ok tt, c)
  exchange (some send_msg) c =
      on_response r.response (record c { calls = c.calls ++ sent (to_string send_msg) ∷ [] })

  unfoldable pub handle : Exec Controller (Unit {0})
  unfolding choose_message exchange
  handle = do send_msg ← choose_message; exchange send_msg

  -- An exception ends the loop.
  abbrev pub settle : Result (Unit {0}) × Controller → Controller
  settle (ok u, c) = c
  settle (err e, c) = record c { run_condition = false }

  unfoldable pub iterate : Controller → Controller
  unfolding handle
  iterate c = settle (handle c)

-- `while RUN_CONDITION`
unfoldable pub run : Config → List Round → Controller → Controller
unfolding iterate
run cfg [] c = c
run cfg (r ∷ rounds) c =
    let next = run cfg rounds (iterate cfg r c) in if c.run_condition then next else c

-- One round of the shutdown: each worker that is alive gets the signal and a poison pill.
unfoldable pub poison : (Text → Bool) → List Text → Task → List Task → List Task
poison is_alive [] pill q = q
poison is_alive (worker_id ∷ ids) pill q =
    poison is_alive ids pill (if is_alive worker_id then q ++ pill ∷ [] else q)

-- `while not all_worker_down`, over what `is_alive` says in each round.
unfoldable pub shut_down : List (Text → Bool) → List Text → Task → List Task → List Task
unfolding poison
shut_down [] ids pill q = q
shut_down (is_alive ∷ rounds) ids pill q =
    let next = shut_down rounds ids pill (poison is_alive ids pill q) in
    if any is_alive ids then next else q
