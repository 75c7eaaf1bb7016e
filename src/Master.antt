-- ===== src/Master.antt =====
-- cyclone-master.py: what the master does with a message. The state holds the global flag, the variables of
-- the loop, the queues that it shares with the task generator, and the replies sent. What an
-- iteration reads from outside (the message, the clock, the lock, the generator) is its `Round`.
pub mod Loop
pub mod Requests
pub mod Frame
pub mod Replies
pub mod Results
pub mod Invariant
pub mod Shutdown
mod Samples
mod Tests
use lustre_ost_performance_t.Base.{
  Bool, List, Option, Result, [], err, false, if◌then◌else◌, is_nil, leb, length, ltb, none, not,
  ok, runtime_error, some, true, ℕ, ◌&&◌, ◌++◌, ◌+◌, ◌==◌, ◌||◌, ◌∷◌,
}
use lustre_ost_performance_t.Base.Exec.{Exec, raise, lift, modify, ◌>>=◌, ◌>>◌}
use lustre_ost_performance_t.Text.{Text, text_eq}
use lustre_ost_performance_t.Text.Number.{str_of}
use lustre_ost_performance_t.Dict.{Dict, get, put, remove}
use lustre_ost_performance_t.Task.{Task}
use lustre_ost_performance_t.Ctrl.{TaskStatusItem, assigned, finished}
use lustre_ost_performance_t.Ctrl.SharedQueue.{pop_nowait, push}
use lustre_ost_performance_t.Msg.{
  Message, message_type, task_request, task_finished, heartbeat, to_string, type, sender, tid,
  new_wait_command, new_acknowledge, new_exit_command,
}
use lustre_ost_performance_t.Msg.Factory.{create}
use lustre_ost_performance_t.Msg.Assign.{assign_task}

pub record Master : Type 0 where
  pub task_distribution : Bool
  pub run_flag : Bool
  pub error_count : ℕ
  pub controller_wait_duration : ℕ
  pub heartbeats : Dict ℕ
  pub statuses : Dict TaskStatusItem
  pub task_queue : List Task
  pub result_queue : List Text
  pub sent : List Text

pub record Config : Type 0 where
  pub controller_timeout : ℕ
  pub task_resend_timeout : ℕ

-- `started` is `last_exec_timestamp`; `heard` and `written` are the clock at the heartbeat and at
-- a change of a status. `received` is what `recv_string` returns or raises.
pub record Round : Type 0 where
  pub started : ℕ
  pub received : Result (Option Text)
  pub heard : ℕ
  pub written : ℕ
  pub lock_taken : Bool
  pub generator_alive : Bool

abbrev pub max_error_count : ℕ
max_error_count = 100

abbrev pub send : Message → Exec Master (Unit {0})
send m s = (ok tt, record s { sent = s.sent ++ to_string m ∷ [] })

unfoldable pub stop_task_distribution : Master → Master
stop_task_distribution s = if s.task_distribution then record s { task_distribution = false } else s

-- The critical section of a task request.
unfoldable pub take_task : Round → Exec Master (Option Task)
take_task r s =
    if r.lock_taken
    then (if not (is_nil s.task_queue)
        then (let (task, rest) = pop_nowait s.task_queue in
            (ok task, record s { task_queue = rest }))
        else if not r.generator_alive
        then (ok none, record s { task_distribution = false; controller_wait_duration = 0 })
        else (ok none, s))
    else (ok none, s)

-- Whether a task with this status is assigned again; a state that is neither raises.
unfoldable pub do_task_assign : Config → ℕ → TaskStatusItem → Result Bool
do_task_assign cfg now item =
    let task_resend_threshold = item.timestamp + cfg.task_resend_timeout in
    if item.state == finished || leb task_resend_threshold now
    then ok true
    else if item.state == assigned && ltb now task_resend_threshold
    then ok false
    else err runtime_error

-- A TID that has no status is assigned.
unfoldable pub check_status : Config → ℕ → Option TaskStatusItem → Result Bool
check_status cfg now none = ok true
check_status cfg now (some item) = do_task_assign cfg now item

unfoldable pub wait_command_of : ℕ → Result Message
wait_command_of d = new_wait_command (str_of d)

abbrev pub assigned_item : Round → Text → Text → TaskStatusItem
assigned_item r controller task_id = record {
  tid = task_id;
  state = assigned;
  controller = controller;
  timestamp = r.written;
}

-- The status is written before the message is made.
unfoldable pub assign : Round → Text → Text → Task → Exec Master Message
assign r controller task_id task s = (
  assign_task task,
  record s { statuses = put s.statuses task_id (assigned_item r controller task_id) },
)

-- The reply to a request for which a task was popped; a task of no TID cannot be assigned.
unfoldable pub answer_task : Config → Round → Text → Task → Exec Master Message
answer_task cfg r controller task s = elim task.tid [
  | none ↦ (err runtime_error, s)
  | some task_id ↦ elim (check_status cfg r.started (get s.statuses task_id)) [
    | err e ↦ (err e, s)
    | ok true ↦ assign r controller task_id task s
    | ok false ↦ (wait_command_of s.controller_wait_duration, s)
  ]
]

unfoldable pub answer : Config → Round → Text → Option Task → Exec Master Message
answer cfg r controller none s = (wait_command_of s.controller_wait_duration, s)
answer cfg r controller (some task) s = answer_task cfg r controller task s

unfoldable pub on_task_request : Config → Round → Text → Exec Master (Unit {0})
on_task_request cfg r controller = do
  task ← take_task r
  send_msg ← answer cfg r controller task
  send send_msg

-- The status of a finished task; only the controller that has the task may finish it.
unfoldable pub finish : Round → Text → Text → TaskStatusItem → Exec Master (Unit {0})
finish r controller task_id item s =
    if text_eq controller item.controller
    then (let (done, results) = push (λ t. not (is_nil t)) task_id s.result_queue in
        (
          done,
          record s {
            statuses =
                put s.statuses task_id (record item { state = finished; timestamp = r.written });
            result_queue = results;
          },
        ))
    else (ok tt, s)

unfoldable pub record_finished : Round → Text → Text → Exec Master (Unit {0})
record_finished r controller task_id s = elim (get s.statuses task_id) [
  | none ↦ (err runtime_error, s)
  | some item ↦ finish r controller task_id item s
]

unfoldable pub on_task_finished : Round → Text → Message → Exec Master (Unit {0})
on_task_finished r controller recv_msg = do
  task_id ← lift (tid recv_msg)
  record_finished r controller task_id
  send_msg ← lift new_acknowledge
  send send_msg

unfoldable pub on_heartbeat : Exec Master (Unit {0})
on_heartbeat = do send_msg ← lift new_acknowledge; send send_msg

-- `check_all_controller_down`, and the flag that it clears
unfoldable pub stop_if_all_down : Master → Master
stop_if_all_down s = if length s.heartbeats == 0 then record s { run_flag = false } else s

unfoldable pub leave : Text → Exec Master (Unit {0})
leave controller s =
    (ok tt, stop_if_all_down (record s { heartbeats = remove s.heartbeats controller }))

-- The graceful shutdown: an exit command for whoever asks.
unfoldable pub on_shutdown : Text → Exec Master (Unit {0})
on_shutdown controller = do send_msg ← lift new_exit_command; send send_msg; leave controller

unfoldable pub distribute : Config → Round → Text → Message → Exec Master (Unit {0})
distribute cfg r controller recv_msg =
    if text_eq (type recv_msg) (message_type task_request)
    then on_task_request cfg r controller
    else if text_eq (type recv_msg) (message_type task_finished)
    then on_task_finished r controller recv_msg
    else if text_eq (type recv_msg) (message_type heartbeat)
    then on_heartbeat
    else raise runtime_error

-- `if TASK_DISTRIBUTION`
unfoldable pub respond : Bool → Config → Round → Text → Message → Exec Master (Unit {0})
respond true cfg r controller recv_msg = distribute cfg r controller recv_msg
respond false cfg r controller recv_msg = on_shutdown controller

unfoldable pub on_message : Config → Round → Text → Exec Master (Unit {0})
on_message cfg r recv_data = do
  recv_msg ← lift (create recv_data)
  controller ← lift (sender recv_msg)
  modify (λ s. record s { heartbeats = put s.heartbeats controller r.heard })
  (λ s. respond s.task_distribution cfg r controller recv_msg s)
