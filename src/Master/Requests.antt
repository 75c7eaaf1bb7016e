-- ===== src/Master/Requests.antt =====
-- Who is given a task: a task that a controller works on is given to no other before its time is up.
use lustre_ost_performance_t.Base.{
  Bool, Bool-cases, Option, Option-cases, Result, Result-cases, ap, arith, err, false, inl, inr,
  none, ok, refl, some, true, ◌+◌, ◌<◌, ◌∙◌, ◌≡◌, ◌⊎◌,
}
use lustre_ost_performance_t.Base.Exec.Keeps.{Keeps, bind-Keeps}
use lustre_ost_performance_t.Text.{Text, text_eq, text_eq_iff}
use lustre_ost_performance_t.Dict.{get, put}
use lustre_ost_performance_t.Dict.Laws.{get-put}
use lustre_ost_performance_t.Task.{Task}
use lustre_ost_performance_t.Ctrl.{TaskStatusItem, assigned, finished}
use lustre_ost_performance_t.Msg.{Message, type, sender, tid, message_type, task_finished}
use lustre_ost_performance_t.Msg.Factory.{create}
use lustre_ost_performance_t.Master.{
  Master, Config, Round, take_task, do_task_assign, check_status, assign, assigned_item,
  answer_task, answer, on_task_request, finish, record_finished, on_task_finished, on_heartbeat,
  on_shutdown, distribute, respond, on_message, stop_if_all_down, leave,
}
use lustre_ost_performance_t.Master.Loop.{
  on_poll_timeout, handle, handle_received, on_error, iterate, settle, after_sweep,
}

pub statuses-settle : (p : Result (Unit {0}) × Master) → (settle p).statuses ≡ p.1.statuses
unfolding settle on_error
statuses-settle (ok u, s) = refl
statuses-settle (err e, s) = ground arith

-- The text is a finished message of the controller that has the task, and names the task.
pub record Finishes (k : Text) (item : TaskStatusItem) (recv_data : Text) : Type 0 where
  pub message : Message
  pub read : create recv_data ≡ ok message
  pub by : sender message ≡ ok item.controller
  pub kind : type message ≡ message_type task_finished
  pub names : tid message ≡ ok k

module _ (cfg : Config) (r : Round) (k : Text) (item : TaskStatusItem)
    (busy : item.state ≡ assigned)
    (live : r.started < item.timestamp + cfg.task_resend_timeout) where
  check_status-busy : check_status cfg r.started (some item) ≡ ok false
  unfolding check_status do_task_assign
  check_status-busy = ground arith

  answer_task_frame :
      (controller : Text) (task : Task) (s : Master)
      → get s.statuses k ≡ some item
      → get (answer_task cfg r controller task s).1.statuses k ≡ some item
  unfolding answer_task assign
  answer_task_frame controller task s h = elim (Option-cases task.tid) [
    | inl e ↦ rw (e, answer_task) h
    | inr (t, e) ↦ elim (Bool-cases (text_eq t k)) [
      | inl same ↦
          let found = ap (get s.statuses) ((text_eq_iff t k).0 same) ∙ h in
          ground (arith, check_status-busy)
      | inr other ↦ ground (arith, get-put s.statuses t k (assigned_item r controller t))
    ]
  ]

  abbrev IsKept : Master → Type 0
  IsKept s = get s.statuses k ≡ some item

  take_task_frame : Keeps IsKept (take_task r)
  unfolding take_task
  take_task_frame s h = ground arith

  answer_frame :
      (controller : Text) (task : Option Task) → Keeps IsKept (answer cfg r controller task)
  unfolding answer
  answer_frame controller none s h = h
  answer_frame controller (some task) s h = answer_task_frame controller task s h

  on_task_request_frame : (controller : Text) → Keeps IsKept (on_task_request cfg r controller)
  unfolding on_task_request
  on_task_request_frame controller = bind-Keeps IsKept (take_task r) _ take_task_frame λ task.
      bind-Keeps IsKept (answer cfg r controller task) _ (answer_frame controller task) λ m s h. h

  -- The status after a message `m` of a controller: as before, or finished by the controller that
  -- has the task, with a message that names it.
  abbrev IsKeptBy : Text → Message → Master → Type 0
  IsKeptBy controller m s =
      (get s.statuses k ≡ some item)
      ⊎ (type m ≡ message_type task_finished)
        × (controller ≡ item.controller)
        × (tid m ≡ ok k)
        × (get s.statuses k ≡ some (record item { state = finished; timestamp = r.written }))

  record_finished_frame :
      (controller t : Text) (s : Master)
      → IsKept s
      → IsKept (record_finished r controller t s).1
        ⊎ (controller ≡ item.controller)
          × (t ≡ k)
          × (get (record_finished r controller t s).1.statuses k
              ≡ some (record item { state = finished; timestamp = r.written }))
  unfolding record_finished finish
  record_finished_frame controller t s h = elim (Bool-cases (text_eq t k)) [
    | inl same ↦
        let t_k = (text_eq_iff t k).0 same in
        let found = ap (get s.statuses) t_k ∙ h in
        ground (
          arith,
          text_eq_iff controller item.controller,
          get-put s.statuses t k (record item { state = finished; timestamp = r.written }),
        )
    | inr other ↦ elim (Option-cases (get s.statuses t)) [
      | inl none_ ↦ ground arith
      | inr (item', e) ↦
          ground (
            arith,
            get-put s.statuses t k (record item' { state = finished; timestamp = r.written }),
          )
    ]
  ]

  on_task_finished_frame :
      (controller : Text) (m : Message) (s : Master)
      → type m ≡ message_type task_finished
      → IsKept s
      → IsKeptBy controller m (on_task_finished r controller m s).1
  unfolding on_task_finished
  on_task_finished_frame controller m s e h = elim (Result-cases (tid m)) [
    | inl (t, named) ↦
        rw (named, on_task_finished)
          (elim (record_finished_frame controller t s h) [
            | inl same ↦ ground arith
            | inr (c, t_k, done) ↦ ground arith
          ])
    | inr (e', failed) ↦ ground arith
  ]

  distribute_frame :
      (controller : Text) (m : Message) (s : Master)
      → IsKept s
      → IsKeptBy controller m (distribute cfg r controller m s).1
  unfolding distribute on_heartbeat
  distribute_frame controller m s h = ground (
    arith,
    text_eq_iff (type m) (message_type task_finished),
    on_task_request_frame controller s h,
    on_task_finished_frame controller m s,
  )

  abbrev IsDone : Master → Type 0
  IsDone s = get s.statuses k ≡ some (record item { state = finished; timestamp = r.written })

  respond_frame :
      (on : Bool) (controller : Text) (m : Message) (s : Master)
      → IsKept s
      → IsKeptBy controller m (respond on cfg r controller m s).1
  unfolding respond on_shutdown leave stop_if_all_down
  respond_frame true controller m s h = distribute_frame controller m s h
  respond_frame false controller m s h = ground arith

  on_message_frame :
      (recv_data : Text) (s : Master)
      → IsKept s
      → IsKept (on_message cfg r recv_data s).1
        ⊎ Finishes k item recv_data × IsDone (on_message cfg r recv_data s).1
  unfolding on_message
  on_message_frame recv_data s h = elim (Result-cases (create recv_data)) [
    | inr (e, bad) ↦ inl (rw (bad, on_message) h)
    | inl (m, read) ↦ elim (Result-cases (sender m)) [
      | inr (e, bad) ↦ inl (rw (read, bad, on_message) h)
      | inl (controller, by) ↦
          let heard = record s { heartbeats = put s.heartbeats controller r.heard } in
          rw (read, by, on_message)
            (elim (respond_frame s.task_distribution controller m heard h) [
              | inl same ↦ inl same
              | inr (kind, c, names, done) ↦ inr (
                record { message = m; read = read; by = by ∙ ap ok c; kind = kind; names = names },
                done,
              )
            ])
    ]
  ]

  on_poll_timeout_frame : Keeps IsKept (on_poll_timeout cfg r)
  unfolding on_poll_timeout after_sweep stop_if_all_down
  on_poll_timeout_frame s h = ground arith

  handle_received_frame :
      (received : Result (Option Text)) (s : Master)
      → IsKept s
      → IsKept (handle_received cfg r received s).1
        ⊎ (recv_data : Text) × (received ≡ ok (some recv_data))
          × Finishes k item recv_data
          × IsDone (handle_received cfg r received s).1
  unfolding handle_received
  handle_received_frame (err e) s h = inl h
  handle_received_frame (ok none) s h = inl (on_poll_timeout_frame s h)
  handle_received_frame (ok (some recv_data)) s h = elim (on_message_frame recv_data s h) [
    | inl same ↦ inl same
    | inr (fin, done) ↦ inr (recv_data, refl, fin, done)
  ]

  -- While the time of an assigned task runs, one iteration of the loop, whatever it reads and
  -- even if it raises, leaves the task's status as it is, or it received the finished message of
  -- the very controller that has the task and the status is now finished.
  pub iterate_frame :
      (s : Master)
      → get s.statuses k ≡ some item
      → (get (iterate cfg r s).statuses k ≡ some item)
        ⊎ (recv_data : Text) × (r.received ≡ ok (some recv_data))
          × Finishes k item recv_data
          × (get (iterate cfg r s).statuses k
              ≡ some (record item { state = finished; timestamp = r.written }))
  unfolding iterate handle
  iterate_frame s h = rw (statuses-settle (handle cfg r s)) (handle_received_frame r.received s h)
