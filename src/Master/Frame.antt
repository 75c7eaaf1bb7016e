-- ===== src/Master/Frame.antt =====
-- A rule for invariants of the body of the loop: it is enough to look at the few places that write.
use lustre_ost_performance_t.Base.{
  Bool, Bool-cases, List, Option, Option-cases, Result, Result-cases, err, false, if◌then◌else◌,
  inl, inr, length, none, ok, some, true, ℕ, ◌≡◌,
}
use lustre_ost_performance_t.Base.Exec.{Exec, lift, modify}
use lustre_ost_performance_t.Base.Exec.Keeps.{Keeps, bind-Keeps}
use lustre_ost_performance_t.Text.{Text, text_eq}
use lustre_ost_performance_t.Dict.{Dict, get, put, keys, remove}
use lustre_ost_performance_t.Task.{Task}
use lustre_ost_performance_t.Ctrl.{TaskStatusItem, finished}
use lustre_ost_performance_t.Msg.{
  Message, type, message_type, tid, sender, new_acknowledge, new_exit_command, task_request,
  task_finished, heartbeat,
}
use lustre_ost_performance_t.Msg.Factory.{create}
use lustre_ost_performance_t.Master.{
  Master, Config, Round, take_task, check_status, assign, assigned_item, answer_task, answer,
  on_task_request, finish, record_finished, on_task_finished, on_heartbeat, on_shutdown, distribute,
  respond, on_message, stop_if_all_down, send, leave,
}
use lustre_ost_performance_t.Master.Loop.{
  on_poll_timeout, handle, handle_received, after_sweep, sweep,
}

-- What to show of an invariant, one field for each kind of write.
pub record IsClosed (cfg : Config) (r : Round) (P : Master → Type 0) : Type 0 where
  pub hears : (s : Master) (d : Dict ℕ) → P s → P (record s { heartbeats = d })
  pub replies : (s : Master) (log : List Text) → P s → P (record s { sent = log })
  pub takes : Keeps P (take_task r)
  pub assigns :
      (s : Master) (controller t : Text)
      → P s
      → P (record s { statuses = put s.statuses t (assigned_item r controller t) })
  pub finishes :
      (s : Master) (t : Text) (item : TaskStatusItem) (results : List Text)
      → get s.statuses t ≡ some item
      → P s
      → P (record s {
        statuses = put s.statuses t (record item { state = finished; timestamp = r.written });
        result_queue = results;
      })
  pub stops : (s : Master) → P s → P (stop_if_all_down s)

module _ (cfg : Config) (r : Round) (P : Master → Type 0) (closed : IsClosed cfg r P) where
  send-Keeps : (m : Message) → Keeps P (send m)
  send-Keeps m s h = closed.replies s _ h

  answer_task-Keeps :
      (controller : Text) (task : Task) → Keeps P (answer_task cfg r controller task)
  unfolding answer_task assign
  answer_task-Keeps controller task s h = elim (Option-cases task.tid) [
    | inl e ↦ rw (e, answer_task) h
    | inr (t, e) ↦ elim (Result-cases (check_status cfg r.started (get s.statuses t))) [
      | inr (e', bad) ↦ rw (e, answer_task) (rw bad h)
      | inl (true, yes_) ↦ rw (e, answer_task) (rw yes_ (closed.assigns s controller t h))
      | inl (false, no_) ↦ rw (e, answer_task) (rw no_ h)
    ]
  ]

  answer-Keeps : (controller : Text) (task : Option Task) → Keeps P (answer cfg r controller task)
  unfolding answer
  answer-Keeps controller none s h = h
  answer-Keeps controller (some task) s h = answer_task-Keeps controller task s h

  on_task_request-Keeps : (controller : Text) → Keeps P (on_task_request cfg r controller)
  unfolding on_task_request
  on_task_request-Keeps controller = bind-Keeps P (take_task r) _ closed.takes λ task.
      bind-Keeps P (answer cfg r controller task) _ (answer-Keeps controller task) send-Keeps

  finish-Keeps :
      (controller t : Text) (item : TaskStatusItem) (s : Master)
      → get s.statuses t ≡ some item
      → P s
      → P (finish r controller t item s).1
  unfolding finish
  finish-Keeps controller t item s e h = elim (Bool-cases (text_eq controller item.controller)) [
    | inl yes_ ↦ rw (yes_, finish) (closed.finishes s t item _ e h)
    | inr no_ ↦ rw (no_, finish) h
  ]

  record_finished-Keeps : (controller t : Text) → Keeps P (record_finished r controller t)
  unfolding record_finished
  record_finished-Keeps controller t s h = elim (Option-cases (get s.statuses t)) [
    | inl e ↦ rw (e, record_finished) h
    | inr (item, e) ↦ rw (e, record_finished) (finish-Keeps controller t item s e h)
  ]

  on_task_finished-Keeps :
      (controller : Text) (m : Message) → Keeps P (on_task_finished r controller m)
  unfolding on_task_finished
  on_task_finished-Keeps controller m =
      bind-Keeps P (lift (tid m)) _ (λ s h. h)
        λ t.
          bind-Keeps P (record_finished r controller t) _ (record_finished-Keeps controller t)
            λ u. bind-Keeps P (lift new_acknowledge) _ (λ s h. h) send-Keeps

  on_heartbeat-Keeps : Keeps P on_heartbeat
  unfolding on_heartbeat
  on_heartbeat-Keeps = bind-Keeps P (lift new_acknowledge) _ (λ s h. h) send-Keeps

  on_shutdown-Keeps : (controller : Text) → Keeps P (on_shutdown controller)
  unfolding on_shutdown leave
  on_shutdown-Keeps controller =
      bind-Keeps P (lift new_exit_command) _ (λ s h. h)
        λ m.
          bind-Keeps P (send m) (λ u. leave controller) (send-Keeps m)
            λ u s h. closed.stops _ (closed.hears s (remove s.heartbeats controller) h)

  if-Keeps :
      {A : Type 0} (b : Bool) (m n : Exec Master A)
      → Keeps P m
      → Keeps P n
      → Keeps P (if b then m else n)
  if-Keeps true m n hm hn = hm
  if-Keeps false m n hm hn = hn

  distribute-Keeps : (controller : Text) (m : Message) → Keeps P (distribute cfg r controller m)
  unfolding distribute
  distribute-Keeps controller m =
      if-Keeps (text_eq (type m) (message_type task_request)) _ _ (on_task_request-Keeps controller)
        (if-Keeps (text_eq (type m) (message_type task_finished)) _ _
          (on_task_finished-Keeps controller m)
          (if-Keeps (text_eq (type m) (message_type heartbeat)) _ _ on_heartbeat-Keeps (λ s h. h)))

  respond-Keeps :
      (on : Bool) (controller : Text) (m : Message) → Keeps P (respond on cfg r controller m)
  unfolding respond
  respond-Keeps true controller m = distribute-Keeps controller m
  respond-Keeps false controller m = on_shutdown-Keeps controller

  on_message-Keeps : (recv_data : Text) → Keeps P (on_message cfg r recv_data)
  unfolding on_message
  on_message-Keeps recv_data =
      bind-Keeps P (lift (create recv_data)) _ (λ s h. h)
        λ m.
          bind-Keeps P (lift (sender m)) _ (λ s h. h)
            λ controller.
              bind-Keeps P
                (modify (λ s. record s { heartbeats = put s.heartbeats controller r.heard }))
                (λ u s. respond s.task_distribution cfg r controller m s)
                (λ s h. closed.hears s _ h)
                λ u s h. respond-Keeps s.task_distribution controller m s h

  after_sweep-Keeps : (swept : Result (Unit {0}) × Dict ℕ) → Keeps P (after_sweep swept)
  unfolding after_sweep
  after_sweep-Keeps (ok u, d) s h = closed.stops _ (closed.hears s d h)
  after_sweep-Keeps (err e, d) s h = closed.hears s d h

  either : (b : Bool) (x y : Result (Unit {0}) × Master) → P x.1 → P y.1 → P (if b then x else y).1
  either true x y hx hy = hx
  either false x y hx hy = hy

  on_poll_timeout-Keeps : Keeps P (on_poll_timeout cfg r)
  unfolding on_poll_timeout
  on_poll_timeout-Keeps s h =
      either s.task_distribution (ok tt, s)
        (after_sweep (sweep cfg r.started (length s.heartbeats) (keys s.heartbeats) s.heartbeats) s)
        h
        (after_sweep-Keeps
          (sweep cfg r.started (length s.heartbeats) (keys s.heartbeats) s.heartbeats) s h)

  handle_received-Keeps :
      (received : Result (Option Text)) → Keeps P (handle_received cfg r received)
  unfolding handle_received
  handle_received-Keeps (err e) s h = h
  handle_received-Keeps (ok none) s h = on_poll_timeout-Keeps s h
  handle_received-Keeps (ok (some recv_data)) s h = on_message-Keeps recv_data s h

  -- What the writes keep, the body of an iteration keeps, whatever it reads.
  pub handle-Keeps : Keeps P (handle cfg r)
  unfolding handle
  handle-Keeps s h = handle_received-Keeps r.received s h
