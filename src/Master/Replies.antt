-- ===== src/Master/Replies.antt =====
-- The socket of the master answers each message once before it can receive the next one.
use lustre_ost_performance_t.Base.{
  Bool, List, Option, Result, [], arith, err, false, if◌then◌else◌, length, none, ok, refl, some,
  true, ℕ, ◌++◌, ◌∷◌, ◌≡◌,
}
use lustre_ost_performance_t.Base.Exec.{Exec, resume, lift}
use lustre_ost_performance_t.Text.{Text, text_eq}
use lustre_ost_performance_t.Dict.{Dict, put, remove, keys}
use lustre_ost_performance_t.Task.{Task}
use lustre_ost_performance_t.Msg.{
  Message, type, message_type, tid, sender, new_acknowledge, new_exit_command, task_request,
  task_finished, heartbeat, to_string, exit_command,
}
use lustre_ost_performance_t.Msg.Factory.{create}
use lustre_ost_performance_t.Master.{
  Master, Config, Round, take_task, assign, answer_task, answer, on_task_request, finish,
  record_finished, on_task_finished, on_heartbeat, on_shutdown, leave, distribute, respond,
  on_message, stop_if_all_down, send,
}
use lustre_ost_performance_t.Master.Loop.{
  on_poll_timeout, after_sweep, handle, handle_received, sweep,
}

-- One reply stands behind the log, or the code raised and there is none.
abbrev pub Replied : List Text → Result (Unit {0}) × Master → Type 0
Replied log (ok u, s) = (reply : Text) × (s.sent ≡ log ++ reply ∷ [])
Replied log (err e, s) = s.sent ≡ log

-- What an iteration sends, by what it received: a reply to a message, nothing to a timeout.
abbrev pub Answered : Result (Option Text) → List Text → Result (Unit {0}) × Master → Type 0
Answered (ok (some recv_data)) log p = Replied log p
Answered _ log p = p.1.sent ≡ log

module _ {A : Type 0} (log : List Text) where
  resume-Replied :
      (p : Result A × Master) (f : A → Exec Master (Unit {0}))
      → p.1.sent ≡ log
      → ((a : A) (s : Master) → s.sent ≡ log → Replied log (f a s))
      → Replied log (resume p.0 f p.1)
  resume-Replied (ok a, s) f quiet after = after a s quiet
  resume-Replied (err e, s) f quiet after = quiet

send-Replied : (log : List Text) (m : Message) (s : Master) → s.sent ≡ log → Replied log (send m s)
send-Replied log m s h = (to_string m, rw h)

-- A shutdown answers with the exit command and drops the controller.
pub on_shutdown-eq :
    (controller : Text) (s : Master)
    → on_shutdown controller s ≡ (
      ok tt,
      stop_if_all_down (record s {
        sent = s.sent ++ message_type exit_command ∷ [];
        heartbeats = remove s.heartbeats controller;
      }),
    )
unfolding on_shutdown leave new_exit_command to_string
on_shutdown-eq controller s = refl

module _ (cfg : Config) (r : Round) (log : List Text) where
  take_task_quiet : (s : Master) → s.sent ≡ log → (take_task r s).1.sent ≡ log
  unfolding take_task
  take_task_quiet s h = ground arith

  answer_quiet :
      (controller : Text) (task : Option Task) (s : Master)
      → s.sent ≡ log
      → (answer cfg r controller task s).1.sent ≡ log
  unfolding answer answer_task assign
  answer_quiet controller none s h = h
  answer_quiet controller (some task) s h = ground arith

  record_finished_quiet :
      (controller t : Text) (s : Master)
      → s.sent ≡ log
      → (record_finished r controller t s).1.sent ≡ log
  unfolding record_finished finish
  record_finished_quiet controller t s h = ground arith

  acknowledge-Replied : (s : Master) → s.sent ≡ log → Replied log (on_heartbeat s)
  unfolding on_heartbeat
  acknowledge-Replied s h = resume-Replied log (lift new_acknowledge s) send h (send-Replied log)

  on_task_request-Replied :
      (controller : Text) (s : Master)
      → s.sent ≡ log
      → Replied log (on_task_request cfg r controller s)
  unfolding on_task_request
  on_task_request-Replied controller s h =
      resume-Replied log (take_task r s) _ (take_task_quiet s h) λ task s' h'.
        resume-Replied log (answer cfg r controller task s') _ (answer_quiet controller task s' h')
          (send-Replied log)

  on_task_finished-Replied :
      (controller : Text) (m : Message) (s : Master)
      → s.sent ≡ log
      → Replied log (on_task_finished r controller m s)
  unfolding on_task_finished
  on_task_finished-Replied controller m s h = resume-Replied log (lift (tid m) s) _ h λ t s' h'.
      resume-Replied log (record_finished r controller t s') _
        (record_finished_quiet controller t s' h')
        λ u s'' h''. resume-Replied log (lift new_acknowledge s'') send h'' (send-Replied log)

  on_shutdown-Replied :
      (controller : Text) (s : Master) → s.sent ≡ log → Replied log (on_shutdown controller s)
  on_shutdown-Replied controller s h =
      rw (on_shutdown-eq controller s)
        (message_type exit_command, unfold stop_if_all_down in ground arith)

  if-Replied :
      (b : Bool) (m n : Exec Master (Unit {0})) (s : Master)
      → Replied log (m s)
      → Replied log (n s)
      → Replied log ((if b then m else n) s)
  if-Replied true m n s hm hn = hm
  if-Replied false m n s hm hn = hn

  distribute-Replied :
      (controller : Text) (m : Message) (s : Master)
      → s.sent ≡ log
      → Replied log (distribute cfg r controller m s)
  unfolding distribute
  distribute-Replied controller m s h =
      if-Replied (text_eq (type m) (message_type task_request)) _ _ s
        (on_task_request-Replied controller s h)
        (if-Replied (text_eq (type m) (message_type task_finished)) _ _ s
          (on_task_finished-Replied controller m s h)
          (if-Replied (text_eq (type m) (message_type heartbeat)) _ _ s (acknowledge-Replied s h)
            h))

  respond-Replied :
      (on : Bool) (controller : Text) (m : Message) (s : Master)
      → s.sent ≡ log
      → Replied log (respond on cfg r controller m s)
  unfolding respond
  respond-Replied true controller m s h = distribute-Replied controller m s h
  respond-Replied false controller m s h = on_shutdown-Replied controller s h

  on_message-Replied :
      (recv_data : Text) (s : Master) → s.sent ≡ log → Replied log (on_message cfg r recv_data s)
  unfolding on_message
  on_message-Replied recv_data s h = resume-Replied log (lift (create recv_data) s) _ h λ m s' h'.
      resume-Replied log (lift (sender m) s') _ h' λ controller s'' h''.
        respond-Replied s''.task_distribution controller m
          (record s'' { heartbeats = put s''.heartbeats controller r.heard }) h''

  after_sweep_quiet :
      (p : Result (Unit {0}) × Dict ℕ) (s : Master) → s.sent ≡ log → (after_sweep p s).1.sent ≡ log
  unfolding after_sweep stop_if_all_down
  after_sweep_quiet (ok u, d) s h = ground arith
  after_sweep_quiet (err e, d) s h = h

  on_poll_timeout_quiet : (s : Master) → s.sent ≡ log → (on_poll_timeout cfg r s).1.sent ≡ log
  unfolding on_poll_timeout
  on_poll_timeout_quiet s h = ground (
    arith,
    after_sweep_quiet (sweep cfg r.started (length s.heartbeats) (keys s.heartbeats) s.heartbeats) s
        h,
  )

  handle_received-Answered :
      (received : Result (Option Text)) (s : Master)
      → s.sent ≡ log
      → Answered received log (handle_received cfg r received s)
  unfolding handle_received
  handle_received-Answered (err e) s h = h
  handle_received-Answered (ok none) s h = on_poll_timeout_quiet s h
  handle_received-Answered (ok (some recv_data)) s h = on_message-Replied recv_data s h

-- An iteration that received a message sends one reply to it, or it raises and sends none; one
-- that received nothing sends nothing.
pub handle-Answered :
    (cfg : Config) (r : Round) (s : Master) → Answered r.received s.sent (handle cfg r s)
unfolding handle
handle-Answered cfg r s = handle_received-Answered cfg r s.sent r.received s refl
