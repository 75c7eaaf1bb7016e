-- ===== src/Master/Results.antt =====
-- What the master makes of the message that a task is finished.
use lustre_ost_performance_t.Base.{
  Bool, Option, [], ap, arith, false, if◌then◌else◌, is_nil, none, ok, some, true, ◌++◌, ◌∙◌, ◌∷◌,
  ◌≡◌,
}
use lustre_ost_performance_t.Text.{Text, text_eq}
use lustre_ost_performance_t.Dict.{get, put}
use lustre_ost_performance_t.Ctrl.{TaskStatusItem, finished}
use lustre_ost_performance_t.Ctrl.SharedQueue.{push}
use lustre_ost_performance_t.Msg.{
  Message, type, message_type, tid, to_string, new_acknowledge, acknowledge, task_finished,
}
use lustre_ost_performance_t.Msg.RoundTrip.{
  build, IsPlain, IsComplete, create-to_string, build-Reads,
}
use lustre_ost_performance_t.Msg.RoundTrip
use lustre_ost_performance_t.Master.{
  Master, Config, Round, record_finished, finish, on_task_finished, distribute, respond, on_message,
}
use lustre_ost_performance_t.Master.Loop.{handle, handle_received, on_error, settle, iterate}

-- The state after a finished message of a controller, by the status of the task: a task without a
-- status raises; the controller that has the task finishes it and its TID goes to the results;
-- any other controller changes nothing. Both are acknowledged.
abbrev pub after_finished : Round → Text → Text → Option TaskStatusItem → Master → Master
after_finished r controller t none s = on_error s
after_finished r controller t (some item) s =
    if text_eq controller item.controller
    then record s {
      statuses = put s.statuses t (record item { state = finished; timestamp = r.written });
      result_queue = s.result_queue ++ t ∷ [];
      sent = s.sent ++ message_type acknowledge ∷ [];
    }
    else record s { sent = s.sent ++ message_type acknowledge ∷ [] }

settle_finished :
    (r : Round) (controller t : Text) (m : Message) (s : Master)
    → tid m ≡ ok t
    → is_nil t ≡ false
    → settle (on_task_finished r controller m s)
      ≡ after_finished r controller t (get s.statuses t) s
unfolding settle on_task_finished record_finished finish push new_acknowledge to_string
settle_finished r controller t m s named set = rw (named, on_task_finished) (ground arith)

respond_finished :
    (on : Bool) (cfg : Config) (r : Round) (controller : Text) (m : Message) (s : Master)
    → on ≡ true
    → type m ≡ message_type task_finished
    → respond on cfg r controller m s ≡ on_task_finished r controller m s
unfolding respond distribute text_eq
respond_finished true cfg r controller m s on kind = rw kind
respond_finished false cfg r controller m s on kind = cc

-- With distribution on, the finished message of a controller for a task leads to that state, the
-- heartbeat of the controller noted.
pub iterate-finished :
    (cfg : Config) (r : Round) (s : Master) (controller t : Text) (m : Message)
    → IsComplete (RoundTrip.finished controller t)
    → IsPlain (RoundTrip.finished controller t)
    → build (RoundTrip.finished controller t) ≡ ok m
    → s.task_distribution ≡ true
    → r.received ≡ ok (some (to_string m))
    → iterate cfg r s
      ≡ after_finished r controller t
          (get s.statuses t)
          (record s { heartbeats = put s.heartbeats controller r.heard })
unfolding iterate handle handle_received on_message
iterate-finished cfg r s controller t m complete plain made on got =
    let reads = build-Reads (RoundTrip.finished controller t) m plain made in
    let heard = record s { heartbeats = put s.heartbeats controller r.heard } in
    ap (λ received. settle (handle_received cfg r received s)) got
    ∙ rw (create-to_string (RoundTrip.finished controller t) m plain made, reads.1)
        (ap settle (respond_finished s.task_distribution cfg r controller m heard on reads.0)
          ∙ settle_finished r controller t m heard reads.2 complete.1)
