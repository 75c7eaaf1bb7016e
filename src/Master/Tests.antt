-- ===== src/Master/Tests.antt =====
-- The master at concrete inputs.
use lustre_ost_performance_t.Base.{
  List, [], arith, err, false, none, ok, os_error, refl, some, true, ◌+◌, ◌<◌, ◌∷◌, ◌≡◌, ◌⊎◌,
}
use lustre_ost_performance_t.Text.{Text, codes, contains, text_eq, split, find}
use lustre_ost_performance_t.Dict.{get, put, remove, keys}
use lustre_ost_performance_t.Ctrl.{TaskStatusItem, assigned, finished}
use lustre_ost_performance_t.Msg.{
  Message, task_finished, sender, type, new_task_finished, new_heartbeat, new_task_request,
  to_string, new_wait_command,
}
use lustre_ost_performance_t.Ctrl.SharedQueue.{is_empty, pop_nowait}
use lustre_ost_performance_t.Msg.Factory.{create}
use lustre_ost_performance_t.Master.{
  Round, stop_if_all_down, check_status, do_task_assign, on_message, on_task_request, take_task,
  answer, answer_task, wait_command_of, respond, distribute, heartbeat,
}
use lustre_ost_performance_t.Master.Loop.{
  iterate, handle, run, on_error, on_poll_timeout, settle, after_sweep, sweep,
}
use lustre_ost_performance_t.Master.Samples.{config, round, busy, stopping, status}
use lustre_ost_performance_t.Master.Requests.{Finishes, iterate_frame}
use lustre_ost_performance_t.Master.Replies.{Answered, handle-Answered}
use lustre_ost_performance_t.Master.Results.{after_finished, iterate-finished}
use lustre_ost_performance_t.Master.Invariant.{
  iteration, Reach, here, next, IsSound, start, Reach-IsSound, check_status_decided,
}
use lustre_ost_performance_t.Master.Shutdown.{iterate_shutdown}
use lustre_ost_performance_t.Master.Shutdown.Expiry.{
  expired_in, after_timeout, iterate_timeout, run_ends,
}
use lustre_ost_performance_t.Text.Number.{str_of}

abbrev request_round : Round
request_round = round 110 (ok (some (codes "TASK_REQ;b")))

program : Unit {0}
unfolding iterate handle on_message on_task_request take_task answer answer_task check_status
    do_task_assign wait_command_of respond distribute settle create sender type to_string split find
    text_eq get put new_task_request new_wait_command str_of is_empty pop_nowait
program = tt

-- A task whose time runs is not given to the second controller, which has to wait.
second_waits : (iterate config request_round busy).sent ≡ codes "WAIT_CMD;3" ∷ []
unfolding program
second_waits = refl

iterate_frame_example :
    (get (iterate config request_round busy).statuses (codes "7") ≡ some status)
    ⊎ (recv_data : Text) × (request_round.received ≡ ok (some recv_data))
      × Finishes (codes "7") status recv_data
      × (get (iterate config request_round busy).statuses (codes "7")
          ≡ some (record status { state = finished; timestamp = 110 }))
unfolding get text_eq
iterate_frame_example =
    iterate_frame config request_round (codes "7") status refl (omega arith) busy refl

handle-Answered_example : Answered request_round.received [] (handle config request_round busy)
handle-Answered_example = handle-Answered config request_round busy

done_message : Message
done_message = record {
  class = task_finished;
  header = codes "TASK_FIN";
  body = some (codes "a;7");
}

done_round : Round
unfolding done_message
done_round = round 120 (ok (some (to_string done_message)))

iterate-finished_example :
    iterate config done_round busy
    ≡ after_finished done_round
        (codes "a")
        (codes "7")
        (get busy.statuses (codes "7"))
        (record busy { heartbeats = put busy.heartbeats (codes "a") 120 })
unfolding contains done_message done_round new_task_finished
iterate-finished_example =
    iterate-finished config done_round busy (codes "a") (codes "7") done_message (refl, refl)
      (refl, refl) refl refl refl

first_steps : Reach config (start 3) (on_error (start 3))
unfolding iterate handle settle
first_steps = next here (iteration (round 1 (err os_error)) refl)

Reach-IsSound_example : IsSound (on_error (start 3))
Reach-IsSound_example = Reach-IsSound config 3 (on_error (start 3)) first_steps

check_status_decided_example :
    (check_status config 5 (get (on_error (start 3)).statuses (codes "7")) ≡ ok true)
    ⊎ (item : TaskStatusItem) × (check_status config 5
          (get (on_error (start 3)).statuses (codes "7"))
        ≡ ok false)
      × (get (on_error (start 3)).statuses (codes "7") ≡ some item)
      × (item.state ≡ assigned)
      × (5 < item.timestamp + 60)
check_status_decided_example =
    check_status_decided config 3 5 (on_error (start 3)) (codes "7") first_steps

beat : Message
beat = record { class = heartbeat; header = codes "HEARTBEAT"; body = some (codes "a") }

beat_read : create (codes "HEARTBEAT;a") ≡ ok beat
unfolding create split text_eq new_heartbeat beat
beat_read = refl

beat-sender : sender beat ≡ ok (codes "a")
unfolding sender beat
beat-sender = refl

iterate_shutdown_example :
    iterate config (round 102 (ok (some (codes "HEARTBEAT;a")))) stopping
    ≡ stop_if_all_down (record stopping {
      sent = codes "EXIT_CMD" ∷ [];
      heartbeats = remove stopping.heartbeats (codes "a");
    })
iterate_shutdown_example =
    iterate_shutdown config (round 102 (ok (some (codes "HEARTBEAT;a")))) stopping
      (codes "HEARTBEAT;a") beat (codes "a") refl refl beat_read beat-sender

iterate_timeout_example :
    iterate config (round 105 (ok none)) stopping
    ≡ after_timeout stopping (expired_in config 105 stopping.heartbeats (keys stopping.heartbeats))
iterate_timeout_example = iterate_timeout config (round 105 (ok none)) stopping refl refl

-- The iteration at 105 counts an error, since it drops a controller while it walks over them.
drop_raises : (iterate config (round 105 (ok none)) stopping).error_count ≡ 1
unfolding iterate handle on_poll_timeout after_sweep sweep settle on_error get text_eq remove
drop_raises = refl

quiet : List Round
quiet = round 120 (ok none) ∷ round 121 (ok none) ∷ round 122 (ok none) ∷ []

run_ends_example : (run config quiet stopping).run_flag ≡ false
unfolding quiet
run_ends_example =
    run_ends config quiet stopping refl
      ((refl, (omega arith), (refl, (omega arith), (refl, (omega arith), tt)))) (omega arith)
