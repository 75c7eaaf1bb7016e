-- ===== src/Controller/Responses.antt =====
-- What a controller does with what the master sends, and what it sends first.
use lustre_ost_performance_t.Base.{List, [], ap, false, ok, refl, some, ℕ, ◌++◌, ◌∙◌, ◌∷◌, ◌≡◌}
use lustre_ost_performance_t.Text.{split, find, Text, text_eq}
use lustre_ost_performance_t.Task.{Task}
use lustre_ost_performance_t.Msg.{
  Message, message_type, type, to_string, task_assign, exit_command, new_task_finished,
  new_exit_command,
}
use lustre_ost_performance_t.Ctrl.SharedQueue.{pop_nowait}
use lustre_ost_performance_t.Msg.{base_message}
use lustre_ost_performance_t.Msg.Factory.{create}
use lustre_ost_performance_t.Msg.Assign.{assign_task, to_task}
use lustre_ost_performance_t.Msg.AssignRoundTrip.{IsSendable, rebuilt, assign_task-arrives}
use lustre_ost_performance_t.Controller.{
  Controller, Config, Round, push_task, process_type, process_response, take_result, choose_message,
  exchange, on_response, handle, sent, settle,
}

module _ (cfg : Config) (r : Round) where
  process_assigned :
      (m : Message) (task : Task) (c : Controller)
      → type m ≡ message_type task_assign
      → to_task cfg.modules m ≡ ok task
      → create (to_string m) ≡ ok m
      → process_response cfg r (to_string m) c
        ≡ (ok tt, record c { task_queue = c.task_queue ++ task ∷ []; request_retry_count = 0 })
  unfolding process_response process_type push_task text_eq
  process_assigned m task c kind built read = rw (read, kind, built, process_type)

  -- The message by which a task that can be sent is assigned makes the controller push to its queue the
  -- task that calling its class with the values of the attributes gives, with its TID; the count of
  -- retries starts again.
  pub assigned_task_is_queued :
      (task fresh : Task) (t : Text) (vs : List Text) (c : Controller)
      → IsSendable task t vs
      → rebuilt cfg.modules task.class t vs ≡ ok fresh
      → (m : Message) × (assign_task task ≡ ok m)
        × (process_response cfg r (to_string m) c ≡ (
          ok tt,
          record c { task_queue = c.task_queue ++ fresh ∷ []; request_retry_count = 0 },
        ))
  assigned_task_is_queued task fresh t vs c sendable made =
      let (m, assigned, kind, read, built) = assign_task-arrives task t vs sendable cfg.modules in
      (m, assigned, process_assigned m fresh c kind (built ∙ made) read)

  -- A finished task goes first: whatever the state of the worker, the message that is sent names the
  -- oldest TID in the queue of results, which leaves the queue.
  pub finished_goes_first :
      (a : ℕ) (task_id : Text) (rest : List Text) (c : Controller) (m : Message)
      → new_task_finished cfg.fqdn (a ∷ task_id) ≡ ok m
      → handle cfg r (record c { result_queue = (a ∷ task_id) ∷ rest })
        ≡ on_response cfg r r.response
            (record c { result_queue = rest; calls = c.calls ++ sent (to_string m) ∷ [] })
  unfolding handle choose_message take_result pop_nowait exchange
  finished_goes_first a task_id rest c m e = rw e refl

  exit_processed :
      (c : Controller)
      → process_response cfg r (message_type exit_command) c
        ≡ (ok tt, record c { run_condition = false; request_retry_count = 0 })
  unfolding process_response process_type create split text_eq new_exit_command base_message type
      find
  exit_processed c = refl

  -- When the response to a message is the exit command, the loop ends, and nothing else is sent.
  pub exit_command_ends :
      (c : Controller) (send_msg : Message)
      → r.response ≡ ok (some (message_type exit_command))
      → settle cfg r (exchange cfg r (some send_msg) c) ≡ record c {
        run_condition = false;
        request_retry_count = 0;
        calls = c.calls ++ sent (to_string send_msg) ∷ [];
      }
  unfolding exchange on_response
  exit_command_ends c send_msg got =
      let c' = record c { calls = c.calls ++ sent (to_string send_msg) ∷ [] } in
      ap (λ x. settle cfg r (on_response cfg r x c')) got ∙ ap (settle cfg r) (exit_processed c')
