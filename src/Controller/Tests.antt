-- ===== src/Controller/Tests.antt =====
-- The controller at concrete inputs.
use lustre_ost_performance_t.Base.{
  Bool, Option, Result, [], arith, false, none, ok, refl, some, true, ◌∷◌, ◌≡◌,
}
use lustre_ost_performance_t.Text.{Text, codes, text_eq, has_infix, contains}
use lustre_ost_performance_t.Task.{
  Task, empty_task_class, init_args_of, module_of, name_of, set_tid,
}
use lustre_ost_performance_t.Task.Factory.{Modules}
use lustre_ost_performance_t.Msg.{Message, to_string, message_type, task_finished}
use lustre_ost_performance_t.Msg.Assign.{assign_task, is_inherited_from_base_task}
use lustre_ost_performance_t.Msg.AssignRoundTrip.{IsSendable}
use lustre_ost_performance_t.Worker.{WorkerState, ready}
use lustre_ost_performance_t.Controller.{
  Controller, Config, Round, process_response, run, found_ready_worker,
}
use lustre_ost_performance_t.Controller.Responses.{assigned_task_is_queued}
use lustre_ost_performance_t.Controller.Retries.{run_gives_up}

abbrev one_class : Modules
one_class = record {
  find_class = λ m n. ok empty_task_class;
  new = λ c arguments. ok (record { class = c; tid = none; attributes = [] });
}

abbrev cfg : Config
cfg = record {
  fqdn = codes "node1";
  max_num_request_retries = 2;
  worker_ids = codes "WORKER_0" ∷ [];
  modules = one_class;
}

abbrev round : Result (Option Text) → Round
round response = record {
  is_alive = λ w. true;
  state = λ w. ready;
  arrived = [];
  response = response;
  late_response = ok none;
}

abbrev idle : Controller
idle = record {
  run_condition = true;
  request_retry_count = 0;
  task_queue = [];
  result_queue = [];
  calls = [];
}

run_gives_up_example :
    (run cfg (round (ok none) ∷ round (ok none) ∷ round (ok none) ∷ []) idle).run_condition ≡ false
unfolding found_ready_worker
run_gives_up_example =
    run_gives_up cfg (round (ok none) ∷ round (ok none) ∷ round (ok none) ∷ []) idle
      (refl, refl, refl, (refl, refl, refl, (refl, refl, refl, tt))) (omega arith) (omega arith)

abbrev report : Message
report = record {
  class = task_finished;
  header = message_type task_finished;
  body = some (codes "node1;7");
}

abbrev job : Task
job = record { class = empty_task_class; tid = some (codes "7"); attributes = [] }

job-IsSendable : IsSendable job (codes "7") []
unfolding is_inherited_from_base_task has_infix text_eq contains module_of name_of init_args_of
job-IsSendable = record {
  inherited = refl;
  in_package = refl;
  has_tid = refl;
  tid_set = refl;
  self = codes "self";
  names = [];
  parameters = refl;
  attributes = tt;
  few = omega arith;
  shown = tt;
  lacks = (refl, (refl, (refl, tt)));
}

assigned_task_is_queued_example :
    (m : Message) × (assign_task job ≡ ok m)
    × (process_response cfg (round (ok none)) (to_string m) idle
        ≡ (ok tt, record idle { task_queue = job ∷ [] }))
unfolding module_of name_of set_tid
assigned_task_is_queued_example =
    assigned_task_is_queued cfg (round (ok none)) job job (codes "7") [] idle job-IsSendable refl

-- The only worker is ready at the second look, after a second.
abbrev look : Bool → Text → Bool × WorkerState
look alive w = (alive, ready)
