-- ===== src/Master/Samples.antt =====
-- A small master with one assigned task and two controllers.
use lustre_ost_performance_t.Base.{Option, Result, [], false, some, true, ℕ, ◌∷◌}
use lustre_ost_performance_t.Text.{Text, codes}
use lustre_ost_performance_t.Task.{Task, empty_task_class}
use lustre_ost_performance_t.Ctrl.{TaskStatusItem, assigned}
use lustre_ost_performance_t.Master.{Master, Config, Round}

abbrev pub config : Config
config = record { controller_timeout = 5; task_resend_timeout = 60 }

abbrev pub round : ℕ → Result (Option Text) → Round
round now received = record {
  started = now;
  received = received;
  heard = now;
  written = now;
  lock_taken = true;
  generator_alive = true;
}

abbrev pub job : Task
job = record { class = empty_task_class; tid = some (codes "7"); attributes = [] }

abbrev pub status : TaskStatusItem
status = record { tid = codes "7"; state = assigned; controller = codes "a"; timestamp = 100 }

abbrev pub busy : Master
busy = record {
  task_distribution = true;
  run_flag = true;
  error_count = 0;
  controller_wait_duration = 3;
  heartbeats = (codes "a", 100) ∷ (codes "b", 101) ∷ [];
  statuses = (codes "7", status) ∷ [];
  task_queue = job ∷ [];
  result_queue = [];
  sent = [];
}

abbrev pub stopping : Master
stopping = record busy { task_distribution = false }
