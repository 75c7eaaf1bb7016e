-- ===== src/Worker/Tests.antt =====
-- Concrete runs of a worker.
use lustre_ost_performance_t.Base.{[], arith, err, false, os_error, refl, some, ◌∷◌}
use lustre_ost_performance_t.Text.{Text, codes}
use lustre_ost_performance_t.Task.{Task, empty_task_class}
use lustre_ost_performance_t.Worker.{Worker, Round, new_item, encoded_length, loop}
use lustre_ost_performance_t.Worker.Results.{
  one_task, no_task, one_round, no_round, running, Pushed, loop-Pushed,
}

abbrev job : Text → Task
job t = record { class = empty_task_class; tid = some t; attributes = [] }

abbrev fresh : Worker
fresh = record {
  run_flag = false;
  waiting = false;
  item = new_item;
  task_queue = [];
  result_queue = [];
}

-- A round in which the task raises.
abbrev failing : Round
failing = record {
  begun = 10;
  executed = err os_error;
  ended = 20;
  signalled = false;
  arrived = job (codes "12:31") ∷ [];
}

abbrev first_tid : Text
first_tid = codes "12:30"

loop-Pushed_example :
    Pushed
      (first_tid ∷ codes "12:31" ∷ [])
      (loop (failing ∷ failing ∷ []) (running (job first_tid ∷ []) fresh))
unfolding encoded_length
loop-Pushed_example =
    loop-Pushed (failing ∷ failing ∷ []) (job first_tid ∷ [])
      (job first_tid ∷ job (codes "12:31") ∷ []) (first_tid ∷ codes "12:31" ∷ []) fresh
      (one_round _ _ _ _ _ refl (one_round _ _ _ _ _ refl (no_round _)))
      (one_task _ _ _ _ (refl, refl, omega arith)
        (one_task _ _ _ _ (refl, refl, omega arith) no_task))

abbrev long_tid : Text
long_tid = codes "0123456789012345678901234567890123456789012345678901234567890123456789"
