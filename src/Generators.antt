-- ===== src/Generators.antt =====
-- The two generators that fill the queue at once: task/generator/benchmark_task_generator.py and
-- task/generator/lustre_monitoring_task_generator.py.
pub mod Benchmark
pub mod Monitoring
mod Tests
use lustre_ost_performance_t.Base.{Bool, List, Result, err, false, if◌then◌else◌, is_nil, ok, true}
use lustre_ost_performance_t.Base.Exec.{Exec}
use lustre_ost_performance_t.Task.{Task}
use lustre_ost_performance_t.Ctrl.SharedQueue.{is_empty, clear, fill}

-- What both do under the lock of the queue.
unfoldable pub renew_queue : List Task → Exec (List Task) (Unit {0})
renew_queue task_list q =
    let emptied = if is_empty q then q else clear q in
    if is_nil task_list then (ok tt, emptied) else fill task_list emptied

-- task/generator/base_task_generator.py: the flag that `run` looks at, and whether the process was
-- forked.
pub record GeneratorProcess : Type 0 where
  pub run_flag : Bool
  pub is_forked : Bool

-- `start`, with what `validate_config` does
unfoldable pub start_generator : Result (Unit {0}) → Exec GeneratorProcess (Unit {0})
start_generator (err e) p = (err e, p)
start_generator (ok u) p = (ok tt, record { run_flag = true; is_forked = true })

-- `_signal_handler_terminate`
unfoldable pub signal_terminate : GeneratorProcess → GeneratorProcess
signal_terminate p = record p { run_flag = false }
