-- ===== src/Generators/Tests.antt =====
-- The generators at concrete inputs.
use lustre_ost_performance_t.Base.{
  List, [], false, get_elem?, length, none, ok, refl, some, true, ℕ, ◌<◌, ◌∷◌, ◌≡◌,
}
use lustre_ost_performance_t.Text.{Text, codes}
use lustre_ost_performance_t.Text.Number.{pos}
use lustre_ost_performance_t.Task.{Task, empty_task_class}
use lustre_ost_performance_t.Generators.{renew_queue}
use lustre_ost_performance_t.Generators.Benchmark
use lustre_ost_performance_t.Generators.Benchmark.{
  validate_config, accepted_fills, benchmark_task, Round,
}
use lustre_ost_performance_t.Generators.Monitoring.Rounds.{Follows, monitor-Follows}
use lustre_ost_performance_t.Generators.Monitoring.Loop.{MonitoringConfig, MonitoringRound, monitor}

accepted_fills_example :
    (tasks : List Task) × (Benchmark.create_task_list 3 ≡ ok tasks)
    × (renew_queue tasks (benchmark_task 9 ∷ []) ≡ (ok tt, tasks))
    × (length tasks ≡ 3)
    × ((j : ℕ) → j < 3 → get_elem? tasks j ≡ some (benchmark_task j))
unfolding validate_config
accepted_fills_example = accepted_fills 3 (pos 10) (benchmark_task 9 ∷ []) refl

abbrev waiting : Benchmark.Generator
waiting = record { run_flag = true; result_queue = []; completed_tasks = 0; start_time = none }

abbrev rounds : List Round
rounds = record { now = 1; arrived = codes "0" ∷ [] } ∷ record { now = 2; arrived = [] } ∷ []

abbrev skeleton : Task
skeleton = record { class = empty_task_class; tid = none; attributes = [] }

abbrev osts : List Text
osts = codes "0" ∷ codes "1" ∷ codes "2" ∷ []

abbrev selected : List Text
selected = codes "2" ∷ codes "0" ∷ []

abbrev task_for : Text → Task
task_for ost_idx = record skeleton {
  tid = some ost_idx;
  attributes = (codes "ost_idx", ost_idx) ∷ [];
}

abbrev monitoring : MonitoringConfig
monitoring = record { target = codes "lustre"; ost_select_list = selected; local_mode = false }

-- Three OSTs are listed; two rounds run, and the flag is down in the third, when one task is taken.
abbrev listed : MonitoringRound
listed = record {
  run_flag = true;
  taken = 0;
  output = ok (
      codes
        "lustre-OST0000-osc-1 active.\nlustre-OST0001-osc-1 active.\nlustre-OST0002-osc-1 active.");
  task_skeleton = ok skeleton;
}

abbrev seen : List MonitoringRound
seen = listed ∷ record listed { taken = 2 } ∷ record listed { run_flag = false; taken = 1 } ∷ []

monitor-Follows_example : Follows monitoring seen [] (monitor monitoring seen [])
monitor-Follows_example = monitor-Follows monitoring seen []
