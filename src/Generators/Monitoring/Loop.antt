-- ===== src/Generators/Monitoring/Loop.antt =====
-- task/generator/lustre_monitoring_task_generator.py: the loop in `run`, which fills the queue again and
-- again.
use lustre_ost_performance_t.Base.{
  Bool, List, Result, [], drop, err, if◌then◌else◌, map, ok, ℕ, ◌∷◌,
}
use lustre_ost_performance_t.Base.Exec.{Exec, lift, ◌>>=◌}
use lustre_ost_performance_t.Text.{Text}
use lustre_ost_performance_t.Task.{Task}
use lustre_ost_performance_t.Lfs.Items.{create_ost_item_list}
use lustre_ost_performance_t.Generators.{renew_queue}
use lustre_ost_performance_t.Generators.Monitoring.{
  create_ost_idx_list, create_local_ost_idx_list, create_task_list, indices_from,
}

pub record MonitoringConfig : Type 0 where
  pub target : Text
  pub ost_select_list : List Text
  pub local_mode : Bool

-- What a round finds: the flag, how many tasks the master took since the last one, what
-- `lfs check osts` prints, and the task that the XML file describes.
pub record MonitoringRound : Type 0 where
  pub run_flag : Bool
  pub taken : ℕ
  pub output : Result Text
  pub task_skeleton : Result Task

-- The indices of the OSTs that are there.
unfoldable pub known_ost_idx_list : MonitoringConfig → MonitoringRound → List Text
known_ost_idx_list cfg r =
    if cfg.local_mode
    then indices_from 0 100
    else map (λ item. item.ost_idx) (create_ost_item_list cfg.target r.output)

unfoldable pub ost_idx_list_of : MonitoringConfig → MonitoringRound → Result (List Text)
ost_idx_list_of cfg r =
    if cfg.local_mode
    then create_local_ost_idx_list cfg.ost_select_list
    else create_ost_idx_list cfg.ost_select_list
        (map (λ item. item.ost_idx) (create_ost_item_list cfg.target r.output))

-- A round of the loop.
unfoldable pub fill_again : MonitoringConfig → MonitoringRound → Exec (List Task) (Unit {0})
fill_again cfg r = do
  ost_idx_list ← lift (ost_idx_list_of cfg r)
  task_skeleton ← lift r.task_skeleton
  task_list ← lift (create_task_list task_skeleton ost_idx_list)
  renew_queue task_list

-- Where the loop stands after some rounds: `os._exit(0)` ends it when the flag is down, and
-- `os._exit(1)` when a round raised.
pub data Ending : Type 0 where
  on_run : Ending
  exit_0 : Ending
  exit_1 : Ending

abbrev pub after_round :
    Result (Unit {0}) × List Task → (List Task → Ending × List Task) → Ending × List Task
after_round (err e, q) next = (exit_1, q)
after_round (ok u, q) next = next q

unfoldable pub monitor : MonitoringConfig → List MonitoringRound → List Task → Ending × List Task
monitor cfg [] q = (on_run, q)
monitor cfg (r ∷ rounds) q =
    let next = after_round (fill_again cfg r (drop r.taken q)) (monitor cfg rounds) in
    if r.run_flag then next else (exit_0, drop r.taken q)
