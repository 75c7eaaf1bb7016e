-- ===== src/Ctrl.antt =====
-- ctrl/: the queue that processes share, its lock, the PID file and the status of a task.
pub mod SharedQueue
pub mod CriticalSection
pub mod PidControl
mod Tests
use lustre_ost_performance_t.Base.{ℕ}
use lustre_ost_performance_t.Text.{Text}

-- ctrl/task_status_item.py; the program has the numbers 1 and 2 for the two states.
abbrev pub assigned : ℕ
assigned = 1

abbrev pub finished : ℕ
finished = 2

pub record TaskStatusItem : Type 0 where
  pub tid : Text
  pub state : ℕ
  pub controller : Text
  pub timestamp : ℕ
