-- ===== src/Ctrl/PidControl.antt =====
-- ctrl/pid_control.py: one running instance for each PID file. The state is the PID file, absent
-- or with its content; what else the file system and /proc tell is an argument.
pub mod OneInstance
use lustre_ost_performance_t.Base.{
  Bool, Option, Result, [], err, false, if◌then◌else◌, index_error, none, ok, os_error,
  runtime_error, some, true, ◌++◌, ◌∷◌,
}
use lustre_ost_performance_t.Base.Exec.{Exec}
use lustre_ost_performance_t.Text.{Text, codes, split, text_eq}

abbrev pub PidFile : Type 0
PidFile = Option Text

pub record System : Type 0 where
  pub dir_exists : Bool
  pub process_exists : Text → Bool
  pub now : Text

pub record PidControl : Type 0 where
  pub pid : Text

-- `none` stands for the -1 of a missing file, which equals no PID.
unfoldable pub read_pid_from_file : PidFile → Result (Option Text)
read_pid_from_file none = ok none
read_pid_from_file (some []) = err runtime_error
read_pid_from_file (some (c ∷ content)) = elim (split b';' (c ∷ content)) [
  | [] ↦ err index_error
  | pid ∷ rest ↦ ok (some pid)
]

unfoldable pub create_pid_file : System → PidControl → Exec PidFile Bool
create_pid_file sys control file =
    if sys.dir_exists then (ok true, some (control.pid ++ b';' ∷ sys.now)) else (err os_error, file)

-- `read_pid_from_file() == self._pid`
abbrev pub is_own : PidControl → Option Text → Bool
is_own control none = false
is_own control (some pid) = text_eq pid control.pid

-- `/proc/-1` for a missing file is never asked for: the file is there in that branch.
abbrev pub is_alive : System → Option Text → Bool
is_alive sys none = sys.process_exists (codes "-1")
is_alive sys (some pid) = sys.process_exists pid

unfoldable pub lock : System → PidControl → Exec PidFile Bool
unfolding create_pid_file
lock sys control none = create_pid_file sys control none
lock sys control (some content) = elim (read_pid_from_file (some content)) [
  | err e ↦ (err e, some content)
  | ok pid_from_file ↦
      if is_own control pid_from_file
      then (err runtime_error, some content)
      else if is_alive sys pid_from_file
      then (ok false, some content)
      else create_pid_file sys control none
]

unfoldable pub unlock : PidControl → Exec PidFile (Unit {0})
unlock control file = elim (read_pid_from_file file) [
  | err e ↦ (err e, file)
  | ok pid ↦ if is_own control pid then (ok tt, none) else (ok tt, file)
]
