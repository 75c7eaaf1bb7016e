-- ===== src/Ctrl/Tests.antt =====
-- Concrete runs of the queue, the lock and the PID file.
use lustre_ost_performance_t.Base.{
  arith, false, if◌then◌else◌, none, ok, refl, some, true, ℕ, ◌==◌, ◌≡◌,
}
use lustre_ost_performance_t.Text.{codes, text_eq}
use lustre_ost_performance_t.Text.Number.{str_of, digits_of}
use lustre_ost_performance_t.Ctrl.CriticalSection.{enter, is_locked, acquire}
use lustre_ost_performance_t.Ctrl.CriticalSection.Exclusion.{
  start, sections-exclude, entering, waiting, here, next,
}
use lustre_ost_performance_t.Ctrl.CriticalSection.Exclusion
use lustre_ost_performance_t.Ctrl.PidControl
use lustre_ost_performance_t.Ctrl.PidControl.{lock, unlock, create_pid_file}
use lustre_ost_performance_t.Ctrl.PidControl.OneInstance.{process, lock_excludes}

-- Process 5 enters its section and waits there, and process 6 enters its own.
abbrev entered : ℕ → Exclusion.System → Exclusion.System
entered p s = record s {
  lock = (enter p (s.section p) s.lock).1;
  section = λ q. if p == q then (enter p (s.section p) s.lock).0 else s.section q;
}

abbrev waits_there : ℕ → Exclusion.System → Exclusion.System
waits_there p s = record s { lock = none; waits = λ q. if p == q then true else s.waits q }

abbrev both_inside : Exclusion.System
both_inside = entered 6 (waits_there 5 (entered 5 start))

both_are_locked :
    (is_locked (both_inside.section 5) ≡ true) × (is_locked (both_inside.section 6) ≡ true)
unfolding is_locked enter acquire
both_are_locked = (refl, refl)

abbrev six : ℕ
six = 6

sections-exclude_example : six ≡ six
unfolding is_locked enter acquire
sections-exclude_example =
    sections-exclude both_inside 6 6
      (next (next (next here (entering 5 refl)) (waiting 5 refl refl)) (entering 6 refl)) refl refl
      refl refl

abbrev sys : PidControl.System
sys = record {
  dir_exists = true;
  process_exists = λ pid. text_eq pid (codes "41");
  now = codes "noon";
}

lock_excludes_example :
    (lock sys (process 42) (some (codes "41;noon")) ≡ (ok false, some (codes "41;noon")))
    × (unlock (process 42) (some (codes "41;noon")) ≡ (ok tt, some (codes "41;noon")))
    × (unlock (process 41) (some (codes "41;noon")) ≡ (ok tt, none))
unfolding lock create_pid_file text_eq str_of digits_of
lock_excludes_example =
    lock_excludes sys sys 41 42 none (some (codes "41;noon")) refl refl (ground arith)
