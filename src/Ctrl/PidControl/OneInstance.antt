-- ===== src/Ctrl/PidControl/OneInstance.antt =====
-- A PID file keeps a second instance out while the first one lives.
use lustre_ost_performance_t.Base.{
  Bool-cases, [], arith, false, inl, inr, is_nil, none, ok, some, true, ℕ, ◌++◌, ◌∷◌, ◌≡◌, ◌≢◌,
}
use lustre_ost_performance_t.Text.{Text, contains, text_eq, text_eq_iff, text_eq_refl}
use lustre_ost_performance_t.Text.Split.{split-append}
use lustre_ost_performance_t.Text.Number.{str_of}
use lustre_ost_performance_t.Text.RoundTrip.{
  str_of-IsDigits, IsDigits-lacks, str_of-ne-nil, str_of-injective,
}
use lustre_ost_performance_t.Ctrl.PidControl.{
  PidFile, System, PidControl, read_pid_from_file, lock, unlock,
}

-- The object of a process: `str(os.getpid())`.
abbrev pub process : ℕ → PidControl
process n = record { pid = str_of n }

read-written :
    (s now : Text)
    → is_nil s ≡ false
    → contains b';' s ≡ false
    → read_pid_from_file (some (s ++ b';' ∷ now)) ≡ ok (some s)
unfolding read_pid_from_file
read-written [] now h k = cc
read-written (c ∷ s) now h k = ground (arith, split-append b';' (c ∷ s) now)

read-process :
    (n : ℕ) (now : Text) → read_pid_from_file (some (str_of n ++ b';' ∷ now)) ≡ ok (some (str_of n))
read-process n now =
    read-written (str_of n) now (str_of-ne-nil n)
      (IsDigits-lacks b';' (str_of n) (str_of-IsDigits n) (inr (omega arith)))

differs : (a b : ℕ) → a ≢ b → text_eq (str_of a) (str_of b) ≡ false
differs a b ne = elim (Bool-cases (text_eq (str_of a) (str_of b))) [
  | inl e ↦ absurd (ne (str_of-injective a b ((text_eq_iff _ _).0 e)))
  | inr e ↦ e
]

lock-writes :
    (sys : System) (control : PidControl) (f g : PidFile)
    → lock sys control f ≡ (ok true, g)
    → g ≡ some (control.pid ++ b';' ∷ sys.now)
unfolding lock
lock-writes sys control none g h = ground arith
lock-writes sys control (some content) g h = ground arith

-- Once process `a` has the lock and lives, another process `b` is refused and leaves the file
-- alone, also when its `with` block ends; and the end of the block of `a` removes the file.
pub lock_excludes :
    (sys later : System) (a b : ℕ) (f g : PidFile)
    → lock sys (process a) f ≡ (ok true, g)
    → later.process_exists (str_of a) ≡ true
    → a ≢ b
    → (lock later (process b) g ≡ (ok false, g))
      × (unlock (process b) g ≡ (ok tt, g))
      × (unlock (process a) g ≡ (ok tt, none))
unfolding lock unlock
lock_excludes sys later a b f g h alive ne =
    let written = lock-writes sys (process a) f g h in
    let read = read-process a sys.now in
    let other = differs a b ne in
    let same = text_eq_refl (str_of a) in (ground arith, ground arith, ground arith)

-- A PID file whose process is gone is taken over.
pub lock_stale :
    (sys : System) (a b : ℕ) (now : Text)
    → sys.dir_exists ≡ true
    → sys.process_exists (str_of a) ≡ false
    → a ≢ b
    → lock sys (process b) (some (str_of a ++ b';' ∷ now))
      ≡ (ok true, some (str_of b ++ b';' ∷ sys.now))
unfolding lock
lock_stale sys a b now dir dead ne = ground (arith, read-process a now, differs a b ne)
