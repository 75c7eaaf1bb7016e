-- ===== src/Ctrl/CriticalSection.antt =====
-- ctrl/critical_section.py: a lock that is taken for a block of code, and given back at its end
-- only if it was taken. The lock itself is Python's: free, or held by a process.
pub mod Exclusion
use lustre_ost_performance_t.Base.{Bool, Option, false, if◌then◌else◌, none, some, true, ℕ}

pub record CriticalSection : Type 0 where
  pub lock_acquired : Bool

-- The holder of a lock.
abbrev pub Lock : Type 0
Lock = Option ℕ

-- `acquire` of process `p` at the time when it returns: with a timeout it may return while the
-- lock is held, and then it has not taken it.
unfoldable pub acquire : ℕ → Lock → Bool × Lock
acquire p none = (true, some p)
acquire p (some q) = (false, some q)

unfoldable pub enter : ℕ → CriticalSection → Lock → CriticalSection × Lock
unfolding acquire
enter p section lock =
    let (done, lock') = acquire p lock in (record section { lock_acquired = done }, lock')

unfoldable pub exit : CriticalSection → Lock → CriticalSection × Lock
exit section lock =
    if section.lock_acquired
    then (record section { lock_acquired = false }, none)
    else (section, lock)

unfoldable pub is_locked : CriticalSection → Bool
is_locked section = section.lock_acquired
