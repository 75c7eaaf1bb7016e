-- ===== src/Ctrl/CriticalSection/Exclusion.antt =====
-- Any number of processes with sections over one lock, in any interleaving.
use lustre_ost_performance_t.Base.{
  Bool, arith, false, if◌then◌else◌, none, some, true, ℕ, ◌==◌, ◌≡◌,
}
use lustre_ost_performance_t.Ctrl.CriticalSection.{CriticalSection, Lock, enter, exit, is_locked}

-- A process in its section over a condition may wait there, as the controller does for results:
-- `wait` of a condition gives the lock back and takes it again before it returns, notified or not,
-- while the section stays as it is.
pub record System : Type 0 where
  pub lock : Lock
  pub section : ℕ → CriticalSection
  pub waits : ℕ → Bool

abbrev update : {A : Type 0} → (ℕ → A) → ℕ → A → ℕ → A
update f p c q = if p == q then c else f q

-- A process outside its section enters, one leaves its `with` block, taken or not, one starts to
-- wait in its section, or one ends its wait when the lock is free.
pub data Step (s : System) : System → Type 0 where
  entering :
      (p : ℕ)
      → is_locked (s.section p) ≡ false
      → Step s (record s {
        lock = (enter p (s.section p) s.lock).1;
        section = update s.section p (enter p (s.section p) s.lock).0;
      })
  leaving :
      (p : ℕ)
      → s.waits p ≡ false
      → Step s (record s {
        lock = (exit (s.section p) s.lock).1;
        section = update s.section p (exit (s.section p) s.lock).0;
      })
  waiting :
      (p : ℕ)
      → is_locked (s.section p) ≡ true
      → s.waits p ≡ false
      → Step s (record s { lock = none; waits = update s.waits p true })
  waking :
      (p : ℕ)
      → s.waits p ≡ true
      → s.lock ≡ none
      → Step s (record s { lock = some p; waits = update s.waits p false })

pub data Reach (s : System) : System → Type 0 where
  here : Reach s s
  next : {t u : System} → Reach s t → Step t u → Reach s u

-- A process that is in its section and does not wait there has the lock.
pub record IsExclusive (s : System) : Type 0 where
  pub owner : (p : ℕ) → is_locked (s.section p) ≡ true → s.waits p ≡ false → s.lock ≡ some p

Step-IsExclusive : {s t : System} → Step s t → IsExclusive s → IsExclusive t
unfolding enter exit is_locked
Step-IsExclusive {s} (entering p out) h = record {
  owner = λ q. ground (arith, h.owner q, h.owner p);
}
Step-IsExclusive {s} (leaving p on) h = record { owner = λ q. ground (arith, h.owner q, h.owner p) }
Step-IsExclusive {s} (waiting p own on) h = record {
  owner = λ q. ground (arith, h.owner q, h.owner p);
}
Step-IsExclusive {s} (waking p off free) h = record {
  owner = λ q. ground (arith, h.owner q, h.owner p);
}

Reach-IsExclusive : {s t : System} → Reach s t → IsExclusive s → IsExclusive t
Reach-IsExclusive here h = h
Reach-IsExclusive (next r st) h = Step-IsExclusive st (Reach-IsExclusive r h)

abbrev pub start : System
start = record { lock = none; section = λ p. record { lock_acquired = false }; waits = λ p. false }

-- From a free lock, however the processes enter and leave their sections, wait in them and wake up, two
-- of them are never in their sections at once, unless one of the two waits there.
pub sections-exclude :
    (s : System) (p q : ℕ)
    → Reach start s
    → is_locked (s.section p) ≡ true
    → is_locked (s.section q) ≡ true
    → s.waits p ≡ false
    → s.waits q ≡ false
    → p ≡ q
sections-exclude s p q r hp hq wp wq =
    let e = Reach-IsExclusive r (record { owner = λ p h w. unfold is_locked in cc }) in
    ground (arith, e.owner p hp wp, e.owner q hq wq)
