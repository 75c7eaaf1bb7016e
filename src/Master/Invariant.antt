-- ===== src/Master/Invariant.antt =====
-- What holds of the master at every time, also with signals and a task generator that works on
-- the shared queues between the iterations.
use lustre_ost_performance_t.Base.{
  List, Option-cases, Result, [], arith, err, false, inl, inr, ok, some, true, ℕ, ◌+◌, ◌<◌, ◌≡◌,
  ◌⊎◌,
}
use lustre_ost_performance_t.Text.{Text, text_eq_iff}
use lustre_ost_performance_t.Dict.{get}
use lustre_ost_performance_t.Dict.Laws.{get-put}
use lustre_ost_performance_t.Task.{Task}
use lustre_ost_performance_t.Ctrl.{TaskStatusItem, assigned, finished}
use lustre_ost_performance_t.Master.{
  Master, Config, Round, take_task, check_status, do_task_assign, assigned_item, stop_if_all_down,
  stop_task_distribution,
}
use lustre_ost_performance_t.Master.Loop.{handle, on_error, settle, iterate}
use lustre_ost_performance_t.Master.Frame.{IsClosed, handle-Keeps}

-- One iteration while the loop runs, a signal, or the task generator.
pub data Step (cfg : Config) (s : Master) : Master → Type 0 where
  iteration : (r : Round) → s.run_flag ≡ true → Step cfg s (iterate cfg r s)
  signal : Step cfg s (stop_task_distribution s)
  generator :
      (tasks : List Task) (results : List Text)
      → Step cfg s (record s { task_queue = tasks; result_queue = results })

pub data Reach (cfg : Config) (s : Master) : Master → Type 0 where
  here : Reach cfg s s
  next : {t u : Master} → Reach cfg s t → Step cfg t u → Reach cfg s u

-- The statuses are filed under their TIDs, in one of two states; the loop has run into fewer than
-- 100 errors as long as it runs; after an error no task is distributed.
pub record IsSound (s : Master) : Type 0 where
  pub filed :
      (t : Text) (item : TaskStatusItem)
      → get s.statuses t ≡ some item
      → (item.tid ≡ t) × ((item.state ≡ assigned) ⊎ (item.state ≡ finished))
  pub few_errors : s.run_flag ≡ true → s.error_count < 100
  pub stopped : 0 < s.error_count → s.task_distribution ≡ false

take_task-IsSound : (r : Round) (s : Master) → IsSound s → IsSound (take_task r s).1
unfolding take_task
take_task-IsSound r s h = record {
  filed = λ t item e. h.filed t item (ground arith);
  few_errors = λ on. ground (arith, h.few_errors);
  stopped = λ e. ground (arith, h.stopped);
}

stop_if_all_down-IsSound : (s : Master) → IsSound s → IsSound (stop_if_all_down s)
unfolding stop_if_all_down
stop_if_all_down-IsSound s h = record {
  filed = λ t item e. h.filed t item (ground arith);
  few_errors = λ on. ground (arith, h.few_errors);
  stopped = λ e. ground (arith, h.stopped);
}

IsSound-closed : (cfg : Config) (r : Round) → IsClosed cfg r IsSound
IsSound-closed cfg r = record {
  hears = λ s d h. record { filed = h.filed; few_errors = h.few_errors; stopped = h.stopped };
  replies = λ s log h. record { filed = h.filed; few_errors = h.few_errors; stopped = h.stopped };
  takes = take_task-IsSound r;
  assigns = λ s c t h. record {
    filed = λ u item e.
        ground
          (arith, get-put s.statuses t u (assigned_item r c t), text_eq_iff t u, h.filed u item);
    few_errors = h.few_errors;
    stopped = h.stopped;
  };
  finishes = λ s t item results e h. record {
    filed = λ u item' e'. ground (
      arith,
      get-put s.statuses t u (record item { state = finished; timestamp = r.written }),
      text_eq_iff t u,
      h.filed u item',
      h.filed t item,
    );
    few_errors = h.few_errors;
    stopped = h.stopped;
  };
  stops = λ s h. stop_if_all_down-IsSound s h;
}

-- One more error: the count rises, the distribution ends, and at 100 the loop ends.
on_error-IsSound : (s : Master) → IsSound s → IsSound (on_error s)
unfolding on_error
on_error-IsSound s h = record {
  filed = λ t item e. h.filed t item (ground arith);
  few_errors = λ on. ground (arith, h.few_errors);
  stopped = λ e. ground arith;
}

settle-IsSound : (p : Result (Unit {0}) × Master) → IsSound p.1 → IsSound (settle p)
unfolding settle
settle-IsSound (ok u, s) h = h
settle-IsSound (err e, s) h = on_error-IsSound s h

stop_task_distribution-IsSound : (s : Master) → IsSound s → IsSound (stop_task_distribution s)
unfolding stop_task_distribution
stop_task_distribution-IsSound s h = record {
  filed = λ t item e. h.filed t item (ground arith);
  few_errors = λ on. ground (arith, h.few_errors);
  stopped = λ e. ground (arith, h.stopped);
}

Step-IsSound : {cfg : Config} {s t : Master} → Step cfg s t → IsSound s → IsSound t
unfolding iterate
Step-IsSound {cfg} {s} (iteration r on) h =
    settle-IsSound (handle cfg r s) (handle-Keeps cfg r IsSound (IsSound-closed cfg r) s h)
Step-IsSound {cfg} {s} signal h = stop_task_distribution-IsSound s h
Step-IsSound (generator tasks results) h = record {
  filed = h.filed;
  few_errors = h.few_errors;
  stopped = h.stopped;
}

-- The state at the start of the loop, with the configured waiting time.
abbrev pub start : ℕ → Master
start wait_duration = record {
  task_distribution = true;
  run_flag = true;
  error_count = 0;
  controller_wait_duration = wait_duration;
  heartbeats = [];
  statuses = [];
  task_queue = [];
  result_queue = [];
  sent = [];
}

-- At every time every status is filed under its TID in one of the two states, the loop runs only
-- while fewer than 100 errors were caught, and after an error no task is distributed.
pub Reach-IsSound : (cfg : Config) (d : ℕ) (s : Master) → Reach cfg (start d) s → IsSound s
unfolding get
Reach-IsSound cfg d s here = record {
  filed = λ t item e. cc;
  few_errors = λ on. omega arith;
  stopped = λ e. absurd (omega arith);
}
Reach-IsSound cfg d s (next r st) = Step-IsSound st (Reach-IsSound cfg d _ r)

do_task_assign_decided :
    (cfg : Config) (now : ℕ) (item : TaskStatusItem)
    → (item.state ≡ assigned) ⊎ (item.state ≡ finished)
    → (do_task_assign cfg now item ≡ ok true)
      ⊎ (do_task_assign cfg now item ≡ ok false)
        × (item.state ≡ assigned)
        × (now < item.timestamp + cfg.task_resend_timeout)
unfolding do_task_assign
do_task_assign_decided cfg now item (inl a) = ground arith
do_task_assign_decided cfg now item (inr f) = ground arith

-- The undefined state for which a request would raise is never met: of every TID it is decided
-- whether it is assigned, and it is not only if its task is assigned and its time is not up.
pub check_status_decided :
    (cfg : Config) (d now : ℕ) (s : Master) (t : Text)
    → Reach cfg (start d) s
    → (check_status cfg now (get s.statuses t) ≡ ok true)
      ⊎ (item : TaskStatusItem) × (check_status cfg now (get s.statuses t) ≡ ok false)
        × (get s.statuses t ≡ some item)
        × (item.state ≡ assigned)
        × (now < item.timestamp + cfg.task_resend_timeout)
unfolding check_status
check_status_decided cfg d now s t r = elim (Option-cases (get s.statuses t)) [
  | inl e ↦ inl (rw (e, check_status))
  | inr (item, e) ↦
      elim (do_task_assign_decided cfg now item ((Reach-IsSound cfg d s r).filed t item e).1) [
        | inl yes_ ↦ inl (rw (e, check_status) yes_)
        | inr (no_, a, live) ↦ inr (item, rw (e, check_status) no_, e, a, live)
      ]
]
