-- ===== src/Worker/Results.antt =====
-- Which TIDs a worker pushes, and what its item shows.
use lustre_ost_performance_t.Base.{
  Bool-cases, List, Result, [], append-nil, append_assoc, arith, err, false, inl, inr, is_nil, ltb,
  ok, refl, some, subst, sym, true, value_error, ℕ, ◌%◌, ◌++◌, ◌<◌, ◌∷◌, ◌≡◌, ◌≤◌,
}
use lustre_ost_performance_t.Text.{Text}
use lustre_ost_performance_t.Task.{Task}
use lustre_ost_performance_t.Ctrl.SharedQueue.{push, pop}
use lustre_ost_performance_t.Worker.{
  ready, encoded_length, Worker, Round, set_state, set_task_name, set_timestamp, show_executing,
  push_result, show_done, work, signal_handler_shutdown, iterate, loop, show_tid,
}

-- A task with a TID that fits into the array of an item.
abbrev pub Fits : Task → Text → Type 0
Fits task t = (task.tid ≡ some t) × (is_nil t ≡ false) × (encoded_length t ≤ 64)

-- The worker behind a task, whose TID was pushed.
abbrev pub worked : ℕ → Text → Worker → Worker
worked now t w = record w {
  item = record { state = ready; tid = []; timestamp = now % 4294967296 };
  result_queue = w.result_queue ++ t ∷ [];
}

work-Fits :
    (r : Round) (task : Task) (t : Text) (w : Worker)
    → Fits task t
    → work r task w ≡ (ok tt, worked r.ended t w)
unfolding work show_executing show_tid set_state set_task_name set_timestamp push_result push
    show_done encoded_length
work-Fits r task t w (e, n, l) = rw e (elim (Bool-cases (ltb 64 (encoded_length t))) [
  | inl long ↦ absurd (ground arith)
  | inr short ↦ rw (short, n) refl
])

-- These are the TIDs of the tasks, and they fit.
pub data AllFit : List Task → List Text → Type 0 where
  no_task : AllFit [] []
  one_task :
      (task : Task) (t : Text) (tasks : List Task) (ts : List Text)
      → Fits task t
      → AllFit tasks ts
      → AllFit (task ∷ tasks) (t ∷ ts)

-- In each of these rounds a task waits in the queue and the signal does not come; the last list has the
-- tasks that are popped.
pub data AllServe : List Round → List Task → List Task → Type 0 where
  no_round : (queue : List Task) → AllServe [] queue []
  one_round :
      (r : Round) (task : Task) (rounds : List Round) (rest popped : List Task)
      → r.signalled ≡ false
      → AllServe rounds (rest ++ r.arrived) popped
      → AllServe (r ∷ rounds) (task ∷ rest) (task ∷ popped)

abbrev pub running : List Task → Worker → Worker
running tasks w = record w { run_flag = true; waiting = false; task_queue = tasks }

abbrev pub Pushed : List Text → Result (Unit {0}) × Worker → Type 0
Pushed results (done, w) = (done ≡ ok tt) × (w.result_queue ≡ results) × (w.run_flag ≡ true)

-- A running worker that gets no signal, and finds a task in its queue in each round, pushes the TIDs of the
-- tasks that it pops, each one exactly once and in their order, whether `execute` raises or not, and goes
-- on running, if every one of these TIDs is not empty and has at most 64 bytes.
pub loop-Pushed :
    (rounds : List Round) (queue popped : List Task) (ts : List Text) (w : Worker)
    → AllServe rounds queue popped
    → AllFit popped ts
    → Pushed (w.result_queue ++ ts) (loop rounds (running queue w))
unfolding loop iterate pop signal_handler_shutdown
loop-Pushed [] queue [] [] w serve fit = (refl, sym (append-nil w.result_queue), refl)
loop-Pushed [] queue [] (t ∷ ts) w serve fit = elim fit [ ]
loop-Pushed [] queue (task ∷ popped) ts w serve fit = elim serve [ ]
loop-Pushed (r ∷ rounds) [] popped ts w serve fit = elim serve [ ]
loop-Pushed (r ∷ rounds) (task ∷ rest) [] ts w serve fit = elim serve [ ]
loop-Pushed (r ∷ rounds) (task ∷ rest) (task' ∷ popped) [] w serve fit = elim fit [ ]
loop-Pushed (r ∷ rounds) (task ∷ rest) (_ ∷ popped) (t ∷ ts) w (one_round _ _ _ _ _ c serve)
      (one_task _ _ _ _ f fit) =
    let w' = running (rest ++ r.arrived) w in
    rw (c, work-Fits r task t w' f)
      (subst (λ l. Pushed l (loop rounds (worked r.ended t w')))
        (append_assoc w.result_queue (t ∷ []) ts)
        (loop-Pushed rounds (rest ++ r.arrived) popped ts (worked r.ended t w') serve fit))

-- A task whose TID has more than 64 bytes ends the worker: the round raises, and the TID is not pushed,
-- whether or not the signal comes.
pub long_tid_raises :
    (r : Round) (task : Task) (t : Text) (rest : List Task) (w : Worker)
    → task.tid ≡ some t
    → 64 < encoded_length t
    → ((iterate r (running (task ∷ rest) w)).0 ≡ err value_error)
      × ((iterate r (running (task ∷ rest) w)).1.result_queue ≡ w.result_queue)
unfolding iterate pop signal_handler_shutdown work show_executing show_tid set_state set_task_name
long_tid_raises r task t rest w e l = elim (Bool-cases (ltb 64 (encoded_length t))) [
  | inl long ↦ elim (Bool-cases r.signalled) [
    | inl c ↦ rw (e, long, c) (refl, refl)
    | inr c ↦ rw (e, long, c) (refl, refl)
  ]
  | inr short ↦ absurd (ground arith)
]
