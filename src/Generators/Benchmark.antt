-- ===== src/Generators/Benchmark.antt =====
-- task/generator/benchmark_task_generator.py: a number of tasks, and the wait for as many results.
use lustre_ost_performance_t.Base.{
  ==_refl, Bool, Bool-cases, List, Option, Result, [], ap, arith, err, false, get_elem?, if_false,
  if_true, if◌then◌else◌, inl, inr, leb, length, length-append, ltb, not, ok, out_of_range_error,
  raise_if, refl, runtime_error, some, subst, suc, sym, true, zero, ℕ, ◌&&◌, ◌++◌, ◌+◌, ◌<◌, ◌==◌,
  ◌>>◌, ◌∙◌, ◌∷◌, ◌≡◌, ◌≤◌,
}
use lustre_ost_performance_t.Text.{Text}
use lustre_ost_performance_t.Text.Number.{ℤ, pos, negsuc, str_of}
use lustre_ost_performance_t.Task.{Task, benchmark_task_class}
use lustre_ost_performance_t.Ctrl.SharedQueue.Order.{fill-clear}
use lustre_ost_performance_t.Generators.{renew_queue}

-- `low <= n <= high`
abbrev pub in_range : ℕ → ℕ → ℤ → Bool
in_range low high (pos n) = leb low n && leb n high
in_range low high (negsuc n) = false

unfoldable pub validate_config : (num_tasks poll_time_ms : ℤ) → Result (Unit {0})
validate_config num_tasks poll_time_ms = do
  raise_if (not (in_range 1 100000000 num_tasks)) out_of_range_error
  raise_if (not (in_range 1 10000 poll_time_ms)) out_of_range_error

abbrev pub benchmark_task : ℕ → Task
benchmark_task i = record { class = benchmark_task_class; tid = some (str_of i); attributes = [] }

-- The tasks for `range(i, i + n)`
unfoldable pub tasks_from : ℕ → ℕ → List Task
tasks_from i zero = []
tasks_from i (suc n) = benchmark_task i ∷ tasks_from (suc i) n

unfoldable pub create_task_list : ℕ → Result (List Task)
unfolding tasks_from
create_task_list num_tasks =
    let task_list = tasks_from 0 num_tasks in
    if not (num_tasks == length task_list) then err runtime_error else ok task_list

pub record Generator : Type 0 where
  pub run_flag : Bool
  pub result_queue : List Text
  pub completed_tasks : ℕ
  pub start_time : Option ℕ

-- The clock, and the TIDs that the master pushed since the last round.
pub record Round : Type 0 where
  pub now : ℕ
  pub arrived : List Text

abbrev pub receive : Round → Generator → Generator
receive r g = record g { result_queue = g.result_queue ++ r.arrived }

unfoldable pub take_time : ℕ → Generator → Generator
take_time now g = if g.completed_tasks == 1 then record g { start_time = some now } else g

unfoldable pub complete : List Text → Generator → Generator
complete [] g = g
complete (tid ∷ rest) g = record g { result_queue = rest; completed_tasks = g.completed_tasks + 1 }

-- A round of the loop in `run`.
unfoldable pub iterate : ℕ → Round → Generator → Generator
unfolding take_time complete
iterate len_task_list r g0 =
    let g = receive r g0 in
    if ltb g.completed_tasks len_task_list
    then complete g.result_queue (take_time r.now g)
    else record g { run_flag = false }

-- `while self._run_flag`
unfoldable pub run : ℕ → List Round → Generator → Generator
unfolding iterate
run len_task_list [] g = g
run len_task_list (r ∷ rounds) g =
    let next = run len_task_list rounds (iterate len_task_list r g) in
    if g.run_flag then next else g

tasks_from-length : (n i : ℕ) → length (tasks_from i n) ≡ n
unfolding tasks_from
tasks_from-length zero i = refl
tasks_from-length (suc n) i = ap suc (tasks_from-length n (suc i))

get_elem?-tasks_from :
    (n i j : ℕ) → j < n → get_elem? (tasks_from i n) j ≡ some (benchmark_task (i + j))
unfolding tasks_from
get_elem?-tasks_from zero i j l = absurd (omega arith)
get_elem?-tasks_from (suc n) i zero l = ap (λ k. some (benchmark_task k)) (omega arith)
get_elem?-tasks_from (suc n) i (suc j) l =
    get_elem?-tasks_from n (suc i) j (omega arith) ∙ ap (λ k. some (benchmark_task k)) (omega arith)

-- With an accepted number of tasks the generator makes that many, whatever the queue held it then holds
-- exactly these, and the TID of each one is its place in the queue.
pub accepted_fills :
    (n : ℕ) (poll : ℤ) (q : List Task)
    → validate_config (pos n) poll ≡ ok tt
    → (tasks : List Task) × (create_task_list n ≡ ok tasks)
      × (renew_queue tasks q ≡ (ok tt, tasks))
      × (length tasks ≡ n)
      × ((j : ℕ) → j < n → get_elem? tasks j ≡ some (benchmark_task j))
unfolding validate_config
accepted_fills zero poll q h = absurd (ground arith)
accepted_fills (suc n) poll q h = (
  tasks_from 0 (suc n),
  unfold create_task_list in rw (tasks_from-length (suc n) 0, ==_refl (suc n)) refl,
  unfold tasks_from in unfold renew_queue in fill-clear (benchmark_task 0) (tasks_from 1 n) q,
  tasks_from-length (suc n) 0,
  λ j l. get_elem?-tasks_from (suc n) 0 j l ∙ ap (λ k. some (benchmark_task k)) (omega arith),
)

unfoldable pub all_arrived : List Round → ℕ
all_arrived [] = 0
all_arrived (r ∷ rounds) = length r.arrived + all_arrived rounds

-- Results are counted once, and the loop goes on until there are enough.
pub record Accounts (len_task_list seen : ℕ) (g : Generator) : Type 0 where
  pub counted : g.completed_tasks + length g.result_queue ≡ seen
  pub finished : g.run_flag ≡ false → len_task_list ≤ g.completed_tasks

-- The clock is no part of the account.
take_time-eq :
    (now : ℕ) (g : Generator)
    → ((take_time now g).completed_tasks ≡ g.completed_tasks)
      × ((take_time now g).result_queue ≡ g.result_queue)
      × ((take_time now g).run_flag ≡ g.run_flag)
unfolding take_time
take_time-eq now g = elim (Bool-cases (g.completed_tasks == 1)) [
  | inl e ↦ rw (e, take_time) (refl, refl, refl)
  | inr e ↦ rw (e, take_time) (refl, refl, refl)
]

complete-Accounts :
    (n seen : ℕ) (q : List Text) (g : Generator)
    → g.completed_tasks + length q ≡ seen
    → g.result_queue ≡ q
    → g.run_flag ≡ true
    → Accounts n seen (complete q g)
unfolding complete
complete-Accounts n seen [] g e r on = record {
  counted = subst (λ q. g.completed_tasks + length q ≡ seen) (sym r) e;
  finished = λ off. absurd (cc (on, off));
}
complete-Accounts n seen (tid ∷ q) g e r on = record {
  counted = omega (arith, e);
  finished = λ off. absurd (cc (on, off));
}

iterate-Accounts :
    (n seen : ℕ) (r : Round) (g : Generator)
    → g.run_flag ≡ true
    → Accounts n seen g
    → Accounts n (seen + length r.arrived) (iterate n r g)
unfolding iterate
iterate-Accounts n seen r g on h =
    let g' = receive r g in
    let (c, q, f) = take_time-eq r.now g' in
    let total : g.completed_tasks + length g'.result_queue ≡ seen + length r.arrived =
      omega (arith, h.counted, length-append g.result_queue r.arrived) in
    elim (Bool-cases (ltb g.completed_tasks n)) [
      | inl e ↦
          rw (e, iterate)
            (complete-Accounts n (seen + length r.arrived) g'.result_queue (take_time r.now g')
              (ap (λ k. k + length g'.result_queue) c ∙ total) q (f ∙ on))
      | inr e ↦ rw (e, iterate) (record { counted = total; finished = λ off. ground arith })
    ]

Waits : ℕ → ℕ → Generator → Type 0
Waits n total g = g.run_flag ≡ false → (n ≤ g.completed_tasks) × (g.completed_tasks ≤ total)

Accounts-Waits :
    (n seen total : ℕ) (g : Generator) → seen ≤ total → Accounts n seen g → Waits n total g
unfolding Waits
Accounts-Waits n seen total g l h off = (h.finished off, omega (arith, h.counted, l))

run-Waits :
    (n seen : ℕ) (rounds : List Round) (g : Generator)
    → Accounts n seen g
    → Waits n (seen + all_arrived rounds) (run n rounds g)
unfolding run all_arrived
run-Waits n seen [] g h = Accounts-Waits n seen (seen + 0) g (omega arith) h
run-Waits n seen (r ∷ rounds) g h = elim (Bool-cases g.run_flag) [
  | inr off ↦
      subst (Waits n (seen + (length r.arrived + all_arrived rounds)))
        (sym (if_false g.run_flag _ _ off))
        (Accounts-Waits n seen (seen + (length r.arrived + all_arrived rounds)) g (omega arith) h)
  | inl on ↦
      subst (Waits n (seen + (length r.arrived + all_arrived rounds)))
        (sym (if_true g.run_flag _ _ on))
        (subst (λ k. Waits n k (run n rounds (iterate n r g))) (omega arith)
          (run-Waits n (seen + length r.arrived) rounds (iterate n r g)
            (iterate-Accounts n seen r g on h)))
]

-- With no signal to stop it, the generator of the benchmark leaves its loop only after it has counted a
-- result for each task that it made, and it counts no result that had not been counted or queued before and
-- did not arrive since.
pub run_waits :
    (n : ℕ) (rounds : List Round) (g : Generator)
    → g.run_flag ≡ true
    → (run n rounds g).run_flag ≡ false
    → (n ≤ (run n rounds g).completed_tasks)
      × ((run n rounds g).completed_tasks
          ≤ g.completed_tasks + length g.result_queue + all_arrived rounds)
unfolding Waits
run_waits n rounds g on off =
    run-Waits n (g.completed_tasks + length g.result_queue) rounds g
      (record { counted = refl; finished = λ stopped. absurd (cc (on, stopped)) }) off
