-- ===== src/Controller/Retries.antt =====
-- A controller whose master does not answer any more gives up.
use lustre_ost_performance_t.Base.{
  Bool-cases, List, Option, Result, [], ap, arith, err, false, if_false, if_true, inl, inr, length,
  none, ok, refl, some, subst, sym, true, ◌++◌, ◌+◌, ◌<◌, ◌==◌, ◌∙◌, ◌∷◌, ◌≡◌, ◌≢◌, ◌≤◌, ◌⊎◌,
}
use lustre_ost_performance_t.Base.Exec.{resume}
use lustre_ost_performance_t.Msg.{to_string, Message, new_task_request}
use lustre_ost_performance_t.Controller.{
  sent, Controller, Config, Round, take_result, finished_message, message_of, or_without, request,
  without_result, found_ready_worker, choose_message, on_late, on_response, check_retries, exchange,
  handle, settle, iterate, run,
}
use lustre_ost_performance_t.Ctrl.SharedQueue.{pop_nowait}

module _ (cfg : Config) (r : Round) where
  -- A message was chosen, if none was refused; the variables of the retries are as before.
  abbrev Sends : Controller → Result (Option Message) × Controller → Type 0
  Sends c (err e, c') = Unit {0}
  Sends c (ok none, c') = true ≡ false
  Sends c (ok (some m), c') = c'.request_retry_count ≡ c.request_retry_count

  message_of-Sends :
      (m : Result Message) (c c' : Controller)
      → c'.request_retry_count ≡ c.request_retry_count
      → Sends c (message_of cfg r m, c')
  message_of-Sends (ok m) c c' e = e
  message_of-Sends (err x) c c' e = tt

  or_without-Sends :
      (m : Result (Option Message)) (c c' : Controller)
      → found_ready_worker cfg r ≡ true
      → c'.request_retry_count ≡ c.request_retry_count
      → Sends c (resume m (or_without cfg r) c')
  unfolding without_result request
  or_without-Sends (ok none) c c' f e =
      rw (f, without_result) (message_of-Sends (new_task_request cfg.fqdn) c c' e)
  or_without-Sends (ok (some m)) c c' f e = e
  or_without-Sends (err x) c c' f e = tt

  choose_message-Sends :
      (c : Controller) → found_ready_worker cfg r ≡ true → Sends c (choose_message cfg r c)
  unfolding choose_message take_result
  choose_message-Sends c f =
      or_without-Sends (finished_message cfg r (pop_nowait c.result_queue).0) c
        (take_result cfg r c).1 f refl

  -- The loop ended, or one more message stayed without a response, and the limit is not reached.
  abbrev pub Counts : Controller → Controller → Type 0
  Counts c c' =
      (c'.run_condition ≡ false)
      ⊎ ((c'.request_retry_count ≡ c.request_retry_count + 1)
          × (c.request_retry_count ≢ cfg.max_num_request_retries))

  check_late :
      (c c' : Controller)
      → c'.request_retry_count ≡ c.request_retry_count
      → Counts c (settle cfg r (on_late cfg r (ok none) (check_retries cfg r c')))
  unfolding on_late check_retries
  check_late c c' e = elim (Bool-cases (c'.request_retry_count == cfg.max_num_request_retries)) [
    | inl l ↦ inl (rw l refl)
    | inr l ↦ inr (rw l (ap (λ n. n + 1) e), λ q. ground arith)
  ]

  exchange-Counts :
      (s : Result (Option Message) × Controller) (c : Controller)
      → r.response ≡ ok none
      → r.late_response ≡ ok none
      → Sends c s
      → Counts c (settle cfg r (resume s.0 (exchange cfg r) s.1))
  unfolding exchange on_response
  exchange-Counts (err e, c') c quiet late h = inl refl
  exchange-Counts (ok none, c') c quiet late h = cc
  exchange-Counts (ok (some m), c') c quiet late h =
      let c'' = record c' { calls = c'.calls ++ sent (to_string m) ∷ [] } in
      subst (λ x. Counts c (settle cfg r (on_response cfg r x c''))) (sym quiet)
        (subst (λ x. Counts c (settle cfg r (on_late cfg r x (check_retries cfg r c'')))) (sym late)
          (check_late c c'' h))

  iterate-Counts :
      (c : Controller)
      → found_ready_worker cfg r ≡ true
      → r.response ≡ ok none
      → r.late_response ≡ ok none
      → Counts c (iterate cfg r c)
  unfolding iterate handle
  iterate-Counts c f quiet late =
      exchange-Counts (choose_message cfg r c) c quiet late (choose_message-Sends c f)

-- In these rounds a worker is ready and no response comes.
abbrev pub AllSilent : Config → List Round → Type 0
AllSilent cfg [] = Unit {0}
AllSilent cfg (r ∷ rounds) =
    (found_ready_worker cfg r ≡ true)
    × (r.response ≡ ok none)
    × (r.late_response ≡ ok none)
    × AllSilent cfg rounds

run_stopped :
    (cfg : Config) (rounds : List Round) (c : Controller)
    → c.run_condition ≡ false
    → run cfg rounds c ≡ c
unfolding run
run_stopped cfg [] c ended = refl
run_stopped cfg (r ∷ rounds) c ended = if_false c.run_condition _ _ ended

-- When no response comes any more, a controller with a worker that is ready ends its loop after at most
-- one iteration more than there are retries left.
pub run_gives_up :
    (cfg : Config) (rounds : List Round) (c : Controller)
    → AllSilent cfg rounds
    → c.request_retry_count ≤ cfg.max_num_request_retries
    → cfg.max_num_request_retries < c.request_retry_count + length rounds
    → (run cfg rounds c).run_condition ≡ false
unfolding run
run_gives_up cfg [] c silent few l = absurd (omega arith)
run_gives_up cfg (r ∷ rounds) c (f, quiet, late, silent) few l = elim (Bool-cases c.run_condition) [
  | inr ended ↦
      ap (λ (m : Controller). m.run_condition) (if_false c.run_condition _ _ ended) ∙ ended
  | inl on ↦
      ap (λ (m : Controller). m.run_condition) (if_true c.run_condition _ _ on)
      ∙ (elim (iterate-Counts cfg r c f quiet late) [
        | inl ends ↦
            ap (λ (m : Controller). m.run_condition) (run_stopped cfg rounds (iterate cfg r c) ends)
            ∙ ends
        | inr (e, ne) ↦
            run_gives_up cfg rounds (iterate cfg r c) silent (omega (arith, e, ne, few))
              (omega (arith, e, l))
      ])
]
