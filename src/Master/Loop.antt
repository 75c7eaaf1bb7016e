-- ===== src/Master/Loop.antt =====
-- cyclone-master.py: what follows when no message comes, the `try` statement of an iteration, and the
-- loop.
use lustre_ost_performance_t.Base.{
  List, Option, Result, [], err, false, if◌then◌else◌, key_error, leb, length, none, ok,
  runtime_error, some, ℕ, ◌+◌, ◌==◌, ◌∷◌,
}
use lustre_ost_performance_t.Base.Exec.{Exec}
use lustre_ost_performance_t.Text.{Text}
use lustre_ost_performance_t.Dict.{Dict, get, remove, keys}
use lustre_ost_performance_t.Master.{
  Master, Config, Round, max_error_count, stop_task_distribution, stop_if_all_down, on_message,
}

-- One round of the loop over the live keys: a controller past its threshold is popped.
unfoldable pub drop_expired : Config → ℕ → Text → Dict ℕ → Result (Dict ℕ)
drop_expired cfg now name d = elim (get d name) [
  | none ↦ err key_error
  | some t ↦ if leb (t + cfg.controller_timeout) now then ok (remove d name) else ok d
]

-- `for controller_name in controller_heartbeat_dict.keys()`: before each round, the last one
-- included, the iterator raises if the dictionary has another size than at the start.
unfoldable pub sweep : Config → ℕ → ℕ → List Text → Exec (Dict ℕ) (Unit {0})
unfolding drop_expired
sweep cfg now size [] d = if length d == size then (ok tt, d) else (err runtime_error, d)
sweep cfg now size (name ∷ names) d =
    if length d == size
    then (elim (drop_expired cfg now name d) [
      | err e ↦ (err e, d)
      | ok d' ↦ sweep cfg now size names d'
    ])
    else (err runtime_error, d)

unfoldable pub after_sweep : Result (Unit {0}) × Dict ℕ → Exec Master (Unit {0})
after_sweep (ok u, d) s = (ok tt, stop_if_all_down (record s { heartbeats = d }))
after_sweep (err e, d) s = (err e, record s { heartbeats = d })

unfoldable pub on_poll_timeout : Config → Round → Exec Master (Unit {0})
on_poll_timeout cfg r s =
    if s.task_distribution
    then (ok tt, s)
    else after_sweep (sweep cfg r.started (length s.heartbeats) (keys s.heartbeats) s.heartbeats) s

unfoldable pub handle_received : Config → Round → Result (Option Text) → Exec Master (Unit {0})
handle_received cfg r (err e) s = (err e, s)
handle_received cfg r (ok none) s = on_poll_timeout cfg r s
handle_received cfg r (ok (some recv_data)) s = on_message cfg r recv_data s

-- The body of the `try` in the loop.
unfoldable pub handle : Config → Round → Exec Master (Unit {0})
unfolding handle_received
handle cfg r s = handle_received cfg r r.received s

-- Its `except Exception`.
unfoldable pub on_error : Master → Master
unfolding stop_task_distribution
on_error s =
    let stopped = stop_task_distribution (record s { error_count = s.error_count + 1 }) in
    if stopped.error_count == max_error_count then record stopped { run_flag = false } else stopped

-- The `try` statement of an iteration.
unfoldable pub settle : Result (Unit {0}) × Master → Master
settle (ok u, s) = s
settle (err e, s) = on_error s

unfoldable pub iterate : Config → Round → Master → Master
iterate cfg r s = settle (handle cfg r s)

-- `while run_flag`, over what comes in.
unfoldable pub run : Config → List Round → Master → Master
run cfg [] s = s
run cfg (r ∷ rounds) s = if s.run_flag then run cfg rounds (iterate cfg r s) else s
