-- ===== src/Master/Shutdown/Expiry.antt =====
-- Controllers that do not ask any more: the sweep over the heartbeats at a poll timeout.
use lustre_ost_performance_t.Base.{
  Bool-cases, List, Option, Result, [], ap, arith, err, false, if_false, if_true, if◌then◌else◌,
  inl, inr, leb, length, none, ok, refl, runtime_error, some, subst, sym, ℕ, ◌+◌, ◌<◌, ◌∙◌, ◌∷◌,
  ◌≡◌, ◌≤◌, ◌⊎◌,
}
use lustre_ost_performance_t.Text.{Text, text_eq, text_eq_refl}
use lustre_ost_performance_t.Dict.{Dict, get, has, remove, keys}
use lustre_ost_performance_t.Dict.Laws.{AllHave, keys-AllHave, length-remove-lt, has-get}
use lustre_ost_performance_t.Master.{Master, Config, Round, stop_if_all_down}
use lustre_ost_performance_t.Master.Loop.{
  sweep, after_sweep, on_poll_timeout, handle, handle_received, on_error, settle, iterate, run,
}

-- The first controller whose last heartbeat is too old.
unfoldable pub expired_in : Config → ℕ → Dict ℕ → List Text → Option Text
expired_in cfg now d [] = none
expired_in cfg now d (name ∷ names) = elim (get d name) [
  | none ↦ none
  | some t ↦ if leb (t + cfg.controller_timeout) now then some name else expired_in cfg now d names
]

-- What a sweep comes to.
abbrev pub swept : Dict ℕ → Option Text → Result (Unit {0}) × Dict ℕ
swept d none = (ok tt, d)
swept d (some name) = (err runtime_error, remove d name)

-- After a key was dropped the iterator raises.
sweep_resized :
    (cfg : Config) (now size : ℕ) (names : List Text) (d : Dict ℕ)
    → length d < size
    → sweep cfg now size names d ≡ (err runtime_error, d)
unfolding sweep
sweep_resized cfg now size [] d h = ground arith
sweep_resized cfg now size (name ∷ names) d h = ground arith

sweep-eq :
    (cfg : Config) (now : ℕ) (names : List Text) (d : Dict ℕ)
    → AllHave d names
    → sweep cfg now (length d) names d ≡ swept d (expired_in cfg now d names)
unfolding sweep expired_in
sweep-eq cfg now [] d h = ground arith
sweep-eq cfg now (name ∷ names) d h = ground (
  arith,
  has-get d name,
  sweep-eq cfg now names d h.1,
  sweep_resized cfg now (length d) names (remove d name),
  length-remove-lt d name h.0,
)

-- What is left after such a timeout.
abbrev pub after_timeout : Master → Option Text → Master
after_timeout s none = stop_if_all_down s
after_timeout s (some name) = on_error (record s { heartbeats = remove s.heartbeats name })

settle-swept :
    (s : Master) (o : Option Text)
    → settle (after_sweep (swept s.heartbeats o) s) ≡ after_timeout s o
unfolding settle after_sweep
settle-swept s none = refl
settle-swept s (some name) = refl

-- At a poll timeout without distribution: if the time of some controller is over, the first such
-- controller is dropped, and the iteration raises; if of none, nothing is dropped, and the loop ends
-- exactly if no controller is known.
pub iterate_timeout :
    (cfg : Config) (r : Round) (s : Master)
    → s.task_distribution ≡ false
    → r.received ≡ ok none
    → iterate cfg r s ≡ after_timeout s (expired_in cfg r.started s.heartbeats (keys s.heartbeats))
unfolding iterate handle handle_received on_poll_timeout
iterate_timeout cfg r s off quiet =
    let names = keys s.heartbeats in
    ap (λ received. settle (handle_received cfg r received s)) quiet
    ∙ ap settle (
        if_false s.task_distribution _ _ off
        ∙ ap (λ p. after_sweep p s)
            (sweep-eq cfg r.started names s.heartbeats (keys-AllHave s.heartbeats)))
    ∙ settle-swept s (expired_in cfg r.started s.heartbeats names)

-- The time of every controller is over.
abbrev pub IsLate : Config → ℕ → Dict ℕ → Type 0
IsLate cfg now [] = Unit {0}
IsLate cfg now ((name, t) ∷ d) = (t + cfg.controller_timeout ≤ now) × IsLate cfg now d

-- Only timeouts are met, at each of which every controller is too late.
abbrev pub AllLate : Config → Dict ℕ → List Round → Type 0
AllLate cfg d [] = Unit {0}
AllLate cfg d (r ∷ rounds) = (r.received ≡ ok none) × IsLate cfg r.started d × AllLate cfg d rounds

IsLate-remove :
    (cfg : Config) (now : ℕ) (d : Dict ℕ) (k : Text)
    → IsLate cfg now d
    → IsLate cfg now (remove d k)
unfolding remove
IsLate-remove cfg now [] k h = tt
IsLate-remove cfg now ((name, t) ∷ d) k h = elim (Bool-cases (text_eq name k)) [
  | inl e ↦ rw e (IsLate-remove cfg now d k h.1)
  | inr e ↦ rw e (h.0, IsLate-remove cfg now d k h.1)
]

AllLate-remove :
    (cfg : Config) (d : Dict ℕ) (k : Text) (rounds : List Round)
    → AllLate cfg d rounds
    → AllLate cfg (remove d k) rounds
AllLate-remove cfg d k [] h = tt
AllLate-remove cfg d k (r ∷ rounds) h =
    (h.0, IsLate-remove cfg r.started d k h.1, AllLate-remove cfg d k rounds h.2)

expired_first :
    (cfg : Config) (now : ℕ) (name : Text) (t : ℕ) (d : Dict ℕ)
    → IsLate cfg now ((name, t) ∷ d)
    → expired_in cfg now ((name, t) ∷ d) (keys ((name, t) ∷ d)) ≡ some name
unfolding expired_in get
expired_first cfg now name t d h = ground (arith, text_eq_refl name)

run_stopped :
    (cfg : Config) (rounds : List Round) (s : Master) → s.run_flag ≡ false → run cfg rounds s ≡ s
unfolding run
run_stopped cfg [] s h = refl
run_stopped cfg (r ∷ rounds) s h = if_false s.run_flag _ _ h

-- Such an iteration ends the loop, or goes on without distribution and with a controller less.
abbrev Progress : Master → Master → Type 0
Progress s s' =
    (s'.run_flag ≡ false)
    ⊎ (name : Text) × (s'.task_distribution ≡ false)
      × (s'.heartbeats ≡ remove s.heartbeats name)
      × (length (remove s.heartbeats name) < length s.heartbeats)

after_timeout-Progress :
    (cfg : Config) (now : ℕ) (s : Master) (d : Dict ℕ)
    → s.heartbeats ≡ d
    → IsLate cfg now d
    → Progress s (after_timeout s (expired_in cfg now d (keys d)))
unfolding stop_if_all_down on_error has expired_in
after_timeout-Progress cfg now s [] e late = inl (ground arith)
after_timeout-Progress cfg now s ((name, t) ∷ d) e late =
    let shorter = length-remove-lt ((name, t) ∷ d) name in
    let dropped = expired_first cfg now name t d late in
    rw dropped
      (inr (name, ground arith, ground arith, rw e (shorter (ground (arith, text_eq_refl name)))))

iterate-Progress :
    (cfg : Config) (r : Round) (s : Master)
    → s.task_distribution ≡ false
    → r.received ≡ ok none
    → IsLate cfg r.started s.heartbeats
    → Progress s (iterate cfg r s)
iterate-Progress cfg r s off quiet late =
    subst (Progress s) (sym (iterate_timeout cfg r s off quiet))
      (after_timeout-Progress cfg r.started s s.heartbeats refl late)

-- Without distribution, when no controller asks any more and the time of all is over, the loop
-- ends after at most one iteration more than there are controllers.
pub run_ends :
    (cfg : Config) (rounds : List Round) (s : Master)
    → s.task_distribution ≡ false
    → AllLate cfg s.heartbeats rounds
    → length s.heartbeats < length rounds
    → (run cfg rounds s).run_flag ≡ false
unfolding run
run_ends cfg [] s off late l = absurd (omega arith)
run_ends cfg (r ∷ rounds) s off late l = elim (Bool-cases s.run_flag) [
  | inr ended ↦ ap (λ (m : Master). m.run_flag) (if_false s.run_flag _ _ ended) ∙ ended
  | inl on ↦
      ap (λ (m : Master). m.run_flag) (if_true s.run_flag _ _ on)
      ∙ (elim (iterate-Progress cfg r s off late.0 late.1) [
        | inl ends ↦
            ap (λ (m : Master). m.run_flag) (run_stopped cfg rounds (iterate cfg r s) ends) ∙ ends
        | inr (name, off', rest, shorter) ↦
            run_ends cfg rounds (iterate cfg r s) off'
              (subst (λ d. AllLate cfg d rounds) (sym rest)
                (AllLate-remove cfg s.heartbeats name rounds late.2))
              (rw rest (omega arith))
      ])
]
