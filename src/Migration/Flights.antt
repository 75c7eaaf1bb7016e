-- ===== src/Migration/Flights.antt =====
-- The migrations under way over a whole iteration of the loop in `run`.
use lustre_ost_performance_t.Base.{
  Error, List, Option, Result, [], ap, append_assoc, arith, err, inl, inr, none, ok, refl, some,
  subst, sym, ◌++◌, ◌∙◌, ◌≡◌, ◌≤◌, ◌⊎◌,
}
use lustre_ost_performance_t.Base.Exec.{Exec, ◌>>◌}
use lustre_ost_performance_t.Text.{Text}
use lustre_ost_performance_t.Base.Exec.{resume}
use lustre_ost_performance_t.Dict.{get}
use lustre_ost_performance_t.Migration.States.{load, count}
use lustre_ost_performance_t.Migration.Exclusion.{sources_of, targets_of}
use lustre_ost_performance_t.Migration.{
  Config, Generator, OstState, ready, locked, blocked, pending_lock,
}
use lustre_ost_performance_t.Migration.Dispatch.{drain, dispatch}
use lustre_ost_performance_t.Migration.Caches.{init_ost_target_state_dict, process_input_files}
use lustre_ost_performance_t.Base.Exec.Keeps.{bind-Keeps}
use lustre_ost_performance_t.Migration.Iteration.{
  read_fill_levels, initialize, Round, upkeep, iterate,
}
use lustre_ost_performance_t.Migration.Exclusion.{
  Flight, InFlight, Issued, Kept, queued, tids_of, dispatch-Issued,
}
use lustre_ost_performance_t.Migration.Release.{AreNamed, drain-releases}
use lustre_ost_performance_t.Migration.Upkeep.{
  process_input_files-Keeps, update_targets-Keeps, read_fill_levels-Keeps, upkeep-Keeps,
}

-- What an iteration makes of the migrations under way, some of which are done: either it raised, and then
-- it took no result, or the results were taken. The queue grew by the tasks of new migrations.
abbrev pub Outcome : List Text → List Flight → List Flight → Result (Unit {0}) × Generator → Type 0
Outcome before done rest (r, g) =
    (((e : Error) × (r ≡ err e)) × Issued before (tids_of done) (done ++ rest) g)
    ⊎ Issued before [] rest g

module _ (cfg : Config) (before : List Text) (done rest : List Flight) (r : Round) where
  results_taken : Exec Generator (Unit {0})
  results_taken = (λ g. drain g.result_queue g) >> upkeep cfg r

  after_results :
      (g : Generator)
      → AreNamed done
      → Issued before (tids_of done) (done ++ rest) g
      → Issued before [] rest (results_taken g).1
  unfolding results_taken
  after_results g n (new, q, e, h) =
      let (p, q', e', h') =
        drain-releases done (rest ++ new) g e n
          (subst (λ l. InFlight l g) (append_assoc done rest new) h) in
      let drained = (drain (tids_of done) g).1 in
      let (k, l, i) =
        upkeep-Keeps cfg drained.task_queue [] (rest ++ new) r drained (refl, e', h') in
      subst (λ l. Issued before [] rest ((drain l >> upkeep cfg r) g).1) (sym e)
        (rw p (new, ap queued (k ∙ q') ∙ q, l, i))

  after_dispatch :
      (d : Result (Unit {0}) × Generator)
      → AreNamed done
      → Issued before (tids_of done) (done ++ rest) d.1
      → Outcome before done rest (resume d.0 (λ _. results_taken) d.1)
  after_dispatch (ok u, g) n h = inr (after_results g n h)
  after_dispatch (err e, g) n h = inl ((e, refl), h)

-- An iteration keeps the migrations under way and the states of the OSTs in step: if before it every OST is
-- in as many migrations as its state says, and the queue of results holds the TIDs of some that are done,
-- whose OSTs' names hold no colon, then afterwards the queue of tasks is the one before and a task for each
-- new migration, and every OST is in as many of the others and the new ones as its state says, and the
-- queue of results is empty; or the iteration raised while it handed out migrations, and no result was
-- taken.
pub iterate-Outcome :
    (cfg : Config) (targets : List Text) (r : Round) (done rest : List Flight) (g : Generator)
    → g.result_queue ≡ tids_of done
    → AreNamed done
    → InFlight (done ++ rest) g
    → Outcome (queued g.task_queue) done rest (iterate cfg targets r g)
unfolding iterate results_taken
iterate-Outcome cfg targets r done rest g e n h =
    after_dispatch cfg (queued g.task_queue) done rest r (dispatch cfg targets g) n (
      subst (λ l. Issued (queued g.task_queue) l (done ++ rest) (dispatch cfg targets g).1) e
        (dispatch-Issued cfg targets (done ++ rest) g h))

load-le : (o : Option OstState) → load o ≤ 1
load-le none = omega arith
load-le (some ready) = omega arith
load-le (some locked) = omega arith
load-le (some blocked) = omega arith
load-le (some pending_lock) = omega arith

-- No OST is in two migrations at a time, as their source or as their target.
pub InFlight-once :
    (fs : List Flight) (g : Generator) (ost : Text)
    → InFlight fs g
    → (count (sources_of fs) ost ≤ 1) × (count (targets_of fs) ost ≤ 1)
InFlight-once fs g ost (hs, ht) = (
  omega (arith, hs ost, load-le (get g.ost_source_state_dict ost)),
  omega (arith, ht ost, load-le (get g.ost_target_state_dict ost)),
)

-- Before its loop, with no OST having a state yet, the generator hands out nothing and no OST is in a
-- migration, whatever the fill levels and the input files are, and also when reading them raises.
pub initialize-Kept :
    (cfg : Config) (r : Round) (g : Generator)
    → g.ost_source_state_dict ≡ []
    → g.ost_target_state_dict ≡ []
    → Kept g.task_queue g.result_queue [] (initialize cfg r g).1
unfolding initialize init_ost_target_state_dict get count
initialize-Kept cfg r g es et =
    let P = Kept g.task_queue g.result_queue [] in
    bind-Keeps P (read_fill_levels cfg r) _
      (read_fill_levels-Keeps cfg g.task_queue g.result_queue [] r)
      (λ _.
        bind-Keeps P (init_ost_target_state_dict cfg) _
          (update_targets-Keeps cfg g.task_queue g.result_queue [] cfg.ost_target_list)
          (λ _.
            bind-Keeps P (process_input_files cfg r.files) _
              (process_input_files-Keeps cfg g.task_queue g.result_queue [] r.files) (λ _ s h. h)))
      g (refl, refl, (λ k. rw es refl, λ k. rw et refl))
