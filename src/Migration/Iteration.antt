-- ===== src/Migration/Iteration.antt =====
-- The whole iteration of the loop in `run`.
use lustre_ost_performance_t.Base.{Bool, List, Result, err, if◌then◌else◌, leb, ok, ℕ, ◌+◌}
use lustre_ost_performance_t.Base.Exec.{Exec, ◌>>◌}
use lustre_ost_performance_t.Text.{Text}
use lustre_ost_performance_t.Dict.{Dict, keys}
use lustre_ost_performance_t.Migration.{Config, Generator}
use lustre_ost_performance_t.Migration.Caches.{
  update_sources, update_targets, process_input_files, deallocate_empty_ost_caches,
  init_ost_target_state_dict,
}
use lustre_ost_performance_t.Migration.Dispatch.{dispatch, drain}

-- What an iteration reads from outside: the clock, the fill levels that `lfs df` or the local mode
-- give, and the lines of the input files that are there.
pub record Round : Type 0 where
  pub last_run_time : ℕ
  pub fill_levels : Result (Dict ℕ)
  pub files : List (List Text)

module _ (cfg : Config) where
  unfoldable pub read_fill_levels : Round → Exec Generator (Unit {0})
  read_fill_levels r g = elim r.fill_levels [
    | err e ↦ (err e, g)
    | ok d ↦ (ok tt, record g { ost_fill_level_dict = d })
  ]

  unfoldable pub update_fill_levels : Round → Exec Generator (Unit {0})
  unfolding read_fill_levels
  update_fill_levels r g =
      let due = record g {
        next_time_update_fill_level = r.last_run_time + cfg.threshold_update_fill_level;
      } in
      (do
        read_fill_levels r
        update_sources cfg (keys g.ost_source_state_dict)
        update_targets cfg (keys g.ost_target_state_dict))
        due

  unfoldable pub reload_files : Round → Exec Generator (Unit {0})
  reload_files r g =
      process_input_files cfg r.files
        (record g { next_time_reload_files = r.last_run_time + cfg.threshold_reload_files })

  unfoldable pub print_caches : Round → Exec Generator (Unit {0})
  print_caches r g =
      deallocate_empty_ost_caches
        (record g { next_time_print_caches = r.last_run_time + cfg.threshold_print_caches })

  abbrev pub when_due : Bool → Exec Generator (Unit {0}) → Exec Generator (Unit {0})
  when_due due m g = if due then m g else (ok tt, g)

  -- What is done only when its time has come.
  unfoldable pub upkeep : Round → Exec Generator (Unit {0})
  unfolding update_fill_levels reload_files print_caches
  upkeep r = do
    (λ g. when_due (leb g.next_time_update_fill_level r.last_run_time) (update_fill_levels r) g)
    (λ g. when_due (leb g.next_time_reload_files r.last_run_time) (reload_files r) g)
    (λ g. when_due (leb g.next_time_print_caches r.last_run_time) (print_caches r) g)

  unfoldable pub iterate : List Text → Round → Exec Generator (Unit {0})
  unfolding upkeep
  iterate targets r = do dispatch cfg targets; (λ g. drain g.result_queue g); upkeep r

  -- What `run` does before its loop.
  unfoldable pub initialize : Round → Exec Generator (Unit {0})
  unfolding read_fill_levels
  initialize r = do
    read_fill_levels r
    init_ost_target_state_dict cfg
    process_input_files cfg r.files
    (λ g. (
      ok tt,
      record g {
        next_time_update_fill_level = r.last_run_time + cfg.threshold_update_fill_level;
        next_time_reload_files = r.last_run_time + cfg.threshold_reload_files;
        next_time_print_caches = r.last_run_time + cfg.threshold_print_caches;
      },
    ))
