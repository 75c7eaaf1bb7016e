-- ===== src/Migration.antt =====
-- task/generator/lustre_ost_migration_task_generator.py: the generator that hands out migrations
-- of files from full OSTs to OSTs with room, each OST being in one migration at a time.
pub mod States
pub mod Caches
pub mod Lines
pub mod Dispatch
pub mod Exclusion
pub mod Release
pub mod Upkeep
pub mod Validation
pub mod Flights
pub mod System
pub mod Transfer
pub mod Execution
pub mod Queue
pub mod Progress
mod Tests
mod Samples
pub mod Iteration
use lustre_ost_performance_t.Base.{
  Bool, List, Option, err, false, key_error, ltb, none, ok, runtime_error, some, true, ℕ,
}
use lustre_ost_performance_t.Base.Exec.{Exec}
use lustre_ost_performance_t.Text.{Text}
use lustre_ost_performance_t.Dict.{Dict, get, put}

pub data OstState : Type 0 where
  ready locked blocked pending_lock : OstState

pub record MigrateItem : Type 0 where
  pub ost : Text
  pub filename : Text

-- A copy of the skeleton with what the generator sets: nothing but the TID in local mode.
pub record MigrateTask : Type 0 where
  pub tid : Text
  pub move : Option (Text × Text × Text)

-- What `__init__` reads from the configuration. `matches_path` is what the part of the pattern for
-- the path, `fs_path.*`, accepts.
pub record Config : Type 0 where
  pub local_mode : Bool
  pub matches_path : Text → Bool
  pub threshold_update_fill_level : ℕ
  pub threshold_reload_files : ℕ
  pub threshold_print_caches : ℕ
  pub ost_target_list : List Text
  pub ost_fill_level_threshold_source : ℕ
  pub ost_fill_level_threshold_target : ℕ

-- The attributes, the shared queues, and the variables of `run`.
pub record Generator : Type 0 where
  pub ost_cache_dict : Dict (List MigrateItem)
  pub ost_source_state_dict : Dict OstState
  pub ost_target_state_dict : Dict OstState
  pub ost_fill_level_dict : Dict ℕ
  pub source_ost_key_list : List Text
  pub task_queue : List MigrateTask
  pub result_queue : List Text
  pub next_source_ost_key_index : ℕ
  pub next_target_ost_key_index : ℕ
  pub next_time_update_fill_level : ℕ
  pub next_time_reload_files : ℕ
  pub next_time_print_caches : ℕ

-- `operator.gt` for sources, `operator.lt` for targets
pub data Side : Type 0 where
  source target : Side

unfoldable pub is_suited : Config → Side → ℕ → Bool
is_suited cfg source fill_level = ltb cfg.ost_fill_level_threshold_source fill_level
is_suited cfg target fill_level = ltb fill_level cfg.ost_fill_level_threshold_target

-- The state of an OST after its fill level was read, from its state before, if it has one.
unfoldable pub refill : Bool → Option OstState → OstState
refill true none = ready
refill true (some locked) = ready
refill true (some state) = state
refill false none = locked
refill false (some ready) = locked
refill false (some blocked) = pending_lock
refill false (some state) = state

-- `_update_ost_state_dict` with an operator
unfoldable pub update_by_fill_level :
    Config → Side → Dict ℕ → Text → Exec (Dict OstState) (Unit {0})
update_by_fill_level cfg side fill_levels ost d = elim (get fill_levels ost) [
  | none ↦ (err runtime_error, d)
  | some fill_level ↦ (ok tt, put d ost (refill (is_suited cfg side fill_level) (get d ost)))
]

-- The state of an OST when its migration is finished; only a busy one is in a migration.
unfoldable pub release : OstState → Option OstState
release blocked = some ready
release pending_lock = some locked
release _ = none

-- `_update_ost_state_dict` without an operator
unfoldable pub update_finished : Text → Exec (Dict OstState) (Unit {0})
update_finished ost d = elim (get d ost) [
  | none ↦ (err key_error, d)
  | some state ↦ elim (release state) [
    | none ↦ (err runtime_error, d)
    | some state' ↦ (ok tt, put d ost state')
  ]
]
