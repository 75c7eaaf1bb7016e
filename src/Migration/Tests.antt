-- ===== src/Migration/Tests.antt =====
-- Concrete runs of the generator.
use lustre_ost_performance_t.Base.{[], arith, false, is_nil, ok, refl, true, ◌++◌, ◌∷◌, ◌≡◌, ◌≤◌}
use lustre_ost_performance_t.Base.Exec.{◌>>◌}
use lustre_ost_performance_t.Text.{codes, text_eq, contains, Text}
use lustre_ost_performance_t.Dict.{get, put, has}
use lustre_ost_performance_t.Migration.{
  ready, blocked, Config, Generator, refill, update_by_fill_level, is_suited, MigrateItem,
}
use lustre_ost_performance_t.Migration.States.{count}
use lustre_ost_performance_t.Migration.Dispatch.{
  tid_of, split_tid, dispatch, drain, wrap, migrate, find_target, pop_last, serve_source, task_of,
  visit_source, visit_sources,
}
use lustre_ost_performance_t.Migration.Iteration.{
  Round, iterate, initialize, read_fill_levels, upkeep, update_fill_levels, reload_files,
  print_caches,
}
use lustre_ost_performance_t.Migration.Exclusion.{
  Flight, InFlight, queued, sources_of, targets_of, tids_of,
}
use lustre_ost_performance_t.Migration.Release.{Done, split_tid-tid_of, drain-releases}
use lustre_ost_performance_t.Migration.Lines.{parse_line_lem}
use lustre_ost_performance_t.Text.Number.{IsDigits}
use lustre_ost_performance_t.Migration.System.{Reach, started, iterated, never_twice}
use lustre_ost_performance_t.Migration.Flights.{Outcome, iterate-Outcome}
use lustre_ost_performance_t.Migration.Caches.{
  init_ost_target_state_dict, update_targets, process_input_files, match_line, add_item,
  update_ost_source_state_dict, allocate, allocate_one, allocate_ost_caches, list_sources,
  load_files, load_lines, parse_line, span_digits, update_ost_target_state_dict,
  deallocate_empty_ost_caches, empty_ost_cache_ids, remove_all,
}
use lustre_ost_performance_t.Text.Number.{strip, is_digit, is_space, lstrip, rstrip}
use lustre_ost_performance_t.Msg.{field_separator}

abbrev cfg : Config
cfg = record {
  local_mode = false;
  matches_path = λ s. true;
  threshold_update_fill_level = 900;
  threshold_reload_files = 300;
  threshold_print_caches = 60;
  ost_target_list = codes "30" ∷ codes "31" ∷ [];
  ost_fill_level_threshold_source = 50;
  ost_fill_level_threshold_target = 50;
}

abbrev none_yet : Generator
none_yet = record {
  ost_cache_dict = [];
  ost_source_state_dict = [];
  ost_target_state_dict = [];
  ost_fill_level_dict = [];
  source_ost_key_list = [];
  task_queue = [];
  result_queue = [];
  next_source_ost_key_index = 0;
  next_target_ost_key_index = 0;
  next_time_update_fill_level = 0;
  next_time_reload_files = 0;
  next_time_print_caches = 0;
}

abbrev round : Round
round = record {
  last_run_time = 1000;
  fill_levels = ok ((codes "12", 80) ∷ (codes "30", 20) ∷ (codes "31", 30) ∷ []);
  files = (codes "12 /lustre/a" ∷ codes "12 /lustre/b" ∷ codes "no item" ∷ []) ∷ [];
}

-- The OSTs 12 and 30 are in a migration.
abbrev under_way : Generator
under_way = record none_yet {
  ost_cache_dict =
      (codes "12", record { ost = codes "12"; filename = codes "/lustre/a" } ∷ []) ∷ [];
  ost_source_state_dict = (codes "12", blocked) ∷ [];
  ost_target_state_dict = (codes "30", blocked) ∷ (codes "31", ready) ∷ [];
  ost_fill_level_dict = (codes "12", 80) ∷ (codes "30", 20) ∷ (codes "31", 30) ∷ [];
  source_ost_key_list = codes "12" ∷ [];
  result_queue = tid_of (codes "12") (codes "30") ∷ [];
}

abbrev flight : Flight
flight = (codes "12", codes "30")

-- The last file of the input goes first, from the full OST to the first target.
first_task :
    queued ((initialize cfg round >> dispatch cfg cfg.ost_target_list) none_yet).1.task_queue
    ≡ codes "12:30" ∷ []
unfolding initialize dispatch init_ost_target_state_dict update_targets update_by_fill_level get
    text_eq process_input_files contains strip match_line add_item put has
    update_ost_source_state_dict refill is_suited wrap migrate allocate allocate_one
    allocate_ost_caches list_sources load_files load_lines parse_line span_digits
    update_ost_target_state_dict find_target pop_last serve_source task_of tid_of visit_source
    visit_sources read_fill_levels is_digit is_space lstrip rstrip
first_task = refl

under_way-InFlight : InFlight (flight ∷ []) under_way
unfolding get count
under_way-InFlight = (λ k. ground arith, λ k. ground arith)

split_tid-tid_of_example :
    split_tid (tid_of (codes "12") (codes "30")) ≡ ok (codes "12", codes "30")
unfolding contains
split_tid-tid_of_example = split_tid-tid_of (codes "12") (codes "30") refl refl

drain-releases_example : Done [] [] [] (drain (tids_of (flight ∷ [])) under_way)
unfolding contains
drain-releases_example =
    drain-releases (flight ∷ []) [] under_way refl (refl, refl, tt) under_way-InFlight

iterate-Outcome_example :
    Outcome [] (flight ∷ []) [] (iterate cfg cfg.ost_target_list round under_way)
unfolding contains
iterate-Outcome_example =
    iterate-Outcome cfg cfg.ost_target_list round (flight ∷ []) [] under_way refl (refl, refl, tt)
      under_way-InFlight

abbrev loaded : Generator
loaded = (initialize cfg round none_yet).1

loaded-Reach : Reach cfg cfg.ost_target_list loaded [] []
loaded-Reach = started round none_yet refl refl refl

-- The second file waits until the first migration is reported.
abbrev dispatched : Generator
dispatched = (iterate cfg cfg.ost_target_list round loaded).1

dispatched-Reach : Reach cfg cfg.ost_target_list dispatched (flight ∷ []) []
unfolding iterate drain upkeep update_fill_levels reload_files print_caches
    deallocate_empty_ost_caches empty_ost_cache_ids remove_all initialize dispatch
    init_ost_target_state_dict update_targets update_by_fill_level get text_eq process_input_files
    contains strip match_line add_item put has update_ost_source_state_dict refill is_suited wrap
    migrate allocate allocate_one allocate_ost_caches list_sources load_files load_lines parse_line
    span_digits update_ost_target_state_dict find_target pop_last serve_source task_of tid_of
    visit_source visit_sources read_fill_levels is_digit is_space lstrip rstrip
dispatched-Reach = iterated round loaded [] [] (flight ∷ []) loaded-Reach refl (refl, refl, tt) refl

never_twice_example :
    (count (sources_of (flight ∷ [])) (codes "12") ≤ 1)
    × (count (targets_of (flight ∷ [])) (codes "12") ≤ 1)
never_twice_example =
    never_twice cfg cfg.ost_target_list dispatched (flight ∷ []) [] (codes "12") dispatched-Reach

abbrev line : Text
line = codes "12 /lustre/a"

abbrev item : MigrateItem
item = record { ost = codes "12"; filename = codes "/lustre/a" }

parse_line_example :
    (line ≡ item.ost ++ b' ' ∷ item.filename)
    × IsDigits item.ost
    × (is_nil item.ost ≡ false)
    × (contains b':' item.ost ≡ false)
    × (cfg.matches_path item.filename ≡ true)
    × (contains field_separator item.filename ≡ false)
unfolding parse_line match_line span_digits is_digit contains
parse_line_example = parse_line_lem cfg line item refl
