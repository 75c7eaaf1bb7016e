-- ===== src/Migration/Samples.antt =====
-- A concrete migration, from the generator to `lfs`.
use lustre_ost_performance_t.Base.{
  [], arith, false, inl, inr, length, ok, refl, true, ◌<◌, ◌∷◌, ◌≡◌,
}
use lustre_ost_performance_t.Text.{Text, codes, contains}
use lustre_ost_performance_t.Text.Number.{pos}
use lustre_ost_performance_t.Lfs.Migrate.{py_str, Host}
use lustre_ost_performance_t.Task.OstMigrate.{OstMigrateTask, execute}
use lustre_ost_performance_t.Migration.Transfer.{Arrives, moving, moving-Arrives}
use lustre_ost_performance_t.Migration.{ready, source, target, is_suited, Config, Generator}
use lustre_ost_performance_t.Dict.{get}
use lustre_ost_performance_t.Text.{text_eq}
use lustre_ost_performance_t.Text.Number.{
  int_of, signed, strip, lstrip, rstrip, is_space, read_digits, digit_value,
}
use lustre_ost_performance_t.Migration.Dispatch.{dispatch}
use lustre_ost_performance_t.Migration.Progress.{dispatch_grows}
use lustre_ost_performance_t.Migration.Validation.{
  Settings, is_between, check_between, check_place, check_targets, last_of, check_thresholds,
  check_seconds, validate_settings, validate_settings-suited,
}
use lustre_ost_performance_t.Migration.Execution.{Executed, execute-Executed}

abbrev skeleton : OstMigrateTask
skeleton = record {
  filename = [];
  source_ost = py_str [];
  target_ost = py_str [];
  block = true;
  skip = false;
}

abbrev file_a : Text
file_a = codes "/lustre/a"

-- A host on which every file has two stripes, the first on OST 3.
abbrev host : Host
host = record {
  lfs_bin = codes "/usr/bin/lfs";
  run = λ args. ok (codes "lmm");
  safe_load =
      λ out. ok ((codes "lmm_stripe_count", pos 2) ∷ (codes "lmm_stripe_offset", pos 3) ∷ []);
}

moving-Arrives_example : Arrives (λ s. true) skeleton 3 8 file_a
moving-Arrives_example =
    moving-Arrives (λ s. true) skeleton 3 8 file_a refl refl (unfold contains in refl)

execute-Executed_example :
    Executed skeleton 3 8 file_a host [] (execute host (moving skeleton 3 8 file_a) []).1
execute-Executed_example = execute-Executed skeleton 3 8 file_a host [] refl

abbrev cfg : Config
cfg = record {
  local_mode = false;
  matches_path = λ s. true;
  threshold_update_fill_level = 900;
  threshold_reload_files = 300;
  threshold_print_caches = 60;
  ost_target_list = codes "30" ∷ codes "31" ∷ [];
  ost_fill_level_threshold_source = 50;
  ost_fill_level_threshold_target = 40;
}

-- Source 12 has one file, source 11 has none, and both targets are ready.
abbrev waiting : Generator
waiting = record {
  ost_cache_dict =
      (codes "11", [])
      ∷ (codes "12", record { ost = codes "12"; filename = codes "/lustre/a" } ∷ [])
      ∷ [];
  ost_source_state_dict = (codes "11", ready) ∷ (codes "12", ready) ∷ [];
  ost_target_state_dict = (codes "30", ready) ∷ (codes "31", ready) ∷ [];
  ost_fill_level_dict = [];
  source_ost_key_list = codes "11" ∷ codes "12" ∷ [];
  task_queue = [];
  result_queue = [];
  next_source_ost_key_index = 0;
  next_target_ost_key_index = 1;
  next_time_update_fill_level = 0;
  next_time_reload_files = 0;
  next_time_print_caches = 0;
}

dispatch_grows_example :
    0 < length (dispatch cfg (codes "30" ∷ codes "31" ∷ []) waiting).1.task_queue
unfolding get text_eq
dispatch_grows_example =
    dispatch_grows cfg (codes "30" ∷ codes "31" ∷ []) waiting
      (inr (
        (ready, refl, inr refl),
        inl (record { ost = codes "12"; filename = codes "/lustre/a" }, [], refl, refl),
      ))
      (inl refl)

abbrev settings : Settings
settings = record {
  local_mode = false;
  num_osts = pos 0;
  lfs_path_is_dir = true;
  threshold_update_fill_level = pos 900;
  threshold_reload_files = pos 300;
  threshold_print_caches = pos 60;
  input_dir_is_dir = true;
  threshold_source = pos 50;
  threshold_target = pos 40;
  ost_target_list = codes "30" ∷ codes "31" ∷ [];
}

validate_settings-suited_example :
    (is_suited cfg source 91 ≡ true) × (is_suited cfg target 91 ≡ false)
unfolding validate_settings check_place check_between is_between check_targets last_of
    check_thresholds check_seconds int_of signed strip lstrip rstrip is_space read_digits
    digit_value
validate_settings-suited_example =
    validate_settings-suited settings cfg 91 refl (refl, refl) (omega arith)
