-- ===== src/Lfs/Tests.antt =====
-- Concrete outputs of `lfs`.
use lustre_ost_performance_t.Base.{[], arith, false, map, ok, refl, true, ◌∷◌, ◌≡◌}
use lustre_ost_performance_t.Text.{codes, contains}
use lustre_ost_performance_t.Text.Number.{
  pos, int_of_hex, read_hex, read_digits, digit_value, signed, strip, lstrip, rstrip, is_space,
  str_of, is_digit,
}
use lustre_ost_performance_t.Text.Match.{starts_solid, ends_solid}
use lustre_ost_performance_t.Text.Table.{print_lines}
use lustre_ost_performance_t.Lfs.Items.{is_word, is_word_or_dash, is_ost_idx_active}
use lustre_ost_performance_t.Lfs.Lookup.{
  Row, AllRows, print_row, active_in, is_ost_idx_active-print_lines,
}
use lustre_ost_performance_t.Lfs.FillLevel.{retrieve_ost_fill_level}
use lustre_ost_performance_t.Lfs.Levels.{Usage, AllUsages, print_usage, ends_plain}
use lustre_ost_performance_t.Lfs.LevelTable.{put_levels, retrieve_ost_fill_level-print_lines}
use lustre_ost_performance_t.Lfs.Migrate.{
  py_none, py_str, py_int, py_bool, Arguments, Host, migrate_file,
}
use lustre_ost_performance_t.Lfs.Migrate.Commands.{Ran, migrate_file-Ran}

abbrev row_1f : Row
row_1f = record {
  word = codes "001f";
  uuid = codes "osc-ffff8804";
  state = codes "active.";
  index = 31;
}

abbrev row_20 : Row
row_20 = record {
  word = codes "0020";
  uuid = codes "osc-ffff8804";
  state = codes "inactive.";
  index = 32;
}

rows-AllRows : AllRows (row_1f ∷ row_20 ∷ [])
unfolding is_word is_word_or_dash int_of_hex read_hex read_digits digit_value signed strip lstrip
    rstrip is_space ends_solid contains
rows-AllRows = (
  (
    refl,
    (refl, (refl, (refl, (refl, tt)))),
    refl,
    refl,
    (
      refl,
      (refl, (refl, (refl, (refl, (refl, (refl, (refl, (refl, (refl, (refl, (refl, tt))))))))))),
    ),
    refl,
    refl,
  ),
  (
    (
      refl,
      (refl, (refl, (refl, (refl, tt)))),
      refl,
      refl,
      (
        refl,
        (refl, (refl, (refl, (refl, (refl, (refl, (refl, (refl, (refl, (refl, (refl, tt))))))))))),
      ),
      refl,
      refl,
    ),
    tt,
  ),
)

is_ost_idx_active-print_lines_example :
    is_ost_idx_active
      (codes "hebe")
      (str_of 32)
      (ok (print_lines (map (print_row (codes "hebe")) (row_1f ∷ row_20 ∷ []))))
    ≡ active_in (row_1f ∷ row_20 ∷ []) 32
unfolding starts_solid is_space contains
is_ost_idx_active-print_lines_example =
    is_ost_idx_active-print_lines (codes "hebe") row_1f (row_20 ∷ []) 32 refl refl rows-AllRows

abbrev usage_31 : Usage
usage_31 = record {
  front = codes "hebe-OST001f_UUID 100 63 37 ";
  level = 63;
  mount = codes " /lustre/hebe";
  index = 31;
}

usages-AllUsages : AllUsages (usage_31 ∷ [])
unfolding starts_solid ends_plain is_digit is_space contains
usages-AllUsages = ((refl, refl, refl, refl, omega arith, refl, omega arith), tt)

retrieve_ost_fill_level-print_lines_example :
    retrieve_ost_fill_level
      (codes "/lustre/hebe")
      (ok (print_lines (map print_usage (usage_31 ∷ []))))
    ≡ ok (put_levels (usage_31 ∷ []) [])
retrieve_ost_fill_level-print_lines_example =
    retrieve_ost_fill_level-print_lines (codes "/lustre/hebe") usage_31 [] refl usages-AllUsages

-- A host on which every file has one stripe, on OST 3.
abbrev host : Host
host = record {
  lfs_bin = codes "/usr/bin/lfs";
  run = λ args. ok (codes "lmm");
  safe_load =
      λ out. ok ((codes "lmm_stripe_count", pos 1) ∷ (codes "lmm_stripe_offset", pos 3) ∷ []);
}

abbrev to_8 : Arguments
to_8 = record {
  filename = py_str (codes "/lustre/a");
  source_idx = py_none;
  target_idx = py_int (pos 8);
  block = py_bool false;
  skip = py_bool true;
}

migrate_file-Ran_example : Ran host to_8 [] (migrate_file host to_8 [])
migrate_file-Ran_example = migrate_file-Ran host to_8 []
