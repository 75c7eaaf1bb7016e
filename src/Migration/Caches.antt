-- ===== src/Migration/Caches.antt =====
-- The caches of files to migrate: loading of input files, and which OSTs have a source state.
use lustre_ost_performance_t.Base.{
  Bool, List, Option, Result, [], err, false, if◌then◌else◌, is_nil, key_error, none, not, ok,
  or_raise, runtime_error, some, true, ◌&&◌, ◌++◌, ◌==◌, ◌∷◌,
}
use lustre_ost_performance_t.Base.Exec.{Exec, pure, ◌>>◌}
use lustre_ost_performance_t.Text.{Text, contains}
use lustre_ost_performance_t.Text.Number.{strip, is_digit}
use lustre_ost_performance_t.Dict.{Dict, get, has, put, remove, keys}
use lustre_ost_performance_t.Msg.{field_separator}
use lustre_ost_performance_t.Migration.{
  OstState, ready, locked, MigrateItem, Config, Generator, source, target, update_by_fill_level,
}

-- `(\d+)` at the start of a line, and what stands behind it
unfoldable pub span_digits : Text → Text × Text
unfolding is_digit
span_digits [] = ([], [])
span_digits (c ∷ s) =
    let (digits, rest) = span_digits s in if is_digit c then (c ∷ digits, rest) else ([], c ∷ s)

-- The item of a line that `^(\d+) (fs_path.*)$` matches; no other line has one.
unfoldable pub match_line : Config → Text → Option MigrateItem
unfolding span_digits
match_line cfg line =
    let (ost, rest) = span_digits line in
    elim rest [
      | [] ↦ none
      | c ∷ filename ↦
          if not (is_nil ost) && c == b' ' && cfg.matches_path filename
          then some (record { ost = ost; filename = filename })
          else none
    ]

unfoldable pub parse_line : Config → Text → Result MigrateItem
parse_line cfg stripped_line =
    if contains field_separator stripped_line
    then err runtime_error
    else or_raise (match_line cfg stripped_line) runtime_error

-- The cache of the item's OST, which is made if it is not there, gets the item at its end.
unfoldable pub add_item : MigrateItem → Dict (List MigrateItem) → Dict (List MigrateItem)
add_item item caches = elim (get caches item.ost) [
  | none ↦ put caches item.ost (item ∷ [])
  | some cache ↦ put caches item.ost (cache ++ item ∷ [])
]

-- `_load_input_file` over the lines that were read: a line without an item is skipped.
unfoldable pub load_lines : Config → List Text → Dict (List MigrateItem) → Dict (List MigrateItem)
unfolding parse_line
load_lines cfg [] caches = caches
load_lines cfg (line ∷ lines) caches = elim (parse_line cfg (strip line)) [
  | ok item ↦ load_lines cfg lines (add_item item caches)
  | err e ↦ load_lines cfg lines caches
]

unfoldable pub load_files :
    Config → List (List Text) → Dict (List MigrateItem) → Dict (List MigrateItem)
unfolding load_lines
load_files cfg [] caches = caches
load_files cfg (file ∷ files) caches = load_files cfg files (load_lines cfg file caches)

module _ (cfg : Config) where
  unfoldable pub update_ost_source_state_dict : Text → Exec Generator (Unit {0})
  update_ost_source_state_dict ost g =
      let (done, d) =
        update_by_fill_level cfg source g.ost_fill_level_dict ost g.ost_source_state_dict in
      (done, record g { ost_source_state_dict = d })

  unfoldable pub update_ost_target_state_dict : Text → Exec Generator (Unit {0})
  update_ost_target_state_dict ost g =
      let (done, d) =
        update_by_fill_level cfg target g.ost_fill_level_dict ost g.ost_target_state_dict in
      (done, record g { ost_target_state_dict = d })

  unfoldable pub update_sources : List Text → Exec Generator (Unit {0})
  unfolding update_ost_source_state_dict
  update_sources [] = pure tt
  update_sources (ost ∷ osts) = do update_ost_source_state_dict ost; update_sources osts

  unfoldable pub update_targets : List Text → Exec Generator (Unit {0})
  unfolding update_ost_target_state_dict
  update_targets [] = pure tt
  update_targets (ost ∷ osts) = do update_ost_target_state_dict ost; update_targets osts

  unfoldable pub init_ost_target_state_dict : Exec Generator (Unit {0})
  init_ost_target_state_dict = update_targets cfg.ost_target_list

  -- One round of the loop in `_allocate_ost_caches`: a cache with items gets a source state.
  unfoldable pub allocate_one : Text → List MigrateItem → Exec Generator (Unit {0})
  allocate_one ost cache g =
      if not (is_nil cache) && not (has g.ost_source_state_dict ost)
      then update_ost_source_state_dict ost g
      else (ok tt, g)

  unfoldable pub allocate : Dict (List MigrateItem) → Exec Generator (Unit {0})
  unfolding allocate_one
  allocate [] = pure tt
  allocate ((ost, cache) ∷ caches) = do allocate_one ost cache; allocate caches

  unfoldable pub list_sources : Exec Generator (Unit {0})
  list_sources g = (ok tt, record g { source_ost_key_list = keys g.ost_source_state_dict })

  unfoldable pub allocate_ost_caches : Exec Generator (Unit {0})
  unfolding allocate list_sources
  allocate_ost_caches g = (allocate g.ost_cache_dict >> list_sources) g

  -- `_process_input_files` over the lines of each input file.
  unfoldable pub process_input_files : List (List Text) → Exec Generator (Unit {0})
  unfolding load_files allocate_ost_caches
  process_input_files files g =
      let loaded = record g { ost_cache_dict = load_files cfg files g.ost_cache_dict } in
      if is_nil files then (ok tt, g) else allocate_ost_caches loaded

-- Whether the empty cache of an OST in this state may go.
abbrev pub may_go : OstState → Bool
may_go ready = true
may_go locked = true
may_go _ = false

-- The OSTs whose empty cache goes; every empty cache is expected to have a source state.
unfoldable pub empty_ost_cache_ids : Dict OstState → Dict (List MigrateItem) → Result (List Text)
empty_ost_cache_ids states [] = ok []
empty_ost_cache_ids states ((ost, item ∷ items) ∷ caches) = empty_ost_cache_ids states caches
empty_ost_cache_ids states ((ost, []) ∷ caches) = elim (get states ost) [
  | none ↦ err key_error
  | some state ↦ elim (empty_ost_cache_ids states caches) [
    | err e ↦ err e
    | ok ids ↦ ok (if may_go state then ost ∷ ids else ids)
  ]
]

unfoldable pub remove_all : {V : Type 0} → List Text → Dict V → Dict V
remove_all [] d = d
remove_all (k ∷ ks) d = remove_all ks (remove d k)

unfoldable pub deallocate_empty_ost_caches : Exec Generator (Unit {0})
unfolding empty_ost_cache_ids remove_all
deallocate_empty_ost_caches g =
    elim (empty_ost_cache_ids g.ost_source_state_dict g.ost_cache_dict) [
      | err e ↦ (err e, g)
      | ok ids ↦
          let states = remove_all ids g.ost_source_state_dict in
          (
            ok tt,
            record g {
              ost_cache_dict = remove_all ids g.ost_cache_dict;
              ost_source_state_dict = states;
              source_ost_key_list = keys states;
            },
          )
    ]
