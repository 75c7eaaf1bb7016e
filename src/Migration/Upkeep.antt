-- ===== src/Migration/Upkeep.antt =====
-- Fill levels, input files and empty caches do not disturb the migrations under way.
use lustre_ost_performance_t.Base.{
  Bool, Bool-cases, List, Option-cases, Result, Result-cases, [], arith, err, false, if◌then◌else◌,
  inl, inr, is_nil, leb, not, ok, refl, some, subst, true, ℕ, ◌&&◌, ◌+◌, ◌∷◌, ◌≡◌,
}
use lustre_ost_performance_t.Base.Exec.{Exec}
use lustre_ost_performance_t.Base.Exec.Keeps.{Keeps, bind-Keeps}
use lustre_ost_performance_t.Text.{Text}
use lustre_ost_performance_t.Dict.{Dict, get, has, keys, remove}
use lustre_ost_performance_t.Dict.Laws.{get-remove}
use lustre_ost_performance_t.Migration.{
  MigrateTask, OstState, ready, locked, blocked, pending_lock, MigrateItem, Config, Generator, Side,
  source, target, is_suited, refill, update_by_fill_level,
}
use lustre_ost_performance_t.Migration.States.{
  Tracks, Tracks-put_same, Tracks-remove, load, refill_keeps_load,
}
use lustre_ost_performance_t.Migration.Caches.{
  update_ost_source_state_dict, update_ost_target_state_dict, update_sources, update_targets,
  allocate_one, allocate, list_sources, allocate_ost_caches, process_input_files, load_files,
  may_go, empty_ost_cache_ids, remove_all, deallocate_empty_ost_caches,
}
use lustre_ost_performance_t.Migration.Iteration.{
  Round, read_fill_levels, update_fill_levels, reload_files, print_caches, when_due, upkeep,
}
use lustre_ost_performance_t.Migration.Exclusion.{Flight, Kept}

update_by_fill_level-Tracks :
    (cfg : Config) (side : Side) (levels : Dict ℕ) (ost : Text) (osts : List Text)
    → Keeps (λ d. Tracks d osts) (update_by_fill_level cfg side levels ost)
unfolding update_by_fill_level
update_by_fill_level-Tracks cfg side levels ost osts d h = elim (Option-cases (get levels ost)) [
  | inl e ↦ rw (e, update_by_fill_level) h
  | inr (level, e) ↦
      rw (e, update_by_fill_level)
        (Tracks-put_same d osts ost (refill (is_suited cfg side level) (get d ost))
          (refill_keeps_load (is_suited cfg side level) (get d ost)) h)
]

module _ (cfg : Config) (before : List MigrateTask) (results : List Text) (fs : List Flight) where
  abbrev P : Generator → Type 0
  P = Kept before results fs

  update_source-Keeps : (ost : Text) → Keeps P (update_ost_source_state_dict cfg ost)
  unfolding update_ost_source_state_dict
  update_source-Keeps ost g (q, r, (hs, ht)) = (
    q,
    r,
    (
      update_by_fill_level-Tracks cfg source g.ost_fill_level_dict ost _ g.ost_source_state_dict hs,
      ht,
    ),
  )

  update_target-Keeps : (ost : Text) → Keeps P (update_ost_target_state_dict cfg ost)
  unfolding update_ost_target_state_dict
  update_target-Keeps ost g (q, r, (hs, ht)) = (
    q,
    r,
    (
      hs,
      update_by_fill_level-Tracks cfg target g.ost_fill_level_dict ost _ g.ost_target_state_dict ht,
    ),
  )

  update_sources-Keeps : (osts : List Text) → Keeps P (update_sources cfg osts)
  unfolding update_sources
  update_sources-Keeps [] = λ g h. h
  update_sources-Keeps (ost ∷ osts) =
      bind-Keeps P (update_ost_source_state_dict cfg ost) (λ _. update_sources cfg osts)
        (update_source-Keeps ost) (λ _. update_sources-Keeps osts)

  pub update_targets-Keeps : (osts : List Text) → Keeps P (update_targets cfg osts)
  unfolding update_targets
  update_targets-Keeps [] = λ g h. h
  update_targets-Keeps (ost ∷ osts) =
      bind-Keeps P (update_ost_target_state_dict cfg ost) (λ _. update_targets cfg osts)
        (update_target-Keeps ost) (λ _. update_targets-Keeps osts)

  either-Keeps : (b : Bool) (m : Exec Generator (Unit {0})) → Keeps P m → Keeps P (when_due cfg b m)
  either-Keeps true m k = k
  either-Keeps false m k = λ g h. h

  allocate_one-Keeps :
      (ost : Text) (cache : List MigrateItem) → Keeps P (allocate_one cfg ost cache)
  unfolding allocate_one
  allocate_one-Keeps ost cache g h =
      elim (Bool-cases (not (is_nil cache) && not (has g.ost_source_state_dict ost))) [
        | inl e ↦ rw (e, allocate_one) (update_source-Keeps ost g h)
        | inr e ↦ rw (e, allocate_one) h
      ]

  allocate-Keeps : (caches : Dict (List MigrateItem)) → Keeps P (allocate cfg caches)
  unfolding allocate
  allocate-Keeps [] = λ g h. h
  allocate-Keeps ((ost, cache) ∷ caches) =
      bind-Keeps P (allocate_one cfg ost cache) (λ _. allocate cfg caches)
        (allocate_one-Keeps ost cache) (λ _. allocate-Keeps caches)

  pub process_input_files-Keeps :
      (files : List (List Text)) → Keeps P (process_input_files cfg files)
  unfolding process_input_files allocate_ost_caches list_sources
  process_input_files-Keeps [] g h = h
  process_input_files-Keeps (f ∷ files) g h =
      bind-Keeps P (allocate cfg (load_files cfg (f ∷ files) g.ost_cache_dict))
        (λ _. list_sources cfg) (allocate-Keeps (load_files cfg (f ∷ files) g.ost_cache_dict))
        (λ _ g h. h) (record g { ost_cache_dict = load_files cfg (f ∷ files) g.ost_cache_dict }) h

-- No migration goes from these OSTs.
abbrev AllIdle : Dict OstState → List Text → Type 0
AllIdle d [] = Unit {0}
AllIdle d (k ∷ ks) = (load (get d k) ≡ 0) × AllIdle d ks

AllIdle-remove :
    (d : Dict OstState) (k : Text) (ks : List Text) → AllIdle d ks → AllIdle (remove d k) ks
AllIdle-remove d k [] h = tt
AllIdle-remove d k (j ∷ ks) (i, h) =
    (rw (get-remove d k j) (ground (arith, i)), AllIdle-remove d k ks h)

remove_all-Tracks :
    (osts : List Text) (ks : List Text) (d : Dict OstState)
    → AllIdle d ks
    → Tracks d osts
    → Tracks (remove_all ks d) osts
unfolding remove_all
remove_all-Tracks osts [] d i h = h
remove_all-Tracks osts (k ∷ ks) d (e, i) h =
    remove_all-Tracks osts ks (remove d k) (AllIdle-remove d k ks i) (Tracks-remove d osts k e h)

-- Only caches of OSTs in no migration are given up.
abbrev IdleIn : Dict OstState → Result (List Text) → Type 0
IdleIn d (ok ids) = AllIdle d ids
IdleIn d (err e) = Unit {0}

given_up :
    (d : Dict OstState) (ost : Text) (state : OstState) (r : Result (List Text))
    → get d ost ≡ some state
    → IdleIn d r
    → IdleIn d (elim r [ err e ↦ err e | ok ids ↦ ok (if may_go state then ost ∷ ids else ids) ])
given_up d ost state (err e) h i = tt
given_up d ost ready (ok ids) h i = (rw h refl, i)
given_up d ost locked (ok ids) h i = (rw h refl, i)
given_up d ost blocked (ok ids) h i = i
given_up d ost pending_lock (ok ids) h i = i

empty_ost_cache_ids-IdleIn :
    (d : Dict OstState) (caches : Dict (List MigrateItem)) → IdleIn d (empty_ost_cache_ids d caches)
unfolding empty_ost_cache_ids
empty_ost_cache_ids-IdleIn d [] = tt
empty_ost_cache_ids-IdleIn d ((ost, item ∷ items) ∷ caches) = empty_ost_cache_ids-IdleIn d caches
empty_ost_cache_ids-IdleIn d ((ost, []) ∷ caches) = elim (Option-cases (get d ost)) [
  | inl e ↦ rw (e, empty_ost_cache_ids) tt
  | inr (state, e) ↦
      rw (e, empty_ost_cache_ids)
        (given_up d ost state (empty_ost_cache_ids d caches) e
          (empty_ost_cache_ids-IdleIn d caches))
]

module _ (cfg : Config) (before : List MigrateTask) (results : List Text) (fs : List Flight) where
  deallocate-Keeps : Keeps (Kept before results fs) deallocate_empty_ost_caches
  unfolding deallocate_empty_ost_caches
  deallocate-Keeps g (q, r, (hs, ht)) =
      elim (Result-cases (empty_ost_cache_ids g.ost_source_state_dict g.ost_cache_dict)) [
        | inl (ids, e) ↦
            rw (e, deallocate_empty_ost_caches)
              (
                q,
                r,
                (
                  remove_all-Tracks _ ids g.ost_source_state_dict
                      (subst (IdleIn g.ost_source_state_dict) e
                        (empty_ost_cache_ids-IdleIn g.ost_source_state_dict g.ost_cache_dict))
                      hs,
                  ht,
                ),
              )
        | inr (x, e) ↦ rw (e, deallocate_empty_ost_caches) (q, r, (hs, ht))
      ]

  pub read_fill_levels-Keeps : (r : Round) → Keeps (Kept before results fs) (read_fill_levels cfg r)
  unfolding read_fill_levels
  read_fill_levels-Keeps r g h = elim (Result-cases r.fill_levels) [
    | inl (levels, e) ↦ rw (e, read_fill_levels) h
    | inr (x, e) ↦ rw (e, read_fill_levels) h
  ]

  update_fill_levels-Keeps : (r : Round) → Keeps (Kept before results fs) (update_fill_levels cfg r)
  unfolding update_fill_levels
  update_fill_levels-Keeps r g =
      bind-Keeps (Kept before results fs) (read_fill_levels cfg r) _ (read_fill_levels-Keeps r)
        (λ _.
          bind-Keeps (Kept before results fs) (update_sources cfg (keys g.ost_source_state_dict)) _
            (update_sources-Keeps cfg before results fs _)
            (λ _. update_targets-Keeps cfg before results fs (keys g.ost_target_state_dict)))
        (record g {
          next_time_update_fill_level = r.last_run_time + cfg.threshold_update_fill_level;
        })

  reload_files-Keeps : (r : Round) → Keeps (Kept before results fs) (reload_files cfg r)
  unfolding reload_files
  reload_files-Keeps r g h = process_input_files-Keeps cfg before results fs r.files _ h

  print_caches-Keeps : (r : Round) → Keeps (Kept before results fs) (print_caches cfg r)
  unfolding print_caches
  print_caches-Keeps r g h = deallocate-Keeps _ h

  pub upkeep-Keeps : (r : Round) → Keeps (Kept before results fs) (upkeep cfg r)
  unfolding upkeep
  upkeep-Keeps r =
      bind-Keeps (Kept before results fs)
        (λ g.
          when_due cfg (leb g.next_time_update_fill_level r.last_run_time)
            (update_fill_levels cfg r) g)
        _
        (λ g.
          either-Keeps cfg before results fs (leb g.next_time_update_fill_level r.last_run_time)
            (update_fill_levels cfg r) (update_fill_levels-Keeps r) g)
        (λ _.
          bind-Keeps (Kept before results fs)
            (λ g.
              when_due cfg (leb g.next_time_reload_files r.last_run_time) (reload_files cfg r) g)
            _
            (λ g.
              either-Keeps cfg before results fs (leb g.next_time_reload_files r.last_run_time)
                (reload_files cfg r) (reload_files-Keeps r) g)
            (λ _ g.
              either-Keeps cfg before results fs (leb g.next_time_print_caches r.last_run_time)
                (print_caches cfg r) (print_caches-Keeps r) g))
