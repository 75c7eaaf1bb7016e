-- ===== src/Migration/Dispatch.antt =====
-- One pass of the loop in `run`: pairs of OSTs that are ready get a task, and the OSTs of finished
-- tasks are released.
use lustre_ost_performance_t.Base.{
  Bool, List, Option, Result, [], drop, err, false, if◌then◌else◌, key_error, leb, length, none, ok,
  some, true, value_error, ℕ, ◌++◌, ◌+◌, ◌==◌, ◌∷◌,
}
use lustre_ost_performance_t.Base.Exec.{Exec, lift, ◌>>=◌, ◌>>◌}
use lustre_ost_performance_t.Text.{Text, split}
use lustre_ost_performance_t.Dict.{get, put}
use lustre_ost_performance_t.Migration.{
  OstState, ready, blocked, MigrateItem, MigrateTask, Config, Generator, update_finished,
}

-- `list.pop()`
unfoldable pub pop_last : {A : Type 0} → List A → Option (A × List A)
pop_last [] = none
pop_last (x ∷ xs) = elim (pop_last xs) [ none ↦ some (x, []) | some (y, ys) ↦ some (y, x ∷ ys) ]

-- `f"{source_ost}:{target_ost}"`
unfoldable pub tid_of : Text → Text → Text
tid_of source_ost target_ost = source_ost ++ b':' ∷ target_ost

unfoldable pub task_of : Config → Text → Text → MigrateItem → MigrateTask
unfolding tid_of
task_of cfg source_ost target_ost item = record {
  tid = tid_of source_ost target_ost;
  move = if cfg.local_mode then none else some (source_ost, target_ost, item.filename);
}

-- The last file of the cache goes into a task, and both OSTs are blocked.
unfoldable pub migrate :
    Config → Text → Text → MigrateItem → List MigrateItem → Generator → Generator
unfolding task_of
migrate cfg source_ost target_ost item cache g = record g {
  ost_cache_dict = put g.ost_cache_dict source_ost cache;
  task_queue = g.task_queue ++ task_of cfg source_ost target_ost item ∷ [];
  ost_source_state_dict = put g.ost_source_state_dict source_ost blocked;
  ost_target_state_dict = put g.ost_target_state_dict target_ost blocked;
}

abbrev pub is_ready : OstState → Bool
is_ready ready = true
is_ready _ = false

module _ (cfg : Config) (targets : List Text) where
  -- The inner loop over the targets that are left, for a source with this last item; the result is
  -- the counter of the targets looked at.
  unfoldable pub find_target :
      Text → MigrateItem → List MigrateItem → List Text → ℕ → Exec Generator ℕ
  find_target source_ost item cache [] counter g = (ok counter, g)
  find_target source_ost item cache (target_ost ∷ rest) counter g =
      let g' = record g { next_target_ost_key_index = g.next_target_ost_key_index + 1 } in
      elim (get g.ost_target_state_dict target_ost) [
        | none ↦ (err key_error, g')
        | some state ↦
            let later = find_target source_ost item cache rest (counter + 1) g' in
            if is_ready state
            then (ok (counter + 1), migrate cfg source_ost target_ost item cache g')
            else later
      ]

  -- `if next_target_ost_key_index == len_target_ost_key_list`
  unfoldable pub wrap : Generator → Generator
  wrap g =
      if g.next_target_ost_key_index == length targets
      then record g { next_target_ost_key_index = 0 }
      else g

  abbrev pub then_wrap : Result ℕ × Generator → Result ℕ × Generator
  then_wrap (ok counter, g) = (ok counter, wrap g)
  then_wrap (err e, g) = (err e, g)

  -- The inner loop for a ready source, if its cache has an item.
  unfoldable pub serve_source : Text → ℕ → Exec Generator ℕ
  unfolding pop_last find_target
  serve_source source_ost counter g = elim (get g.ost_cache_dict source_ost) [
    | none ↦ (err key_error, g)
    | some cache ↦ elim (pop_last cache) [
      | none ↦ (ok counter, g)
      | some (item, cache') ↦
          then_wrap (
            find_target source_ost item cache' (drop g.next_target_ost_key_index targets) counter g)
    ]
  ]

  unfoldable pub visit_source : Text → ℕ → Exec Generator ℕ
  unfolding serve_source
  visit_source source_ost counter g = elim (get g.ost_source_state_dict source_ost) [
    | none ↦ (err key_error, g)
    | some state ↦ if is_ready state then serve_source source_ost counter g else (ok counter, g)
  ]

  -- The outer loop over the sources that are left; it also ends when the counter is the number of
  -- targets.
  unfoldable pub visit_sources : List Text → ℕ → Exec Generator (Unit {0})
  unfolding visit_source
  visit_sources [] counter g = (ok tt, g)
  visit_sources (source_ost ∷ rest) counter g =
      let g' = record g { next_source_ost_key_index = g.next_source_ost_key_index + 1 } in
      let later = (visit_source source_ost counter >>= visit_sources rest) g' in
      if counter == length targets then (ok tt, g) else later

  unfoldable pub dispatch : Exec Generator (Unit {0})
  unfolding visit_sources
  dispatch g =
      let i = g.next_source_ost_key_index in
      let start = if leb (length g.source_ost_key_list) i then 0 else i in
      visit_sources (drop start g.source_ost_key_list) 0
        (record g { next_source_ost_key_index = start })

-- `source_ost, target_ost = finished_tid.split(":")`
unfoldable pub split_tid : Text → Result (Text × Text)
split_tid finished_tid = elim (split b':' finished_tid) [
  | s ∷ t ∷ [] ↦ ok (s, t)
  | _ ↦ err value_error
]

unfoldable pub release_source : Text → Exec Generator (Unit {0})
release_source ost g =
    let (done, d) = update_finished ost g.ost_source_state_dict in
    (done, record g { ost_source_state_dict = d })

unfoldable pub release_target : Text → Exec Generator (Unit {0})
release_target ost g =
    let (done, d) = update_finished ost g.ost_target_state_dict in
    (done, record g { ost_target_state_dict = d })

unfoldable pub finish_tid : Text → Exec Generator (Unit {0})
unfolding split_tid release_source release_target
finish_tid finished_tid = do
  (source_ost, target_ost) ← lift (split_tid finished_tid)
  release_source source_ost
  release_target target_ost

-- `while not self._result_queue.is_empty()`
unfoldable pub drain : List Text → Exec Generator (Unit {0})
unfolding finish_tid
drain [] g = (ok tt, g)
drain (finished_tid ∷ rest) g =
    (finish_tid finished_tid >> drain rest) (record g { result_queue = rest })
