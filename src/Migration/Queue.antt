-- ===== src/Migration/Queue.antt =====
-- The tasks that are queued stay queued while a pass hands out more: `run` of
-- task/generator/lustre_ost_migration_task_generator.py.
use lustre_ost_performance_t.Base.{
  Bool-cases, List, Option, Option-cases, Result, [], arith, drop, err, inl, inr, length,
  length-append, none, ok, refl, some, suc, ℕ, ◌+◌, ◌==◌, ◌∷◌, ◌≡◌, ◌≤◌,
}
use lustre_ost_performance_t.Base.Exec.Keeps.{Keeps, bind-Keeps}
use lustre_ost_performance_t.Text.{Text}
use lustre_ost_performance_t.Dict.{get}
use lustre_ost_performance_t.Migration.{
  OstState, ready, locked, blocked, pending_lock, MigrateItem, Config, Generator,
}
use lustre_ost_performance_t.Migration.Dispatch.{
  pop_last, task_of, migrate, find_target, wrap, then_wrap, serve_source, visit_source,
  visit_sources,
}

-- The queue has at least that many tasks.
abbrev pub Holds : ℕ → Generator → Type 0
Holds n g = n ≤ length g.task_queue

module _ (cfg : Config) (targets : List Text) where
  -- The counters after one more target, and after one more source.
  abbrev pub looked_at : Generator → Generator
  looked_at g = record g { next_target_ost_key_index = g.next_target_ost_key_index + 1 }

  abbrev pub looked_on : Generator → Generator
  looked_on g = record g { next_source_ost_key_index = g.next_source_ost_key_index + 1 }

  pub migrate_more :
      (n : ℕ) (s t : Text) (item : MigrateItem) (cache : List MigrateItem) (g : Generator)
      → Holds n g
      → Holds (suc n) (migrate cfg s t item cache g)
  unfolding migrate
  migrate_more n s t item cache g h =
      omega (arith, h, length-append g.task_queue (task_of cfg s t item ∷ []))

  -- No part of the loop takes a task from the queue.
  at_target_keeps :
      (n : ℕ) (o : Option OstState) (s t : Text) (item : MigrateItem) (cache : List MigrateItem)
      (rest : List Text) (counter : ℕ) (g : Generator)
      → get g.ost_target_state_dict t ≡ o
      → Holds n g
      → Holds n (find_target cfg targets s item cache rest (counter + 1) (looked_at g)).1
      → Holds n (find_target cfg targets s item cache (t ∷ rest) counter g).1
  unfolding find_target
  at_target_keeps n none s t item cache rest counter g e h later = rw (e, find_target) h
  at_target_keeps n (some ready) s t item cache rest counter g e h later =
      rw (e, find_target) (omega (arith, migrate_more n s t item cache (looked_at g) h))
  at_target_keeps n (some locked) s t item cache rest counter g e h later =
      rw (e, find_target) later
  at_target_keeps n (some blocked) s t item cache rest counter g e h later =
      rw (e, find_target) later
  at_target_keeps n (some pending_lock) s t item cache rest counter g e h later =
      rw (e, find_target) later

  find_target-Keeps :
      (n : ℕ) (s : Text) (item : MigrateItem) (cache : List MigrateItem) (rest : List Text)
      (counter : ℕ)
      → Keeps (Holds n) (find_target cfg targets s item cache rest counter)
  find_target-Keeps n s item cache [] counter g h = unfold find_target in h
  find_target-Keeps n s item cache (t ∷ rest) counter g h =
      at_target_keeps n (get g.ost_target_state_dict t) s t item cache rest counter g refl h
        (find_target-Keeps n s item cache rest (counter + 1) (looked_at g) h)

  then_wrap_keeps :
      (n : ℕ) (r : Result ℕ × Generator) → Holds n r.1 → Holds n (then_wrap cfg targets r).1
  unfolding wrap
  then_wrap_keeps n (ok c, g) h = ground (arith, h)
  then_wrap_keeps n (err e, g) h = h

  cache_keeps :
      (n : ℕ) (s : Text) (counter : ℕ) (g : Generator) (c : Option (List MigrateItem))
      → get g.ost_cache_dict s ≡ c
      → Holds n g
      → Holds n (serve_source cfg targets s counter g).1
  unfolding serve_source
  cache_keeps n s counter g none e h = rw (e, serve_source) h
  cache_keeps n s counter g (some cache) e h = elim (Option-cases (pop_last cache)) [
    | inl p ↦ rw (e, serve_source, p) h
    | inr ((item, cache'), p) ↦
        rw (e, serve_source, p)
          (then_wrap_keeps n
            (find_target cfg targets s item cache' (drop g.next_target_ost_key_index targets)
              counter g)
            (find_target-Keeps n s item cache' (drop g.next_target_ost_key_index targets) counter g
              h))
  ]

  source_keeps :
      (n : ℕ) (o : Option OstState) (s : Text) (counter : ℕ) (g : Generator)
      → get g.ost_source_state_dict s ≡ o
      → Holds n g
      → Holds n (visit_source cfg targets s counter g).1
  unfolding visit_source
  source_keeps n none s counter g e h = rw (e, visit_source) h
  source_keeps n (some ready) s counter g e h =
      rw (e, visit_source) (cache_keeps n s counter g (get g.ost_cache_dict s) refl h)
  source_keeps n (some locked) s counter g e h = rw (e, visit_source) h
  source_keeps n (some blocked) s counter g e h = rw (e, visit_source) h
  source_keeps n (some pending_lock) s counter g e h = rw (e, visit_source) h

  pub visit_sources-Keeps :
      (n : ℕ) (rest : List Text) (counter : ℕ)
      → Keeps (Holds n) (visit_sources cfg targets rest counter)
  unfolding visit_sources
  visit_sources-Keeps n [] counter g h = h
  visit_sources-Keeps n (s ∷ rest) counter g h = elim (Bool-cases (counter == length targets)) [
    | inl e ↦ rw (e, visit_sources) h
    | inr e ↦
        rw (e, visit_sources)
          (bind-Keeps (Holds n) (visit_source cfg targets s counter)
            (visit_sources cfg targets rest)
            (λ g h. source_keeps n (get g.ost_source_state_dict s) s counter g refl h)
            (visit_sources-Keeps n rest)
            (record g { next_source_ost_key_index = g.next_source_ost_key_index + 1 }) h)
  ]
