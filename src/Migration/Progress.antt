-- ===== src/Migration/Progress.antt =====
-- A pass of the loop hands out a task where it can: `run` of
-- task/generator/lustre_ost_migration_task_generator.py.
use lustre_ost_performance_t.Base.{
  List, Option-cases, Result, [], ap, arith, drop, err, false, if◌then◌else◌, inl, inr, leb, length,
  ok, refl, some, subst, suc, sym, zero, ℕ, ◌+◌, ◌<◌, ◌==◌, ◌∙◌, ◌∷◌, ◌≡◌, ◌⊎◌,
}
use lustre_ost_performance_t.Base.Exec.{resume}
use lustre_ost_performance_t.Text.{Text}
use lustre_ost_performance_t.Dict.{get}
use lustre_ost_performance_t.Migration.{
  OstState, ready, locked, blocked, pending_lock, MigrateItem, Config, Generator,
}
use lustre_ost_performance_t.Migration.Queue.{
  Holds, looked_at, looked_on, migrate_more, visit_sources-Keeps,
}
use lustre_ost_performance_t.Migration.Dispatch.{
  pop_last, is_ready, find_target, wrap, then_wrap, serve_source, visit_source, visit_sources,
  dispatch,
}

-- The targets that are looked at have states, up to one that is ready.
abbrev pub HasReady : Generator → List Text → Type 0
HasReady g [] = ⊥
HasReady g (t ∷ ts) =
    (get g.ost_target_state_dict t ≡ some ready)
    ⊎ ((state : OstState) × (get g.ost_target_state_dict t ≡ some state) × HasReady g ts)

-- A source that is ready and has a file.
abbrev pub HasFile : Generator → Text → Type 0
HasFile g s =
    (x : MigrateItem) × (xs : List MigrateItem) × (get g.ost_source_state_dict s ≡ some ready)
    × (get g.ost_cache_dict s ≡ some (x ∷ xs))

-- A source that is passed over: it is not ready, or has no file.
abbrev pub IsIdle : Generator → Text → Type 0
IsIdle g s =
    (state : OstState) × (get g.ost_source_state_dict s ≡ some state)
    × ((is_ready state ≡ false) ⊎ (get g.ost_cache_dict s ≡ some []))

-- The sources that are looked at are passed over, up to one that has a file.
abbrev pub HasWork : Generator → List Text → Type 0
HasWork g [] = ⊥
HasWork g (s ∷ ss) = HasFile g s ⊎ IsIdle g s × HasWork g ss

-- With a target to look at, the loop does not end before its first source.
no_target :
    (ts : List Text) (k : ℕ) (g : Generator) → HasReady g (drop k ts) → (0 == length ts) ≡ false
no_target [] zero g r = absurd r
no_target [] (suc k) g r = absurd r
no_target (t ∷ ts) k g r = ground arith

module _ (cfg : Config) (targets : List Text) where
  -- A search that meets a ready target returns, and the queue is longer.
  Grows : ℕ → Result ℕ × Generator → Type 0
  Grows n out = ((c : ℕ) × (out.0 ≡ ok c)) × Holds (suc n) out.1

  module _ (n : ℕ) (s : Text) (item : MigrateItem) (cache : List MigrateItem) where
    at_ready :
        (t : Text) (rest : List Text) (counter : ℕ) (g : Generator)
        → get g.ost_target_state_dict t ≡ some ready
        → Holds n g
        → Grows n (find_target cfg targets s item cache (t ∷ rest) counter g)
    unfolding Grows find_target
    at_ready t rest counter g e h =
        rw (e, find_target)
          (
            (counter + 1, refl),
            migrate_more cfg targets n s t item cache (looked_at cfg targets g) h,
          )

    past_target :
        (t : Text) (rest : List Text) (counter : ℕ) (g : Generator) (state : OstState)
        → get g.ost_target_state_dict t ≡ some state
        → Holds n g
        → Grows n
            (find_target cfg targets s item cache rest (counter + 1) (looked_at cfg targets g))
        → Grows n (find_target cfg targets s item cache (t ∷ rest) counter g)
    unfolding Grows find_target
    past_target t rest counter g ready e h later = at_ready t rest counter g e h
    past_target t rest counter g locked e h later = rw (e, find_target) later
    past_target t rest counter g blocked e h later = rw (e, find_target) later
    past_target t rest counter g pending_lock e h later = rw (e, find_target) later

    find_target-Grows :
        (rest : List Text) (counter : ℕ) (g : Generator)
        → HasReady g rest
        → Holds n g
        → Grows n (find_target cfg targets s item cache rest counter g)
    find_target-Grows [] counter g r h = absurd r
    find_target-Grows (t ∷ rest) counter g (inl e) h = at_ready t rest counter g e h
    find_target-Grows (t ∷ rest) counter g (inr (state, e, r)) h =
        past_target t rest counter g state e h
          (find_target-Grows rest (counter + 1) (looked_at cfg targets g) r h)

  then_wrap-Grows :
      (n : ℕ) (r : Result ℕ × Generator) → Grows n r → Grows n (then_wrap cfg targets r)
  unfolding Grows wrap
  then_wrap-Grows n (ok c, g) (found, h) = ((c, refl), ground (arith, h))
  then_wrap-Grows n (err e, g) ((c, e'), h) = cc

  pop_some :
      (x : MigrateItem) (xs : List MigrateItem)
      → (item : MigrateItem) × (rest : List MigrateItem) × (pop_last (x ∷ xs) ≡ some (item, rest))
  unfolding pop_last
  pop_some x xs = elim (Option-cases (pop_last xs)) [
    | inl p ↦ (x, [], rw p refl)
    | inr ((y, ys), p) ↦ (y, x ∷ ys, rw p refl)
  ]

  serve-Grows :
      (n : ℕ) (s : Text) (counter : ℕ) (g : Generator) (x : MigrateItem) (xs : List MigrateItem)
      → get g.ost_cache_dict s ≡ some (x ∷ xs)
      → HasReady g (drop g.next_target_ost_key_index targets)
      → Holds n g
      → Grows n (serve_source cfg targets s counter g)
  unfolding serve_source
  serve-Grows n s counter g x xs e r h =
      let (item, rest, p) = pop_some x xs in
      rw (e, serve_source, p)
        (then_wrap-Grows n
          (find_target cfg targets s item rest (drop g.next_target_ost_key_index targets) counter g)
          (find_target-Grows n s item rest (drop g.next_target_ost_key_index targets) counter g r
            h))

  visit-Grows :
      (n : ℕ) (s : Text) (counter : ℕ) (g : Generator)
      → HasFile g s
      → HasReady g (drop g.next_target_ost_key_index targets)
      → Holds n g
      → Grows n (visit_source cfg targets s counter g)
  unfolding visit_source
  visit-Grows n s counter g (x, xs, e, c) r h =
      rw (e, visit_source) (serve-Grows n s counter g x xs c r h)

  serve_empty :
      (s : Text) (counter : ℕ) (g : Generator)
      → get g.ost_cache_dict s ≡ some []
      → serve_source cfg targets s counter g ≡ (ok counter, g)
  unfolding serve_source pop_last
  serve_empty s counter g c = rw (c, serve_source) refl

  visit_idle :
      (s : Text) (counter : ℕ) (g : Generator) (state : OstState)
      → get g.ost_source_state_dict s ≡ some state
      → (is_ready state ≡ false) ⊎ (get g.ost_cache_dict s ≡ some [])
      → visit_source cfg targets s counter g ≡ (ok counter, g)
  unfolding visit_source
  visit_idle s counter g ready e (inl b) = cc
  visit_idle s counter g ready e (inr c) = rw (e, visit_source) (serve_empty s counter g c)
  visit_idle s counter g locked e b = rw (e, visit_source) refl
  visit_idle s counter g blocked e b = rw (e, visit_source) refl
  visit_idle s counter g pending_lock e b = rw (e, visit_source) refl

  visit_sources_step :
      (s : Text) (rest : List Text) (g : Generator)
      → (0 == length targets) ≡ false
      → visit_sources cfg targets (s ∷ rest) 0 g
        ≡ resume
            (visit_source cfg targets s 0 (looked_on cfg targets g)).0
            (visit_sources cfg targets rest)
            (visit_source cfg targets s 0 (looked_on cfg targets g)).1
  unfolding visit_sources visit_source
  visit_sources_step s rest g e = rw (e, visit_sources) refl

  resume-Grows :
      (n : ℕ) (rest : List Text) (out : Result ℕ × Generator)
      → Grows n out
      → Holds (suc n) (resume out.0 (visit_sources cfg targets rest) out.1).1
  unfolding Grows
  resume-Grows n rest (ok c, g) (found, h) = visit_sources-Keeps cfg targets (suc n) rest c g h
  resume-Grows n rest (err e, g) ((c, e'), h) = cc

  visit_sources_grows :
      (n : ℕ) (rest : List Text) (g : Generator)
      → HasWork g rest
      → HasReady g (drop g.next_target_ost_key_index targets)
      → Holds n g
      → Holds (suc n) (visit_sources cfg targets rest 0 g).1
  visit_sources_grows n [] g w r h = absurd w
  visit_sources_grows n (s ∷ rest) g (inl f) r h =
      subst (λ out. Holds (suc n) out.1)
        (sym (visit_sources_step s rest g (no_target targets _ g r)))
        (resume-Grows n rest (visit_source cfg targets s 0 (looked_on cfg targets g))
          (visit-Grows n s 0 (looked_on cfg targets g) f r h))
  visit_sources_grows n (s ∷ rest) g (inr ((state, e, b), w)) r h =
      subst (λ out. Holds (suc n) out.1)
        (sym (
          visit_sources_step s rest g (no_target targets _ g r)
          ∙ ap (λ out. resume out.0 (visit_sources cfg targets rest) out.1)
              (visit_idle s 0 (looked_on cfg targets g) state e b)))
        (visit_sources_grows n rest (looked_on cfg targets g) w r h)

  -- The sources that a pass looks at: from where the last pass stopped, or from the first one.
  abbrev pub next_sources : Generator → List Text
  next_sources g =
      drop
        (if leb (length g.source_ost_key_list) g.next_source_ost_key_index
          then 0
          else g.next_source_ost_key_index)
        g.source_ost_key_list

  -- If one of the sources that the pass looks at is ready and has a file, those before it have states
  -- and caches and are not ready or have no file, and one of the targets that are next is ready,
  -- those before it having states: then the pass hands out at least one task, whatever follows.
  pub dispatch_grows :
      (g : Generator)
      → HasWork g (next_sources g)
      → HasReady g (drop g.next_target_ost_key_index targets)
      → length g.task_queue < length (dispatch cfg targets g).1.task_queue
  unfolding dispatch
  dispatch_grows g w r =
      let start =
        if leb (length g.source_ost_key_list) g.next_source_ost_key_index
        then 0
        else g.next_source_ost_key_index in
      omega (
        arith,
        visit_sources_grows (length g.task_queue) (next_sources g)
            (record g { next_source_ost_key_index = start }) w r (omega arith),
      )
