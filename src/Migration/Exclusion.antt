-- ===== src/Migration/Exclusion.antt =====
-- Which migrations are under way, read off the states of the OSTs: what dispatch adds to them.
use lustre_ost_performance_t.Base.{
  Bool-cases, List, Option, Option-cases, Result, [], ap, append-nil, append_assoc, arith, drop,
  err, if◌then◌else◌, inl, inr, leb, length, none, ok, refl, some, subst, sym, ℕ, ◌++◌, ◌+◌, ◌==◌,
  ◌∷◌, ◌≡◌,
}
use lustre_ost_performance_t.Base.Exec.Keeps.{Keeps, bind-Keeps}
use lustre_ost_performance_t.Text.{Text}
use lustre_ost_performance_t.Dict.{get, put}
use lustre_ost_performance_t.Migration.{
  OstState, ready, locked, blocked, pending_lock, MigrateItem, MigrateTask, Config, Generator,
}
use lustre_ost_performance_t.Migration.States.{Tracks, Tracks-put_more}
use lustre_ost_performance_t.Migration.Dispatch.{
  pop_last, tid_of, task_of, migrate, find_target, wrap, then_wrap, serve_source, visit_source,
  visit_sources, dispatch,
}

-- A migration from a source OST to a target OST.
abbrev pub Flight : Type 0
Flight = Text × Text

abbrev pub sources_of : List Flight → List Text
sources_of [] = []
sources_of ((s, t) ∷ fs) = s ∷ sources_of fs

abbrev pub targets_of : List Flight → List Text
targets_of [] = []
targets_of ((s, t) ∷ fs) = t ∷ targets_of fs

abbrev pub tids_of : List Flight → List Text
tids_of [] = []
tids_of ((s, t) ∷ fs) = tid_of s t ∷ tids_of fs

abbrev pub queued : List MigrateTask → List Text
queued [] = []
queued (task ∷ tasks) = task.tid ∷ queued tasks

pub sources_of-append :
    (fs gs : List Flight) → sources_of (fs ++ gs) ≡ sources_of fs ++ sources_of gs
sources_of-append [] gs = refl
sources_of-append ((s, t) ∷ fs) gs = ap (λ l. s ∷ l) (sources_of-append fs gs)

pub targets_of-append :
    (fs gs : List Flight) → targets_of (fs ++ gs) ≡ targets_of fs ++ targets_of gs
targets_of-append [] gs = refl
targets_of-append ((s, t) ∷ fs) gs = ap (λ l. t ∷ l) (targets_of-append fs gs)

tids_of-append : (fs gs : List Flight) → tids_of (fs ++ gs) ≡ tids_of fs ++ tids_of gs
tids_of-append [] gs = refl
tids_of-append ((s, t) ∷ fs) gs = ap (λ l. tid_of s t ∷ l) (tids_of-append fs gs)

queued-append : (ts us : List MigrateTask) → queued (ts ++ us) ≡ queued ts ++ queued us
queued-append [] us = refl
queued-append (t ∷ ts) us = ap (λ l. t.tid ∷ l) (queued-append ts us)

-- Every OST is in as many of these migrations as its state says, as a source and as a target.
abbrev pub InFlight : List Flight → Generator → Type 0
InFlight fs g =
    Tracks g.ost_source_state_dict (sources_of fs) × Tracks g.ost_target_state_dict (targets_of fs)

-- Nothing was handed out and no result taken.
abbrev pub Kept : List MigrateTask → List Text → List Flight → Generator → Type 0
Kept tasks results fs g = (g.task_queue ≡ tasks) × (g.result_queue ≡ results) × InFlight fs g

-- Further migrations were handed out, with a task each, at the end of the queue; no result was taken.
abbrev pub Issued : List Text → List Text → List Flight → Generator → Type 0
Issued before results fs g =
    (new : List Flight) × (queued g.task_queue ≡ before ++ tids_of new)
    × (g.result_queue ≡ results)
    × InFlight (fs ++ new) g

module _ (cfg : Config) (before results : List Text) (fs : List Flight) where
  P : Generator → Type 0
  P = Issued before results fs

  migrate-Issued :
      (s t : Text) (item : MigrateItem) (cache : List MigrateItem) (g : Generator)
      → get g.ost_source_state_dict s ≡ some ready
      → get g.ost_target_state_dict t ≡ some ready
      → P g
      → P (migrate cfg s t item cache g)
  unfolding P migrate
  migrate-Issued s t item cache g es et (new, q, r, (hs, ht)) = (
    new ++ (s, t) ∷ [],
    rw (queued-append g.task_queue (task_of cfg s t item ∷ []), q, tids_of-append new ((s, t) ∷ []))
        (simp (append_assoc)),
    r,
    (
      subst (Tracks (put g.ost_source_state_dict s blocked))
          (simp (sources_of-append, append_assoc))
          (Tracks-put_more g.ost_source_state_dict (sources_of (fs ++ new)) s es hs),
      subst (Tracks (put g.ost_target_state_dict t blocked))
          (simp (targets_of-append, append_assoc))
          (Tracks-put_more g.ost_target_state_dict (targets_of (fs ++ new)) t et ht),
    ),
  )

  looked_at : Generator → Generator
  looked_at g = record g { next_target_ost_key_index = g.next_target_ost_key_index + 1 }

  -- What a search keeps when it raises, when it goes on, and when it hands out a migration.
  module _ (targets : List Text) (s : Text) (item : MigrateItem) (cache : List MigrateItem) where
    at_target :
        (o : Option OstState) (t : Text) (rest : List Text) (counter : ℕ) (g : Generator)
        → get g.ost_target_state_dict t ≡ o
        → get g.ost_source_state_dict s ≡ some ready
        → P g
        → P (find_target cfg targets s item cache rest (counter + 1) (looked_at g)).1
        → P (find_target cfg targets s item cache (t ∷ rest) counter g).1
    unfolding P find_target looked_at
    at_target none t rest counter g et es h later = rw (et, find_target) h
    at_target (some ready) t rest counter g et es h later =
        rw (et, find_target) (migrate-Issued s t item cache (looked_at g) es et h)
    at_target (some locked) t rest counter g et es h later = rw (et, find_target) later
    at_target (some blocked) t rest counter g et es h later = rw (et, find_target) later
    at_target (some pending_lock) t rest counter g et es h later = rw (et, find_target) later

    find_target-Issued :
        (rest : List Text) (counter : ℕ) (g : Generator)
        → get g.ost_source_state_dict s ≡ some ready
        → P g
        → P (find_target cfg targets s item cache rest counter g).1
    unfolding P find_target looked_at
    find_target-Issued [] counter g es h = h
    find_target-Issued (t ∷ rest) counter g es h =
        at_target (get g.ost_target_state_dict t) t rest counter g refl es h
          (find_target-Issued rest (counter + 1) (looked_at g) es h)

  module _ (targets : List Text) where
    then_wrap-Issued : (r : Result ℕ × Generator) → P r.1 → P (then_wrap cfg targets r).1
    unfolding P wrap
    then_wrap-Issued (ok n, g) h = ground (arith, h)
    then_wrap-Issued (err e, g) h = h

    from_cache :
        (s : Text) (counter : ℕ) (g : Generator) (c : Option (List MigrateItem))
        → get g.ost_cache_dict s ≡ c
        → get g.ost_source_state_dict s ≡ some ready
        → P g
        → P (serve_source cfg targets s counter g).1
    unfolding P serve_source
    from_cache s counter g none e es h = rw (e, serve_source) h
    from_cache s counter g (some cache) e es h = elim (Option-cases (pop_last cache)) [
      | inl p ↦ rw (e, serve_source, p) h
      | inr ((item, cache'), p) ↦
          rw (e, serve_source, p)
            (then_wrap-Issued
              (find_target cfg targets s item cache' (drop g.next_target_ost_key_index targets)
                counter g)
              (find_target-Issued targets s item cache' (drop g.next_target_ost_key_index targets)
                counter g es h))
    ]

    at_source :
        (o : Option OstState) (s : Text) (counter : ℕ) (g : Generator)
        → get g.ost_source_state_dict s ≡ o
        → P g
        → P (visit_source cfg targets s counter g).1
    unfolding P visit_source
    at_source none s counter g es h = rw (es, visit_source) h
    at_source (some ready) s counter g es h =
        rw (es, visit_source) (from_cache s counter g (get g.ost_cache_dict s) refl es h)
    at_source (some locked) s counter g es h = rw (es, visit_source) h
    at_source (some blocked) s counter g es h = rw (es, visit_source) h
    at_source (some pending_lock) s counter g es h = rw (es, visit_source) h

    visit_sources-Issued :
        (rest : List Text) (counter : ℕ) → Keeps P (visit_sources cfg targets rest counter)
    unfolding visit_sources
    visit_sources-Issued [] counter g h = h
    visit_sources-Issued (s ∷ rest) counter g h = elim (Bool-cases (counter == length targets)) [
      | inl e ↦ rw (e, visit_sources) h
      | inr e ↦
          rw (e, visit_sources)
            (bind-Keeps P (visit_source cfg targets s counter) (visit_sources cfg targets rest)
              (λ g h. at_source (get g.ost_source_state_dict s) s counter g refl h)
              (visit_sources-Issued rest)
              (record g { next_source_ost_key_index = g.next_source_ost_key_index + 1 })
              (unfold P in h))
    ]

-- Dispatch hands out migrations between OSTs that are in none: if before it every OST is in as many of
-- the migrations under way as its state says, then so it is after it with the new ones, and the queue is
-- the one before followed by a task for each new one, in this order, also when dispatch raises.
pub dispatch-Issued :
    (cfg : Config) (targets : List Text) (fs : List Flight) (g : Generator)
    → InFlight fs g
    → Issued (queued g.task_queue) g.result_queue fs (dispatch cfg targets g).1
unfolding dispatch P
dispatch-Issued cfg targets fs g h =
    let start =
      if leb (length g.source_ost_key_list) g.next_source_ost_key_index
      then 0
      else g.next_source_ost_key_index in
    visit_sources-Issued cfg (queued g.task_queue) g.result_queue fs targets
      (drop start g.source_ost_key_list) 0 (record g { next_source_ost_key_index = start })
      ([], sym (append-nil (queued g.task_queue)), refl, rw (append-nil fs) h)
