-- ===== src/Migration/Release.antt =====
-- The TIDs of finished migrations are read back, and end the migrations they name.
use lustre_ost_performance_t.Base.{List, Result, [], false, ok, refl, ◌++◌, ◌∙◌, ◌∷◌, ◌≡◌}
use lustre_ost_performance_t.Text.{Text, contains}
use lustre_ost_performance_t.Text.Split.{split_lacks, split-append}
use lustre_ost_performance_t.Migration.{Generator, MigrateTask}
use lustre_ost_performance_t.Migration.States.{update_finished-Tracks}
use lustre_ost_performance_t.Migration.Dispatch.{
  tid_of, split_tid, release_source, release_target, finish_tid, drain,
}
use lustre_ost_performance_t.Migration.Exclusion.{Flight, sources_of, targets_of, tids_of, InFlight}

-- No name of an OST holds the colon that joins the names in a TID.
abbrev pub AreNamed : List Flight → Type 0
AreNamed [] = Unit {0}
AreNamed ((s, t) ∷ fs) = (contains b':' s ≡ false) × (contains b':' t ≡ false) × AreNamed fs

-- The TID of a migration names its two OSTs, if neither name holds a colon.
pub split_tid-tid_of :
    (s t : Text)
    → contains b':' s ≡ false
    → contains b':' t ≡ false
    → split_tid (tid_of s t) ≡ ok (s, t)
unfolding split_tid tid_of
split_tid-tid_of s t hs ht = rw (split_tid, split-append b':' s t hs, split_lacks b':' t ht) refl

-- The code returned; these are the migrations still under way, the tasks and the results queued.
abbrev pub Done :
    List Flight → List MigrateTask → List Text → Result (Unit {0}) × Generator → Type 0
Done fs tasks results (r, g) =
    (r ≡ ok tt) × (g.task_queue ≡ tasks) × (g.result_queue ≡ results) × InFlight fs g

finish_tid-Done :
    (s t : Text) (fs : List Flight) (g : Generator)
    → contains b':' s ≡ false
    → contains b':' t ≡ false
    → InFlight ((s, t) ∷ fs) g
    → Done fs g.task_queue g.result_queue (finish_tid (tid_of s t) g)
unfolding finish_tid release_source release_target
finish_tid-Done s t fs g hs ht (ts, tt') =
    let (ps, ks) = update_finished-Tracks g.ost_source_state_dict (sources_of fs) s ts in
    let (pt, kt) = update_finished-Tracks g.ost_target_state_dict (targets_of fs) t tt' in
    rw (split_tid-tid_of s t hs ht, ps, pt) (refl, refl, refl, (ks, kt))

-- Draining the queue of results releases what it names: with the TIDs of migrations under way in the
-- queue, whose OSTs' names hold no colon, no release raises, and afterwards every OST is in as many of the
-- other migrations as its state says.
pub drain-releases :
    (done rest : List Flight) (g : Generator)
    → g.result_queue ≡ tids_of done
    → AreNamed done
    → InFlight (done ++ rest) g
    → Done rest g.task_queue [] (drain (tids_of done) g)
unfolding drain
drain-releases [] rest g e n h = (refl, refl, e, h)
drain-releases ((s, t) ∷ done) rest g e (ns, nt, n) h =
    let g' = record g { result_queue = tids_of done } in
    let (p, q, r, h') = finish_tid-Done s t (done ++ rest) g' ns nt h in
    let (p', q', r', h'') = drain-releases done rest (finish_tid (tid_of s t) g').1 r n h' in
    rw p (p', q' ∙ q, r', h'')
