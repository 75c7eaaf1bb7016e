-- ===== src/Migration/System.antt =====
-- The generator among the master and the controllers: tasks are fetched, migrations are reported done in
-- any order, and the loop goes on.
use lustre_ost_performance_t.Base.{
  ==_refl, List, Result, [], ap, arith, drop, false, inl, inr, ok, refl, subst, sym, true, ℕ, ◌++◌,
  ◌∙◌, ◌∷◌, ◌≡◌, ◌≤◌,
}
use lustre_ost_performance_t.Text.{Text, contains}
use lustre_ost_performance_t.Migration.{Config, Generator, MigrateTask}
use lustre_ost_performance_t.Migration.States.{count, count-append}
use lustre_ost_performance_t.Migration.Dispatch.{tid_of}
use lustre_ost_performance_t.Migration.Iteration.{Round, iterate, initialize}
use lustre_ost_performance_t.Migration.Exclusion.{
  Flight, sources_of, targets_of, tids_of, queued, InFlight, sources_of-append, targets_of-append,
}
use lustre_ost_performance_t.Migration.Release.{AreNamed}
use lustre_ost_performance_t.Migration.Flights.{
  Outcome, iterate-Outcome, initialize-Kept, InFlight-once,
}

contains-append : (sep : ℕ) (s t : Text) → contains sep (s ++ sep ∷ t) ≡ true
unfolding contains
contains-append sep [] t = ground (arith, ==_refl sep)
contains-append sep (c ∷ s) t = ground (arith, contains-append sep s t)

-- The one colon of a TID tells its two names apart.
tid_of_unique :
    (s t s' t' : Text)
    → contains b':' s ≡ false
    → contains b':' t ≡ false
    → tid_of s t ≡ tid_of s' t'
    → (s ≡ s') × (t ≡ t')
unfolding contains tid_of
tid_of_unique [] t [] t' hs ht e = (refl, ap (drop 1) e)
tid_of_unique [] t (c ∷ s') t' hs ht e = absurd (ground (arith, contains-append b':' s' t'))
tid_of_unique (c ∷ s) t [] t' hs ht e = absurd (ground arith)
tid_of_unique (c ∷ s) t (d ∷ s') t' hs ht e =
    let (p, q) = tid_of_unique s t s' t' (ground arith) ht (ap (drop 1) e) in (ground (arith, p), q)

abbrev first : List Text → Text
first [] = []
first (x ∷ xs) = x

tids_of_unique : (fs gs : List Flight) → AreNamed fs → tids_of fs ≡ tids_of gs → fs ≡ gs
tids_of_unique [] [] n e = refl
tids_of_unique [] (g ∷ gs) n e = cc
tids_of_unique (f ∷ fs) [] n e = cc
tids_of_unique ((s, t) ∷ fs) ((s', t') ∷ gs) (ns, nt, n) e =
    let (p, q) = tid_of_unique s t s' t' ns nt (ap first e) in
    cc (p, q, tids_of_unique fs gs n (ap (drop 1) e))

append-cancel : (xs ys zs : List Text) → xs ++ ys ≡ xs ++ zs → ys ≡ zs
append-cancel [] ys zs e = e
append-cancel (x ∷ xs) ys zs e = append-cancel xs ys zs (ap (drop 1) e)

AreNamed-append : (fs gs : List Flight) → AreNamed fs → AreNamed gs → AreNamed (fs ++ gs)
AreNamed-append [] gs n m = m
AreNamed-append ((s, t) ∷ fs) gs (ns, nt, n) m = (ns, nt, AreNamed-append fs gs n m)

AreNamed-split :
    (fs : List Flight) (f : Flight) (gs : List Flight)
    → AreNamed (fs ++ f ∷ gs)
    → AreNamed (fs ++ gs) × AreNamed (f ∷ [])
AreNamed-split [] (s, t) gs (ns, nt, m) = (m, (ns, nt, tt))
AreNamed-split ((s, t) ∷ fs) f gs (ns, nt, n) =
    let (a, b) = AreNamed-split fs f gs n in ((ns, nt, a), b)

-- The states of the generator with the migrations that are under way elsewhere, and those that are done and
-- whose TIDs wait in its queue of results.
pub data Reach (cfg : Config) (targets : List Text)
    : Generator → List Flight → List Flight → Type 0 where
  started :
      (r : Round) (g : Generator)
      → g.ost_source_state_dict ≡ []
      → g.ost_target_state_dict ≡ []
      → g.result_queue ≡ []
      → Reach cfg targets (initialize cfg r g).1 [] []
  fetched :
      (g : Generator) (away done : List Flight) (tasks : List MigrateTask)
      → Reach cfg targets g away done
      → Reach cfg targets (record g { task_queue = tasks }) away done
  reported :
      (g : Generator) (s t : Text) (before after done : List Flight)
      → Reach cfg targets g (before ++ (s, t) ∷ after) done
      → Reach cfg targets
          (record g { result_queue = g.result_queue ++ tid_of s t ∷ [] })
          (before ++ after)
          (done ++ (s, t) ∷ [])
  iterated :
      (r : Round) (g : Generator) (away done new : List Flight)
      → Reach cfg targets g away done
      → (iterate cfg targets r g).0 ≡ ok tt
      → AreNamed new
      → queued (iterate cfg targets r g).1.task_queue ≡ queued g.task_queue ++ tids_of new
      → Reach cfg targets (iterate cfg targets r g).1 (away ++ new) []

-- The order of the list does not matter to the states.
InFlight-count :
    (fs gs : List Flight) (g : Generator)
    → ((k : Text) → count (sources_of fs) k ≡ count (sources_of gs) k)
    → ((k : Text) → count (targets_of fs) k ≡ count (targets_of gs) k)
    → InFlight fs g
    → InFlight gs g
InFlight-count fs gs g es et (hs, ht) = (λ k. hs k ∙ es k, λ k. ht k ∙ et k)

InFlight-reported :
    (done before after : List Flight) (f : Flight) (g : Generator)
    → InFlight (done ++ (before ++ f ∷ after)) g
    → InFlight ((done ++ f ∷ []) ++ (before ++ after)) g
unfolding count
InFlight-reported done before after (s, t) g =
    InFlight-count _ _ g (λ k. simp (sources_of-append, count-append) (ground arith))
      (λ k. simp (targets_of-append, count-append) (ground arith))

-- The queue of results holds the TIDs of the migrations that are done.
pub record IsSound (g : Generator) (away done : List Flight) : Type 0 where
  pub results : g.result_queue ≡ tids_of done
  pub named : AreNamed away × AreNamed done
  pub in_flight : InFlight (done ++ away) g

tids_of-append : (fs gs : List Flight) → tids_of (fs ++ gs) ≡ tids_of fs ++ tids_of gs
tids_of-append [] gs = refl
tids_of-append ((s, t) ∷ fs) gs = ap (λ l. tid_of s t ∷ l) (tids_of-append fs gs)

after_iteration :
    (away done new : List Flight) (before : List Text) (o : Result (Unit {0}) × Generator)
    → o.0 ≡ ok tt
    → AreNamed away
    → AreNamed new
    → queued o.1.task_queue ≡ before ++ tids_of new
    → Outcome before done away o
    → IsSound o.1 (away ++ new) []
after_iteration away done new before (r, g) ret na nn q (inl ((e, raised), h)) = cc
after_iteration away done new before (r, g) ret na nn q (inr (new', q', e, h)) =
    let same =
      tids_of_unique new new' nn (append-cancel before (tids_of new) (tids_of new') (sym q ∙ q')) in
    record {
      results = e;
      named = (AreNamed-append away new na nn, tt);
      in_flight = subst (λ l. InFlight (away ++ l) g) (sym same) h;
    }

Reach-IsSound :
    (cfg : Config) (targets : List Text) (g : Generator) (away done : List Flight)
    → Reach cfg targets g away done
    → IsSound g away done
Reach-IsSound cfg targets _ _ _ (started r g es et eq) =
    let (k, l, i) = initialize-Kept cfg r g es et in
    record { results = l ∙ eq; named = (tt, tt); in_flight = i }
Reach-IsSound cfg targets _ _ _ (fetched g away done tasks h) =
    let s = Reach-IsSound cfg targets g away done h in
    record { results = s.results; named = s.named; in_flight = s.in_flight }
Reach-IsSound cfg targets _ _ _ (reported g s t before after done h) =
    let i = Reach-IsSound cfg targets g (before ++ (s, t) ∷ after) done h in
    let (na, nf) = AreNamed-split before (s, t) after i.named.0 in
    record {
      results = rw (tids_of-append done ((s, t) ∷ []), i.results) refl;
      named = (na, AreNamed-append done ((s, t) ∷ []) i.named.1 nf);
      in_flight = InFlight-reported done before after (s, t) g i.in_flight;
    }
Reach-IsSound cfg targets _ _ _ (iterated r g away done new h ret nn q) =
    let i = Reach-IsSound cfg targets g away done h in
    after_iteration away done new (queued g.task_queue) (iterate cfg targets r g) ret i.named.0 nn q
      (iterate-Outcome cfg targets r done away g i.results i.named.1 i.in_flight)

-- However tasks are fetched, migrations are reported, and the loop goes on, as long as its iterations do
-- not raise and the OSTs of the migrations that they hand out have names without a colon: no OST is ever
-- the source of two migrations that are under way, and none is the target of two.
pub never_twice :
    (cfg : Config) (targets : List Text) (g : Generator) (away done : List Flight) (ost : Text)
    → Reach cfg targets g away done
    → (count (sources_of (done ++ away)) ost ≤ 1) × (count (targets_of (done ++ away)) ost ≤ 1)
never_twice cfg targets g away done ost h =
    InFlight-once (done ++ away) g ost (Reach-IsSound cfg targets g away done h).in_flight
