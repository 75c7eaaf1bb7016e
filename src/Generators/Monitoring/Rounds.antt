-- ===== src/Generators/Monitoring/Rounds.antt =====
-- task/generator/lustre_monitoring_task_generator.py: what the rounds of the loop make of the queue.
use lustre_ost_performance_t.Base.{
  >>=-eq-ok, Bool, Bool-cases, Error, List, Result, [], ap, drop, err, false, if_false, if_true,
  if◌then◌else◌, inl, inr, is_nil, map, ok, refl, some, subst, sym, true, ◌↔◌, ◌∙◌, ◌∷◌, ◌≡◌, ◌⊎◌,
}
use lustre_ost_performance_t.Text.{Text, codes}
use lustre_ost_performance_t.Task.{Task}
use lustre_ost_performance_t.Dict.{put}
use lustre_ost_performance_t.Ctrl.SharedQueue.{is_empty, clear}
use lustre_ost_performance_t.Ctrl.SharedQueue.Order.{fill-clear, clear-nil}
use lustre_ost_performance_t.Generators.{renew_queue}
use lustre_ost_performance_t.Generators.Monitoring.{
  create_ost_idx_list, create_local_ost_idx_list, create_task, create_task_list, AllFound,
  select_ost_idx_list, select-eq, indices_from,
}
use lustre_ost_performance_t.Generators.Monitoring.Loop.{
  MonitoringConfig, MonitoringRound, known_ost_idx_list, ost_idx_list_of, fill_again, Ending,
  on_run, exit_0, exit_1, after_round, monitor,
}

-- All the OSTs that are there, or the selected ones if there is a selection and they are there.
abbrev pub Picks : List Text → List Text → List Text → Type 0
Picks selected known list =
    (is_nil selected ≡ true) × (list ≡ known)
    ⊎ (is_nil selected ≡ false) × (list ≡ selected) × AllFound selected known

select_all :
    (selected known : List Text)
    → AllFound selected known
    → select_ost_idx_list selected known ≡ ok selected
unfolding select_ost_idx_list
select_all [] known h = refl
select_all (k ∷ ks) known (f, h) = rw (f, select_all ks known h) refl

local_Picks :
    (selected list : List Text)
    → create_local_ost_idx_list selected ≡ ok list
    → Picks selected (indices_from 0 100) list
unfolding create_local_ost_idx_list
local_Picks [] list e = inl (refl, cc)
local_Picks (k ∷ ks) list e =
    let (same, all) = select-eq (k ∷ ks) (indices_from 0 100) list e in inr (refl, same, all)

listed_Picks :
    (selected known list : List Text)
    → create_ost_idx_list selected known ≡ ok list
    → (is_nil known ≡ false) × Picks selected known list
unfolding create_ost_idx_list
listed_Picks selected [] list e = cc
listed_Picks [] (o ∷ osts) list e = (refl, inl (refl, cc))
listed_Picks (k ∷ ks) (o ∷ osts) list e =
    let (same, all) = select-eq (k ∷ ks) (o ∷ osts) list e in (refl, inr (refl, same, all))

Picks-local :
    (selected list : List Text)
    → Picks selected (indices_from 0 100) list
    → create_local_ost_idx_list selected ≡ ok list
unfolding create_local_ost_idx_list
Picks-local [] list (inl (n, e)) = ap ok (sym e)
Picks-local [] list (inr (n, e, h)) = cc
Picks-local (k ∷ ks) list (inl (n, e)) = cc
Picks-local (k ∷ ks) list (inr (n, e, h)) = select_all (k ∷ ks) _ h ∙ ap ok (sym e)

Picks-listed :
    (selected known list : List Text)
    → is_nil known ≡ false
    → Picks selected known list
    → create_ost_idx_list selected known ≡ ok list
unfolding create_ost_idx_list
Picks-listed selected [] list l h = cc
Picks-listed [] (o ∷ osts) list l (inl (n, e)) = ap ok (sym e)
Picks-listed [] (o ∷ osts) list l (inr (n, e, h)) = cc
Picks-listed (k ∷ ks) (o ∷ osts) list l (inl (n, e)) = cc
Picks-listed (k ∷ ks) (o ∷ osts) list l (inr (n, e, h)) = select_all (k ∷ ks) _ h ∙ ap ok (sym e)

-- The OSTs that a round makes tasks for.
abbrev pub Chosen : MonitoringConfig → MonitoringRound → List Text → Type 0
Chosen cfg r list =
    (is_nil (known_ost_idx_list cfg r) ≡ false)
    × Picks cfg.ost_select_list (known_ost_idx_list cfg r) list

some_indices : is_nil (indices_from 0 100) ≡ false
unfolding indices_from
some_indices = refl

both_ways :
    (b : Bool) (selected listed list : List Text)
    → ((if b then create_local_ost_idx_list selected else create_ost_idx_list selected listed)
        ≡ ok list)
      ↔ ((is_nil (if b then indices_from 0 100 else listed) ≡ false)
          × Picks selected (if b then indices_from 0 100 else listed) list)
both_ways true selected listed list =
    (λ e. (some_indices, local_Picks selected list e), λ h. Picks-local selected list h.1)
both_ways false selected listed list =
    (listed_Picks selected listed list, λ h. Picks-listed selected listed list h.0 h.1)

ost_idx_list_of_iff :
    (cfg : MonitoringConfig) (r : MonitoringRound) (list : List Text)
    → (ost_idx_list_of cfg r ≡ ok list) ↔ Chosen cfg r list
unfolding ost_idx_list_of known_ost_idx_list
ost_idx_list_of_iff cfg r list = both_ways cfg.local_mode cfg.ost_select_list _ list

abbrev pub AllNamed : List Text → Type 0
AllNamed [] = Unit {0}
AllNamed (ost_idx ∷ list) = (is_nil ost_idx ≡ false) × AllNamed list

-- The task of an OST: the one of the XML file, with the index as its TID and its OST.
abbrev pub task_for : Task → Text → Task
task_for sk ost_idx = record sk {
  tid = some ost_idx;
  attributes = put sk.attributes (codes "ost_idx") ost_idx;
}

AllNamed-create :
    (sk : Task) (list : List Text)
    → AllNamed list
    → create_task_list sk list ≡ ok (map (task_for sk) list)
unfolding create_task_list create_task
AllNamed-create sk [] h = refl
AllNamed-create sk (k ∷ list) (n, h) = rw (n, AllNamed-create sk list h) refl

create-AllNamed :
    (sk : Task) (list : List Text) (tasks : List Task)
    → create_task_list sk list ≡ ok tasks
    → AllNamed list
unfolding create_task_list create_task
create-AllNamed sk [] tasks e = tt
create-AllNamed sk ([] ∷ list) tasks e = cc
create-AllNamed sk ((c ∷ k) ∷ list) tasks e =
    let (ts, rest, last) = >>=-eq-ok (create_task_list sk list) _ e in
    (refl, create-AllNamed sk list ts rest)

renew_queue-eq : (tasks q : List Task) → renew_queue tasks q ≡ (ok tt, tasks)
unfolding renew_queue is_empty clear
renew_queue-eq [] [] = refl
renew_queue-eq [] (x ∷ q) = ap (λ l. (ok tt, l)) (clear-nil q)
renew_queue-eq (x ∷ tasks) q = fill-clear x tasks q

-- A round has OSTs to measure, a task for them, and an index for each.
abbrev pub Renewable : MonitoringConfig → MonitoringRound → List Text → Task → Type 0
Renewable cfg r list sk = Chosen cfg r list × (r.task_skeleton ≡ ok sk) × AllNamed list

abbrev pub NotRenewable : MonitoringConfig → MonitoringRound → Type 0
NotRenewable cfg r = (list : List Text) (sk : Task) → ¬ Renewable cfg r list sk

abbrev Renews :
    MonitoringConfig → MonitoringRound → List Task → Result (Unit {0}) × List Task → Type 0
Renews cfg r before o =
    ((e : Error) × (o ≡ (err e, before)) × NotRenewable cfg r)
    ⊎ ((list : List Text) × (sk : Task) × Renewable cfg r list sk
        × (o ≡ (ok tt, map (task_for sk) list)))

outcome : {A : Type 0} (r : Result A) → ((e : Error) × (r ≡ err e)) ⊎ ((a : A) × (r ≡ ok a))
outcome (err e) = inl (e, refl)
outcome (ok a) = inr (a, refl)

fill_again-Renews :
    (cfg : MonitoringConfig) (r : MonitoringRound) (q : List Task)
    → Renews cfg r q (fill_again cfg r q)
unfolding fill_again
fill_again-Renews cfg r q = elim (outcome (ost_idx_list_of cfg r)) [
  | inl (x, e) ↦
      inl (x, rw e refl, λ list sk h. let e' = (ost_idx_list_of_iff cfg r list).1 h.0 in cc (e, e'))
  | inr (list, e) ↦ elim (outcome r.task_skeleton) [
    | inl (x, e') ↦ inl (x, rw (e, e') refl, λ l sk h. cc (e', h.1))
    | inr (sk, e') ↦ elim (outcome (create_task_list sk list)) [
      | inl (x, e'') ↦ inl (
        x,
        rw (e, e', e'') refl,
        λ l sk' h.
            let e3 = (ost_idx_list_of_iff cfg r l).1 h.0 in
            cc (e, e3, e', h.1, e'', AllNamed-create sk' l h.2),
      )
      | inr (tasks, e'') ↦
          let all = create-AllNamed sk list tasks e'' in
          inr (
            list,
            sk,
            ((ost_idx_list_of_iff cfg r list).0 e, e', all),
            rw (e, e', AllNamed-create sk list all) (renew_queue-eq (map (task_for sk) list) q),
          )
    ]
  ]
]

-- What the rounds make of a queue, and how the loop ends.
pub Follows : MonitoringConfig → List MonitoringRound → List Task → Ending × List Task → Type 0
Follows cfg [] before o = o ≡ (on_run, before)
Follows cfg (r ∷ rounds) before o =
    (r.run_flag ≡ false) × (o ≡ (exit_0, drop r.taken before))
    ⊎ (r.run_flag ≡ true) × NotRenewable cfg r × (o ≡ (exit_1, drop r.taken before))
    ⊎ (r.run_flag ≡ true)
      × ((list : List Text) × (sk : Task) × Renewable cfg r list sk
          × Follows cfg rounds (map (task_for sk) list) o)

-- The rounds of the monitoring, in order: if the flag is down the loop ends with 0; if no list of OSTs can
-- be chosen, the XML file has no task or an OST has an empty index, it ends with 1; both leave in the
-- queue what was there but for the tasks that were taken. In every other round, whatever was left in
-- the queue, it then holds exactly the task of the XML file for each chosen OST, in order, with the
-- index as its TID and its OST. Chosen are the OSTs that `lfs` tells (in local mode, a hundred), of which
-- there must be one, or with a selection the selected ones, which must all be among them.
pub monitor-Follows :
    (cfg : MonitoringConfig) (rounds : List MonitoringRound) (before : List Task)
    → Follows cfg rounds before (monitor cfg rounds before)
unfolding monitor Follows
monitor-Follows cfg [] before = refl
monitor-Follows cfg (r ∷ rounds) before = elim (Bool-cases r.run_flag) [
  | inr off ↦ inl (off, if_false r.run_flag _ _ off)
  | inl on ↦
      let next = λ (o : Result (Unit {0}) × List Task). after_round o (monitor cfg rounds) in
      let step = if_true r.run_flag (next (fill_again cfg r (drop r.taken before))) _ on in
      elim (fill_again-Renews cfg r (drop r.taken before)) [
        | inl (x, e, none_made) ↦ inr (inl (on, none_made, step ∙ ap next e))
        | inr (list, sk, h, e) ↦ inr (
            inr (
              on,
              (
                list,
                sk,
                h,
                subst (Follows cfg rounds (map (task_for sk) list)) (sym (step ∙ ap next e))
                    (monitor-Follows cfg rounds (map (task_for sk) list)),
              ),
            ))
      ]
]
