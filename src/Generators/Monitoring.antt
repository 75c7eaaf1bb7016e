-- ===== src/Generators/Monitoring.antt =====
-- task/generator/lustre_monitoring_task_generator.py: a task for each OST, or for each that is selected.
pub mod Loop
pub mod Rounds
use lustre_ost_performance_t.Base.{
  >>=-eq-ok, Error, List, Option, Result, [], ap, arith, err, if◌then◌else◌, is_nil, none, ok,
  or_raise, runtime_error, some, suc, sym, value_error, zero, ℕ, ◌>>=◌, ◌∙◌, ◌∷◌, ◌≡◌,
}
use lustre_ost_performance_t.Text.{Text, text_eq, text_eq_iff, codes}
use lustre_ost_performance_t.Text.Number.{str_of}
use lustre_ost_performance_t.Dict.{put}
use lustre_ost_performance_t.Task.{Task}

-- The inner loop: the first equal index, which is the selected text again.
unfoldable pub find_ost_idx : Text → List Text → Option Text
find_ost_idx select_ost_idx [] = none
find_ost_idx select_ost_idx (ost_idx ∷ rest) =
    if text_eq select_ost_idx ost_idx then some ost_idx else find_ost_idx select_ost_idx rest

-- Every selected index must be there.
unfoldable pub select_ost_idx_list : List Text → List Text → Result (List Text)
unfolding find_ost_idx
select_ost_idx_list [] ost_idx_list = ok []
select_ost_idx_list (select_ost_idx ∷ selected) ost_idx_list = do
  ost_idx ← or_raise (find_ost_idx select_ost_idx ost_idx_list) runtime_error
  rest ← select_ost_idx_list selected ost_idx_list
  ok (ost_idx ∷ rest)

-- `_create_ost_idx_list`, over the indices of the OSTs that `lfs` tells.
unfoldable pub create_ost_idx_list : List Text → List Text → Result (List Text)
unfolding select_ost_idx_list
create_ost_idx_list ost_select_list ost_idx_list =
    if is_nil ost_idx_list
    then err runtime_error
    else if is_nil ost_select_list
    then ok ost_idx_list
    else select_ost_idx_list ost_select_list ost_idx_list

unfoldable pub indices_from : ℕ → ℕ → List Text
indices_from i zero = []
indices_from i (suc n) = str_of i ∷ indices_from (suc i) n

unfoldable pub create_local_ost_idx_list : List Text → Result (List Text)
unfolding indices_from select_ost_idx_list
create_local_ost_idx_list ost_select_list =
    let ost_idx_list = indices_from 0 100 in
    if is_nil ost_select_list
    then ok ost_idx_list
    else select_ost_idx_list ost_select_list ost_idx_list

-- `task.tid = ost_idx` and `task.ost_idx = ost_idx` on a copy of the skeleton; the setter of the TID
-- refuses an empty text.
unfoldable pub create_task : Task → Text → Result Task
create_task task_skeleton ost_idx =
    if is_nil ost_idx
    then err value_error
    else ok (record task_skeleton {
      tid = some ost_idx;
      attributes = put task_skeleton.attributes (codes "ost_idx") ost_idx;
    })

unfoldable pub create_task_list : Task → List Text → Result (List Task)
unfolding create_task
create_task_list task_skeleton [] = ok []
create_task_list task_skeleton (ost_idx ∷ rest) = do
  task ← create_task task_skeleton ost_idx
  tasks ← create_task_list task_skeleton rest
  ok (task ∷ tasks)

-- The indices are all there.
abbrev pub AllFound : List Text → List Text → Type 0
AllFound [] ost_idx_list = Unit {0}
AllFound (ost_idx ∷ selected) ost_idx_list =
    (find_ost_idx ost_idx ost_idx_list ≡ some ost_idx) × AllFound selected ost_idx_list

find_ost_idx-eq : (k : Text) (ks : List Text) (j : Text) → find_ost_idx k ks ≡ some j → k ≡ j
unfolding find_ost_idx
find_ost_idx-eq k [] j e = cc
find_ost_idx-eq k (i ∷ ks) j e = ground (arith, text_eq_iff k i, find_ost_idx-eq k ks j)

or_raise-eq-ok : (o : Option Text) (x : Error) (j : Text) → or_raise o x ≡ ok j → o ≡ some j
or_raise-eq-ok none x j e = cc
or_raise-eq-ok (some i) x j e = cc

-- A selection that is accepted is made of OSTs that are there, and it is kept as it is, in its order.
pub select-eq :
    (selected ost_idx_list r : List Text)
    → select_ost_idx_list selected ost_idx_list ≡ ok r
    → (r ≡ selected) × AllFound selected ost_idx_list
unfolding select_ost_idx_list
select-eq [] osts r e = (cc, tt)
select-eq (k ∷ ks) osts r e =
    let (j, found, more) = >>=-eq-ok (or_raise (find_ost_idx k osts) runtime_error) _ e in
    let (r', rest, last) = >>=-eq-ok (select_ost_idx_list ks osts) _ more in
    let f = or_raise-eq-ok (find_ost_idx k osts) runtime_error j found in
    let same = find_ost_idx-eq k osts j f in
    let (p, all) = select-eq ks osts r' rest in (cc (p, last, same), (f ∙ ap some (sym same), all))
