-- ===== src/Migration/Transfer.antt =====
-- A migration from the generator to `lfs`: the task that the generator makes, the message of the
-- master, the object of the controller and the programs that its worker runs.
use lustre_ost_performance_t.Base.{
  Bool, [], arith, false, inr, is_nil, ok, refl, some, true, ℕ, ◌++◌, ◌∙◌, ◌∷◌, ◌≡◌,
}
use lustre_ost_performance_t.Text.{Text, codes, contains, has_infix, text_eq}
use lustre_ost_performance_t.Text.Number.{pos, str_of}
use lustre_ost_performance_t.Text.RoundTrip.{
  int_of-str_of, str_of-ne-nil, str_of-IsDigits, IsDigits-lacks,
}
use lustre_ost_performance_t.Text.Match.{contains-append}
use lustre_ost_performance_t.Dict.{get}
use lustre_ost_performance_t.Lfs.{str_of_int}
use lustre_ost_performance_t.Lfs.Migrate.{py_int, py_bool, str_of_value}
use lustre_ost_performance_t.Task.{
  module_of, name_of, init_args_of, ost_migrate_task_class, set_tid,
}
use lustre_ost_performance_t.Task.OstMigrate.{
  OstMigrateTask, lower, is_one_of, strtobool, ost_of, new_ost_migrate_task, construct,
  shown_values, as_task, set_move, migrate_modules,
}
use lustre_ost_performance_t.Msg.{Message, field_separator, to_string}
use lustre_ost_performance_t.Msg.Factory.{create}
use lustre_ost_performance_t.Msg.Assign.{assign_task, to_task, is_inherited_from_base_task}
use lustre_ost_performance_t.Msg.AssignRoundTrip.{IsSendable, assign_task-arrives, rebuilt}
use lustre_ost_performance_t.Migration.Dispatch.{tid_of}

-- The task that is made from the skeleton.
abbrev pub moving : OstMigrateTask → ℕ → ℕ → Text → OstMigrateTask
moving skeleton s t filename = record skeleton {
  filename = filename;
  source_ost = py_int (pos s);
  target_ost = py_int (pos t);
}

strtobool-shown : (b : Bool) → strtobool (str_of_value (py_bool b)) ≡ ok b
unfolding strtobool is_one_of lower str_of_value text_eq
strtobool-shown true = refl
strtobool-shown false = refl

ost_of-shown : (n : ℕ) → ost_of (str_of_value (py_int (pos n))) ≡ ok (py_int (pos n))
unfolding ost_of str_of_value str_of_int
ost_of-shown n = rw (str_of-ne-nil n, int_of-str_of n) refl

construct-shown_values :
    (is_file : Text → Bool) (o : OstMigrateTask) (s t : ℕ) (filename : Text)
    → is_file (codes "/usr/bin/lfs") ≡ true
    → construct is_file (shown_values (moving o s t filename)) ≡ ok (moving o s t filename)
unfolding construct shown_values new_ost_migrate_task
construct-shown_values is_file o s t filename h =
    rw (ost_of-shown s, ost_of-shown t, strtobool-shown o.block, strtobool-shown o.skip, h) refl

set_move-moving :
    (o : OstMigrateTask) (s t : ℕ) (filename : Text)
    → is_nil filename ≡ false
    → set_move o (str_of s) (str_of t) filename ≡ ok (moving o s t filename)
unfolding set_move
set_move-moving o s t filename h = rw (int_of-str_of s, int_of-str_of t, h) refl

str_of-lacks : (n : ℕ) → contains field_separator (str_of n) ≡ false
str_of-lacks n = IsDigits-lacks field_separator (str_of n) (str_of-IsDigits n) (inr (omega arith))

tid_lacks : (s t : ℕ) → contains field_separator (tid_of (str_of s) (str_of t)) ≡ false
unfolding tid_of
tid_lacks s t = contains-append field_separator (str_of s) _ (str_of-lacks s) (
    contains-append field_separator (b':' ∷ []) (str_of t) (unfold contains in refl)
      (str_of-lacks t))

bool_lacks : (b : Bool) → contains field_separator (str_of_value (py_bool b)) ≡ false
unfolding contains str_of_value
bool_lacks true = refl
bool_lacks false = refl

is_nil-past : (p : Text) (x : ℕ) (q : Text) → is_nil (p ++ x ∷ q) ≡ false
is_nil-past [] x q = refl
is_nil-past (c ∷ p) x q = refl

tid_not_nil : (s t : ℕ) → is_nil (tid_of (str_of s) (str_of t)) ≡ false
unfolding tid_of
tid_not_nil s t = is_nil-past (str_of s) b':' (str_of t)

moving-IsSendable :
    (o : OstMigrateTask) (s t : ℕ) (filename : Text)
    → contains field_separator filename ≡ false
    → IsSendable
        (as_task (some (tid_of (str_of s) (str_of t))) (moving o s t filename))
        (tid_of (str_of s) (str_of t))
        (shown_values (moving o s t filename))
unfolding as_task shown_values is_inherited_from_base_task has_infix text_eq get contains module_of
    name_of init_args_of str_of_value str_of_int
moving-IsSendable o s t filename h = record {
  inherited = refl;
  in_package = refl;
  has_tid = refl;
  tid_set = tid_not_nil s t;
  self = codes "self";
  names =
      codes "filename"
      ∷ codes "source_ost"
      ∷ codes "target_ost"
      ∷ codes "block"
      ∷ codes "skip"
      ∷ [];
  parameters = refl;
  attributes = (refl, (refl, (refl, (refl, (refl, tt)))));
  few = omega arith;
  shown = tt;
  lacks = (
    refl,
    (
      refl,
      (
        tid_lacks s t,
        (h, (str_of-lacks s, (str_of-lacks t, (bool_lacks o.block, (bool_lacks o.skip, tt))))),
      ),
    ),
  );
}

rebuilt-moving :
    (is_file : Text → Bool) (o : OstMigrateTask) (s t : ℕ) (filename : Text)
    → is_file (codes "/usr/bin/lfs") ≡ true
    → rebuilt
        (migrate_modules is_file)
        ost_migrate_task_class
        (tid_of (str_of s) (str_of t))
        (shown_values (moving o s t filename))
      ≡ ok (as_task (some (tid_of (str_of s) (str_of t))) (moving o s t filename))
unfolding module_of name_of text_eq set_tid as_task
rebuilt-moving is_file o s t filename h =
    rw (construct-shown_values is_file o s t filename h, tid_not_nil s t) refl

-- The way of a task: it is made, sent, read, and made again.
abbrev pub Arrives : (Text → Bool) → OstMigrateTask → ℕ → ℕ → Text → Type 0
Arrives is_file skeleton s t filename =
    (o : OstMigrateTask) × (set_move skeleton (str_of s) (str_of t) filename ≡ ok o)
    × (m : Message) × (assign_task (as_task (some (tid_of (str_of s) (str_of t))) o) ≡ ok m)
    × (create (to_string m) ≡ ok m)
    × (to_task (migrate_modules is_file) m ≡ ok (as_task (some (tid_of (str_of s) (str_of t))) o))
    × (construct is_file (shown_values o) ≡ ok o)

-- A file that the generator pairs with a source and a target in decimal digits, whose name is not
-- empty and holds no separator, becomes a task that the master can assign. Its message is read
-- back unchanged, the controller makes of it an object with the same TID and the same attributes,
-- and the class called with those attributes gives the generator's task again, the two OSTs
-- being the same numbers and both flags those of the skeleton, provided the controller's host
-- has `/usr/bin/lfs`.
pub moving-Arrives :
    (is_file : Text → Bool) (skeleton : OstMigrateTask) (s t : ℕ) (filename : Text)
    → is_file (codes "/usr/bin/lfs") ≡ true
    → is_nil filename ≡ false
    → contains field_separator filename ≡ false
    → Arrives is_file skeleton s t filename
unfolding as_task
moving-Arrives is_file skeleton s t filename h n l =
    let o = moving skeleton s t filename in
    let tid = tid_of (str_of s) (str_of t) in
    let (m, sent, kind, read, made) =
      assign_task-arrives (as_task (some tid) o) tid (shown_values o)
        (moving-IsSendable skeleton s t filename l) (migrate_modules is_file) in
    (
      o,
      set_move-moving skeleton s t filename n,
      m,
      sent,
      read,
      made ∙ rebuilt-moving is_file skeleton s t filename h,
      construct-shown_values is_file skeleton s t filename h,
    )
