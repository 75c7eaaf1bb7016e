-- ===== src/Task/OstMigrate.antt =====
-- task/ost_migrate_task.py: the task that moves one file, with its arguments as texts, as the task
-- factory passes them.
use lustre_ost_performance_t.Base.{
  Bool, List, Option, Result, [], err, false, if◌then◌else◌, import_error, is_nil, leb, map, none,
  not, ok, raise_if, runtime_error, true, type_error, value_error, ℕ, ◌&&◌, ◌+◌, ◌>>=◌, ◌>>◌, ◌∷◌,
}
use lustre_ost_performance_t.Base.Exec.{Exec}
use lustre_ost_performance_t.Text.{Text, codes, text_eq}
use lustre_ost_performance_t.Text.Number.{int_of}
use lustre_ost_performance_t.Task.{Task, ost_migrate_task_class}
use lustre_ost_performance_t.Task.Factory.{Modules}
use lustre_ost_performance_t.Lfs.Migrate.{
  PyValue, py_str, py_int, py_bool, str_of_value, Arguments, Commands, Host, migrate_file,
}

pub record OstMigrateTask : Type 0 where
  pub filename : Text
  pub source_ost : PyValue
  pub target_ost : PyValue
  pub block : Bool
  pub skip : Bool

-- `c.lower()`, for the letters of ASCII
unfoldable pub lower : ℕ → ℕ
lower c = if leb b'A' c && leb c b'Z' then c + 32 else c

unfoldable pub is_one_of : Text → List Text → Bool
is_one_of s [] = false
is_one_of s (t ∷ ts) = if text_eq s t then true else is_one_of s ts

abbrev pub true_words : List Text
true_words = codes "y" ∷ codes "yes" ∷ codes "t" ∷ codes "true" ∷ codes "on" ∷ codes "1" ∷ []

abbrev pub false_words : List Text
false_words = codes "n" ∷ codes "no" ∷ codes "f" ∷ codes "false" ∷ codes "off" ∷ codes "0" ∷ []

-- `bool(distutils.util.strtobool(s))`
unfoldable pub strtobool : Text → Result Bool
strtobool s =
    let word = map lower s in
    if is_one_of word true_words
    then ok true
    else if is_one_of word false_words
    then ok false
    else err value_error

-- The setters of `source_ost` and `target_ost`; an empty text is kept.
unfoldable pub ost_of : Text → Result PyValue
ost_of idx = if is_nil idx then ok (py_str []) else (do n ← int_of idx; ok (py_int n))

-- `__init__`; `is_file` is `os.path.isfile`, which `LFSUtils` asks for its program
unfoldable pub new_ost_migrate_task :
    (Text → Bool) → Text → Text → Text → Text → Text → Result OstMigrateTask
new_ost_migrate_task is_file filename source_ost target_ost block skip = do
  source ← ost_of source_ost
  target ← ost_of target_ost
  block ← strtobool block
  skip ← strtobool skip
  raise_if (not (is_file (codes "/usr/bin/lfs"))) runtime_error
  ok (record {
    filename = filename;
    source_ost = source;
    target_ost = target;
    block = block;
    skip = skip;
  })

-- The class called with a list of arguments.
unfoldable pub construct : (Text → Bool) → List Text → Result OstMigrateTask
construct is_file (filename ∷ source_ost ∷ target_ost ∷ block ∷ skip ∷ []) =
    new_ost_migrate_task is_file filename source_ost target_ost block skip
construct is_file _ = err type_error

-- What `str` makes of the attributes, in the order of the parameters.
unfoldable pub shown_values : OstMigrateTask → List Text
shown_values t =
    t.filename
    ∷ str_of_value t.source_ost
    ∷ str_of_value t.target_ost
    ∷ str_of_value (py_bool t.block)
    ∷ str_of_value (py_bool t.skip)
    ∷ []

-- The object as the messages see it.
unfoldable pub as_task : Option Text → OstMigrateTask → Task
as_task tid t = record {
  class = ost_migrate_task_class;
  tid = tid;
  attributes =
      (codes "filename", t.filename)
      ∷ (codes "source_ost", str_of_value t.source_ost)
      ∷ (codes "target_ost", str_of_value t.target_ost)
      ∷ (codes "block", str_of_value (py_bool t.block))
      ∷ (codes "skip", str_of_value (py_bool t.skip))
      ∷ [];
}

unfoldable pub arguments_of : OstMigrateTask → Arguments
arguments_of t = record {
  filename = py_str t.filename;
  source_idx = t.source_ost;
  target_idx = t.target_ost;
  block = py_bool t.block;
  skip = py_bool t.skip;
}

-- `execute`: an exception is logged
unfoldable pub execute : Host → OstMigrateTask → Exec Commands (Unit {0})
execute host t commands = (ok tt, (migrate_file host (arguments_of t) commands).1)

-- What the generator sets on a copy of the skeleton: the setters of the two OSTs and of the file.
unfoldable pub set_move : OstMigrateTask → Text → Text → Text → Result OstMigrateTask
set_move skeleton source_ost target_ost filename = do
  source ← int_of source_ost
  target ← int_of target_ost
  raise_if (is_nil filename) runtime_error
  ok (record skeleton {
    filename = filename;
    source_ost = py_int source;
    target_ost = py_int target;
  })

-- A program with this class, on a host where `os.path.isfile` is `is_file`.
abbrev pub migrate_modules : (Text → Bool) → Modules
migrate_modules is_file = record {
  find_class = λ m n.
      if text_eq m (codes "task.ost_migrate_task") && text_eq n (codes "OstMigrateTask")
      then ok ost_migrate_task_class
      else err import_error;
  new = λ c args. construct is_file args >>= λ t. ok (as_task none t);
}
