-- ===== src/Task.antt =====
-- task/base_task.py and the classes whose objects are sent as tasks: a class with what
-- `__class__`, `__bases__` and `inspect.getargspec(__init__).args` tell of it, and an object with
-- its attributes, each as the text that `str` makes of it.
pub mod Factory
pub mod OstMigrate
pub mod Io
mod Tests
use lustre_ost_performance_t.Base.{
  List, Option, Result, [], err, if◌then◌else◌, is_nil, ok, some, value_error, ◌∷◌,
}
use lustre_ost_performance_t.Text.{Text, codes}
use lustre_ost_performance_t.Dict.{Dict}

mutual
  pub data Class : Type 0 where
    class_of : (module_name name : Text) (init_args : List Text) → Bases → Class

  pub data Bases : Type 0 where
    no_bases : Bases
    base : Class → Bases → Bases

unfoldable pub module_of : Class → Text
module_of (class_of m n args bases) = m

unfoldable pub name_of : Class → Text
name_of (class_of m n args bases) = n

unfoldable pub init_args_of : Class → List Text
init_args_of (class_of m n args bases) = args

pub record Task : Type 0 where
  pub class : Class
  pub tid : Option Text
  pub attributes : Dict Text

-- The setter of `tid`; its argument is a text.
unfoldable pub set_tid : Text → Task → Result Task
set_tid tid task = if is_nil tid then err value_error else ok (record task { tid = some tid })

abbrev pub object_class : Class
object_class = class_of (codes "builtins") (codes "object") [] no_bases

abbrev pub base_task_class : Class
base_task_class =
    class_of (codes "task.base_task") (codes "BaseTask") (codes "self" ∷ [])
      (base object_class no_bases)

abbrev pub empty_task_class : Class
empty_task_class =
    class_of (codes "task.empty_task") (codes "EmptyTask") (codes "self" ∷ [])
      (base base_task_class no_bases)

abbrev pub benchmark_task_class : Class
benchmark_task_class =
    class_of (codes "task.benchmark_task") (codes "BenchmarkTask") (codes "self" ∷ [])
      (base base_task_class no_bases)

abbrev pub poisen_pill_class : Class
poisen_pill_class =
    class_of (codes "task.poisen_pill") (codes "PoisenPill") (codes "self" ∷ [])
      (base base_task_class no_bases)

abbrev pub ost_migrate_task_class : Class
ost_migrate_task_class =
    class_of (codes "task.ost_migrate_task") (codes "OstMigrateTask")
      (codes "self"
        ∷ codes "filename"
        ∷ codes "source_ost"
        ∷ codes "target_ost"
        ∷ codes "block"
        ∷ codes "skip"
        ∷ [])
      (base base_task_class no_bases)
