-- ===== src/Msg/Assign.antt =====
-- msg/task_assign.py: the assignment of a task object, and its way back to an object.
use lustre_ost_performance_t.Base.{
  Bool, List, Option, Result, [], attribute_error, false, if◌then◌else◌, is_nil, none, not, ok,
  or_raise, raise_if, runtime_error, some, true, type_error, ◌++◌, ◌>>=◌, ◌>>◌, ◌∷◌,
}
use lustre_ost_performance_t.Text.{Text, codes, text_eq, has_infix}
use lustre_ost_performance_t.Dict.{get}
use lustre_ost_performance_t.Task.{
  Class, class_of, no_bases, base, Task, module_of, name_of, init_args_of,
}
use lustre_ost_performance_t.Task.Factory.{Modules, create_from_message}
use lustre_ost_performance_t.Msg.{
  Message, field_separator, message_type, is_set, base_message, task_assign,
}

-- The loop over the bases returns in its first round.
unfoldable pub is_inherited_from_base_task : Class → Bool
is_inherited_from_base_task (class_of m name args no_bases) = false
is_inherited_from_base_task (class_of m name args (base c more)) =
    let first = is_inherited_from_base_task c in
    if text_eq name (codes "object")
    then false
    else if text_eq name (codes "BaseTask")
    then true
    else first

unfoldable pub create_header : Task → Class → Result Text
create_header task task_class = do
  raise_if (not (has_infix (module_of task_class) (codes "task."))) runtime_error
  raise_if (not (is_set task.tid)) runtime_error
  tid ← or_raise task.tid type_error
  ok (
      message_type task_assign
      ++ field_separator
        ∷ (module_of task_class ++ field_separator ∷ (name_of task_class ++ field_separator ∷ tid)))

-- `str(getattr(task, name))`
abbrev pub attribute : Task → Text → Result Text
attribute task name = or_raise (get task.attributes name) attribute_error

unfoldable pub append_attributes : Task → Text → List Text → Result Text
append_attributes task body [] = ok body
append_attributes task body (name ∷ names) = do
  value ← attribute task name
  append_attributes task (body ++ field_separator ∷ value) names

unfoldable pub create_body : Task → List Text → Result (Option Text)
unfolding append_attributes
create_body task [] = ok none
create_body task (self ∷ []) = ok none
create_body task (self ∷ name ∷ names) = do
  first ← attribute task name
  body ← append_attributes task first names
  ok (some body)

-- `TaskAssign(value)` for a task object
unfoldable pub assign_task : Task → Result Message
unfolding create_header create_body base_message
assign_task task = do
  raise_if (not (is_inherited_from_base_task task.class)) runtime_error
  header ← create_header task task.class
  body ← create_body task (init_args_of task.class)
  base_message task_assign header body

-- `to_task`, by way of a plain `BaseMessage`
unfoldable pub to_task : Modules → Message → Result Task
to_task mods m = do
  raise_if (is_nil m.header) runtime_error
  create_from_message mods m.header m.body
