-- ===== src/Task/Factory.antt =====
-- task/task_factory.py: objects from a message or from a task definition in XML. What importing a
-- module and calling a class give is a parameter, since Python does both.
pub mod Arguments
use lustre_ost_performance_t.Base.{
  Bool, List, Option, Result, [], drop, err, get_elem?, if◌then◌else◌, index_error, is_nil, leb,
  length, none, not, ok, or_raise, raise_if, runtime_error, some, take, true, ℕ, ◌++◌, ◌+◌, ◌==◌,
  ◌>>=◌, ◌>>◌, ◌∷◌,
}
use lustre_ost_performance_t.Text.{Text, codes, text_eq, split}
use lustre_ost_performance_t.Dict.{Dict, keys, values}
use lustre_ost_performance_t.Task.{Class, Task, init_args_of, set_tid}
use lustre_ost_performance_t.Msg.{field_separator}

-- `getattr(importlib.import_module(m), n)`, and the call of a class with arguments that are texts.
pub record Modules : Type 0 where
  pub find_class : Text → Text → Result Class
  pub new : Class → List Text → Result Task

-- `TaskXmlInfo` of task/xml/task_xml_reader.py
pub record TaskXmlInfo : Type 0 where
  pub class_module : Text
  pub class_name : Text
  pub class_properties : Dict Text

abbrev pub subscript : List Text → ℕ → Result Text
subscript items i = or_raise (get_elem? items i) index_error

-- The arguments of the calls in the ladder of `_create_task`: up to 14 items they are the items.
-- For 15 items the call names 0 to 12 and 14.
unfoldable pub call_arguments : List Text → ℕ → Result (List Text)
call_arguments body_items len_body_items =
    if leb len_body_items 14
    then ok (take len_body_items body_items)
    else if len_body_items == 15
    then (do last ← subscript body_items 14; ok (take 13 body_items ++ last ∷ []))
    else err runtime_error

-- A body of None or of no characters has no items.
unfoldable pub body_items_of : Option Text → List Text
body_items_of none = []
body_items_of (some body) = if is_nil body then [] else split field_separator body

abbrev pub starts_with_self : List Text → Bool
starts_with_self [] = true
starts_with_self (name ∷ args) = text_eq name (codes "self")

-- The loop over the property names, beside the arguments from the second on.
unfoldable pub check_names : List Text → List Text → Result (Unit {0})
check_names [] args = ok tt
check_names (property_name ∷ names) [] = err index_error
check_names (property_name ∷ names) (arg ∷ args) =
    if text_eq property_name arg then check_names names args else err runtime_error

-- The parameters of a class against the property names.
unfoldable pub check_signature : List Text → List Text → Result (Unit {0})
check_signature arg_spec_args names = do
  raise_if (not (starts_with_self arg_spec_args)) runtime_error
  raise_if (not (length arg_spec_args == length names + 1)) runtime_error
  check_names names (drop 1 arg_spec_args)

module _ (mods : Modules) where
  unfoldable pub create_task : Class → List Text → ℕ → Result Task
  create_task dynamic_class body_items len_body_items = do
    arguments ← call_arguments body_items len_body_items
    mods.new dynamic_class arguments

  unfoldable pub create_from_message : Text → Option Text → Result Task
  create_from_message header body = do
    let header_items = split field_separator header
    raise_if (not (length header_items == 4)) runtime_error
    task_module ← subscript header_items 1
    task_class ← subscript header_items 2
    task_id ← subscript header_items 3
    let body_items = body_items_of body
    dynamic_class ← mods.find_class task_module task_class
    task ← create_task dynamic_class body_items (length body_items)
    set_tid task_id task

  unfoldable pub create_from_xml_info : TaskXmlInfo → Result Task
  create_from_xml_info xml_info = do
    dynamic_class ← mods.find_class xml_info.class_module xml_info.class_name
    check_signature (init_args_of dynamic_class) (keys xml_info.class_properties)
    let body_items = values xml_info.class_properties
    create_task dynamic_class body_items (length body_items)
