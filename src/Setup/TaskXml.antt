-- ===== src/Setup/TaskXml.antt =====
-- task/xml/task_xml_reader.py: the definition of a task in an XML file. The tree that `ElementTree`
-- makes of the file is a parameter.
pub mod Only
pub mod Found
use lustre_ost_performance_t.Base.{
  Bool, Option, Result, [], err, false, if◌then◌else◌, key_error, none, not, ok, or_raise, os_error,
  raise_if, runtime_error, some, true, xml_reader_error, ◌>>=◌, ◌>>◌,
}
use lustre_ost_performance_t.Text.{Text, codes, text_eq, has_infix}
use lustre_ost_performance_t.Dict.{Dict, get, put}
use lustre_ost_performance_t.Task.Factory.{TaskXmlInfo}

mutual
  pub data Element : Type 0 where
    element : (tag : Text) (attrib : Dict Text) (text : Option Text) → Elements → Element

  pub data Elements : Type 0 where
    no_elements : Elements
    child : Element → Elements → Elements

unfoldable pub tag_of : Element → Text
tag_of (element tag attrib text items) = tag

unfoldable pub attrib_of : Element → Dict Text
attrib_of (element tag attrib text items) = attrib

unfoldable pub children_of : Element → Elements
children_of (element tag attrib text items) = items

-- `if not property_item.text: property_item.text = str("")`
unfoldable pub text_of_item : Element → Text
text_of_item (element tag attrib none items) = []
text_of_item (element tag attrib (some text) items) = text

-- `e.find(tag)`: the first child with the tag
unfoldable pub find_child : Elements → Text → Option Element
find_child no_elements tag = none
find_child (child e es) tag = if text_eq (tag_of e) tag then some e else find_child es tag

-- The loop over the items of a property: a tag that comes again replaces the text.
unfoldable pub add_properties : Elements → Dict Text → Dict Text
add_properties no_elements properties = properties
add_properties (child e es) properties =
    add_properties es (put properties (tag_of e) (text_of_item e))

unfoldable pub properties_of : Option Element → Dict Text
properties_of none = []
properties_of (some property_def) = add_properties (children_of property_def) []

-- The definition in a `task` element.
unfoldable pub info_of : Element → Result TaskXmlInfo
info_of task = do
  class_def ← or_raise (find_child (children_of task) (codes "class")) runtime_error
  class_module ← or_raise (get (attrib_of class_def) (codes "module")) runtime_error
  raise_if (not (has_infix class_module (codes "task."))) runtime_error
  class_name ← or_raise (get (attrib_of class_def) (codes "name")) runtime_error
  ok (record {
    class_module = class_module;
    class_name = class_name;
    class_properties = properties_of (find_child (children_of task) (codes "property"));
  })

-- A task with the name that is looked for, with what was found before.
unfoldable pub take_definition : Option TaskXmlInfo → Element → Result (Option TaskXmlInfo)
take_definition (some info) e = err runtime_error
take_definition none e = do info ← info_of e; ok (some info)

unfoldable pub visit_task : Text → Option TaskXmlInfo → Element → Result (Option TaskXmlInfo)
visit_task task_name found e = do
  raise_if (not (text_eq (tag_of e) (codes "task"))) runtime_error
  name ← or_raise (get (attrib_of e) (codes "name")) key_error
  if text_eq name task_name then take_definition found e else ok found

-- `for child in root`
unfoldable pub visit_tasks : Text → Option TaskXmlInfo → Elements → Result (Option TaskXmlInfo)
visit_tasks task_name found no_elements = ok found
visit_tasks task_name found (child e es) = do
  found ← visit_task task_name found e
  visit_tasks task_name found es

unfoldable pub has_children : Elements → Bool
has_children no_elements = false
has_children (child e es) = true

unfoldable pub read_root : Text → Element → Result TaskXmlInfo
read_root task_name root = do
  raise_if (not (text_eq (tag_of root) (codes "tasks"))) runtime_error
  raise_if (not (has_children (children_of root))) runtime_error
  found ← visit_tasks task_name none (children_of root)
  or_raise found runtime_error

-- `except Exception as err: raise TaskXmlReaderError`
unfoldable pub as_xml_error : {A : Type 0} → Result A → Result A
as_xml_error (err e) = err xml_reader_error
as_xml_error (ok a) = ok a

-- `read_task_definition`, with `os.path.isfile` and the parsed tree or the error of the parser
unfoldable pub read_task_definition : Bool → Result Element → Text → Result TaskXmlInfo
read_task_definition is_file tree task_name =
    if is_file then as_xml_error (tree >>= λ root. read_root task_name root) else err os_error
