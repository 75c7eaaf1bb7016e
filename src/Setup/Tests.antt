-- ===== src/Setup/Tests.antt =====
-- A concrete version and a concrete file.
use lustre_ost_performance_t.Base.{Option, [], arith, none, ok, true, ◌↔◌, ◌∷◌, ◌≡◌}
use lustre_ost_performance_t.Text.{Text, codes}
use lustre_ost_performance_t.Setup.Version.{
  check_python, hexversion_of, IsSupported, check_python_iff,
}
use lustre_ost_performance_t.Setup.TaskXml.{
  Element, element, no_elements, child, read_task_definition,
}
use lustre_ost_performance_t.Setup.TaskXml.Found.{Read, read_task_definition-Read}

check_python_iff_example : (check_python (hexversion_of 3 9 1 240) ≡ ok tt) ↔ IsSupported 3 9 1 240
check_python_iff_example = check_python_iff 3 9 1 240 (omega arith) (omega arith) (omega arith)

abbrev leaf : Text → Option Text → Element
leaf tag text = element tag [] text no_elements

abbrev class_def : Element
class_def =
    element (codes "class")
      ((codes "module", codes "task.empty_task") ∷ (codes "name", codes "EmptyTask") ∷ []) none
      no_elements

abbrev root : Element
root = element (codes "tasks") [] none (
    child
      (element (codes "task") ((codes "name", codes "empty") ∷ []) none (
        child class_def (
          child (element (codes "property") [] none (child (leaf (codes "size") none) no_elements))
            no_elements)))
      no_elements)

read_task_definition-Read_example :
    Read true (ok root) (codes "empty") (read_task_definition true (ok root) (codes "empty"))
read_task_definition-Read_example = read_task_definition-Read true (ok root) (codes "empty")
