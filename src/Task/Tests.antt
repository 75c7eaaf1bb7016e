-- ===== src/Task/Tests.antt =====
-- Concrete calls of the factory.
use lustre_ost_performance_t.Base.{List, [], map, none, ok, refl, ◌↔◌, ◌∷◌, ◌≡◌}
use lustre_ost_performance_t.Text.{Text, codes, text_eq}
use lustre_ost_performance_t.Task.{Class, Task, ost_migrate_task_class, init_args_of}
use lustre_ost_performance_t.Dict.{keys, values}
use lustre_ost_performance_t.Task.Factory.{
  Modules, TaskXmlInfo, call_arguments, create_task, check_names, check_signature,
  create_from_xml_info,
}
use lustre_ost_performance_t.Task.Factory.Arguments.{Called, create_from_xml_info-signature}

abbrev letters : List Text
letters = map (λ c. c ∷ []) (codes "abcdefghijklmno")

abbrev mods : Modules
mods = record {
  find_class = λ m n. ok ost_migrate_task_class;
  new = λ c arguments. ok (record { class = c; tid = none; attributes = [] });
}

abbrev info : TaskXmlInfo
info = record {
  class_module = codes "task.ost_migrate_task";
  class_name = codes "OstMigrateTask";
  class_properties =
      (codes "filename", codes "/lustre/a")
      ∷ (codes "source_ost", codes "3")
      ∷ (codes "target_ost", codes "8")
      ∷ (codes "block", codes "on")
      ∷ (codes "skip", codes "off")
      ∷ [];
}

abbrev made : Task
made = record { class = ost_migrate_task_class; tid = none; attributes = [] }

create_from_xml_info-signature_example : (create_from_xml_info mods info ≡ ok made) ↔ (
    (c : Class) × (mods.find_class info.class_module info.class_name ≡ ok c)
    × (init_args_of c ≡ codes "self" ∷ keys info.class_properties)
    × ((arguments : List Text) × Called (values info.class_properties) arguments
        × (mods.new c arguments ≡ ok made)))
create_from_xml_info-signature_example = create_from_xml_info-signature mods info made

is_made : create_from_xml_info mods info ≡ ok made
unfolding create_from_xml_info create_task call_arguments check_signature check_names text_eq
    init_args_of
is_made = refl
