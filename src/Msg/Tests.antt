-- ===== src/Msg/Tests.antt =====
-- Messages at concrete inputs.
use lustre_ost_performance_t.Base.{List, [], arith, none, ok, refl, some, ◌∷◌, ◌≡◌}
use lustre_ost_performance_t.Text.{Text, codes, split, text_eq, has_infix, contains}
use lustre_ost_performance_t.Dict.{get}
use lustre_ost_performance_t.Task.{Task, ost_migrate_task_class, name_of, module_of, init_args_of}
use lustre_ost_performance_t.Task.Factory.{Modules}
use lustre_ost_performance_t.Msg.{
  Message, to_string, new_task_finished, task_assign, type, message_type,
}
use lustre_ost_performance_t.Msg.Factory.{create}
use lustre_ost_performance_t.Msg.RoundTrip.{Request, finished, build, Reads, create-build}
use lustre_ost_performance_t.Msg.Assign.{assign_task, to_task, is_inherited_from_base_task}
use lustre_ost_performance_t.Msg.AssignRoundTrip.{IsSendable, rebuilt, assign_task-arrives}

abbrev done : Request
done = finished (codes "node1") (codes "17:4")

create-build_example :
    (m : Message) × (build done ≡ ok m) × (create (to_string m) ≡ ok m) × Reads done m
unfolding contains
create-build_example = create-build done (refl, refl) (refl, refl)

create_finished :
    create (codes "TASK_FIN;node1;17:4") ≡ new_task_finished (codes "node1") (codes "17:4")
unfolding create split text_eq new_task_finished
create_finished = refl

-- A task assignment has its task behind four fields.
abbrev assignment : Text
assignment = codes "TASK_ASS;task.io_task;IOTask;0;1000;1000000;off"

abbrev assigned_message : Message
assigned_message = record {
  class = task_assign;
  header = codes "TASK_ASS;task.io_task;IOTask;0";
  body = some (codes "1000;1000000;off");
}

abbrev migrate : Task
migrate = record {
  class = ost_migrate_task_class;
  tid = some (codes "3:8");
  attributes =
      (codes "filename", codes "/lustre/a")
      ∷ (codes "source_ost", codes "3")
      ∷ (codes "target_ost", codes "8")
      ∷ (codes "block", codes "True")
      ∷ (codes "skip", codes "False")
      ∷ [];
}

abbrev values : List Text
values = codes "/lustre/a" ∷ codes "3" ∷ codes "8" ∷ codes "True" ∷ codes "False" ∷ []

migrate-IsSendable : IsSendable migrate (codes "3:8") values
unfolding is_inherited_from_base_task has_infix text_eq get contains module_of name_of init_args_of
migrate-IsSendable = record {
  inherited = refl;
  in_package = refl;
  has_tid = refl;
  tid_set = refl;
  self = codes "self";
  names =
      codes "filename"
      ∷ codes "source_ost"
      ∷ codes "target_ost"
      ∷ codes "block"
      ∷ codes "skip"
      ∷ [];
  parameters = refl;
  attributes = (refl, (refl, (refl, (refl, (refl, tt)))));
  few = omega arith;
  shown = tt;
  lacks = (refl, (refl, (refl, (refl, (refl, (refl, (refl, (refl, tt))))))));
}

-- A program with one class, whose objects start without a TID.
abbrev one_class : Modules
one_class = record {
  find_class = λ m n. ok ost_migrate_task_class;
  new = λ c args. ok (record { class = c; tid = none; attributes = [] });
}

assign_task-arrives_example :
    (m : Message) × (assign_task migrate ≡ ok m)
    × (type m ≡ message_type task_assign)
    × (create (to_string m) ≡ ok m)
    × (to_task one_class m ≡ rebuilt one_class ost_migrate_task_class (codes "3:8") values)
assign_task-arrives_example =
    assign_task-arrives migrate (codes "3:8") values migrate-IsSendable one_class
