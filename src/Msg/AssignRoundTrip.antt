-- ===== src/Msg/AssignRoundTrip.antt =====
-- A task object that the master assigns arrives at the controller.
use lustre_ost_performance_t.Base.{
  List, Result, [], ap, false, is_nil, length, ok, refl, some, true, ◌++◌, ◌>>=◌, ◌∷◌, ◌≡◌, ◌≤◌,
}
use lustre_ost_performance_t.Text.{Text, contains, split, join, has_infix, codes, find}
use lustre_ost_performance_t.Text.Split.{AllLack, split-join}
use lustre_ost_performance_t.Task.{Class, Task, module_of, name_of, init_args_of, set_tid}
use lustre_ost_performance_t.Task.Factory.{Modules, create_from_message, create_task}
use lustre_ost_performance_t.Task.Factory.Arguments.{call_arguments_few}
use lustre_ost_performance_t.Msg.{
  Message, field_separator, message_type, base_message, task_assign, to_string, type,
}
use lustre_ost_performance_t.Msg.Factory.{create}
use lustre_ost_performance_t.Msg.Assign.{
  create_body, create_header, assign_task, to_task, is_inherited_from_base_task,
}
use lustre_ost_performance_t.Msg.Wire.{
  HasAttributes, create_body-eq, IsShown, body_items_of-body_of, header_items, header, carrier,
  wire, to_string-carrier, header_not_nil, create-wire,
}

-- A task that can be sent: a class of the task package with up to 14 parameters behind `self`,
-- a TID, and values that hold no separator.
pub record IsSendable (task : Task) (t : Text) (vs : List Text) : Type 0 where
  pub inherited : is_inherited_from_base_task task.class ≡ true
  pub in_package : has_infix (module_of task.class) (codes "task.") ≡ true
  pub has_tid : task.tid ≡ some t
  pub tid_set : is_nil t ≡ false
  pub self : Text
  pub names : List Text
  pub parameters : init_args_of task.class ≡ self ∷ names
  pub attributes : HasAttributes task names vs
  pub few : length vs ≤ 14
  pub shown : IsShown vs
  pub lacks : AllLack field_separator (module_of task.class ∷ name_of task.class ∷ t ∷ vs)

header-regroup :
    (m n t : Text)
    → message_type task_assign
        ++ field_separator ∷ (m ++ field_separator ∷ (n ++ field_separator ∷ t))
      ≡ header m n t
unfolding join
header-regroup m n t = refl

-- What the controller makes of a task: its class called with the values, under its TID.
abbrev pub rebuilt : Modules → Class → Text → List Text → Result Task
rebuilt mods class t vs = do
  c ← mods.find_class (module_of class) (name_of class)
  fresh ← mods.new c vs
  set_tid t fresh

module _ (task : Task) (t : Text) (vs : List Text) (sendable : IsSendable task t vs) where
  abbrev sent : Message
  sent = carrier (module_of task.class) (name_of task.class) t vs

  create_header-sent : create_header task task.class ≡ ok sent.header
  unfolding create_header
  create_header-sent =
      rw (sendable.in_package, sendable.has_tid, sendable.tid_set)
        (ap ok (header-regroup (module_of task.class) (name_of task.class) t))

  create_body-sent : create_body task (init_args_of task.class) ≡ ok sent.body
  create_body-sent =
      rw sendable.parameters
        (create_body-eq task sendable.self sendable.names vs sendable.attributes)

  assign_task-sent : assign_task task ≡ ok sent
  unfolding assign_task base_message
  assign_task-sent = rw (
    sendable.inherited,
    create_header-sent,
    create_body-sent,
    header_not_nil (module_of task.class) (name_of task.class) t,
  )

  split-sent :
      split field_separator (wire (module_of task.class) (name_of task.class) t vs)
      ≡ header_items (module_of task.class) (name_of task.class) t ++ vs
  unfolding contains
  split-sent =
      split-join field_separator (message_type task_assign)
        (module_of task.class ∷ name_of task.class ∷ t ∷ vs) (refl, sendable.lacks)

  create-sent : create (to_string sent) ≡ ok sent
  create-sent =
      rw (to_string-carrier (module_of task.class) (name_of task.class) t vs sendable.shown)
        (create-wire (module_of task.class) (name_of task.class) t vs split-sent)

  split-header :
      split field_separator sent.header ≡ header_items (module_of task.class) (name_of task.class) t
  unfolding contains
  split-header =
      split-join field_separator (message_type task_assign)
        (module_of task.class ∷ name_of task.class ∷ t ∷ [])
        (refl, (sendable.lacks.0, (sendable.lacks.1.0, (sendable.lacks.1.1.0, tt))))

  create_task-sent :
      (mods : Modules) (c : Class) → create_task mods c vs (length vs) ≡ mods.new c vs
  unfolding create_task
  create_task-sent mods c = rw (call_arguments_few vs sendable.few)

  create_from_message-sent :
      (mods : Modules)
      → create_from_message mods sent.header sent.body ≡ rebuilt mods task.class t vs
  unfolding create_from_message
  create_from_message-sent mods =
      rw (split-header, body_items_of-body_of vs sendable.lacks.1.1.1 sendable.shown)
        (simp (create_task-sent mods))

  to_task-sent : (mods : Modules) → to_task mods sent ≡ rebuilt mods task.class t vs
  unfolding to_task
  to_task-sent mods =
      rw (header_not_nil (module_of task.class) (name_of task.class) t)
        (create_from_message-sent mods)

  type_sent : type sent ≡ message_type task_assign
  unfolding type join find split contains
  type_sent = refl

  -- A task that can be sent is assigned by a message of the type for it that the other side reads back
  -- unchanged, and from which it calls the task's class with the values of the attributes and sets the TID.
  pub assign_task-arrives :
      (mods : Modules)
      → (m : Message) × (assign_task task ≡ ok m)
        × (type m ≡ message_type task_assign)
        × (create (to_string m) ≡ ok m)
        × (to_task mods m ≡ rebuilt mods task.class t vs)
  assign_task-arrives mods = (sent, assign_task-sent, type_sent, create-sent, to_task-sent mods)
