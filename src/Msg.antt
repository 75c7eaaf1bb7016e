-- ===== src/Msg.antt =====
-- msg/: the messages between master and controller. A message is its class with the two fields
-- of `BaseMessage`; a method of a subclass matches on the class.
pub mod Factory
pub mod RoundTrip
pub mod Reading
pub mod Assign
pub mod Wire
pub mod AssignRoundTrip
mod Tests
use lustre_ost_performance_t.Base.{
  Bool, Option, Result, [], attribute_error, err, false, get_elem?, if◌then◌else◌, index_error,
  is_nil, none, not, ok, or_raise, raise_if, runtime_error, some, suc, type_error, ℕ, ◌++◌, ◌>>=◌,
  ◌>>◌, ◌∷◌,
}
use lustre_ost_performance_t.Text.{Text, codes, find, split}
use lustre_ost_performance_t.Text.Number.{ℤ, int_of}

abbrev pub field_separator : ℕ
field_separator = b';'

pub data Class : Type 0 where
  task_request task_assign wait_command task_finished acknowledge heartbeat exit_command : Class

pub record Message : Type 0 where
  pub class : Class
  pub header : Text
  pub body : Option Text

-- msg/message_type.py
abbrev pub message_type : Class → Text
message_type task_request = codes "TASK_REQ"
message_type task_assign = codes "TASK_ASS"
message_type wait_command = codes "WAIT_CMD"
message_type task_finished = codes "TASK_FIN"
message_type acknowledge = codes "ACK"
message_type heartbeat = codes "HEARTBEAT"
message_type exit_command = codes "EXIT_CMD"

-- Python's truth value of a field that is a text or None
abbrev pub is_set : Option Text → Bool
is_set none = false
is_set (some s) = not (is_nil s)

-- `_validate` of each class
unfoldable pub validate : Class → Option Text → Result (Unit {0})
validate task_request body = raise_if (not (is_set body)) runtime_error
validate task_finished body = raise_if (not (is_set body)) runtime_error
validate wait_command body = raise_if (not (is_set body)) runtime_error
validate heartbeat body = raise_if (not (is_set body)) runtime_error
validate task_assign body = ok tt
validate acknowledge body = ok tt
validate exit_command body = ok tt

-- `BaseMessage.__init__`
unfoldable pub base_message : Class → Text → Option Text → Result Message
unfolding validate
base_message class header body = do
  raise_if (is_nil header) runtime_error
  validate class body
  ok (record { class = class; header = header; body = body })

-- `type`
unfoldable pub type : Message → Text
type m = elim (find field_separator m.header) [
  | some (suc i) ↦ elim (split field_separator m.header) [ [] ↦ [] | t ∷ rest ↦ t ]
  | _ ↦ m.header
]

unfoldable pub to_string : Message → Text
to_string m = elim m.body [
  | none ↦ m.header
  | some body ↦ if is_nil body then m.header else m.header ++ field_separator ∷ body
]

unfoldable pub new_task_request : Text → Result Message
unfolding base_message
new_task_request sender = do
  raise_if (is_nil sender) runtime_error
  base_message task_request (message_type task_request) (some sender)

unfoldable pub new_task_finished : Text → Text → Result Message
unfolding base_message
new_task_finished sender tid = do
  raise_if (is_nil sender) runtime_error
  raise_if (is_nil tid) runtime_error
  base_message task_finished (message_type task_finished) (some (sender ++ field_separator ∷ tid))

unfoldable pub new_acknowledge : Result Message
unfolding base_message
new_acknowledge = base_message acknowledge (message_type acknowledge) (some [])

-- The duration comes as the text that `str` makes of it.
unfoldable pub new_wait_command : Text → Result Message
unfolding base_message
new_wait_command duration = base_message wait_command (message_type wait_command) (some duration)

unfoldable pub new_heartbeat : Text → Result Message
unfolding base_message
new_heartbeat sender = do
  raise_if (is_nil sender) runtime_error
  base_message heartbeat (message_type heartbeat) (some sender)

unfoldable pub new_exit_command : Result Message
unfolding base_message
new_exit_command = base_message exit_command (message_type exit_command) (some [])

-- a part of the body; without a body `split` is an attribute that None lacks
unfoldable pub body_part : Option Text → ℕ → Result Text
body_part none i = err attribute_error
body_part (some body) i = or_raise (get_elem? (split field_separator body) i) index_error

-- `sender`, an attribute that four of the classes lack
unfoldable pub sender : Message → Result Text
unfolding body_part
sender m = elim m.class [
  | task_request ↦ or_raise m.body attribute_error
  | heartbeat ↦ or_raise m.body attribute_error
  | task_finished ↦ body_part m.body 0
  | _ ↦ err attribute_error
]

-- `tid` of a `TaskFinished`
unfoldable pub tid : Message → Result Text
unfolding body_part
tid m = body_part m.body 1

-- `duration` of a `WaitCommand`
unfoldable pub duration : Message → Result ℤ
duration m = do body ← or_raise m.body type_error; int_of body
