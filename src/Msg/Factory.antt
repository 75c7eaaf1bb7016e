-- ===== src/Msg/Factory.antt =====
-- msg/message_factory.py, with the constructor of `TaskAssign` from a text (msg/task_assign.py).
use lustre_ost_performance_t.Base.{
  Bool, List, Option, Result, [], drop, err, false, get_elem?, if◌then◌else◌, index_error, is_nil,
  length, ltb, none, or_raise, raise_if, runtime_error, some, take, ℕ, ◌&&◌, ◌+◌, ◌==◌, ◌>>=◌, ◌>>◌,
  ◌∷◌,
}
use lustre_ost_performance_t.Text.{Text, text_eq, split, join}
use lustre_ost_performance_t.Msg.{
  Message, Class, field_separator, message_type, base_message, task_request, task_assign,
  wait_command, task_finished, acknowledge, heartbeat, exit_command, new_task_request,
  new_task_finished, new_acknowledge, new_wait_command, new_heartbeat, new_exit_command,
}

-- The body: what stands behind the header and one separator.
unfoldable pub rest_of : Text → Text → Option Text
rest_of header value =
    if ltb (length header) (length value) then some (drop (length header + 1) value) else none

-- `TaskAssign(value)` for a text
unfoldable pub new_task_assign : Text → Result Message
unfolding base_message rest_of
new_task_assign value = do
  raise_if (is_nil value) runtime_error
  let message_items = split field_separator value
  raise_if (ltb (length message_items) 4) runtime_error
  let header = join field_separator (take 4 message_items)
  base_message task_assign header (rest_of header value)

abbrev pub item : List Text → ℕ → Result Text
item items i = or_raise (get_elem? items i) index_error

-- `msg_type == MessageType…`, the first item against the type of a class
unfoldable pub is_type : List Text → Class → Bool
is_type [] class = false
is_type (msg_type ∷ items) class = text_eq msg_type (message_type class)

-- The ladder of `MessageFactory.create` over the items of the message.
unfoldable pub dispatch : List Text → Text → Result Message
unfolding is_type
dispatch items message =
    let count = length items in
    if is_type items task_request && count == 2
    then (do s ← item items 1; new_task_request s)
    else if is_type items task_finished && count == 3
    then (do s ← item items 1; t ← item items 2; new_task_finished s t)
    else if is_type items acknowledge && count == 1
    then new_acknowledge
    else if is_type items wait_command && count == 2
    then (do d ← item items 1; new_wait_command d)
    else if is_type items heartbeat && count == 2
    then (do s ← item items 1; new_heartbeat s)
    else if is_type items exit_command && count == 1
    then new_exit_command
    else if is_type items task_assign
    then new_task_assign message
    else err runtime_error

-- `MessageFactory.create`
unfoldable pub create : Text → Result Message
unfolding dispatch
create message =
    if is_nil message then err runtime_error else dispatch (split field_separator message) message
