-- ===== src/Msg/RoundTrip.antt =====
-- What one side writes, the other side reads: `to_string` and `MessageFactory.create`.
use lustre_ost_performance_t.Base.{
  Result, [], arith, err, false, inr, is_nil, ok, refl, runtime_error, some, ℕ, ◌++◌, ◌∷◌, ◌≡◌,
}
use lustre_ost_performance_t.Text.{Text, contains, split, text_eq, find}
use lustre_ost_performance_t.Text.Number.{pos, str_of}
use lustre_ost_performance_t.Text.Split.{split_lacks, split-append}
use lustre_ost_performance_t.Text.RoundTrip.{
  IsDigits-lacks, str_of-IsDigits, str_of-ne-nil, int_of-str_of,
}
use lustre_ost_performance_t.Msg.{
  Message, field_separator, message_type, task_request, wait_command, task_finished, acknowledge,
  heartbeat, exit_command, new_task_request, new_task_finished, new_acknowledge, new_wait_command,
  new_heartbeat, new_exit_command, to_string, type, sender, tid, duration,
}
use lustre_ost_performance_t.Msg.Factory.{create}

-- The messages that are built from plain values, by both sides.
pub data Request : Type 0 where
  request : (sender : Text) → Request
  finished : (sender tid : Text) → Request
  ack : Request
  wait : (duration : ℕ) → Request
  beat : (sender : Text) → Request
  exit : Request

abbrev pub build : Request → Result Message
build (request s) = new_task_request s
build (finished s t) = new_task_finished s t
build ack = new_acknowledge
build (wait d) = new_wait_command (str_of d)
build (beat s) = new_heartbeat s
build exit = new_exit_command

-- No field holds the separator.
abbrev pub IsPlain : Request → Type 0
IsPlain (request s) = contains field_separator s ≡ false
IsPlain (finished s t) = (contains field_separator s ≡ false) × (contains field_separator t ≡ false)
IsPlain (beat s) = contains field_separator s ≡ false
IsPlain _ = Unit {0}

wait-create :
    (s : Text) (m : Message)
    → contains field_separator s ≡ false
    → new_wait_command s ≡ ok m
    → create (to_string m) ≡ ok m
unfolding create to_string new_wait_command split text_eq
wait-create [] m h e = cc
wait-create (c ∷ s) m h e = ground (arith, split_lacks field_separator (c ∷ s) h)

-- Each text field of a message holds something.
abbrev pub IsComplete : Request → Type 0
IsComplete (request s) = is_nil s ≡ false
IsComplete (finished s t) = (is_nil s ≡ false) × (is_nil t ≡ false)
IsComplete (beat s) = is_nil s ≡ false
IsComplete _ = Unit {0}

-- Reading what was written gives the message back, whatever was built, where no field holds `;`.
pub create-to_string :
    (r : Request) (m : Message) → IsPlain r → build r ≡ ok m → create (to_string m) ≡ ok m
unfolding create to_string new_task_request new_task_finished new_acknowledge new_heartbeat
    new_exit_command split text_eq
create-to_string (request []) m h e = cc
create-to_string (request (c ∷ s)) m h e = ground (arith, split_lacks field_separator (c ∷ s) h)
create-to_string (finished [] t) m h e = cc
create-to_string (finished (c ∷ s) []) m h e = cc
create-to_string (finished (c ∷ s) (d ∷ t)) m h e = ground (
  arith,
  split-append field_separator (c ∷ s) (d ∷ t) h.0,
  split_lacks field_separator (d ∷ t) h.1,
)
create-to_string ack m h e = ground arith
create-to_string (wait d) m h e =
    wait-create (str_of d) m
      (IsDigits-lacks field_separator (str_of d) (str_of-IsDigits d) (inr (omega arith))) e
create-to_string (beat []) m h e = cc
create-to_string (beat (c ∷ s)) m h e = ground (arith, split_lacks field_separator (c ∷ s) h)
create-to_string exit m h e = ground arith

-- What the reader of a message asks of it: its kind, and the fields that went in.
abbrev pub Reads : Request → Message → Type 0
Reads (request s) m = (type m ≡ message_type task_request) × (sender m ≡ ok s)
Reads (finished s t) m = (type m ≡ message_type task_finished) × (sender m ≡ ok s) × (tid m ≡ ok t)
Reads ack m = type m ≡ message_type acknowledge
Reads (wait d) m = (type m ≡ message_type wait_command) × (duration m ≡ ok (pos d))
Reads (beat s) m = (type m ≡ message_type heartbeat) × (sender m ≡ ok s)
Reads exit m = type m ≡ message_type exit_command

-- A built message gives its fields back, and names its type.
pub build-Reads : (r : Request) (m : Message) → IsPlain r → build r ≡ ok m → Reads r m
unfolding type sender tid duration new_task_request new_task_finished new_acknowledge new_heartbeat
    new_exit_command find split
build-Reads (request s) m h e = ground arith
build-Reads (finished s t) m h e =
    ground (arith, split-append field_separator s t h.0, split_lacks field_separator t h.1)
build-Reads ack m h e = ground arith
build-Reads (wait d) m h e = unfold new_wait_command in ground (arith, int_of-str_of d)
build-Reads (beat s) m h e = ground arith
build-Reads exit m h e = ground arith

built : (r : Request) → IsComplete r → (m : Message) × (build r ≡ ok m)
unfolding new_task_request new_task_finished new_acknowledge new_heartbeat new_exit_command
    new_wait_command
built (request s) h = (
  record { class = task_request; header = message_type task_request; body = some s },
  ground arith,
)
built (finished [] t) h = cc
built (finished (c ∷ s) t) h = (
  record {
    class = task_finished;
    header = message_type task_finished;
    body = some ((c ∷ s) ++ field_separator ∷ t);
  },
  ground arith,
)
built ack h =
    (record { class = acknowledge; header = message_type acknowledge; body = some [] }, refl)
built (wait d) h = (
  record { class = wait_command; header = message_type wait_command; body = some (str_of d) },
  ground (arith, str_of-ne-nil d),
)
built (beat s) h =
    (record { class = heartbeat; header = message_type heartbeat; body = some s }, ground arith)
built exit h =
    (record { class = exit_command; header = message_type exit_command; body = some [] }, refl)

-- A message whose text fields are not empty and hold no `;` is built, its text is read back to
-- the same message, and the reader finds in it the type and the fields that went in.
pub create-build :
    (r : Request)
    → IsComplete r
    → IsPlain r
    → (m : Message) × (build r ≡ ok m) × (create (to_string m) ≡ ok m) × Reads r m
create-build r complete plain =
    let (m, e) = built r complete in (m, e, create-to_string r m plain e, build-Reads r m plain e)

-- An empty sender or TID is refused when the message is built.
pub build_incomplete : (r : Request) → ¬ IsComplete r → build r ≡ err runtime_error
unfolding new_task_request new_task_finished new_heartbeat
build_incomplete (request []) h = refl
build_incomplete (finished [] t) h = refl
build_incomplete (finished (c ∷ s) []) h = refl
build_incomplete (beat []) h = refl
build_incomplete (request (c ∷ s)) h = absurd (h refl)
build_incomplete (finished (c ∷ s) (d ∷ t)) h = absurd (h (refl, refl))
build_incomplete (beat (c ∷ s)) h = absurd (h refl)
build_incomplete ack h = absurd (h tt)
build_incomplete (wait d) h = absurd (h tt)
build_incomplete exit h = absurd (h tt)
