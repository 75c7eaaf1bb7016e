-- ===== src/Msg/Wire.antt =====
-- The text of a task assignment, from the values that it carries.
use lustre_ost_performance_t.Base.{
  List, Option, [], ap, append_assoc, arith, false, is_nil, length, ltb, none, ok, refl, some, suc,
  sym, ℕ, ◌++◌, ◌∙◌, ◌∷◌, ◌≡◌,
}
use lustre_ost_performance_t.Text.{Text, split, join, text_eq}
use lustre_ost_performance_t.Text.Split.{AllLack, split-join}
use lustre_ost_performance_t.Dict.{get}
use lustre_ost_performance_t.Task.{Task}
use lustre_ost_performance_t.Task.Factory.{body_items_of}
use lustre_ost_performance_t.Msg.{
  Message, field_separator, message_type, base_message, task_assign, to_string,
}
use lustre_ost_performance_t.Msg.Factory.{create, new_task_assign, rest_of}
use lustre_ost_performance_t.Msg.Reading.{rest_of_all, rest_of-append}
use lustre_ost_performance_t.Msg.Assign.{append_attributes, create_body}

-- The attributes that the parameters of `__init__` name have these values.
abbrev pub HasAttributes : Task → List Text → List Text → Type 0
HasAttributes task [] [] = Unit {0}
HasAttributes task (name ∷ names) (value ∷ values) =
    (get task.attributes name ≡ some value) × HasAttributes task names values
HasAttributes task _ _ = ⊥

join-regroup :
    (p q : Text) (vs : List Text)
    → join field_separator ((p ++ field_separator ∷ q) ∷ vs) ≡ join field_separator (p ∷ q ∷ vs)
unfolding join
join-regroup p q [] = refl
join-regroup p q (v ∷ vs) =
    append_assoc p (field_separator ∷ q) (field_separator ∷ join field_separator (v ∷ vs))

append_attributes-eq :
    (task : Task) (body : Text) (names vs : List Text)
    → HasAttributes task names vs
    → append_attributes task body names ≡ ok (join field_separator (body ∷ vs))
unfolding append_attributes
append_attributes-eq task body [] [] h = unfold join in refl
append_attributes-eq task body (name ∷ names) (v ∷ vs) h = rw h.0 (
    append_attributes-eq task (body ++ field_separator ∷ v) names vs h.1
    ∙ ap ok (join-regroup body v vs))
append_attributes-eq task body (name ∷ names) [] h = absurd h
append_attributes-eq task body [] (v ∷ vs) h = absurd h

-- The body of the message for these values.
abbrev pub body_of : List Text → Option Text
body_of [] = none
body_of (v ∷ vs) = some (join field_separator (v ∷ vs))

pub create_body-eq :
    (task : Task) (self : Text) (names vs : List Text)
    → HasAttributes task names vs
    → create_body task (self ∷ names) ≡ ok (body_of vs)
unfolding create_body
create_body-eq task self [] [] h = refl
create_body-eq task self (name ∷ names) (v ∷ vs) h =
    rw h.0 (rw (append_attributes-eq task v names vs h.1))
create_body-eq task self (name ∷ names) [] h = absurd h
create_body-eq task self [] (v ∷ vs) h = absurd h

-- One value of no characters would leave no body to send.
abbrev pub IsShown : List Text → Type 0
IsShown (v ∷ []) = is_nil v ≡ false
IsShown _ = Unit {0}

body_not_nil :
    (v : Text) (vs : List Text) → IsShown (v ∷ vs) → is_nil (join field_separator (v ∷ vs)) ≡ false
unfolding join
body_not_nil v [] h = h
body_not_nil [] (w ∷ vs) h = refl
body_not_nil (c ∷ v) (w ∷ vs) h = refl

pub body_items_of-body_of :
    (vs : List Text) → AllLack field_separator vs → IsShown vs → body_items_of (body_of vs) ≡ vs
unfolding body_items_of
body_items_of-body_of [] l h = refl
body_items_of-body_of (v ∷ vs) l h = rw (body_not_nil v vs h) (split-join field_separator v vs l)

module _ (m n t : Text) where
  abbrev pub header_items : List Text
  header_items = message_type task_assign ∷ m ∷ n ∷ t ∷ []

  abbrev pub header : Text
  header = join field_separator header_items

  -- The message that carries these values.
  abbrev pub carrier : List Text → Message
  carrier vs = record { class = task_assign; header = header; body = body_of vs }

  abbrev pub wire : List Text → Text
  wire vs = join field_separator (header_items ++ vs)

  wire-cons :
      (v : Text) (vs : List Text)
      → wire (v ∷ vs) ≡ header ++ field_separator ∷ join field_separator (v ∷ vs)
  unfolding join
  wire-cons v vs = simp append_assoc

  pub to_string-carrier : (vs : List Text) → IsShown vs → to_string (carrier vs) ≡ wire vs
  unfolding to_string
  to_string-carrier [] h = refl
  to_string-carrier (v ∷ vs) h = rw (body_not_nil v vs h) (sym (wire-cons v vs))

  rest_of-wire : (vs : List Text) → rest_of header (wire vs) ≡ body_of vs
  rest_of-wire [] = rest_of_all header
  rest_of-wire (v ∷ vs) =
      rw (wire-cons v vs) (rest_of-append header (join field_separator (v ∷ vs)))

  wire_not_nil : (vs : List Text) → is_nil (wire vs) ≡ false
  unfolding join
  wire_not_nil vs = refl

  pub header_not_nil : is_nil header ≡ false
  unfolding join
  header_not_nil = refl

  enough : (k : ℕ) → ltb (suc (suc (suc (suc k)))) 4 ≡ false
  enough k = ground arith

  new_task_assign-wire :
      (vs : List Text)
      → split field_separator (wire vs) ≡ header_items ++ vs
      → new_task_assign (wire vs) ≡ ok (carrier vs)
  unfolding new_task_assign base_message
  new_task_assign-wire vs e =
      rw (wire_not_nil vs, e, enough (length vs), header_not_nil, rest_of-wire vs)

  pub create-wire :
      (vs : List Text)
      → split field_separator (wire vs) ≡ header_items ++ vs
      → create (wire vs) ≡ ok (carrier vs)
  unfolding create text_eq
  create-wire vs e = rw (wire_not_nil vs, e) (new_task_assign-wire vs e)
