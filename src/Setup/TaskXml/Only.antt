-- ===== src/Setup/TaskXml/Only.antt =====
-- task/xml/task_xml_reader.py: a task of the name that is found is the only one.
use lustre_ost_performance_t.Base.{
  >>=-eq-ok, Bool, Bool-cases, List, Option, Result, [], ap, false, if_false, if_true,
  if◌then◌else◌, inl, inr, key_error, none, not, ok, or_raise, raise_if, refl, runtime_error, some,
  subst, sym, true, ◌>>=◌, ◌∙◌, ◌∷◌, ◌≡◌, ◌≢◌, ◌⊎◌,
}
use lustre_ost_performance_t.Text.{Text, codes, text_eq}
use lustre_ost_performance_t.Dict.{get}
use lustre_ost_performance_t.Task.Factory.{TaskXmlInfo}
use lustre_ost_performance_t.Setup.TaskXml.{
  Element, Elements, no_elements, child, tag_of, attrib_of, info_of, take_definition, visit_task,
  visit_tasks,
}

unfoldable pub has_name : Text → Option Text → Bool
has_name task_name none = false
has_name task_name (some name) = text_eq name task_name

-- The elements with the name, in order.
unfoldable pub named : Text → Elements → List Element
unfolding has_name
named task_name no_elements = []
named task_name (child e es) =
    let rest = named task_name es in
    if has_name task_name (get (attrib_of e) (codes "name")) then e ∷ rest else rest

-- What visiting an element does, by whether it has the name.
abbrev Visited : Text → Option TaskXmlInfo → Element → Option TaskXmlInfo → Type 0
Visited task_name found e found' =
    (has_name task_name (get (attrib_of e) (codes "name")) ≡ true)
      × (take_definition found e ≡ ok found')
    ⊎ (has_name task_name (get (attrib_of e) (codes "name")) ≡ false) × (found' ≡ found)

by_name :
    (task_name : Text) (name : Option Text) (taken : Result (Option TaskXmlInfo))
    (found found' : Option TaskXmlInfo)
    → (or_raise name key_error >>= λ n. if text_eq n task_name then taken else ok found) ≡ ok found'
    → (has_name task_name name ≡ true) × (taken ≡ ok found')
      ⊎ (has_name task_name name ≡ false) × (found' ≡ found)
unfolding has_name
by_name task_name none taken found found' h = cc
by_name task_name (some n) taken found found' h = elim (Bool-cases (text_eq n task_name)) [
  | inl e ↦ inl (e, sym (if_true (text_eq n task_name) taken (ok found) e) ∙ h)
  | inr e ↦ inr (e, cc (if_false (text_eq n task_name) taken (ok found) e, h))
]

visit_task-Visited :
    (task_name : Text) (found : Option TaskXmlInfo) (e : Element) (found' : Option TaskXmlInfo)
    → visit_task task_name found e ≡ ok found'
    → Visited task_name found e found'
unfolding visit_task
visit_task-Visited task_name found e found' h =
    let (u, k, h') =
      >>=-eq-ok (raise_if (not (text_eq (tag_of e) (codes "task"))) runtime_error) _ h in
    by_name task_name (get (attrib_of e) (codes "name")) (take_definition found e) found found' h'

pub named_here :
    (task_name : Text) (e : Element) (es : Elements)
    → has_name task_name (get (attrib_of e) (codes "name")) ≡ true
    → named task_name (child e es) ≡ e ∷ named task_name es
unfolding named
named_here task_name e es h = rw h refl

pub named_past :
    (task_name : Text) (e : Element) (es : Elements)
    → has_name task_name (get (attrib_of e) (codes "name")) ≡ false
    → named task_name (child e es) ≡ named task_name es
unfolding named
named_past task_name e es h = rw h refl

taken_twice :
    (info : TaskXmlInfo) (e : Element) (found : Option TaskXmlInfo)
    → take_definition (some info) e ≢ ok found
unfolding take_definition
taken_twice info e found h = cc

-- Behind the definition there is no other of the name.
visit_tasks_behind :
    (task_name : Text) (info : TaskXmlInfo) (es : Elements) (found : Option TaskXmlInfo)
    → visit_tasks task_name (some info) es ≡ ok found
    → (named task_name es ≡ []) × (found ≡ some info)
unfolding visit_tasks
visit_tasks_behind task_name info no_elements found h = (unfold named in refl, cc)
visit_tasks_behind task_name info (child e es) found h =
    let (found', k, h') = >>=-eq-ok (visit_task task_name (some info) e) _ h in
    elim (visit_task-Visited task_name (some info) e found' k) [
      | inl (n, t) ↦ absurd (taken_twice info e found' t)
      | inr (n, q) ↦
          let (none_left, same) =
            visit_tasks_behind task_name info es found
              (subst (λ o. visit_tasks task_name o es ≡ ok found) q h') in
          (named_past task_name e es n ∙ none_left, same)
    ]

take_first :
    (e : Element) (found : Option TaskXmlInfo)
    → take_definition none e ≡ ok found
    → (info : TaskXmlInfo) × (info_of e ≡ ok info) × (found ≡ some info)
unfolding take_definition
take_first e found h = let (info, k, h') = >>=-eq-ok (info_of e) _ h in (info, k, cc)

some_injective : {a b : TaskXmlInfo} → some a ≡ some b → a ≡ b
some_injective e = cc

pub or_raise-some : (o : Option Text) (x : Text) → or_raise o key_error ≡ ok x → o ≡ some x
or_raise-some none x h = cc
or_raise-some (some y) x h = cc

pub raised_not :
    (found : Option TaskXmlInfo) (info : TaskXmlInfo)
    → or_raise found runtime_error ≡ ok info
    → found ≡ some info
raised_not none info h = cc
raised_not (some i) info h = cc

-- The one definition with the name.
abbrev pub IsOnly : Text → Elements → TaskXmlInfo → Type 0
IsOnly task_name es info = (e : Element) × (named task_name es ≡ e ∷ []) × (info_of e ≡ ok info)

pub visit_tasks-IsOnly :
    (task_name : Text) (es : Elements) (info : TaskXmlInfo)
    → visit_tasks task_name none es ≡ ok (some info)
    → IsOnly task_name es info
unfolding visit_tasks
visit_tasks-IsOnly task_name no_elements info h = cc
visit_tasks-IsOnly task_name (child e es) info h =
    let (found', k, h') = >>=-eq-ok (visit_task task_name none e) _ h in
    elim (visit_task-Visited task_name none e found' k) [
      | inl (n, t) ↦
          let (info', made, q) = take_first e found' t in
          let (none_left, same) =
            visit_tasks_behind task_name info' es (some info)
              (subst (λ o. visit_tasks task_name o es ≡ ok (some info)) q h') in
          (
            e,
            named_here task_name e es n ∙ ap (λ l. e ∷ l) none_left,
            made ∙ ap ok (sym (some_injective same)),
          )
      | inr (n, q) ↦
          let (e', one, made) =
            visit_tasks-IsOnly task_name es info
              (subst (λ o. visit_tasks task_name o es ≡ ok (some info)) q h') in
          (e', named_past task_name e es n ∙ one, made)
    ]
