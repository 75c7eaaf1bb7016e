-- ===== src/Setup/TaskXml/Found.antt =====
-- task/xml/task_xml_reader.py: which definition `read_task_definition` returns, and when.
use lustre_ost_performance_t.Base.{
  >>=-eq-ok, Bool, Bool-cases, List, Option, Result, [], ap, err, false, inl, inr, key_error, none,
  not, ok, or_raise, os_error, raise_if, refl, runtime_error, some, subst, sym, true,
  xml_reader_error, ◌>>=◌, ◌∙◌, ◌∷◌, ◌≡◌, ◌≢◌, ◌⊎◌,
}
use lustre_ost_performance_t.Text.{Text, codes, text_eq, has_infix}
use lustre_ost_performance_t.Dict.{get}
use lustre_ost_performance_t.Task.Factory.{TaskXmlInfo}
use lustre_ost_performance_t.Setup.TaskXml.{
  Element, Elements, no_elements, child, tag_of, attrib_of, children_of, info_of, take_definition,
  visit_task, visit_tasks, has_children, read_root, as_xml_error, read_task_definition, find_child,
  properties_of,
}
use lustre_ost_performance_t.Setup.TaskXml.Only.{
  has_name, named, IsOnly, visit_tasks-IsOnly, or_raise-some, raised_not, named_here, named_past,
}

-- Every element is a task that has a name.
abbrev pub AllTasks : Elements → Type 0
AllTasks no_elements = Unit {0}
AllTasks (child e es) =
    (text_eq (tag_of e) (codes "task") ≡ true)
    × ((name : Text) × (get (attrib_of e) (codes "name") ≡ some name))
    × AllTasks es

-- The definition that a task holds: its class has a module of the tasks and a name, and its properties are
-- those of its `property`.
abbrev pub Holds : Element → TaskXmlInfo → Type 0
Holds task info =
    (class_def : Element) × (find_child (children_of task) (codes "class") ≡ some class_def)
    × (get (attrib_of class_def) (codes "module") ≡ some info.class_module)
    × (has_infix info.class_module (codes "task.") ≡ true)
    × (get (attrib_of class_def) (codes "name") ≡ some info.class_name)
    × (properties_of (find_child (children_of task) (codes "property")) ≡ info.class_properties)

-- The tree is one of tasks with names, and exactly one of them has this name and holds this definition.
abbrev pub Defines : Text → Element → TaskXmlInfo → Type 0
Defines task_name root info =
    (text_eq (tag_of root) (codes "tasks") ≡ true)
    × AllTasks (children_of root)
    × ((e : Element) × (named task_name (children_of root) ≡ e ∷ []) × Holds e info)

no_raise : (b : Bool) → raise_if (not b) runtime_error ≡ ok tt → b ≡ true
no_raise true h = refl
no_raise false h = cc

found_in : {A : Type 0} (o : Option A) (a : A) → or_raise o runtime_error ≡ ok a → o ≡ some a
found_in none a h = cc
found_in (some b) a h = cc

made_of : (info made : TaskXmlInfo) → ok made ≡ ok info → made ≡ info
made_of info made h = cc

Holds-info_of : (task : Element) (info : TaskXmlInfo) → Holds task info → info_of task ≡ ok info
unfolding info_of
Holds-info_of task info (class_def, c, m, t, n, ps) =
    rw (c, m, t, n) (ap (λ ps. ok (record info { class_properties = ps })) ps)

info_of-Holds : (task : Element) (info : TaskXmlInfo) → info_of task ≡ ok info → Holds task info
unfolding info_of
info_of-Holds task info h =
    let (class_def, c, h1) =
      >>=-eq-ok (or_raise (find_child (children_of task) (codes "class")) runtime_error) _ h in
    let (m, k, h2) =
      >>=-eq-ok (or_raise (get (attrib_of class_def) (codes "module")) runtime_error) _ h1 in
    let (u, t, h3) = >>=-eq-ok (raise_if (not (has_infix m (codes "task."))) runtime_error) _ h2 in
    let (n, l, h4) =
      >>=-eq-ok (or_raise (get (attrib_of class_def) (codes "name")) runtime_error) _ h3 in
    let same = made_of info _ h4 in
    subst (Holds task) same
      (class_def, found_in _ class_def c, found_in _ m k, no_raise _ t, found_in _ n l, refl)

visit_task-named :
    (task_name : Text) (found found' : Option TaskXmlInfo) (e : Element)
    → visit_task task_name found e ≡ ok found'
    → (text_eq (tag_of e) (codes "task") ≡ true)
      × ((name : Text) × (get (attrib_of e) (codes "name") ≡ some name))
unfolding visit_task
visit_task-named task_name found found' e h =
    let (u, k, h') =
      >>=-eq-ok (raise_if (not (text_eq (tag_of e) (codes "task"))) runtime_error) _ h in
    let (name, k', h'') = >>=-eq-ok (or_raise (get (attrib_of e) (codes "name")) key_error) _ h' in
    (no_raise _ k, (name, or_raise-some (get (attrib_of e) (codes "name")) name k'))

visit_tasks-AllTasks :
    (task_name : Text) (es : Elements) (found found' : Option TaskXmlInfo)
    → visit_tasks task_name found es ≡ ok found'
    → AllTasks es
unfolding visit_tasks
visit_tasks-AllTasks task_name no_elements found found' h = tt
visit_tasks-AllTasks task_name (child e es) found found' h =
    let (next, k, h') = >>=-eq-ok (visit_task task_name found e) _ h in
    let (tag, name) = visit_task-named task_name found next e k in
    (tag, name, visit_tasks-AllTasks task_name es next found' h')

read_root-Defines :
    (task_name : Text) (root : Element) (info : TaskXmlInfo)
    → read_root task_name root ≡ ok info
    → Defines task_name root info
unfolding read_root
read_root-Defines task_name root info h =
    let (u, k, h') =
      >>=-eq-ok (raise_if (not (text_eq (tag_of root) (codes "tasks"))) runtime_error) _ h in
    let (v, k', h'') =
      >>=-eq-ok (raise_if (not (has_children (children_of root))) runtime_error) _ h' in
    let (found, k'', h3) = >>=-eq-ok (visit_tasks task_name none (children_of root)) _ h'' in
    let (e, one, made) =
      visit_tasks-IsOnly task_name (children_of root) info
        (k'' ∙ ap ok (raised_not found info h3)) in
    (
      no_raise _ k,
      visit_tasks-AllTasks task_name (children_of root) none found k'',
      (e, one, info_of-Holds e info made),
    )

-- The other way: a task of another name is passed over.
visit_task-past :
    (task_name name : Text) (found : Option TaskXmlInfo) (e : Element)
    → text_eq (tag_of e) (codes "task") ≡ true
    → get (attrib_of e) (codes "name") ≡ some name
    → has_name task_name (some name) ≡ false
    → visit_task task_name found e ≡ ok found
unfolding visit_task has_name
visit_task-past task_name name found e t n h = rw (t, n, h) refl

visit_task-here :
    (task_name name : Text) (info : TaskXmlInfo) (e : Element)
    → text_eq (tag_of e) (codes "task") ≡ true
    → get (attrib_of e) (codes "name") ≡ some name
    → has_name task_name (some name) ≡ true
    → info_of e ≡ ok info
    → visit_task task_name none e ≡ ok (some info)
unfolding visit_task has_name take_definition
visit_task-here task_name name info e t n h i = rw (t, n, h, i) refl

named_none : (task_name : Text) (e : Element) → named task_name no_elements ≢ e ∷ []
unfolding named
named_none task_name e h = cc

no_cons : {e : Element} {es : List Element} → e ∷ es ≢ []
no_cons h = cc

cons_injective : {d e : Element} {ds es : List Element} → d ∷ ds ≡ e ∷ es → (d ≡ e) × (ds ≡ es)
cons_injective h = (cc, cc)

visit_tasks-past :
    (task_name : Text) (found : Option TaskXmlInfo) (es : Elements)
    → AllTasks es
    → named task_name es ≡ []
    → visit_tasks task_name found es ≡ ok found
unfolding visit_tasks
visit_tasks-past task_name found no_elements all h = refl
visit_tasks-past task_name found (child e es) (t, (name, n), all) h =
    elim (Bool-cases (has_name task_name (some name))) [
      | inl y ↦
          absurd (no_cons (sym (named_here task_name e es (ap (has_name task_name) n ∙ y)) ∙ h))
      | inr y ↦ rw (visit_task-past task_name name found e t n y) (
          visit_tasks-past task_name found es all
            (sym (named_past task_name e es (ap (has_name task_name) n ∙ y)) ∙ h))
    ]

visit_tasks-only :
    (task_name : Text) (info : TaskXmlInfo) (es : Elements)
    → AllTasks es
    → IsOnly task_name es info
    → visit_tasks task_name none es ≡ ok (some info)
unfolding visit_tasks
visit_tasks-only task_name info no_elements all (e, h, i) = absurd (named_none task_name e h)
visit_tasks-only task_name info (child e es) (t, (name, n), all) (d, h, i) =
    elim (Bool-cases (has_name task_name (some name))) [
      | inl y ↦
          let (same, none_left) =
            cons_injective (sym (named_here task_name e es (ap (has_name task_name) n ∙ y)) ∙ h) in
          rw (visit_task-here task_name name info e t n y (ap info_of same ∙ i))
            (visit_tasks-past task_name (some info) es all none_left)
      | inr y ↦ rw (visit_task-past task_name name none e t n y) (
          visit_tasks-only task_name info es all
            (d, sym (named_past task_name e es (ap (has_name task_name) n ∙ y)) ∙ h, i))
    ]

from_xml : {A : Type 0} (r : Result A) (a : A) → as_xml_error r ≡ ok a → r ≡ ok a
unfolding as_xml_error
from_xml (err e) a h = cc
from_xml (ok b) a h = h

xml_outcome :
    {A : Type 0} (r : Result A)
    → ((a : A) × (as_xml_error r ≡ ok a)) ⊎ (as_xml_error r ≡ err xml_reader_error)
unfolding as_xml_error
xml_outcome (err e) = inr refl
xml_outcome (ok a) = inl (a, refl)

has_children-IsOnly :
    (task_name : Text) (es : Elements) (info : TaskXmlInfo)
    → IsOnly task_name es info
    → has_children es ≡ true
unfolding has_children
has_children-IsOnly task_name no_elements info (e, h, i) = absurd (named_none task_name e h)
has_children-IsOnly task_name (child e es) info only = refl

Defines-read_root :
    (task_name : Text) (root : Element) (info : TaskXmlInfo)
    → Defines task_name root info
    → read_root task_name root ≡ ok info
unfolding read_root
Defines-read_root task_name root info (t, all, (e, one, held)) =
    let only : IsOnly task_name (children_of root) info = (e, one, Holds-info_of e info held) in
    rw
      (
        t,
        has_children-IsOnly task_name (children_of root) info only,
        visit_tasks-only task_name info (children_of root) all only,
      )
      refl

-- What a reading of a definition gives, by the tree of the file.
abbrev pub Read : Bool → Result Element → Text → Result TaskXmlInfo → Type 0
Read is_file tree task_name r =
    ((is_file ≡ false) × (r ≡ err os_error))
    ⊎ (is_file ≡ true)
      × ((info : TaskXmlInfo) × (root : Element) × (tree ≡ ok root)
          × Defines task_name root info
          × (r ≡ ok info))
    ⊎ (is_file ≡ true)
      × (r ≡ err xml_reader_error)
      × ((root : Element) (info : TaskXmlInfo) → tree ≡ ok root → ¬ Defines task_name root info)

refused_not :
    (tree : Result Element) (task_name : Text) (root : Element) (info : TaskXmlInfo)
    → as_xml_error (tree >>= λ root. read_root task_name root) ≡ err xml_reader_error
    → tree ≡ ok root
    → ¬ Defines task_name root info
unfolding as_xml_error
refused_not tree task_name root info e t d = cc (
  e,
  ap (λ (t : Result Element). as_xml_error (t >>= λ root. read_root task_name root)) t,
  ap as_xml_error (Defines-read_root task_name root info d),
)

-- Reading gives an OSError if there is no file. If there is one, it gives the definition in the one task
-- of the name when the root has the tag `tasks`, all its children are tasks with a name, exactly one of
-- them has this name, and that one has a class with a name and a module of the tasks; in every other
-- case, a file that does not parse included, it gives an error of the reader.
pub read_task_definition-Read :
    (is_file : Bool) (tree : Result Element) (task_name : Text)
    → Read is_file tree task_name (read_task_definition is_file tree task_name)
unfolding read_task_definition
read_task_definition-Read false tree task_name = inl (refl, refl)
read_task_definition-Read true tree task_name =
    elim (xml_outcome (tree >>= λ root. read_root task_name root)) [
      | inr e ↦ inr (inr (refl, e, λ root info t. refused_not tree task_name root info e t))
      | inl (info, e) ↦
          let (root, k, h) =
            >>=-eq-ok tree (λ root. read_root task_name root) (from_xml _ info e) in
          inr (inl (refl, (info, root, k, read_root-Defines task_name root info h, e)))
    ]
