-- ===== src/Task/Factory/Arguments.antt =====
-- Which arguments a class is called with.
use lustre_ost_performance_t.Base.{
  ==_iff, >>=-eq-ok, Bool-cases, List, Option-cases, [], ap, arith, get_elem?, inl, inr, leb,
  leb→le, length, ok, refl, some, subst, suc, sym, take, take_all, ◌++◌, ◌+◌, ◌==◌, ◌↔◌, ◌∙◌, ◌∷◌,
  ◌≡◌, ◌≤◌, ◌⊎◌,
}
use lustre_ost_performance_t.Text.{Text, text_eq_iff, codes}
use lustre_ost_performance_t.Dict.{keys, values}
use lustre_ost_performance_t.Task.{Class, Task, init_args_of}
use lustre_ost_performance_t.Task.Factory.{
  Modules, TaskXmlInfo, call_arguments, create_task, check_names, check_signature,
  create_from_xml_info,
}

-- The arguments of a call, by the number of items.
abbrev pub Called : List Text → List Text → Type 0
Called items arguments =
    (length items ≤ 14) × (arguments ≡ items)
    ⊎ (length items ≡ 15)
      × ((last : Text) × (get_elem? items 14 ≡ some last)
          × (arguments ≡ take 13 items ++ last ∷ []))

pub call_arguments_few :
    (items : List Text) → length items ≤ 14 → call_arguments items (length items) ≡ ok items
unfolding call_arguments
call_arguments_few items h = ground (arith, take_all items)

fifteen :
    (items arguments : List Text)
    → call_arguments items 15 ≡ ok arguments
    → (last : Text) × (get_elem? items 14 ≡ some last) × (arguments ≡ take 13 items ++ last ∷ [])
unfolding call_arguments
fifteen items arguments h = elim (Option-cases (get_elem? items 14)) [
  | inl e ↦ cc
  | inr (x, e) ↦ (x, e, ground arith)
]

-- A class is called with the items, all of them and in order, if there are up to 14 of them.
-- Of 15 items the last but one is left out. More are refused.
pub call_arguments_lem :
    (items arguments : List Text)
    → call_arguments items (length items) ≡ ok arguments
    → Called items arguments
call_arguments_lem items arguments h = elim (Bool-cases (leb (length items) 14)) [
  | inl e ↦ inl (leb→le _ _ e, unfold call_arguments in ground (arith, take_all items))
  | inr e ↦ elim (Bool-cases (length items == 15)) [
    | inl e' ↦
        let l = (==_iff _ _).0 e' in
        inr (l, fifteen items arguments (subst (λ n. call_arguments items n ≡ ok arguments) l h))
    | inr e' ↦ absurd (unfold call_arguments in ground arith)
  ]
]

check_names-eq :
    (names args : List Text)
    → length args ≡ length names
    → check_names names args ≡ ok tt
    → names ≡ args
unfolding check_names
check_names-eq [] [] l h = refl
check_names-eq [] (b ∷ args) l h = absurd (omega arith)
check_names-eq (a ∷ names) [] l h = cc
check_names-eq (a ∷ names) (b ∷ args) l h =
    ground (arith, text_eq_iff a b, check_names-eq names args)

check_signature-eq :
    (args names : List Text) → check_signature args names ≡ ok tt → args ≡ codes "self" ∷ names
unfolding check_signature
check_signature-eq [] names h = ground arith
check_signature-eq (a ∷ args) names h =
    ground (arith, text_eq_iff a (codes "self"), check_names-eq names args)

check_names-same : (names : List Text) → check_names names names ≡ ok tt
unfolding check_names
check_names-same [] = refl
check_names-same (a ∷ names) = rw ((text_eq_iff a a).1 refl) (check_names-same names)

check_signature-same :
    (args names : List Text) → args ≡ codes "self" ∷ names → check_signature args names ≡ ok tt
unfolding check_signature
check_signature-same args names e =
    subst (λ args. check_signature args names ≡ ok tt) (sym e)
      (rw
        (
          (text_eq_iff (codes "self") (codes "self")).1 refl,
          (==_iff (suc (length names)) (length names + 1)).1 (omega arith),
        )
        (check_names-same names))

call_arguments-Called :
    (items arguments : List Text)
    → Called items arguments
    → call_arguments items (length items) ≡ ok arguments
call_arguments-Called items arguments (inl (l, e)) = call_arguments_few items l ∙ ap ok (sym e)
call_arguments-Called items arguments (inr (l, (last, at, e))) =
    ap (call_arguments items) l ∙ (unfold call_arguments in rw at (ap ok (sym e)))

module _ (mods : Modules) where
  signature_of :
      (info : TaskXmlInfo) (task : Task)
      → create_from_xml_info mods info ≡ ok task
      → (c : Class) × (mods.find_class info.class_module info.class_name ≡ ok c)
        × (init_args_of c ≡ codes "self" ∷ keys info.class_properties)
        × ((arguments : List Text) × Called (values info.class_properties) arguments
            × (mods.new c arguments ≡ ok task))
  unfolding create_from_xml_info create_task
  signature_of info task h =
      let items = values info.class_properties in
      let (c, found, rest) = >>=-eq-ok (mods.find_class info.class_module info.class_name) _ h in
      let (u, checked, made) =
        >>=-eq-ok (check_signature (init_args_of c) (keys info.class_properties)) _ rest in
      let (arguments, called, new) = >>=-eq-ok (call_arguments items (length items)) _ made in
      (
        c,
        found,
        check_signature-eq (init_args_of c) (keys info.class_properties) checked,
        (arguments, call_arguments_lem items arguments called, new),
      )

  made_by :
      (info : TaskXmlInfo) (task : Task) (c : Class) (arguments : List Text)
      → mods.find_class info.class_module info.class_name ≡ ok c
      → init_args_of c ≡ codes "self" ∷ keys info.class_properties
      → Called (values info.class_properties) arguments
      → mods.new c arguments ≡ ok task
      → create_from_xml_info mods info ≡ ok task
  unfolding create_from_xml_info create_task
  made_by info task c arguments found same called new =
      rw
        (
          found,
          check_signature-same (init_args_of c) (keys info.class_properties) same,
          call_arguments-Called (values info.class_properties) arguments called,
        )
        new

  -- From XML a task is made exactly if the class is found in the module, its parameters are `self` and
  -- the property names, in order, there are up to 15 of these, and the call of the class makes the
  -- task. Up to 14 properties the class is called with their values, all of them and in order; with 15
  -- it is called with the first 13 values and the last, without the last but one.
  pub create_from_xml_info-signature :
      (info : TaskXmlInfo) (task : Task)
      → (create_from_xml_info mods info ≡ ok task) ↔ (
          (c : Class) × (mods.find_class info.class_module info.class_name ≡ ok c)
          × (init_args_of c ≡ codes "self" ∷ keys info.class_properties)
          × ((arguments : List Text) × Called (values info.class_properties) arguments
              × (mods.new c arguments ≡ ok task)))
  create_from_xml_info-signature info task = (
    signature_of info task,
    λ (c, found, same, (arguments, called, new)).
        made_by info task c arguments found same called new,
  )
