-- ===== src/Lfs/Migrate/Proper.antt =====
-- lfs/lfs_utils.py: which arguments `migrate_file` accepts.
use lustre_ost_performance_t.Base.{
  >>=-eq-ok, Bool, Result, [], ap, err, false, inl, inr, is_nil, not, ok, raise_if, refl,
  runtime_error, subst, true, ◌&&◌, ◌>>◌, ◌∙◌, ◌∷◌, ◌≡◌, ◌⊎◌,
}
use lustre_ost_performance_t.Text.{Text}
use lustre_ost_performance_t.Lfs.Migrate.{
  PyValue, py_none, py_str, py_int, py_bool, text_of, is_py_none, is_py_int, is_py_bool, truthy,
  Arguments, check_arguments,
}

-- A value that may be left out and is a number, and one that has no truth or is a bool.
abbrev pub IsIndex : PyValue → Type 0
IsIndex v = (is_py_none v ≡ true) ⊎ (is_py_int v ≡ true)

abbrev pub IsFlag : PyValue → Type 0
IsFlag v = (truthy v ≡ false) ⊎ (is_py_bool v ≡ true)

-- The arguments that are accepted, with the name of the file.
abbrev pub IsProper : Arguments → Text → Type 0
IsProper a filename =
    (a.filename ≡ py_str filename)
    × IsIndex a.source_idx
    × (is_py_int a.target_idx ≡ true)
    × IsFlag a.block
    × IsFlag a.skip
    × (is_nil filename ≡ false)

neither : (b c : Bool) → (b ≡ true) ⊎ (c ≡ true) → (not b && not c) ≡ false
neither true c h = refl
neither false true h = refl
neither false false (inl e) = cc
neither false false (inr e) = cc

either : (b c : Bool) → raise_if (not b && not c) runtime_error ≡ ok tt → (b ≡ true) ⊎ (c ≡ true)
either true c h = inl refl
either false true h = inr refl
either false false h = cc

unless : (b c : Bool) → (b ≡ false) ⊎ (c ≡ true) → (b && not c) ≡ false
unless false c h = refl
unless true true h = refl
unless true false (inl e) = cc
unless true false (inr e) = cc

unless_not : (b c : Bool) → raise_if (b && not c) runtime_error ≡ ok tt → (b ≡ false) ⊎ (c ≡ true)
unless_not false c h = inl refl
unless_not true true h = inr refl
unless_not true false h = cc

is_so : (b : Bool) → raise_if (not b) runtime_error ≡ ok tt → b ≡ true
is_so true h = refl
is_so false h = cc

named_file :
    (n t : Text) → (raise_if (is_nil n) runtime_error >> ok n) ≡ ok t → (n ≡ t) × (is_nil t ≡ false)
named_file [] t h = cc
named_file (c ∷ n) t h =
    let same : c ∷ n ≡ t = cc in (same, subst (λ t. is_nil t ≡ false) same refl)

text_of-ok : (v : PyValue) (t : Text) → text_of v ≡ ok t → v ≡ py_str t
unfolding text_of
text_of-ok (py_str s) t h = cc
text_of-ok py_none t h = cc
text_of-ok (py_int n) t h = cc
text_of-ok (py_bool b) t h = cc

text_of-py_str : (v : PyValue) (t : Text) → v ≡ py_str t → text_of v ≡ ok t
unfolding text_of
text_of-py_str v t h = ap text_of h

pub Proper-check : (a : Arguments) (t : Text) → IsProper a t → check_arguments a ≡ ok t
unfolding check_arguments
Proper-check a t (f, s, d, b, k, n) =
    rw
      (
        text_of-py_str a.filename t f,
        neither (is_py_none a.source_idx) (is_py_int a.source_idx) s,
        d,
        unless (truthy a.block) (is_py_bool a.block) b,
        unless (truthy a.skip) (is_py_bool a.skip) k,
        n,
      )
      refl

pub check-Proper : (a : Arguments) (t : Text) → check_arguments a ≡ ok t → IsProper a t
unfolding check_arguments
check-Proper a t h =
    let (n, f, h1) = >>=-eq-ok (text_of a.filename) _ h in
    let (u1, s, h2) =
      >>=-eq-ok
        (raise_if (not (is_py_none a.source_idx) && not (is_py_int a.source_idx)) runtime_error) _
        h1 in
    let (u2, d, h3) = >>=-eq-ok (raise_if (not (is_py_int a.target_idx)) runtime_error) _ h2 in
    let (u3, b, h4) =
      >>=-eq-ok (raise_if (truthy a.block && not (is_py_bool a.block)) runtime_error) _ h3 in
    let (u4, k, h5) =
      >>=-eq-ok (raise_if (truthy a.skip && not (is_py_bool a.skip)) runtime_error) _ h4 in
    let (same, some_name) = named_file n t h5 in
    (
      text_of-ok a.filename n f ∙ ap py_str same,
      either _ _ s,
      is_so _ d,
      unless_not _ _ b,
      unless_not _ _ k,
      some_name,
    )

text_of_cases : (v : PyValue) → (text_of v ≡ err runtime_error) ⊎ ((t : Text) × (text_of v ≡ ok t))
unfolding text_of
text_of_cases (py_str t) = inr (t, refl)
text_of_cases py_none = inl refl
text_of_cases (py_int n) = inl refl
text_of_cases (py_bool b) = inl refl

refuse :
    (b : Bool) (r : Result Text)
    → (r ≡ err runtime_error) ⊎ ((t : Text) × (r ≡ ok t))
    → ((raise_if b runtime_error >> r) ≡ err runtime_error)
      ⊎ ((t : Text) × ((raise_if b runtime_error >> r) ≡ ok t))
refuse true r h = inl refl
refuse false r h = h

checked :
    (a : Arguments)
    → (check_arguments a ≡ err runtime_error) ⊎ ((t : Text) × (check_arguments a ≡ ok t))
unfolding check_arguments
checked a = elim (text_of_cases a.filename) [
  | inl e ↦ rw e (inl refl)
  | inr (t, e) ↦ rw e (
      refuse (not (is_py_none a.source_idx) && not (is_py_int a.source_idx)) _ (
        refuse (not (is_py_int a.target_idx)) _ (
          refuse (truthy a.block && not (is_py_bool a.block)) _ (
            refuse (truthy a.skip && not (is_py_bool a.skip)) _
              (refuse (is_nil t) (ok t) (inr (t, refl)))))))
]

pub arguments_cases :
    (a : Arguments)
    → (check_arguments a ≡ err runtime_error) × ((t : Text) → ¬ IsProper a t)
      ⊎ ((t : Text) × IsProper a t × (check_arguments a ≡ ok t))
arguments_cases a = elim (checked a) [
  | inl e ↦ inl (e, λ t h. cc (e, Proper-check a t h))
  | inr (t, e) ↦ inr (t, check-Proper a t e, e)
]
