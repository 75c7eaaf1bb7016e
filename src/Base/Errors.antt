-- ===== src/Base/Errors.antt =====
-- A Python exception is a value; its message, which the program only logs, is left out.
use mathlib.Core.Path.{◌≡◌, refl}
use mathlib.Core.Logic.{◌⊎◌, inl, inr}
use mathlib.Core.Bool.{Bool, true, false}
use mathlib.Core.Option.{Option, none, some}

pub data Error : Type 0 where
  runtime_error value_error type_error key_error index_error attribute_error os_error : Error
  config_value_error out_of_range_error xml_reader_error zero_division_error : Error
  called_process_error interrupted_error import_error no_section_error no_option_error : Error

-- What code gives back: it raised, or it returned a value.
pub data Result {ℓ} (A : Type ℓ) : Type ℓ where
  err : (raised : Error) → Result A
  ok : (value : A) → Result A

module _ {ℓ κ} {A : Type ℓ} {B : Type κ} where
  infixl 5 ◌>>=◌ ◌>>◌
  abbrev pub ◌>>=◌ : (m : Result A) (next : A → Result B) → Result B
  err raised >>= next = err raised
  ok value >>= next = next value

  abbrev pub ◌>>◌ : (m : Result A) (next : Result B) → Result B
  m >> next = m >>= λ value. next

  -- The first part returned a value with which the second part returned.
  abbrev pub Passes : Result A → (A → Result B) → B → Type (ℓ ⊔ κ)
  Passes m next b = (a : A) × (m ≡ ok a) × (next a ≡ ok b)

  pub >>=-eq-ok :
      (m : Result A) (next : A → Result B) {b : B} (h : (m >>= next) ≡ ok b) → Passes m next b
  >>=-eq-ok (err raised) next h = cc
  >>=-eq-ok (ok value) next h = (value, refl, h)

-- `if bad: raise e`
abbrev pub raise_if : Bool → Error → Result (Unit {0})
raise_if true e = err e
raise_if false e = ok tt

-- a subscript or a lookup that raises `e` where there is nothing
abbrev pub or_raise {ℓ} : {A : Type ℓ} → Option A → Error → Result A
or_raise (some a) e = ok a
or_raise none e = err e

pub Result-cases {ℓ} :
    {A : Type ℓ} (r : Result A) → ((a : A) × (r ≡ ok a)) ⊎ ((e : Error) × (r ≡ err e))
Result-cases (ok a) = inl (a, refl)
Result-cases (err e) = inr (e, refl)
