-- ===== src/Lfs/Migrate.antt =====
-- lfs/lfs_utils.py: `set_stripe`, `stripe_info` and `migrate_file`. The programs that are run stand
-- in the state in their order; what they print is a parameter.
pub mod Proper
pub mod Commands
use lustre_ost_performance_t.Base.{
  Bool, List, Option, Result, [], called_process_error, err, false, if◌then◌else◌, is_nil, ltb,
  none, not, ok, or_raise, raise_if, runtime_error, some, true, ℕ, ◌&&◌, ◌++◌, ◌==◌, ◌>>=◌, ◌>>◌,
  ◌∷◌,
}
use lustre_ost_performance_t.Base.Exec.{Exec, pure, lift}
use lustre_ost_performance_t.Base.Exec
use lustre_ost_performance_t.Text.{Text, codes}
use lustre_ost_performance_t.Text.Number.{ℤ, pos, negsuc}
use lustre_ost_performance_t.Dict.{Dict, get}
use lustre_ost_performance_t.Lfs.{str_of_int}

-- An argument whose type the code tests.
pub data PyValue : Type 0 where
  py_none : PyValue
  py_str : Text → PyValue
  py_int : ℤ → PyValue
  py_bool : Bool → PyValue

unfoldable pub is_py_str : PyValue → Bool
is_py_str (py_str s) = true
is_py_str _ = false

-- `isinstance(v, bool)`
unfoldable pub is_py_bool : PyValue → Bool
is_py_bool (py_bool b) = true
is_py_bool _ = false

-- `isinstance(v, int)`, which holds of a bool too
unfoldable pub is_py_int : PyValue → Bool
is_py_int (py_int n) = true
is_py_int (py_bool b) = true
is_py_int _ = false

unfoldable pub is_py_none : PyValue → Bool
is_py_none py_none = true
is_py_none _ = false

unfoldable pub int_eq : ℤ → ℤ → Bool
int_eq (pos a) (pos b) = a == b
int_eq (negsuc a) (negsuc b) = a == b
int_eq _ _ = false

unfoldable pub truthy : PyValue → Bool
truthy py_none = false
truthy (py_str s) = not (is_nil s)
truthy (py_int n) = not (int_eq n (pos 0))
truthy (py_bool b) = b

-- The number that a value is equal to; `None` and a text are equal to none.
unfoldable pub number_of : PyValue → Option ℤ
number_of (py_int n) = some n
number_of (py_bool true) = some (pos 1)
number_of (py_bool false) = some (pos 0)
number_of _ = none

unfoldable pub equals : ℤ → PyValue → Bool
equals n v = elim (number_of v) [ none ↦ false | some k ↦ int_eq n k ]

-- `v > -1`
unfoldable pub is_natural : PyValue → Bool
is_natural v = elim (number_of v) [ some (pos n) ↦ true | _ ↦ false ]

-- `n > k` for a natural number `k`
unfoldable pub exceeds : ℤ → ℕ → Bool
exceeds (pos n) k = ltb k n
exceeds (negsuc n) k = false

unfoldable pub str_of_value : PyValue → Text
str_of_value py_none = codes "None"
str_of_value (py_str s) = s
str_of_value (py_int n) = str_of_int n
str_of_value (py_bool true) = codes "True"
str_of_value (py_bool false) = codes "False"

pub record StripeInfo : Type 0 where
  pub count : ℤ
  pub index : ℤ

-- The lines that are printed, without the time and the message.
pub data Report : Type 0 where
  skipped ignored failed : (filename : Text) → Report
  success : (filename : Text) (source_index : ℤ) (target_index : PyValue) → Report

abbrev pub Commands : Type 0
Commands = List (List Text)

pub record Arguments : Type 0 where
  pub filename : PyValue
  pub source_idx : PyValue
  pub target_idx : PyValue
  pub block : PyValue
  pub skip : PyValue

unfoldable pub text_of : PyValue → Result Text
text_of (py_str s) = ok s
text_of _ = err runtime_error

-- The tests of the arguments; the file name is a text.
unfoldable pub check_arguments : Arguments → Result Text
check_arguments a = do
  filename ← text_of a.filename
  raise_if (not (is_py_none a.source_idx) && not (is_py_int a.source_idx)) runtime_error
  raise_if (not (is_py_int a.target_idx)) runtime_error
  raise_if (truthy a.block && not (is_py_bool a.block)) runtime_error
  raise_if (truthy a.skip && not (is_py_bool a.skip)) runtime_error
  raise_if (is_nil filename) runtime_error
  ok filename

unfoldable pub field_of : Dict ℤ → Text → Result ℤ
field_of fields name = or_raise (get fields name) runtime_error

unfoldable pub stripe_of : Dict ℤ → Result StripeInfo
stripe_of fields = do
  lmm_stripe_count ← field_of fields (codes "lmm_stripe_count")
  lmm_stripe_offset ← field_of fields (codes "lmm_stripe_offset")
  ok (record { count = lmm_stripe_count; index = lmm_stripe_offset })

-- `skip and stripe_info.count > 1`
abbrev pub is_skipped : Arguments → StripeInfo → Bool
is_skipped a info = truthy a.skip && exceeds info.count 1

-- `source_idx is not None and stripe_info.index != source_idx`
abbrev pub is_elsewhere : Arguments → StripeInfo → Bool
is_elsewhere a info = not (is_py_none a.source_idx) && not (equals info.index a.source_idx)

-- `target_idx is not None and stripe_info.index == target_idx`
abbrev pub is_there : Arguments → StripeInfo → Bool
is_there a info = not (is_py_none a.target_idx) && equals info.index a.target_idx

-- `except subprocess.CalledProcessError`
unfoldable pub caught_failure : Text → Result Report → Result Report
caught_failure filename (err called_process_error) = ok (failed filename)
caught_failure filename r = r

unfoldable pub getstripe_args : Text → Text → List Text
getstripe_args lfs_bin filename =
    lfs_bin ∷ codes "getstripe" ∷ codes "-c" ∷ codes "-i" ∷ codes "-y" ∷ filename ∷ []

unfoldable pub migrate_args : Text → Text → PyValue → PyValue → ℤ → List Text
migrate_args lfs_bin filename target_idx block count =
    lfs_bin
      ∷ codes "migrate"
      ∷ (if truthy block then codes "--block" else codes "--non-block")
      ∷ (if is_natural target_idx then codes "-i" ∷ str_of_value target_idx ∷ [] else [])
    ++ ((if exceeds count 0 then codes "-c" ∷ str_of_int count ∷ [] else []) ++ filename ∷ [])

-- The path of `lfs`, what running a program gives or raises, and what `yaml.safe_load` makes of its
-- output.
pub record Host : Type 0 where
  pub lfs_bin : Text
  pub run : List Text → Result Text
  pub safe_load : Text → Result (Dict ℤ)

module _ (host : Host) where
  unfoldable pub call : List Text → Exec Commands Text
  call args commands = (host.run args, commands ++ args ∷ [])

  unfoldable pub set_stripe : Text → Text → Exec Commands (Unit {0})
  unfolding call
  set_stripe ost_idx file_path =
      Exec.◌>>=◌ (call (host.lfs_bin ∷ codes "setstripe" ∷ codes "-i" ∷ ost_idx ∷ file_path ∷ []))
        λ out. pure tt

  unfoldable pub stripe_info : Text → Exec Commands StripeInfo
  unfolding call getstripe_args
  stripe_info filename =
      Exec.◌>>=◌ (call (getstripe_args host.lfs_bin filename))
        λ out. lift (host.safe_load out >>= stripe_of)

  unfoldable pub move_file : Text → Arguments → StripeInfo → Exec Commands Report
  unfolding call migrate_args
  move_file filename a info =
      Exec.◌>>=◌ (call (migrate_args host.lfs_bin filename a.target_idx a.block info.count))
        λ out. pure (success filename info.index a.target_idx)

  unfoldable pub process_file : Text → Arguments → StripeInfo → Exec Commands Report
  unfolding move_file
  process_file filename a info =
      let moved = move_file filename a info in
      if is_skipped a info
      then pure (skipped filename)
      else if is_elsewhere a info
      then pure (ignored filename)
      else if is_there a info
      then pure (ignored filename)
      else moved

  unfoldable pub try_migrate : Text → Arguments → Exec Commands Report
  unfolding stripe_info process_file caught_failure
  try_migrate filename a commands =
      let (r, commands) = Exec.◌>>=◌ (stripe_info filename) (process_file filename a) commands in
      (caught_failure filename r, commands)

  unfoldable pub migrate_file : Arguments → Exec Commands Report
  unfolding check_arguments try_migrate
  migrate_file a = Exec.◌>>=◌ (lift (check_arguments a)) λ filename. try_migrate filename a
