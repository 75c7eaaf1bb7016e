-- ===== src/Setup/Version.antt =====
-- version/minimal_python.py: the test of the interpreter's version.
use lustre_ost_performance_t.Base.{
  Bool, Result, [], arith, false, if◌then◌else◌, inl, inr, ltb, ok, raise_if, refl, runtime_error,
  ℕ, ◌%◌, ◌*◌, ◌++◌, ◌+◌, ◌/◌, ◌<◌, ◌>>=◌, ◌↔◌, ◌∷◌, ◌≡◌, ◌≤◌, ◌⊎◌,
}
use lustre_ost_performance_t.Text.{Text, codes}
use lustre_ost_performance_t.Text.Number.{
  ℤ, pos, int_of_hex, read_hex, read_digits, digit_value, signed, strip, lstrip, rstrip, is_space,
}

-- One hexadecimal digit in lower case.
unfoldable pub hex_digit : ℕ → ℕ
hex_digit d = if ltb d 10 then b'0' + d else 87 + d

-- `format(n, '02x')`, for a number of at most two digits
unfoldable pub format_02x : ℕ → Text
unfolding hex_digit
format_02x n = hex_digit (n / 16) ∷ hex_digit (n % 16) ∷ []

unfoldable pub build_hexversion : Text
unfolding format_02x
build_hexversion =
    codes "0x" ++ (format_02x 3 ++ (format_02x 6 ++ (format_02x 8 ++ format_02x 240)))

unfoldable pub is_below : ℕ → ℤ → Bool
is_below n (pos k) = ltb n k
is_below n _ = false

-- `check`, with `sys.hexversion`
unfoldable pub check_python : ℕ → Result (Unit {0})
check_python sys_hexversion = do
  hexversion ← int_of_hex build_hexversion
  raise_if (is_below sys_hexversion hexversion) runtime_error

-- What `sys.hexversion` is made of.
abbrev pub hexversion_of : ℕ → ℕ → ℕ → ℕ → ℕ
hexversion_of major minor micro level = ((major * 256 + minor) * 256 + micro) * 256 + level

-- Not older than 3.6.8 final, compared from the left.
abbrev pub IsSupported : ℕ → ℕ → ℕ → ℕ → Type 0
IsSupported major minor micro level =
    (3 < major)
    ⊎ (major ≡ 3) × ((6 < minor) ⊎ (minor ≡ 6) × ((8 < micro) ⊎ (micro ≡ 8) × (240 ≤ level)))

threshold : int_of_hex build_hexversion ≡ ok (pos 50727152)
unfolding build_hexversion format_02x hex_digit int_of_hex read_hex read_digits digit_value signed
    strip lstrip rstrip is_space
threshold = refl

check_python-le : (n : ℕ) → (check_python n ≡ ok tt) ↔ (50727152 ≤ n)
unfolding check_python is_below
check_python-le n = rw threshold (ground arith)

newer : (a b c d : ℕ) → IsSupported a b c d → 50727152 ≤ hexversion_of a b c d
newer a b c d (inl h) = omega arith
newer a b c d (inr (e, inl h)) = omega arith
newer a b c d (inr (e, inr (e', inl h))) = omega arith
newer a b c d (inr (e, inr (e', inr (e'', h)))) = omega arith

split_at : (k n : ℕ) → k ≤ n → (k < n) ⊎ (n ≡ k)
split_at k n h = ground arith

supported :
    (a b c d : ℕ)
    → b < 256
    → c < 256
    → d < 256
    → 50727152 ≤ hexversion_of a b c d
    → IsSupported a b c d
supported a b c d hb hc hd h = elim (split_at 3 a (omega arith)) [
  | inl k ↦ inl k
  | inr e ↦ elim (split_at 6 b (omega arith)) [
    | inl k ↦ inr (e, inl k)
    | inr e' ↦ elim (split_at 8 c (omega arith)) [
      | inl k ↦ inr (e, inr (e', inl k))
      | inr e'' ↦ inr (e, inr (e', inr (e'', omega arith)))
    ]
  ]
]

-- Where minor, micro and release level fit in a byte each, as they do in `sys.hexversion`, the test
-- passes exactly on the versions that are not older than 3.6.8 final, compared from the left.
pub check_python_iff :
    (major minor micro level : ℕ)
    → minor < 256
    → micro < 256
    → level < 256
    → (check_python (hexversion_of major minor micro level) ≡ ok tt)
      ↔ IsSupported major minor micro level
check_python_iff major minor micro level h k l = (
  (λ e.
      supported major minor micro level h k l
        ((check_python-le (hexversion_of major minor micro level)).0 e)),
  (λ s.
      (check_python-le (hexversion_of major minor micro level)).1
        (newer major minor micro level s)),
)
