-- ===== src/Text/Number.antt =====
-- `str.strip`, `str(n)` of a natural number, and `int(s)` and `int(s, 16)` on ASCII digits.
use Prim.Native.Nat.{◌/◌, ◌%◌, ◌*◌}
use lustre_ost_performance_t.Base.{
  Bool, Option, Result, [], err, false, if◌then◌else◌, is_nil, leb, ltb, none, ok, some, suc, true,
  value_error, zero, ℕ, ◌&&◌, ◌++◌, ◌+◌, ◌-◌, ◌==◌, ◌>>=◌, ◌||◌, ◌∷◌, ◌≤◌,
}
use lustre_ost_performance_t.Text.{Text}

-- `negsuc n` is -(n + 1).
pub data ℤ : Type 0 where
  pos : ℕ → ℤ
  negsuc : ℕ → ℤ

abbrev pub negate : ℕ → ℤ
negate zero = pos 0
negate (suc n) = negsuc n

-- the characters for which `str.isspace` holds
unfoldable pub is_space : ℕ → Bool
is_space c =
    (leb 9 c && leb c 13)
    || (leb 28 c && leb c 32)
    || c == 133
    || c == 160
    || c == 5760
    || (leb 8192 c && leb c 8202)
    || c == 8232
    || c == 8233
    || c == 8239
    || c == 8287
    || c == 12288

unfoldable pub lstrip : Text → Text
unfolding is_space
lstrip [] = []
lstrip (c ∷ s) = let rest = lstrip s in if is_space c then rest else c ∷ s

unfoldable pub rstrip : Text → Text
unfolding is_space
rstrip [] = []
rstrip (c ∷ s) = let rest = rstrip s in if is_nil rest && is_space c then [] else c ∷ rest

unfoldable pub strip : Text → Text
unfolding lstrip rstrip
strip s = rstrip (lstrip s)

unfoldable pub is_digit : ℕ → Bool
is_digit c = leb b'0' c && leb c b'9'

-- The value of a digit in a base up to 36.
unfoldable pub digit_value : ℕ → ℕ → Option ℕ
digit_value base c =
    let v =
      (if leb b'0' c && leb c b'9'
        then c - 48
        else if leb b'a' c && leb c b'z'
        then c - 87
        else if leb b'A' c && leb c b'Z'
        then c - 55
        else 36) in
    if ltb v base then some v else none

-- Digits, with single underscores between them; `seen` says that a digit stands before.
unfoldable pub read_digits : ℕ → Bool → ℕ → Text → Result ℕ
read_digits base seen acc [] = if seen then ok acc else err value_error
read_digits base seen acc (c ∷ s) = elim (digit_value base c) [
  | some d ↦ read_digits base true (acc * base + d) s
  | none ↦
      let rest = read_digits base false acc s in if c == b'_' && seen then rest else err value_error
]

unfoldable pub signed : (Text → Result ℕ) → Text → Result ℤ
signed read [] = err value_error
signed read (c ∷ s) =
    if c == b'-'
    then (do n ← read s; ok (negate n))
    else if c == b'+'
    then (do n ← read s; ok (pos n))
    else (do n ← read (c ∷ s); ok (pos n))

-- `int(s)`
unfoldable pub int_of : Text → Result ℤ
unfolding signed strip read_digits
int_of s = signed (read_digits 10 false 0) (strip s)

-- `int(s, 16)`: a prefix 0x may stand in front of the digits, and an underscore behind it
unfoldable pub read_hex : Text → Result ℕ
unfolding read_digits
read_hex (z ∷ x ∷ s) =
    if z == b'0' && (x == b'x' || x == b'X')
    then (if is_nil s then err value_error else read_digits 16 true 0 s)
    else read_digits 16 false 0 (z ∷ x ∷ s)
read_hex s = read_digits 16 false 0 s

unfoldable pub int_of_hex : Text → Result ℤ
unfolding signed strip read_hex
int_of_hex s = signed read_hex (strip s)

-- The last digit of `n` stands behind those of `n / 10`; more than `n` rounds are never made.
unfoldable pub digits_of : ℕ → ℕ → Text
digits_of zero n = []
digits_of (suc fuel) n =
    let rest = digits_of fuel (n / 10) ++ (b'0' + n % 10) ∷ [] in
    if ltb n 10 then (b'0' + n) ∷ [] else rest

-- `str(n)`
unfoldable pub str_of : ℕ → Text
unfolding digits_of
str_of n = digits_of (suc n) n

abbrev pub IsDigits : Text → Type 0
IsDigits [] = Unit {0}
IsDigits (c ∷ s) = (48 ≤ c) × (c ≤ 57) × IsDigits s
