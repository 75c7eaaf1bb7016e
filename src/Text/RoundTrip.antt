-- ===== src/Text/RoundTrip.antt =====
-- `int` reads back what `str` writes.
use lustre_ost_performance_t.Base.{
  Bool, Bool-cases, Result, [], ap, arith, false, inl, inr, is_nil, ltb, ok, refl, some, suc, sym,
  true, zero, ℕ, ◌%◌, ◌*◌, ◌++◌, ◌+◌, ◌-◌, ◌/◌, ◌<◌, ◌>>=◌, ◌∙◌, ◌∷◌, ◌≡◌, ◌≤◌, ◌⊎◌,
}
use lustre_ost_performance_t.Text.{Text, contains}
use lustre_ost_performance_t.Text.Number.{
  pos, is_space, lstrip, rstrip, strip, read_digits, digit_value, signed, int_of, digits_of, str_of,
  IsDigits,
}

IsDigits-append : (s t : Text) → IsDigits s → IsDigits t → IsDigits (s ++ t)
IsDigits-append [] t h k = k
IsDigits-append (c ∷ s) t h k = (h.0, h.1, IsDigits-append s t h.2 k)

digits_of-IsDigits : (fuel n : ℕ) → IsDigits (digits_of fuel n)
unfolding digits_of
digits_of-IsDigits zero n = tt
digits_of-IsDigits (suc fuel) n = elim (Bool-cases (ltb n 10)) [
  | inl e ↦ rw e (ground arith, ground arith, tt)
  | inr e ↦ rw e (
      IsDigits-append (digits_of fuel (n / 10)) _ (digits_of-IsDigits fuel (n / 10))
        (omega arith, omega arith, tt))
]

pub str_of-IsDigits : (n : ℕ) → IsDigits (str_of n)
unfolding str_of
str_of-IsDigits n = digits_of-IsDigits (suc n) n

-- Digits hold no other character.
pub IsDigits-lacks : (c : ℕ) (s : Text) → IsDigits s → (c < 48) ⊎ (57 < c) → contains c s ≡ false
unfolding contains
IsDigits-lacks c [] h k = refl
IsDigits-lacks c (x ∷ s) h (inl k) = ground (arith, IsDigits-lacks c s h.2 (inl k))
IsDigits-lacks c (x ∷ s) h (inr k) = ground (arith, IsDigits-lacks c s h.2 (inr k))

digit_not_space : (c : ℕ) → 48 ≤ c → c ≤ 57 → is_space c ≡ false
unfolding is_space
digit_not_space c h k = ground arith

lstrip-digits : (s : Text) → IsDigits s → lstrip s ≡ s
unfolding lstrip
lstrip-digits [] h = refl
lstrip-digits (c ∷ s) h = rw (digit_not_space c h.0 h.1)

rstrip-digits : (s : Text) → IsDigits s → rstrip s ≡ s
unfolding rstrip
rstrip-digits [] h = refl
rstrip-digits (c ∷ s) h = ground (arith, digit_not_space c h.0 h.1, rstrip-digits s h.2)

digit_value_of_digit : (c : ℕ) → 48 ≤ c → c ≤ 57 → digit_value 10 c ≡ some (c - 48)
unfolding digit_value
digit_value_of_digit c h k = ground arith

read_digits-cons :
    (c : ℕ) (s : Text) (seen : Bool) (acc : ℕ)
    → 48 ≤ c
    → c ≤ 57
    → read_digits 10 seen acc (c ∷ s) ≡ read_digits 10 true (acc * 10 + (c - 48)) s
unfolding read_digits
read_digits-cons c s seen acc h k = rw (digit_value_of_digit c h k, read_digits)

read_one :
    (d : ℕ) (seen : Bool) (acc : ℕ)
    → d < 10
    → read_digits 10 seen acc ((48 + d) ∷ []) ≡ ok (acc * 10 + d)
read_one d seen acc h =
    read_digits-cons (48 + d) [] seen acc (omega arith) (omega arith)
    ∙ unfold read_digits in ap ok (omega arith)

-- One more digit at the end multiplies the value by ten and adds the digit.
read_digits-append :
    (d : ℕ) (s : Text) (seen : Bool) (acc v : ℕ)
    → d < 10
    → IsDigits s
    → read_digits 10 seen acc s ≡ ok v
    → read_digits 10 seen acc (s ++ (48 + d) ∷ []) ≡ ok (v * 10 + d)
read_digits-append d [] true acc v h k e = read_one d true acc h ∙ unfold read_digits in cc
read_digits-append d [] false acc v h k e = unfold read_digits in cc
read_digits-append d (c ∷ s) seen acc v h k e =
    read_digits-cons c (s ++ (48 + d) ∷ []) seen acc k.0 k.1
    ∙ read_digits-append d s true (acc * 10 + (c - 48)) v h k.2
        (sym (read_digits-cons c s seen acc k.0 k.1) ∙ e)

read_digits-digits_of : (fuel n : ℕ) → n < fuel → read_digits 10 false 0 (digits_of fuel n) ≡ ok n
unfolding digits_of
read_digits-digits_of zero n h = absurd (omega arith)
read_digits-digits_of (suc fuel) n h = elim (Bool-cases (ltb n 10)) [
  | inl e ↦ rw e (read_one n false 0 (ground arith) ∙ ap ok (omega arith))
  | inr e ↦ rw e (
      read_digits-append (n % 10) (digits_of fuel (n / 10)) false 0 (n / 10) (omega arith)
        (digits_of-IsDigits fuel (n / 10)) (read_digits-digits_of fuel (n / 10) (ground arith))
      ∙ ap ok (omega arith))
]

is_nil-snoc : (s : Text) (c : ℕ) → is_nil (s ++ c ∷ []) ≡ false
is_nil-snoc [] c = refl
is_nil-snoc (x ∷ s) c = refl

pub str_of-ne-nil : (n : ℕ) → is_nil (str_of n) ≡ false
unfolding str_of digits_of
str_of-ne-nil n = ground (arith, is_nil-snoc (digits_of n (n / 10)) (48 + n % 10))

signed-digits :
    (read : Text → Result ℕ) (s : Text)
    → IsDigits s
    → is_nil s ≡ false
    → signed read s ≡ (read s >>= λ n. ok (pos n))
unfolding signed
signed-digits read [] h k = cc
signed-digits read (c ∷ s) h k = ground arith

pub read_digits-str_of : (n : ℕ) → read_digits 10 false 0 (str_of n) ≡ ok n
unfolding str_of
read_digits-str_of n = read_digits-digits_of (suc n) n (omega arith)

-- `int(str(n))` is `n`, for every natural number.
pub int_of-str_of : (n : ℕ) → int_of (str_of n) ≡ ok (pos n)
unfolding int_of strip
int_of-str_of n =
    let digits = str_of-IsDigits n in
    rw (ap rstrip (lstrip-digits (str_of n) digits) ∙ rstrip-digits (str_of n) digits) (
      signed-digits (read_digits 10 false 0) (str_of n) digits (str_of-ne-nil n)
      ∙ rw (read_digits-str_of n))

-- Different numbers have different digits.
pub str_of-injective : (a b : ℕ) → str_of a ≡ str_of b → a ≡ b
str_of-injective a b e = cc (int_of-str_of a, int_of-str_of b, ap int_of e)
