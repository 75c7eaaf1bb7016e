-- ===== src/Lfs/Levels.antt =====
-- lfs/lfs_utils.py: what `retrieve_ost_fill_level` reads from the table that `lfs df` prints.
use lustre_ost_performance_t.Base.{
  Bool, Bool-cases, List, [], ap, arith, false, inl, inr, is_nil, length, length-append, ltb, none,
  not, refl, some, suc, true, zero, ℕ, ◌%◌, ◌*◌, ◌++◌, ◌+◌, ◌/◌, ◌<◌, ◌==◌, ◌∙◌, ◌∷◌, ◌≡◌, ◌≤◌,
}
use lustre_ost_performance_t.Text.{Text, codes, contains}
use lustre_ost_performance_t.Text.Number.{is_digit, digits_of, str_of}
use lustre_ost_performance_t.Text.RoundTrip.{str_of-IsDigits, str_of-ne-nil, IsDigits-lacks}
use lustre_ost_performance_t.Text.Match.{
  Stops, or_else, after, span, after-append, span-append, IsDigits-AllIn, starts_solid,
  contains-append,
}
use lustre_ost_performance_t.Lfs.FillLevel.{
  few_digits, match_index, ost_here, last_ost, match_percent, search,
}

-- A line of the table: the columns before the fill level, the level in per cent, the mount point
-- and the index of the OST.
pub record Usage : Type 0 where
  pub front : Text
  pub level : ℕ
  pub mount : Text
  pub index : ℕ

unfoldable pub print_mount : Usage → Text
print_mount u = u.mount ++ (codes "[OST:" ++ (str_of u.index ++ codes "]"))

unfoldable pub print_usage : Usage → Text
print_usage u = u.front ++ (str_of u.level ++ (codes "%" ++ print_mount u))

-- The last character, if there is one, is no digit.
unfoldable pub ends_plain : Text → Bool
ends_plain [] = true
ends_plain (c ∷ []) = not (is_digit c)
ends_plain (c ∷ d ∷ s) = ends_plain (d ∷ s)

abbrev pub IsUsage : Usage → Type 0
IsUsage u =
    (starts_solid u.front ≡ true)
    × (ends_plain u.front ≡ true)
    × (contains b'%' u.front ≡ false)
    × (contains b'\n' u.front ≡ false)
    × (u.level < 1000)
    × (contains b'\n' u.mount ≡ false)
    × (u.index < 10000)

abbrev pub AllUsages : List Usage → Type 0
AllUsages [] = Unit {0}
AllUsages (u ∷ us) = IsUsage u × AllUsages us

-- Numbers below the bound have at most `k` digits.
abbrev Short : ℕ → ℕ → Type 0
Short bound k = (fuel n : ℕ) → n < bound → length (digits_of fuel n) ≤ k

Short-one : Short 10 1
unfolding digits_of
Short-one zero n h = omega arith
Short-one (suc fuel) n h = ground arith

Short-more : (bound k : ℕ) → Short bound k → Short (bound * 10) (suc k)
unfolding digits_of
Short-more bound k s zero n h = omega arith
Short-more bound k s (suc fuel) n h = elim (Bool-cases (ltb n 10)) [
  | inl e ↦ rw e (omega arith)
  | inr e ↦ rw e (
      omega (
        arith,
        length-append (digits_of fuel (n / 10)) ((48 + n % 10) ∷ []),
        s fuel (n / 10) (omega arith),
      ))
]

short_level : (n : ℕ) → n < 1000 → length (str_of n) ≤ 3
unfolding str_of
short_level n h = Short-more 100 2 (Short-more 10 1 Short-one) (suc n) n h

short_index : (n : ℕ) → n < 10000 → length (str_of n) ≤ 4
unfolding str_of
short_index n h = Short-more 1000 3 (Short-more 100 2 (Short-more 10 1 Short-one)) (suc n) n h

few_digits-str_of : (most n : ℕ) → length (str_of n) ≤ most → few_digits most (str_of n) ≡ true
unfolding few_digits
few_digits-str_of most n h = rw (str_of-ne-nil n) (ground arith)

span-str_of : (n : ℕ) (t : Text) → Stops is_digit t → span is_digit (str_of n ++ t) ≡ (str_of n, t)
span-str_of n t h =
    span-append is_digit (str_of n) t (IsDigits-AllIn (str_of n) (str_of-IsDigits n)) h

ost_here_printed :
    (i : ℕ) → i < 10000 → ost_here (codes "[OST:" ++ (str_of i ++ codes "]")) ≡ some (str_of i)
unfolding ost_here
ost_here_printed i h = rw (after-append (codes "[OST:") (str_of i ++ codes "]")) (
    ap match_index (span-str_of i (codes "]") (unfold is_digit in refl))
    ∙ (unfold match_index in
        rw (few_digits-str_of 4 i (short_index i h), after-append (codes "]") []) refl))

last_ost-cons : (c : ℕ) (s d : Text) → last_ost s ≡ some d → last_ost (c ∷ s) ≡ some d
unfolding last_ost
last_ost-cons c s d h = ap (λ m. or_else m (ost_here (c ∷ s))) h

-- Whatever stands in front, the last place counts.
last_ost-append : (m s d : Text) → last_ost s ≡ some d → last_ost (m ++ s) ≡ some d
last_ost-append [] s d h = h
last_ost-append (c ∷ m) s d h = last_ost-cons c (m ++ s) d (last_ost-append m s d h)

ost_here_lacks : (c : ℕ) (s : Text) → (c == b'[') ≡ false → ost_here (c ∷ s) ≡ none
unfolding ost_here after
ost_here_lacks c s h = ground arith

last_ost-step : (c : ℕ) (s : Text) → last_ost s ≡ none → last_ost (c ∷ s) ≡ ost_here (c ∷ s)
unfolding last_ost
last_ost-step c s h = ap (λ m. or_else m (ost_here (c ∷ s))) h

last_ost_lacks : (s : Text) → contains b'[' s ≡ false → last_ost s ≡ none
unfolding contains
last_ost_lacks [] h = unfold last_ost in refl
last_ost_lacks (c ∷ s) h = elim (Bool-cases (c == b'[')) [
  | inl e ↦ absurd (ground arith)
  | inr e ↦ last_ost-step c s (last_ost_lacks s (ground arith)) ∙ ost_here_lacks c s e
]

index_lacks : (i : ℕ) → contains b'[' (codes "OST:" ++ (str_of i ++ codes "]")) ≡ false
index_lacks i = contains-append b'[' (codes "OST:") _ (unfold contains in refl) (
    contains-append b'[' (str_of i) (codes "]")
      (IsDigits-lacks b'[' (str_of i) (str_of-IsDigits i) (inr (omega arith)))
      (unfold contains in refl))

last_ost-print_mount : (u : Usage) → IsUsage u → last_ost (print_mount u) ≡ some (str_of u.index)
unfolding print_mount
last_ost-print_mount u h =
    last_ost-append u.mount _ (str_of u.index)
      (last_ost-step b'[' _ (last_ost_lacks _ (index_lacks u.index)) ∙ ost_here_printed u.index h.6)

match_percent_printed :
    (u : Usage)
    → IsUsage u
    → match_percent (span is_digit (str_of u.level ++ (codes "%" ++ print_mount u)))
      ≡ some (str_of u.level, str_of u.index)
match_percent_printed u h =
    ap match_percent (span-str_of u.level (codes "%" ++ print_mount u) (unfold is_digit in refl))
    ∙ (unfold match_percent in
        rw
          (
            few_digits-str_of 3 u.level (short_level u.level h.4),
            after-append (codes "%") (print_mount u),
            last_ost-print_mount u h,
          )
          refl)

span_in : (c : ℕ) (s : Text) → is_digit c ≡ true → (span is_digit (c ∷ s)).1 ≡ (span is_digit s).1
unfolding span
span_in c s h = rw h refl

span_out : (c : ℕ) (s : Text) → is_digit c ≡ false → (span is_digit (c ∷ s)).1 ≡ c ∷ s
unfolding span
span_out c s h = rw h refl

other_than_percent : (c : ℕ) (s : Text) → (c == b'%') ≡ false → after (codes "%") (c ∷ s) ≡ none
unfolding after
other_than_percent c s h = ground arith

not_digit : (c : ℕ) → ends_plain (c ∷ []) ≡ true → is_digit c ≡ false
unfolding ends_plain
not_digit c h = ground arith

no_percent_out :
    (c : ℕ) (s t : Text)
    → is_digit c ≡ false
    → contains b'%' (c ∷ s) ≡ false
    → after (codes "%") (span is_digit (c ∷ t)).1 ≡ none
unfolding contains
no_percent_out c s t h k =
    ap (after (codes "%")) (span_out c t h) ∙ other_than_percent c t (ground arith)

contains-tail : (x c : ℕ) (s : Text) → contains x (c ∷ s) ≡ false → contains x s ≡ false
unfolding contains
contains-tail x c s h = ground arith

ends_plain-tail : (c : ℕ) (s : Text) → ends_plain (c ∷ s) ≡ true → ends_plain s ≡ true
unfolding ends_plain
ends_plain-tail c [] h = refl
ends_plain-tail c (d ∷ s) h = h

-- A run of digits in a text without a per cent sign, which it does not end, matches nothing.
no_percent :
    (c : ℕ) (f t : Text)
    → ends_plain (c ∷ f) ≡ true
    → contains b'%' (c ∷ f) ≡ false
    → after (codes "%") (span is_digit (c ∷ (f ++ t))).1 ≡ none
no_percent c [] t h k = no_percent_out c [] t (not_digit c h) k
no_percent c (d ∷ f) t h k = elim (Bool-cases (is_digit c)) [
  | inl e ↦
      ap (after (codes "%")) (span_in c (d ∷ (f ++ t)) e)
      ∙ no_percent d f t (ends_plain-tail c (d ∷ f) h) (contains-tail b'%' c (d ∷ f) k)
  | inr e ↦ no_percent_out c (d ∷ f) (d ∷ (f ++ t)) e k
]

match_percent-none : (r : Text × Text) → after (codes "%") r.1 ≡ none → match_percent r ≡ none
unfolding match_percent
match_percent-none (digits, s) h = elim (Bool-cases (few_digits 3 digits)) [
  | inl e ↦ rw (e, h) refl
  | inr e ↦ rw e refl
]

search-step :
    (c : ℕ) (s : Text) → match_percent (span is_digit (c ∷ s)) ≡ none → search (c ∷ s) ≡ search s
unfolding search
search-step c s h = ap (λ m. or_else m (search s)) h

search-append :
    (f t : Text) → ends_plain f ≡ true → contains b'%' f ≡ false → search (f ++ t) ≡ search t
search-append [] t h k = refl
search-append (c ∷ f) t h k =
    search-step c (f ++ t) (match_percent-none _ (no_percent c f t h k))
    ∙ search-append f t (ends_plain-tail c f h) (contains-tail b'%' c f k)

search_here :
    (s : Text) (r : Text × Text)
    → is_nil s ≡ false
    → match_percent (span is_digit s) ≡ some r
    → search s ≡ some r
unfolding search
search_here [] r n h = cc
search_here (c ∷ s) r n h = ap (λ m. or_else m (search s)) h

is_nil-append : (s t : Text) → is_nil s ≡ false → is_nil (s ++ t) ≡ false
is_nil-append [] t h = cc
is_nil-append (c ∷ s) t h = refl

-- In a printed line the search finds the level and the index.
pub search-print_usage :
    (u : Usage) → IsUsage u → search (print_usage u) ≡ some (str_of u.level, str_of u.index)
unfolding print_usage
search-print_usage u h =
    search-append u.front _ h.1 h.2
    ∙ search_here (str_of u.level ++ (codes "%" ++ print_mount u)) _
        (is_nil-append (str_of u.level) _ (str_of-ne-nil u.level)) (match_percent_printed u h)
