-- ===== src/Text/Match.antt =====
-- What the program's regular expressions and `str.strip` need of a text: a literal, a run of
-- characters of a class, and edges that are no spaces.
use lustre_ost_performance_t.Base.{
  ==_iff, ==_refl, Bool, Bool-cases, Option, [], ap, arith, false, if◌then◌else◌, inl, inr, none,
  not, refl, some, subst, true, ℕ, ◌++◌, ◌==◌, ◌∙◌, ◌∷◌, ◌≡◌,
}
use lustre_ost_performance_t.Text.{Text, contains}
use lustre_ost_performance_t.Text.Number.{is_space, is_digit, lstrip, rstrip, strip, IsDigits}

-- A match that fails goes no further.
infixl 5 ◌>>=◌
abbrev pub ◌>>=◌ : {A B : Type 0} → Option A → (A → Option B) → Option B
none >>= next = none
some a >>= next = next a

abbrev pub guard : Bool → Option (Unit {0})
guard true = some tt
guard false = none

-- Another way to match where the first fails.
abbrev pub or_else : {A : Type 0} → Option A → Option A → Option A
or_else (some a) other = some a
or_else none other = other

-- the text behind a literal
unfoldable pub after : Text → Text → Option Text
after [] s = some s
after (a ∷ p) [] = none
after (a ∷ p) (c ∷ s) = if a == c then after p s else none

-- the longest run of characters of a class, and what stands behind it
unfoldable pub span : (ℕ → Bool) → Text → Text × Text
span p [] = ([], [])
span p (c ∷ s) = let rest = span p s in if p c then (c ∷ rest.0, rest.1) else ([], c ∷ s)

abbrev pub AllIn : (ℕ → Bool) → Text → Type 0
AllIn p [] = Unit {0}
AllIn p (c ∷ s) = (p c ≡ true) × AllIn p s

-- The first character is not of the class.
abbrev pub Stops : (ℕ → Bool) → Text → Type 0
Stops p [] = Unit {0}
Stops p (c ∷ s) = p c ≡ false

pub after-append : (p s : Text) → after p (p ++ s) ≡ some s
unfolding after
after-append [] s = refl
after-append (a ∷ p) s = rw (==_refl a) (after-append p s)

pub span-append : (p : ℕ → Bool) (s t : Text) → AllIn p s → Stops p t → span p (s ++ t) ≡ (s, t)
unfolding span
span-append p [] [] h k = refl
span-append p [] (c ∷ t) h k = rw k
span-append p (c ∷ s) t h k = rw (h.0, span-append p s t h.1 k)

pub IsDigits-AllIn : (s : Text) → IsDigits s → AllIn is_digit s
unfolding is_digit
IsDigits-AllIn [] h = tt
IsDigits-AllIn (c ∷ s) h = (ground (arith, h.0, h.1), IsDigits-AllIn s h.2)

-- The first and the last character are there and are no spaces.
unfoldable pub starts_solid : Text → Bool
starts_solid [] = false
starts_solid (c ∷ s) = not (is_space c)

unfoldable pub ends_solid : Text → Bool
ends_solid [] = false
ends_solid (c ∷ []) = not (is_space c)
ends_solid (c ∷ d ∷ s) = ends_solid (d ∷ s)

pub starts_solid-append : (s t : Text) → starts_solid s ≡ true → starts_solid (s ++ t) ≡ true
unfolding starts_solid
starts_solid-append [] t h = cc
starts_solid-append (c ∷ s) t h = h

pub ends_solid-append : (s t : Text) → ends_solid t ≡ true → ends_solid (s ++ t) ≡ true
unfolding ends_solid
ends_solid-append [] t h = h
ends_solid-append (c ∷ []) [] h = cc
ends_solid-append (c ∷ []) (d ∷ t) h = h
ends_solid-append (c ∷ d ∷ s) t h = ends_solid-append (d ∷ s) t h

lstrip_solid : (s : Text) → starts_solid s ≡ true → lstrip s ≡ s
unfolding lstrip starts_solid
lstrip_solid [] h = refl
lstrip_solid (c ∷ s) h = ground arith

rstrip_solid : (s : Text) → ends_solid s ≡ true → rstrip s ≡ s
unfolding rstrip ends_solid
rstrip_solid [] h = refl
rstrip_solid (c ∷ []) h = ground arith
rstrip_solid (c ∷ d ∷ s) h = ground (arith, rstrip_solid (d ∷ s) h)

pub strip_solid : (s : Text) → starts_solid s ≡ true → ends_solid s ≡ true → strip s ≡ s
unfolding strip
strip_solid s h k = ap rstrip (lstrip_solid s h) ∙ rstrip_solid s k

rstrip-snoc : (s : Text) (c : ℕ) → is_space c ≡ true → rstrip (s ++ c ∷ []) ≡ rstrip s
unfolding rstrip
rstrip-snoc [] c h = ground arith
rstrip-snoc (x ∷ s) c h = rw (rstrip-snoc s c h)

-- A line end behind the text is no part of it.
pub strip-newline :
    (s : Text) → starts_solid s ≡ true → ends_solid s ≡ true → strip (s ++ b'\n' ∷ []) ≡ s
unfolding strip
strip-newline s h k =
    ap rstrip (lstrip_solid (s ++ b'\n' ∷ []) (starts_solid-append s (b'\n' ∷ []) h))
    ∙ rstrip-snoc s b'\n' (unfold is_space in refl)
    ∙ rstrip_solid s k

pub contains-append :
    (c : ℕ) (s t : Text) → contains c s ≡ false → contains c t ≡ false → contains c (s ++ t) ≡ false
unfolding contains
contains-append c [] t h k = k
contains-append c (x ∷ s) t h k = ground (arith, contains-append c s t)

pub AllIn-lacks : (c : ℕ) (p : ℕ → Bool) (s : Text) → p c ≡ false → AllIn p s → contains c s ≡ false
unfolding contains
AllIn-lacks c p [] h k = refl
AllIn-lacks c p (x ∷ s) h k = elim (Bool-cases (x == c)) [
  | inl e ↦ absurd (cc (subst (λ y. p y ≡ true) ((==_iff x c).0 e) k.0, h))
  | inr e ↦ rw e (AllIn-lacks c p s h k.1)
]
