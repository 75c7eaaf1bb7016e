-- ===== src/Proxy/Results.antt =====
-- cyclone-database-proxy.py: the results that the rounds of the loop receive.
use lustre_ost_performance_t.Base.{
  Bool-cases, List, [], ap, append-nil, append_assoc, false, if◌then◌else◌, inl, inr, is_nil, map,
  refl, sym, ◌++◌, ◌∙◌, ◌∷◌, ◌≡◌,
}
use lustre_ost_performance_t.Text.{Text, contains}
use lustre_ost_performance_t.Proxy.{Round}

unfoldable pub flatten : List (List Text) → List Text
flatten [] = []
flatten (b ∷ bs) = b ++ flatten bs

pub flatten-snoc :
    (bs : List (List Text)) (b : List Text) → flatten (bs ++ b ∷ []) ≡ flatten bs ++ b
unfolding flatten
flatten-snoc [] b = append-nil b
flatten-snoc (c ∷ bs) b = ap (λ l. c ++ l) (flatten-snoc bs b) ∙ sym (append_assoc c (flatten bs) b)

pub map-snoc :
    {A B : Type 0} (f : A → B) (xs : List A) (x : A) → map f (xs ++ x ∷ []) ≡ map f xs ++ f x ∷ []
map-snoc f [] x = refl
map-snoc f (y ∷ xs) x = ap (λ l. f y ∷ l) (map-snoc f xs x)

-- The data of the rounds, without the timeouts.
unfoldable pub received : List Round → List Text
received [] = []
received (r ∷ rs) =
    let rest = received rs in if is_nil r.recv_data then rest else r.recv_data ∷ rest

-- A result without an opening parenthesis, as the tasks make them: then the statement of a batch has
-- one row for each result.
abbrev pub IsPlain : Text → Type 0
IsPlain result = contains b'(' result ≡ false

abbrev pub AllPlain : List Text → Type 0
AllPlain [] = Unit {0}
AllPlain (result ∷ results) = IsPlain result × AllPlain results

pub plain_join : (xs ys : List Text) → AllPlain xs → AllPlain ys → AllPlain (xs ++ ys)
plain_join [] ys h k = k
plain_join (x ∷ xs) ys (p, h) k = (p, plain_join xs ys h k)

pub plain_behind : (xs ys : List Text) → AllPlain (xs ++ ys) → AllPlain ys
plain_behind [] ys h = h
plain_behind (x ∷ xs) ys (p, h) = plain_behind xs ys h

pub received_plain :
    (r : Round) (results : List Text)
    → IsPlain r.recv_data
    → AllPlain results
    → AllPlain (results ++ received (r ∷ []))
unfolding received
received_plain r results p plain = elim (Bool-cases (is_nil r.recv_data)) [
  | inl e ↦ rw e (plain_join results [] plain tt)
  | inr e ↦ rw e (plain_join results (r.recv_data ∷ []) plain (p, tt))
]

pub received-cons :
    (r : Round) (rs : List Round) → received (r ∷ rs) ≡ received (r ∷ []) ++ received rs
unfolding received
received-cons r rs = elim (Bool-cases (is_nil r.recv_data)) [
  | inl e ↦ rw e refl
  | inr e ↦ rw e refl
]
