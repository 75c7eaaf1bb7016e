-- ===== src/Dict/Laws.antt =====
-- What a lookup finds after an update of the same or of another key.
use lustre_ost_performance_t.Base.{
  List, [], ap, arith, false, if◌then◌else◌, length, none, refl, some, suc, true, ◌++◌, ◌<◌, ◌∷◌,
  ◌≡◌, ◌≤◌,
}
use lustre_ost_performance_t.Text.{Text, text_eq, text_eq_iff, text_eq_refl}
use lustre_ost_performance_t.Dict.{Dict, get, has, put, remove, keys}

module _ {ℓ} {V : Type ℓ} where
  pub get-put :
      (d : Dict V) (k j : Text) (v : V)
      → get (put d k v) j ≡ (if text_eq k j then some v else get d j)
  unfolding get put
  get-put [] k j v = refl
  get-put ((i, w) ∷ d) k j v =
      ground (arith, text_eq_iff k j, text_eq_iff i k, text_eq_iff i j, get-put d k j v)

  pub get-remove :
      (d : Dict V) (k j : Text) → get (remove d k) j ≡ (if text_eq k j then none else get d j)
  unfolding get remove
  get-remove [] k j = ground arith
  get-remove ((i, w) ∷ d) k j =
      ground (arith, text_eq_iff k j, text_eq_iff i k, text_eq_iff i j, get-remove d k j)

  pub has-get : (d : Dict V) (k : Text) → has d k ≡ elim (get d k) [ none ↦ false | some v ↦ true ]
  unfolding get has
  has-get [] k = refl
  has-get ((i, w) ∷ d) k = ground (arith, has-get d k)

  pub has-put :
      (d : Dict V) (k j : Text) (v : V)
      → has (put d k v) j ≡ (if text_eq k j then true else has d j)
  unfolding has put
  has-put [] k j v = refl
  has-put ((i, w) ∷ d) k j v =
      ground (arith, text_eq_iff k j, text_eq_iff i k, text_eq_iff i j, has-put d k j v)

  pub has-remove :
      (d : Dict V) (k j : Text) → has (remove d k) j ≡ (if text_eq k j then false else has d j)
  unfolding has remove
  has-remove [] k j = ground arith
  has-remove ((i, w) ∷ d) k j =
      ground (arith, text_eq_iff k j, text_eq_iff i k, text_eq_iff i j, has-remove d k j)

  -- An update of a key that is there leaves the keys and their order alone.
  pub keys-put_old : (d : Dict V) (k : Text) (v : V) → has d k ≡ true → keys (put d k v) ≡ keys d
  unfolding has put
  keys-put_old [] k v h = cc
  keys-put_old ((i, w) ∷ d) k v h = ground (arith, keys-put_old d k v)

  -- A new key stands behind the others.
  pub keys-put_new :
      (d : Dict V) (k : Text) (v : V) → has d k ≡ false → keys (put d k v) ≡ keys d ++ k ∷ []
  unfolding has put
  keys-put_new [] k v h = refl
  keys-put_new ((i, w) ∷ d) k v h = ground (arith, keys-put_new d k v)

  pub length-keys : (d : Dict V) → length (keys d) ≡ length d
  length-keys [] = refl
  length-keys ((i, w) ∷ d) = ap suc (length-keys d)

  pub remove_absent : (d : Dict V) (k : Text) → has d k ≡ false → remove d k ≡ d
  unfolding has remove
  remove_absent [] k h = refl
  remove_absent ((i, w) ∷ d) k h = ground (arith, remove_absent d k)

module _ {ℓ} {V : Type ℓ} where
  pub length-remove-le : (d : Dict V) (k : Text) → length (remove d k) ≤ length d
  unfolding remove
  length-remove-le [] k = omega arith
  length-remove-le ((i, w) ∷ d) k = ground (arith, length-remove-le d k)

  pub length-remove-lt : (d : Dict V) (k : Text) → has d k ≡ true → length (remove d k) < length d
  unfolding has remove
  length-remove-lt [] k h = cc
  length-remove-lt ((i, w) ∷ d) k h = ground (arith, length-remove-le d k, length-remove-lt d k)

  pub remove-put : (d : Dict V) (k : Text) (v : V) → remove (put d k v) k ≡ remove d k
  unfolding put remove
  remove-put [] k v = ground (arith, text_eq_refl k)
  remove-put ((i, w) ∷ d) k v = ground (arith, remove-put d k v)

  -- Every key of the list is there.
  abbrev pub AllHave : Dict V → List Text → Type 0
  AllHave d [] = Unit {0}
  AllHave d (k ∷ ks) = (has d k ≡ true) × AllHave d ks

  AllHave-cons :
      (d : Dict V) (i : Text) (w : V) (ks : List Text) → AllHave d ks → AllHave ((i, w) ∷ d) ks
  unfolding has
  AllHave-cons d i w [] h = tt
  AllHave-cons d i w (k ∷ ks) h = (ground (arith, h.0), AllHave-cons d i w ks h.1)

  pub keys-AllHave : (d : Dict V) → AllHave d (keys d)
  keys-AllHave [] = tt
  keys-AllHave ((i, w) ∷ d) =
      (unfold has in ground (arith, text_eq_refl i), AllHave-cons d i w (keys d) (keys-AllHave d))

pub ruleset dict_laws = (get-put, get-remove, has-put, has-remove)
