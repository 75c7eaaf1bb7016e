-- ===== src/Dict.antt =====
-- Python's `dict` with text keys: an association list in the order of insertion.
pub mod Laws
use lustre_ost_performance_t.Base.{
  Bool, List, Option, [], false, if◌then◌else◌, none, some, true, ◌∷◌,
}
use lustre_ost_performance_t.Text.{Text, text_eq}

abbrev pub Dict {ℓ} : Type ℓ → Type ℓ
Dict V = List (Text × V)

module _ {ℓ} {V : Type ℓ} where
  unfoldable pub get : Dict V → Text → Option V
  get [] k = none
  get ((j, v) ∷ d) k = if text_eq j k then some v else get d k

  -- `k in d`
  unfoldable pub has : Dict V → Text → Bool
  has [] k = false
  has ((j, v) ∷ d) k = if text_eq j k then true else has d k

  -- `d[k] = v`: a key that is there keeps its place
  unfoldable pub put : Dict V → Text → V → Dict V
  put [] k v = (k, v) ∷ []
  put ((j, w) ∷ d) k v = if text_eq j k then (j, v) ∷ d else (j, w) ∷ put d k v

  -- `d.pop(k, None)`
  unfoldable pub remove : Dict V → Text → Dict V
  remove [] k = []
  remove ((j, w) ∷ d) k = let rest = remove d k in if text_eq j k then rest else (j, w) ∷ rest

  -- `list(d)`
  abbrev pub keys : Dict V → List Text
  keys [] = []
  keys ((j, w) ∷ d) = j ∷ keys d

  -- `list(d.values())`
  abbrev pub values : Dict V → List V
  values [] = []
  values ((j, w) ∷ d) = w ∷ values d
