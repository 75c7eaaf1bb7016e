-- ===== src/Migration/Validation.antt =====
-- task/generator/lustre_ost_migration_task_generator.py: `validate_config`, and the fill levels of the
-- local mode.
use lustre_ost_performance_t.Base.{
  ==_iff, >>=-eq-ok, Bool, Bool-cases, List, Option, Result, [], ap, arith, config_value_error, err,
  false, if_false, if_true, if◌then◌else◌, index_error, inl, inr, leb, ltb, not, ok,
  out_of_range_error, raise_if, some, subst, suc, sym, true, zero, ℕ, ◌&&◌, ◌+◌, ◌<◌, ◌==◌, ◌>>=◌,
  ◌>>◌, ◌∙◌, ◌∷◌, ◌≡◌, ◌≤◌,
}
use lustre_ost_performance_t.Text.{Text, text_eq, text_eq_iff}
use lustre_ost_performance_t.Text.Number.{ℤ, pos, negsuc, int_of, str_of}
use lustre_ost_performance_t.Dict.{Dict, put, get}
use lustre_ost_performance_t.Migration.{source, target, Config, is_suited}
use lustre_ost_performance_t.Dict.Laws.{get-put}
use lustre_ost_performance_t.Text.RoundTrip.{str_of-injective}

-- What `validate_config` looks at; the directories are there or are not.
pub record Settings : Type 0 where
  pub local_mode : Bool
  pub num_osts : ℤ
  pub lfs_path_is_dir : Bool
  pub threshold_update_fill_level : ℤ
  pub threshold_reload_files : ℤ
  pub threshold_print_caches : ℤ
  pub input_dir_is_dir : Bool
  pub threshold_source : ℤ
  pub threshold_target : ℤ
  pub ost_target_list : List Text

-- `low <= n <= high`
unfoldable pub is_between : ℕ → ℕ → ℤ → Bool
is_between low high (pos n) = leb low n && leb n high
is_between low high (negsuc n) = false

unfoldable pub check_between : ℕ → ℕ → ℤ → Result (Unit {0})
check_between low high n = raise_if (not (is_between low high n)) out_of_range_error

unfoldable pub check_place : Settings → Result (Unit {0})
check_place s =
    if s.local_mode
    then check_between 1 1000 s.num_osts
    else raise_if (not s.lfs_path_is_dir) config_value_error

-- `list[-1]` of a list that is not empty
unfoldable pub last_of : Text → List Text → Text
last_of x [] = x
last_of x (y ∷ ys) = last_of y ys

-- The first and the last target; an empty list has none.
unfoldable pub check_targets : List Text → Result (Unit {0})
check_targets [] = err index_error
check_targets (x ∷ []) = do first ← int_of x; check_between 0 1000 first
check_targets (x ∷ y ∷ ys) = do
  first ← int_of x
  check_between 0 1000 first
  last ← int_of (last_of y ys)
  check_between 0 1000 last

unfoldable pub check_thresholds : Settings → Result (Unit {0})
check_thresholds s = do check_between 0 90 s.threshold_source; check_between 0 90 s.threshold_target

unfoldable pub check_seconds : Settings → Result (Unit {0})
check_seconds s = do
  check_between 1 3600 s.threshold_update_fill_level
  check_between 1 3600 s.threshold_reload_files
  check_between 1 3600 s.threshold_print_caches
  raise_if (not s.input_dir_is_dir) config_value_error

unfoldable pub validate_settings : Settings → Result (Unit {0})
validate_settings s = do
  check_place s
  check_seconds s
  check_thresholds s
  check_targets s.ost_target_list

-- `for i in range(num_osts)`, with what `random.randint(40, 60)` gives for each OST
unfoldable pub local_levels : (ℕ → ℕ) → ℕ → ℕ → Dict ℕ → Dict ℕ
local_levels randint zero i levels = levels
local_levels randint (suc n) i levels =
    local_levels randint n (suc i) (put levels (str_of i) (randint i))

-- `_update_ost_fill_level_dict`, with what `retrieve_ost_fill_level` gives
unfoldable pub update_ost_fill_level_dict : Bool → ℕ → (ℕ → ℕ) → Result (Dict ℕ) → Result (Dict ℕ)
update_ost_fill_level_dict local_mode num_osts randint retrieved =
    if local_mode then ok (local_levels randint num_osts 0 []) else retrieved

-- The thresholds of the configuration are those of the settings.
abbrev pub Configures : Settings → Config → Type 0
Configures s cfg =
    (s.threshold_source ≡ pos cfg.ost_fill_level_threshold_source)
    × (s.threshold_target ≡ pos cfg.ost_fill_level_threshold_target)

between_le : (low high n : ℕ) (z : ℤ) → z ≡ pos n → check_between low high z ≡ ok tt → n ≤ high
between_le low high n z e h =
    subst (λ z. check_between low high z ≡ ok tt → n ≤ high) (sym e)
      (λ k. unfold check_between is_between in ground arith) h

thresholds_low :
    (s : Settings) (cfg : Config)
    → check_thresholds s ≡ ok tt
    → Configures s cfg
    → (cfg.ost_fill_level_threshold_source ≤ 90) × (cfg.ost_fill_level_threshold_target ≤ 90)
unfolding check_thresholds
thresholds_low s cfg h (e, e') =
    let (u, k, h') = >>=-eq-ok (check_between 0 90 s.threshold_source) _ h in
    (
      between_le 0 90 cfg.ost_fill_level_threshold_source s.threshold_source e k,
      between_le 0 90 cfg.ost_fill_level_threshold_target s.threshold_target e' h',
    )

suited_by :
    (cfg : Config) (fill_level : ℕ)
    → cfg.ost_fill_level_threshold_source ≤ 90
    → cfg.ost_fill_level_threshold_target ≤ 90
    → 90 < fill_level
    → (is_suited cfg source fill_level ≡ true) × (is_suited cfg target fill_level ≡ false)
unfolding is_suited
suited_by cfg fill_level h k l = (ground arith, ground arith)

-- Under a configuration that was validated, an OST that is filled to more than 90 per cent is suited
-- as a source of migrations and is not suited as a target, whatever its thresholds are.
pub validate_settings-suited :
    (s : Settings) (cfg : Config) (fill_level : ℕ)
    → validate_settings s ≡ ok tt
    → Configures s cfg
    → 90 < fill_level
    → (is_suited cfg source fill_level ≡ true) × (is_suited cfg target fill_level ≡ false)
unfolding validate_settings
validate_settings-suited s cfg fill_level h c l =
    let (u, k, h') = >>=-eq-ok (check_place s) _ h in
    let (u', k', h'') = >>=-eq-ok (check_seconds s) _ h' in
    let (u'', k'', h''') = >>=-eq-ok (check_thresholds s) _ h'' in
    let (low, low') = thresholds_low s cfg k'' c in suited_by cfg fill_level low low' l

other_text : (i k : ℕ) → (i == k) ≡ false → text_eq (str_of i) (str_of k) ≡ false
other_text i k e = elim (Bool-cases (text_eq (str_of i) (str_of k))) [
  | inr e' ↦ e'
  | inl e' ↦
      absurd (ground (arith, str_of-injective i k ((text_eq_iff (str_of i) (str_of k)).0 e')))
]

level_put :
    (d : Dict ℕ) (i k v : ℕ)
    → get (put d (str_of i) v) (str_of k) ≡ (if i == k then some v else get d (str_of k))
level_put d i k v = elim (Bool-cases (i == k)) [
  | inl e ↦
      get-put d (str_of i) (str_of k) v
      ∙ if_true (text_eq (str_of i) (str_of k)) _ _
          ((text_eq_iff (str_of i) (str_of k)).1 (ap str_of ((==_iff i k).0 e)))
      ∙ sym (if_true (i == k) _ _ e)
  | inr e ↦
      get-put d (str_of i) (str_of k) v
      ∙ if_false (text_eq (str_of i) (str_of k)) _ _ (other_text i k e)
      ∙ sym (if_false (i == k) _ _ e)
]

one_more :
    (i k n : ℕ) (x z y : Option ℕ)
    → (i ≡ k → z ≡ x)
    → (if leb (suc i) k && ltb k (suc i + n) then x else (if i == k then z else y))
      ≡ (if leb i k && ltb k (i + suc n) then x else y)
one_more i k n x z y h = ground arith

-- In local mode the OSTs from `i` on, as many as there are, have the levels that were drawn for them.
get-local_levels :
    (randint : ℕ → ℕ) (n i k : ℕ) (d : Dict ℕ)
    → get (local_levels randint n i d) (str_of k)
      ≡ (if leb i k && ltb k (i + n) then some (randint k) else get d (str_of k))
unfolding local_levels
get-local_levels randint zero i k d = ground arith
get-local_levels randint (suc n) i k d =
    get-local_levels randint n (suc i) k (put d (str_of i) (randint i))
    ∙ ap (λ o. if leb (suc i) k && ltb k (suc i + n) then some (randint k) else o)
        (level_put d i k (randint i))
    ∙ one_more i k n (some (randint k)) (some (randint i)) (get d (str_of k))
        (λ e. ap (λ j. some (randint j)) e)
