-- ===== src/Migration/States.antt =====
-- How the state of one OST moves, and how many migrations a state stands for.
use lustre_ost_performance_t.Base.{
  Bool, List, Option, Option-cases, Result, [], arith, false, if◌then◌else◌, inl, inr, none, ok,
  refl, some, subst, suc, true, ℕ, ◌++◌, ◌+◌, ◌∷◌, ◌≡◌, ◌≤◌,
}
use lustre_ost_performance_t.Text.{Text, text_eq, text_eq_iff, text_eq_refl}
use lustre_ost_performance_t.Dict.{Dict, get, put, remove}
use lustre_ost_performance_t.Dict.Laws.{get-put, get-remove}
use lustre_ost_performance_t.Migration.{
  OstState, ready, locked, blocked, pending_lock, refill, release, update_finished,
}

-- How many migrations an OST in this state is in.
abbrev pub load_of : OstState → ℕ
load_of blocked = 1
load_of pending_lock = 1
load_of _ = 0

abbrev pub load : Option OstState → ℕ
load none = 0
load (some state) = load_of state

-- Whether the OST is given out now, or is when its migration ends.
abbrev pub opens : OstState → Bool
opens ready = true
opens blocked = true
opens _ = false

-- A fill level that is read neither starts nor ends a migration: an OST is in as many after the
-- update as before, whatever the level, and an OST without a state is in none.
pub refill_keeps_load :
    (suited : Bool) (o : Option OstState) → load (some (refill suited o)) ≡ load o
unfolding refill
refill_keeps_load true none = refl
refill_keeps_load true (some ready) = refl
refill_keeps_load true (some locked) = refl
refill_keeps_load true (some blocked) = refl
refill_keeps_load true (some pending_lock) = refl
refill_keeps_load false none = refl
refill_keeps_load false (some ready) = refl
refill_keeps_load false (some locked) = refl
refill_keeps_load false (some blocked) = refl
refill_keeps_load false (some pending_lock) = refl

-- After an update with a fill level on the wrong side of the threshold the OST is not given out, not
-- even when its migration ends.
pub unsuited_closes : (o : Option OstState) → opens (refill false o) ≡ false
unfolding refill
unsuited_closes none = refl
unsuited_closes (some ready) = refl
unsuited_closes (some locked) = refl
unsuited_closes (some blocked) = refl
unsuited_closes (some pending_lock) = refl

-- `count(osts, ost)`
unfoldable pub count : List Text → Text → ℕ
count [] k = 0
count (j ∷ js) k = let n = count js k in if text_eq j k then suc n else n

pub count-append : (js is : List Text) (k : Text) → count (js ++ is) k ≡ count js k + count is k
unfolding count
count-append [] is k = omega arith
count-append (j ∷ js) is k = ground (arith, count-append js is k)

-- Every OST is in as many migrations as it stands in the list, by its state.
abbrev pub Tracks : Dict OstState → List Text → Type 0
Tracks d osts = (k : Text) → load (get d k) ≡ count osts k

pub Tracks-put_same :
    (d : Dict OstState) (osts : List Text) (ost : Text) (state : OstState)
    → load (some state) ≡ load (get d ost)
    → Tracks d osts
    → Tracks (put d ost state) osts
Tracks-put_same d osts ost state e h k =
    rw (get-put d ost k state) (ground (arith, text_eq_iff ost k, h k))

pub Tracks-put_more :
    (d : Dict OstState) (osts : List Text) (ost : Text)
    → get d ost ≡ some ready
    → Tracks d osts
    → Tracks (put d ost blocked) (osts ++ ost ∷ [])
unfolding count
Tracks-put_more d osts ost e h k =
    rw (get-put d ost k blocked, count-append osts (ost ∷ []) k)
      (ground (arith, text_eq_iff ost k, h k))

-- One fewer where the state is that of an OST that is in a migration.
pub Tracks-put_less :
    (d : Dict OstState) (osts : List Text) (ost : Text) (state state' : OstState)
    → get d ost ≡ some state
    → release state ≡ some state'
    → Tracks d (ost ∷ osts)
    → Tracks (put d ost state') osts
unfolding count release
Tracks-put_less d osts ost state state' e e' h k =
    rw (get-put d ost k state') (ground (arith, text_eq_iff ost k, h k))

pub Tracks-remove :
    (d : Dict OstState) (osts : List Text) (ost : Text)
    → load (get d ost) ≡ 0
    → Tracks d osts
    → Tracks (remove d ost) osts
Tracks-remove d osts ost e h k = rw (get-remove d ost k) (ground (arith, text_eq_iff ost k, h k))

module _ (d : Dict OstState) (osts : List Text) (ost : Text) (h : Tracks d (ost ∷ osts)) where
  Releases : Result (Unit {0}) × Dict OstState → Type 0
  Releases (r, d') = (r ≡ ok tt) × Tracks d' osts

  busy : 1 ≤ load (get d ost)
  unfolding count
  busy = ground (arith, h ost, text_eq_refl ost)

  Releases-state :
      (state : OstState)
      → get d ost ≡ some state
      → 1 ≤ load_of state
      → Releases (update_finished ost d)
  unfolding Releases update_finished release
  Releases-state blocked e b =
      rw (e, update_finished)
        (refl, Tracks-put_less d osts ost blocked ready e (unfold release in refl) h)
  Releases-state pending_lock e b =
      rw (e, update_finished)
        (refl, Tracks-put_less d osts ost pending_lock locked e (unfold release in refl) h)
  Releases-state ready e b = absurd (omega (arith, b))
  Releases-state locked e b = absurd (omega (arith, b))

  -- An OST that is in a migration is released.
  pub update_finished-Tracks :
      ((update_finished ost d).0 ≡ ok tt) × Tracks (update_finished ost d).1 osts
  unfolding Releases
  update_finished-Tracks = elim (Option-cases (get d ost)) [
    | inl e ↦ absurd (omega (arith, subst (λ o. 1 ≤ load o) e busy))
    | inr (state, e) ↦ Releases-state state e (subst (λ o. 1 ≤ load o) e busy)
  ]
