-- ===== src/Base/Exec/Keeps.antt =====
-- What holds of the state before some code and after it, whether the code returns or raises.
use lustre_ost_performance_t.Base.Errors.{Result, ok, err}
use lustre_ost_performance_t.Base.Exec.{Exec, resume, ◌>>=◌}

abbrev pub Keeps : {S A : Type 0} → (S → Type 0) → Exec S A → Type 0
Keeps {S} P m = (s : S) → P s → P (m s).1

module _ {S A B : Type 0} (P : S → Type 0) where
  resume-Keeps :
      (r : Result A) (next : A → Exec S B) (after : (a : A) → Keeps P (next a))
      → Keeps P (resume r next)
  resume-Keeps (err raised) next after s h = h
  resume-Keeps (ok value) next after s h = after value s h

  pub bind-Keeps :
      (m : Exec S A) (next : A → Exec S B) (first : Keeps P m) (after : (a : A) → Keeps P (next a))
      → Keeps P (m >>= next)
  bind-Keeps m next first after s h = let (r, s') = m s in resume-Keeps r next after s' (first s h)
