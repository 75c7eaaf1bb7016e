-- ===== src/Base/Exec.antt =====
-- Code that changes an object and may raise. What was written before a raise stays written.
pub mod Keeps
use lustre_ost_performance_t.Base.Errors.{Error, Result, ok, err}

abbrev pub Exec : Type 0 → Type 0 → Type 0
Exec S A = S → Result A × S

module _ {S A : Type 0} where
  abbrev pub pure : A → Exec S A
  pure a s = (ok a, s)

  abbrev pub raise : Error → Exec S A
  raise e s = (err e, s)

  abbrev pub lift : Result A → Exec S A
  lift r s = (r, s)

abbrev pub modify : {S : Type 0} → (S → S) → Exec S (Unit {0})
modify f s = (ok tt, f s)

module _ {S A B : Type 0} where
  abbrev pub resume : Result A → (A → Exec S B) → Exec S B
  resume (err raised) next s = (err raised, s)
  resume (ok value) next s = next value s

  infixl 5 ◌>>=◌ ◌>>◌
  abbrev pub ◌>>=◌ : Exec S A → (A → Exec S B) → Exec S B
  ◌>>=◌ m next s = let (r, s') = m s in resume r next s'

  abbrev pub ◌>>◌ : Exec S A → Exec S B → Exec S B
  m >> next = m >>= λ value. next
