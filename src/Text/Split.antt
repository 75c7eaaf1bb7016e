-- ===== src/Text/Split.antt =====
-- `split` and `join` undo one another where no part holds the separator.
use lustre_ost_performance_t.Base.{
  ==_refl, Bool-cases, List, [], ap, arith, false, inl, inr, is_nil, refl, ℕ, ◌++◌, ◌==◌, ◌∙◌, ◌∷◌,
  ◌≡◌,
}
use lustre_ost_performance_t.Text.{Text, contains, cons_head, split, join}

-- No part holds the separator.
abbrev pub AllLack : ℕ → List Text → Type 0
AllLack sep [] = Unit {0}
AllLack sep (p ∷ ps) = (contains sep p ≡ false) × AllLack sep ps

pub split_lacks : (sep : ℕ) (s : Text) → contains sep s ≡ false → split sep s ≡ s ∷ []
unfolding contains split
split_lacks sep [] h = refl
split_lacks sep (c ∷ s) h = ground (arith, split_lacks sep s)

pub split-append :
    (sep : ℕ) (p s : Text) → contains sep p ≡ false → split sep (p ++ sep ∷ s) ≡ p ∷ split sep s
unfolding contains split
split-append sep [] s h = rw (==_refl sep)
split-append sep (c ∷ p) s h = ground (arith, split-append sep p s)

pub split-join :
    (sep : ℕ) (p : Text) (ps : List Text)
    → AllLack sep (p ∷ ps)
    → split sep (join sep (p ∷ ps)) ≡ p ∷ ps
unfolding join
split-join sep p [] h = split_lacks sep p h.0
split-join sep p (q ∷ ps) h =
    rw (split-append sep p (join sep (q ∷ ps)) h.0) (ap (λ l. p ∷ l) (split-join sep q ps h.1))

pub split-ne-nil : (sep : ℕ) (s : Text) → is_nil (split sep s) ≡ false
unfolding split
split-ne-nil sep [] = refl
split-ne-nil sep (c ∷ s) = ground (arith, split-ne-nil sep s)

join-cons_head :
    (sep c : ℕ) (ps : List Text) → is_nil ps ≡ false → join sep (cons_head c ps) ≡ c ∷ join sep ps
unfolding join
join-cons_head sep c [] h = cc
join-cons_head sep c (p ∷ []) h = refl
join-cons_head sep c (p ∷ q ∷ ps) h = refl

join-cons_nil :
    (sep : ℕ) (ps : List Text) → is_nil ps ≡ false → join sep ([] ∷ ps) ≡ sep ∷ join sep ps
unfolding join
join-cons_nil sep [] h = cc
join-cons_nil sep (p ∷ ps) h = refl

-- Joining the parts of a split gives the text back, whatever it holds.
pub join-split : (sep : ℕ) (s : Text) → join sep (split sep s) ≡ s
unfolding split
join-split sep [] = unfold join in refl
join-split sep (c ∷ s) = elim (Bool-cases (c == sep)) [
  | inl e ↦
      rw e (join-cons_nil sep (split sep s) (split-ne-nil sep s) ∙ ground (arith, join-split sep s))
  | inr e ↦
      rw e (
        join-cons_head sep c (split sep s) (split-ne-nil sep s)
        ∙ ap (λ l. c ∷ l) (join-split sep s))
]

AllLack-cons_head :
    (sep c : ℕ) (ps : List Text)
    → (c == sep) ≡ false
    → AllLack sep ps
    → AllLack sep (cons_head c ps)
unfolding contains
AllLack-cons_head sep c [] e h = (rw e, tt)
AllLack-cons_head sep c (p ∷ ps) e h = (rw e h.0, h.1)

-- Each part of a split lacks the separator.
pub split-AllLack : (sep : ℕ) (s : Text) → AllLack sep (split sep s)
unfolding split contains
split-AllLack sep [] = (refl, tt)
split-AllLack sep (c ∷ s) = elim (Bool-cases (c == sep)) [
  | inl e ↦ rw e (refl, split-AllLack sep s)
  | inr e ↦ rw e (AllLack-cons_head sep c (split sep s) e (split-AllLack sep s))
]
