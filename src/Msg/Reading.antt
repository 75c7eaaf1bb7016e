-- ===== src/Msg/Reading.antt =====
-- What `MessageFactory.create` accepts: the text of a message that it creates is the text that it
-- was given.
use lustre_ost_performance_t.Base.{
  [], arith, drop, length, length-append, none, refl, some, suc, ℕ, ◌++◌, ◌+◌, ◌∷◌, ◌≡◌, ◌⊎◌,
}
use lustre_ost_performance_t.Text.{Text}
use lustre_ost_performance_t.Msg.{Message, field_separator, to_string}
use lustre_ost_performance_t.Msg.Factory.{rest_of}

-- `to_string` drops a separator with nothing behind it.
abbrev pub Restores : Message → Text → Type 0
Restores m s = (to_string m ≡ s) ⊎ (to_string m ++ field_separator ∷ [] ≡ s)

pub rest_of_all : (h : Text) → rest_of h h ≡ none
unfolding rest_of
rest_of_all h = ground arith

drop-past : (h : Text) (x : ℕ) (b : Text) → drop (suc (length h)) (h ++ x ∷ b) ≡ b
drop-past [] x b = refl
drop-past (c ∷ h) x b = drop-past h x b

pub rest_of-append : (h b : Text) → rest_of h (h ++ field_separator ∷ b) ≡ some b
unfolding rest_of
rest_of-append h b =
    let e : length h + 1 ≡ suc (length h) = omega arith in
    rw (e, drop-past h field_separator b) (ground (arith, length-append h (field_separator ∷ b)))
