-- ===== src/Migration/Lines.antt =====
-- What a line of an input file that is accepted gives.
use lustre_ost_performance_t.Base.{
  Bool-cases, Option, [], ap, arith, err, false, if_false, if_true, if◌then◌else◌, inl, inr, is_nil,
  none, not, ok, or_raise, refl, runtime_error, some, subst, sym, true, ℕ, ◌&&◌, ◌++◌, ◌==◌, ◌∙◌,
  ◌∷◌, ◌≡◌,
}
use lustre_ost_performance_t.Text.{Text, contains}
use lustre_ost_performance_t.Text.Number.{IsDigits, is_digit}
use lustre_ost_performance_t.Text.RoundTrip.{IsDigits-lacks}
use lustre_ost_performance_t.Msg.{field_separator}
use lustre_ost_performance_t.Migration.{Config, MigrateItem}
use lustre_ost_performance_t.Migration.Caches.{span_digits, match_line, parse_line}

span_digits-eq : (s : Text) → s ≡ (span_digits s).0 ++ (span_digits s).1
unfolding span_digits
span_digits-eq [] = refl
span_digits-eq (c ∷ s) = elim (Bool-cases (is_digit c)) [
  | inl e ↦ rw (e, span_digits) (ap (λ l. c ∷ l) (span_digits-eq s))
  | inr e ↦ rw (e, span_digits) refl
]

span_digits-IsDigits : (s : Text) → IsDigits (span_digits s).0
unfolding span_digits is_digit
span_digits-IsDigits [] = tt
span_digits-IsDigits (c ∷ s) = elim (Bool-cases (is_digit c)) [
  | inl e ↦ rw (e, span_digits) (ground arith, ground arith, span_digits-IsDigits s)
  | inr e ↦ rw (e, span_digits) tt
]

contains_suffix : (sep : ℕ) (s t : Text) → contains sep (s ++ t) ≡ false → contains sep t ≡ false
unfolding contains
contains_suffix sep [] t h = h
contains_suffix sep (c ∷ s) t h = ground (arith, contains_suffix sep s t)

-- The parts of an item: digits, a space, and a path that the pattern takes.
abbrev pub IsMatch : Config → Text → Text → MigrateItem → Type 0
IsMatch cfg digits rest item =
    (item.ost ≡ digits)
    × (rest ≡ b' ' ∷ item.filename)
    × (is_nil digits ≡ false)
    × (cfg.matches_path item.filename ≡ true)

abbrev matched : Config → Text → ℕ → Text → Option MigrateItem
matched cfg digits c filename =
    if not (is_nil digits) && c == b' ' && cfg.matches_path filename
    then some (record { ost = digits; filename = filename })
    else none

IsMatch-record :
    (cfg : Config) (digits : Text) (c : ℕ) (filename : Text) (item : MigrateItem)
    → (not (is_nil digits) && c == b' ' && cfg.matches_path filename) ≡ true
    → some (record { ost = digits; filename = filename }) ≡ some item
    → IsMatch cfg digits (c ∷ filename) item
IsMatch-record cfg digits c filename item e h =
    subst (IsMatch cfg digits (c ∷ filename)) (ap (λ o. elim o [ none ↦ item | some i ↦ i ]) h)
      (refl, ap (λ x. x ∷ filename) (ground (arith, e)), ground (arith, e), ground (arith, e))

abbrev match_rest : Config → Text → Text → Option MigrateItem
match_rest cfg digits [] = none
match_rest cfg digits (c ∷ filename) = matched cfg digits c filename

match_rest-IsMatch :
    (cfg : Config) (digits rest : Text) (item : MigrateItem)
    → match_rest cfg digits rest ≡ some item
    → IsMatch cfg digits rest item
match_rest-IsMatch cfg digits [] item h = cc
match_rest-IsMatch cfg digits (c ∷ filename) item h =
    elim (Bool-cases (not (is_nil digits) && c == b' ' && cfg.matches_path filename)) [
      | inl e ↦ IsMatch-record cfg digits c filename item e (sym (if_true _ _ _ e) ∙ h)
      | inr e ↦ absurd (
          cc (
            if_false {A = Option MigrateItem}
                (not (is_nil digits) && c == b' ' && cfg.matches_path filename)
                (some (record { ost = digits; filename = filename })) none e,
            h,
          ))
    ]

match_line-IsMatch :
    (cfg : Config) (line : Text) (item : MigrateItem)
    → match_line cfg line ≡ some item
    → IsMatch cfg (span_digits line).0 (span_digits line).1 item
unfolding match_line
match_line-IsMatch cfg line item h =
    match_rest-IsMatch cfg (span_digits line).0 (span_digits line).1 item h

or_raise-eq-ok :
    (o : Option MigrateItem) (item : MigrateItem)
    → or_raise o runtime_error ≡ ok item
    → o ≡ some item
or_raise-eq-ok none item e = cc
or_raise-eq-ok (some i) item e = ap (λ r. elim r [ ok i ↦ some i | err x ↦ none ]) e

-- A line that is accepted is the index of an OST, a space and the path of the file that is migrated: the
-- index is made of digits, at least one, so no separator of TIDs stands in it, the pattern takes the path,
-- and no separator of messages stands in it.
pub parse_line_lem :
    (cfg : Config) (line : Text) (item : MigrateItem)
    → parse_line cfg line ≡ ok item
    → (line ≡ item.ost ++ b' ' ∷ item.filename)
      × IsDigits item.ost
      × (is_nil item.ost ≡ false)
      × (contains b':' item.ost ≡ false)
      × (cfg.matches_path item.filename ≡ true)
      × (contains field_separator item.filename ≡ false)
unfolding parse_line
parse_line_lem cfg line item h = elim (Bool-cases (contains field_separator line)) [
  | inl e ↦ absurd (
      cc (
        if_true (contains field_separator line) (err runtime_error)
            (or_raise (match_line cfg line) runtime_error) e,
        h,
      ))
  | inr e ↦
      let found =
        sym (
          if_false (contains field_separator line) (err runtime_error)
            (or_raise (match_line cfg line) runtime_error) e)
        ∙ h in
      let (o, r, n, m) =
        match_line-IsMatch cfg line item (or_raise-eq-ok (match_line cfg line) item found) in
      let digits = subst IsDigits (sym o) (span_digits-IsDigits line) in
      let whole : line ≡ item.ost ++ b' ' ∷ item.filename = span_digits-eq line ∙ cc (o, r) in
      (
        whole,
        digits,
        subst (λ d. is_nil d ≡ false) (sym o) n,
        IsDigits-lacks b':' item.ost digits (inr (omega arith)),
        m,
        contains_suffix field_separator (b' ' ∷ []) item.filename (
            contains_suffix field_separator item.ost (b' ' ∷ item.filename)
              (subst (λ l. contains field_separator l ≡ false) whole e)),
      )
]
