-- ===== src/Text/Table.antt =====
-- The output of a program as lines: what `output.strip().split('\n')` gives back of it.
use lustre_ost_performance_t.Base.{List, [], ap, false, true, ◌++◌, ◌∙◌, ◌∷◌, ◌≡◌}
use lustre_ost_performance_t.Text.{Text, contains, split, join}
use lustre_ost_performance_t.Text.Split.{AllLack, split-join}
use lustre_ost_performance_t.Text.Number.{strip}
use lustre_ost_performance_t.Text.Match.{
  starts_solid, ends_solid, starts_solid-append, ends_solid-append, strip-newline,
}

-- A line begins and ends with a character that is no space, and holds no line end.
abbrev pub IsLine : Text → Type 0
IsLine s = (starts_solid s ≡ true) × (ends_solid s ≡ true) × (contains b'\n' s ≡ false)

abbrev pub AllLines : List Text → Type 0
AllLines [] = Unit {0}
AllLines (s ∷ ss) = IsLine s × AllLines ss

-- The lines, each with its end.
unfoldable pub print_lines : List Text → Text
print_lines lines = join b'\n' lines ++ b'\n' ∷ []

lines_lack : (lines : List Text) → AllLines lines → AllLack b'\n' lines
lines_lack [] h = tt
lines_lack (s ∷ ss) h = (h.0.2, lines_lack ss h.1)

join-starts_solid :
    (s : Text) (ss : List Text) → IsLine s → starts_solid (join b'\n' (s ∷ ss)) ≡ true
unfolding join
join-starts_solid s [] h = h.0
join-starts_solid s (t ∷ ss) h = starts_solid-append s _ h.0

join-ends_solid :
    (s : Text) (ss : List Text) → AllLines (s ∷ ss) → ends_solid (join b'\n' (s ∷ ss)) ≡ true
unfolding join
join-ends_solid s [] h = h.0.1
join-ends_solid s (t ∷ ss) h =
    ends_solid-append s _ (ends_solid-append (b'\n' ∷ []) _ (join-ends_solid t ss h.1))

-- The lines come back, if there is one.
pub split-print_lines :
    (s : Text) (ss : List Text)
    → AllLines (s ∷ ss)
    → split b'\n' (strip (print_lines (s ∷ ss))) ≡ s ∷ ss
unfolding print_lines
split-print_lines s ss h =
    ap (split b'\n')
      (strip-newline (join b'\n' (s ∷ ss)) (join-starts_solid s ss h.0) (join-ends_solid s ss h))
    ∙ split-join b'\n' s ss (lines_lack (s ∷ ss) h)
