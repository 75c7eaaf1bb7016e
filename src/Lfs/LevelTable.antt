-- ===== src/Lfs/LevelTable.antt =====
-- lfs/lfs_utils.py: `retrieve_ost_fill_level` on a whole table of `lfs df`.
use lustre_ost_performance_t.Base.{
  List, [], ap, arith, false, inl, is_nil, map, ok, refl, true, ℕ, ◌>>=◌, ◌∙◌, ◌∷◌, ◌≡◌,
}
use lustre_ost_performance_t.Text.{Text, codes, contains}
use lustre_ost_performance_t.Text.Number.{strip, str_of}
use lustre_ost_performance_t.Text.RoundTrip.{str_of-IsDigits, IsDigits-lacks, read_digits-str_of}
use lustre_ost_performance_t.Text.Match.{
  starts_solid, ends_solid, starts_solid-append, ends_solid-append, strip_solid, contains-append,
}
use lustre_ost_performance_t.Dict.{Dict, put}
use lustre_ost_performance_t.Text.Table.{AllLines, print_lines, split-print_lines}
use lustre_ost_performance_t.Text.Number.{is_space}
use lustre_ost_performance_t.Lfs.Levels.{
  Usage, print_mount, print_usage, IsUsage, AllUsages, search-print_usage,
}
use lustre_ost_performance_t.Lfs.FillLevel.{
  search, add_level, levels_of_lines, refuse_empty, retrieve_ost_fill_level,
}

-- The dictionary after the lines: a later line replaces the level of an earlier one.
unfoldable pub put_levels : List Usage → Dict ℕ → Dict ℕ
put_levels [] levels = levels
put_levels (u ∷ us) levels = put_levels us (put levels (str_of u.index) u.level)

print_usage-starts_solid : (u : Usage) → IsUsage u → starts_solid (print_usage u) ≡ true
unfolding print_usage
print_usage-starts_solid u h = starts_solid-append u.front _ h.0

print_usage-ends_solid : (u : Usage) → ends_solid (print_usage u) ≡ true
unfolding print_usage print_mount
print_usage-ends_solid u = ends_solid-append u.front _ (
    ends_solid-append (str_of u.level) _ (
      ends_solid-append (codes "%") _ (
        ends_solid-append u.mount _ (
          ends_solid-append (codes "[OST:") _ (
            ends_solid-append (str_of u.index) (codes "]") (unfold ends_solid is_space in refl))))))

print_usage-lacks : (u : Usage) → IsUsage u → contains b'\n' (print_usage u) ≡ false
unfolding print_usage print_mount
print_usage-lacks u h = contains-append b'\n' u.front _ h.3 (
    contains-append b'\n' (str_of u.level) _
      (IsDigits-lacks b'\n' (str_of u.level) (str_of-IsDigits u.level) (inl (omega arith)))
      (contains-append b'\n' (codes "%") _ (unfold contains in refl) (
        contains-append b'\n' u.mount _ h.5 (
          contains-append b'\n' (codes "[OST:") _ (unfold contains in refl) (
            contains-append b'\n' (str_of u.index) (codes "]")
              (IsDigits-lacks b'\n' (str_of u.index) (str_of-IsDigits u.index) (inl (omega arith)))
              (unfold contains in refl))))))

level_step :
    (u : Usage) (levels : Dict ℕ)
    → IsUsage u
    → add_level (search (strip (print_usage u))) levels ≡ ok (put levels (str_of u.index) u.level)
unfolding add_level
level_step u levels h =
    ap (λ s. add_level (search s) levels)
      (strip_solid (print_usage u) (print_usage-starts_solid u h) (print_usage-ends_solid u))
    ∙ ap (λ m. add_level m levels) (search-print_usage u h)
    ∙ rw (read_digits-str_of u.level) refl

levels_of_printed :
    (us : List Usage) (levels : Dict ℕ)
    → AllUsages us
    → levels_of_lines (map print_usage us) levels ≡ ok (put_levels us levels)
unfolding levels_of_lines put_levels
levels_of_printed [] levels h = refl
levels_of_printed (u ∷ us) levels h =
    ap (λ r. r >>= levels_of_lines (map print_usage us)) (level_step u levels h.0)
    ∙ levels_of_printed us (put levels (str_of u.index) u.level) h.1

printed_AllLines : (us : List Usage) → AllUsages us → AllLines (map print_usage us)
printed_AllLines [] h = tt
printed_AllLines (u ∷ us) h = (
  (print_usage-starts_solid u h.0, print_usage-ends_solid u, print_usage-lacks u h.0),
  printed_AllLines us h.1,
)

is_nil-put : (levels : Dict ℕ) (k : Text) (v : ℕ) → is_nil (put levels k v) ≡ false
unfolding put
is_nil-put [] k v = refl
is_nil-put ((j, w) ∷ levels) k v = ground arith

is_nil-put_levels :
    (us : List Usage) (levels : Dict ℕ)
    → is_nil levels ≡ false
    → is_nil (put_levels us levels) ≡ false
unfolding put_levels
is_nil-put_levels [] levels h = h
is_nil-put_levels (u ∷ us) levels h =
    is_nil-put_levels us (put levels (str_of u.index) u.level)
      (is_nil-put levels (str_of u.index) u.level)

levels_not_empty :
    (u : Usage) (us : List Usage)
    → refuse_empty (put_levels (u ∷ us) []) ≡ ok (put_levels (u ∷ us) [])
unfolding refuse_empty put_levels
levels_not_empty u us = rw (is_nil-put_levels us _ (is_nil-put [] (str_of u.index) u.level)) refl

-- On a table of at least one line, whose fill levels have at most three digits and whose indices at
-- most four, the dictionary maps each index, in decimal digits, to the fill level in the last line
-- that has the index.
pub retrieve_ost_fill_level-print_lines :
    (fs_path : Text) (u : Usage) (us : List Usage)
    → is_nil fs_path ≡ false
    → AllUsages (u ∷ us)
    → retrieve_ost_fill_level fs_path (ok (print_lines (map print_usage (u ∷ us))))
      ≡ ok (put_levels (u ∷ us) [])
unfolding retrieve_ost_fill_level
retrieve_ost_fill_level-print_lines fs_path u us n h = rw n (
    ap (λ lines. levels_of_lines lines [] >>= refuse_empty)
      (split-print_lines (print_usage u) (map print_usage us) (printed_AllLines (u ∷ us) h))
    ∙ ap (λ r. r >>= refuse_empty) (levels_of_printed (u ∷ us) [] h)
    ∙ levels_not_empty u us)
