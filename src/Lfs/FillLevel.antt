-- ===== src/Lfs/FillLevel.antt =====
-- lfs/lfs_utils.py: `retrieve_ost_fill_level`, which reads what `lfs df` prints.
use lustre_ost_performance_t.Base.{
  Bool, List, Option, Result, [], err, false, if◌then◌else◌, is_nil, leb, length, none, not, ok,
  raise_if, runtime_error, some, ℕ, ◌&&◌, ◌>>=◌, ◌>>◌, ◌∷◌,
}
use lustre_ost_performance_t.Text.{Text, codes, split}
use lustre_ost_performance_t.Text.Number.{strip, is_digit, read_digits}
use lustre_ost_performance_t.Text.Match.{after, span, guard, or_else}
use lustre_ost_performance_t.Text.Match
use lustre_ost_performance_t.Dict.{Dict, put}

-- from one digit to `most` digits
unfoldable pub few_digits : ℕ → Text → Bool
few_digits most digits = not (is_nil digits) && leb (length digits) most

-- `([0-9]{1,4})\]`, behind the literal
unfoldable pub match_index : Text × Text → Option Text
match_index (digits, s) =
    Match.◌>>=◌ (guard (few_digits 4 digits))
      λ _. Match.◌>>=◌ (after (codes "]") s) λ _. some digits

-- `\[OST:([0-9]{1,4})\]` at the start of the text
unfoldable pub ost_here : Text → Option Text
ost_here s = Match.◌>>=◌ (after (codes "[OST:") s) λ s. match_index (span is_digit s)

-- `.*` takes as many characters as it can, so that the last place counts.
unfoldable pub last_ost : Text → Option Text
last_ost [] = none
last_ost (c ∷ s) = or_else (last_ost s) (ost_here (c ∷ s))

-- `%.*\[OST:([0-9]{1,4})\]` behind a run of digits: the two groups
unfoldable pub match_percent : Text × Text → Option (Text × Text)
match_percent (digits, s) = Match.◌>>=◌ (guard (few_digits 3 digits)) λ _.
    Match.◌>>=◌ (after (codes "%") s) λ s. Match.◌>>=◌ (last_ost s) λ index. some (digits, index)

-- `pattern.search(line)`: the first place that matches
unfoldable pub search : Text → Option (Text × Text)
search [] = none
search (c ∷ s) = or_else (match_percent (span is_digit (c ∷ s))) (search s)

unfoldable pub add_level : Option (Text × Text) → Dict ℕ → Result (Dict ℕ)
add_level none levels = ok levels
add_level (some (digits, index)) levels = do
  fill_level ← read_digits 10 false 0 digits
  ok (put levels index fill_level)

unfoldable pub levels_of_lines : List Text → Dict ℕ → Result (Dict ℕ)
levels_of_lines [] levels = ok levels
levels_of_lines (line ∷ lines) levels = do
  levels ← add_level (search (strip line)) levels
  levels_of_lines lines levels

unfoldable pub refuse_empty : Dict ℕ → Result (Dict ℕ)
refuse_empty levels = if is_nil levels then err runtime_error else ok levels

-- `retrieve_ost_fill_level`, with what `lfs df` prints
unfoldable pub retrieve_ost_fill_level : Text → Result Text → Result (Dict ℕ)
retrieve_ost_fill_level fs_path output = do
  raise_if (is_nil fs_path) runtime_error
  text ← output
  levels ← levels_of_lines (split b'\n' (strip text)) []
  refuse_empty levels
