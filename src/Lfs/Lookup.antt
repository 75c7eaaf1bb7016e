-- ===== src/Lfs/Lookup.antt =====
-- lfs/lfs_utils.py: what `is_ost_idx_active` answers on the table that `lfs check osts` prints.
use lustre_ost_performance_t.Base.{
  ==_iff, Bool, Bool-cases, List, Result, [], ap, arith, err, false, if◌then◌else◌, inl, inr,
  is_nil, map, ok, refl, runtime_error, some, true, ℕ, ◌++◌, ◌==◌, ◌∙◌, ◌∷◌, ◌≡◌,
}
use lustre_ost_performance_t.Text.{Text, codes, text_eq, text_eq_iff, text_eq_refl, contains}
use lustre_ost_performance_t.Text.Number.{pos, int_of_hex, str_of, is_space}
use lustre_ost_performance_t.Text.RoundTrip.{str_of-injective}
use lustre_ost_performance_t.Text.Match.{
  AllIn, after-append, span-append, starts_solid, ends_solid, starts_solid-append,
  ends_solid-append, strip_solid, contains-append, AllIn-lacks,
}
use lustre_ost_performance_t.Text.Table.{AllLines, print_lines, split-print_lines}
use lustre_ost_performance_t.Lfs.{str_of_int}
use lustre_ost_performance_t.Lfs.Items.{
  LfsOstItem, ost_idx_of, new_ost_item, is_word, is_word_or_dash, match_state, match_ost,
  match_check_line, item_of, items_of_lines, create_ost_item_list, find_active, is_ost_idx_active,
  match_uuid, match_word, add_match, add_ost_item,
}

-- A line of the table: an OST in hexadecimal digits, the rest of the device's name, and its state.
pub record Row : Type 0 where
  pub word : Text
  pub uuid : Text
  pub state : Text
  pub index : ℕ

unfoldable pub print_tail : Row → Text
print_tail r = codes "-OST" ++ (r.word ++ (codes "-" ++ (r.uuid ++ (codes " " ++ r.state))))

unfoldable pub print_row : Text → Row → Text
print_row target r = target ++ print_tail r

abbrev pub IsRow : Row → Type 0
IsRow r =
    (is_nil r.word ≡ false)
    × AllIn is_word r.word
    × (int_of_hex r.word ≡ ok (pos r.index))
    × (is_nil r.uuid ≡ false)
    × AllIn is_word_or_dash r.uuid
    × (ends_solid r.state ≡ true)
    × (contains b'\n' r.state ≡ false)

abbrev pub AllRows : List Row → Type 0
AllRows [] = Unit {0}
AllRows (r ∷ rs) = IsRow r × AllRows rs

-- The first row with the index says whether it is active.
unfoldable pub active_in : List Row → ℕ → Result Bool
active_in [] i = err runtime_error
active_in (r ∷ rs) i =
    if r.index == i then ok (text_eq r.state (codes "active.")) else active_in rs i

item_of_row : Text → Row → LfsOstItem
item_of_row target r = record {
  target = target;
  ost = codes "OST" ++ r.word;
  state = r.state;
  active = text_eq r.state (codes "active.");
  ost_idx = str_of r.index;
}

space_is_space : is_space b' ' ≡ true
unfolding is_space
space_is_space = refl

match_state_solid : (s : Text) → ends_solid s ≡ true → match_state (codes " " ++ s) ≡ some s
unfolding match_state ends_solid
match_state_solid [] h = cc
match_state_solid (c ∷ s) h = rw space_is_space

match_uuid_row :
    (r : Row)
    → IsRow r
    → match_uuid r.word (r.uuid, codes " " ++ r.state) ≡ some (codes "OST" ++ r.word, r.state)
unfolding match_uuid
match_uuid_row r h = rw (h.3, match_state_solid r.state h.5)

match_word_row :
    (r : Row)
    → IsRow r
    → match_word (r.word, codes "-" ++ (r.uuid ++ (codes " " ++ r.state)))
      ≡ some (codes "OST" ++ r.word, r.state)
unfolding match_word
match_word_row r h =
    rw (h.0, after-append (codes "-") (r.uuid ++ (codes " " ++ r.state)))
      (ap (match_uuid r.word) (
          span-append is_word_or_dash r.uuid (codes " " ++ r.state) h.4
            (unfold is_word_or_dash is_word in refl))
        ∙ match_uuid_row r h)

match_ost_row :
    (r : Row) → IsRow r → match_ost (print_tail r) ≡ some (codes "OST" ++ r.word, r.state)
unfolding match_ost print_tail
match_ost_row r h =
    rw (after-append (codes "-OST") (r.word ++ (codes "-" ++ (r.uuid ++ (codes " " ++ r.state))))) (
      ap match_word (
        span-append is_word r.word (codes "-" ++ (r.uuid ++ (codes " " ++ r.state))) h.1
          (unfold is_word in refl))
      ∙ match_word_row r h)

-- A printed line matches, and gives the OST and its state.
match_check_line-print_row :
    (target : Text) (r : Row)
    → IsRow r
    → match_check_line target (print_row target r) ≡ some (codes "OST" ++ r.word, r.state)
unfolding match_check_line print_row
match_check_line-print_row target r h = rw (after-append target (print_tail r)) (match_ost_row r h)

item_of_printed :
    (target : Text) (r : Row)
    → IsRow r
    → item_of target (codes "OST" ++ r.word, r.state) ≡ ok (item_of_row target r)
unfolding item_of new_ost_item ost_idx_of item_of_row str_of_int text_eq
item_of_printed target r h = rw h.2

print_row-ends_solid : (target : Text) (r : Row) → IsRow r → ends_solid (print_row target r) ≡ true
unfolding print_row print_tail
print_row-ends_solid target r h = ends_solid-append target _ (
    ends_solid-append (codes "-OST") _ (
      ends_solid-append r.word _ (
        ends_solid-append (codes "-") _
          (ends_solid-append r.uuid _ (ends_solid-append (codes " ") r.state h.5)))))

print_row-lacks :
    (target : Text) (r : Row)
    → contains b'\n' target ≡ false
    → IsRow r
    → contains b'\n' (print_row target r) ≡ false
unfolding print_row print_tail
print_row-lacks target r k h = contains-append b'\n' target _ k (
    contains-append b'\n' (codes "-OST") _ (unfold contains in refl) (
      contains-append b'\n' r.word _ (AllIn-lacks b'\n' is_word r.word (unfold is_word in refl) h.1)
        (contains-append b'\n' (codes "-") _ (unfold contains in refl) (
          contains-append b'\n' r.uuid _
            (AllIn-lacks b'\n' is_word_or_dash r.uuid (unfold is_word_or_dash is_word in refl) h.4)
            (contains-append b'\n' (codes " ") r.state (unfold contains in refl) h.6)))))

item_step :
    (target : Text) (r : Row) (lines : List Text)
    → starts_solid target ≡ true
    → IsRow r
    → items_of_lines target (print_row target r ∷ lines)
      ≡ item_of_row target r ∷ items_of_lines target lines
unfolding items_of_lines add_match add_ost_item
item_step target r lines k h =
    let rest = items_of_lines target lines in
    ap (λ s. add_match target (match_check_line target s) rest)
      (strip_solid (print_row target r)
        (unfold print_row in starts_solid-append target (print_tail r) k)
        (print_row-ends_solid target r h))
    ∙ ap (λ m. add_match target m rest) (match_check_line-print_row target r h)
    ∙ ap (λ i. add_ost_item i rest) (item_of_printed target r h)

items_of_printed :
    (target : Text) (rows : List Row)
    → starts_solid target ≡ true
    → AllRows rows
    → items_of_lines target (map (print_row target) rows) ≡ map (item_of_row target) rows
items_of_printed target [] k h = unfold items_of_lines in refl
items_of_printed target (r ∷ rows) k h =
    item_step target r (map (print_row target) rows) k h.0
    ∙ ap (λ l. item_of_row target r ∷ l) (items_of_printed target rows k h.1)

printed_AllLines :
    (target : Text) (rows : List Row)
    → starts_solid target ≡ true
    → contains b'\n' target ≡ false
    → AllRows rows
    → AllLines (map (print_row target) rows)
printed_AllLines target [] k l h = tt
printed_AllLines target (r ∷ rows) k l h = (
  (
    unfold print_row in starts_solid-append target (print_tail r) k,
    print_row-ends_solid target r h.0,
    print_row-lacks target r l h.0,
  ),
  printed_AllLines target rows k l h.1,
)

-- Every line of the table gives an item, in the order of the lines.
create_ost_item_list-print_lines :
    (target : Text) (r : Row) (rows : List Row)
    → starts_solid target ≡ true
    → contains b'\n' target ≡ false
    → AllRows (r ∷ rows)
    → create_ost_item_list target (ok (print_lines (map (print_row target) (r ∷ rows))))
      ≡ map (item_of_row target) (r ∷ rows)
unfolding create_ost_item_list
create_ost_item_list-print_lines target r rows k l h =
    ap (items_of_lines target) (
      split-print_lines (print_row target r) (map (print_row target) rows)
        (printed_AllLines target (r ∷ rows) k l h))
    ∙ items_of_printed target (r ∷ rows) k h

find_active_in :
    (target : Text) (rows : List Row) (i : ℕ)
    → find_active (map (item_of_row target) rows) (str_of i) ≡ active_in rows i
unfolding find_active active_in item_of_row
find_active_in target [] i = refl
find_active_in target (r ∷ rows) i = elim (Bool-cases (r.index == i)) [
  | inl e ↦
      rw
        (
          e,
          ap (λ j. text_eq (str_of j) (str_of i)) ((==_iff r.index i).0 e),
          text_eq_refl (str_of i),
        )
        refl
  | inr e ↦ elim (Bool-cases (text_eq (str_of r.index) (str_of i))) [
    | inl e' ↦ absurd (
        ground (arith, str_of-injective r.index i ((text_eq_iff (str_of r.index) (str_of i)).0 e')))
    | inr e' ↦ rw (e, e') (find_active_in target rows i)
  ]
]

-- On the table that `lfs check osts` prints for the target, with at least one line, the answer for
-- an index in decimal digits is that of the first line whose OST has the index: whether its state
-- is `active.`. If no line has the index, the answer is a RuntimeError.
pub is_ost_idx_active-print_lines :
    (target : Text) (r : Row) (rows : List Row) (i : ℕ)
    → starts_solid target ≡ true
    → contains b'\n' target ≡ false
    → AllRows (r ∷ rows)
    → is_ost_idx_active target (str_of i) (ok (print_lines (map (print_row target) (r ∷ rows))))
      ≡ active_in (r ∷ rows) i
unfolding is_ost_idx_active
is_ost_idx_active-print_lines target r rows i k l h =
    ap (λ items. find_active items (str_of i))
      (create_ost_item_list-print_lines target r rows k l h)
    ∙ find_active_in target (r ∷ rows) i
