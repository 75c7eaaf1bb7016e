-- ===== src/Lfs/Items.antt =====
-- lfs/lfs_utils.py: `LFSOstItem`, `create_ost_item_list` and `is_ost_idx_active`. A target is
-- taken to hold no character that a regular expression reads in a way of its own.
use lustre_ost_performance_t.Base.{
  Bool, List, Option, Result, [], drop, err, if◌then◌else◌, is_nil, leb, none, not, ok,
  runtime_error, some, take, ℕ, ◌&&◌, ◌++◌, ◌==◌, ◌>>=◌, ◌||◌, ◌∷◌,
}
use lustre_ost_performance_t.Text.{Text, codes, text_eq, split}
use lustre_ost_performance_t.Text.Number.{strip, is_space, int_of_hex}
use lustre_ost_performance_t.Text.Match.{after, span, guard}
use lustre_ost_performance_t.Text.Match
use lustre_ost_performance_t.Lfs.{str_of_int}

pub record LfsOstItem : Type 0 where
  pub target : Text
  pub ost : Text
  pub state : Text
  pub active : Bool
  pub ost_idx : Text

-- The setter of `ost_idx`.
unfoldable pub ost_idx_of : Text → Result Text
ost_idx_of ost =
    if text_eq (take 3 ost) (codes "OST")
    then (do n ← int_of_hex (drop 3 ost); ok (str_of_int n))
    else err runtime_error

unfoldable pub new_ost_item : Text → Text → Text → Bool → Result LfsOstItem
new_ost_item target ost state active = do
  ost_idx ← ost_idx_of ost
  ok (record { target = target; ost = ost; state = state; active = active; ost_idx = ost_idx })

-- `[a-z0-9]` and `[a-z0-9-]`
unfoldable pub is_word : ℕ → Bool
is_word c = (leb b'a' c && leb c b'z') || (leb b'0' c && leb c b'9')

unfoldable pub is_word_or_dash : ℕ → Bool
unfolding is_word
is_word_or_dash c = is_word c || c == b'-'

-- `\s(.+)`
unfoldable pub match_state : Text → Option Text
match_state (c ∷ x ∷ s) = if is_space c then some (x ∷ s) else none
match_state _ = none

-- `[a-z0-9-]+\s(.+)`: the two groups
unfoldable pub match_uuid : Text → Text × Text → Option (Text × Text)
match_uuid word (uuid, s) =
    Match.◌>>=◌ (guard (not (is_nil uuid)))
      λ _. Match.◌>>=◌ (match_state s) λ state. some (codes "OST" ++ word, state)

-- `[a-z0-9]+)\-` and what follows
unfoldable pub match_word : Text × Text → Option (Text × Text)
match_word (word, s) =
    Match.◌>>=◌ (guard (not (is_nil word)))
      λ _. Match.◌>>=◌ (after (codes "-") s) λ s. match_uuid word (span is_word_or_dash s)

-- `\-(OST[a-z0-9]+)\-[a-z0-9-]+\s(.+)`, behind the target
unfoldable pub match_ost : Text → Option (Text × Text)
match_ost s = Match.◌>>=◌ (after (codes "-OST") s) λ s. match_word (span is_word s)

-- `pattern.match(line)`
unfoldable pub match_check_line : Text → Text → Option (Text × Text)
match_check_line target line = Match.◌>>=◌ (after target line) match_ost

unfoldable pub item_of : Text → Text × Text → Result LfsOstItem
item_of target (ost, state) = new_ost_item target ost state (text_eq state (codes "active."))

-- The loop over the lines: an exception ends it, and is caught behind it.
unfoldable pub add_ost_item : Result LfsOstItem → List LfsOstItem → List LfsOstItem
add_ost_item (err e) rest = []
add_ost_item (ok item) rest = item ∷ rest

unfoldable pub add_match : Text → Option (Text × Text) → List LfsOstItem → List LfsOstItem
add_match target none rest = rest
add_match target (some groups) rest = add_ost_item (item_of target groups) rest

unfoldable pub items_of_lines : Text → List Text → List LfsOstItem
items_of_lines target [] = []
items_of_lines target (line ∷ lines) =
    add_match target (match_check_line target (strip line)) (items_of_lines target lines)

-- `create_ost_item_list`, with what `lfs check osts` prints
unfoldable pub create_ost_item_list : Text → Result Text → List LfsOstItem
create_ost_item_list target (err e) = []
create_ost_item_list target (ok output) = items_of_lines target (split b'\n' (strip output))

unfoldable pub find_active : List LfsOstItem → Text → Result Bool
find_active [] ost_idx = err runtime_error
find_active (item ∷ items) ost_idx =
    if text_eq item.ost_idx ost_idx then ok item.active else find_active items ost_idx

unfoldable pub is_ost_idx_active : Text → Text → Result Text → Result Bool
is_ost_idx_active target ost_idx output = find_active (create_ost_item_list target output) ost_idx
