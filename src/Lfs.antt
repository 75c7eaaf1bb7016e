-- ===== src/Lfs.antt =====
-- lfs/lfs_utils.py: the class `LFSUtils`, which runs the program `lfs` and reads what it prints.
-- The program and what it prints are parameters.
pub mod Items
pub mod Lookup
pub mod FillLevel
pub mod Levels
pub mod LevelTable
pub mod Migrate
mod Tests
use lustre_ost_performance_t.Base.{suc, ◌∷◌}
use lustre_ost_performance_t.Text.{Text}
use lustre_ost_performance_t.Text.Number.{ℤ, pos, negsuc, str_of}

-- `str(n)` of an integer
unfoldable pub str_of_int : ℤ → Text
str_of_int (pos n) = str_of n
str_of_int (negsuc n) = b'-' ∷ str_of (suc n)
