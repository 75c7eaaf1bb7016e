-- ===== src/Task/Io.antt =====
-- task/io_task.py: the payload of a task, and writing and reading its file. A file is the text that
-- was written to it. Quotients are exact for totals below 2^53, where the program's floats are.
pub mod Transfer
pub mod Reading
pub mod Measuring
pub mod Alert
mod Tests
use lustre_ost_performance_t.Base.{
  Bool, Option, Result, [], drop, err, if◌then◌else◌, is_nil, length, none, not, ok, os_error,
  raise_if, runtime_error, some, suc, take, zero, zero_division_error, ℕ, ◌%◌, ◌&&◌, ◌++◌, ◌+◌, ◌-◌,
  ◌/◌, ◌==◌, ◌>>=◌, ◌>>◌, ◌∷◌,
}
use lustre_ost_performance_t.Base.Exec.{Exec}
use lustre_ost_performance_t.Base.Exec
use lustre_ost_performance_t.Text.{Text, codes, text_eq}
use lustre_ost_performance_t.Text.Number.{ℤ, pos, negsuc, negate}
use lustre_ost_performance_t.Lfs.Migrate.{int_eq}

-- The length of `range(n)`.
unfoldable pub range_of : ℤ → ℕ
range_of (pos n) = n
range_of (negsuc n) = 0

-- `a % b`, which has the sign of `b`
unfoldable pub py_mod : ℤ → ℤ → Result ℤ
py_mod (pos a) (pos b) = if b == 0 then err zero_division_error else ok (pos (a % b))
py_mod (negsuc a) (pos b) = if b == 0 then err zero_division_error else ok (pos ((b - 1) - a % b))
py_mod (pos a) (negsuc b) =
    let m = a % suc b in if m == 0 then ok (pos 0) else ok (negate (suc b - m))
py_mod (negsuc a) (negsuc b) = ok (negate (suc a % suc b))

-- `range(int(a / b))`: the quotient is cut towards zero. It is exact, as that of floats is on totals
-- below 2^53.
unfoldable pub iterations_of : ℤ → ℤ → Result ℕ
iterations_of (pos a) (pos b) = if b == 0 then err zero_division_error else ok (a / b)
iterations_of (negsuc a) (pos b) = if b == 0 then err zero_division_error else ok 0
iterations_of (pos a) (negsuc b) = ok 0
iterations_of (negsuc a) (negsuc b) = ok (suc a / suc b)

-- `"".join('A' for i in range(n))`
unfoldable pub letters_a : ℕ → Text
letters_a zero = []
letters_a (suc n) = b'A' ∷ letters_a n

pub record Payload : Type 0 where
  pub payload_block : Text
  pub payload_rest_block : Text

-- `if block_rest_size_bytes > 0`
unfoldable pub set_rest : Result ℤ → Exec Payload (Unit {0})
set_rest (err e) p = (err e, p)
set_rest (ok (pos zero)) p = (ok tt, p)
set_rest (ok (pos (suc n))) p = (ok tt, record p { payload_rest_block = letters_a (suc n) })
set_rest (ok (negsuc n)) p = (ok tt, p)

-- `_initialize_payload`, on the texts that the object holds before
unfoldable pub initialize_payload : ℤ → ℤ → Exec Payload (Unit {0})
initialize_payload block_size total_size p =
    set_rest (py_mod total_size block_size)
      (record p { payload_block = letters_a (range_of block_size) })

-- What the file system allows: opening for writing, the i-th `write`, `flush` and `fsync`, opening
-- for reading, and the i-th `read`.
pub record Disk : Type 0 where
  pub can_create : Bool
  pub can_write : ℕ → Bool
  pub can_sync : Bool
  pub can_open : Bool
  pub can_read : ℕ → Bool

-- `fp.read(n)`: a negative number reads all
unfoldable pub read_part : ℤ → Text → Text × Text
read_part (pos n) content = (take n content, drop n content)
read_part (negsuc n) content = (content, [])

unfoldable pub settle_read : Option (Result ℕ) → Result ℕ
settle_read none = err runtime_error
settle_read (some r) = r

module _ (disk : Disk) where
  -- `fp.write(text)`, as the i-th write
  unfoldable pub write : ℕ → Text → Exec Text (Unit {0})
  write i text content =
      if disk.can_write i then (ok tt, content ++ text) else (err os_error, content)

  unfoldable pub write_blocks : Text → ℕ → ℕ → Exec Text (Unit {0})
  unfolding write
  write_blocks block i zero content = (ok tt, content)
  write_blocks block i (suc n) content =
      Exec.◌>>◌ (write i block) (write_blocks block (suc i) n) content

  unfoldable pub write_rest : Text → ℕ → Exec Text (Unit {0})
  unfolding write
  write_rest rest i content = if is_nil rest then (ok tt, content) else write i rest content

  unfoldable pub sync_file : Text → Exec Text (Unit {0})
  sync_file write_file_sync content =
      if text_eq write_file_sync (codes "on") && not disk.can_sync
      then (err os_error, content)
      else (ok tt, content)

  -- The part of `_write_file` in the `with` block.
  unfoldable pub write_payload : Payload → ℕ → Text → Exec Text (Unit {0})
  unfolding write_blocks write_rest sync_file
  write_payload p iterations write_file_sync =
      Exec.◌>>◌ (write_blocks p.payload_block 0 iterations)
        (Exec.◌>>◌ (write_rest p.payload_rest_block iterations) (sync_file write_file_sync))

  -- `with open(file_path, 'w') as fp`: the file is there and empty from then on
  unfoldable pub with_file : Exec Text (Unit {0}) → Exec (Option Text) (Unit {0})
  with_file body file =
      let (r, content) = body [] in
      if disk.can_create then (r, some content) else (err os_error, file)

  unfoldable pub write_iterations : Payload → Text → Result ℕ → Exec (Option Text) (Unit {0})
  unfolding with_file write_payload
  write_iterations p write_file_sync (err e) file = (err e, file)
  write_iterations p write_file_sync (ok iterations) file =
      with_file (write_payload p iterations write_file_sync) file

  -- `_write_file` up to the measuring; the state is the file, if there is one
  unfoldable pub write_to_file : ℤ → ℤ → Payload → Text → Exec (Option Text) (Unit {0})
  unfolding write_iterations
  write_to_file block_size total_size p write_file_sync =
      write_iterations p write_file_sync (iterations_of total_size block_size)

  -- The i-th `read` and those behind it, with the number of characters read before; `none` is the
  -- end of the fuel.
  unfoldable pub read_loop : ℕ → ℤ → ℕ → Text → ℕ → Option (Result ℕ)
  unfolding read_part
  read_loop zero block_size i content total = none
  read_loop (suc fuel) block_size i content total =
      let (part, rest) = read_part block_size content in
      let later = read_loop fuel block_size (suc i) rest (total + length part) in
      if disk.can_read i
      then (if is_nil part then some (ok total) else later)
      else some (err os_error)

  -- The two reads of the code, in front of the loop and in it, are one loop, as above. Every round
  -- but the last takes a character, so that this fuel is never spent.
  unfoldable pub read_all : ℤ → Text → Result ℕ
  unfolding read_loop settle_read
  read_all block_size content =
      settle_read (read_loop (suc (length content)) block_size 0 content 0)

  -- `_read_file` up to the measuring
  unfoldable pub read_from_file : ℤ → ℤ → Option Text → Result (Unit {0})
  read_from_file block_size total_size none = err runtime_error
  read_from_file block_size total_size (some content) = do
    raise_if (not (int_eq (pos (length content)) total_size)) runtime_error
    raise_if (not disk.can_open) os_error
    total_read_bytes ← read_all block_size content
    raise_if (not (int_eq (pos total_read_bytes) total_size)) runtime_error
    ok tt
