-- ===== src/Task/Io/Transfer.antt =====
-- task/io_task.py: what `_write_file` leaves in the file.
use lustre_ost_performance_t.Base.{
  Bool, Option, [], ap, arith, false, length, ok, refl, some, suc, true, zero, ℕ, ◌%◌, ◌&&◌, ◌*◌,
  ◌++◌, ◌+◌, ◌/◌, ◌∙◌, ◌∷◌, ◌≡◌,
}
use native.Mathlib.Nat.{div-add-mod'}
use lustre_ost_performance_t.Base.Exec.{Exec, resume}
use lustre_ost_performance_t.Text.{Text, text_eq, codes}
use lustre_ost_performance_t.Text.Number.{pos}
use lustre_ost_performance_t.Task.Io.{
  range_of, py_mod, iterations_of, letters_a, Payload, initialize_payload, set_rest, Disk, write,
  write_blocks, write_rest, sync_file, write_payload, with_file, write_iterations, write_to_file,
}

pub length-letters_a : (n : ℕ) → length (letters_a n) ≡ n
unfolding letters_a
length-letters_a zero = refl
length-letters_a (suc n) = ap suc (length-letters_a n)

suc_plus : (m n : ℕ) → suc (m + n) ≡ suc m + n
suc_plus m n = omega arith

letters_a-append : (m n : ℕ) → letters_a m ++ letters_a n ≡ letters_a (m + n)
unfolding letters_a
letters_a-append zero n = ap letters_a (omega arith)
letters_a-append (suc m) n = ap (λ l. b'A' ∷ l) (letters_a-append m n) ∙ ap letters_a (suc_plus m n)

-- The payload of an object that was just made.
abbrev pub fresh : Payload
fresh = record { payload_block = []; payload_rest_block = [] }

abbrev pub filled : ℕ → ℕ → Payload
filled b t = record {
  payload_block = letters_a (suc b);
  payload_rest_block = letters_a (t % suc b);
}

set_rest-filled :
    (b m : ℕ)
    → set_rest (ok (pos m)) (record fresh { payload_block = letters_a b })
      ≡ (ok tt, record { payload_block = letters_a b; payload_rest_block = letters_a m })
unfolding set_rest letters_a
set_rest-filled b zero = refl
set_rest-filled b (suc m) = refl

py_mod-pos : (t b : ℕ) → py_mod (pos t) (pos (suc b)) ≡ ok (pos (t % suc b))
unfolding py_mod
py_mod-pos t b = ground arith

iterations_of-pos : (t b : ℕ) → iterations_of (pos t) (pos (suc b)) ≡ ok (t / suc b)
unfolding iterations_of
iterations_of-pos t b = ground arith

pub initialize_payload-filled :
    (b t : ℕ) → initialize_payload (pos (suc b)) (pos t) fresh ≡ (ok tt, filled b t)
unfolding initialize_payload range_of
initialize_payload-filled b t =
    ap (λ r. set_rest r (record fresh { payload_block = letters_a (suc b) })) (py_mod-pos t b)
    ∙ set_rest-filled (suc b) (t % suc b)

and_false : (b : Bool) → (b && false) ≡ false
and_false true = refl
and_false false = refl

abbrev pub AllWork : Disk → Type 0
AllWork disk =
    (disk.can_create ≡ true)
    × ((i : ℕ) → disk.can_write i ≡ true)
    × (disk.can_sync ≡ true)
    × (disk.can_open ≡ true)
    × ((i : ℕ) → disk.can_read i ≡ true)

module _ (disk : Disk) where
  write_works :
      (i : ℕ) (text content : Text)
      → AllWork disk
      → write disk i text content ≡ (ok tt, content ++ text)
  unfolding write
  write_works i text content h = rw (h.1 i) refl

  write_blocks_work :
      (b i n k : ℕ)
      → AllWork disk
      → write_blocks disk (letters_a b) i n (letters_a k) ≡ (ok tt, letters_a (k + n * b))
  unfolding write_blocks
  write_blocks_work b i zero k h = ap (λ m. (ok tt, letters_a m)) (omega arith)
  write_blocks_work b i (suc n) k h =
      ap (λ out. resume out.0 (λ u. write_blocks disk (letters_a b) (suc i) n) out.1)
        (write_works i (letters_a b) (letters_a k) h ∙ ap (λ l. (ok tt, l)) (letters_a-append k b))
      ∙ write_blocks_work b (suc i) n (k + b) h
      ∙ ap (λ m. (ok tt, letters_a m)) (omega arith)

  write_rest_works :
      (m i k : ℕ)
      → AllWork disk
      → write_rest disk (letters_a m) i (letters_a k) ≡ (ok tt, letters_a (k + m))
  unfolding write_rest letters_a
  write_rest_works zero i k h = ap (λ m. (ok tt, letters_a m)) (omega arith)
  write_rest_works (suc m) i k h =
      write_works i (letters_a (suc m)) (letters_a k) h
      ∙ ap (λ l. (ok tt, l)) (letters_a-append k (suc m))

  sync_works : (flag content : Text) → AllWork disk → sync_file disk flag content ≡ (ok tt, content)
  unfolding sync_file
  sync_works flag content h = rw (h.2, and_false (text_eq flag (codes "on"))) refl

  write_payload_works :
      (b t : ℕ) (flag : Text)
      → AllWork disk
      → write_payload disk (filled b t) (t / suc b) flag [] ≡ (ok tt, letters_a t)
  unfolding write_payload letters_a
  write_payload_works b t flag h =
      let i = t / suc b in
      let rest = letters_a (t % suc b) in
      let after : Exec Text (Unit {0}) = λ c.
        resume (write_rest disk rest i c).0 (λ u. sync_file disk flag)
          (write_rest disk rest i c).1 in
      ap (λ out. resume out.0 (λ u. after) out.1) (write_blocks_work (suc b) 0 i 0 h)
      ∙ ap (λ out. resume out.0 (λ u. sync_file disk flag) out.1)
          (write_rest_works (t % suc b) i (0 + i * suc b) h)
      ∙ sync_works flag _ h
      ∙ ap (λ n. (ok tt, letters_a n)) (omega (arith, div-add-mod' t (suc b)))

  pub write_to_file_works :
      (b t : ℕ) (flag : Text) (file : Option Text)
      → AllWork disk
      → write_to_file disk (pos (suc b)) (pos t) (filled b t) flag file
        ≡ (ok tt, some (letters_a t))
  unfolding write_to_file
  write_to_file_works b t flag file h =
      ap (λ n. write_iterations disk (filled b t) flag n file) (iterations_of-pos t b)
      ∙ (unfold write_iterations with_file in rw (h.0, write_payload_works b t flag h) refl)
