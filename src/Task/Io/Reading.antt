-- ===== src/Task/Io/Reading.antt =====
-- task/io_task.py: what `_read_file` makes of a file.
use lustre_ost_performance_t.Base.{
  ==_refl, Bool, Bool-cases, Option, Result, [], ap, arith, drop, err, false, inl, inr, is_nil,
  length, none, not, ok, os_error, raise_if, refl, runtime_error, some, subst, suc, sym, take, true,
  zero, ℕ, ◌+◌, ◌<◌, ◌>>◌, ◌∙◌, ◌∷◌, ◌≡◌, ◌≢◌, ◌⊎◌,
}
use lustre_ost_performance_t.Text.{Text}
use lustre_ost_performance_t.Text.Number.{ℤ, pos, negsuc}
use lustre_ost_performance_t.Lfs.Migrate.{int_eq}
use lustre_ost_performance_t.Task.Io.{
  letters_a, Disk, read_part, read_loop, read_all, settle_read, read_from_file, write_to_file,
  initialize_payload,
}
use lustre_ost_performance_t.Task.Io.Transfer.{
  AllWork, fresh, length-letters_a, write_to_file_works, initialize_payload-filled,
}

value_of : ℤ → ℕ
value_of (pos n) = n
value_of (negsuc n) = 0

pos_not_zero : (b : ℕ) → pos (suc b) ≢ pos 0
unfolding value_of
pos_not_zero b z = absurd (omega (arith, ap value_of z))

size_differs :
    (b : Bool) (r : Result (Unit {0})) → b ≡ false → (raise_if (not b) runtime_error >> r) ≢ ok tt
size_differs true r e h = cc
size_differs false r e h = cc

module _ (disk : Disk) where
  -- What a read loop gives: a read failed, or all characters were counted, or, with blocks of no
  -- characters, none.
  abbrev pub Counted : ℤ → ℕ → Text → Result ℕ → Type 0
  Counted block_size total content r =
      ((j : ℕ) × (disk.can_read j ≡ false) × (r ≡ err os_error))
      ⊎ (r ≡ ok (total + length content))
      ⊎ (block_size ≡ pos 0) × (r ≡ ok total)

  abbrev pub Ends : ℤ → ℕ → ℕ → Text → Option (Result ℕ) → Type 0
  Ends block_size fuel total content o =
      (r : Result ℕ) × (o ≡ some r) × Counted block_size total content r

  read_step :
      (fuel : ℕ) (block_size : ℤ) (i : ℕ) (content : Text) (total : ℕ)
      → disk.can_read i ≡ true
      → is_nil (read_part block_size content).0 ≡ false
      → read_loop disk (suc fuel) block_size i content total
        ≡ read_loop disk fuel block_size
            (suc i)
            (read_part block_size content).1
            (total + length (read_part block_size content).0)
  unfolding read_loop
  read_step fuel block_size i content total h k = rw (h, k) refl

  read_end :
      (fuel : ℕ) (block_size : ℤ) (i : ℕ) (content : Text) (total : ℕ)
      → disk.can_read i ≡ true
      → is_nil (read_part block_size content).0 ≡ true
      → read_loop disk (suc fuel) block_size i content total ≡ some (ok total)
  unfolding read_loop
  read_end fuel block_size i content total h k = rw (h, k) refl

  read_fails :
      (fuel : ℕ) (block_size : ℤ) (i : ℕ) (content : Text) (total : ℕ)
      → disk.can_read i ≡ false
      → read_loop disk (suc fuel) block_size i content total ≡ some (err os_error)
  unfolding read_loop
  read_fails fuel block_size i content total h = rw h refl

  parts :
      (b : ℕ) (content : Text) → length (take b content) + length (drop b content) ≡ length content
  parts zero content = omega arith
  parts (suc b) [] = omega arith
  parts (suc b) (c ∷ content) = omega (arith, parts b content)

  part_lengths :
      (block_size : ℤ) (content : Text)
      → length (read_part block_size content).0 + length (read_part block_size content).1
        ≡ length content
  unfolding read_part
  part_lengths (pos n) content = parts n content
  part_lengths (negsuc n) content = omega arith

  -- An empty part means that nothing is left, or that the blocks are empty.
  part_empty :
      (block_size : ℤ) (content : Text)
      → is_nil (read_part block_size content).0 ≡ true
      → (length content ≡ 0) ⊎ (block_size ≡ pos 0)
  unfolding read_part
  part_empty (pos zero) content h = inr refl
  part_empty (pos (suc n)) [] h = inl refl
  part_empty (pos (suc n)) (c ∷ content) h = cc
  part_empty (negsuc n) [] h = inl refl
  part_empty (negsuc n) (c ∷ content) h = cc

  length_not_nil : (s : Text) → is_nil s ≡ false → 0 < length s
  length_not_nil [] h = cc
  length_not_nil (c ∷ s) h = omega arith

  part_of_zero :
      (block_size : ℤ) (content : Text)
      → block_size ≡ pos 0
      → is_nil (read_part block_size content).0 ≡ true
  part_of_zero block_size content z =
      subst (λ n. is_nil (read_part n content).0 ≡ true) (sym z) (unfold read_part in refl)

  recount :
      (block_size : ℤ) (content : Text) (total : ℕ) (r : Result ℕ)
      → is_nil (read_part block_size content).0 ≡ false
      → Counted block_size
          (total + length (read_part block_size content).0)
          (read_part block_size content).1
          r
      → Counted block_size total content r
  recount block_size content total r h (inl e) = inl e
  recount block_size content total r h (inr (inl e)) =
      inr (inl (e ∙ ap ok (omega (arith, part_lengths block_size content))))
  recount block_size content total r h (inr (inr (z, e))) =
      absurd (cc (part_of_zero block_size content z, h))

  -- With more fuel than characters the loop ends by itself.
  pub read_loop-Ends :
      (fuel : ℕ) (block_size : ℤ) (i : ℕ) (content : Text) (total : ℕ)
      → length content < fuel
      → Ends block_size fuel total content (read_loop disk fuel block_size i content total)
  read_loop-Ends zero block_size i content total h = absurd (omega arith)
  read_loop-Ends (suc fuel) block_size i content total h = elim (Bool-cases (disk.can_read i)) [
    | inr e ↦ (err os_error, read_fails fuel block_size i content total e, inl (i, e, refl))
    | inl e ↦ elim (Bool-cases (is_nil (read_part block_size content).0)) [
      | inl e' ↦ (
        ok total,
        read_end fuel block_size i content total e e',
        elim (part_empty block_size content e') [
          | inl z ↦ inr (inl (ap ok (omega arith)))
          | inr z ↦ inr (inr (z, refl))
        ],
      )
      | inr e' ↦
          let (part, rest) = read_part block_size content in
          let n = part_lengths block_size content in
          let (r, k, c) =
            read_loop-Ends fuel block_size (suc i) rest (total + length part)
              (omega (arith, length_not_nil part e')) in
          (
            r,
            read_step fuel block_size i content total e e' ∙ k,
            recount block_size content total r e' c,
          )
    ]
  ]

  read_all_works :
      (b : ℕ) (content : Text)
      → AllWork disk
      → read_all disk (pos (suc b)) content ≡ ok (length content)
  unfolding read_all settle_read
  read_all_works b content h =
      let (r, k, c) =
        read_loop-Ends (suc (length content)) (pos (suc b)) 0 content 0 (omega arith) in
      ap settle_read k ∙ (elim c [
        | inl (j, e, told) ↦ absurd (cc (h.4 j, e))
        | inr (inl e) ↦ e ∙ ap ok (omega arith)
        | inr (inr (z, e)) ↦ absurd (pos_not_zero b z)
      ])

  -- Whatever the sizes, reading succeeds only on a file that has as many characters as the total.
  pub read_from_file-size :
      (block_size total_size : ℤ) (file : Option Text)
      → read_from_file disk block_size total_size file ≡ ok tt
      → (content : Text) × (file ≡ some content) × (int_eq (pos (length content)) total_size ≡ true)
  unfolding read_from_file
  read_from_file-size block_size total_size none h = cc
  read_from_file-size block_size total_size (some content) h =
      elim (Bool-cases (int_eq (pos (length content)) total_size)) [
        | inl e ↦ (content, refl, e)
        | inr e ↦ absurd (size_differs _ _ e h)
      ]

  int_eq_same : (n : ℕ) → int_eq (pos n) (pos n) ≡ true
  unfolding int_eq
  int_eq_same n = ==_refl n

  pub read_from_file_works :
      (b t : ℕ)
      → AllWork disk
      → read_from_file disk (pos (suc b)) (pos t) (some (letters_a t)) ≡ ok tt
  unfolding read_from_file
  read_from_file_works b t h =
      rw (read_all_works b (letters_a t) h, length-letters_a t, int_eq_same t, h.3) refl

  -- The file was written with `t` characters, and is read back.
  abbrev pub Restored : ℕ → ℕ → Result (Unit {0}) × Option Text → Type 0
  Restored b t out =
      (out.0 ≡ ok tt)
      × (out.1 ≡ some (letters_a t))
      × (read_from_file disk (pos (suc b)) (pos t) out.1 ≡ ok tt)

  -- On a file system that does what it is asked, with blocks of at least one character: whatever
  -- stood in the file, after the payload was made the file is written with exactly the total number
  -- of characters, also where the blocks do not divide the total, and reading it back in blocks
  -- of that size succeeds.
  pub written_is_read :
      (b t : ℕ) (flag : Text) (file : Option Text)
      → AllWork disk
      → let made = initialize_payload (pos (suc b)) (pos t) fresh in
        (made.0 ≡ ok tt) × Restored b t (write_to_file disk (pos (suc b)) (pos t) made.1 flag file)
  written_is_read b t flag file h =
      subst
        (λ made.
          (made.0 ≡ ok tt)
          × Restored b t (write_to_file disk (pos (suc b)) (pos t) made.1 flag file))
        (sym (initialize_payload-filled b t))
        (
          refl,
          subst (Restored b t) (sym (write_to_file_works disk b t flag file h))
              (refl, refl, read_from_file_works b t h),
        )
