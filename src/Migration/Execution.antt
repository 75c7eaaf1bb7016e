-- ===== src/Migration/Execution.antt =====
-- The programs that a worker runs for a migration of the generator: `execute` of
-- task/ost_migrate_task.py on top of `migrate_file` of lfs/lfs_utils.py.
use lustre_ost_performance_t.Base.{
  ==_iff, ==_refl, Bool, List, Result, [], ap, append_assoc, false, if◌then◌else◌, inl, inr, is_nil,
  not, ok, refl, subst, true, ℕ, ◌&&◌, ◌++◌, ◌∙◌, ◌∷◌, ◌≡◌, ◌≢◌, ◌⊎◌,
}
use lustre_ost_performance_t.Text.{Text, codes}
use lustre_ost_performance_t.Text.Number.{ℤ, pos, negsuc, str_of}
use lustre_ost_performance_t.Lfs.{str_of_int}
use lustre_ost_performance_t.Lfs.Migrate.{
  Report, StripeInfo, Commands, Host, Arguments, check_arguments, text_of, is_py_none, is_py_int,
  is_py_bool, truthy, int_eq, number_of, equals, is_natural, exceeds, str_of_value, getstripe_args,
  migrate_args, is_elsewhere, is_there, migrate_file,
}
use lustre_ost_performance_t.Lfs.Migrate.Commands.{stripes, Tried, Ran, migrate_file-Ran}
use lustre_ost_performance_t.Lfs.Migrate.Proper.{check-Proper, Proper-check}
use lustre_ost_performance_t.Task.OstMigrate.{OstMigrateTask, arguments_of, execute}
use lustre_ost_performance_t.Migration.Transfer.{moving}

-- `lfs migrate` to one target, with the stripe count that the file has
unfoldable pub lfs_migrate : Text → Bool → ℕ → ℤ → Text → List Text
lfs_migrate lfs_bin block t count filename =
    lfs_bin
      ∷ codes "migrate"
      ∷ (if block then codes "--block" else codes "--non-block")
      ∷ codes "-i"
      ∷ str_of t
      ∷ (if exceeds count 0 then codes "-c" ∷ str_of_int count ∷ [] else [])
    ++ filename ∷ []

and_false : (b : Bool) → (b && false) ≡ false
and_false true = refl
and_false false = refl

int_eq-eq : (a b : ℤ) → int_eq a b ≡ true → a ≡ b
unfolding int_eq
int_eq-eq (pos a) (pos b) h = ap pos ((==_iff a b).0 h)
int_eq-eq (pos a) (negsuc b) h = cc
int_eq-eq (negsuc a) (pos b) h = cc
int_eq-eq (negsuc a) (negsuc b) h = ap negsuc ((==_iff a b).0 h)

int_eq_refl : (a : ℤ) → int_eq a a ≡ true
unfolding int_eq
int_eq_refl (pos a) = ==_refl a
int_eq_refl (negsuc a) = ==_refl a

not-false : (b : Bool) → not b ≡ false → b ≡ true
not-false true h = refl
not-false false h = cc

module _ (o : OstMigrateTask) (s t : ℕ) (filename : Text) where
  abbrev args : Arguments
  unfolding arguments_of
  args = arguments_of (moving o s t filename)

  checked : is_nil filename ≡ false → check_arguments args ≡ ok filename
  unfolding check_arguments text_of is_py_none is_py_int is_py_bool truthy args arguments_of
  checked n = rw (and_false o.block, and_false o.skip, n) refl

  migrate_args-eq :
      (lfs_bin : Text) (count : ℤ)
      → migrate_args lfs_bin filename args.target_idx args.block count
        ≡ lfs_migrate lfs_bin o.block t count filename
  unfolding migrate_args lfs_migrate truthy is_natural number_of str_of_value str_of_int args
      arguments_of
  migrate_args-eq lfs_bin count = refl

  at_source : (info : StripeInfo) → is_elsewhere args info ≡ false → info.index ≡ pos s
  unfolding args arguments_of is_py_none equals number_of int_eq
  at_source info h = int_eq-eq info.index (pos s) (not-false _ h)

  not_at_target : (info : StripeInfo) → is_there args info ≡ false → info.index ≢ pos t
  unfolding args arguments_of is_py_none equals number_of
  not_at_target info h e = cc (subst (λ i. int_eq i (pos t) ≡ false) e h, int_eq_refl (pos t))

  -- What the file's stripes allow, and the command that then runs.
  abbrev pub Moves : Host → Commands → Type 0
  Moves host commands =
      (info : StripeInfo) × (stripes host filename ≡ ok info)
      × (info.index ≡ pos s)
      × (s ≢ t)
      × ((o.skip && exceeds info.count 1) ≡ false)
      × (commands ≡ lfs_migrate host.lfs_bin o.block t info.count filename ∷ [])

  -- The programs that were run: the stripes are read, and then the file is moved or is not.
  abbrev pub Executed : Host → Commands → Commands → Type 0
  Executed host c commands =
      (more : Commands) × (commands ≡ c ++ getstripe_args host.lfs_bin filename ∷ more)
      × ((more ≡ []) ⊎ Moves host more)

  tried :
      (host : Host) (c : Commands) (out : Result Report × Commands)
      → Tried host args filename (c ++ getstripe_args host.lfs_bin filename ∷ []) out
      → Executed host c out.1
  unfolding args arguments_of truthy
  tried host c out (inl (e, unread, told, at)) = ([], at, inl refl)
  tried host c out (inr (info, st, inl (at, told))) = ([], at, inl refl)
  tried host c out (inr (info, st, inr ((sk, el, th), at, told))) = (
    migrate_args host.lfs_bin filename args.target_idx args.block info.count ∷ [],
    at ∙ append_assoc c (getstripe_args host.lfs_bin filename ∷ []) _,
    inr (
      info,
      st,
      at_source info el,
      (λ e. not_at_target info th (at_source info el ∙ ap pos e)),
      sk,
      ap (λ l. l ∷ []) (migrate_args-eq host.lfs_bin info.count),
    ),
  )

  ran :
      (host : Host) (c : Commands) (out : Result Report × Commands)
      → is_nil filename ≡ false
      → Ran host args c out
      → Executed host c out.1
  ran host c out n (inl (e, at)) = absurd (e filename (check-Proper args filename (checked n)))
  ran host c out n (inr (f, e, h)) = tried host c out (
      subst (λ f. Tried host args f (c ++ getstripe_args host.lfs_bin f ∷ []) out)
        (cc (checked n, Proper-check args f e)) h)

  -- A worker that executes the migration of a named file from source `s` to target `t` first reads
  -- the stripes of the file. It runs at most one more program: `lfs migrate` of this file to `t`,
  -- with the skeleton's flag for blocking and the stripe count that was read. That is run only if
  -- the first stripe was read to be on `s`, `s` is not `t`, and the file has at most one
  -- stripe or the skeleton does not skip such files.
  pub execute-Executed :
      (host : Host) (c : Commands)
      → is_nil filename ≡ false
      → Executed host c (execute host (moving o s t filename) c).1
  unfolding execute args
  execute-Executed host c n = ran host c (migrate_file host args c) n (migrate_file-Ran host args c)
