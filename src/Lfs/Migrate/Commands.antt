-- ===== src/Lfs/Migrate/Commands.antt =====
-- lfs/lfs_utils.py: which programs `migrate_file` runs, and what it reports.
use lustre_ost_performance_t.Base.{
  Bool, Error, List, Result, [], err, false, if◌then◌else◌, inl, inr, ok, refl, runtime_error,
  subst, sym, true, ◌++◌, ◌>>=◌, ◌∷◌, ◌≡◌, ◌⊎◌,
}
use lustre_ost_performance_t.Base.Exec.{resume, pure}
use lustre_ost_performance_t.Text.{Text}
use lustre_ost_performance_t.Lfs.Migrate.{
  StripeInfo, Report, skipped, ignored, success, Commands, Arguments, stripe_of, Host, call,
  getstripe_args, stripe_info, migrate_args, is_skipped, is_elsewhere, is_there, move_file,
  process_file, caught_failure, try_migrate, migrate_file,
}
use lustre_ost_performance_t.Lfs.Migrate.Proper.{IsProper, arguments_cases}

-- Nothing in the stripes of the file keeps it where it is.
abbrev pub MayMove : Arguments → StripeInfo → Type 0
MayMove a info =
    (is_skipped a info ≡ false) × (is_elsewhere a info ≡ false) × (is_there a info ≡ false)

module _ (host : Host) where
  -- What `lfs getstripe` tells of the file.
  abbrev pub stripes : Text → Result StripeInfo
  stripes filename =
      host.run (getstripe_args host.lfs_bin filename) >>= λ out. host.safe_load out >>= stripe_of

  abbrev pub migrate_command : Text → Arguments → StripeInfo → List Text
  migrate_command filename a info =
      migrate_args host.lfs_bin filename a.target_idx a.block info.count

  -- The report on a file, whose move gave `r`.
  abbrev pub Moved : Text → Arguments → StripeInfo → Commands → Result Report × Commands → Type 0
  Moved filename a info s out =
      MayMove a info
      × (out.1 ≡ s ++ migrate_command filename a info ∷ [])
      × (out.0
          ≡ caught_failure filename (
              host.run (migrate_command filename a info) >>= λ t.
              ok (success filename info.index a.target_idx)))

  abbrev pub Stayed : Text → Arguments → StripeInfo → Commands → Result Report × Commands → Type 0
  Stayed filename a info s out =
      (out.1 ≡ s)
      × ((is_skipped a info ≡ true) × (out.0 ≡ ok (skipped filename))
          ⊎ (is_skipped a info ≡ false)
            × ((is_elsewhere a info ≡ true) ⊎ (is_there a info ≡ true))
            × (out.0 ≡ ok (ignored filename)))

  resume-pure :
      {A B : Type 0} (r : Result A) (f : A → Result B) (s : Commands)
      → resume r (λ t. λ s'. (f t, s')) s ≡ (r >>= f, s)
  resume-pure (ok t) f s = refl
  resume-pure (err e) f s = refl

  move_file-eq :
      (filename : Text) (a : Arguments) (info : StripeInfo) (s : Commands)
      → move_file host filename a info s ≡ (
        (host.run (migrate_command filename a info) >>= λ t.
            ok (success filename info.index a.target_idx)),
        s ++ migrate_command filename a info ∷ [],
      )
  unfolding move_file call
  move_file-eq filename a info s =
      resume-pure (host.run (migrate_command filename a info))
        (λ t. ok (success filename info.index a.target_idx)) _

  abbrev pub Judged : Text → Arguments → StripeInfo → Commands → Result Report × Commands → Type 0
  Judged filename a info s out = Stayed filename a info s out ⊎ Moved filename a info s out

  abbrev catching : Text → Result Report × Commands → Result Report × Commands
  catching filename (r, s) = (caught_failure filename r, s)

  move_file-Judged :
      (filename : Text) (a : Arguments) (info : StripeInfo) (s : Commands)
      → MayMove a info
      → Judged filename a info s (catching filename (move_file host filename a info s))
  move_file-Judged filename a info s h =
      subst (λ out. Judged filename a info s (catching filename out))
        (sym (move_file-eq filename a info s)) (inr (h, refl, refl))

  -- The three tests, by their outcomes.
  tests_Judged :
      (filename : Text) (a : Arguments) (info : StripeInfo) (s : Commands) (b b' b'' : Bool)
      → is_skipped a info ≡ b
      → is_elsewhere a info ≡ b'
      → is_there a info ≡ b''
      → Judged filename a info s (
          catching filename (
            (if b
                then pure (skipped filename)
                else if b'
                then pure (ignored filename)
                else if b''
                then pure (ignored filename)
                else move_file host filename a info)
              s))
  unfolding caught_failure
  tests_Judged filename a info s true b' b'' e e' e'' = inl (refl, inl (e, refl))
  tests_Judged filename a info s false true b'' e e' e'' = inl (refl, inr (e, inl e', refl))
  tests_Judged filename a info s false false true e e' e'' = inl (refl, inr (e, inr e'', refl))
  tests_Judged filename a info s false false false e e' e'' =
      move_file-Judged filename a info s (e, e', e'')

  process_file-Judged :
      (filename : Text) (a : Arguments) (info : StripeInfo) (s : Commands)
      → Judged filename a info s (catching filename (process_file host filename a info s))
  unfolding process_file
  process_file-Judged filename a info s = tests_Judged filename a info s _ _ _ refl refl refl

  -- The stripes could not be read: a failure of the program is reported, any other error is raised.
  abbrev pub Unread : Text → Commands → Result Report × Commands → Type 0
  Unread filename s out =
      (e : Error) × (stripes filename ≡ err e)
      × (out.0 ≡ caught_failure filename (err e))
      × (out.1 ≡ s)

  abbrev pub Tried : Arguments → Text → Commands → Result Report × Commands → Type 0
  Tried a filename s out =
      Unread filename s out
      ⊎ ((info : StripeInfo) × (stripes filename ≡ ok info) × Judged filename a info s out)

  stripe_info-eq :
      (filename : Text) (s : Commands)
      → stripe_info host filename s
        ≡ (stripes filename, s ++ getstripe_args host.lfs_bin filename ∷ [])
  unfolding stripe_info call
  stripe_info-eq filename s = resume-pure (host.run (getstripe_args host.lfs_bin filename)) _ _

  after_stripes :
      (filename : Text) (a : Arguments) (s : Commands) (r : Result StripeInfo)
      → stripes filename ≡ r
      → Tried a filename s (catching filename (resume r (process_file host filename a) s))
  after_stripes filename a s (err e) h = inl (e, h, refl, refl)
  after_stripes filename a s (ok info) h = inr (info, h, process_file-Judged filename a info s)

  try_migrate-Tried :
      (filename : Text) (a : Arguments) (s : Commands)
      → Tried a filename
          (s ++ getstripe_args host.lfs_bin filename ∷ [])
          (try_migrate host filename a s)
  unfolding try_migrate
  try_migrate-Tried filename a s =
      subst
        (λ out.
          Tried a filename (s ++ getstripe_args host.lfs_bin filename ∷ [])
            (catching filename (resume out.0 (process_file host filename a) out.1)))
        (sym (stripe_info-eq filename s))
        (after_stripes filename a (s ++ getstripe_args host.lfs_bin filename ∷ [])
          (stripes filename) refl)

  -- What a call with these arguments does: wrong arguments are refused and nothing is run; else the
  -- stripes of the file are read.
  abbrev pub Ran : Arguments → Commands → Result Report × Commands → Type 0
  Ran a s out =
      (((filename : Text) → ¬ IsProper a filename) × (out ≡ (err runtime_error, s)))
      ⊎ ((filename : Text) × IsProper a filename
          × Tried a filename (s ++ getstripe_args host.lfs_bin filename ∷ []) out)

  -- `migrate_file` refuses its arguments with a RuntimeError and runs nothing exactly if they are not
  -- proper: a file name that is a text and not empty, a source that is a number or none, a target that
  -- is a number (a bool is one), and flags that are bools or have no truth. Else it runs `lfs
  -- getstripe` on the file. If the stripes cannot be read it runs nothing more, reports the failure
  -- of the program and raises any other error. If they can, it reports exactly the files with
  -- several stripes that are to be skipped as skipped, and of the others exactly those that are
  -- not on the given source or are on the target as ignored, and runs nothing more; for every other
  -- file it runs `lfs migrate` once, with the arguments of `migrate_args`, and reports success or
  -- the program's failure, and raises any other error.
  pub migrate_file-Ran : (a : Arguments) (s : Commands) → Ran a s (migrate_file host a s)
  unfolding migrate_file
  migrate_file-Ran a s = elim (arguments_cases a) [
    | inl (e, refused) ↦ rw e (inl (refused, refl))
    | inr (t, h, e) ↦ rw e (inr (t, h, try_migrate-Tried t a s))
  ]
