-- ===== src/Task/Io/Alert/Erasure.antt =====
-- task/alert_io_task.py against task/io_task.py: but for the mails, both do the same.
use lustre_ost_performance_t.Base.{
  Bool, List, Option, Result, ap, err, false, ok, refl, true, ◌>>◌, ◌∙◌, ◌≡◌,
}
use lustre_ost_performance_t.Base.Exec.{Exec, resume, pure}
use lustre_ost_performance_t.Text.{Text}
use lustre_ost_performance_t.Lfs.Items.{is_ost_idx_active}
use lustre_ost_performance_t.Proxy.Csv.{OstPerfResult}
use lustre_ost_performance_t.Task.Io.{Payload, initialize_payload}
use lustre_ost_performance_t.Task.Io.Measuring.{
  Floats, Site, Bench, write_file, read_file, remove_file, auto_remove, result_of, read_back,
  write_and_read, measure_active, measure, deliver, execute_io,
}
use lustre_ost_performance_t.Task.Io.Alert.{
  AlertIoTask, Watched, AlertBench, Watch, run_timer, write_mail, read_mail, on_file, watched_write,
  watched_read, watched_back, watched_body, watched_remove, watched_active, watched_measure,
  execute_alert,
}

abbrev pub bench_of : AlertBench → Bench
bench_of b = record { file = b.file; sent = b.sent }

-- Without the mails, the first does what the second does.
abbrev pub Erases : {A : Type 0} → Exec Watched A → Exec (Option Text) A → Type 0
Erases m n = (w : Watched) → ((m w).0, (m w).1.file) ≡ n w.file

resume-Erases :
    {A B : Type 0} (r : Result A) (m : A → Exec Watched B) (n : A → Exec (Option Text) B)
    (w : Watched)
    → ((x : A) → Erases (m x) (n x))
    → ((resume r m w).0, (resume r m w).1.file) ≡ resume r n w.file
resume-Erases (err e) m n w h = refl
resume-Erases (ok x) m n w h = h x w

bind-Erases :
    {A B : Type 0} (m : Exec Watched A) (n : Exec (Option Text) A) (m' : A → Exec Watched B)
    (n' : A → Exec (Option Text) B)
    → Erases m n
    → ((x : A) → Erases (m' x) (n' x))
    → Erases (λ w. resume (m w).0 m' (m w).1) (λ f. resume (n f).0 n' (n f).1)
bind-Erases m n m' n' h k w =
    resume-Erases (m w).0 m' n' (m w).1 k ∙ ap (λ out. resume out.0 n' out.1) (h w)

on_file-Erases : {A : Type 0} (n : Exec (Option Text) A) → Erases (on_file n) n
unfolding on_file
on_file-Erases n w = refl

module _ {F : Type 0} (fl : Floats F) (a : AlertIoTask F) (site : Site F) (watch : Watch F) where
  run_timer-file :
      (late : Bool) (args : List Text) (w : Watched) → (run_timer a watch late args w).file ≡ w.file
  unfolding run_timer
  run_timer-file true args w = refl
  run_timer-file false args w = refl

  watched_write-Erases :
      (p : Payload) → Erases (watched_write fl a site watch p) (write_file fl a.io p site)
  unfolding watched_write
  watched_write-Erases p w =
      ap (λ f. ((on_file (write_file fl a.io p site) w).0, f))
        (run_timer-file watch.write_is_late (write_mail a site watch)
          (on_file (write_file fl a.io p site) w).1)
      ∙ on_file-Erases (write_file fl a.io p site) w

  watched_read-Erases : Erases (watched_read fl a site watch) (read_file fl a.io site)
  unfolding watched_read
  watched_read-Erases w =
      ap (λ f. ((on_file (read_file fl a.io site) w).0, f))
        (run_timer-file watch.read_is_late (read_mail a site watch)
          (on_file (read_file fl a.io site) w).1)
      ∙ on_file-Erases (read_file fl a.io site) w

  watched_back-Erases :
      (written : F × F)
      → Erases (watched_back fl a site watch written) (read_back fl a.io site written)
  unfolding watched_back read_back
  watched_back-Erases written =
      bind-Erases (watched_read fl a site watch) (read_file fl a.io site)
        (λ was_read. pure (result_of fl a.io site written was_read))
        (λ was_read. pure (result_of fl a.io site written was_read)) watched_read-Erases
        (λ x w. refl)

  watched_body-Erases :
      (p : Payload) → Erases (watched_body fl a site watch p) (write_and_read fl a.io p site)
  unfolding watched_body write_and_read
  watched_body-Erases p =
      let m : Exec Watched (OstPerfResult F) = λ w.
        resume (watched_write fl a site watch p w).0 (watched_back fl a site watch)
          (watched_write fl a site watch p w).1 in
      let n : Exec (Option Text) (OstPerfResult F) = λ f.
        resume (write_file fl a.io p site f).0 (read_back fl a.io site)
          (write_file fl a.io p site f).1 in
      bind-Erases (on_file (remove_file fl site)) (remove_file fl site)
        (λ u w. resume site.setstripe (λ out. m) w) (λ u f. resume site.setstripe (λ out. n) f)
        (on_file-Erases (remove_file fl site))
        (λ u w.
          resume-Erases site.setstripe (λ out. m) (λ out. n) w
            (λ out.
              bind-Erases (watched_write fl a site watch p) (write_file fl a.io p site)
                (watched_back fl a site watch) (read_back fl a.io site) (watched_write-Erases p)
                watched_back-Erases))

  watched_remove-Erases :
      (m : Exec Watched (OstPerfResult F)) (n : Exec (Option Text) (OstPerfResult F))
      → Erases m n
      → Erases (watched_remove fl a site watch m) (auto_remove fl site n)
  unfolding watched_remove auto_remove on_file
  watched_remove-Erases m n h w =
      ap (λ out. ((remove_file fl site out.1).0 >> out.0, (remove_file fl site out.1).1)) (h w)

  after_payload :
      (made : Result (Unit {0})) (p : Payload) (w : Watched)
      → let out = elim made as (λ r. Result (OstPerfResult F) × Watched) [
        | err e ↦ (err e, w)
        | ok u ↦ watched_remove fl a site watch (watched_body fl a site watch p) w
      ] in
        (out.0, out.1.file) ≡ elim made as (λ r. Result (OstPerfResult F) × Option Text) [
          | err e ↦ (err e, w.file)
          | ok u ↦ auto_remove fl site (write_and_read fl a.io p site) w.file
        ]
  after_payload (err e) p w = refl
  after_payload (ok u) p w =
      watched_remove-Erases (watched_body fl a site watch p) (write_and_read fl a.io p site)
        (watched_body-Erases p) w

  watched_measure-Erases :
      (active : Result Bool)
      → Erases (watched_measure fl a site watch active) (measure fl a.io site active)
  unfolding watched_measure measure watched_active measure_active
  watched_measure-Erases (err e) w = refl
  watched_measure-Erases (ok false) w = refl
  watched_measure-Erases (ok true) w =
      let made = initialize_payload a.io.block_size_bytes a.io.total_size_bytes a.io.payload in
      after_payload made.0 made.1 w

  -- Whatever the host does, and whether its timers run out or not, an `AlertIOTask` leaves the same
  -- file and sends the same line to the proxy as an `IOTask` with the same sizes, OST and endpoint.
  pub execute_alert-same :
      (b : AlertBench)
      → bench_of (execute_alert fl a site watch b).1 ≡ (execute_io fl a.io site (bench_of b)).1
  unfolding execute_alert execute_io
  execute_alert-same b =
      let active = is_ost_idx_active a.io.lfs_target a.io.ost_idx site.check_osts in
      ap (λ out. record { file = out.1; sent = deliver fl a.io site out.0 b.sent })
        (watched_measure-Erases active (record { file = b.file; mails = b.mails }))
