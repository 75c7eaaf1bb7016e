-- ===== src/Task/Io/Measuring/Sent.antt =====
-- task/io_task.py: what `execute` sends to the proxy, and what becomes of its file.
use lustre_ost_performance_t.Base.{
  Bool, List, Option, Result, [], ap, err, false, inl, inr, none, ok, refl, some, subst, sym, true,
  ◌++◌, ◌>>◌, ◌∷◌, ◌≡◌, ◌⊎◌,
}
use lustre_ost_performance_t.Base.Exec.{Exec, resume, pure}
use lustre_ost_performance_t.Text.{Text}
use lustre_ost_performance_t.Lfs.Items.{is_ost_idx_active}
use lustre_ost_performance_t.Proxy.Csv.{OstPerfResult, to_csv_list}
use lustre_ost_performance_t.Task.Io.{Payload, initialize_payload}
use lustre_ost_performance_t.Task.Io.Measuring.{
  IoTask, Floats, Site, Bench, write_file, read_file, remove_file, auto_remove, result_of,
  read_back, add_sent, write_and_read, measure_active, non_active, measure, send_result, deliver,
  execute_io,
}

module _ {F : Type 0} (fl : Floats F) (t : IoTask) (site : Site F) where
  -- A result names the OST and the size of the task.
  abbrev pub IsOf : Result (OstPerfResult F) → Type 0
  IsOf (err e) = Unit {0}
  IsOf (ok result) = (result.ost ≡ t.ost_idx) × (result.size ≡ t.total_size_bytes)

  -- At most one line was sent, of such a result.
  abbrev pub SentOne : List Text → List Text → Type 0
  SentOne sent sent' =
      (sent' ≡ sent)
      ⊎ ((result : OstPerfResult F) × IsOf (ok result)
          × (sent' ≡ sent ++ to_csv_list fl.rounded result ∷ []))

  add_sent-SentOne :
      (r : Result (Unit {0})) (result : OstPerfResult F) (sent : List Text)
      → IsOf (ok result)
      → SentOne sent (add_sent fl r (to_csv_list fl.rounded result) sent)
  unfolding add_sent
  add_sent-SentOne (ok u) result sent h = inr (result, h, refl)
  add_sent-SentOne (err e) result sent h = inl refl

  send_result-SentOne :
      (endpoint : Option Text) (result : OstPerfResult F) (sent : List Text)
      → IsOf (ok result)
      → SentOne sent (send_result fl endpoint site result sent)
  unfolding send_result
  send_result-SentOne none result sent h = inl refl
  send_result-SentOne (some endpoint) result sent h =
      add_sent-SentOne (site.send endpoint (to_csv_list fl.rounded result)) result sent h

  deliver-SentOne :
      (r : Result (OstPerfResult F)) (sent : List Text)
      → IsOf r
      → SentOne sent (deliver fl t site r sent)
  unfolding deliver
  deliver-SentOne (err e) sent h = inl refl
  deliver-SentOne (ok result) sent h = send_result-SentOne t.db_proxy_endpoint result sent h

  -- The file is gone, or the code did not come to it.
  abbrev pub Cleared : Option Text → Result (OstPerfResult F) × Option Text → Type 0
  Cleared file out = IsOf out.0 × ((out.1 ≡ none) ⊎ (out.1 ≡ file))

  remove_file-none :
      (file : Option Text) → site.can_remove ≡ true → remove_file fl site file ≡ (ok tt, none)
  unfolding remove_file
  remove_file-none none h = refl
  remove_file-none (some content) h = rw h refl

  auto_remove-eq :
      (body : Exec (Option Text) (OstPerfResult F)) (file : Option Text)
      → site.can_remove ≡ true
      → auto_remove fl site body file ≡ ((body file).0, none)
  unfolding auto_remove
  auto_remove-eq body file h =
      ap (λ out. (out.0 >> (body file).0, out.1)) (remove_file-none (body file).1 h)

  resume-IsOf :
      {A : Type 0} (r : Result A) (next : A → Exec (Option Text) (OstPerfResult F))
      (file : Option Text)
      → ((a : A) (file : Option Text) → IsOf (next a file).0)
      → IsOf (resume r next file).0
  resume-IsOf (err e) next file h = tt
  resume-IsOf (ok a) next file h = h a file

  read_back-IsOf :
      (written : F × F) (file : Option Text) → IsOf (read_back fl t site written file).0
  unfolding read_back result_of
  read_back-IsOf written file =
      resume-IsOf (read_file fl t site file).0 (λ r. pure (result_of fl t site written r))
        (read_file fl t site file).1 (λ r file. (refl, refl))

  write_and_read-IsOf :
      (p : Payload) (file : Option Text) → IsOf (write_and_read fl t p site file).0
  unfolding write_and_read
  write_and_read-IsOf p file =
      let write_part : Exec (Option Text) (OstPerfResult F) = λ f.
        resume (write_file fl t p site f).0 (read_back fl t site) (write_file fl t p site f).1 in
      let stripe_part : Exec (Option Text) (OstPerfResult F) =
        λ f. resume site.setstripe (λ out. write_part) f in
      resume-IsOf (remove_file fl site file).0 (λ u. stripe_part) (remove_file fl site file).1
        (λ u f.
          resume-IsOf site.setstripe (λ out. write_part) f
            (λ out f.
              resume-IsOf (write_file fl t p site f).0 (read_back fl t site)
                (write_file fl t p site f).1 read_back-IsOf))

  after_payload :
      (made : Result (Unit {0})) (p : Payload) (file : Option Text)
      → site.can_remove ≡ true
      → Cleared file (elim made as (λ m. Result (OstPerfResult F) × Option Text) [
        | err e ↦ (err e, file)
        | ok u ↦ auto_remove fl site (write_and_read fl t p site) file
      ])
  after_payload (err e) p file h = (tt, inr refl)
  after_payload (ok u) p file h =
      subst (Cleared file) (sym (auto_remove-eq (write_and_read fl t p site) file h))
        (write_and_read-IsOf p file, inl refl)

  measure-Cleared :
      (active : Result Bool) (file : Option Text)
      → site.can_remove ≡ true
      → Cleared file (measure fl t site active file)
  unfolding measure measure_active non_active
  measure-Cleared (err e) file h = (tt, inr refl)
  measure-Cleared (ok false) file h = ((refl, refl), inr refl)
  measure-Cleared (ok true) file h =
      let (made, p) = initialize_payload t.block_size_bytes t.total_size_bytes t.payload in
      after_payload made p file h

  -- Whatever fails, if the file can be removed: an `execute` sends at most one line, of a result
  -- that names the OST and the total size of the task, and afterwards the file is gone, or it is
  -- what it was.
  pub execute_io-Sent :
      (b : Bench)
      → site.can_remove ≡ true
      → SentOne b.sent (execute_io fl t site b).1.sent
        × (((execute_io fl t site b).1.file ≡ none) ⊎ ((execute_io fl t site b).1.file ≡ b.file))
  unfolding execute_io
  execute_io-Sent b h =
      let active = is_ost_idx_active t.lfs_target t.ost_idx site.check_osts in
      let (of_task, cleared) = measure-Cleared active b.file h in
      (deliver-SentOne (measure fl t site active b.file).0 b.sent of_task, cleared)
