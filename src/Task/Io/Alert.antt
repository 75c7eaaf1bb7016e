-- ===== src/Task/Io/Alert.antt =====
-- task/alert_io_task.py: an `IOTask` that sends a mail when writing or reading takes longer than a
-- threshold. Whether a timer runs out before it is cancelled, the mail server, `float(s)` and `str`
-- of a float are parameters.
pub mod Erasure
use lustre_ost_performance_t.Base.{
  Bool, List, Option, Result, [], err, false, if◌then◌else◌, none, ok, runtime_error, some, true,
  ◌++◌, ◌==◌, ◌>>=◌, ◌>>◌, ◌∷◌,
}
use lustre_ost_performance_t.Base.Exec.{Exec, pure, lift}
use lustre_ost_performance_t.Base.Exec
use lustre_ost_performance_t.Text.{Text, codes, split}
use lustre_ost_performance_t.Lfs.{str_of_int}
use lustre_ost_performance_t.Lfs.Items.{is_ost_idx_active}
use lustre_ost_performance_t.Proxy.Csv.{OstPerfResult}
use lustre_ost_performance_t.Task.Io.{Payload, initialize_payload}
use lustre_ost_performance_t.Task.Io.Measuring.{
  IoTask, Floats, Site, write_file, read_file, remove_file, result_of, non_active, deliver,
}

pub record AlertIoTask (F : Type 0) : Type 0 where
  pub io : IoTask
  pub mail_server : Text
  pub mail_sender : Text
  pub mail_receiver : Text
  pub mail_threshold : F
  pub mail_receiver_list : List Text

-- `s.replace(' ', '')`
unfoldable pub without_spaces : Text → Text
without_spaces [] = []
without_spaces (c ∷ s) = let rest = without_spaces s in if c == b' ' then rest else c ∷ rest

unfoldable pub receivers_of : Text → List Text
receivers_of mail_receiver = split b',' (without_spaces mail_receiver)

-- `', '.join(receivers)`
unfoldable pub join_receivers : List Text → Text
join_receivers [] = []
join_receivers (r ∷ []) = r
join_receivers (r ∷ q ∷ rs) = r ++ (codes ", " ++ join_receivers (q ∷ rs))

-- A message with its headers, and the list that it is sent to.
pub record Mail : Type 0 where
  pub subject : Text
  pub from : Text
  pub to : Text
  pub text : Text
  pub receivers : List Text

-- The file of the task, and the mails that were sent.
pub record Watched : Type 0 where
  pub file : Option Text
  pub mails : List Mail

pub record AlertBench : Type 0 where
  pub file : Option Text
  pub sent : List Text
  pub mails : List Mail

unfoldable pub add_mail : Result (Unit {0}) → Mail → List Mail → List Mail
add_mail (ok u) mail mails = mails ++ mail ∷ []
add_mail (err e) mail mails = mails

-- What else one `execute` meets.
pub record Watch (F : Type 0) : Type 0 where
  pub write_is_late : Bool
  pub read_is_late : Bool
  pub sendmail : Text → Mail → Result (Unit {0})
  pub show : F → Text

module _ {F : Type 0} where
  unfoldable pub new_alert_io_task :
      (Text → Result F)
      → (Text → Result IoTask)
      → Text
      → Text
      → Text
      → Text
      → Text
      → Result (AlertIoTask F)
  new_alert_io_task float_of super_init ost_idx mail_server mail_sender mail_receiver
        mail_threshold =
      do
        io ← super_init ost_idx
        threshold ← float_of mail_threshold
        ok (record {
          io = io;
          mail_server = mail_server;
          mail_sender = mail_sender;
          mail_receiver = mail_receiver;
          mail_threshold = threshold;
          mail_receiver_list = receivers_of mail_receiver;
        })

  unfoldable pub mail_of : AlertIoTask F → Text → Text → Mail
  mail_of a subject text = record {
    subject = subject;
    from = a.mail_sender;
    to = join_receivers a.mail_receiver_list;
    text = text;
    receivers = a.mail_receiver_list;
  }

  -- `_send_mail`
  unfoldable pub send_mail :
      AlertIoTask F → Watch F → Option (List Text) → Exec (List Mail) (Unit {0})
  unfolding mail_of add_mail
  send_mail a watch none mails = (err runtime_error, mails)
  send_mail a watch (some (subject ∷ text ∷ [])) mails =
      let mail = mail_of a subject text in
      let r = watch.sendmail a.mail_server mail in (r, add_mail r mail mails)
  send_mail a watch (some args) mails = (err runtime_error, mails)

  -- The thread of a timer; what it raises ends the thread only.
  unfoldable pub run_timer : AlertIoTask F → Watch F → Bool → List Text → Watched → Watched
  unfolding send_mail
  run_timer a watch late args w =
      let mails = (send_mail a watch (some args) w.mails).1 in
      if late then record w { mails = mails } else w

  unfoldable pub write_mail : AlertIoTask F → Site F → Watch F → List Text
  write_mail a site watch =
      (codes "[LUSTRE Monitoring] OST Write Performance Degradation Detected: " ++ a.io.ost_idx)
      ∷ (codes "Timestamp: "
          ++ (site.write_timestamp
              ++ (codes "\nOST: "
                  ++ (a.io.ost_idx
                      ++ (codes "\n\nAlert Threshold: "
                          ++ (watch.show a.mail_threshold
                              ++ (codes "s\nTotal Size: "
                                  ++ (str_of_int a.io.total_size_bytes
                                      ++ (codes "\nBlock Size: "
                                          ++ (str_of_int a.io.block_size_bytes
                                              ++ (codes "\nSync Flag: "
                                                  ++ (a.io.write_file_sync ++ codes "\n"))))))))))))
      ∷ []

  unfoldable pub read_mail : AlertIoTask F → Site F → Watch F → List Text
  read_mail a site watch =
      (codes "[LUSTRE Monitoring] OST Read Performance Degradation Detected: " ++ a.io.ost_idx)
      ∷ (codes "OST-IDX: "
          ++ (a.io.ost_idx
              ++ (codes "\nTimestamp: "
                  ++ (site.write_timestamp
                      ++ (codes "\nAlert Threshold: "
                          ++ (watch.show a.mail_threshold ++ codes "s"))))))
      ∷ []

-- What changes the file only.
unfoldable pub on_file : {A : Type 0} → Exec (Option Text) A → Exec Watched A
on_file m w = let (r, file) = m w.file in (r, record w { file = file })

module _ {F : Type 0} (fl : Floats F) (a : AlertIoTask F) (site : Site F) (watch : Watch F) where
  unfoldable pub watched_write : Payload → Exec Watched (F × F)
  unfolding on_file run_timer write_mail
  watched_write p w =
      let (r, w) = on_file (write_file fl a.io p site) w in
      (r, run_timer a watch watch.write_is_late (write_mail a site watch) w)

  unfoldable pub watched_read : Exec Watched (F × F)
  unfolding on_file run_timer read_mail
  watched_read w =
      let (r, w) = on_file (read_file fl a.io site) w in
      (r, run_timer a watch watch.read_is_late (read_mail a site watch) w)

  unfoldable pub watched_back : F × F → Exec Watched (OstPerfResult F)
  unfolding watched_read
  watched_back written =
      Exec.◌>>=◌ watched_read λ was_read. pure (result_of fl a.io site written was_read)

  unfoldable pub watched_body : Payload → Exec Watched (OstPerfResult F)
  unfolding watched_write watched_back on_file
  watched_body p =
      Exec.◌>>◌ (on_file (remove_file fl site))
        (Exec.◌>>◌ (lift site.setstripe) (Exec.◌>>=◌ (watched_write p) watched_back))

  unfoldable pub watched_remove : Exec Watched (OstPerfResult F) → Exec Watched (OstPerfResult F)
  unfolding on_file
  watched_remove body w =
      let (r, w) = body w in let (removed, w) = on_file (remove_file fl site) w in (removed >> r, w)

  unfoldable pub watched_active : Exec Watched (OstPerfResult F)
  unfolding watched_body watched_remove
  watched_active w =
      let (made, p) = initialize_payload a.io.block_size_bytes a.io.total_size_bytes a.io.payload in
      let done = watched_remove (watched_body p) w in elim made [ err e ↦ (err e, w) | ok u ↦ done ]

  unfoldable pub watched_measure : Result Bool → Exec Watched (OstPerfResult F)
  unfolding watched_active
  watched_measure (err e) = lift (err e)
  watched_measure (ok true) = watched_active
  watched_measure (ok false) = pure (non_active fl a.io site)

  -- `execute`
  unfoldable pub execute_alert : Exec AlertBench (Unit {0})
  unfolding watched_measure
  execute_alert b =
      let active = is_ost_idx_active a.io.lfs_target a.io.ost_idx site.check_osts in
      let (r, w) = watched_measure active (record { file = b.file; mails = b.mails }) in
      (ok tt, record { file = w.file; sent = deliver fl a.io site r b.sent; mails = w.mails })
