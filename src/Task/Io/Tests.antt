-- ===== src/Task/Io/Tests.antt =====
-- Concrete runs of the tasks with a payload.
use lustre_ost_performance_t.Base.{
  [], arith, false, none, not, ok, refl, some, true, ℕ, ◌-◌, ◌==◌, ◌∷◌, ◌≡◌, ◌⊎◌,
}
use lustre_ost_performance_t.Text.{codes}
use lustre_ost_performance_t.Text.Number.{pos}
use lustre_ost_performance_t.Task.Io.{Disk, read_loop, initialize_payload, write_to_file}
use lustre_ost_performance_t.Task.Io.Transfer.{AllWork, fresh}
use lustre_ost_performance_t.Task.Io.Reading.{Ends, Restored, read_loop-Ends, written_is_read}
use lustre_ost_performance_t.Task.Io.Measuring.{IoTask, Floats, Site, Bench, execute_io}
use lustre_ost_performance_t.Task.Io.Measuring.Sent.{SentOne, execute_io-Sent}
use lustre_ost_performance_t.Task.Io.Alert.{AlertIoTask, AlertBench, Watch, execute_alert}
use lustre_ost_performance_t.Task.Io.Alert.Erasure.{bench_of, execute_alert-same}

abbrev disk : Disk
disk = record {
  can_create = true;
  can_write = λ i. true;
  can_sync = true;
  can_open = true;
  can_read = λ i. true;
}

disk-AllWork : AllWork disk
disk-AllWork = (refl, (λ i. refl), refl, refl, (λ i. refl))

-- 7 characters in blocks of 3
written_is_read_example :
    ((initialize_payload (pos 3) (pos 7) fresh).0 ≡ ok tt)
    × Restored disk 2 7 (
        write_to_file disk
          (pos 3)
          (pos 7)
          (initialize_payload (pos 3) (pos 7) fresh).1
          (codes "on")
          none)
written_is_read_example = written_is_read disk 2 7 (codes "on") none disk-AllWork

read_loop-Ends_example :
    Ends disk (pos 2) 4 0 (codes "AAA") (read_loop disk 4 (pos 2) 0 (codes "AAA") 0)
read_loop-Ends_example = read_loop-Ends disk 4 (pos 2) 0 (codes "AAA") 0 (omega arith)

-- Times and values that are whole numbers.
abbrev floats : Floats ℕ
floats = record {
  zero_value = 0;
  minus_one = 0;
  duration_of = λ a b. b - a;
  is_set = λ d. not (d == 0);
  per = λ size d. 1;
  rounded = pos;
}

abbrev task : IoTask
task = record {
  ost_idx = codes "31";
  block_size_bytes = pos 3;
  total_size_bytes = pos 7;
  write_file_sync = codes "on";
  target_dir = codes "/lustre/t";
  lfs_bin = codes "/usr/bin/lfs";
  lfs_target = codes "hebe";
  db_proxy_endpoint = some (codes "tcp://node1:5555");
  payload = fresh;
}

abbrev site : Site ℕ
site = record {
  check_osts = ok (codes "hebe-OST001f-osc-ffff8804 active.\n");
  setstripe = ok [];
  disk = disk;
  can_remove = true;
  timestamp = codes "10:00:00";
  write_timestamp = codes "10:00:00";
  read_timestamp = codes "10:00:05";
  write_times = (0, 5);
  read_times = (5, 7);
  send = λ endpoint line. ok tt;
}

abbrev empty_bench : Bench
empty_bench = record { file = none; sent = [] }

execute_io-Sent_example :
    SentOne floats task site [] (execute_io floats task site empty_bench).1.sent
    × (((execute_io floats task site empty_bench).1.file ≡ none)
        ⊎ ((execute_io floats task site empty_bench).1.file ≡ none))
execute_io-Sent_example = execute_io-Sent floats task site empty_bench refl

abbrev alert_task : AlertIoTask ℕ
alert_task = record {
  io = task;
  mail_server = codes "smtp";
  mail_sender = codes "cyclone";
  mail_receiver = codes "a, b";
  mail_threshold = 4;
  mail_receiver_list = codes "a" ∷ codes "b" ∷ [];
}

abbrev watch : Watch ℕ
watch = record {
  write_is_late = true;
  read_is_late = false;
  sendmail = λ server mail. ok tt;
  show = λ d. codes "4";
}

abbrev empty_alert_bench : AlertBench
empty_alert_bench = record { file = none; sent = []; mails = [] }

execute_alert-same_example :
    bench_of (execute_alert floats alert_task site watch empty_alert_bench).1
    ≡ (execute_io floats task site (bench_of empty_alert_bench)).1
execute_alert-same_example = execute_alert-same floats alert_task site watch empty_alert_bench
