-- ===== src/Task/Io/Measuring.antt =====
-- task/io_task.py: the class `IOTask` and its `execute`, with util/auto_remove_file.py. The clock and
-- the arithmetic on its times, the file system and the connection to the proxy are parameters.
pub mod Sent
use lustre_ost_performance_t.Base.{
  Bool, List, Option, Result, [], err, false, if◌then◌else◌, is_nil, none, not, ok, os_error,
  raise_if, runtime_error, some, true, ◌&&◌, ◌++◌, ◌>>=◌, ◌>>◌, ◌||◌, ◌∷◌,
}
use lustre_ost_performance_t.Base.Exec.{Exec, pure, lift}
use lustre_ost_performance_t.Base.Exec
use lustre_ost_performance_t.Text.{Text, codes, text_eq}
use lustre_ost_performance_t.Text.Number.{ℤ, int_of}
use lustre_ost_performance_t.Lfs.Items.{is_ost_idx_active}
use lustre_ost_performance_t.Proxy.Csv.{OstPerfResult, to_csv_list}
use lustre_ost_performance_t.Task.Io.{
  Payload, initialize_payload, Disk, write_to_file, read_from_file,
}

pub record IoTask : Type 0 where
  pub ost_idx : Text
  pub block_size_bytes : ℤ
  pub total_size_bytes : ℤ
  pub write_file_sync : Text
  pub target_dir : Text
  pub lfs_bin : Text
  pub lfs_target : Text
  pub db_proxy_endpoint : Option Text
  pub payload : Payload

-- `f"tcp://{target}:{port}"`, if both are set
unfoldable pub endpoint_of : Text → Text → Option Text
endpoint_of db_proxy_target db_proxy_port =
    if not (is_nil db_proxy_target) && not (is_nil db_proxy_port)
    then some (codes "tcp://" ++ (db_proxy_target ++ b':' ∷ db_proxy_port))
    else none

abbrev pub is_on_or_off : Text → Bool
is_on_or_off s = text_eq s (codes "on") || text_eq s (codes "off")

-- `__init__`, with `os.path.isfile` for `LFSUtils`
unfoldable pub new_io_task :
    (Text → Bool) → Text → Text → Text → Text → Text → Text → Text → Text → Text → Result IoTask
unfolding endpoint_of
new_io_task is_file ost_idx block_size_bytes total_size_bytes write_file_sync target_dir lfs_bin
      lfs_target db_proxy_target db_proxy_port =
    do
      block_size ← int_of block_size_bytes
      total_size ← int_of total_size_bytes
      raise_if (not (is_file lfs_bin)) runtime_error
      raise_if (not (is_on_or_off write_file_sync)) runtime_error
      ok (record {
        ost_idx = ost_idx;
        block_size_bytes = block_size;
        total_size_bytes = total_size;
        write_file_sync = write_file_sync;
        target_dir = target_dir;
        lfs_bin = lfs_bin;
        lfs_target = lfs_target;
        db_proxy_endpoint = endpoint_of db_proxy_target db_proxy_port;
        payload = record { payload_block = []; payload_rest_block = [] };
      })

-- What is done with times in milliseconds: `(end - start) / 1000.0`, the test of a duration, and the
-- quotient of a size and a duration.
pub record Floats (F : Type 0) : Type 0 where
  pub zero_value : F
  pub minus_one : F
  pub duration_of : F → F → F
  pub is_set : F → Bool
  pub per : ℤ → F → F
  pub rounded : F → ℤ

-- What one `execute` meets.
pub record Site (F : Type 0) : Type 0 where
  pub check_osts : Result Text
  pub setstripe : Result Text
  pub disk : Disk
  pub can_remove : Bool
  pub timestamp : Text
  pub write_timestamp : Text
  pub read_timestamp : Text
  pub write_times : F × F
  pub read_times : F × F
  pub send : Text → Text → Result (Unit {0})

-- The file of the task, and what was sent to the proxy.
pub record Bench : Type 0 where
  pub file : Option Text
  pub sent : List Text

module _ {F : Type 0} (fl : Floats F) where
  -- `duration` and `throughput`
  unfoldable pub measured : ℤ → F × F → F × F
  measured total_size (start_time, end_time) =
      let duration = fl.duration_of start_time end_time in
      (duration, if fl.is_set duration then fl.per total_size duration else fl.zero_value)

  -- `except Exception: return tuple((-1, -1))`
  unfoldable pub or_minus_one : F × F → Result (Unit {0}) → F × F
  or_minus_one values (ok u) = values
  or_minus_one values (err e) = (fl.minus_one, fl.minus_one)

  unfoldable pub write_file : IoTask → Payload → Site F → Exec (Option Text) (F × F)
  unfolding or_minus_one measured
  write_file t p site file =
      let (r, file) =
        write_to_file site.disk t.block_size_bytes t.total_size_bytes p t.write_file_sync file in
      (ok (or_minus_one (measured t.total_size_bytes site.write_times) r), file)

  unfoldable pub read_file : IoTask → Site F → Exec (Option Text) (F × F)
  unfolding or_minus_one measured
  read_file t site file = (
    ok (
        or_minus_one (measured t.total_size_bytes site.read_times)
          (read_from_file site.disk t.block_size_bytes t.total_size_bytes file)),
    file,
  )

  -- `if os.path.exists(file_path): os.remove(file_path)`
  unfoldable pub remove_file : Site F → Exec (Option Text) (Unit {0})
  remove_file site none = (ok tt, none)
  remove_file site (some content) =
      if site.can_remove then (ok tt, none) else (err os_error, some content)

  -- `with AutoRemoveFile(file_path)`: what is raised when the file is removed stands in place of what
  -- the body raised
  unfoldable pub auto_remove : {A : Type 0} → Site F → Exec (Option Text) A → Exec (Option Text) A
  unfolding remove_file
  auto_remove site body file =
      let (r, file) = body file in
      let (removed, file) = remove_file site file in (removed >> r, file)

  unfoldable pub result_of : IoTask → Site F → F × F → F × F → OstPerfResult F
  result_of t site written was_read = record {
    read_timestamp = site.read_timestamp;
    write_timestamp = site.write_timestamp;
    ost = t.ost_idx;
    size = t.total_size_bytes;
    read_throughput = was_read.1;
    write_throughput = written.1;
    read_duration = was_read.0;
    write_duration = written.0;
  }

  unfoldable pub read_back : IoTask → Site F → F × F → Exec (Option Text) (OstPerfResult F)
  unfolding read_file result_of
  read_back t site written =
      Exec.◌>>=◌ (read_file t site) λ was_read. pure (result_of t site written was_read)

  unfoldable pub write_and_read : IoTask → Payload → Site F → Exec (Option Text) (OstPerfResult F)
  unfolding write_file read_back remove_file
  write_and_read t p site =
      Exec.◌>>◌ (remove_file site)
        (Exec.◌>>◌ (lift site.setstripe) (Exec.◌>>=◌ (write_file t p site) (read_back t site)))

  unfoldable pub measure_active : IoTask → Site F → Exec (Option Text) (OstPerfResult F)
  unfolding write_and_read auto_remove
  measure_active t site file =
      let (made, p) = initialize_payload t.block_size_bytes t.total_size_bytes t.payload in
      let done = auto_remove site (write_and_read t p site) file in
      elim made [ err e ↦ (err e, file) | ok u ↦ done ]

  unfoldable pub non_active : IoTask → Site F → OstPerfResult F
  non_active t site = record {
    read_timestamp = site.timestamp;
    write_timestamp = site.timestamp;
    ost = t.ost_idx;
    size = t.total_size_bytes;
    read_throughput = fl.zero_value;
    write_throughput = fl.zero_value;
    read_duration = fl.zero_value;
    write_duration = fl.zero_value;
  }

  unfoldable pub measure : IoTask → Site F → Result Bool → Exec (Option Text) (OstPerfResult F)
  unfolding measure_active non_active
  measure t site (err e) = lift (err e)
  measure t site (ok true) = measure_active t site
  measure t site (ok false) = pure (non_active t site)

  unfoldable pub add_sent : Result (Unit {0}) → Text → List Text → List Text
  add_sent (ok u) line sent = sent ++ line ∷ []
  add_sent (err e) line sent = sent

  -- `if self.db_proxy_endpoint`
  unfoldable pub send_result : Option Text → Site F → OstPerfResult F → List Text → List Text
  unfolding add_sent
  send_result none site result sent = sent
  send_result (some endpoint) site result sent =
      let line = to_csv_list fl.rounded result in add_sent (site.send endpoint line) line sent

  unfoldable pub deliver : IoTask → Site F → Result (OstPerfResult F) → List Text → List Text
  unfolding send_result
  deliver t site (err e) sent = sent
  deliver t site (ok result) sent = send_result t.db_proxy_endpoint site result sent

  -- `execute`: an exception is logged
  unfoldable pub execute_io : IoTask → Site F → Exec Bench (Unit {0})
  unfolding measure deliver
  execute_io t site b =
      let active = is_ost_idx_active t.lfs_target t.ost_idx site.check_osts in
      let (r, file) = measure t site active b.file in
      (ok tt, record { file = file; sent = deliver t site r b.sent })
