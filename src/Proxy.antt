-- ===== src/Proxy.antt =====
-- cyclone-database-proxy.py and db/ost_perf_history_table_handler.py: the proxy collects results
-- that the tasks push to it, and inserts them into a table in batches. The database is a parameter;
-- the statements that it executed stand in the state.
pub mod Results
pub mod Batches
pub mod Bounds
pub mod Csv
pub mod Rows
mod Tests
use lustre_ost_performance_t.Base.{
  Bool, List, Result, [], err, if◌then◌else◌, is_nil, leb, length, not, ok, runtime_error, ℕ, ◌&&◌,
  ◌++◌, ◌+◌, ◌==◌, ◌>>◌, ◌||◌, ◌∷◌,
}
use lustre_ost_performance_t.Base.Exec.{Exec}
use lustre_ost_performance_t.Base.Exec
use lustre_ost_performance_t.Text.{Text, codes}

-- What the configuration gives.
pub record ProxyConfig : Type 0 where
  pub table : Text
  pub store_timeout : ℕ
  pub store_max_count : ℕ

-- The list of the table handler, the variable of `main`, and what the database executed.
pub record Proxy : Type 0 where
  pub ost_perf_result_list : List Text
  pub last_store_timestamp : ℕ
  pub statements : List Text

-- What one pass of the loop meets: the time, the data that `recv_string` gives (none on a timeout),
-- the number of rows that the database says it inserted, or the exception that it raises before
-- it inserts anything, and the time after a store.
pub record Round : Type 0 where
  pub last_exec_timestamp : ℕ
  pub recv_data : Text
  pub database : Text → Result ℕ
  pub time_after_store : ℕ

unfoldable pub insert : Text → Exec Proxy (Unit {0})
insert result p =
    if is_nil result
    then (err runtime_error, p)
    else (ok tt, record p { ost_perf_result_list = p.ost_perf_result_list ++ result ∷ [] })

unfoldable pub count : Proxy → ℕ
count p = length p.ost_perf_result_list

unfoldable pub clear : Exec Proxy (Unit {0})
clear p = (ok tt, record p { ost_perf_result_list = [] })

unfoldable pub sql_head : Text → Text
sql_head table =
    codes "INSERT INTO "
    ++ (table
        ++ codes
            "(read_timestamp, write_timestamp, ost, size, read_throughput, write_throughput, read_duration, write_duration) VALUES ")

-- `for i in range(1, len): sql += ",(" + results[i] + ")"`
unfoldable pub append_values : Text → List Text → Text
append_values sql [] = sql
append_values sql (result ∷ results) =
    append_values (sql ++ (codes ",(" ++ (result ++ codes ")"))) results

unfoldable pub store_sql : Text → List Text → Text
store_sql table [] = sql_head table
store_sql table (result ∷ results) =
    append_values (sql_head table ++ (codes "(" ++ (result ++ codes ")"))) results

-- What `store` does behind `cur.execute`.
unfoldable pub check_rowcount : Text → Result ℕ → Exec Proxy (Unit {0})
check_rowcount sql (err e) p = (err e, p)
check_rowcount sql (ok rowcount) p =
    let p' = record p { statements = p.statements ++ sql ∷ [] } in
    if rowcount == count p then (ok tt, p') else (err runtime_error, p')

module _ (cfg : ProxyConfig) where
  unfoldable pub store : (Text → Result ℕ) → Exec Proxy (Unit {0})
  store database p =
      let sql = store_sql cfg.table p.ost_perf_result_list in check_rowcount sql (database sql) p

  unfoldable pub store_and_clear : (Text → Result ℕ) → Exec Proxy (Unit {0})
  unfolding store clear
  store_and_clear database = Exec.◌>>◌ (store database) clear

  unfoldable pub is_due : Round → Proxy → Bool
  is_due r p =
      leb (p.last_store_timestamp + cfg.store_timeout) r.last_exec_timestamp
      || leb cfg.store_max_count (count p)

  unfoldable pub receive_data : Round → Exec Proxy (Unit {0})
  unfolding insert
  receive_data r p = if is_nil r.recv_data then (ok tt, p) else insert r.recv_data p

  unfoldable pub store_due : Round → Exec Proxy (Unit {0})
  unfolding store_and_clear is_due
  store_due r p =
      let stored =
        Exec.◌>>◌ (store_and_clear r.database)
          (λ p. (ok tt, record p { last_store_timestamp = r.time_after_store })) in
      if is_due r p && not (is_nil p.ost_perf_result_list) then stored p else (ok tt, p)

  -- one pass of `while RUN_FLAG`
  unfoldable pub iterate : Round → Exec Proxy (Unit {0})
  unfolding receive_data store_due
  iterate r = Exec.◌>>◌ (receive_data r) (store_due r)

  -- The loop, for as many passes as the flag is set; an exception ends it.
  unfoldable pub run : List Round → Exec Proxy (Unit {0})
  unfolding iterate
  run [] p = (ok tt, p)
  run (r ∷ rounds) p = Exec.◌>>◌ (iterate r) (run rounds) p

  -- `if table_handler and table_handler.count()` behind the loop
  unfoldable pub flush : (Text → Result ℕ) → Exec Proxy (Unit {0})
  unfolding store_and_clear
  flush database p =
      let stored = store_and_clear database p in
      if is_nil p.ost_perf_result_list then (ok tt, p) else stored

  -- `main` from the loop on: the inner handler catches what the loop raises, and the flush
  -- follows in any case. The exit status is 1 if the loop raised.
  unfoldable pub run_and_flush : List Round → (Text → Result ℕ) → Exec Proxy (Unit {0})
  unfolding run flush
  run_and_flush rounds database p = flush database (run rounds p).1
