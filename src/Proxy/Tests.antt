-- ===== src/Proxy/Tests.antt =====
-- Concrete runs of the proxy.
use lustre_ost_performance_t.Base.{List, Result, [], err, inr, refl, runtime_error, ℕ, ◌∷◌, ◌≡◌}
use lustre_ost_performance_t.Text.{Text, codes, contains, split}
use lustre_ost_performance_t.Text.Number.{pos}
use lustre_ost_performance_t.Proxy.{
  ProxyConfig, Round, is_due, receive_data, insert, count, store_due, iterate, run_and_flush,
}
use lustre_ost_performance_t.Proxy.Batches.{
  IsHonest, Flushed, reached, started, run_and_flush-Flushed,
}
use lustre_ost_performance_t.Proxy.Rows.{count_rows, count_rows-IsHonest}
use lustre_ost_performance_t.Proxy.Results.{received}
use lustre_ost_performance_t.Proxy.Bounds.{Waits, iterate-Waits}
use lustre_ost_performance_t.Proxy.Csv.{OstPerfResult, to_csv_list, columns, split-to_csv_list}

abbrev cfg : ProxyConfig
cfg = record { table = codes "ost_perf"; store_timeout = 600; store_max_count = 100 }

-- A database that takes every statement, and one that is not there.
abbrev there : Text → Result ℕ
there = count_rows (codes "ost_perf")

abbrev absent : Text → Result ℕ
absent sql = err runtime_error

absent-IsHonest : IsHonest (codes "ost_perf") absent
absent-IsHonest batch h = inr (runtime_error, refl)

abbrev arrival : Round
arrival = record {
  last_exec_timestamp = 10;
  recv_data = codes "1,2";
  database = absent;
  time_after_store = 11;
}

-- Two results arrive, and the second is late enough for a store of both; the third is left to the flush.
abbrev arrivals : List Round
arrivals =
    arrival
    ∷ record arrival { last_exec_timestamp = 600; recv_data = codes "3,4"; database = there }
    ∷ record arrival { last_exec_timestamp = 610; recv_data = codes "5,6"; database = there }
    ∷ []

run_and_flush-Flushed_example :
    Flushed cfg there
      (received (reached cfg arrivals (started 0)))
      (run_and_flush cfg arrivals there (started 0))
unfolding contains
run_and_flush-Flushed_example =
    let honest = count_rows-IsHonest (codes "ost_perf") in
    run_and_flush-Flushed cfg arrivals there 0
      (absent-IsHonest, refl, (honest, refl, (honest, refl, tt))) honest

iterate-Waits_example : Waits cfg arrival (iterate cfg arrival (started 0)).1
unfolding iterate receive_data insert store_due is_due count
iterate-Waits_example =
    iterate-Waits cfg arrival (started 0) (iterate cfg arrival (started 0)).1 refl

-- Measured values that are whole numbers.
abbrev measurement : OstPerfResult ℕ
measurement = record {
  read_timestamp = codes "2021-01-01 10:00:01";
  write_timestamp = codes "2021-01-01 10:00:00";
  ost = codes "31";
  size = pos 1000;
  read_throughput = 500;
  write_throughput = 250;
  read_duration = 2;
  write_duration = 4;
}

split-to_csv_list_example : split b',' (to_csv_list pos measurement) ≡ columns pos measurement
unfolding contains
split-to_csv_list_example = split-to_csv_list pos measurement refl refl refl
