-- ===== src/Setup/Conf.antt =====
-- conf/: the configuration files of the three programs. A file is what `configparser` makes of it: the
-- options of its sections. `getfloat` is a parameter.
use lustre_ost_performance_t.Base.{
  >>=-eq-ok, Bool, Result, arith, config_value_error, false, leb, no_option_error, no_section_error,
  not, ok, or_raise, os_error, raise_if, refl, subst, suc, true, ◌&&◌, ◌*◌, ◌>>=◌, ◌>>◌, ◌≡◌, ◌≤◌,
}
use lustre_ost_performance_t.Text.{Text, codes}
use lustre_ost_performance_t.Text.Number.{ℤ, pos, negsuc, negate, int_of}
use lustre_ost_performance_t.Dict.{Dict, get}

abbrev pub Conf : Type 0
Conf = Dict (Dict Text)

-- `config.get(section, option)`; a section or an option that is not there is an error of the parser
unfoldable pub get_option : Conf → Text → Text → Result Text
get_option config section option = do
  options ← or_raise (get config section) no_section_error
  or_raise (get options option) no_option_error

-- `config.getint(section, option)`
unfoldable pub get_int : Conf → Text → Text → Result ℤ
get_int config section option = do value ← get_option config section option; int_of value

-- `n * 1000`
unfoldable pub thousand : ℤ → ℤ
thousand (pos n) = pos (n * 1000)
thousand (negsuc n) = negate (suc n * 1000)

pub record ControllerConf : Type 0 where
  pub pid_file : Text
  pub request_retry_wait_duration : ℤ
  pub max_num_request_retries : ℤ
  pub comm_target : Text
  pub comm_port : ℤ
  pub poll_timeout : ℤ
  pub log_filename : Text
  pub worker_count : ℤ

-- `validate`
unfoldable pub is_worker_count : ℤ → Bool
is_worker_count (pos n) = leb 1 n && leb n 1000
is_worker_count (negsuc n) = false

-- `ControllerConfigFileReader(config_file)` up to `validate`, with `os.path.isfile` and the parsed
-- file
unfoldable pub read_controller_options : Bool → Result Conf → Result ControllerConf
read_controller_options is_file parsed = do
  raise_if (not is_file) os_error
  config ← parsed
  pid_file ← get_option config (codes "control") (codes "pid_file")
  wait_duration ← get_int config (codes "control") (codes "request_retry_wait_duration")
  max_retries ← get_int config (codes "control") (codes "max_num_request_retries")
  comm_target ← get_option config (codes "comm") (codes "target")
  comm_port ← get_int config (codes "comm") (codes "port")
  poll_timeout ← get_int config (codes "comm") (codes "poll_timeout")
  log_filename ← get_option config (codes "log") (codes "filename")
  worker_count ← get_int config (codes "processing") (codes "worker_count")
  ok (record {
    pid_file = pid_file;
    request_retry_wait_duration = wait_duration;
    max_num_request_retries = max_retries;
    comm_target = comm_target;
    comm_port = comm_port;
    poll_timeout = thousand poll_timeout;
    log_filename = log_filename;
    worker_count = worker_count;
  })

unfoldable pub validate_controller_conf : ControllerConf → Result (Unit {0})
validate_controller_conf c = raise_if (not (is_worker_count c.worker_count)) config_value_error

unfoldable pub read_controller_conf : Bool → Result Conf → Result ControllerConf
read_controller_conf is_file parsed = do
  c ← read_controller_options is_file parsed
  validate_controller_conf c
  ok c

pub record MasterConf (F : Type 0) : Type 0 where
  pub pid_file : Text
  pub controller_timeout : F
  pub controller_wait_duration : ℤ
  pub task_resend_timeout : ℤ
  pub comm_target : Text
  pub comm_port : ℤ
  pub poll_timeout : ℤ
  pub log_filename : Text
  pub task_gen_module : Text
  pub task_gen_class : Text
  pub task_gen_config_file : Text

-- `MasterConfigFileReader(config_file)`, with `float(s)`
unfoldable pub read_master_conf :
    {F : Type 0} → (Text → Result F) → Bool → Result Conf → Result (MasterConf F)
read_master_conf float_of is_file parsed = do
  raise_if (not is_file) os_error
  config ← parsed
  pid_file ← get_option config (codes "control") (codes "pid_file")
  timeout ← get_option config (codes "control") (codes "controller_timeout")
  controller_timeout ← float_of timeout
  wait_duration ← get_int config (codes "control") (codes "controller_wait_duration")
  resend_timeout ← get_int config (codes "control") (codes "task_resend_timeout")
  comm_target ← get_option config (codes "comm") (codes "target")
  comm_port ← get_int config (codes "comm") (codes "port")
  poll_timeout ← get_int config (codes "comm") (codes "poll_timeout")
  log_filename ← get_option config (codes "log") (codes "filename")
  gen_module ← get_option config (codes "task_generator") (codes "module")
  gen_class ← get_option config (codes "task_generator") (codes "class")
  gen_config_file ← get_option config (codes "task_generator") (codes "config_file")
  ok (record {
    pid_file = pid_file;
    controller_timeout = controller_timeout;
    controller_wait_duration = wait_duration;
    task_resend_timeout = resend_timeout;
    comm_target = comm_target;
    comm_port = comm_port;
    poll_timeout = thousand poll_timeout;
    log_filename = log_filename;
    task_gen_module = gen_module;
    task_gen_class = gen_class;
    task_gen_config_file = gen_config_file;
  })

pub record ProxyConf : Type 0 where
  pub pid_file : Text
  pub comm_target : Text
  pub comm_port : ℤ
  pub poll_timeout : ℤ
  pub log_filename : Text
  pub host : Text
  pub user : Text
  pub password : Text
  pub database : Text
  pub table : Text
  pub store_timeout : ℤ
  pub store_max_count : ℤ

-- `DatabaseProxyConfigFileReader(config_file)`
unfoldable pub read_proxy_conf : Bool → Result Conf → Result ProxyConf
read_proxy_conf is_file parsed = do
  raise_if (not is_file) os_error
  config ← parsed
  pid_file ← get_option config (codes "control") (codes "pid_file")
  comm_target ← get_option config (codes "comm") (codes "target")
  comm_port ← get_int config (codes "comm") (codes "port")
  poll_timeout ← get_int config (codes "comm") (codes "poll_timeout")
  log_filename ← get_option config (codes "log") (codes "filename")
  host ← get_option config (codes "db") (codes "host")
  user ← get_option config (codes "db") (codes "user")
  password ← get_option config (codes "db") (codes "password")
  database ← get_option config (codes "db") (codes "database")
  table ← get_option config (codes "db") (codes "table")
  store_timeout ← get_int config (codes "db") (codes "store_timeout")
  store_max_count ← get_int config (codes "db") (codes "store_max_count")
  ok (record {
    pid_file = pid_file;
    comm_target = comm_target;
    comm_port = comm_port;
    poll_timeout = thousand poll_timeout;
    log_filename = log_filename;
    host = host;
    user = user;
    password = password;
    database = database;
    table = table;
    store_timeout = store_timeout;
    store_max_count = store_max_count;
  })

-- A worker count that the code takes.
abbrev pub IsWorkerCount : ℤ → Type 0
IsWorkerCount (pos n) = (1 ≤ n) × (n ≤ 1000)
IsWorkerCount (negsuc n) = ⊥

is_worker_count-IsWorkerCount : (n : ℤ) → is_worker_count n ≡ true → IsWorkerCount n
unfolding is_worker_count
is_worker_count-IsWorkerCount (pos n) h = (ground arith, ground arith)
is_worker_count-IsWorkerCount (negsuc n) h = absurd (cc h)

counted :
    (c c' : ControllerConf) (b : Bool)
    → is_worker_count c.worker_count ≡ b
    → (raise_if (not b) config_value_error >> ok c) ≡ ok c'
    → IsWorkerCount c.worker_count × (c ≡ c')
counted c c' true h e = (is_worker_count-IsWorkerCount c.worker_count h, cc)
counted c c' false h e = cc

-- A controller's configuration that is read, from whatever file, asks for one to a thousand workers.
pub read_controller_conf-IsWorkerCount :
    (is_file : Bool) (parsed : Result Conf) (c : ControllerConf)
    → read_controller_conf is_file parsed ≡ ok c
    → IsWorkerCount c.worker_count
unfolding read_controller_conf validate_controller_conf
read_controller_conf-IsWorkerCount is_file parsed c h =
    let (c', k, h') = >>=-eq-ok (read_controller_options is_file parsed) _ h in
    let (n, q) = counted c' c _ refl h' in subst (λ c. IsWorkerCount c.worker_count) q n
