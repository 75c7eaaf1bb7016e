-- ===== src/Comm.antt =====
-- comm/base_handler.py and the three handlers that inherit from it. ZeroMQ is a parameter: the calls
-- that are made stand in a log, and a test says which of them raise.
pub mod Sockets
mod Tests
use lustre_ost_performance_t.Base.{
  Bool, List, Option, Result, [], err, false, if◌then◌else◌, is_nil, leb, ltb, none, not, ok,
  os_error, raise_if, runtime_error, some, suc, true, ℕ, ◌&&◌, ◌++◌, ◌+◌, ◌>>◌, ◌∷◌,
}
use lustre_ost_performance_t.Base.Exec.{Exec}
use lustre_ost_performance_t.Base.Exec
use lustre_ost_performance_t.Text.{Text, codes, text_eq}
use lustre_ost_performance_t.Text.Number.{ℤ, pos, negsuc, str_of}

-- MasterCommHandler, ControllerCommHandler and DatabaseProxyCommHandler
pub data Role : Type 0 where
  master_handler controller_handler database_proxy_handler : Role

-- Sockets are numbered in the order in which they are made.
pub data ZmqCall : Type 0 where
  new_context term_context : ZmqCall
  new_socket bind connect_to register unregister set_no_linger close : (socket : ℕ) → ZmqCall

pub record Handler : Type 0 where
  pub endpoint : Text
  pub poll_timeout : ℤ
  pub socket : Option ℕ
  pub has_context : Bool
  pub has_poller : Bool
  pub is_connected : Bool
  pub log : List ZmqCall
  pub sockets_made : ℕ

-- `port in range(1024, 65535)`
unfoldable pub is_port : ℤ → Bool
is_port (pos n) = leb 1024 n && ltb n 65535
is_port (negsuc n) = false

unfoldable pub port_text : ℤ → Text
port_text (pos n) = str_of n
port_text (negsuc n) = b'-' ∷ str_of (suc n)

unfoldable pub is_positive : ℤ → Bool
is_positive (pos n) = ltb 0 n
is_positive (negsuc n) = false

-- `__init__`, with the answer of `socket.getfqdn()`. A port of 0 is refused in front of the range, by
-- the same exception.
unfoldable pub new_handler : Text → Text → ℤ → ℤ → Result Handler
new_handler fqdn target port poll_timeout = do
  raise_if (is_nil target) runtime_error
  raise_if (not (is_port port)) runtime_error
  raise_if (not (is_positive poll_timeout)) runtime_error
  raise_if (text_eq fqdn (codes "localhost")) runtime_error
  ok (record {
    endpoint = codes "tcp://" ++ (target ++ b':' ∷ port_text port);
    poll_timeout = poll_timeout;
    socket = none;
    has_context = false;
    has_poller = false;
    is_connected = false;
    log = [];
    sockets_made = 0;
  })

unfoldable pub note : ZmqCall → Handler → Handler
note call h = record h { log = h.log ++ call ∷ [] }

-- `socket.connect(endpoint)` for the controller, `socket.bind(endpoint)` for the others
unfoldable pub attach : Role → ℕ → ZmqCall
attach controller_handler s = connect_to s
attach master_handler s = bind s
attach database_proxy_handler s = bind s

-- `self.context = ...` and `self.socket = ...`
unfoldable pub make_socket : Handler → Handler
unfolding note
make_socket h = record (note (new_socket h.sockets_made) (note new_context h)) {
  socket = some h.sockets_made;
  has_context = true;
  sockets_made = h.sockets_made + 1;
}

unfoldable pub make_poller : ℕ → Handler → Handler
unfolding note
make_poller s h = record (note (register s) h) { has_poller = true; is_connected = true }

-- `connect`; `attaches` says whether the endpoint can be bound or connected to
unfoldable pub connect : Role → Bool → Exec Handler (Unit {0})
unfolding make_socket make_poller note
connect role attaches h =
    let s = h.sockets_made in
    let h' = make_socket h in
    let h'' = note (attach role s) h' in
    if attaches then (ok tt, make_poller s h'') else (err os_error, h'')

unfoldable pub close_socket : Option ℕ → Handler → Handler
unfolding note
close_socket none h = h
close_socket (some s) h =
    let h' = note (set_no_linger s) h in
    note (close s) (if h'.has_poller then note (unregister s) h' else h')

unfoldable pub disconnect : Handler → Handler
unfolding close_socket note
disconnect h =
    let h' = close_socket h.socket h in
    let h'' = if h'.has_context then note term_context h' else h' in
    if h.is_connected then record h'' { is_connected = false } else h

unfoldable pub reconnect : Role → Bool → Exec Handler (Unit {0})
unfolding disconnect connect
reconnect role attaches h = connect role attaches (disconnect h)

-- `recv_string`, with what `poll` says of the socket and the message that is then there
unfoldable pub recv_string : Bool → Text → Option Text
recv_string polled message = if polled && not (is_nil message) then some message else none
