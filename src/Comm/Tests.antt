-- ===== src/Comm/Tests.antt =====
-- A concrete session of a handler.
use lustre_ost_performance_t.Base.{[], false, none, refl}
use lustre_ost_performance_t.Text.{codes}
use lustre_ost_performance_t.Text.Number.{pos}
use lustre_ost_performance_t.Comm.{Handler, controller_handler}
use lustre_ost_performance_t.Comm.Sockets.{session, IsShut, made, closed, session-IsShut}

abbrev new_one : Handler
new_one = record {
  endpoint = codes "tcp://node1:5555";
  poll_timeout = pos 1000;
  socket = none;
  has_context = false;
  has_poller = false;
  is_connected = false;
  log = [];
  sockets_made = 0;
}

session-IsShut_example : IsShut (session controller_handler 2 new_one)
unfolding made closed
session-IsShut_example = session-IsShut controller_handler 2 new_one refl
