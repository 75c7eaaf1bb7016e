-- ===== src/Comm/Sockets.antt =====
-- comm/base_handler.py: every socket that is made is closed, once.
use lustre_ost_performance_t.Base.{
  Bool, Bool-cases, List, Option, Result, [], ap, append-nil, arith, false, if◌then◌else◌, inl, inr,
  is_nil, none, not, ok, raise_if, refl, runtime_error, some, suc, sym, true, zero, ℕ, ◌++◌, ◌<◌,
  ◌>>◌, ◌∙◌, ◌∷◌, ◌≡◌, ◌≤◌,
}
use lustre_ost_performance_t.Text.{Text, text_eq, codes}
use lustre_ost_performance_t.Text.Number.{ℤ, pos, negsuc}
use lustre_ost_performance_t.Comm.{
  Role, master_handler, controller_handler, database_proxy_handler, ZmqCall, new_context,
  term_context, new_socket, bind, connect_to, register, unregister, set_no_linger, close, Handler,
  is_port, is_positive, new_handler, note, attach, make_socket, make_poller, connect, close_socket,
  disconnect, reconnect,
}

-- The sockets that a log makes, and those that it closes.
unfoldable pub made : List ZmqCall → List ℕ
made [] = []
made (new_socket s ∷ log) = s ∷ made log
made (call ∷ log) = made log

unfoldable pub closed : List ZmqCall → List ℕ
closed [] = []
closed (close s ∷ log) = s ∷ closed log
closed (call ∷ log) = closed log

abbrev pub list_of : Option ℕ → List ℕ
list_of none = []
list_of (some s) = s ∷ []

-- The socket in use, if the handler is connected.
abbrev pub in_use : Bool → Option ℕ → List ℕ
in_use true socket = list_of socket
in_use false socket = []

-- Every socket that was made is closed, in the same order, but for the one in use.
abbrev pub IsBalanced : Handler → Type 0
IsBalanced h = made h.log ≡ closed h.log ++ in_use h.is_connected h.socket

made-append : (log more : List ZmqCall) → made (log ++ more) ≡ made log ++ made more
unfolding made
made-append [] more = refl
made-append (new_socket s ∷ log) more = ap (λ l. s ∷ l) (made-append log more)
made-append (new_context ∷ log) more = made-append log more
made-append (term_context ∷ log) more = made-append log more
made-append (bind s ∷ log) more = made-append log more
made-append (connect_to s ∷ log) more = made-append log more
made-append (register s ∷ log) more = made-append log more
made-append (unregister s ∷ log) more = made-append log more
made-append (set_no_linger s ∷ log) more = made-append log more
made-append (close s ∷ log) more = made-append log more

closed-append : (log more : List ZmqCall) → closed (log ++ more) ≡ closed log ++ closed more
unfolding closed
closed-append [] more = refl
closed-append (close s ∷ log) more = ap (λ l. s ∷ l) (closed-append log more)
closed-append (new_context ∷ log) more = closed-append log more
closed-append (term_context ∷ log) more = closed-append log more
closed-append (new_socket s ∷ log) more = closed-append log more
closed-append (bind s ∷ log) more = closed-append log more
closed-append (connect_to s ∷ log) more = closed-append log more
closed-append (register s ∷ log) more = closed-append log more
closed-append (unregister s ∷ log) more = closed-append log more
closed-append (set_no_linger s ∷ log) more = closed-append log more

-- What a call adds to both lists.
abbrev Adds : Handler → Handler → List ℕ → List ℕ → Type 0
Adds h h' ms cs = (made h'.log ≡ made h.log ++ ms) × (closed h'.log ≡ closed h.log ++ cs)

note-Adds :
    (call : ZmqCall) (h : Handler) → Adds h (note call h) (made (call ∷ [])) (closed (call ∷ []))
unfolding note
note-Adds call h = (made-append h.log (call ∷ []), closed-append h.log (call ∷ []))

note_plain :
    (call : ZmqCall) (h : Handler)
    → made (call ∷ []) ≡ []
    → closed (call ∷ []) ≡ []
    → (made (note call h).log ≡ made h.log) × (closed (note call h).log ≡ closed h.log)
note_plain call h e k =
    let (m, c) = note-Adds call h in
    (
      m ∙ ap (λ l. made h.log ++ l) e ∙ append-nil (made h.log),
      c ∙ ap (λ l. closed h.log ++ l) k ∙ append-nil (closed h.log),
    )

attach_plain :
    (role : Role) (s : ℕ) → (made (attach role s ∷ []) ≡ []) × (closed (attach role s ∷ []) ≡ [])
unfolding attach made closed
attach_plain master_handler s = (refl, refl)
attach_plain controller_handler s = (refl, refl)
attach_plain database_proxy_handler s = (refl, refl)

make_socket-Adds : (h : Handler) → Adds h (make_socket h) (h.sockets_made ∷ []) []
unfolding make_socket made closed
make_socket-Adds h =
    let (m, c) = note_plain new_context h refl refl in
    let (m', c') = note-Adds (new_socket h.sockets_made) (note new_context h) in
    (m' ∙ ap (λ l. l ++ h.sockets_made ∷ []) m, c' ∙ ap (λ l. l ++ []) c)

make_poller_plain :
    (s : ℕ) (h : Handler)
    → (made (make_poller s h).log ≡ made h.log) × (closed (make_poller s h).log ≡ closed h.log)
unfolding make_poller made closed
make_poller_plain s h = note_plain (register s) h refl refl

-- A handler that is not connected is balanced after it was connected.
connect-IsBalanced :
    (role : Role) (h : Handler) → made h.log ≡ closed h.log → IsBalanced (connect role true h).1
unfolding connect make_poller make_socket
connect-IsBalanced role h b =
    let s = h.sockets_made in
    let h' = make_socket h in
    let (e, k) = attach_plain role s in
    let (m, c) = make_socket-Adds h in
    let (m', c') = note_plain (attach role s) h' e k in
    let (m'', c'') = make_poller_plain s (note (attach role s) h') in
    m'' ∙ m' ∙ m ∙ ap (λ l. l ++ s ∷ []) (b ∙ sym (append-nil (closed h.log)) ∙ sym (c'' ∙ c' ∙ c))

close_socket-Adds : (o : Option ℕ) (h : Handler) → Adds h (close_socket o h) [] (list_of o)
unfolding close_socket made closed
close_socket-Adds none h = (sym (append-nil (made h.log)), sym (append-nil (closed h.log)))
close_socket-Adds (some s) h =
    let (m, c) = note_plain (set_no_linger s) h refl refl in
    elim (Bool-cases (note (set_no_linger s) h).has_poller) [
      | inl e ↦
          let (m', c') = note_plain (unregister s) (note (set_no_linger s) h) refl refl in
          let (m'', c'') = note-Adds (close s) (note (unregister s) (note (set_no_linger s) h)) in
          rw e (m'' ∙ ap (λ l. l ++ []) (m' ∙ m), c'' ∙ ap (λ l. l ++ s ∷ []) (c' ∙ c))
      | inr e ↦
          let (m'', c'') = note-Adds (close s) (note (set_no_linger s) h) in
          rw e (m'' ∙ ap (λ l. l ++ []) m, c'' ∙ ap (λ l. l ++ s ∷ []) c)
    ]

after_context :
    (b : Bool) (h : Handler)
    → let h' = if b then note term_context h else h in
      (made h'.log ≡ made h.log) × (closed h'.log ≡ closed h.log)
unfolding made closed
after_context true h = note_plain term_context h refl refl
after_context false h = (refl, refl)

-- Every socket that was made is closed, and none is in use.
abbrev pub IsShut : Handler → Type 0
IsShut h = (made h.log ≡ closed h.log) × (h.is_connected ≡ false)

IsShut-by :
    (b : Bool) (h h' : Handler)
    → h.is_connected ≡ b
    → made h.log ≡ closed h.log ++ in_use b h.socket
    → made h'.log ≡ made h.log
    → closed h'.log ≡ closed h.log ++ list_of h.socket
    → IsShut (if b then record h' { is_connected = false } else h)
IsShut-by true h h' e b m c = (m ∙ b ∙ sym c, refl)
IsShut-by false h h' e b m c = (b ∙ append-nil (closed h.log), e)

-- A disconnect shuts a balanced handler, whether it is connected or not.
disconnect-IsShut : (h : Handler) → IsBalanced h → IsShut (disconnect h)
unfolding disconnect
disconnect-IsShut h b =
    let (m, c) = close_socket-Adds h.socket h in
    let (m', c') = after_context (close_socket h.socket h).has_context (close_socket h.socket h) in
    let h' = close_socket h.socket h in
    IsShut-by h.is_connected h (if h'.has_context then note term_context h' else h') refl b
      (m' ∙ m ∙ append-nil (made h.log)) (c' ∙ c)

-- `connect`, that many times `reconnect`, and the `disconnect` of `__exit__`
unfoldable pub reconnects : Role → ℕ → Handler → Handler
reconnects role zero h = h
reconnects role (suc n) h = reconnects role n (reconnect role true h).1

unfoldable pub session : Role → ℕ → Handler → Handler
unfolding reconnects
session role n h = disconnect (reconnects role n (connect role true h).1)

reconnect-IsBalanced :
    (role : Role) (h : Handler) → IsBalanced h → IsBalanced (reconnect role true h).1
unfolding reconnect
reconnect-IsBalanced role h b = connect-IsBalanced role (disconnect h) (disconnect-IsShut h b).0

reconnects-IsBalanced :
    (role : Role) (n : ℕ) (h : Handler) → IsBalanced h → IsBalanced (reconnects role n h)
unfolding reconnects
reconnects-IsBalanced role zero h b = b
reconnects-IsBalanced role (suc n) h b =
    reconnects-IsBalanced role n (reconnect role true h).1 (reconnect-IsBalanced role h b)

-- A handler that connects, reconnects any number of times and is left closes every socket that it
-- made, each once and in the same order, provided no call of ZeroMQ raises and no socket of it
-- is open before; it then is not connected.
pub session-IsShut :
    (role : Role) (n : ℕ) (h : Handler) → made h.log ≡ closed h.log → IsShut (session role n h)
unfolding session
session-IsShut role n h b =
    disconnect-IsShut (reconnects role n (connect role true h).1)
      (reconnects-IsBalanced role n (connect role true h).1 (connect-IsBalanced role h b))

raised :
    (b : Bool) (r : Result Handler) (h : Handler)
    → (raise_if b runtime_error >> r) ≡ ok h
    → (b ≡ false) × (r ≡ ok h)
raised true r h e = cc
raised false r h e = (refl, e)

-- The ports that a handler takes: from 1024 to 65534.
abbrev pub IsPort : ℤ → Type 0
IsPort (pos n) = (1024 ≤ n) × (n < 65535)
IsPort (negsuc n) = ⊥

is_port-IsPort : (port : ℤ) → not (is_port port) ≡ false → IsPort port
unfolding is_port
is_port-IsPort (pos n) h = (ground arith, ground arith)
is_port-IsPort (negsuc n) h = absurd (cc h)

-- A handler is only made with a target, a port from 1024 to 65534 and a poll timeout above zero, on
-- a host that does not call itself `localhost`.
pub new_handler-bounds :
    (fqdn target : Text) (port poll_timeout : ℤ) (h : Handler)
    → new_handler fqdn target port poll_timeout ≡ ok h
    → (is_nil target ≡ false)
      × IsPort port
      × (is_positive poll_timeout ≡ true)
      × (text_eq fqdn (codes "localhost") ≡ false)
unfolding new_handler
new_handler-bounds fqdn target port poll_timeout h e =
    let (a, e') = raised (is_nil target) _ h e in
    let (b, e'') = raised (not (is_port port)) _ h e' in
    let (c, e''') = raised (not (is_positive poll_timeout)) _ h e'' in
    let (d, e4) = raised (text_eq fqdn (codes "localhost")) _ h e''' in
    (a, is_port-IsPort port b, ground (arith, c), d)
