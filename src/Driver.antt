-- ===== src/Driver.antt =====
-- The driver of a connection to the gateway (ib/AsioEClientDriver.cpp). What the socket does at each
-- call is an argument; the protocol handler reaches the driver only by its sends and receives.
pub mod Threads
pub mod Safety
pub mod Joining
use atp.Common.{
  ℕ, ◌+◌, Bool, true, false, ◌&&◌, Option, none, some, List, [], ◌∷◌, ◌++◌, if◌then◌else◌,
}
use atp.Common.Int.{ℤ, negsuc}

pub data State : Type 0 where
  starting running stopping stopped : State

abbrev pub is_running : State → Bool
is_running starting = false
is_running running = true
is_running stopping = false
is_running stopped = false

-- The calls of EventCallback.
pub data Notice : Type 0 where
  event_thread_start event_thread_stop : Notice
  socket_connect socket_close : Bool → Notice

-- The exported counters.
pub record Counters : Type 0 where
  pub connection_exceptions : ℕ
  pub connection_resets : ℕ
  pub connection_closes : ℕ
  pub connects : ℕ
  pub disconnects : ℕ
  pub send_errors : ℕ
  pub send_latency_micros : ℕ
  pub send_latency_micros_total : ℕ
  pub send_latency_micros_count : ℕ
  pub receive_errors : ℕ
  pub event_loop_errors : ℕ
  pub event_loop_stopped : Bool

-- `open` is the socket's is_open(), `callback` that there is a callback, which gets the notices.
pub record Driver : Type 0 where
  pub socket_ok : Bool
  pub state : State
  pub client_id : ℤ
  pub open_socket : Bool
  pub callback : Bool
  pub notices : List Notice
  pub counters : Counters

abbrev pub no_counters : Counters
no_counters = record {
  connection_exceptions = 0;
  connection_resets = 0;
  connection_closes = 0;
  connects = 0;
  disconnects = 0;
  send_errors = 0;
  send_latency_micros = 0;
  send_latency_micros_total = 0;
  send_latency_micros_count = 0;
  receive_errors = 0;
  event_loop_errors = 0;
  event_loop_stopped = false;
}

-- The constructor.
abbrev pub new_driver : (callback : Bool) → Driver
new_driver callback = record {
  socket_ok = false;
  state = starting;
  client_id = negsuc 0;
  open_socket = false;
  callback = callback;
  notices = [];
  counters = no_counters;
}

abbrev pub notify : Notice → Driver → Driver
notify n d = record d { notices = if d.callback then d.notices ++ (n ∷ []) else d.notices }

abbrev pub count : (Counters → Counters) → Driver → Driver
count f d = record d { counters = f d.counters }

-- IsSocketOK()
abbrev pub is_socket_ok : Driver → Bool
is_socket_ok d = d.socket_ok && is_running d.state

-- reset(), which nothing calls: the socket is closed also when an error is reported.
unfoldable pub reset : Driver → Driver
reset d =
    if d.open_socket
    then record (count (λ c. record c { connection_resets = c.connection_resets + 1 }) d) {
      open_socket = false;
    }
    else d

-- closeSocket(): whether closing reports no error. The socket is closed in either case.
unfoldable pub close_socket : (closes : Bool) → Driver → Bool × Driver
close_socket closes d =
    let closed = record d { open_socket = false } in
    let counted = count (λ c. record c { connection_closes = c.connection_closes + 1 }) closed in
    if d.open_socket
    then (closes, if d.callback && closes then notify (socket_close closes) counted else closed)
    else (true, d)

-- How an attempt to connect goes: the address does not parse, the socket refuses, or it connects and the
-- protocol handler is told, which may throw after its calls.
pub data Connection : Type 0 where
  bad_address refused : Connection
  established : (throws : Bool) → Connection
