-- ===== src/Driver/Threads.antt =====
-- The two threads that use a driver: the one of the client, which connects, sends and disconnects, and the
-- event thread that runs block(). No lock is held but in closeSocket, so each read or write of a member,
-- and each call of the socket, is a step of its own.
use atp.Common.{
  ℕ, ◌+◌, ◌≡◌, Bool, true, false, Option, none, some, List, [], ◌∷◌, ◌++◌, if◌then◌else◌,
}
use atp.Common.Int.{ℤ}
use atp.Driver.{
  Driver, new_driver, Counters, running, stopping, stopped, is_running, Notice, notify, count,
  event_thread_start, event_thread_stop, socket_connect, close_socket, Connection, bad_address,
  established,
}

-- What a thread has yet to do in a call. `sending` and `receiving` are calls of the socket.
pub data Action : Type 0 where
  counted : (Counters → Counters) → Action
  notified : Notice → Action
  socket_lost state_stopping closing sending receiving : Action

-- Send(), and Receive(), after the socket has thrown.
abbrev pub send_failed : List Action
send_failed =
    counted (λ c. record c { send_errors = c.send_errors + 1 }) ∷ socket_lost ∷ state_stopping ∷ []

abbrev pub receive_failed : List Action
receive_failed =
    counted (λ c. record c { receive_errors = c.receive_errors + 1 })
    ∷ socket_lost
    ∷ state_stopping
    ∷ closing
    ∷ []

abbrev pub send_counted : ℕ → Counters → Counters
send_counted micros c = record c {
  send_latency_micros = micros;
  send_latency_micros_total = c.send_latency_micros_total + micros;
  send_latency_micros_count = c.send_latency_micros_count + 1;
}

-- A step of a thread in its call, with what is left of the call, and whether it waits for nothing: a
-- receive of an open socket waits for its peer, and that of a closed one throws.
pub data Exec (d : Driver) : Bool → List Action → List Action → Driver → Type 0 where
  counts : (f : Counters → Counters) (l : List Action) → Exec d true (counted f ∷ l) l (count f d)
  notifies : (n : Notice) (l : List Action) → Exec d true (notified n ∷ l) l (notify n d)
  loses : (l : List Action) → Exec d true (socket_lost ∷ l) l (record d { socket_ok = false })
  halts : (l : List Action) → Exec d true (state_stopping ∷ l) l (record d { state = stopping })
  closes : (b : Bool) (l : List Action) → Exec d true (closing ∷ l) l (close_socket b d).1
  sends :
      (micros : ℕ) (l : List Action)
      → Exec d true (sending ∷ l) (counted (send_counted micros) ∷ l) d
  send_throws : (l : List Action) → Exec d true (sending ∷ l) (send_failed ++ l) d
  receives : (l : List Action) → d.open_socket ≡ true → Exec d false (receiving ∷ l) l d
  receive_breaks :
      (l : List Action)
      → d.open_socket ≡ true
      → Exec d false (receiving ∷ l) (receive_failed ++ l) d
  receive_throws :
      (l : List Action)
      → d.open_socket ≡ false
      → Exec d true (receiving ∷ l) (receive_failed ++ l) d

-- Where the client stands, when it has done what is left of its call: in Connect() before the count, the
-- connection, the flag, the state, the two reads of the result and the callback, in Send(), or in
-- Disconnect() before the state changes, before the socket closes, in the join, and before the end.
pub data Client : Type 0 where
  idle : Client
  entered opening connected greeted : Connection → Client
  result_flag result_state : Client
  announcing : Bool → Client
  called disconnecting closing_down joining disconnected : Client

-- Where the event thread stands in block(): before it, in the wait for the state, at the two reads of the
-- loop's test, in CheckMessages, which will have processed or not, after the loop, and at the end.
pub data Place : Type 0 where
  unstarted waiting polling tested : Place
  checking : (processed : Bool) → Place
  leaving finished : Place

pub record System : Type 0 where
  pub driver : Driver
  pub client : Client
  pub client_code : List Action
  pub place : Place
  pub event_code : List Action

-- A driver that has just been made, with its thread.
abbrev pub new_system : (callback : Bool) → System
new_system callback = record {
  driver = new_driver callback;
  client = idle;
  client_code = [];
  place = unstarted;
  event_code = [];
}

abbrev pub at_client : Client → List Action → Driver → System → System
at_client c code d s = record s { client = c; client_code = code; driver = d }

abbrev pub connect_failed : List Action
connect_failed =
    counted (λ c. record c { connection_exceptions = c.connection_exceptions + 1 })
    ∷ socket_lost
    ∷ []

-- Connect(), one read or write at a time; `calls` are the calls of OnConnect(). None is no step of it.
unfoldable pub connect_step :
    (calls : List Action) → Client → Driver → Option (Client × List Action × Driver)
connect_step calls (entered bad_address) d = some (idle, [], d)
connect_step calls (entered c) d =
    some (opening c, counted (λ c. record c { connects = c.connects + 1 }) ∷ [], d)
connect_step calls (opening (established throws)) d =
    some (connected (established throws), [], record d { open_socket = true })
connect_step calls (opening c) d =
    some (result_flag, connect_failed, record d { open_socket = true })
connect_step calls (connected c) d = some (greeted c, calls, record d { socket_ok = true })
connect_step calls (greeted (established false)) d =
    some (result_flag, [], record d { state = running })
connect_step calls (greeted c) d = some (result_flag, connect_failed, d)
connect_step calls result_flag d =
    some (if d.socket_ok then result_state else announcing false, [], d)
connect_step calls result_state d = some (announcing (is_running d.state), [], d)
connect_step calls (announcing r) d =
    some (idle, if d.socket_ok then notified (socket_connect r) ∷ [] else [], d)
connect_step calls called d = some (idle, [], d)
connect_step calls idle d = none
connect_step calls disconnecting d = none
connect_step calls closing_down d = none
connect_step calls joining d = none
connect_step calls disconnected d = none

-- Disconnect(), after OnDisconnect and its count: the state; the socket, whose closing may fail; the end.
unfoldable pub begin_disconnect : System → System
begin_disconnect s = at_client closing_down [] (record s.driver { state = stopping }) s

unfoldable pub close_down : (succeeds : Bool) → System → System
unfolding close_socket
close_down succeeds s =
    let (closed, d) = close_socket succeeds s.driver in
    at_client (if closed then joining else disconnected) [] d s

unfoldable pub end_disconnect : System → System
end_disconnect s = at_client idle [] (record s.driver { state = stopped }) s

abbrev pub at_place : Place → List Action → System → System
at_place p code s = record s { place = p; event_code = code }

-- The test of the loop: the flag, and then the state.
abbrev pub read_flag : Driver → Place
read_flag d = if d.socket_ok then tested else leaving

-- CheckMessages() makes calls and says whether it processed, or it throws after them: the error is counted
-- and reported, by further calls, the state changes and the socket is closed.
unfoldable pub check_messages : (calls : List Action) → (processed : Bool) → System → System
check_messages calls processed s = at_place (checking processed) calls s

unfoldable pub check_failed : (calls reports : List Action) → System → System
check_failed calls reports s =
    at_place (checking false)
      (calls
        ++ (counted (λ c. record c { event_loop_errors = c.event_loop_errors + 1 })
            ∷ (reports ++ (state_stopping ∷ closing ∷ []))))
      s

abbrev pub stop_loop : List Action
stop_loop = counted (λ c. record c { event_loop_stopped = true }) ∷ notified event_thread_stop ∷ []

-- One step of one thread, and whether it waits for nothing outside. A thread goes on when nothing is left of
-- its call.
pub data Step (s : System) : Bool → System → Type 0 where
  client_acts :
      (own : Bool) (code : List Action) (d : Driver)
      → Exec s.driver own s.client_code code d
      → Step s own (record s { client_code = code; driver = d })
  event_acts :
      (own : Bool) (code : List Action) (d : Driver)
      → Exec s.driver own s.event_code code d
      → Step s own (record s { event_code = code; driver = d })
  connects :
      (c : Connection) (id : ℤ)
      → s.client ≡ idle
      → s.client_code ≡ []
      → Step s false (at_client (entered c) [] (record s.driver { client_id = id }) s)
  connect_goes :
      (calls : List Action) (c : Client) (code : List Action) (d : Driver)
      → s.client_code ≡ []
      → connect_step calls s.client s.driver ≡ some (c, code, d)
      → Step s true (at_client c code d s)
  client_sends :
      s.client ≡ idle
      → s.client_code ≡ []
      → Step s false (at_client called (sending ∷ []) s.driver s)
  disconnects :
      (calls : List Action)
      → s.client ≡ idle
      → s.client_code ≡ []
      → Step s false (
          at_client disconnecting
            (calls ++ (counted (λ c. record c { disconnects = c.disconnects + 1 }) ∷ []))
            s.driver
            s)
  begins : s.client ≡ disconnecting → s.client_code ≡ [] → Step s true (begin_disconnect s)
  shuts : (b : Bool) → s.client ≡ closing_down → Step s true (close_down b s)
  joins :
      s.client ≡ joining
      → s.place ≡ finished
      → s.event_code ≡ []
      → Step s true (at_client disconnected [] s.driver s)
  ends : s.client ≡ disconnected → Step s true (end_disconnect s)
  starts : s.place ≡ unstarted → Step s true (at_place waiting (notified event_thread_start ∷ []) s)
  wakes :
      s.place ≡ waiting
      → s.event_code ≡ []
      → is_running s.driver.state ≡ true
      → Step s true (at_place polling [] s)
  polls : s.place ≡ polling → Step s true (at_place (read_flag s.driver) [] s)
  checks :
      (calls : List Action) (processed : Bool)
      → s.place ≡ tested
      → is_running s.driver.state ≡ true
      → Step s true (check_messages calls processed s)
  fails :
      (calls reports : List Action)
      → s.place ≡ tested
      → is_running s.driver.state ≡ true
      → Step s true (check_failed calls reports s)
  leaves :
      s.place ≡ tested → is_running s.driver.state ≡ false → Step s true (at_place leaving [] s)
  checked :
      (processed : Bool)
      → s.place ≡ checking processed
      → s.event_code ≡ []
      → Step s true (at_place (if processed then polling else leaving) [] s)
  stops : s.place ≡ leaving → Step s true (at_place finished stop_loop s)

pub data Reach (s : System) : System → Type 0 where
  here : Reach s s
  next : {t u : System} (own : Bool) → Reach s t → Step t own u → Reach s u
