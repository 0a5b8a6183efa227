-- ===== src/Driver/Safety.antt =====
-- What holds of a driver in every interleaving of its threads while it is disconnected.
use atp.Common.{
  ◌≡◌, refl, ◌∙◌, subst, ◌&&◌, Bool, true, false, Option, none, some, List, [], ◌∷◌, inl, inr,
  Bool-cases,
}
use atp.Driver.{Driver, stopping, close_socket, bad_address, refused, established}
use atp.Driver.Threads.{
  Action, Exec, counts, notifies, loses, halts, closes, sends, send_throws, receives,
  receive_breaks, receive_throws, Client, idle, entered, opening, connected, greeted, result_flag,
  result_state, announcing, called, disconnecting, closing_down, joining, disconnected, System,
  new_system, connect_step, begin_disconnect, close_down, end_disconnect, check_messages,
  check_failed, Step, client_acts, event_acts, connects, connect_goes, client_sends, disconnects,
  begins, shuts, joins, ends, starts, wakes, polls, checks, fails, leaves, checked, stops, Reach,
  here, next,
}

-- While the client closes the socket in Disconnect(), the driver is stopping; while it waits for the event
-- thread, the socket is closed too.
abbrev pub Halted : Client → Driver → List Action → Type 0
Halted idle d code = Unit {0}
Halted (entered c) d code = Unit {0}
Halted (opening c) d code = Unit {0}
Halted (connected c) d code = Unit {0}
Halted (greeted c) d code = Unit {0}
Halted result_flag d code = Unit {0}
Halted result_state d code = Unit {0}
Halted (announcing r) d code = Unit {0}
Halted called d code = Unit {0}
Halted disconnecting d code = Unit {0}
Halted disconnected d code = Unit {0}
Halted closing_down d code = (d.state ≡ stopping) × (code ≡ [])
Halted joining d code = (d.state ≡ stopping) × (d.open_socket ≡ false) × (code ≡ [])

abbrev pub IsHalted : System → Type 0
IsHalted s = Halted s.client s.driver s.client_code

-- Closing leaves the state, and the socket is closed after it.
close_socket-fields :
    (b : Bool) (d : Driver)
    → ((close_socket b d).1.state ≡ d.state) × ((close_socket b d).1.open_socket ≡ false)
unfolding close_socket
close_socket-fields b d = elim (Bool-cases d.open_socket) [
  | inl p ↦ elim (Bool-cases (d.callback && b)) [
    | inl q ↦ rw (p, q) (refl, refl)
    | inr q ↦ rw (p, q) (refl, refl)
  ]
  | inr p ↦ rw p (refl, refl)
]

-- No step of a call runs a driver that is stopping, or opens its socket.
pub Exec-stopping :
    {d e : Driver} {own : Bool} {l m : List Action}
    → Exec d own l m e
    → (d.state ≡ stopping → e.state ≡ stopping) × (d.open_socket ≡ false → e.open_socket ≡ false)
Exec-stopping (counts f l) = (λ h. h, λ h. h)
Exec-stopping (notifies n l) = (λ h. h, λ h. h)
Exec-stopping (loses l) = (λ h. h, λ h. h)
Exec-stopping (halts l) = (λ h. refl, λ h. h)
Exec-stopping {d} (closes b l) =
    let (state, shut) = close_socket-fields b d in (λ h. state ∙ h, λ h. shut)
Exec-stopping (sends micros l) = (λ h. h, λ h. h)
Exec-stopping (send_throws l) = (λ h. h, λ h. h)
Exec-stopping (receives l e) = (λ h. h, λ h. h)
Exec-stopping (receive_breaks l e) = (λ h. h, λ h. h)
Exec-stopping (receive_throws l e) = (λ h. h, λ h. h)

-- A step leaves something to have been done.
unfoldable begun : List Action → Bool
begun [] = false
begun (a ∷ l) = true

unbegun : (l : List Action) → l ≡ [] → begun l ≡ true → ⊥
unfolding begun
unbegun [] e h = absurd (cc h)
unbegun (a ∷ l) e h = absurd (cc e)

Exec-begun : {d e : Driver} {own : Bool} {l m : List Action} → Exec d own l m e → begun l ≡ true
unfolding begun
Exec-begun (counts f l) = refl
Exec-begun (notifies n l) = refl
Exec-begun (loses l) = refl
Exec-begun (halts l) = refl
Exec-begun (closes b l) = refl
Exec-begun (sends micros l) = refl
Exec-begun (send_throws l) = refl
Exec-begun (receives l e) = refl
Exec-begun (receive_breaks l e) = refl
Exec-begun (receive_throws l e) = refl

pub Exec-idle :
    {d e : Driver} {own : Bool} (l : List Action) {m : List Action} → Exec d own l m e → l ≡ [] → ⊥
Exec-idle l x e = unbegun l e (Exec-begun x)

-- In Disconnect() nothing is left of a call.
Halted-client :
    (c : Client) (d e : Driver) (l m : List Action) → Halted c d l → begun l ≡ true → Halted c e m
Halted-client idle d e l m v h = tt
Halted-client (entered x) d e l m v h = tt
Halted-client (opening x) d e l m v h = tt
Halted-client (connected x) d e l m v h = tt
Halted-client (greeted x) d e l m v h = tt
Halted-client result_flag d e l m v h = tt
Halted-client result_state d e l m v h = tt
Halted-client (announcing r) d e l m v h = tt
Halted-client called d e l m v h = tt
Halted-client disconnecting d e l m v h = tt
Halted-client disconnected d e l m v h = tt
Halted-client closing_down d e l m (state, done) h = absurd (unbegun l done h)
Halted-client joining d e l m (state, shut, done) h = absurd (unbegun l done h)

Halted-event :
    (c : Client) (d e : Driver) (l : List Action)
    → Halted c d l
    → (d.state ≡ stopping → e.state ≡ stopping) × (d.open_socket ≡ false → e.open_socket ≡ false)
    → Halted c e l
Halted-event idle d e l v h = tt
Halted-event (entered x) d e l v h = tt
Halted-event (opening x) d e l v h = tt
Halted-event (connected x) d e l v h = tt
Halted-event (greeted x) d e l v h = tt
Halted-event result_flag d e l v h = tt
Halted-event result_state d e l v h = tt
Halted-event (announcing r) d e l v h = tt
Halted-event called d e l v h = tt
Halted-event disconnecting d e l v h = tt
Halted-event disconnected d e l v h = tt
Halted-event closing_down d e l (state, done) (f, g) = (f state, done)
Halted-event joining d e l (state, shut, done) (f, g) = (f state, g shut, done)

-- Connect() does not come into Disconnect().
abbrev GoesTo : Option (Client × List Action × Driver) → Type 0
GoesTo none = Unit {0}
GoesTo (some (c, code, d)) = Halted c d code

connect_step-GoesTo :
    (calls : List Action) (c : Client) (d : Driver) → GoesTo (connect_step calls c d)
unfolding connect_step
connect_step-GoesTo calls idle d = tt
connect_step-GoesTo calls (entered bad_address) d = tt
connect_step-GoesTo calls (entered refused) d = tt
connect_step-GoesTo calls (entered (established t)) d = tt
connect_step-GoesTo calls (opening bad_address) d = tt
connect_step-GoesTo calls (opening refused) d = tt
connect_step-GoesTo calls (opening (established t)) d = tt
connect_step-GoesTo calls (connected x) d = tt
connect_step-GoesTo calls (greeted bad_address) d = tt
connect_step-GoesTo calls (greeted refused) d = tt
connect_step-GoesTo calls (greeted (established true)) d = tt
connect_step-GoesTo calls (greeted (established false)) d = tt
connect_step-GoesTo calls result_flag d = elim (Bool-cases d.socket_ok) [
  | inl p ↦ rw p tt
  | inr p ↦ rw p tt
]
connect_step-GoesTo calls result_state d = tt
connect_step-GoesTo calls (announcing r) d = tt
connect_step-GoesTo calls called d = tt
connect_step-GoesTo calls disconnecting d = tt
connect_step-GoesTo calls closing_down d = tt
connect_step-GoesTo calls joining d = tt
connect_step-GoesTo calls disconnected d = tt

close_down-IsHalted :
    (b : Bool) (s : System) → s.driver.state ≡ stopping → IsHalted (close_down b s)
unfolding close_down
close_down-IsHalted b s h =
    let (state, shut) = close_socket-fields b s.driver in
    elim (Bool-cases (close_socket b s.driver).0) [
      | inl p ↦ rw p (state ∙ h, shut, refl)
      | inr p ↦ rw p tt
    ]

Step-IsHalted : {s t : System} {own : Bool} → Step s own t → IsHalted s → IsHalted t
unfolding begin_disconnect end_disconnect check_messages check_failed
Step-IsHalted {s} (client_acts own code d x) v =
    Halted-client s.client s.driver d s.client_code code v (Exec-begun x)
Step-IsHalted {s} (event_acts own code d x) v =
    Halted-event s.client s.driver d s.client_code v (Exec-stopping x)
Step-IsHalted (connects c id e l) v = tt
Step-IsHalted {s} (connect_goes calls c code d l e) v =
    subst GoesTo e (connect_step-GoesTo calls s.client s.driver)
Step-IsHalted (client_sends e l) v = tt
Step-IsHalted (disconnects calls e l) v = tt
Step-IsHalted (begins e l) v = (refl, refl)
Step-IsHalted {s} (shuts b e) v =
    close_down-IsHalted b s (subst (λ c. Halted c s.driver s.client_code) e v).0
Step-IsHalted (joins e p l) v = tt
Step-IsHalted (ends e) v = tt
Step-IsHalted (starts p) v = v
Step-IsHalted (wakes p l r) v = v
Step-IsHalted (polls p) v = v
Step-IsHalted (checks calls processed p r) v = v
Step-IsHalted (fails calls reports p r) v = v
Step-IsHalted (leaves p r) v = v
Step-IsHalted (checked processed p l) v = v
Step-IsHalted (stops p) v = v

Reach-IsHalted : {s t : System} → IsHalted s → Reach s t → IsHalted t
Reach-IsHalted v here = v
Reach-IsHalted v (next own r st) = Step-IsHalted st (Reach-IsHalted v r)

-- In every interleaving of the threads of a new driver, whatever its socket does and the protocol handler
-- calls: while the client closes the socket in Disconnect() the driver is stopping, and while it waits for
-- the event thread to end the driver is stopping with its socket closed.
pub reachable-IsHalted : (callback : Bool) (t : System) → Reach (new_system callback) t → IsHalted t
reachable-IsHalted callback t r = Reach-IsHalted tt r
