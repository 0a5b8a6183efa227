-- ===== src/Driver/Joining.antt =====
-- When the wait of Disconnect() for the event thread ends, and when it does not.
use atp.Common.{
  ℕ, ◌+◌, ◌<◌, ◌≡◌, refl, sym, ap, ◌∙◌, subst, ◌⊎◌, inl, inr, Bool, true, false, List, [], ◌∷◌,
  arith, none, some, if◌then◌else◌,
}
use atp.Driver.{Driver, stopping, is_running}
use atp.Driver.Threads.{
  Action, counted, notified, socket_lost, state_stopping, closing, sending, receiving, Exec, counts,
  notifies, loses, halts, closes, sends, send_throws, receives, receive_breaks, receive_throws,
  Client, joining, disconnected, Place, unstarted, waiting, polling, tested, checking, leaving,
  finished, System, new_system, connect_step, at_place, read_flag, Step, client_acts, event_acts,
  connects, connect_goes, client_sends, disconnects, begins, shuts, joins, ends, starts, wakes,
  polls, checks, fails, leaves, checked, stops, Reach, here, next,
}
use atp.Driver.Safety.{Halted, Exec-stopping, Exec-idle, reachable-IsHalted}

-- The event thread has not come to its loop.
abbrev pub before_loop : Place → Bool
before_loop unstarted = true
before_loop waiting = true
before_loop polling = false
before_loop tested = false
before_loop (checking processed) = false
before_loop leaving = false
before_loop finished = false

pub record IsJoining (s : System) (early : Bool) : Type 0 where
  pub waits : s.client ≡ joining
  pub halted : s.driver.state ≡ stopping
  pub shut : s.driver.open_socket ≡ false
  pub done : s.client_code ≡ []
  pub place : before_loop s.place ≡ early

-- No running driver.
not_running : (d : Driver) → d.state ≡ stopping → is_running d.state ≡ false
not_running d h = ap is_running h

early_event :
    {s : System} {own early : Bool} (code : List Action) (d : Driver)
    → Exec s.driver own s.event_code code d
    → IsJoining s early
    → IsJoining (record s { event_code = code; driver = d }) early
early_event code d x v =
    let (state, shut) = Exec-stopping x in
    record {
      waits = v.waits;
      halted = state v.halted;
      shut = shut v.shut;
      done = v.done;
      place = v.place;
    }

no_connect :
    (calls : List Action) (c c' : Client) (d d' : Driver) (code : List Action)
    → c ≡ joining
    → connect_step calls c d ≡ some (c', code, d')
    → ⊥
unfolding connect_step
no_connect calls c c' d d' code e h =
    let stuck : none ≡ connect_step calls c d = ap (λ x. connect_step calls x d) (sym e) in
    absurd (cc (stuck ∙ h))

Step-stuck : {s t : System} {own : Bool} → Step s own t → IsJoining s true → IsJoining t true
Step-stuck {s} (client_acts own code d x) v = absurd (Exec-idle s.client_code x v.done)
Step-stuck (event_acts own code d x) v = early_event code d x v
Step-stuck (connects c id e l) v = ground (arith, v.waits)
Step-stuck {s} (connect_goes calls c code d l e) v =
    absurd (no_connect calls s.client c s.driver d code v.waits e)
Step-stuck (client_sends e l) v = ground (arith, v.waits)
Step-stuck (disconnects calls e l) v = ground (arith, v.waits)
Step-stuck (begins e l) v = ground (arith, v.waits)
Step-stuck (shuts b e) v = ground (arith, v.waits)
Step-stuck (joins e p l) v = ground (arith, v.place)
Step-stuck (ends e) v = ground (arith, v.waits)
Step-stuck (starts p) v = record {
  waits = v.waits;
  halted = v.halted;
  shut = v.shut;
  done = v.done;
  place = refl;
}
Step-stuck (wakes p l r) v = ground (arith, v.halted)
Step-stuck (polls p) v = ground (arith, v.place)
Step-stuck (checks calls processed p r) v = ground (arith, v.place)
Step-stuck (fails calls reports p r) v = ground (arith, v.place)
Step-stuck (leaves p r) v = ground (arith, v.place)
Step-stuck (checked processed p l) v = ground (arith, v.place)
Step-stuck (stops p) v = ground (arith, v.place)

Reach-stuck : {s t : System} → IsJoining s true → Reach s t → IsJoining t true
Reach-stuck v here = v
Reach-stuck v (next own r st) = Step-stuck st (Reach-stuck v r)

joining-IsJoining :
    (callback : Bool) (s : System)
    → Reach (new_system callback) s
    → s.client ≡ joining
    → IsJoining s (before_loop s.place)
joining-IsJoining callback s r e =
    let (state, shut, done) =
      subst (λ c. Halted c s.driver s.client_code) e (reachable-IsHalted callback s r) in
    record { waits = e; halted = state; shut = shut; done = done; place = refl }

-- A client whose Disconnect() waits for an event thread that has not come to its loop, as after a
-- connection that failed, waits for ever, whatever the threads do: the event thread waits for a
-- driver that runs.
pub reachable-stuck :
    (callback : Bool) (s t : System)
    → Reach (new_system callback) s
    → s.client ≡ joining
    → before_loop s.place ≡ true
    → Reach s t
    → (t.client ≡ joining) × (before_loop t.place ≡ true)
reachable-stuck callback s t r e b r' =
    let v = joining-IsJoining callback s r e in
    let v' =
      Reach-stuck
        (record { waits = v.waits; halted = v.halted; shut = v.shut; done = v.done; place = b })
        r' in
    (v'.waits, v'.place)

-- The steps that a thread needs at most for what is left of its call, once the socket is closed.
abbrev pub work : List Action → ℕ
work [] = 0
work (counted f ∷ l) = 1 + work l
work (notified n ∷ l) = 1 + work l
work (socket_lost ∷ l) = 1 + work l
work (state_stopping ∷ l) = 1 + work l
work (closing ∷ l) = 1 + work l
work (sending ∷ l) = 4 + work l
work (receiving ∷ l) = 5 + work l

-- And then from its place, when the driver does not run.
abbrev pub work_from : Place → ℕ
work_from unstarted = 0
work_from waiting = 0
work_from polling = 5
work_from tested = 4
work_from (checking processed) = 6
work_from leaving = 3
work_from finished = 0

-- The steps of the event thread that are left.
abbrev pub left : System → ℕ
left s = work s.event_code + work_from s.place

Exec-work : {d e : Driver} {own : Bool} {l m : List Action} → Exec d own l m e → work m < work l
Exec-work (counts f l) = omega arith
Exec-work (notifies n l) = omega arith
Exec-work (loses l) = omega arith
Exec-work (halts l) = omega arith
Exec-work (closes b l) = omega arith
Exec-work (sends micros l) = omega arith
Exec-work (send_throws l) = omega arith
Exec-work (receives l e) = omega arith
Exec-work (receive_breaks l e) = omega arith
Exec-work (receive_throws l e) = omega arith

-- What a system does whose client waits for an event thread that has come to its loop: it has a step that
-- waits for nothing outside, and each step leaves fewer steps to the event thread, whose client still
-- waits, or ends the wait, with nothing left to the event thread.
pub record Joins (s : System) : Type 0 where
  pub goes_on : (t : System) × Step s true t
  pub nearer :
      (own : Bool) (t : System)
      → Step s own t
      → ((left t < left s) × IsJoining t false) ⊎ ((t.client ≡ disconnected) × (left t ≡ 0))

act_on :
    (d : Driver) (a : Action) (l : List Action)
    → d.open_socket ≡ false
    → (m : List Action) × (e : Driver) × Exec d true (a ∷ l) m e
act_on d (counted f) l h = (_, _, counts f l)
act_on d (notified n) l h = (_, _, notifies n l)
act_on d socket_lost l h = (_, _, loses l)
act_on d state_stopping l h = (_, _, halts l)
act_on d closing l h = (_, _, closes true l)
act_on d sending l h = (_, _, send_throws l)
act_on d receiving l h = (_, _, receive_throws l h)

going_on :
    (d : Driver) (c : Client) (code : List Action) (p : Place) (l : List Action)
    → IsJoining
        (record { driver = d; client = c; client_code = code; place = p; event_code = l })
        false
    → (t : System) × Step
        (record { driver = d; client = c; client_code = code; place = p; event_code = l })
        true
        t
going_on d c code p (a ∷ l) v = let (m, e, x) = act_on d a l v.shut in (_, event_acts true m e x)
going_on d c code unstarted [] v = ground (arith, v.place)
going_on d c code waiting [] v = ground (arith, v.place)
going_on d c code polling [] v = (_, polls refl)
going_on d c code tested [] v = (_, leaves refl (not_running d v.halted))
going_on d c code (checking processed) [] v = (_, checked processed refl refl)
going_on d c code leaving [] v = (_, stops refl)
going_on d c code finished [] v = (_, joins v.waits refl refl)

-- The event thread moves to another place of its loop.
moves :
    {s : System} (p : Place) (l : List Action)
    → IsJoining s false
    → before_loop p ≡ false
    → work l + work_from p < left s
    → (left (at_place p l s) < left s) × IsJoining (at_place p l s) false
moves p l v b h =
    (h, record { waits = v.waits; halted = v.halted; shut = v.shut; done = v.done; place = b })

flag_left : (b : Bool) → work_from (if b then tested else leaving) < 5
flag_left true = omega arith
flag_left false = omega arith

flag_loop : (b : Bool) → before_loop (if b then tested else leaving) ≡ false
flag_loop true = refl
flag_loop false = refl

checked_left : (b : Bool) → work_from (if b then polling else leaving) < 6
checked_left true = omega arith
checked_left false = omega arith

checked_loop : (b : Bool) → before_loop (if b then polling else leaving) ≡ false
checked_loop true = refl
checked_loop false = refl

Step-nearer :
    {s t : System} {own : Bool}
    → Step s own t
    → IsJoining s false
    → ((left t < left s) × IsJoining t false) ⊎ ((t.client ≡ disconnected) × (left t ≡ 0))
Step-nearer {s} (client_acts own code d x) v = absurd (Exec-idle s.client_code x v.done)
Step-nearer (event_acts own code d x) v = inl (omega (arith, Exec-work x), early_event code d x v)
Step-nearer (connects c id e l) v = ground (arith, v.waits)
Step-nearer {s} (connect_goes calls c code d l e) v =
    absurd (no_connect calls s.client c s.driver d code v.waits e)
Step-nearer (client_sends e l) v = ground (arith, v.waits)
Step-nearer (disconnects calls e l) v = ground (arith, v.waits)
Step-nearer (begins e l) v = ground (arith, v.waits)
Step-nearer (shuts b e) v = ground (arith, v.waits)
Step-nearer (joins e p l) v = inr (refl, rw (p, l) refl)
Step-nearer (ends e) v = ground (arith, v.waits)
Step-nearer (starts p) v = ground (arith, v.place)
Step-nearer (wakes p l r) v = ground (arith, v.place)
Step-nearer {s} (polls p) v =
    let here : work_from s.place ≡ 5 = ap work_from p in
    inl (
      moves (read_flag s.driver) [] v (flag_loop s.driver.socket_ok)
        (omega (arith, here, flag_left s.driver.socket_ok)))
Step-nearer (checks calls processed p r) v = ground (arith, v.halted)
Step-nearer (fails calls reports p r) v = ground (arith, v.halted)
Step-nearer {s} (leaves p r) v =
    let here : work_from s.place ≡ 4 = ap work_from p in
    inl (moves leaving [] v refl (omega (arith, here)))
Step-nearer {s} (checked processed p l) v =
    let here : work_from s.place ≡ 6 = ap work_from p in
    inl (
      moves (if processed then polling else leaving) [] v (checked_loop processed)
        (omega (arith, here, checked_left processed)))
Step-nearer {s} (stops p) v =
    let here : work_from s.place ≡ 3 = ap work_from p in
    inl (moves finished _ v refl (omega (arith, here)))

-- When Disconnect() waits for an event thread that has come to its loop, also for one that is blocked in a
-- receive, the wait ends: as long as it lasts there is a step that waits for nothing outside the driver, and
-- every step either leaves fewer steps to the event thread, or is the return from the wait, with nothing
-- left to the event thread.
pub reachable-Joins :
    (callback : Bool) (s : System)
    → Reach (new_system callback) s
    → s.client ≡ joining
    → before_loop s.place ≡ false
    → Joins s
reachable-Joins callback s r e b =
    let v = joining-IsJoining callback s r e in
    let v' : IsJoining s false = record {
      waits = v.waits;
      halted = v.halted;
      shut = v.shut;
      done = v.done;
      place = b;
    } in
    record {
      goes_on = going_on s.driver s.client s.client_code s.place s.event_code v';
      nearer = λ own t st. Step-nearer st v';
    }
