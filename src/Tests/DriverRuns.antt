-- ===== src/Tests/DriverRuns.antt =====
-- The driver at concrete inputs: a connection that is refused, and one that is made and ends while the event
-- thread is in a receive.
use atp.Common.{Bool, ◌≡◌, refl, true, false, [], ◌∷◌}
use atp.Common.Int.{pos}
use atp.Driver.{refused, established}
use atp.Driver.Threads.{
  System, new_system, joining, Step, counts, loses, notifies, connects, connect_goes, disconnects,
  begins, shuts, starts, wakes, polls, checks, client_acts, event_acts, receiving, Reach, here,
  next, connect_step, begin_disconnect, close_down, check_messages,
}
use atp.Driver.Safety.{IsHalted, reachable-IsHalted}
use atp.Driver.Joining.{before_loop, Joins, reachable-stuck, reachable-Joins}

abbrev new : System
new = new_system true

-- A state with the way to it.
abbrev Run : Type 0
Run = (t : System) × Reach new t

abbrev go : (r : Run) {own : Bool} {u : System} → Step r.0 own u → Run
go r {own} {u} st = (u, next own r.1 st)

-- Connect(), which the socket refuses.
abbrev entered_run : Run
entered_run = go (new, here) (connects refused (pos 1) refl refl)

abbrev refused_run : Run
unfolding connect_step
refused_run =
    let r2 = go entered_run (connect_goes [] _ _ _ refl refl) in
    let r3 = go r2 (client_acts true _ _ (counts _ _)) in
    let r4 = go r3 (connect_goes [] _ _ _ refl refl) in
    let r5 = go r4 (client_acts true _ _ (counts _ _)) in
    let r6 = go r5 (client_acts true _ _ (loses _)) in
    let r7 = go r6 (connect_goes [] _ _ _ refl refl) in go r7 (connect_goes [] _ _ _ refl refl)

-- Disconnect() with no calls, of a socket that closes.
abbrev given_up : Run
unfolding begin_disconnect close_down refused_run connect_step
given_up =
    let r1 = go refused_run (disconnects [] refl refl) in
    let r2 = go r1 (client_acts true _ _ (counts _ _)) in
    let r3 = go r2 (begins refl refl) in go r3 (shuts true refl)

reachable-IsHalted_example : IsHalted given_up.0
reachable-IsHalted_example = reachable-IsHalted true given_up.0 given_up.1

reachable-stuck_example : (given_up.0.client ≡ joining) × (before_loop given_up.0.place ≡ true)
unfolding close_down given_up
reachable-stuck_example = reachable-stuck true given_up.0 given_up.0 given_up.1 refl refl here

-- A connection that is made, while the event thread starts.
abbrev running_run : Run
unfolding connect_step
running_run =
    let r1 = go (new, here) (connects (established false) (pos 1) refl refl) in
    let r2 = go r1 (connect_goes [] _ _ _ refl refl) in
    let r3 = go r2 (client_acts true _ _ (counts _ _)) in
    let r4 = go r3 (connect_goes [] _ _ _ refl refl) in
    let r5 = go r4 (connect_goes [] _ _ _ refl refl) in
    let r6 = go r5 (starts refl) in
    let r7 = go r6 (connect_goes [] _ _ _ refl refl) in
    let r8 = go r7 (connect_goes [] _ _ _ refl refl) in
    let r9 = go r8 (connect_goes [] _ _ _ refl refl) in
    let r10 = go r9 (connect_goes [] _ _ _ refl refl) in
    go r10 (client_acts true _ _ (notifies _ _))

-- The event thread comes to its loop, and receives when the client disconnects.
abbrev receiving_run : Run
unfolding check_messages begin_disconnect close_down running_run connect_step
receiving_run =
    let r1 = go running_run (event_acts true _ _ (notifies _ _)) in
    let r2 = go r1 (wakes refl refl refl) in
    let r3 = go r2 (polls refl) in
    let r4 = go r3 (checks (receiving ∷ []) true refl refl) in
    let r5 = go r4 (disconnects [] refl refl) in
    let r6 = go r5 (client_acts true _ _ (counts _ _)) in
    let r7 = go r6 (begins refl refl) in go r7 (shuts true refl)

reachable-Joins_example : Joins receiving_run.0
unfolding close_down check_messages receiving_run
reachable-Joins_example = reachable-Joins true receiving_run.0 receiving_run.1 refl refl
