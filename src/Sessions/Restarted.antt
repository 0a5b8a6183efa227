-- ===== src/Sessions/Restarted.antt =====
-- What an initiator does when it is started again after it was stopped.
use atp.Common.{
  ℕ, ◌≡◌, refl, sym, ap, ◌∙◌, Bool, true, false, if◌then◌else◌, List, [], ◌∷◌, ◌++◌, All,
  append-nil, append_assoc,
}
use atp.Common.Int.{ℤ}
use atp.Common.Eq.{nat_eq}
use atp.Common.Map.{Map, has}
use atp.Sessions.{SessionSetting}
use atp.Sessions.Initiator.{
  Event, Initiator, happened, started, start_all, runs, start, stop_all, stop, disconnected, failed,
}

-- Every session has a connector.
abbrev pub AllRegistered : Initiator → Type 0
AllRegistered i = All (λ s. has s.session_id i.connectors ≡ true) i.session_settings

-- The calls of the strategy when connectors are stopped, in their order.
abbrev pub stopping : (stops : ℕ → Bool) → Map ℕ SessionSetting → List Event
stopping stops [] = []
stopping stops ((id, s) ∷ connectors) =
    (if stops id then disconnected id else failed id) ∷ stopping stops connectors

-- The initiator with further events.
abbrev pub after : List Event → Initiator → Initiator
after events i = record i { events = i.events ++ events }

start_all-registered :
    (starts : SessionSetting → Bool) (connects : SessionSetting → ℤ) (connect : Bool)
    (settings : List SessionSetting) (i : Initiator)
    → All (λ s. has s.session_id i.connectors ≡ true) settings
    → start_all starts connects connect settings i ≡ started i
unfolding start_all
start_all-registered starts connects connect [] i h = refl
start_all-registered starts connects connect (s ∷ settings) i (h, hs) =
    rw (start_all, h) (start_all-registered starts connects connect settings i hs)

stop_all-stopping :
    (stops : ℕ → Bool) (m : Map ℕ SessionSetting) (i : Initiator)
    → stop_all stops m i ≡ after (stopping stops m) i
unfolding stop_all
stop_all-stopping stops [] i =
    let rebuilt : List Event → Initiator = λ e. record i { events = e } in
    ap rebuilt (sym (append-nil i.events))
stop_all-stopping stops ((id, s) ∷ m) i =
    let event = if stops id then disconnected id else failed id in
    let rebuilt : List Event → Initiator = λ e. record i { events = e } in
    stop_all-stopping stops m (happened event i)
    ∙ ap rebuilt (append_assoc i.events (event ∷ []) (stopping stops m))

stop-stopping :
    (stops : ℕ → Bool) (i : Initiator)
    → i.running ≡ true
    → stop stops i ≡ record (after (stopping stops i.connectors) i) { running = false }
unfolding stop
stop-stopping stops i h =
    let chosen : Bool → Initiator =
      λ b. if b then record (stop_all stops i.connectors i) { running = false } else i in
    let idle : Initiator → Initiator = λ o. record o { running = false } in
    ap chosen h ∙ ap idle (stop_all-stopping stops i.connectors i)

-- An initiator that runs with a connector for every session, and is stopped and started again, stops its
-- connectors and tells the strategy, connects no session, and yet says that it is logged on.
pub start-stop :
    (starts : SessionSetting → Bool) (connects : SessionSetting → ℤ) (connect : Bool)
    (stops : ℕ → Bool) (i : Initiator)
    → i.running ≡ true
    → AllRegistered i
    → start starts connects connect (stop stops i)
      ≡ started (record (after (stopping stops i.connectors) i) { running = true })
unfolding start
start-stop starts connects connect stops i h all =
    ap (start starts connects connect) (stop-stopping stops i h)
    ∙ ap runs (
        start_all-registered starts connects connect i.session_settings
          (record (after (stopping stops i.connectors) i) { running = false }) all)
