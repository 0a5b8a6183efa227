-- ===== src/Sessions/Initiator.antt =====
-- The initiator of sessions (ib/SocketInitiator.cpp). A publisher is the address that it takes messages
-- from; what a connector's `connect` returns is an argument.
use atp.Common.{
  ℕ, ◌%◌, ◌^◌, Bool, true, false, not, ltb, ◌&&◌, ◌||◌, Option, none, some, List, [], ◌∷◌, ◌++◌,
  if◌then◌else◌, ◌==◌, ◌>>=◌,
}
use atp.Common.Int.{ℤ, to_size}
use atp.Common.Eq.{nat_eq, int_eq}
use atp.Common.Map.{Map, find, assign, has}
use atp.Common.Text.{Str, str_eq, codes}
use atp.Contracts.{print_int}
use atp.Sessions.{SessionSetting}

-- The calls of the strategy's callbacks and of the connectors.
pub data Event : Type 0 where
  connected : (session_id : ℕ) → Event
  skipped_connection : (session_id : ℕ) → Event
  failed : (session_id : ℕ) → Event
  disconnected : (session_id : ℕ) → Event

pub record Initiator : Type 0 where
  pub session_settings : List SessionSetting
  pub connectors : Map ℕ SessionSetting
  pub outbound_channels : Map ℤ Str
  pub publishers : Map Str Str
  pub running : Bool
  pub events : List Event

-- The constructor.
abbrev pub new_initiator : List SessionSetting → Initiator
new_initiator settings = record {
  session_settings = settings;
  connectors = [];
  outbound_channels = [];
  publishers = [];
  running = false;
  events = [];
}

abbrev pub inproc : ℤ → Str
inproc channel = codes "inproc://channel-" ++ print_int channel

-- A publisher is made for an address that has none.
abbrev pub with_publisher : Str → Str → Map Str Str → Map Str Str
with_publisher address inbound publishers = elim (find address publishers) [
  | none ↦ assign address inbound publishers
  | some old ↦ publishers
]

-- publish(channel, address); none is the RuntimeError of an initiator that runs.
unfoldable pub publish : ℤ → Str → Initiator → Option Initiator
unfolding find assign
publish channel address i =
    if i.running
    then none
    else some (elim (find channel i.outbound_channels) [
      | none ↦ record i {
        publishers = with_publisher address (inproc channel) i.publishers;
        outbound_channels = assign channel (inproc channel) i.outbound_channels;
      }
      | some old ↦ i
    ])

-- push(channel, address)
unfoldable pub push : ℤ → Str → Initiator → Option Initiator
unfolding find assign
push channel address i =
    if i.running
    then none
    else some (elim (find channel i.outbound_channels) [
      | none ↦ record i { outbound_channels = assign channel address i.outbound_channels }
      | some old ↦ i
    ])

-- Configure(initiator, outboundMap, publish), on the entries of the map in their order.
unfoldable pub configure : Map ℤ Str → (publishes : Bool) → Initiator → Option Initiator
unfolding publish push
configure [] publishes i = some i
configure ((channel, endpoint) ∷ m) publishes i = do
  i' ← if publishes then publish channel endpoint i else push channel endpoint i
  configure m publishes i'

abbrev pub happened : Event → Initiator → Initiator
happened e i = record i { events = i.events ++ (e ∷ []) }

-- start() ends, or the program is aborted by LOG(FATAL).
pub data Started : Type 0 where
  started : Initiator → Started
  aborted : Initiator → Started

-- socketConnectors_[id], of an id that has no connector: the map is in the order of the ids.
unfoldable pub register : ℕ → SessionSetting → Map ℕ SessionSetting → Map ℕ SessionSetting
register id s [] = (id, s) ∷ []
register id s ((j, t) ∷ connectors) =
    let rest = register id s connectors in
    if ltb id j then (id, s) ∷ (j, t) ∷ connectors else (j, t) ∷ rest

-- The loop of start(connect): `starts` is the result of starting a connector with a setting, and `connects`
-- that of connecting it, which `id` gets.
unfoldable pub start_all :
    (starts : SessionSetting → Bool)
    → (connects : SessionSetting → ℤ) → (connect : Bool) → List SessionSetting
    → Initiator
    → Started
unfolding has register
start_all starts connects connect [] i = started i
start_all starts connects connect (s ∷ settings) i =
    let registered = record i { connectors = register s.session_id s i.connectors } in
    let skips = start_all starts connects connect settings i in
    let goes_on = start_all starts connects connect settings (
      happened (if connect then connected s.session_id else skipped_connection s.session_id)
        registered) in
    if has s.session_id i.connectors
    then skips
    else if not (starts s) || (connect && not (to_size (connects s) % 2 ^ 32 == s.session_id))
    then aborted (happened (failed s.session_id) registered)
    else goes_on

abbrev pub runs : Started → Started
runs (started i) = started (record i { running = true })
runs (aborted i) = aborted i

unfoldable pub start :
    (starts : SessionSetting → Bool)
    → (connects : SessionSetting → ℤ) → (connect : Bool) → Initiator
    → Started
unfolding start_all
start starts connects connect i = runs (start_all starts connects connect i.session_settings i)

-- The loop of stop(force), where `stops` is whether the connector of an id is stopped.
unfoldable pub stop_all : (stops : ℕ → Bool) → Map ℕ SessionSetting → Initiator → Initiator
stop_all stops [] i = i
stop_all stops ((id, s) ∷ connectors) i =
    stop_all stops connectors (happened (if stops id then disconnected id else failed id) i)

unfoldable pub stop : (stops : ℕ → Bool) → Initiator → Initiator
unfolding stop_all
stop stops i = if i.running then record (stop_all stops i.connectors i) { running = false } else i

-- isLoggedOn()
abbrev pub is_logged_on : Initiator → Bool
is_logged_on i = i.running
