-- ===== src/Tests/SessionRuns.antt =====
-- Sessions at concrete inputs: a flag that is read, channels that are published, connections that are
-- retried, and an initiator that is started again.
use atp.Common.{
  ltb, Bool, ℕ, zero, suc, ◌<◌, ◌≡◌, ◌≢◌, refl, ap, true, false, Option, none, some, [], ◌∷◌, All,
  arith,
}
use atp.Common.Eq.{int_eq}
use atp.Common.Int.{ℤ, pos, negsuc}
use atp.Common.Map.{Map, find, has}
use atp.Common.Text.{Str, codes, digits, value_from, value-digits, str_eq}
use atp.Common.Split.{split_from}
use atp.Sessions.{SessionSetting, parse_session_settings, parse_session_setting, getline}
use atp.Sessions.Flags.{
  all_written, CastsUnsigned, CastsInt, IsPlain, parse_session_settings-written,
}
use atp.Sessions.Initiator.{
  Initiator, new_initiator, configure, publish, start, started, stop, inproc, disconnected,
}
use atp.Sessions.Served.{Served, configure-Served}
use atp.Sessions.Shared.{SetUp, made, published, publish-SetUp}
use atp.Sessions.Restarted.{start-stop}
use atp.Sessions.Outbound.{
  Outbound, new_outbound, on_event_thread_start, IsOpened, on_event_thread_start-IsOpened,
}
use atp.Sessions.Connect.{
  Attempt, refused, silent, connected, Connecting, connect, Connected, connect-Connected,
}

cast_unsigned : Str → Option ℕ
cast_unsigned s = some (value_from 0 s)

cast_int : Str → Option ℤ
cast_int s = some (pos (value_from 0 s))

cast_unsigned-CastsUnsigned : CastsUnsigned cast_unsigned
unfolding cast_unsigned
cast_unsigned-CastsUnsigned n h = ap (λ v. some v) (value-digits 20 n (omega arith))

cast_int-CastsInt : CastsInt cast_int
unfolding cast_int
cast_int-CastsInt n h = ap (λ v. some (pos v)) (value-digits 20 n (omega arith))

abbrev trading : SessionSetting
trading = record {
  session_id = 1;
  host = codes "127.0.0.1";
  port = 4001;
  reactor = codes "tcp://*:6666";
}

abbrev watching : SessionSetting
watching = record { session_id = 2; host = codes "gw"; port = 4002; reactor = codes "tcp://*:6667" }

trading-IsPlain : IsPlain trading
trading-IsPlain = record {
  host_end = refl;
  host_colon = refl;
  host_comma = refl;
  reactor_word = refl;
  reactor_comma = refl;
  small_id = omega arith;
  small_port = omega arith;
}

watching-IsPlain : IsPlain watching
watching-IsPlain = record {
  host_end = refl;
  host_colon = refl;
  host_comma = refl;
  reactor_word = refl;
  reactor_comma = refl;
  small_id = omega arith;
  small_port = omega arith;
}

parse_session_settings-written_example :
    parse_session_settings cast_unsigned cast_int (all_written trading (watching ∷ []))
    ≡ some (trading ∷ watching ∷ [])
parse_session_settings-written_example =
    parse_session_settings-written cast_unsigned cast_int cast_unsigned-CastsUnsigned
      cast_int-CastsInt trading (watching ∷ []) (trading-IsPlain, (watching-IsPlain, tt))

flag_written :
    all_written trading (watching ∷ [])
    ≡ codes "1=127.0.0.1:4001@tcp://*:6666,2=gw:4002@tcp://*:6667"
unfolding digits
flag_written = refl

-- A setting of which the address has no port is not read.
no_port : parse_session_setting cast_unsigned cast_int (codes "1=gw@tcp://*:6666") ≡ none
unfolding parse_session_setting getline split_from cast_unsigned
no_port = refl

abbrev sessions : Initiator
sessions = new_initiator (trading ∷ watching ∷ [])

abbrev channels : Map ℤ Str
channels = (pos 0, codes "tcp://*:7777") ∷ (pos 1, codes "tcp://*:7778") ∷ []

different : pos 0 ≢ pos 1
different e =
    let value : ℤ → ℕ = λ z. elim z [ pos n ↦ n | negsuc n ↦ 0 ] in
    let h : value (pos 0) ≡ value (pos 1) = ap value e in absurd (omega (arith, h))

elsewhere : codes "tcp://*:7777" ≢ codes "tcp://*:7778"
elsewhere e =
    let h : value_from 0 (codes "tcp://*:7777") ≡ value_from 0 (codes "tcp://*:7778") =
      ap (value_from 0) e in
    absurd (omega arith)

configure-Served_example :
    (i : Initiator) × (configure channels true sessions ≡ some i) × All (Served i) channels
unfolding find
configure-Served_example =
    configure-Served channels sessions refl (((different, elsewhere), tt), (tt, tt))
      ((refl, refl), ((refl, refl), tt))

-- Two channels at one endpoint: the second is sent to where nothing takes its messages.
abbrev shared : Initiator
shared = record sessions {
  publishers = (codes "tcp://*:7777", inproc (pos 0)) ∷ [];
  outbound_channels = (pos 0, inproc (pos 0)) ∷ (pos 1, inproc (pos 1)) ∷ [];
}

one_endpoint :
    configure ((pos 0, codes "tcp://*:7777") ∷ (pos 1, codes "tcp://*:7777") ∷ []) true sessions
    ≡ some shared
unfolding configure
one_endpoint = refl

-- The first attempt is refused, the second is not answered, the third connects.
abbrev attempts : ℕ → Attempt
attempts zero = refused
attempts (suc zero) = silent
attempts (suc (suc n)) = connected

before_third : (j : ℕ) → j < 2 → attempts j ≢ connected
before_third zero h e = absurd (cc e)
before_third (suc zero) h e = absurd (cc e)
before_third (suc (suc j)) h e = absurd (omega arith)

abbrev fresh : Connecting
fresh = record { retries = 0; timeouts = 0; resets = 0; on_connects = 0; on_timeouts = 0 }

connect-Connected_example :
    Connected attempts (pos 1) 2 fresh (connect attempts false (pos 0) (pos 1) 60 fresh)
connect-Connected_example =
    connect-Connected attempts (pos 1) (pos 0) 60 2 fresh (omega arith) refl before_third

abbrev logged_on : Initiator
logged_on = record sessions { connectors = (1, trading) ∷ (2, watching) ∷ []; running = true }

start-stop_example :
    start (λ s. true) (λ s. pos s.session_id) true (stop (λ id. true) logged_on)
    ≡ started (record logged_on { events = disconnected 1 ∷ disconnected 2 ∷ [] })
unfolding has find
start-stop_example =
    start-stop (λ s. true) (λ s. pos s.session_id) true (λ id. true) logged_on refl
      (refl, (refl, tt))

-- Channel 0 connects at the third attempt, and channel 1 never.
abbrev reaches : ℤ → Str → ℕ → Bool
reaches (pos zero) address retry = ltb 1 retry
reaches (pos (suc n)) address retry = false
reaches (negsuc n) address retry = false

on_event_thread_start-IsOpened_example :
    All (IsOpened reaches (on_event_thread_start reaches channels new_outbound)) channels
on_event_thread_start-IsOpened_example =
    on_event_thread_start-IsOpened reaches channels ((different, tt), (tt, tt))

abbrev opened : Outbound
opened = record { sockets = some ((pos 0, 0) ∷ []); made = 2; destroyed = [] }

started_thread : on_event_thread_start reaches channels new_outbound ≡ opened
unfolding on_event_thread_start
started_thread = refl

-- The initiator with the first of them.
abbrev one_channel : Initiator
one_channel = record shared { outbound_channels = (pos 0, inproc (pos 0)) ∷ [] }

one_channel-SetUp : SetUp sessions.session_settings one_channel
unfolding publish
one_channel-SetUp = published (pos 0) (codes "tcp://*:7777") made (omega arith) refl

publish-SetUp_example :
    (j : Initiator) × (publish (pos 1) (codes "tcp://*:7777") one_channel ≡ some j)
    × (find (pos 1) j.outbound_channels ≡ some (inproc (pos 1)))
    × ((e : Str) → find e j.publishers ≢ some (inproc (pos 1)))
unfolding find
publish-SetUp_example =
    publish-SetUp sessions.session_settings one_channel (pos 1) (codes "tcp://*:7777")
      (inproc (pos 0)) one_channel-SetUp refl (omega arith) refl refl
