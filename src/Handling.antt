-- ===== src/Handling.antt =====
-- Handlers of messages that call back: platform/marketdata_handler.hpp with its instance for market
-- data, platform/marketdata_handler_proto_impl.hpp, and platform/generic_handler.hpp with its instance
-- for control messages. A callback is a function on the state of the program.
pub mod Bound
use atp.Common.{ℕ, Bool, true, false, Option, none, some, List, [], ◌∷◌, if◌then◌else◌}
use atp.Common.Int.{ℤ, pos, negsuc, to_size}
use atp.Common.Map.{Map, find, assign, insert}
use atp.Common.Text.{Str, str_eq}
use atp.Historian.Messages.{
  Value, ValueType, type_double, type_int, type_string, type_timestamp, MarketData, to_int,
}

-- error_code
abbrev pub dispatched : ℤ
dispatched = pos 1

abbrev pub no_updater_continue : ℤ
no_updater_continue = pos 2

abbrev pub exception : ℤ
exception = negsuc 199

-- update_event<V>::func: whether the call returned, with the state that it leaves; it may throw.
abbrev pub Callback {ℓ} : Type 0 → Type ℓ → Type ℓ
Callback V S = ℕ → V → S → Bool × S

-- The type that a value is given to a callback in.
abbrev pub Payload : ValueType → Type 0
Payload type_double = ℕ
Payload type_int = ℤ
Payload type_string = Str
Payload type_timestamp = ℕ

abbrev pub payload : (t : ValueType) → Value → Payload t
payload type_double v = v.double_value
payload type_int v = to_int v.int_value
payload type_string v = v.string_value
payload type_timestamp v = to_size v.timestamp_value

module _ {ℓ} {S : Type ℓ} where
  -- typed_dispatcher<V>: bind keeps a callback that is there.
  unfoldable pub bind_typed :
      {V : Type 0} → Str → Callback V S → Map Str (Callback V S) → Map Str (Callback V S)
  unfolding insert
  bind_typed event_code cb dispatch_map = (insert event_code cb dispatch_map).0

  unfoldable pub dispatch : {V : Type 0} → Map Str (Callback V S) → Str → ℕ → V → S → ℤ × S
  unfolding find
  dispatch dispatch_map event ts v s = elim (find event dispatch_map) [
    | none ↦ (no_updater_continue, s)
    | some cb ↦ let (completed, t) = cb ts v s in (if completed then dispatched else exception, t)
  ]

-- value_updater
pub record Updaters {ℓ} (S : Type ℓ) : Type ℓ where
  pub int_dispatcher : Map Str (Callback ℤ S)
  pub double_dispatcher : Map Str (Callback ℕ S)
  pub string_dispatcher : Map Str (Callback Str S)
  pub timestamp_dispatcher : Map Str (Callback ℕ S)

abbrev pub no_updaters {ℓ} : {S : Type ℓ} → Updaters S
no_updaters = record {
  int_dispatcher = [];
  double_dispatcher = [];
  string_dispatcher = [];
  timestamp_dispatcher = [];
}

-- The argument of the four functions `bind`.
pub data Updater {ℓ} (S : Type ℓ) : Type ℓ where
  on_double : Callback ℕ S → Updater S
  on_int : Callback ℤ S → Updater S
  on_string : Callback Str S → Updater S
  on_timestamp : Callback ℕ S → Updater S

module _ {ℓ} {S : Type ℓ} where
  unfoldable pub bind : Str → Updater S → Updaters S → Updaters S
  unfolding bind_typed
  bind event (on_double f) u = record u {
    double_dispatcher = bind_typed event f u.double_dispatcher;
  }
  bind event (on_int f) u = record u { int_dispatcher = bind_typed event f u.int_dispatcher }
  bind event (on_string f) u = record u {
    string_dispatcher = bind_typed event f u.string_dispatcher;
  }
  bind event (on_timestamp f) u = record u {
    timestamp_dispatcher = bind_typed event f u.timestamp_dispatcher;
  }

  abbrev pub dispatcher : (t : ValueType) → Updaters S → Map Str (Callback (Payload t) S)
  dispatcher type_double u = u.double_dispatcher
  dispatcher type_int u = u.int_dispatcher
  dispatcher type_string u = u.string_dispatcher
  dispatcher type_timestamp u = u.timestamp_dispatcher

  -- value_updater::operator(): the switch on the type.
  unfoldable pub update : Updaters S → ℕ → Str → MarketData → S → ℤ × S
  unfolding dispatch
  update u ts event_code event s =
      dispatch (dispatcher event.value.type u) event_code ts (payload event.value.type event.value)
        s

  -- marketdata_handler::process_event, where `parse` is ParseFromString.
  unfoldable pub process_event :
      (parse : Str → Option MarketData) → Updaters S → (key msg : Str) → S → ℤ × S
  unfolding update
  process_event parse u key msg s = elim (parse msg) [
    | none ↦ (negsuc 0, s)
    | some event ↦ update u event.timestamp event.event event s
  ]

-- proto::platform::ControlMessage, as far as the handler reads it.
pub record ControlMessage : Type 0 where
  pub timestamp : ℕ

-- generic_handler: what a handler gives is its result.
abbrev pub MessageHandler {ℓ} : Type ℓ → Type ℓ
MessageHandler S = ℕ → ControlMessage → S → ℤ × S

module _ {ℓ} {S : Type ℓ} where
  -- generic_handler::bind replaces a handler that is there.
  unfoldable pub bind_handler :
      Str → MessageHandler S → Map Str (MessageHandler S) → Map Str (MessageHandler S)
  unfolding assign
  bind_handler key handler handlers = assign key handler handlers

  -- generic_handler::operator()
  unfoldable pub process_message :
      (parse : Str → Option ControlMessage)
      → Map Str (MessageHandler S)
      → (key msg : Str) → S
      → ℤ × S
  unfolding find
  process_message parse handlers key msg s = elim (parse msg) [
    | none ↦ (negsuc 0, s)
    | some event ↦ elim (find key handlers) [
      | none ↦ (negsuc 0, s)
      | some handler ↦ handler event.timestamp event s
    ]
  ]
