-- ===== src/Broker/Ticks.antt =====
-- Where the events of the broker go.
use atp.Common.{
  ℕ, ◌+◌, ◌<◌, ◌^◌, ◌≡◌, refl, ap, ◌∙◌, ◌≢◌, true, Option, some, [], ◌∷◌, ◌++◌, length, get_elem?,
}
use atp.Common.Int.{ℤ, pos, to_size}
use atp.Common.Text.{Str, str_eq}
use atp.Contracts
use atp.Handling.{Updaters, dispatch, process_event, update}
use atp.Historian.Messages.{
  MarketData, double, int, string, to_int, Scalar, Content, empty_value, set_value_as,
}
use atp.Broker.Messages
use atp.Broker.Messages.{get_or, as_read}
use atp.Broker.OrderMarshall.{Order}
use atp.Broker.Requests.{Gateway, call_api}
use atp.Broker.Subscribed.{Subscription, request_of, call_api-subscribed}
use atp.Broker.TickTypes.{tick_type_names}
use atp.Broker.Dispatch.{
  Dispatcher, Times, counting, on_publish, on_completed_publish_request, publish, publish_known,
  publish_data, tick_price, tick_size, tick_generic, tick_string,
}
use atp.Tickers.Registry.{Contract, Tickers, get_subscription_key_from_id}

-- The message of a tick.
abbrev pub tick_message : Str → ℤ → Str → (s : Scalar) → Content s → Times → MarketData
tick_message topic ticker_id tick s value t = record {
  timestamp = t.micros;
  symbol = topic;
  event = tick;
  value = set_value_as s value empty_value;
  contract_id = to_size ticker_id;
}

-- The dispatcher after a message is sent.
abbrev pub published : Times → Str → Str → Dispatcher → Dispatcher
published t topic text d = counting (on_completed_publish_request t.start t.stop) (
    counting (on_publish t.start (length topic + length text))
      (record d { sent = d.sent ++ ((topic, text) ∷ []) }))

module _ (tickers : Tickers) (serialize : MarketData → Option Str) where
  publish-sent :
      (ticker_id : ℤ) (field : ℕ) (s : Scalar) (value : Content s) (t : Times) (d : Dispatcher)
      (topic tick text : Str)
      → get_subscription_key_from_id ticker_id tickers ≡ (true, topic)
      → get_elem? tick_type_names field ≡ some tick
      → serialize (tick_message topic ticker_id tick s value t) ≡ some text
      → d.connected ≡ true
      → publish tickers serialize ticker_id field s value t d ≡ some (published t topic text d)
  unfolding publish publish_known publish_data
  publish-sent ticker_id field s value t d topic tick text key name ser up =
      rw (publish, name, key, publish_known, publish_data, ser, up) refl

-- The events of a tick, as the broker's API calls them.
pub data Tick : Type 0 where
  price : ℕ → Tick
  size : ℤ → Tick
  generic : ℕ → Tick
  string_tick : Str → Tick

abbrev pub scalar_of : Tick → Scalar
scalar_of (price x) = double
scalar_of (size x) = int
scalar_of (generic x) = double
scalar_of (string_tick x) = string

abbrev pub content_of : (e : Tick) → Content (scalar_of e)
content_of (price x) = x
content_of (size x) = x
content_of (generic x) = x
content_of (string_tick x) = x

abbrev pub on_tick :
    Tickers → (MarketData → Option Str) → ℤ → ℕ → Tick → Times → Dispatcher → Option Dispatcher
on_tick tickers serialize id field (price x) = tick_price tickers serialize id field x
on_tick tickers serialize id field (size x) = tick_size tickers serialize id field x
on_tick tickers serialize id field (generic x) = tick_generic tickers serialize id field x
on_tick tickers serialize id field (string_tick x) = tick_string tickers serialize id field x

pub on_tick-publish :
    (tickers : Tickers) (serialize : MarketData → Option Str) (id : ℤ) (field : ℕ) (e : Tick)
    (t : Times) (d : Dispatcher)
    → on_tick tickers serialize id field e t d
      ≡ publish tickers serialize id field (scalar_of e) (content_of e) t d
unfolding tick_price tick_size tick_generic tick_string
on_tick-publish tickers serialize id field (price x) t d = refl
on_tick-publish tickers serialize id field (size x) t d = refl
on_tick-publish tickers serialize id field (generic x) t d = refl
on_tick-publish tickers serialize id field (string_tick x) t d = refl

-- What the handler of a client does with a tick of a name.
abbrev pub handled {ℓ} : {S : Type ℓ} → Updaters S → Tick → Str → ℕ → S → ℤ × S
handled u (price x) tick ts st = dispatch u.double_dispatcher tick ts x st
handled u (size x) tick ts st = dispatch u.int_dispatcher tick ts x st
handled u (generic x) tick ts st = dispatch u.double_dispatcher tick ts x st
handled u (string_tick x) tick ts st = dispatch u.string_dispatcher tick ts x st

-- The values that a field of a message can hold: an `int` has 32 bits.
abbrev pub IsTick : Tick → Type 0
IsTick (size x) = to_int x ≡ x
IsTick (price x) = Unit {0}
IsTick (generic x) = Unit {0}
IsTick (string_tick x) = Unit {0}

process_event-handled {ℓ} :
    {S : Type ℓ} (parse : Str → Option MarketData) (u : Updaters S) (topic text tick : Str) (id : ℤ)
    (e : Tick) (t : Times) (st : S)
    → IsTick e
    → parse text ≡ some (tick_message topic id tick (scalar_of e) (content_of e) t)
    → process_event parse u topic text st ≡ handled u e tick t.micros st
unfolding process_event update set_value_as
process_event-handled parse u topic text tick id (price x) t st v h = rw (process_event, h) refl
process_event-handled parse u topic text tick id (size x) t st v h =
    rw (process_event, h) (ap (λ i. dispatch u.int_dispatcher tick t.micros i st) v)
process_event-handled parse u topic text tick id (generic x) t st v h = rw (process_event, h) refl
process_event-handled parse u topic text tick id (string_tick x) t st v h =
    rw (process_event, h) refl

module _ (print_double : ℕ → Str) (new_contract : Contract) (new_order : Order) where
  -- After a request for a contract with an id has succeeded, a tick that the broker sends with that id is
  -- published under the key that the platform makes from the message of the request, and a client's
  -- handler that reads it calls the callback that is bound to the name of the tick's type with the tick's
  -- time and value, provided the text of the message parses to the message.
  pub on_tick-subscribed {ℓ} :
      {S : Type ℓ} (p : Messages.Contract) (s : Subscription) (g : Gateway)
      (serialize : MarketData → Option Str) (parse : Str → Option MarketData) (field : ℕ) (e : Tick)
      (t : Times) (d : Dispatcher) (tick text : Str) (u : Updaters S) (st : S)
      → (call_api print_double new_contract new_order (request_of p s) g).0 ≡ true
      → get_or p.id 0 ≢ 0
      → get_or p.id 0 < 2 ^ 63
      → get_elem? tick_type_names field ≡ some tick
      → IsTick e
      → d.connected ≡ true
      → serialize (
          tick_message
            (Contracts.symbol_from_contract print_double (as_read p))
            (pos (get_or p.id 0))
            tick
            (scalar_of e)
            (content_of e)
            t)
        ≡ some text
      → parse text
        ≡ some (
            tick_message
              (Contracts.symbol_from_contract print_double (as_read p))
              (pos (get_or p.id 0))
              tick
              (scalar_of e)
              (content_of e)
              t)
      → (on_tick
            (call_api print_double new_contract new_order (request_of p s) g).1.tickers
            serialize
            (pos (get_or p.id 0))
            field
            e
            t
            d
          ≡ some (published t (Contracts.symbol_from_contract print_double (as_read p)) text d))
        × (process_event parse u (Contracts.symbol_from_contract print_double (as_read p)) text st
            ≡ handled u e tick t.micros st)
  on_tick-subscribed p s g serialize parse field e t d tick text u st h known small name v up ser
        par =
      let topic = Contracts.symbol_from_contract print_double (as_read p) in
      let id = pos (get_or p.id 0) in
      let tickers = (call_api print_double new_contract new_order (request_of p s) g).1.tickers in
      let (key, call) =
        call_api-subscribed print_double new_contract new_order p s g h known small in
      (
        on_tick-publish tickers serialize id field e t d
            ∙ publish-sent tickers serialize id field (scalar_of e) (content_of e) t d topic tick
                text key name ser up,
        process_event-handled parse u topic text tick id e t st v par,
      )
