-- ===== src/Subscriber.antt =====
-- The loop of a subscriber of market data (service/MarketDataSubscriber.hpp) with the administration of
-- its agent (service/ManagedAgent.hpp). What arrives on the socket is a list of frames and errors.
pub mod Loop
pub mod Variables
use atp.Common.{
  ℕ, ◌+◌, Bool, true, false, Option, none, some, List, [], ◌∷◌, ◌++◌, if◌then◌else◌, leb, ◌==◌,
  take, length,
}
use atp.Common.Map.{Map, find, assign}
use atp.Common.Text.{Str, str_eq, same, codes}
use atp.Subscriber.Variables.{Meter, no_meter, event_at, processed_at}
use atp.Historian.Messages.{MarketData, MarketDepth}
use atp.Historian.Keys.{entity_ib_market_depth}

-- The state of an agent and its subscriber: `socket` that there is one, what it connects and subscribes
-- to, the exported variables, and `readings`, the number of times that now_micros was read. The latency
-- offset is only logged.
pub record Subscriber {ℓ} (S : Type ℓ) : Type ℓ where
  pub socket : Bool
  pub endpoints : List Str
  pub topics : List (Bool × Str)
  pub subscribes : Str
  pub unsubscribes : Str
  pub market_data : Meter
  pub market_depth : Meter
  pub process_stopped : Bool
  pub readings : ℕ
  pub agent : S

abbrev pub AdminHandler {ℓ} : Type ℓ → Type ℓ
AdminHandler S = Str → Str → Subscriber S → Bool × Subscriber S

module _ {ℓ} {S : Type ℓ} where
  unfoldable pub connect : Str → Subscriber S → Bool × Subscriber S
  connect endpoint s =
      if s.socket
      then (true, record s { endpoints = s.endpoints ++ (endpoint ∷ []) })
      else (false, s)

  unfoldable pub subscribe : Str → Subscriber S → Bool × Subscriber S
  subscribe topic s =
      if s.socket
      then (
        true,
        record s {
          topics = s.topics ++ ((true, topic) ∷ []);
          subscribes = s.subscribes ++ (topic ++ codes " ");
        },
      )
      else (false, s)

  unfoldable pub unsubscribe : Str → Subscriber S → Bool × Subscriber S
  unsubscribe topic s =
      if s.socket
      then (
        true,
        record s {
          topics = s.topics ++ ((false, topic) ∷ []);
          unsubscribes = s.unsubscribes ++ (topic ++ codes " ");
        },
      )
      else (false, s)

  -- registerHandler
  unfoldable pub register_handler :
      Str → AdminHandler S → Map Str (AdminHandler S) → Map Str (AdminHandler S)
  unfolding assign
  register_handler verb handler handlers = assign verb handler handlers

  -- The handlers that the constructor registers, where `stop` may be overridden.
  unfoldable pub admin_handlers :
      (stop : Subscriber S → Bool × Subscriber S) → Map Str (AdminHandler S)
  unfolding connect subscribe unsubscribe register_handler
  admin_handlers stop =
      register_handler (codes "stop") (λ verb data_. stop)
        (register_handler (codes "unsubscribe") (λ verb data_. unsubscribe data_)
          (register_handler (codes "subscribe") (λ verb data_. subscribe data_)
            (register_handler (codes "connect") (λ verb data_. connect data_) [])))

  -- MarketDataSubscriber::stop
  abbrev pub stop : Subscriber S → Bool × Subscriber S
  stop s = (false, s)

  unfoldable pub handle_admin_message :
      Map Str (AdminHandler S) → (verb data_ : Str) → Subscriber S → Bool × Subscriber S
  unfolding find
  handle_admin_message handlers verb data_ s = elim (find verb handlers) [
    | none ↦ (true, s)
    | some handler ↦ handler verb data_ s
  ]

-- What the code is given: the parsers, the two functions `process` of the agent, the clock by the
-- number of its readings, and the handlers.
pub record Service {ℓ} (S : Type ℓ) : Type ℓ where
  pub parse_data : Str → Option MarketData
  pub parse_depth : Str → Option MarketDepth
  pub process_data : Str → MarketData → S → Bool × S
  pub process_depth : Str → MarketDepth → S → Bool × S
  pub now : ℕ → ℕ
  pub handlers : Map Str (AdminHandler S)

abbrev pub starts_with : Str → Str → Bool
starts_with s prefix = same (take (length prefix) s) prefix

-- A receive gives a frame, with whether more follow, or throws.
pub data Input : Type 0 where
  frame : Str → (more : Bool) → Input
  error : Input

-- Where an iteration waits for a frame: the first, the one of a message, or the two of an admin message.
pub data Place : Type 0 where
  at_topic : Place
  at_depth at_data : (topic : Str) → Place
  at_verb : Place
  at_argument : (verb : Str) → Place

-- What a frame leads to: another wait, or the end of the iteration with `continueProcess`.
pub data Next {ℓ} (S : Type ℓ) : Type ℓ where
  awaits : Place → Next S
  ends : Bool → Subscriber S → Next S

module _ {ℓ} {S : Type ℓ} (service : Service S) where
  -- A market depth that parses is processed and measured; another changes nothing.
  unfoldable pub end_depth : (topic proto : Str) → Subscriber S → Bool × Subscriber S
  end_depth topic proto s = elim (service.parse_depth proto) [
    | none ↦ (true, s)
    | some d ↦
        let (goes_on, agent) = service.process_depth topic d s.agent in
        let n = s.readings in
        (
          goes_on,
          record s {
            market_depth =
                processed_at d.timestamp (service.now n) (service.now (n + 1)) (service.now (n + 2))
                  (event_at d.timestamp s.market_depth);
            readings = n + 3;
            agent = agent;
          },
        )
  ]

  unfoldable pub end_data : (topic proto : Str) → Subscriber S → Bool × Subscriber S
  end_data topic proto s = elim (service.parse_data proto) [
    | none ↦ (true, s)
    | some d ↦
        let (goes_on, agent) = service.process_data topic d s.agent in
        let n = s.readings in
        (
          goes_on,
          record s {
            market_data =
                processed_at d.timestamp (service.now n) (service.now (n + 1)) (service.now (n + 2))
                  (event_at d.timestamp s.market_data);
            readings = n + 3;
            agent = agent;
          },
        )
  ]

  abbrev pub ended : Bool × Subscriber S → Next S
  ended (goes_on, s) = ends goes_on s

  -- The branches on the first frame. Without more frames the others stay empty.
  unfoldable pub branch : (topic : Str) (more : Bool) → Subscriber S → Next S
  unfolding end_depth end_data handle_admin_message
  branch topic more s =
      if starts_with topic entity_ib_market_depth
      then (if more then awaits (at_depth topic) else ended (end_depth topic [] s))
      else if starts_with topic (codes "admin:")
      then (if more then awaits at_verb else ended (handle_admin_message service.handlers [] [] s))
      else (if more then awaits (at_data topic) else ended (end_data topic [] s))

  -- One receive of a socket, of which atp::zmq::receive makes another when the frame is empty. After an
  -- error the frame is empty and `more` as it was.
  unfoldable pub step : Place → Input → Subscriber S → Next S
  unfolding branch
  step place (frame [] more) s = awaits place
  step at_topic (frame (c ∷ topic) more) s = branch (c ∷ topic) more s
  step at_topic error s = branch [] true s
  step (at_depth topic) (frame (c ∷ proto) more) s = ended (end_depth topic (c ∷ proto) s)
  step (at_depth topic) error s = ended (end_depth topic [] s)
  step (at_data topic) (frame (c ∷ proto) more) s = ended (end_data topic (c ∷ proto) s)
  step (at_data topic) error s = ended (end_data topic [] s)
  step at_verb (frame (c ∷ verb) more) s =
      if more
      then awaits (at_argument (c ∷ verb))
      else ended (handle_admin_message service.handlers (c ∷ verb) [] s)
  step at_verb error s = awaits (at_argument [])
  step (at_argument verb) (frame (c ∷ data_) more) s =
      ended (handle_admin_message service.handlers verb (c ∷ data_) s)
  step (at_argument verb) error s = ended (handle_admin_message service.handlers verb [] s)

-- The loop waits for a frame, or has stopped.
pub data Run {ℓ} (S : Type ℓ) : Type ℓ where
  waits : Place → Subscriber S → Run S
  stopped : Subscriber S → Run S

module _ {ℓ} {S : Type ℓ} (service : Service S) where
  -- processInbound
  unfoldable pub process_inbound : Place → List Input → Subscriber S → Run S
  unfolding step
  process_inbound place [] s = waits place s
  process_inbound place (input ∷ inputs) s = elim (step service place input s) [
    | awaits next ↦ process_inbound next inputs s
    | ends goes_on t ↦ elim goes_on [
      | true ↦ process_inbound at_topic inputs t
      | false ↦ stopped (record t { process_stopped = true })
    ]
  ]
