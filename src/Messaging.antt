-- ===== src/Messaging.antt =====
-- Dispatch of messages to handlers: `message_processor::handlers_map` of platform/message_processor.hpp
-- and the listener's loop of platform/message_processor.cpp. What arrives on the socket is a list.
pub mod Listening
use atp.Common.{Bool, true, false, Option, none, some, List, [], ◌∷◌, map}
use atp.Common.Map.{Map, find, insert, erase, has}
use atp.Common.Text.{Str, str_eq}

-- What a handler does: it returns, throws, or follows a null pointer.
pub data Outcome {ℓ} (S : Type ℓ) : Type ℓ where
  returned : Bool → S → Outcome S
  thrown : S → Outcome S
  undefined : Outcome S

abbrev pub Handler {ℓ} : Type ℓ → Type ℓ
Handler S = Str → Str → S → Outcome S

abbrev pub Handlers {ℓ} : Type ℓ → Type ℓ
Handlers S = Map Str (Handler S)

-- What the listener receives: a topic with a message, frames in another number, or an error of the
-- socket, an interruption (EINTR) or another one.
pub data Received : Type 0 where
  message : Str → Str → Received
  incomplete : Received
  interrupted : Received
  broken : Received

-- The listener waits for more, has stopped, or followed a null pointer.
pub data Listener {ℓ} (S : Type ℓ) : Type ℓ where
  waiting : S → Listener S
  stopped : S → Listener S
  crashed : Listener S

module _ {ℓ} {S : Type ℓ} where
  unfoldable pub register_handler : Str → Handler S → Handlers S → Bool × Handlers S
  unfolding insert
  register_handler id handler handlers =
      let result = insert id handler handlers in (result.1, result.0)

  unfoldable pub unregister_handler : Str → Handlers S → Bool × Handlers S
  unfolding has erase
  unregister_handler id handlers = (has id handlers, erase id handlers)

  unfoldable pub is_supported : Str → Handlers S → Bool
  unfolding has
  is_supported id handlers = has id handlers

  abbrev pub caught : Outcome S → Outcome S
  caught (returned again s) = returned again s
  caught (thrown s) = returned false s
  caught undefined = undefined

  abbrev pub dispatch : Option (Handler S) → Str → Str → S → Outcome S
  dispatch none id data_ s = returned false s
  dispatch (some handler) id data_ s = caught (handler id data_ s)

  unfoldable pub process_raw_message : Handlers S → Str → Str → S → Outcome S
  unfolding find
  process_raw_message handlers id data_ s = dispatch (find id handlers) id data_ s

  -- The topics that run() subscribes to.
  unfoldable pub subscriptions : Handlers S → List Str
  subscriptions handlers = map (λ entry. entry.0) handlers

  -- The result of a message decides whether the loop goes on.
  abbrev pub continue_with : (S → Listener S) → Outcome S → Listener S
  continue_with rest (returned true s) = rest s
  continue_with rest (returned false s) = stopped s
  continue_with rest (thrown s) = stopped s
  continue_with rest undefined = crashed

  -- The loop of run().
  unfoldable pub run : Handlers S → List Received → S → Listener S
  run handlers [] s = waiting s
  run handlers (incomplete ∷ received) s = run handlers received s
  run handlers (interrupted ∷ received) s = run handlers received s
  run handlers (broken ∷ received) s = stopped s
  run handlers (message topic text ∷ received) s =
      continue_with (run handlers received) (process_raw_message handlers topic text s)
