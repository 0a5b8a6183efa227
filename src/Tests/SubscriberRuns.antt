-- ===== src/Tests/SubscriberRuns.antt =====
-- The loop of a subscriber at concrete inputs: an agent that notes topics and stops at MSFT.
use atp.Common.{ℕ, ◌≢◌, ◌≡◌, refl, Bool, true, false, not, none, some, List, [], ◌∷◌, ◌++◌, ◌+◌}
use atp.Common.Text.{Str, codes, same}
use atp.Historian.Messages.{MarketData, empty_value}
use atp.Subscriber.{Subscriber, Service, admin_handlers, stop, at_topic, process_inbound}
use atp.Subscriber.Variables.{no_meter}
use atp.Subscriber.Loop.{frames, after_messages, all_answered, process_inbound-frames}

abbrev quote : MarketData
quote = record {
  timestamp = 1340000000000000;
  symbol = codes "AAPL.STK";
  event = codes "BID";
  value = empty_value;
  contract_id = 1;
}

abbrev note : {A : Type 0} → Str → A → List Str → Bool × List Str
note topic a topics = (not (same topic (codes "MSFT")), topics ++ (topic ∷ []))

abbrev service : Service (List Str)
service = record {
  parse_data = λ text. some quote;
  parse_depth = λ text. none;
  process_data = note;
  process_depth = note;
  now = λ n. 1340000000000000 + n;
  handlers = admin_handlers stop;
}

abbrev new : Subscriber (List Str)
new = record {
  socket = true;
  endpoints = [];
  topics = [];
  subscribes = [];
  unsubscribes = [];
  market_data = no_meter;
  market_depth = no_meter;
  process_stopped = false;
  readings = 0;
  agent = [];
}

-- The third message is after the one at which the agent stops.
abbrev messages : List (Str × Str)
messages = (codes "AAPL", codes "1") ∷ (codes "MSFT", codes "2") ∷ (codes "AAPL", codes "3") ∷ []

noted : all_answered service messages [] ≡ (false, codes "AAPL" ∷ codes "MSFT" ∷ [])
noted = refl

not_empty : (c : ℕ) (s : Str) → (c ∷ s) ≢ []
not_empty c s e = cc e

process_inbound-frames_example :
    (t : Subscriber (List Str)) × (process_inbound service at_topic (frames messages ++ []) new
      ≡ after_messages service [] ((all_answered service messages new.agent).0, t))
    × (t.agent ≡ (all_answered service messages new.agent).1)
    × (t.endpoints ≡ new.endpoints)
    × (t.topics ≡ new.topics)
process_inbound-frames_example = process_inbound-frames service messages [] new (
  (refl, not_empty _ _, not_empty _ _),
  ((refl, not_empty _ _, not_empty _ _), ((refl, not_empty _ _, not_empty _ _), tt)),
)
