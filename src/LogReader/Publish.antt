-- ===== src/LogReader/Publish.antt =====
-- The visitors that publish what the reader delivers (service/LogReaderVisitor.hpp). A message of two
-- frames is sent whole or, when sending it throws, not at all.
use atp.Common.{
  ◌≡◌, refl, sym, ◌∙◌, Bool, true, false, Option, none, some, List, [], ◌∷◌, ◌++◌, append-nil,
  append_assoc, Option-cases, inl, inr,
}
use atp.Common.Text.{Str}
use atp.Historian.Keys.{entity_ib_market_depth}
use atp.Historian.Messages.{MarketData, MarketDepth}
use atp.LogReader.Scan.{Visit, market_data, market_depth}
use atp.Subscriber.{starts_with}

abbrev pub Message : Type 0
Message = Str × Str

-- ZmqEventSource::dispatch: `serialized` is SerializeToString, and `accepts` that sending does not throw.
unfoldable pub dispatch :
    (serialized : Option Str) (accepts : Bool) (topic : Str) → List Message → Bool × List Message
dispatch none accepts topic sent = (false, sent)
dispatch (some buff) false topic sent = (false, sent)
dispatch (some buff) true topic sent = (true, sent ++ ((topic, buff) ∷ []))

-- The topic of market data is its symbol, and that of market depth has the prefix of its entity.
abbrev pub topic_of : Visit → Str
topic_of (market_data d) = d.symbol
topic_of (market_depth d) = entity_ib_market_depth ++ (b':' ∷ d.symbol)

module _ (serialize_data : MarketData → Option Str)
    (serialize_depth : MarketDepth → Option Str) where
  abbrev pub serialized : Visit → Option Str
  serialized (market_data d) = serialize_data d
  serialized (market_depth d) = serialize_depth d

  -- MarketDataDispatcher and MarketDepthDispatcher
  unfoldable pub publish : (accepts : Bool) → Visit → List Message → Bool × List Message
  unfolding dispatch
  publish accepts v sent = dispatch (serialized v) accepts (topic_of v) sent

  -- The visits of a scan, in their order, whatever the visitors return.
  abbrev pub publish_all : List Visit → List Message → List Message
  publish_all [] sent = sent
  publish_all (v ∷ vs) sent = publish_all vs (publish true v sent).1

  abbrev pub messages : List Visit → List Message
  messages [] = []
  messages (v ∷ vs) = elim (serialized v) [
    | none ↦ messages vs
    | some buff ↦ (topic_of v, buff) ∷ messages vs
  ]

  -- On a socket that takes them, the messages of the visits that serialize are sent in their order.
  publish_all-messages :
      (vs : List Visit) (sent : List Message) → publish_all vs sent ≡ sent ++ messages vs
  unfolding publish
  publish_all-messages [] sent = sym (append-nil sent)
  publish_all-messages (v ∷ vs) sent = elim (Option-cases (serialized v)) [
    | inl p ↦ rw (publish, messages, p) (publish_all-messages vs sent)
    | inr (buff, p) ↦
        rw (publish, messages, p)
          (publish_all-messages vs (sent ++ ((topic_of v, buff) ∷ []))
            ∙ append_assoc sent ((topic_of v, buff) ∷ []) (messages vs))
  ]

-- The topic of market depth is one that a subscriber takes for market depth.
starts_with-topic_of :
    (d : MarketDepth) → starts_with (topic_of (market_depth d)) entity_ib_market_depth ≡ true
starts_with-topic_of d = refl
