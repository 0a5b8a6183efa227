-- ===== src/Subscriber/Loop.antt =====
-- What the loop of a subscriber does with whole messages.
use atp.Common.{
  ◌≡◌, ◌≢◌, refl, sym, subst, ap, ◌∙◌, Option, Option-cases, Bool, true, false, none, some, List,
  [], ◌∷◌, ◌++◌, if◌then◌else◌, All, inl, inr, Bool-cases,
}
use atp.Common.Map.{find}
use atp.Common.Text.{Str, str_eq, codes}
use atp.Historian.Keys.{entity_ib_market_depth}
use atp.Subscriber.{
  Subscriber, Service, Input, frame, at_topic, at_data, at_depth, Place, at_verb, at_argument,
  awaits, starts_with, end_depth, end_data, ended, branch, step, Run, stopped, process_inbound,
  handle_admin_message, stop,
}

-- The frames of messages of market data or depth, each a topic and what was serialized.
abbrev pub frames : List (Str × Str) → List Input
frames [] = []
frames ((topic, proto) ∷ messages) = frame topic true ∷ frame proto false ∷ frames messages

-- Not a message of administration, and neither frame is empty.
abbrev pub IsPlain : Str × Str → Type 0
IsPlain (topic, proto) = (starts_with topic (codes "admin:") ≡ false) × (topic ≢ []) × (proto ≢ [])

module _ {ℓ} {S : Type ℓ} (service : Service S) where
  -- One message, and then messages up to one after which the agent stops.
  abbrev pub end_message : Str × Str → Subscriber S → Bool × Subscriber S
  end_message (topic, proto) s =
      if starts_with topic entity_ib_market_depth
      then end_depth service topic proto s
      else end_data service topic proto s

  abbrev pub go_on :
      (Subscriber S → Bool × Subscriber S) → Bool × Subscriber S → Bool × Subscriber S
  go_on rest (true, s) = rest s
  go_on rest (false, s) = (false, s)

  abbrev pub end_messages : List (Str × Str) → Subscriber S → Bool × Subscriber S
  end_messages [] s = (true, s)
  end_messages (m ∷ messages) s = go_on (end_messages messages) (end_message m s)

  abbrev pub after_messages : List Input → Bool × Subscriber S → Run S
  after_messages rest (true, s) = process_inbound service at_topic rest s
  after_messages rest (false, s) = stopped (record s { process_stopped = true })

  after-go_on :
      (inputs rest : List Input) (f : Subscriber S → Bool × Subscriber S)
      → ((s : Subscriber S) → process_inbound service at_topic inputs s ≡ after_messages rest (f s))
      → (r : Bool × Subscriber S) → after_messages inputs r ≡ after_messages rest (go_on f r)
  after-go_on inputs rest f h (true, s) = h s
  after-go_on inputs rest f h (false, s) = refl

  inbound-awaits :
      (place next : Place) (input : Input) (inputs : List Input) (s : Subscriber S)
      → step service place input s ≡ awaits next
      → process_inbound service place (input ∷ inputs) s ≡ process_inbound service next inputs s
  unfolding process_inbound
  inbound-awaits place next input inputs s e = rw (process_inbound, e) refl

  inbound-ends :
      (place : Place) (input : Input) (inputs : List Input) (s : Subscriber S)
      (r : Bool × Subscriber S)
      → step service place input s ≡ ended service r
      → process_inbound service place (input ∷ inputs) s ≡ after_messages inputs r
  unfolding process_inbound
  inbound-ends place input inputs s (true, t) e = rw (process_inbound, e) refl
  inbound-ends place input inputs s (false, t) e = rw (process_inbound, e) refl

  process_inbound-message :
      (m : Str × Str) (inputs : List Input) (s : Subscriber S)
      → IsPlain m
      → process_inbound service at_topic (frame m.0 true ∷ frame m.1 false ∷ inputs) s
        ≡ after_messages inputs (end_message m s)
  unfolding step branch
  process_inbound-message ([], proto) inputs s (plain, h, k) = absurd (h refl)
  process_inbound-message (c ∷ topic, []) inputs s (plain, h, k) = absurd (k refl)
  process_inbound-message (c ∷ topic, b ∷ proto) inputs s (plain, h, k) =
      let m : Str × Str = (c ∷ topic, b ∷ proto) in
      let body = frame (b ∷ proto) false in
      elim (Bool-cases (starts_with (c ∷ topic) entity_ib_market_depth)) [
        | inl p ↦
            let kind : end_message m s ≡ end_depth service (c ∷ topic) (b ∷ proto) s = rw p refl in
            inbound-awaits at_topic (at_depth (c ∷ topic)) (frame (c ∷ topic) true) (body ∷ inputs)
              s (rw (branch, p) refl)
            ∙ inbound-ends (at_depth (c ∷ topic)) body inputs s
                (end_depth service (c ∷ topic) (b ∷ proto) s) refl
            ∙ ap (after_messages inputs) (sym kind)
        | inr p ↦
            let kind : end_message m s ≡ end_data service (c ∷ topic) (b ∷ proto) s = rw p refl in
            inbound-awaits at_topic (at_data (c ∷ topic)) (frame (c ∷ topic) true) (body ∷ inputs) s
              (rw (branch, p, plain) refl)
            ∙ inbound-ends (at_data (c ∷ topic)) body inputs s
                (end_data service (c ∷ topic) (b ∷ proto) s) refl
            ∙ ap (after_messages inputs) (sym kind)
      ]

  inbound-messages :
      (messages : List (Str × Str)) (rest : List Input) (s : Subscriber S)
      → All IsPlain messages
      → process_inbound service at_topic (frames messages ++ rest) s
        ≡ after_messages rest (end_messages messages s)
  inbound-messages [] rest s h = refl
  inbound-messages (m ∷ messages) rest s (p, h) =
      process_inbound-message m (frames messages ++ rest) s p
      ∙ after-go_on (frames messages ++ rest) rest (end_messages messages)
          (λ t. inbound-messages messages rest t h) (end_message m s)

  -- The answer of the agent to a message, which it gets when it could be parsed.
  abbrev pub offered : {A : Type 0} → Option A → (A → S → Bool × S) → S → Bool × S
  offered none process agent = (true, agent)
  offered (some value) process agent = process value agent

  abbrev pub answered : Str × Str → S → Bool × S
  answered (topic, proto) agent =
      if starts_with topic entity_ib_market_depth
      then offered (service.parse_depth proto) (service.process_depth topic) agent
      else offered (service.parse_data proto) (service.process_data topic) agent

  -- The answers of the agent to messages, one after the other, up to one with which it stops.
  abbrev pub all_answered : List (Str × Str) → S → Bool × S
  all_answered [] agent = (true, agent)
  all_answered (m ∷ messages) agent =
      let (goes_on, next) = answered m agent in
      if goes_on then all_answered messages next else (false, next)

  -- The loop's answer is the agent's, with nothing connected or subscribed.
  abbrev pub Answers : Subscriber S → Bool × Subscriber S → Bool × S → Type ℓ
  Answers s r a = ((r.0, r.1.agent) ≡ a) × (r.1.endpoints ≡ s.endpoints) × (r.1.topics ≡ s.topics)

  end_message-Answers :
      (m : Str × Str) (s : Subscriber S) → Answers s (end_message m s) (answered m s.agent)
  unfolding end_depth end_data
  end_message-Answers (topic, proto) s =
      elim (Bool-cases (starts_with topic entity_ib_market_depth)) [
        | inl p ↦ elim (Option-cases (service.parse_depth proto)) [
          | inl q ↦ rw (p, end_depth, q) (refl, refl, refl)
          | inr (d, q) ↦ rw (p, end_depth, q) (refl, refl, refl)
        ]
        | inr p ↦ elim (Option-cases (service.parse_data proto)) [
          | inl q ↦ rw (p, end_data, q) (refl, refl, refl)
          | inr (d, q) ↦ rw (p, end_data, q) (refl, refl, refl)
        ]
      ]

  go_on-Answers :
      (f : Subscriber S → Bool × Subscriber S) (g : S → Bool × S) (s : Subscriber S)
      (r : Bool × Subscriber S) (a : Bool × S)
      → Answers s r a
      → ((t : Subscriber S) → Answers t (f t) (g t.agent))
      → Answers s (go_on f r) (if a.0 then g a.1 else (false, a.1))
  go_on-Answers f g s (true, t) a (e, u, v) h =
      let (e', u', v') = h t in
      subst (λ b. Answers s (f t) (if b.0 then g b.1 else (false, b.1))) e (e', u' ∙ u, v' ∙ v)
  go_on-Answers f g s (false, t) a (e, u, v) h =
      subst (λ b. Answers s (false, t) (if b.0 then g b.1 else (false, b.1))) e (refl, u, v)

  end_messages-Answers :
      (messages : List (Str × Str)) (s : Subscriber S)
      → Answers s (end_messages messages s) (all_answered messages s.agent)
  end_messages-Answers [] s = (refl, refl, refl)
  end_messages-Answers (m ∷ messages) s =
      go_on-Answers (end_messages messages) (all_answered messages) s (end_message m s)
        (answered m s.agent) (end_message-Answers m s) (end_messages-Answers messages)

  -- Messages of market data and depth that are received whole, with no frame empty, are each given to the
  -- agent once if they parse, in their order, by the function of their kind, up to one with which the agent
  -- stops. Then the loop has stopped, and what is received later is not read; otherwise it goes on with what
  -- comes after them. Nothing is connected or subscribed on the way.
  pub process_inbound-frames :
      (messages : List (Str × Str)) (rest : List Input) (s : Subscriber S)
      → All IsPlain messages
      → (t : Subscriber S) × (process_inbound service at_topic (frames messages ++ rest) s
          ≡ after_messages rest ((all_answered messages s.agent).0, t))
        × (t.agent ≡ (all_answered messages s.agent).1)
        × (t.endpoints ≡ s.endpoints)
        × (t.topics ≡ s.topics)
  process_inbound-frames messages rest s h =
      let (e, u, v) = end_messages-Answers messages s in
      let t = (end_messages messages s).1 in
      let continued : Subscriber S → Bool × S → Run S = λ u a. after_messages rest (a.0, u) in
      (
        t,
        inbound-messages messages rest s h ∙ ap (continued t) e,
        ap (λ (a : Bool × S). a.1) e,
        u,
        v,
      )

  handle_admin_message-stop :
      (argument : Str) (s : Subscriber S)
      → find (codes "stop") service.handlers ≡ some (λ verb data_. stop)
      → handle_admin_message service.handlers (codes "stop") argument s ≡ (false, s)
  unfolding handle_admin_message
  handle_admin_message-stop argument s h = rw (handle_admin_message, h) refl

  end_data-refused :
      (topic proto : Str) (s : Subscriber S)
      → service.parse_data proto ≡ none
      → end_data service topic proto s ≡ (true, s)
  unfolding end_data
  end_data-refused topic proto s h = rw (end_data, h) refl

  -- An administrator's message that is received whole under a topic with the prefix is given to the
  -- handler of its verb; "stop", whose handler refuses, ends the loop.
  process_inbound-stop :
      (topic argument : Str) (rest : List Input) (s : Subscriber S)
      → starts_with topic entity_ib_market_depth ≡ false
      → starts_with topic (codes "admin:") ≡ true
      → find (codes "stop") service.handlers ≡ some (λ verb data_. stop)
      → topic ≢ []
      → argument ≢ []
      → process_inbound service at_topic
          (frame topic true ∷ frame (codes "stop") true ∷ frame argument false ∷ rest)
          s
        ≡ stopped (record s { process_stopped = true })
  unfolding step branch
  process_inbound-stop [] argument rest s p q h t a = absurd (t refl)
  process_inbound-stop (c ∷ topic) [] rest s p q h t a = absurd (a refl)
  process_inbound-stop (c ∷ topic) (b ∷ argument) rest s p q h t a =
      inbound-awaits at_topic at_verb (frame (c ∷ topic) true) _ s (rw (branch, p, q) refl)
      ∙ inbound-awaits at_verb (at_argument (codes "stop")) (frame (codes "stop") true) _ s refl
      ∙ inbound-ends (at_argument (codes "stop")) (frame (b ∷ argument) false) rest s
          (handle_admin_message service.handlers (codes "stop") (b ∷ argument) s) refl
      ∙ ap (after_messages rest) (handle_admin_message-stop (b ∷ argument) s h)

  -- Under another topic, such as an agent's id without the prefix, to which the agent subscribes, the
  -- verb is taken for a message of market data, which does not parse, and what follows the verb is taken
  -- for the topic of the next message: the handler of the verb is not called.
  process_inbound-unprefixed :
      (id verb argument : Str) (rest : List Input) (s : Subscriber S)
      → starts_with id entity_ib_market_depth ≡ false
      → starts_with id (codes "admin:") ≡ false
      → service.parse_data verb ≡ none
      → id ≢ []
      → verb ≢ []
      → process_inbound service at_topic
          (frame id true ∷ frame verb true ∷ frame argument false ∷ rest)
          s
        ≡ process_inbound service at_topic (frame argument false ∷ rest) s
  unfolding step branch
  process_inbound-unprefixed [] verb argument rest s p q h i v = absurd (i refl)
  process_inbound-unprefixed (c ∷ id) [] argument rest s p q h i v = absurd (v refl)
  process_inbound-unprefixed (c ∷ id) (b ∷ verb) argument rest s p q h i v =
      inbound-awaits at_topic (at_data (c ∷ id)) (frame (c ∷ id) true) _ s (rw (branch, p, q) refl)
      ∙ inbound-ends (at_data (c ∷ id)) (frame (b ∷ verb) true) (frame argument false ∷ rest) s
          (end_data service (c ∷ id) (b ∷ verb) s) refl
      ∙ ap (after_messages (frame argument false ∷ rest)) (end_data-refused (c ∷ id) (b ∷ verb) s h)
