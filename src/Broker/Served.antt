-- ===== src/Broker/Served.antt =====
-- The loop of the connector over whole messages of two frames.
use atp.Common.{
  ℕ, zero, suc, ◌+◌, ◌<◌, ◌≡◌, refl, ◌≢◌, Bool, true, false, Option, none, some, List, [], ◌∷◌,
  length, arith, inl, inr, Bool-cases, Option-cases, if◌then◌else◌,
}
use atp.Common.Text.{Str}
use atp.Broker.OrderMarshall.{Order}
use atp.Broker.Requests.{Request, is_initialized}
use atp.Broker.Connector.{
  Frames, receive, drain, Kind, create_message, Connector, receive_proto, after_message, processed,
  handle_supported, handle_keyed, handle_message, handle_inbound,
}
use atp.Tickers.Registry.{Contract}

-- A message of a key and its body, neither empty.
pub record Message : Type 0 where
  pub key_head : ℕ
  pub key_tail : Str
  pub body_head : ℕ
  pub body_tail : Str

abbrev pub key : Message → Str
key m = m.key_head ∷ m.key_tail

abbrev pub body : Message → Str
body m = m.body_head ∷ m.body_tail

abbrev pub frames_of : List Message → Frames
frames_of [] = []
frames_of (m ∷ ms) = (key m, true) ∷ (body m, false) ∷ frames_of ms

-- The connector after an exception.
abbrev pub failed : Connector → Connector
failed c = record c { exceptions = c.exceptions + 1 }

-- Every key that is supported has a class.
abbrev pub Handled : (is_supported : Str → Bool) → List Message → Type 0
Handled is_supported [] = Unit {0}
Handled is_supported (m ∷ ms) =
    (is_supported (key m) ≡ true → create_message (key m) ≢ none) × Handled is_supported ms

-- A body that a class accepts.
abbrev pub accepted : (parse : Kind → Str → Request) → Kind → Str → Option Request
accepted parse kind s = if is_initialized (parse kind s) then some (parse kind s) else none

module _ (print_double : ℕ → Str) (new_contract : Contract) (new_order : Order)
    (is_supported : Str → Bool) (replies : Bool) (parse : Kind → Str → Request) where
  -- What one message does to the connector: 404 for a key that is not supported, 503 for one that has no
  -- class, 400 for a body that is refused, and otherwise the code of its call.
  abbrev pub answered : Option Kind → Str → Connector → Connector
  answered none s c = after_message replies 503 c
  answered (some kind) s c =
      processed print_double new_contract new_order replies (accepted parse kind s) c

  abbrev pub respond : Message → Connector → Connector
  respond m c =
      if is_supported (key m)
      then answered (create_message (key m)) (body m) c
      else after_message replies 404 c

  abbrev pub served : List Message → Connector → Connector
  served [] c = c
  served (m ∷ ms) c = served ms (respond m c)

  handle_keyed-respond :
      (m : Message) (rest : Frames) (c : Connector)
      → (is_supported (key m) ≡ true → create_message (key m) ≢ none)
      → handle_keyed print_double new_contract new_order is_supported replies parse
          (key m)
          true
          ((body m, false) ∷ rest)
          c
        ≡ some (rest, respond m c)
  unfolding handle_keyed drain handle_supported receive_proto receive
  handle_keyed-respond m rest c h = elim (Bool-cases (is_supported (key m))) [
    | inl p ↦ elim (Option-cases (create_message (key m))) [
      | inl q ↦ absurd (h p q)
      | inr (kind, q) ↦ rw (p, q) refl
    ]
    | inr p ↦ rw p refl
  ]

  -- Messages of two frames whose keys have a class are answered one by one, in order, each as its key
  -- and its body say, until the socket fails, which counts one exception and ends the loop.
  pub handle_inbound-served :
      (ms : List Message) (fuel : ℕ) (c : Connector)
      → length ms < fuel
      → Handled is_supported ms
      → handle_inbound print_double new_contract new_order is_supported replies parse fuel
          (frames_of ms)
          c
        ≡ some (false, failed (served ms c))
  unfolding handle_inbound handle_message receive
  handle_inbound-served ms zero c h handled = absurd (omega arith)
  handle_inbound-served [] (suc fuel) c h handled = refl
  handle_inbound-served (m ∷ ms) (suc fuel) c h (first, handled) =
      rw (handle_inbound, handle_keyed-respond m (frames_of ms) c first)
        (handle_inbound-served ms fuel (respond m c) (omega arith) handled)
