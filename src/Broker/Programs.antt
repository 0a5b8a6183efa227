-- ===== src/Broker/Programs.antt =====
-- The three programs that talk to the broker (main/cm.hpp, main/fh.hpp, main/em.hpp): which messages
-- each supports.
use atp.Common.{
  ℕ, ◌<◌, ◌≡◌, refl, ◌≢◌, Bool, true, false, ◌||◌, none, some, List, [], ◌∷◌, length, inl, inr,
  Bool-cases,
}
use atp.Common.Text.{Str, same, same_iff}
use atp.Broker.OrderMarshall.{Order}
use atp.Broker.Requests.{Request}
use atp.Broker.Connector.{
  Kind, contract_details_kind, market_data_kind, cancel_market_data_kind, market_depth_kind,
  cancel_market_depth_kind, cancel_order_kind, market_order_kind, limit_order_kind,
  stop_limit_order_kind, key_of, create_message, Connector, handle_inbound,
}
use atp.Broker.Served.{Message, frames_of, key, served, failed, Handled, handle_inbound-served}
use atp.Tickers.Registry.{Contract}

pub data Program : Type 0 where
  contract_manager : Program
  firehose : Program
  execution_manager : Program

-- CM_VALID_MESSAGES_, FIREHOSE_VALID_MESSAGES_ and EM_VALID_MESSAGES_
abbrev pub valid_messages : Program → List Kind
valid_messages contract_manager = contract_details_kind ∷ []
valid_messages firehose =
    market_data_kind ∷ market_depth_kind ∷ cancel_market_data_kind ∷ cancel_market_depth_kind ∷ []
valid_messages execution_manager =
    cancel_order_kind ∷ market_order_kind ∷ limit_order_kind ∷ stop_limit_order_kind ∷ []

unfoldable pub is_key_of : List Kind → Str → Bool
is_key_of [] key = false
is_key_of (k ∷ ks) key = same (key_of k) key || is_key_of ks key

unfoldable pub is_message_supported : Program → Str → Bool
unfolding is_key_of
is_message_supported program key = is_key_of (valid_messages program) key

create_message-key_of : (k : Kind) → create_message (key_of k) ≡ some k
unfolding create_message
create_message-key_of contract_details_kind = refl
create_message-key_of market_data_kind = refl
create_message-key_of cancel_market_data_kind = refl
create_message-key_of market_depth_kind = refl
create_message-key_of cancel_market_depth_kind = refl
create_message-key_of cancel_order_kind = refl
create_message-key_of market_order_kind = refl
create_message-key_of limit_order_kind = refl
create_message-key_of stop_limit_order_kind = refl

is_key_of-class : (ks : List Kind) (key : Str) → is_key_of ks key ≡ true → create_message key ≢ none
unfolding is_key_of
is_key_of-class [] key h = cc
is_key_of-class (k ∷ ks) key h = elim (Bool-cases (same (key_of k) key)) [
  | inl p ↦ λ e. cc (create_message-key_of k, (same_iff (key_of k) key).0 p, e)
  | inr p ↦ is_key_of-class ks key (rw p at h)
]

module _ (program : Program) where
  Handled-program : (ms : List Message) → Handled (is_message_supported program) ms
  unfolding is_message_supported
  Handled-program [] = tt
  Handled-program (m ∷ ms) =
      (λ h. is_key_of-class (valid_messages program) (key m) h, Handled-program ms)

  -- Each of the programs answers messages of two frames one by one, in order, each as its key and its
  -- body say, until the socket fails, which ends the loop with false and counts one exception.
  pub handle_inbound-program :
      (print_double : ℕ → Str) (new_contract : Contract) (new_order : Order) (replies : Bool)
      (parse : Kind → Str → Request) (ms : List Message) (fuel : ℕ) (c : Connector)
      → length ms < fuel
      → handle_inbound print_double new_contract new_order
          (is_message_supported program)
          replies
          parse
          fuel
          (frames_of ms)
          c
        ≡ some (
          false,
          failed (
              served print_double new_contract new_order
                (is_message_supported program)
                replies
                parse
                ms
                c),
        )
  handle_inbound-program print_double new_contract new_order replies parse ms fuel c h =
      handle_inbound-served print_double new_contract new_order (is_message_supported program)
        replies parse ms fuel c h (Handled-program ms)
