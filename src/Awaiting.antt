-- ===== src/Awaiting.antt =====
-- Responses that are awaited: common/async_response.hpp, and the map of pending requests that
-- service/OrderManager.cpp and service/ContractManager.cpp each keep. Responses are shared, so they
-- stand in a list and are named by their place in it; a pending request has none when its response
-- is a null pointer.
pub mod Answered
use atp.Common.{
  ℕ, ◌+◌, Bool, true, false, Option, none, some, List, [], ◌∷◌, ◌++◌, length, set, if◌then◌else◌,
}
use atp.Common.Map.{Map, find, assign}
use atp.Common.Eq.{nat_eq}
use atp.Messaging.{Outcome, returned, thrown, undefined}

-- async_response: its result is none until one is set, and a later one takes its place.
abbrev pub Response {ℓ} : Type ℓ → Type ℓ
Response R = Option R

abbrev pub is_ready {ℓ} : {R : Type ℓ} → Response R → Bool
is_ready none = false
is_ready (some result) = true

-- get(msec): the result that is there, or the one after the wait, which a timeout leaves as it was;
-- none is a null pointer that the code follows.
unfoldable pub get {ℓ} : {R : Type ℓ} → (now after_wait : Response R) → Option R
get now after_wait = if is_ready now then now else after_wait

pub record Awaited {ℓ} (R : Type ℓ) : Type ℓ where
  pub responses : List (Response R)
  pub pending : Map ℕ (Option ℕ)

abbrev pub nothing_awaited {ℓ} : {R : Type ℓ} → Awaited R
nothing_awaited = record { responses = []; pending = [] }

module _ {ℓ} {R : Type ℓ} where
  -- The end of a request: a new response, if there is a socket, is pending under the key.
  unfoldable pub await : (connected : Bool) → (key : ℕ) → Awaited R → Option ℕ × Awaited R
  unfolding assign
  await connected key a =
      let status = (if connected then some (length a.responses) else none) in
      (
        status,
        record {
          responses = (if connected then a.responses ++ (none ∷ []) else a.responses);
          pending = assign key status a.pending;
        },
      )

  -- set_response of the response that a pending request has.
  unfoldable pub set_response : Option (Option ℕ) → R → Awaited R → Outcome (Awaited R)
  set_response none result a = returned true a
  set_response (some none) result a = undefined
  set_response (some (some place)) result a =
      returned true (record a { responses = set a.responses place (some result) })

  -- What the handler of a result does with it: the pending request of its key is answered.
  unfoldable pub answer : (key : ℕ) → R → Awaited R → Outcome (Awaited R)
  unfolding find set_response
  answer key result a = set_response (find key a.pending) result a

-- The outcome of a handler on a part of its state.
abbrev pub within {ℓ κ} : {S : Type ℓ} {T : Type κ} → (S → T) → Outcome S → Outcome T
within f (returned again s) = returned again (f s)
within f (thrown s) = thrown (f s)
within f undefined = undefined
