-- ===== src/ContractManager/Details.antt =====
-- Contracts are found by the keys of the details that came, and requests are answered by their end.
use mathlib.Core.Option
use atp.Common.{
  ℕ, ◌≡◌, refl, ap, ◌∙◌, ◌&&◌, true, Option, some, [], ◌∷◌, ◌++◌, length, get_elem?, ◌<◌,
  if◌then◌else◌, inl, inr, Bool-cases,
}
use atp.Common.Int.{ℤ}
use atp.Common.Map.{find-assign}
use atp.Common.Text.{Str, str_eq, same, same_iff}
use atp.Messaging.{returned}
use atp.Awaiting.{Awaited, await, answer, within}
use atp.Awaiting.Answered.{IsAwaited, answer-await}
use atp.Contracts.{Right, format_option_contract_key}
use atp.ContractManager.{
  Manager, Summary, ContractDetails, DetailsEnd, is_usd, keep_details,
  handle_contract_details_response, handle_contract_details_end, request_contract_details,
  find_contract, find_option_contract,
}

find_contract-keep_details :
    (d : ContractDetails) (m : Manager) (key : Str)
    → find_contract key (keep_details d m) ≡ (
        if is_usd d.summary.currency && same d.symbol key
        then some d.summary
        else find_contract key m)
unfolding find_contract keep_details
find_contract-keep_details d m key = elim (Bool-cases (is_usd d.summary.currency)) [
  | inl p ↦ rw p (
      ap (Option.map (λ x. x.summary)) (find-assign d.symbol key d m.details)
      ∙ elim (Bool-cases (same d.symbol key)) [ inl q ↦ rw q refl | inr q ↦ rw q refl ])
  | inr p ↦ rw p refl
]

-- Details that come in USD are found from then on under their symbol, over those that were there;
-- other details change nothing, nothing else that is found changes, and the listener goes on.
pub find_contract-response :
    (parse : Str → Option ContractDetails) (topic text : Str) (m : Manager) (d : ContractDetails)
    → parse text ≡ some d
    → (m' : Manager) × (handle_contract_details_response parse topic text m ≡ returned true m')
      × ((key : Str)
          → find_contract key m' ≡ (
              if is_usd d.summary.currency && same d.symbol key
              then some d.summary
              else find_contract key m))
unfolding handle_contract_details_response
find_contract-response parse topic text m d p = (
  keep_details d m,
  rw (handle_contract_details_response, p) refl,
  find_contract-keep_details d m,
)

pub record IsValid (m : Manager) : Type 0 where
  pub is_connected : m.connected ≡ true
  pub is_awaited : IsAwaited m.awaited

-- An option whose details came in USD under its key is found by its terms.
pub find_option_contract-response :
    (parse : Str → Option ContractDetails) (topic text : Str) (m : Manager) (d : ContractDetails)
    (print_double : ℕ → Str) (symbol : Str) (year month day : ℤ) (strike : ℕ) (right : Right)
    → parse text ≡ some d
    → is_usd d.summary.currency ≡ true
    → d.symbol ≡ format_option_contract_key print_double symbol strike right year month day
    → (m' : Manager) × (handle_contract_details_response parse topic text m ≡ returned true m')
      × (find_option_contract print_double symbol year month day strike right m' ≡ some d.summary)
unfolding find_option_contract
find_option_contract-response parse topic text m d print_double symbol year month day strike right p
      u e =
    let key = format_option_contract_key print_double symbol strike right year month day in
    let (m', h, found) = find_contract-response parse topic text m d p in
    let same_key : same d.symbol key ≡ true = (same_iff d.symbol key).1 e in
    (m', h, found key ∙ rw (u, same_key) refl)

pub handled_end :
    (parse : Str → Option DetailsEnd) (topic text : Str) (m : Manager) (status : DetailsEnd)
    (a : Awaited DetailsEnd)
    → parse text ≡ some status
    → answer status.request_id status m.awaited ≡ returned true a
    → handle_contract_details_end parse topic text m ≡ returned true (record m { awaited = a })
unfolding handle_contract_details_end
handled_end parse topic text m status a p e =
    rw (handle_contract_details_end, p) (ap (within (λ b. record m { awaited = b })) e)

-- The end of the details of a request that was sent makes the response of the request ready, and
-- that of no earlier one. The contract was sent with the id 0.
pub handle_contract_details_end-request :
    (parse : Str → Option DetailsEnd) (topic text : Str) (contract : Summary) (m : Manager)
    (status : DetailsEnd)
    → IsValid m
    → parse text ≡ some status
    → (m' : Manager) × (handle_contract_details_end parse topic text
          (request_contract_details status.request_id contract m).1
        ≡ returned true m')
      × (get_elem? m'.awaited.responses (length m.awaited.responses) ≡ some (some status))
      × ((j : ℕ)
          → j < length m.awaited.responses
          → get_elem? m'.awaited.responses j ≡ get_elem? m.awaited.responses j)
      × (m'.sent
          ≡ m.sent
            ++ (record { request_id = status.request_id; contract = record contract { id = 0 } }
                ∷ []))
handle_contract_details_end-request parse topic text contract m status v p =
    let id = status.request_id in
    let (a, h, there, others) = answer-await id status m.awaited in
    let requested = (request_contract_details id contract m).1 in
    let awaited : requested.awaited ≡ (await true id m.awaited).1 =
      unfold request_contract_details in rw v.is_connected refl in
    (
      record requested { awaited = a },
      handled_end parse topic text requested status a p (ap (answer id status) awaited ∙ h),
      there,
      others,
      (unfold request_contract_details in rw v.is_connected refl),
    )
