-- ===== src/Tests/ContractManagerRuns.antt =====
-- The contract manager at concrete inputs: details of an option of Apple.
use atp.Common.{ℕ, ◌≡◌, refl, true, Option, some, [], ◌∷◌}
use atp.Common.Int.{pos}
use atp.Common.Map.{find}
use atp.Common.Text.{Str, codes}
use atp.Messaging.{returned, waiting, run}
use atp.Awaiting.Answered.{IsAwaited, HasPlace}
use atp.Contracts.{call, format_option_contract_key}
use atp.ContractManager.{
  Manager, Summary, ContractDetails, DetailsEnd, connected_manager, handlers, option_summary,
  handle_contract_details_response, find_option_contract,
}
use atp.ContractManager.Details.{IsValid, find_option_contract-response}
use atp.ContractManager.Listener.{response, end, received, run-received}

abbrev print_double : ℕ → Str
print_double bits = codes "650"

abbrev apple : Summary
apple = record (option_summary (codes "AAPL") (pos 2012) (pos 12) (pos 16) 7 call) { id = 96099040 }

abbrev apple_key : Str
apple_key =
    format_option_contract_key print_double (codes "AAPL") 7 call (pos 2012) (pos 12) (pos 16)

abbrev apple_details : ContractDetails
apple_details = record { symbol = apple_key; summary = apple }

-- Every message is the details of the option, or their end.
abbrev parse_details : Str → Option ContractDetails
parse_details text = some apple_details

abbrev ended : DetailsEnd
ended = record { request_id = 3 }

abbrev parse_end : Str → Option DetailsEnd
parse_end text = some ended

connected_manager-IsValid : IsValid connected_manager
unfolding IsAwaited HasPlace find
connected_manager-IsValid = record { is_connected = refl; is_awaited = λ key. tt }

find_option_contract-response_example :
    (m' : Manager) × (handle_contract_details_response parse_details [] [] connected_manager
      ≡ returned true m')
    × (find_option_contract print_double (codes "AAPL") (pos 2012) (pos 12) (pos 16) 7 call m'
        ≡ some apple)
find_option_contract-response_example =
    find_option_contract-response parse_details [] [] connected_manager apple_details print_double
      (codes "AAPL") (pos 2012) (pos 12) (pos 16) 7 call refl refl refl

run-received_example :
    (m' : Manager) × (run
        (handlers parse_details parse_end)
        (received (response [] ∷ end [] ∷ []))
        connected_manager
      ≡ waiting m')
    × IsValid m'
run-received_example =
    run-received parse_details parse_end (response [] ∷ end [] ∷ []) connected_manager
      connected_manager-IsValid
