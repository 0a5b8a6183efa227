-- ===== src/LogReader/Skipped.antt =====
-- The records that LogReader::Process does not deliver.
use atp.Common.{ℕ, ◌+◌, ◌≡◌, refl, true, false, Option, none, some, inl, inr, Option-cases}
use atp.Common.Map.{Map, find, assign, has}
use atp.Common.Text.{Str, str_eq, codes}
use atp.LogReader.{ok, Log}
use atp.LogReader.Records.{event_value_map}
use atp.LogReader.Actions.{is_action, is_supported}
use atp.LogReader.Scan.{Settings, Scan, process_record}

-- A record that is no action, and whose event has no type.
pub record IsUnsupported (log : Log) (event : Str) : Type 0 where
  pub no_action : is_action log ≡ false
  pub at_event : find (codes "event") log ≡ some event
  pub no_type : has event event_value_map ≡ false

-- What is counted of an event that was counted or not.
abbrev pub next_count : Option ℕ → ℕ
next_count none = 0
next_count (some n) = n + 1

is_supported-IsUnsupported :
    (log : Log) (event : Str) (count : Map Str ℕ)
    → IsUnsupported log event
    → is_supported log count ≡ (false, assign event (next_count (find event count)) count)
unfolding is_supported
is_supported-IsUnsupported log event count u = elim (Option-cases (find event count)) [
  | inl p ↦ rw (is_supported, u.at_event, u.no_type, p) refl
  | inr (n, p) ↦ rw (is_supported, u.at_event, u.no_type, p) refl
]

module _ (set : Settings) where
  -- Such a record is counted, and nothing else of the scan changes.
  process_record-IsUnsupported :
      (log : Log) (event : Str) (s : Scan)
      → IsUnsupported log event
      → process_record set log s
        ≡ ok (
          true,
          record s {
            unsupported = assign event (next_count (find event s.unsupported)) s.unsupported;
          },
        )
  unfolding process_record
  process_record-IsUnsupported log event s u =
      rw (process_record, u.no_action, is_supported-IsUnsupported log event s.unsupported u) refl
