-- ===== src/LogReader/Scan.antt =====
-- LogReader::Process (service/LogReader.cpp), with the tests of the time that it makes
-- (service/LogReaderInternal.hpp, common/time_utils.cpp). A `ptime` is its microseconds from 1970, where
-- none is not_a_date_time; `eastern` is us_eastern::utc_to_local followed by time_of_day.
use atp.Common.{
  ℕ, ◌+◌, ◌*◌, ◌/◌, ◌%◌, Bool, true, false, not, ◌&&◌, Option, none, some, List, [], ◌∷◌, ◌++◌, ltb,
  leb, ◌==◌, if◌then◌else◌,
}
use atp.Common.Map.{Map}
use atp.Common.Split.{find_char}
use atp.Common.Text.{Str, codes}
use atp.Historian.Messages.{MarketData, MarketDepth}
use atp.LogReader.{Reading, ok, no, threw, aborted, ◌>>=◌, Log, Casts, get_field}
use atp.LogReader.Lines.{line_to_record}
use atp.LogReader.Records.{Symbols, read_market_data, read_market_depth}
use atp.LogReader.Actions.{is_action, is_supported, map_id_to_symbols}

-- The hours as microseconds of the day: 9:30 to 16:00, and 4:00 to 20:00.
abbrev pub minutes : ℕ → ℕ
minutes n = n * 60000000

abbrev pub check_rth : (eastern : ℕ → ℕ) → ℕ → Bool
check_rth eastern t = leb (minutes 570) (eastern t) && ltb (eastern t) (minutes 960)

abbrev pub check_ext : (eastern : ℕ → ℕ) → ℕ → Bool
check_ext eastern t = leb (minutes 240) (eastern t) && ltb (eastern t) (minutes 1200)

abbrev pub as_ptime : ℕ → ℕ
as_ptime ts = (ts / 1000000) * 1000000 + ts % 1000000

-- `duration` and `start`, with their defaults pos_infin and neg_infin.
pub data Duration : Type 0 where
  pos_infin : Duration
  lasting : ℕ → Duration

pub data Start : Type 0 where
  neg_infin : Start
  starting : ℕ → Start

abbrev pub is_before : ℕ → Start → Bool
is_before t neg_infin = false
is_before t (starting s) = ltb t s

-- scan_duration > duration; a difference with not_a_date_time compares as false.
abbrev pub is_longer : (current first : Option ℕ) → Duration → Bool
is_longer (some t) (some first) (lasting d) = ltb (first + d) t
is_longer _ _ _ = false

-- The reader's members and what the code takes from elsewhere.
pub record Settings : Type 0 where
  pub casts : Casts
  pub eastern : ℕ → ℕ
  pub rth : Bool
  pub duration : Duration
  pub start : Start

pub data Visit : Type 0 where
  market_data : MarketData → Visit
  market_depth : MarketDepth → Visit

-- The map of the symbols and unsupported_events_, which outlive a call, the variables of the loop, and
-- the calls of the visitors in their order. `elapsed_log_t` and `last_log_t` are never read.
pub record Scan : Type 0 where
  pub symbols : Symbols
  pub unsupported : Map Str ℕ
  pub matched : ℕ
  pub first : Option ℕ
  pub current : Option ℕ
  pub visited : List Visit

-- The variables before the loop.
abbrev pub begin : Symbols → Map Str ℕ → Scan
begin symbols unsupported = record {
  symbols = symbols;
  unsupported = unsupported;
  matched = 0;
  first = none;
  current = none;
  visited = [];
}

-- The end of an iteration: whether the loop goes on.
abbrev pub Next : Type 0
Next = Reading (Bool × Scan)

module _ (set : Settings) where
  unfoldable pub get_timestamp : Log → Reading ℕ
  unfolding get_field
  get_timestamp log = do ts ← get_field set.casts.to_timer log (codes "ts_utc"); ok (as_ptime ts)

  abbrev pub is_trading : ℕ → Bool
  is_trading t =
      if check_ext set.eastern t
      then (if not (check_rth set.eastern t) && set.rth then false else true)
      else false

  unfoldable pub check_time : Log → Reading Bool
  unfolding get_timestamp
  check_time log = elim (get_timestamp log) [
    | no ↦ ok false
    | ok t ↦ ok (is_trading t)
    | threw ↦ threw
    | aborted ↦ aborted
  ]

  abbrev pub visit : Visit → Scan → Next
  visit v s = ok (true, record s { matched = s.matched + 1; visited = s.visited ++ (v ∷ []) })

  -- The record is market data, or market depth, or is skipped.
  unfoldable pub deliver : Log → Scan → Next
  unfolding read_market_data read_market_depth
  deliver log s = elim (read_market_data set.casts s.symbols log) [
    | ok d ↦ visit (market_data d) s
    | threw ↦ threw
    | aborted ↦ aborted
    | no ↦ elim (read_market_depth set.casts s.symbols log) [
      | ok d ↦ visit (market_depth d) s
      | no ↦ ok (true, s)
      | threw ↦ threw
      | aborted ↦ aborted
    ]
  ]

  -- first_log_t is set while one record has matched.
  abbrev pub first_of : Scan → Option ℕ
  first_of s = elim s.first [ some t ↦ some t | none ↦ if s.matched == 1 then s.current else none ]

  unfoldable pub limit : Log → Scan → Next
  unfolding deliver
  limit log s =
      let begun = record s { first = first_of s } in
      if is_longer begun.current begun.first set.duration
      then ok (false, begun)
      else deliver log begun

  unfoldable pub clock : Log → Scan → Next
  unfolding get_timestamp limit
  clock log s = elim (get_timestamp log) [
    | no ↦ limit log s
    | threw ↦ threw
    | aborted ↦ aborted
    | ok t ↦
        if is_before t set.start
        then ok (true, record s { current = some t })
        else limit log (record s { current = some t })
  ]

  unfoldable pub check_event : Log → Scan → Next
  unfolding is_supported check_time clock
  check_event log s =
      let (supported, unsupported) = is_supported log s.unsupported in
      let counted = record s { unsupported = unsupported } in
      if supported
      then check_time log >>= (λ trading. if trading then clock log counted else ok (true, counted))
      else ok (true, counted)

  unfoldable pub process_record : Log → Scan → Next
  unfolding is_action map_id_to_symbols check_event
  process_record log s =
      if is_action log
      then (map_id_to_symbols set.casts log s.symbols >>= λ (mapped, symbols).
          if mapped
          then ok (true, record s { symbols = symbols })
          else check_event log (record s { symbols = symbols }))
      else check_event log s

  -- A word with no comma is no record.
  unfoldable pub process_line : Str → Scan → Next
  unfolding find_char process_record line_to_record
  process_line line s = elim (find_char b',' line) [
    | none ↦ ok (true, s)
    | some i ↦ process_record (line_to_record line b'=' b',') s
  ]

  -- The loop over the words of the file.
  unfoldable pub scan : List Str → Scan → Reading Scan
  unfolding process_line
  scan [] s = ok s
  scan (line ∷ lines) s =
      process_line line s >>= λ (goes_on, t). if goes_on then scan lines t else ok t

  -- Process: none is a file that does not open.
  unfoldable pub process : Option (List Str) → Symbols → Map Str ℕ → Reading Scan
  unfolding scan
  process none symbols unsupported = ok (begin symbols unsupported)
  process (some lines) symbols unsupported = scan lines (begin symbols unsupported)
