-- ===== src/LogReader/Safety/Loop.antt =====
-- The loop of LogReader::Process keeps what holds of its visits.
use atp.Common.{
  ℕ, ◌≡◌, ◌≢◌, refl, ap, sym, subst, ◌∙◌, Bool, true, false, Option, none, some, List, [], ◌∷◌,
  arith, inl, inr, Bool-cases, Option-cases, All, All-imp,
}
use atp.Common.Int.{ℤ}
use atp.Common.Eq.{int_eq}
use atp.Common.Map.{Map, find, assign, find-assign_ne}
use atp.Common.Text.{Str, str_eq, codes, same}
use atp.Common.Split.{find_char}
use atp.LogReader.Lines.{line_to_record}
use atp.LogReader.{ok, threw, aborted, ◌>>=◌, fatal, Log, Casts, get_field}
use atp.LogReader.Records.{Symbols}
use atp.LogReader.Actions.{
  is_action, is_supported, map_id_to_symbols, add_symbol, symbol_from_contract,
}
use atp.LogReader.Scan.{
  Settings, Scan, Visit, market_data, market_depth, is_before, is_trading, get_timestamp,
  check_time, clock, check_event, process_record, process_line, scan, begin, process,
}
use atp.LogReader.Fields.{Reading-cases, ok_inj, >>=-ok}
use atp.LogReader.Safety.{IsGood, IsNamed, Leads, limit-IsGood}

add_symbol-find :
    (ticker_id : ℤ) (added : Str) (symbols : Symbols) (result : Bool × Symbols)
    → add_symbol ticker_id added symbols ≡ ok result
    → (code : ℤ) (symbol : Str) → find code symbols ≡ some symbol
    → find code result.1 ≡ some symbol
unfolding add_symbol
add_symbol-find ticker_id added symbols result h code symbol e =
    elim (Option-cases (find ticker_id symbols)) [
      | inl p ↦
          let r : ok (true, assign ticker_id added symbols) ≡ ok result =
            sym (rw (add_symbol, p) refl) ∙ h in
          let ne : ticker_id ≢ code = λ q. ground (arith, ap (λ k. find k symbols) q) in
          sym (ap (λ w. find code w.1) (ok_inj _ result r))
          ∙ find-assign_ne ticker_id code added symbols ne
          ∙ e
      | inr (known, p) ↦ elim (Bool-cases (same known added)) [
        | inl q ↦
            let r : ok (false, symbols) ≡ ok result = sym (rw (add_symbol, p, q) refl) ∙ h in
            sym (ap (λ w. find code w.1) (ok_inj _ result r)) ∙ e
        | inr q ↦
            let r : add_symbol ticker_id added symbols ≡ aborted = rw (add_symbol, p, q) refl in
            ground arith
      ]
    ]

map_id_to_symbols-find :
    (casts : Casts) (log : Log) (symbols : Symbols) (result : Bool × Symbols)
    → map_id_to_symbols casts log symbols ≡ ok result
    → (code : ℤ) (symbol : Str) → find code symbols ≡ some symbol
    → find code result.1 ≡ some symbol
unfolding map_id_to_symbols
map_id_to_symbols-find casts log symbols result h code symbol e =
    elim (Reading-cases (get_field casts.to_long log (codes "id"))) [
      | inr (inl p) ↦ kept (sym (rw (map_id_to_symbols, p) refl) ∙ h)
      | inr (inr (inl p)) ↦
          let r : map_id_to_symbols casts log symbols ≡ threw = rw (map_id_to_symbols, p) refl in
          ground arith
      | inr (inr (inr p)) ↦
          let r : map_id_to_symbols casts log symbols ≡ aborted = rw (map_id_to_symbols, p) refl in
          ground arith
      | inl (ticker_id, p) ↦ elim (Option-cases (find (codes "contract") log)) [
        | inl q ↦ kept (sym (rw (map_id_to_symbols, p, q) refl) ∙ h)
        | inr (text, q) ↦
            let read = fatal (symbol_from_contract (line_to_record text b':' b';')) in
            let r : (read >>= λ added. add_symbol ticker_id added symbols) ≡ ok result =
              sym (rw (map_id_to_symbols, p, q) refl) ∙ h in
            let (added, at_symbol, added_at) = >>=-ok read _ result r in
            add_symbol-find ticker_id added symbols result added_at code symbol e
      ]
    ]
  where
    kept : ok (false, symbols) ≡ ok result → find code result.1 ≡ some symbol
    kept r = sym (ap (λ w. find code w.1) (ok_inj _ result r)) ∙ e

module _ (set : Settings) where
  check_time-true :
      (log : Log)
      → check_time set log ≡ ok true
      → (t : ℕ) × (get_timestamp set log ≡ ok t) × (is_trading set t ≡ true)
  unfolding check_time
  check_time-true log h = elim (Reading-cases (get_timestamp set log)) [
    | inl (t, p) ↦ (t, p, ok_inj (is_trading set t) true (sym (rw (check_time, p) refl) ∙ h))
    | inr (inl p) ↦ let e : ok false ≡ ok true = sym (rw (check_time, p) refl) ∙ h in ground arith
    | inr (inr (inl p)) ↦
        let e : check_time set log ≡ threw = rw (check_time, p) refl in ground arith
    | inr (inr (inr p)) ↦
        let e : check_time set log ≡ aborted = rw (check_time, p) refl in ground arith
  ]

  clock-IsGood :
      (log : Log) (s : Scan)
      → IsGood set s
      → check_time set log ≡ ok true
      → Leads set (clock set log s)
  unfolding clock
  clock-IsGood log s g c =
      let (t, p, trading) = check_time-true log c in
      let clocked : Scan = record s { current = some t } in
      let h : IsGood set clocked = record {
        counted = g.counted;
        begun = g.begun;
        timely = g.timely;
        limited = g.limited;
        named = g.named;
      } in
      elim (Bool-cases (is_before t set.start)) [
        | inl q ↦ rw (clock, p, q) h
        | inr q ↦
            rw (clock, p, q)
              (limit-IsGood set log clocked t h
                (record { at = p; current = refl; trading = trading; started = q }))
      ]

  check_event-IsGood : (log : Log) (s : Scan) → IsGood set s → Leads set (check_event set log s)
  unfolding check_event
  check_event-IsGood log s g =
      let counted : Scan = record s { unsupported = (is_supported log s.unsupported).1 } in
      let h : IsGood set counted = record {
        counted = g.counted;
        begun = g.begun;
        timely = g.timely;
        limited = g.limited;
        named = g.named;
      } in
      elim (Bool-cases (is_supported log s.unsupported).0) [
        | inr p ↦ rw p h
        | inl p ↦ elim (Reading-cases (check_time set log)) [
          | inl (true, q) ↦ rw (p, q) (clock-IsGood log counted h q)
          | inl (false, q) ↦ rw (p, q) h
          | inr (inl q) ↦ rw (p, q) tt
          | inr (inr (inl q)) ↦ rw (p, q) tt
          | inr (inr (inr q)) ↦ rw (p, q) tt
        ]
      ]

  IsNamed-later :
      (symbols new_symbols : Symbols) (vs : List Visit)
      → ((code : ℤ) (symbol : Str)
          → find code symbols ≡ some symbol
          → find code new_symbols ≡ some symbol)
      → All (IsNamed symbols) vs
      → All (IsNamed new_symbols) vs
  IsNamed-later symbols new_symbols vs f h =
      All-imp (IsNamed symbols) (IsNamed new_symbols) vs named h
    where
      named : (v : Visit) → IsNamed symbols v → IsNamed new_symbols v
      named (market_data d) (code, e, k) = (code, f code d.symbol e, k)
      named (market_depth d) (code, e, k) = (code, f code d.symbol e, k)

  process_record-IsGood :
      (log : Log) (s : Scan) → IsGood set s → Leads set (process_record set log s)
  unfolding process_record
  process_record-IsGood log s g = elim (Bool-cases (is_action log)) [
    | inr p ↦ rw (process_record, p) (check_event-IsGood log s g)
    | inl p ↦ elim (Reading-cases (map_id_to_symbols set.casts log s.symbols)) [
      | inl ((mapped, symbols), q) ↦
          let named : Scan = record s { symbols = symbols } in
          let h : IsGood set named = record {
            counted = g.counted;
            begun = g.begun;
            timely = g.timely;
            limited = g.limited;
            named =
                IsNamed-later s.symbols symbols s.visited
                  (map_id_to_symbols-find set.casts log s.symbols (mapped, symbols) q) g.named;
          } in
          elim (Bool-cases mapped) [
            | inl r ↦ rw (process_record, p, q, r) h
            | inr r ↦ rw (process_record, p, q, r) (check_event-IsGood log named h)
          ]
      | inr (inl q) ↦ rw (process_record, p, q) tt
      | inr (inr (inl q)) ↦ rw (process_record, p, q) tt
      | inr (inr (inr q)) ↦ rw (process_record, p, q) tt
    ]
  ]

  process_line-IsGood : (line : Str) (s : Scan) → IsGood set s → Leads set (process_line set line s)
  unfolding process_line
  process_line-IsGood line s g = elim (Option-cases (find_char b',' line)) [
    | inl p ↦ rw (process_line, p) g
    | inr (i, p) ↦ rw (process_line, p) (process_record-IsGood (line_to_record line b'=' b',') s g)
  ]

  scan-IsGood :
      (lines : List Str) (s r : Scan) → IsGood set s → scan set lines s ≡ ok r → IsGood set r
  unfolding scan
  scan-IsGood [] s r g h = subst (IsGood set) (ok_inj s r h) g
  scan-IsGood (line ∷ lines) s r g h =
      let ((goes_on, t), p, e) = >>=-ok (process_line set line s) _ r h in
      let good : IsGood set t = subst (Leads set) p (process_line-IsGood line s g) in
      elim (Bool-cases goes_on) [
        | inl q ↦ scan-IsGood lines t r good (sym (rw q refl) ∙ e)
        | inr q ↦ subst (IsGood set) (ok_inj t r (sym (rw q refl) ∙ e)) good
      ]

  begin-IsGood :
      (symbols : Symbols) (unsupported : Map Str ℕ) → IsGood set (begin symbols unsupported)
  begin-IsGood symbols unsupported = record {
    counted = refl;
    begun = λ e. omega arith;
    timely = tt;
    limited = tt;
    named = tt;
  }

  -- When Process returns, the number it gives is the number of visits; each was of a record whose time
  -- is within the hours that are read and not before the start, whose symbol is the one that its ticker
  -- id has, and, but for the first, within the duration from the time that the scan began with.
  pub process-IsGood :
      (file : Option (List Str)) (symbols : Symbols) (unsupported : Map Str ℕ) (s : Scan)
      → process set file symbols unsupported ≡ ok s
      → IsGood set s
  unfolding process
  process-IsGood none symbols unsupported s h =
      subst (IsGood set) (ok_inj _ s h) (begin-IsGood symbols unsupported)
  process-IsGood (some lines) symbols unsupported s h =
      scan-IsGood lines _ s (begin-IsGood symbols unsupported) h
