-- ===== src/LogReader/Safety.antt =====
-- What holds of the visits of LogReader::Process.
pub mod Loop
use atp.Common.{
  ℕ, suc, ◌+◌, ◌≤◌, ◌*◌, ◌/◌, ◌%◌, ◌≡◌, refl, ap, sym, subst, ◌∙◌, Bool, true, false, not, ◌&&◌,
  Option, none, some, List, [], ◌∷◌, ◌++◌, length, length-append, ltb, leb, ◌==◌, if◌then◌else◌,
  arith, inl, inr, Bool-cases, Option-cases, All, All-append_one, All-imp,
}
use atp.Common.Int.{ℤ}
use atp.Common.Eq.{int_eq}
use atp.Common.Map.{Map, find, assign, find-assign}
use atp.Common.Text.{Str, codes, same}
use atp.LogReader.{Reading, ok, no, threw, aborted, ◌>>=◌, fatal, Log, Casts, get_field}
use atp.LogReader.Records.{Symbols, read_market_data, read_market_depth}
use atp.LogReader.Actions.{is_action, is_supported, map_id_to_symbols, add_symbol}
use atp.LogReader.Scan.{
  Settings, Scan, Visit, market_data, market_depth, Next, Start, is_before, is_longer, as_ptime,
  is_trading, get_timestamp, check_time, visit, deliver, first_of, limit, clock, check_event,
  process_record, process_line, scan, process,
}
use atp.LogReader.Fields.{
  Reading-cases, ok_inj, IsKnown, read_market_data-ok, read_market_depth-ok, >>=-ok,
}

abbrev pub time_of : Visit → ℕ
time_of (market_data d) = as_ptime d.timestamp
time_of (market_depth d) = as_ptime d.timestamp

abbrev pub IsNamed : Symbols → Visit → Type 0
IsNamed symbols (market_data d) = IsKnown symbols d.contract_id d.symbol
IsNamed symbols (market_depth d) = IsKnown symbols d.contract_id d.symbol

module _ (set : Settings) where
  -- The time is within the hours that are read, and not before the start.
  pub record IsTimely (v : Visit) : Type 0 where
    pub trading : is_trading set (time_of v) ≡ true
    pub started : is_before (time_of v) set.start ≡ false

  -- All but the first are within the duration.
  abbrev pub IsLimited : Option ℕ → List Visit → Type 0
  IsLimited first [] = Unit
  IsLimited first (v ∷ vs) = All (λ w. is_longer (some (time_of w)) first set.duration ≡ false) vs

  pub record IsGood (s : Scan) : Type 0 where
    pub counted : s.matched ≡ length s.visited
    pub begun : s.first ≡ none → s.matched ≤ 1
    pub timely : All IsTimely s.visited
    pub limited : IsLimited s.first s.visited
    pub named : All (IsNamed s.symbols) s.visited

  abbrev pub Leads : Next → Type 0
  Leads (ok (goes_on, s)) = IsGood s
  Leads no = Unit
  Leads threw = Unit
  Leads aborted = Unit

  IsLimited-append_one :
      (first : Option ℕ) (vs : List Visit) (v : Visit)
      → IsLimited first vs
      → is_longer (some (time_of v)) first set.duration ≡ false
      → IsLimited first (vs ++ (v ∷ []))
  IsLimited-append_one first [] v h l = tt
  IsLimited-append_one first (w ∷ vs) v h l =
      All-append_one (λ w. is_longer (some (time_of w)) first set.duration ≡ false) vs v h l

  visit-IsGood :
      (v : Visit) (s : Scan)
      → IsGood s
      → (s.first ≡ none → s.matched ≡ 0)
      → IsTimely v
      → is_longer (some (time_of v)) s.first set.duration ≡ false
      → IsNamed s.symbols v
      → Leads (visit set v s)
  visit-IsGood v s g f t l n = record {
    counted = ap (λ k. k + 1) g.counted ∙ sym (length-append s.visited (v ∷ []));
    begun = λ e. ground (arith, f e);
    timely = All-append_one IsTimely s.visited v g.timely t;
    limited = IsLimited-append_one s.first s.visited v g.limited l;
    named = All-append_one (IsNamed s.symbols) s.visited v g.named n;
  }

  -- A list with one element at most is limited by any time.
  IsLimited-short : (first : Option ℕ) (vs : List Visit) → length vs ≤ 1 → IsLimited first vs
  IsLimited-short first [] h = tt
  IsLimited-short first (v ∷ []) h = tt
  IsLimited-short first (v ∷ w ∷ vs) h = ground arith

  first_of-none : (s : Scan) → first_of set s ≡ none → s.first ≡ none
  first_of-none s h = elim (Option-cases s.first) [ inl p ↦ p | inr (t, p) ↦ ground arith ]

  first_of-begun :
      (s : Scan) (t : ℕ) → IsGood s → s.current ≡ some t → first_of set s ≡ none → s.matched ≡ 0
  first_of-begun s t g c h = ground (arith, g.begun (first_of-none s h))

  first_of-IsLimited : (s : Scan) → IsGood s → IsLimited (first_of set s) s.visited
  first_of-IsLimited s g = elim (Option-cases s.first) [
    | inr (t, p) ↦
        let e : s.first ≡ first_of set s = rw p refl in
        subst (λ first. IsLimited first s.visited) e g.limited
    | inl p ↦ IsLimited-short (first_of set s) s.visited (omega (arith, g.begun p, g.counted))
  ]

  first-IsGood : (s : Scan) → IsGood s → IsGood (record s { first = first_of set s })
  first-IsGood s g = record {
    counted = g.counted;
    begun = λ e. g.begun (first_of-none s e);
    timely = g.timely;
    limited = first_of-IsLimited s g;
    named = g.named;
  }

  get_timestamp-at :
      (log : Log) (ts t : ℕ)
      → get_field set.casts.to_timer log (codes "ts_utc") ≡ ok ts
      → get_timestamp set log ≡ ok t
      → as_ptime ts ≡ t
  unfolding get_timestamp
  get_timestamp-at log ts t e h =
      let (ts', at, h1) = >>=-ok (get_field set.casts.to_timer log (codes "ts_utc")) _ t h in
      ap as_ptime (ok_inj ts ts' (sym e ∙ at)) ∙ ok_inj (as_ptime ts') t h1

  -- What clock has checked when it comes to the limit.
  pub record IsAt (t : ℕ) (log : Log) (s : Scan) : Type 0 where
    pub at : get_timestamp set log ≡ ok t
    pub current : s.current ≡ some t
    pub trading : is_trading set t ≡ true
    pub started : is_before t set.start ≡ false

  IsTimely-at :
      (v : Visit) (log : Log) (s : Scan) (t : ℕ) → IsAt t log s → time_of v ≡ t → IsTimely v
  IsTimely-at v log s t a e = record { trading = rw e a.trading; started = rw e a.started }

  deliver-IsGood :
      (log : Log) (s : Scan) (t : ℕ)
      → IsGood s
      → IsAt t log s
      → (s.first ≡ none → s.matched ≡ 0)
      → is_longer (some t) s.first set.duration ≡ false
      → Leads (deliver set log s)
  unfolding deliver
  deliver-IsGood log s t g a f l = elim (Reading-cases (read_market_data set.casts s.symbols log)) [
    | inl (d, p) ↦
        let (ts, known) = read_market_data-ok set.casts s.symbols log d p in
        let e : as_ptime d.timestamp ≡ t = get_timestamp-at log d.timestamp t ts a.at in
        let v : Visit = market_data d in
        rw (deliver, p) (visit-IsGood v s g f (IsTimely-at v log s t a e) (rw e l) known)
    | inr (inr (inl p)) ↦ rw (deliver, p) tt
    | inr (inr (inr p)) ↦ rw (deliver, p) tt
    | inr (inl p) ↦ elim (Reading-cases (read_market_depth set.casts s.symbols log)) [
      | inl (d, q) ↦
          let (ts, known) = read_market_depth-ok set.casts s.symbols log d q in
          let e : as_ptime d.timestamp ≡ t = get_timestamp-at log d.timestamp t ts a.at in
          let v : Visit = market_depth d in
          rw (deliver, p, q) (visit-IsGood v s g f (IsTimely-at v log s t a e) (rw e l) known)
      | inr (inl q) ↦ rw (deliver, p, q) g
      | inr (inr (inl q)) ↦ rw (deliver, p, q) tt
      | inr (inr (inr q)) ↦ rw (deliver, p, q) tt
    ]
  ]

  pub limit-IsGood :
      (log : Log) (s : Scan) (t : ℕ) → IsGood s → IsAt t log s → Leads (limit set log s)
  unfolding limit
  limit-IsGood log s t g a =
      let begun : Scan = record s { first = first_of set s } in
      elim (Bool-cases (is_longer s.current (first_of set s) set.duration)) [
        | inl p ↦ rw p (first-IsGood s g)
        | inr p ↦ rw p (
            deliver-IsGood log begun t (first-IsGood s g)
              (record { at = a.at; current = a.current; trading = a.trading; started = a.started })
              (first_of-begun s t g a.current)
              (ap (λ c. is_longer c (first_of set s) set.duration) (sym a.current) ∙ p))
      ]
