-- ===== src/LogReader/Lines.antt =====
-- line_to_record (service/LogReaderInternal.hpp): the names and values of a line.
use atp.Common.{ℕ, suc, none, some, List, [], ◌∷◌, take, drop}
use atp.Common.Map.{assign}
use atp.Common.Split.{split_from, find_char}
use atp.Common.Text.{Str, str_eq}
use atp.LogReader.{Log}

-- The name and the value of a part; a part without the delimiter is both.
unfoldable pub name_value : ℕ → Str → Str × Str
unfolding find_char
name_value nv_delim part = elim (find_char nv_delim part) [
  | none ↦ (part, part)
  | some sep ↦ (take sep part, drop (suc sep) part)
]

-- The loop over the parts.
unfoldable pub assign_parts : ℕ → List Str → Log → Log
unfolding assign name_value
assign_parts nv_delim [] log = log
assign_parts nv_delim (part ∷ parts) log =
    let (key, val) = name_value nv_delim part in assign_parts nv_delim parts (assign key val log)

-- line_to_record(line, result, nvDelim, pDelim) on an empty record: it is never false, since a split
-- has a part.
unfoldable pub line_to_record : Str → (nv_delim p_delim : ℕ) → Log
unfolding split_from assign_parts
line_to_record line nv_delim p_delim = assign_parts nv_delim (split_from p_delim [] line) []
