-- ===== src/LogReader/Parsing.antt =====
-- What a line of names and values is read as.
use atp.Common.{
  ℕ, suc, ◌≡◌, ◌≢◌, refl, ap, ◌∙◌, true, Option, none, some, List, [], ◌∷◌, ◌++◌, map, length, take,
  drop, if◌then◌else◌, arith, All,
}
use atp.Common.Eq.{eq}
use atp.Common.Map.{find, assign, find-assign}
use atp.Common.Split.{
  split_from, free, free-append, split_from-append, split_from-free, find_char-append,
}
use atp.Common.Text.{Str, str_eq}
use atp.LogReader.{Log}
use atp.LogReader.Lines.{name_value, assign_parts, line_to_record}

-- A line as it is written: the names and values of the first pair and of the others.
abbrev pub joined : (nv_delim p_delim : ℕ) → Str × Str → List (Str × Str) → Str
joined nv p (name, value) [] = name ++ (nv ∷ value)
joined nv p (name, value) (pair ∷ pairs) = (name ++ (nv ∷ value)) ++ (p ∷ joined nv p pair pairs)

-- The last of the values that have the name.
abbrev pub last_value : Str → Option Str → List (Str × Str) → Option Str
last_value key known [] = known
last_value key known ((name, value) ∷ pairs) =
    last_value key (if eq name key then some value else known) pairs

-- The name has neither delimiter, and the value does not have the one of the pairs.
pub record IsPlain (nv_delim p_delim : ℕ) (pair : Str × Str) : Type 0 where
  pub whole_name : free nv_delim pair.0 ≡ true
  pub name : free p_delim pair.0 ≡ true
  pub value : free p_delim pair.1 ≡ true

take-append : (s t : Str) → take (length s) (s ++ t) ≡ s
take-append [] [] = refl
take-append [] (c ∷ t) = refl
take-append (c ∷ s) t = ap (λ r. c ∷ r) (take-append s t)

drop-append_one : (s t : Str) (c : ℕ) → drop (suc (length s)) (s ++ (c ∷ t)) ≡ t
drop-append_one [] t c = refl
drop-append_one (d ∷ s) t c = drop-append_one s t c

module _ (nv p : ℕ) where
  name_value-joined :
      (pair : Str × Str) → IsPlain nv p pair → name_value nv (pair.0 ++ (nv ∷ pair.1)) ≡ pair
  unfolding name_value
  name_value-joined (name, value) h =
      rw
        (
          name_value,
          find_char-append nv name value h.whole_name,
          take-append name (nv ∷ value),
          drop-append_one name value nv,
        )
        refl

  joined-free :
      nv ≢ p → (pair : Str × Str) → IsPlain nv p pair → free p (pair.0 ++ (nv ∷ pair.1)) ≡ true
  joined-free ne (name, value) h = ground (arith, free-append p name (nv ∷ value), h.name, h.value)

  -- The parts are the pairs as they are written.
  abbrev parts : List (Str × Str) → List Str
  parts = map (λ q. q.0 ++ (nv ∷ q.1))

  split_from-joined :
      nv ≢ p
      → (pair : Str × Str) (pairs : List (Str × Str)) → IsPlain nv p pair
      → All (IsPlain nv p) pairs
      → split_from p [] (joined nv p pair pairs) ≡ parts (pair ∷ pairs)
  split_from-joined ne pair [] h hs = split_from-free p [] _ (joined-free ne pair h)
  split_from-joined ne pair (next ∷ pairs) h (k, hs) =
      split_from-append p [] _ (joined nv p next pairs) (joined-free ne pair h)
      ∙ ap (λ rest. (pair.0 ++ (nv ∷ pair.1)) ∷ rest) (split_from-joined ne next pairs k hs)

  find-assign_parts :
      (key : Str) (log : Log) (pairs : List (Str × Str))
      → All (IsPlain nv p) pairs
      → find key (assign_parts nv (parts pairs) log) ≡ last_value key (find key log) pairs
  unfolding assign_parts
  find-assign_parts key log [] hs = refl
  find-assign_parts key log (pair ∷ pairs) (h, hs) =
      rw (assign_parts, name_value-joined pair h)
        (find-assign_parts key (assign pair.0 pair.1 log) pairs hs
          ∙ ap (λ known. last_value key known pairs) (find-assign pair.0 key pair.1 log))

  -- A line of pairs is read as a record whose field of each name is the last value of that name.
  pub find-line_to_record :
      (key : Str) (pair : Str × Str) (pairs : List (Str × Str))
      → nv ≢ p
      → IsPlain nv p pair
      → All (IsPlain nv p) pairs
      → find key (line_to_record (joined nv p pair pairs) nv p) ≡ last_value key none (pair ∷ pairs)
  unfolding find line_to_record
  find-line_to_record key pair pairs ne h hs =
      ap (λ l. find key (assign_parts nv l [])) (split_from-joined ne pair pairs h hs)
      ∙ find-assign_parts key [] (pair ∷ pairs) (h, hs)
