-- ===== src/Common/Split.antt =====
-- `boost::split` of a text at one character, and `std::string::find` of one.
use Prim.Native.Nat.{ℕ, suc}
use mathlib.Core.Path.{◌≡◌, refl, sym, ap, ◌∙◌}
use mathlib.Core.Bool.{Bool, true, false, not, ◌&&◌}
use mathlib.Core.Option.{Option, none, some}
use mathlib.Core.List.{List, [], ◌∷◌, ◌++◌, append-nil, append_assoc}
use native.Mathlib.Omega.{arith}
use atp.Common.Tests.{◌==◌, if◌then◌else◌}
use atp.Common.Lists.{length}
use atp.Common.Text.{Str}

-- The parts of a text, where `part` is the beginning of the first.
unfoldable pub split_from : (delim : ℕ) → (part : Str) → Str → List Str
split_from delim part [] = part ∷ []
split_from delim part (c ∷ s) = elim (c == delim) [
  | true ↦ part ∷ split_from delim [] s
  | false ↦ split_from delim (part ++ (c ∷ [])) s
]

-- The character does not occur.
abbrev pub free : (delim : ℕ) → Str → Bool
free delim [] = true
free delim (c ∷ s) = not (c == delim) && free delim s

pub free-append : (delim : ℕ) (s t : Str) → free delim (s ++ t) ≡ (free delim s && free delim t)
free-append delim [] t = refl
free-append delim (c ∷ s) t = ground (arith, free-append delim s t)

pub split_from-append :
    (delim : ℕ) (part s t : Str)
    → free delim s ≡ true
    → split_from delim part (s ++ (delim ∷ t)) ≡ (part ++ s) ∷ split_from delim [] t
unfolding split_from
split_from-append delim part [] t h =
    let here : (delim == delim) ≡ true = ground arith in
    rw (split_from, here) (ap (λ p. p ∷ split_from delim [] t) (sym (append-nil part)))
split_from-append delim part (c ∷ s) t h =
    let here : (c == delim) ≡ false = ground arith in
    let rest : free delim s ≡ true = ground arith in
    rw (split_from, here)
      (split_from-append delim (part ++ (c ∷ [])) s t rest
        ∙ ap (λ p. p ∷ split_from delim [] t) (append_assoc part (c ∷ []) s))

pub split_from-free :
    (delim : ℕ) (part s : Str) → free delim s ≡ true → split_from delim part s ≡ (part ++ s) ∷ []
unfolding split_from
split_from-free delim part [] h = ap (λ p. p ∷ []) (sym (append-nil part))
split_from-free delim part (c ∷ s) h =
    let here : (c == delim) ≡ false = ground arith in
    let rest : free delim s ≡ true = ground arith in
    rw (split_from, here)
      (split_from-free delim (part ++ (c ∷ [])) s rest
        ∙ ap (λ p. p ∷ []) (append_assoc part (c ∷ []) s))

-- s.find(c), where none is npos.
unfoldable pub find_char : ℕ → Str → Option ℕ
find_char c [] = none
find_char c (d ∷ s) =
    let rest = find_char c s in
    if d == c then some 0 else elim rest [ none ↦ none | some i ↦ some (suc i) ]

pub find_char-append :
    (c : ℕ) (s t : Str) → free c s ≡ true → find_char c (s ++ (c ∷ t)) ≡ some (length s)
unfolding find_char
find_char-append c [] t h = ground arith
find_char-append c (d ∷ s) t h =
    let here : (d == c) ≡ false = ground arith in
    let rest : free c s ≡ true = ground arith in
    rw (find_char, here, find_char-append c s t rest) refl
