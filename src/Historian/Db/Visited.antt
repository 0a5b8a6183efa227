-- ===== src/Historian/Db/Visited.antt =====
-- What a query visits and returns.
use atp.Common.{
  ℕ, ◌+◌, ◌%◌, ◌^◌, ◌<◌, ◌≡◌, refl, ap, suc, ◌&&◌, Bool, true, none, some, List, [], ◌∷◌, length,
  if◌then◌else◌, arith, ◌∙◌, inl, inr, Bool-cases, Option-cases,
}
use atp.Common.Text.{Str, less}
use atp.Historian.Messages.{Record}
use atp.Historian.LevelDb.{LevelDb, Codec}
use atp.Historian.Db.{Db, query, query_loop}

-- The entries from the start of a list whose keys are below `stop`.
abbrev pub below : Str → List (Str × Str) → List (Str × Str)
below stop [] = []
below stop ((key, value) ∷ entries) =
    if less key stop then (key, value) ∷ below stop entries else []

abbrev pub all_below : Str → List (Str × Str) → Bool
all_below stop [] = true
all_below stop ((key, value) ∷ entries) = less key stop && all_below stop entries

module _ (codec : Codec) where
  -- The records of entries, each with its key; an entry that does not parse has none.
  abbrev pub records : List (Str × Str) → List Record
  records [] = []
  records ((key, value) ∷ entries) = elim (codec.parse value) [
    | none ↦ records entries
    | some r ↦ record r { key = key } ∷ records entries
  ]

  records-none :
      (k v : Str) (entries : List (Str × Str))
      → codec.parse v ≡ none
      → records ((k, v) ∷ entries) ≡ records entries
  records-none k v entries q = rw (records, q) refl

  records-some :
      (k v : Str) (entries : List (Str × Str)) (r : Record)
      → codec.parse v ≡ some r
      → records ((k, v) ∷ entries) ≡ record r { key = k } ∷ records entries
  records-some k v entries r q = rw (records, q) refl

-- A visitor that never stops, from its effect.
abbrev pub always {ℓ} : {S : Type ℓ} → (Record → S → S) → Record → S → Bool × S
always f r s = (true, f r s)

abbrev pub visit_all {ℓ} : {S : Type ℓ} → (Record → S → S) → List Record → S → S
visit_all f [] s = s
visit_all f (r ∷ rs) s = visit_all f rs (f r s)

-- One entry more.
counted {ℓ} :
    {S : Type ℓ} (a b : ℕ) (s : S)
    → ◌≡◌ {A = ℕ × S} (((a + 1) % 2 ^ 32 + b) % 2 ^ 32, s) ((a + suc b) % 2 ^ 32, s)
counted a b s = ap (λ n. (n, s)) (omega arith)

counted_zero {ℓ} :
    {S : Type ℓ} (a : ℕ) (s : S) → ◌≡◌ {A = ℕ × S} ((0 + a) % 2 ^ 32, s) (a % 2 ^ 32, s)
counted_zero a s = ap (λ n. (n, s)) (omega arith)

counted_end {ℓ} :
    {S : Type ℓ} (a : ℕ) (s : S) → a < 2 ^ 32 → ◌≡◌ {A = ℕ × S} (a, s) ((a + 0) % 2 ^ 32, s)
counted_end a s h = ap (λ n. (n, s)) (omega arith)

module _ {ℓ} {S : Type ℓ} (codec : Codec) where
  query_loop-always :
      (f : Record → S → S) (entries : List (Str × Str)) (stop : Str) (count : ℕ) (s : S)
      → count < 2 ^ 32
      → query_loop codec (always f) entries stop count s ≡ (
        (count + length (below stop entries)) % 2 ^ 32,
        visit_all f (records codec (below stop entries)) s,
      )
  unfolding query_loop
  query_loop-always f [] stop count s h = counted_end count s h
  query_loop-always f ((key, value) ∷ entries) stop count s h = elim (Bool-cases (less key stop)) [
    | inl p ↦ elim (Option-cases (codec.parse value)) [
      | inl q ↦
          rw (query_loop, p, q)
            (query_loop-always f entries stop ((count + 1) % 2 ^ 32) s (omega arith)
              ∙ counted count _ _)
      | inr (r, q) ↦
          rw (query_loop, p, q)
            (query_loop-always f entries stop ((count + 1) % 2 ^ 32) (f (record r { key = key }) s)
                (omega arith)
              ∙ counted count _ _)
    ]
    | inr p ↦ rw (query_loop, p) (counted_end count _ h)
  ]

module _ {ℓ} {D : Type 0} {S : Type ℓ} (db : LevelDb D) (codec : Codec) where
  -- A query of an open database whose visitor never stops visits, in the order of the iterator that seeks
  -- `start`, the record of every entry that parses, with its key, up to the first whose key is not below
  -- `stop`, and returns the low 32 bits of the number of these entries, also of those that do not parse.
  pub query-always :
      (f : Record → S → S) (start stop : Str) (d : Db D) (x : D) (s : S)
      → d.level_db ≡ some x
      → query db codec (always f) start stop d s ≡ (
        length (below stop (db.entries start x)) % 2 ^ 32,
        visit_all f (records codec (below stop (db.entries start x))) s,
      )
  unfolding query
  query-always f start stop d x s h =
      rw h
        (query_loop-always codec f (db.entries start x) stop 0 s (omega arith) ∙ counted_zero _ _)
