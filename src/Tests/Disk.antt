-- ===== src/Tests/Disk.antt =====
-- A database in memory and an encoding of messages, which meet the interfaces of the historian.
use atp.Common.{
  ◌≡◌, refl, ap, ◌∙◌, Option, none, some, List, [], ◌∷◌, if◌then◌else◌, inl, inr, Bool-cases,
}
use atp.Common.Map.{Map, find, assign, find-assign}
use atp.Common.Text.{Str, str_eq, same, less}
use atp.Historian.LevelDb.{LevelDb, Status, ok, not_found, after}

abbrev pub Disk : Type 0
Disk = Map Str Str

abbrev pub status_of : Option Str → Status × Str
status_of none = (not_found, [])
status_of (some v) = (ok, v)

unfoldable pub read_disk : Str → Disk → Status × Str
unfolding find
read_disk key d = status_of (find key d)

unfoldable pub put_all : List (Str × Str) → Disk → Disk
unfolding assign
put_all [] d = d
put_all ((k, v) ∷ batch) d = put_all batch (assign k v d)

unfoldable pub entries_from : Str → Disk → List (Str × Str)
unfolding less
entries_from start [] = []
entries_from start ((k, v) ∷ d) =
    if less k start then entries_from start d else (k, v) ∷ entries_from start d

pub read-assign :
    (k v key : Str) (d : Disk)
    → read_disk key (assign k v d) ≡ after ((k, v) ∷ []) key (read_disk key d)
unfolding read_disk
read-assign k v key d = elim (Bool-cases (same k key)) [
  | inl p ↦ ap status_of (find-assign k key v d) ∙ rw p refl
  | inr p ↦ ap status_of (find-assign k key v d) ∙ rw p refl
]

pub read-put_all :
    (batch : List (Str × Str)) (key : Str) (d : Disk)
    → read_disk key (put_all batch d) ≡ after batch key (read_disk key d)
unfolding put_all
read-put_all [] key d = refl
read-put_all ((k, v) ∷ batch) key d =
    read-put_all batch key (assign k v d) ∙ ap (after batch key) (read-assign k v key d)

abbrev pub disk : LevelDb Disk
disk = record {
  read = read_disk;
  put = λ k v d. (ok, assign k v d);
  write = λ batch d. (ok, put_all batch d);
  entries = entries_from;
  read-put = λ k v key d h. read-assign k v key d;
  read-write = λ batch key d h. read-put_all batch key d;
}
