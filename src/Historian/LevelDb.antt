-- ===== src/Historian/LevelDb.antt =====
-- The interfaces of leveldb and of the generated message classes, which the historian calls.
use atp.Common.{◌≡◌, Bool, true, false, Option, some, List, [], ◌∷◌, if◌then◌else◌}
use atp.Common.Text.{Str, same}
use atp.Historian.Messages.{Record}

-- leveldb::Status, as far as the code asks.
pub data Status : Type 0 where
  ok : Status
  not_found : Status
  failed : Status

abbrev pub is_ok : Status → Bool
is_ok ok = true
is_ok not_found = false
is_ok failed = false

abbrev pub is_not_found : Status → Bool
is_not_found ok = false
is_not_found not_found = true
is_not_found failed = false

-- What `Get` of a key gives when the puts of a batch come after `before`.
abbrev pub after : List (Str × Str) → Str → Status × Str → Status × Str
after [] key before = before
after ((k, v) ∷ batch) key before = after batch key (if same k key then (ok, v) else before)

-- A database: `entries` are the keys and values that an iterator gives from `Seek(key)` on. A write
-- that is ok is read back, and leaves the other keys; a batch is its puts in order.
pub record LevelDb (D : Type 0) : Type 0 where
  pub read : Str → D → Status × Str
  pub put : Str → Str → D → Status × D
  pub write : List (Str × Str) → D → Status × D
  pub entries : Str → D → List (Str × Str)
  pub read-put :
      (k v key : Str) (d : D)
      → is_ok (put k v d).0 ≡ true
      → read key (put k v d).1 ≡ after ((k, v) ∷ []) key (read key d)
  pub read-write :
      (batch : List (Str × Str)) (key : Str) (d : D)
      → is_ok (write batch d).0 ≡ true
      → read key (write batch d).1 ≡ after batch key (read key d)

-- SerializeToString, with the buffer, and ParseFromString.
pub record Codec : Type 0 where
  pub serialize : Record → Bool × Str
  pub parse : Str → Option Record
  pub parse-serialize : (r : Record) → (serialize r).0 ≡ true → parse (serialize r).1 ≡ some r
