-- ===== src/Historian/Store/Written.antt =====
-- What a write stores, and what it leaves.
use atp.Common.{◌≡◌, refl, ap, ◌∙◌, ◌≢◌, Bool, true, false, some, List, [], ◌∷◌, arith}
use atp.Common.Text.{Str, same_iff}
use atp.Historian.Messages.{
  Kind, indexed_value, session_log, ib_market_data, ib_market_depth, Payload, MarketData,
  IndexedValue, Record, wrap, as_payload, empty_record,
}
use atp.Historian.Messages.Variants.{as_payload-set_as}
use atp.Historian.Keys.{key_of, index_key, index_key_of}
use atp.Historian.Keys.Unique.{key_at-index_key}
use atp.Historian.LevelDb.{LevelDb, Codec, Status, ok, is_ok, is_not_found, after}
use atp.Historian.Store.{writer, write_db, write_market_data, ok_to_write}

as_payload-wrap : (t : Kind) (x : Payload t) → as_payload t (wrap t x) ≡ some x
unfolding wrap
as_payload-wrap t x = (as_payload-set_as t t x empty_record).0

-- What the index holds.
abbrev pub index_entry : MarketData → IndexedValue
index_entry v = record { timestamp = v.timestamp; value = v.value }

module _ {D : Type 0} (db : LevelDb D) (codec : Codec) where
  -- A key holds a payload when what is read there parses to a record of it.
  unfoldable pub Holds : (t : Kind) → Str → Payload t → D → Type 0
  Holds t key x d =
      ((db.read key d).0 ≡ ok)
      × ((r : Record) × (codec.parse (db.read key d).1 ≡ some r) × (as_payload t r ≡ some x))

  write_db-step :
      (key : Str) (value : Record) (overwrite : Bool) (d : D)
      → (write_db db codec key value overwrite d).0 ≡ true
      → (ok_to_write db codec key overwrite d ≡ true)
        × ((codec.serialize value).0 ≡ true)
        × (is_ok (db.put key (codec.serialize value).1 d).0 ≡ true)
        × ((write_db db codec key value overwrite d).1 ≡ (db.put key (codec.serialize value).1 d).1)
  unfolding write_db
  write_db-step key value overwrite d h = grind arith

  after_self :
      (key buffer : Str) (before : Status × Str)
      → after ((key, buffer) ∷ []) key before ≡ (ok, buffer)
  after_self key buffer before = rw ((same_iff key key).1 refl) refl

  after_other :
      (key j buffer : Str) (before : Status × Str)
      → key ≢ j
      → after ((key, buffer) ∷ []) j before ≡ before
  after_other key j buffer before h = ground (arith, same_iff key j)

  held :
      (t : Kind) (key : Str) (x : Payload t) (d : D)
      → (codec.serialize (wrap t x)).0 ≡ true
      → db.read key d ≡ (ok, (codec.serialize (wrap t x)).1)
      → Holds t key x d
  unfolding Holds
  held t key x d h e = (
    ap (λ p. p.0) e,
    (
      wrap t x,
      ap (λ p. codec.parse p.1) e ∙ codec.parse-serialize (wrap t x) h,
      as_payload-wrap t x,
    ),
  )

  -- A write that returns true has been allowed, and the record is there; other keys are as before.
  write_db-true :
      (t : Kind) (key : Str) (x : Payload t) (overwrite : Bool) (d : D)
      → (write_db db codec key (wrap t x) overwrite d).0 ≡ true
      → Holds t key x (write_db db codec key (wrap t x) overwrite d).1
        × (ok_to_write db codec key overwrite d ≡ true)
        × ((j : Str)
            → key ≢ j
            → db.read j (write_db db codec key (wrap t x) overwrite d).1 ≡ db.read j d)
  write_db-true t key x overwrite d h =
      let (allowed, serialized, stored, e) = write_db-step key (wrap t x) overwrite d h in
      rw e (
        held t key x _ serialized
            (db.read-put key _ key d stored ∙ after_self key _ (db.read key d)),
        allowed,
        λ j other. db.read-put key _ j d stored ∙ after_other key j _ (db.read j d) other,
      )

  abbrev batch_of : MarketData → List (Str × Str)
  batch_of v =
      (key_of ib_market_data v, (codec.serialize (wrap ib_market_data v)).1)
      ∷ (index_key_of v, (codec.serialize (wrap indexed_value (index_entry v))).1)
      ∷ []

  market_data-step :
      (v : MarketData) (overwrite : Bool) (d : D)
      → (write_market_data db codec v overwrite d).0 ≡ true
      → (ok_to_write db codec (key_of ib_market_data v) overwrite d ≡ true)
        × (is_ok (db.write (batch_of v) d).0 ≡ true)
        × ((write_market_data db codec v overwrite d).1 ≡ (db.write (batch_of v) d).1)
  unfolding write_market_data index_key key_of
  market_data-step v overwrite d h = grind arith

  index_differs : (v : MarketData) → key_of ib_market_data v ≢ index_key_of v
  unfolding key_of
  index_differs v =
      key_at-index_key ib_market_data v.symbol v.symbol v.event v.timestamp v.timestamp

  after_first :
      (k j b c : Str) (before : Status × Str)
      → k ≢ j
      → after ((k, b) ∷ (j, c) ∷ []) k before ≡ (ok, b)
  after_first k j b c before h = ground (arith, same_iff k k, same_iff j k)

  after_second :
      (k j b c : Str) (before : Status × Str) → after ((k, b) ∷ (j, c) ∷ []) j before ≡ (ok, c)
  after_second k j b c before = ground (arith, same_iff j j)

  after_neither :
      (k j i b c : Str) (before : Status × Str)
      → k ≢ i
      → j ≢ i
      → after ((k, b) ∷ (j, c) ∷ []) i before ≡ before
  after_neither k j i b c before h h' = ground (arith, same_iff k i, same_iff j i)

  -- When the write of market data returns true and the messages could be serialized, the database
  -- holds the market data under its key and its time and value under the key of its event in the
  -- index, and every other key reads as before; without `overwrite`, the key was not there.
  pub market_data-true :
      (v : MarketData) (overwrite : Bool) (d : D)
      → (codec.serialize (wrap ib_market_data v)).0 ≡ true
      → (codec.serialize (wrap indexed_value (index_entry v))).0 ≡ true
      → (writer db codec ib_market_data v overwrite d).0 ≡ true
      → Holds ib_market_data
          (key_of ib_market_data v)
          v
          (writer db codec ib_market_data v overwrite d).1
        × Holds indexed_value
            (index_key_of v)
            (index_entry v)
            (writer db codec ib_market_data v overwrite d).1
        × (ok_to_write db codec (key_of ib_market_data v) overwrite d ≡ true)
        × ((j : Str)
            → key_of ib_market_data v ≢ j
            → index_key_of v ≢ j
            → db.read j (writer db codec ib_market_data v overwrite d).1 ≡ db.read j d)
  unfolding writer
  market_data-true v overwrite d hs hi h =
      let (allowed, stored, e) = market_data-step v overwrite d h in
      let k = key_of ib_market_data v in
      let i = index_key_of v in
      rw e (
        held ib_market_data k v _ hs
            (db.read-write _ k d stored ∙ after_first k i _ _ (db.read k d) (index_differs v)),
        held indexed_value i (index_entry v) _ hi
            (db.read-write _ i d stored ∙ after_second k i _ _ (db.read i d)),
        allowed,
        λ j hk hj. db.read-write _ j d stored ∙ after_neither k i j _ _ (db.read j d) hk hj,
      )

  -- A write of any kind without `overwrite`, whose key does not read as not found, returns false and
  -- leaves the database.
  writer-refused :
      (t : Kind) (v : Payload t) (d : D)
      → is_not_found (db.read (key_of t v) d).0 ≡ false
      → writer db codec t v false d ≡ (false, d)
  unfolding writer
  writer-refused indexed_value v d h = refl
  writer-refused session_log v d h = unfold write_db in grind arith
  writer-refused ib_market_data v d h = unfold write_market_data in grind arith
  writer-refused ib_market_depth v d h = unfold write_db in grind arith

  -- When the write of a session log or of market depth returns true, the database holds it under its
  -- key and every other key reads as before.
  writer-true :
      (t : Kind) (v : Payload t) (overwrite : Bool) (d : D)
      → t ≢ ib_market_data
      → (writer db codec t v overwrite d).0 ≡ true
      → Holds t (key_of t v) v (writer db codec t v overwrite d).1
        × ((j : Str) → key_of t v ≢ j → db.read j (writer db codec t v overwrite d).1 ≡ db.read j d)
  unfolding writer
  writer-true indexed_value v overwrite d n h = ground arith
  writer-true session_log v overwrite d n h =
      let (a, b, c) = write_db-true session_log (key_of session_log v) v overwrite d h in (a, c)
  writer-true ib_market_data v overwrite d n h = ground (arith, n refl)
  writer-true ib_market_depth v overwrite d n h =
      let (a, b, c) = write_db-true ib_market_depth (key_of ib_market_depth v) v overwrite d h in
      (a, c)
