-- ===== src/Historian/Store.antt =====
-- The writers of historian/internal.hpp, over leveldb.
pub mod Written
use atp.Common.{ℕ, ◌+◌, Bool, true, false, Option, none, some, List, [], ◌∷◌, ◌++◌, if◌then◌else◌}
use atp.Common.Int.{sub_size}
use atp.Common.Text.{Str, same, less}
use atp.Historian.Messages.{
  Kind, indexed_value, session_log, ib_market_data, ib_market_depth, Payload, MarketData, Record,
  wrap,
}
use atp.Historian.Keys.{key_at, key_of, index_key, index_key_of}
use atp.Historian.LevelDb.{LevelDb, Codec, Status, is_ok, is_not_found}

module _ {D : Type 0} (db : LevelDb D) (codec : Codec) where
  -- write_db(batch, levelDb)
  unfoldable pub commit : List (Str × Str) → D → Bool × D
  commit batch d = let result = db.write batch d in (is_ok result.0, result.1)

  -- okToWrite: with `overwrite` not set, the key is read first.
  abbrev pub ok_to_write : Str → Bool → D → Bool
  ok_to_write key overwrite d = if overwrite then true else is_not_found (db.read key d).0

  abbrev put_serialized : Str → Bool × Str → D → Bool × D
  put_serialized key buffer d =
      let result = db.put key buffer.1 d in
      if buffer.0 then (is_ok result.0, result.1) else (false, d)

  -- write_db<V>(key, value, levelDb, overwrite)
  unfoldable pub write_db : Str → Record → Bool → D → Bool × D
  write_db key value overwrite d =
      if same key []
      then (false, d)
      else if ok_to_write key overwrite d
      then put_serialized key (codec.serialize value) d
      else (false, d)

  -- write_batch<V>(key, value, batch, levelDb, overwrite): SerializeToString is not tested.
  unfoldable pub write_batch : Str → Record → Bool → List (Str × Str) → D → Bool × List (Str × Str)
  write_batch key value overwrite batch d =
      if same key []
      then (false, batch)
      else if ok_to_write key overwrite d
      then (true, batch ++ ((key, (codec.serialize value).1) ∷ []))
      else (false, batch)

  -- Writer<MarketData>: the record, and then its entry in the index, in one batch.
  unfoldable pub write_market_data : MarketData → Bool → D → Bool × D
  unfolding write_batch commit
  write_market_data v overwrite d =
      let primary = write_batch (key_of ib_market_data v) (wrap ib_market_data v) overwrite [] d in
      let entry = wrap indexed_value (record { timestamp = v.timestamp; value = v.value }) in
      let both = write_batch (index_key_of v) entry true primary.1 d in
      if primary.0 then commit both.1 d else (false, d)

  -- Writer<V>; the value of an index has no key, so it is not written.
  unfoldable pub writer : (t : Kind) → Payload t → Bool → D → Bool × D
  unfolding write_db write_market_data
  writer indexed_value v overwrite d = (false, d)
  writer session_log v overwrite d =
      write_db (key_of session_log v) (wrap session_log v) overwrite d
  writer ib_market_data v overwrite d = write_market_data v overwrite d
  writer ib_market_depth v overwrite d =
      write_db (key_of ib_market_depth v) (wrap ib_market_depth v) overwrite d
