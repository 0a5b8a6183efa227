-- ===== src/Historian/Db.antt =====
-- `Db` of historian/Db.cpp: opening, writes with their counters, and queries, which call a visitor.
pub mod Visited
use atp.Common.{
  ℕ, ◌+◌, ◌%◌, ◌^◌, Bool, true, false, not, Option, none, some, List, [], ◌∷◌, if◌then◌else◌, ltb,
  ◌>>=◌,
}
use atp.Common.Int.{ℤ, sub_size, is_positive}
use atp.Common.Text.{Str, less}
use atp.Historian.Messages.{
  Kind, indexed_value, session_log, ib_market_data, ib_market_depth, Payload, Record,
}
use atp.Historian.Keys.{key_at, index_key}
use atp.Historian.LevelDb.{LevelDb, Codec}
use atp.Historian.Store.{writer}

-- The options of leveldb that flags can set; a flag that is not positive leaves the default.
pub record Options : Type 0 where
  pub create_if_missing : Bool
  pub block_size : ℤ
  pub max_open_files : ℤ
  pub write_buffer_size : ℤ

abbrev flag_or : ℤ → ℤ → ℤ
flag_or flag value = if is_positive flag then flag else value

unfoldable pub with_flags : (flags : Options) → (defaults : Options) → Options
with_flags flags defaults = record {
  create_if_missing = true;
  block_size = flag_or flags.block_size defaults.block_size;
  max_open_files = flag_or flags.max_open_files defaults.max_open_files;
  write_buffer_size = flag_or flags.write_buffer_size defaults.write_buffer_size;
}

-- Db::implementation and the varz counters; `level_db` is none for NULL.
pub record Db (D : Type 0) : Type 0 where
  pub file : Str
  pub level_db : Option D
  pub writes : ℕ
  pub write_start : ℕ
  pub write_finish : ℕ
  pub write_elapsed : ℕ
  pub write_micros : ℕ

-- Open(), where `open_db` is leveldb::DB::Open, which gives a database when its status is ok.
unfoldable pub open_with :
    {D : Type 0}
    → (open_db : Options → Str → Option D) → (flags defaults : Options) → Db D
    → Bool × Db D
open_with open_db flags defaults d = elim (open_db (with_flags flags defaults) d.file) [
  | none ↦ (false, record d { level_db = none })
  | some x ↦ (true, record d { level_db = some x })
]

module _ {D : Type 0} (db : LevelDb D) (codec : Codec) where
  -- Write(value, overwrite). `initialized` is IsInitialized of the message, `start` and `finish` are
  -- what the clock reads. Without a database the code follows a null pointer: none.
  unfoldable pub write :
      (initialized : (t : Kind) → Payload t → Bool) (start finish : ℕ) (t : Kind)
      → Payload t
      → Bool
      → Db D
      → Option (Bool × Db D)
  write initialized start finish t v overwrite d =
      if not (initialized t v) then some (false, d) else elim d.level_db [
        | none ↦ none
        | some x ↦
            let result = writer db codec t v overwrite x in
            some (
              result.0,
              record d {
                level_db = some result.1;
                write_start = start;
                write_finish = finish;
                write_elapsed = sub_size finish start;
                write_micros = sub_size finish start;
                writes = d.writes + 1;
              },
            )
      ]

module _ {ℓ} {S : Type ℓ} (codec : Codec) (visit : Record → S → Bool × S) where
  -- The loop of query: a value that does not parse is counted and not visited. The count is the 32 bits
  -- of an int.
  unfoldable pub query_loop : List (Str × Str) → Str → ℕ → S → ℕ × S
  query_loop [] stop count s = (count, s)
  query_loop ((key, value) ∷ entries) stop count s = elim (less key stop) [
    | false ↦ (count, s)
    | true ↦ elim (codec.parse value) [
      | none ↦ query_loop entries stop ((count + 1) % 2 ^ 32) s
      | some r ↦
          let (more, s') = visit (record r { key = key }) s in
          elim more [
            | true ↦ query_loop entries stop ((count + 1) % 2 ^ 32) s'
            | false ↦ (count, s')
          ]
    ]
  ]

module _ {ℓ} {D : Type 0} {S : Type ℓ} (db : LevelDb D) (codec : Codec)
    (visit : Record → S → Bool × S) where
  -- query(start, stop, visit)
  unfoldable pub query : Str → Str → Db D → S → ℕ × S
  query start stop d s = elim d.level_db [
    | none ↦ (0, s)
    | some x ↦ query_loop codec visit (db.entries start x) stop 0 s
  ]

  -- Query(QueryBySymbol, visit); `index` is none when the query has none.
  unfoldable pub query_by_symbol :
      (t : Kind) (symbol : Str) (first last : ℕ) (index : Option Str) → Db D → S → ℕ × S
  query_by_symbol indexed_value symbol first last none d s = (0, s)
  query_by_symbol indexed_value symbol first last (some x) d s =
      query (index_key symbol x first) (index_key symbol x last) d s
  query_by_symbol session_log symbol first last index d s =
      query (key_at session_log symbol first) (key_at session_log symbol last) d s
  query_by_symbol ib_market_data symbol first last index d s =
      query (key_at ib_market_data symbol first) (key_at ib_market_data symbol last) d s
  query_by_symbol ib_market_depth symbol first last index d s =
      query (key_at ib_market_depth symbol first) (key_at ib_market_depth symbol last) d s
