-- ===== src/LogReader.antt =====
-- The reader of the log files of market data (service/LogReader.cpp, service/LogReaderInternal.hpp).
pub mod Lines
pub mod Records
pub mod Actions
pub mod Scan
pub mod Fields
pub mod Safety
pub mod Known
pub mod Parsing
pub mod Skipped
pub mod Publish
pub mod Delivered
use atp.Common.{ℕ, Option, none, some}
use atp.Common.Int.{ℤ}
use atp.Common.Map.{Map, find}
use atp.Common.Text.{Str, str_eq}

-- What a function gives that may return false, throw, or end the program by LOG(FATAL).
pub data Reading {ℓ} (A : Type ℓ) : Type ℓ where
  ok : A → Reading A
  no : Reading A
  threw : Reading A
  aborted : Reading A

infixl 5 ◌>>=◌
abbrev pub ◌>>=◌ {ℓ κ} : {A : Type ℓ} {B : Type κ} → Reading A → (A → Reading B) → Reading B
ok a >>= f = f a
no >>= f = no
threw >>= f = threw
aborted >>= f = aborted

-- The caller logs FATAL when the result is false.
abbrev pub fatal {ℓ} : {A : Type ℓ} → Reading A → Reading A
fatal (ok a) = ok a
fatal no = aborted
fatal threw = threw
fatal aborted = aborted

abbrev pub found {ℓ} : {A : Type ℓ} → Option A → Reading A
found none = no
found (some a) = ok a

-- log_record_t
abbrev pub Log : Type 0
Log = Map Str Str

-- boost::lexical_cast to uint64_t, long, int and double (as its bits), where none is an exception.
pub record Casts : Type 0 where
  pub to_timer : Str → Option ℕ
  pub to_long : Str → Option ℤ
  pub to_int : Str → Option ℤ
  pub to_double : Str → Option ℕ

-- get_field<T>, where `cast` is the one to T.
unfoldable pub get_field {ℓ} : {T : Type ℓ} → (cast : Str → Option T) → Log → Str → Reading T
unfolding find
get_field cast log key = elim (find key log) [
  | none ↦ no
  | some text ↦ elim (cast text) [ none ↦ threw | some value ↦ ok value ]
]
