-- ===== src/Historian/Messages.antt =====
-- The messages of proto/common.proto, proto/ib.proto and proto/historian.proto, and the helpers of
-- proto/common.hpp and proto/historian.hpp that read and write their variants. A field that is not
-- set reads as its default. A double is its 64 bits, since the code only copies it.
pub mod Variants
use atp.Common.{ℕ, ◌+◌, Bool, true, false, Option, none, some, [], if◌then◌else◌}
use atp.Common.Int.{ℤ, pos, negsuc, to_int32, to_size}
use atp.Common.Text.{Str}

-- proto::common::Value::Type
pub data ValueType : Type 0 where
  type_double : ValueType
  type_int : ValueType
  type_string : ValueType
  type_timestamp : ValueType

pub record Value : Type 0 where
  pub type : ValueType
  pub string_value : Str
  pub double_value : ℕ
  pub int_value : ℤ
  pub timestamp_value : ℤ

-- The C++ types that the templates have an instance for, and any other.
pub data Scalar : Type 0 where
  double : Scalar
  int : Scalar
  string : Scalar

abbrev pub Content : Scalar → Type 0
Content double = ℕ
Content int = ℤ
Content string = Str

abbrev pub value_type : Scalar → ValueType
value_type double = type_double
value_type int = type_int
value_type string = type_string

abbrev pub value_type_test : ValueType → ValueType → Bool
value_type_test type_double type_double = true
value_type_test type_int type_int = true
value_type_test type_string type_string = true
value_type_test type_timestamp type_timestamp = true
value_type_test _ _ = false

abbrev pub empty_value : Value
empty_value = record {
  type = type_double;
  string_value = [];
  double_value = 0;
  int_value = pos 0;
  timestamp_value = pos 0;
}

-- The conversion of an int64 field to `int`.
abbrev pub to_int : ℤ → ℤ
to_int z = to_int32 (to_size z)

-- internal::get<T>
unfoldable pub get_value : (t : Scalar) → Value → Option (Content t)
get_value double v = some v.double_value
get_value int v = some (to_int v.int_value)
get_value string v = some v.string_value

-- internal::as<T>(type, value) and the instances of as<T>(value)
unfoldable pub value_as : (t : Scalar) → Value → Option (Content t)
unfolding get_value
value_as t v = if value_type_test v.type (value_type t) then get_value t v else none

-- internal::set_as(v, val)
unfoldable pub set_value : (t : Scalar) → Content t → Value → Value
set_value double x v = record v { double_value = x }
set_value int x v = record v { int_value = x }
set_value string x v = record v { string_value = x }

-- internal::set_as<T>(t, v, val) and the instances of set_as<T>(v, val): the type, then the field.
unfoldable pub set_value_as : (t : Scalar) → Content t → Value → Value
unfolding set_value
set_value_as t x v = set_value t x (record v { type = value_type t })

-- The instances of wrap<T>.
unfoldable pub wrap_value : (t : Scalar) → Content t → Value
unfolding set_value_as
wrap_value t x = set_value_as t x empty_value

-- wrap<T> of any other type prints it; `lexical_cast` is the one of boost.
unfoldable pub wrap_other {ℓ} : {T : Type ℓ} → (T → Str) → T → Value
unfolding wrap_value
wrap_other lexical_cast x = wrap_value string (lexical_cast x)

-- proto::ib::MarketData
pub record MarketData : Type 0 where
  pub timestamp : ℕ
  pub symbol : Str
  pub event : Str
  pub value : Value
  pub contract_id : ℕ

-- proto::ib::MarketDepth
pub data Side : Type 0 where
  ask : Side
  bid : Side

pub data DepthOperation : Type 0 where
  insert : DepthOperation
  update : DepthOperation
  delete : DepthOperation

pub record MarketDepth : Type 0 where
  pub timestamp : ℕ
  pub symbol : Str
  pub side : Side
  pub price : ℕ
  pub size : ℕ
  pub operation : DepthOperation
  pub level : ℕ
  pub mm : Str
  pub contract_id : ℕ

pub record SessionLog : Type 0 where
  pub symbol : Str
  pub start_timestamp : ℕ
  pub stop_timestamp : ℕ
  pub source : Str

pub record IndexedValue : Type 0 where
  pub timestamp : ℕ
  pub value : Value

-- proto::historian::Type
pub data Kind : Type 0 where
  indexed_value : Kind
  session_log : Kind
  ib_market_data : Kind
  ib_market_depth : Kind

abbrev pub kind_test : Kind → Kind → Bool
kind_test indexed_value indexed_value = true
kind_test session_log session_log = true
kind_test ib_market_data ib_market_data = true
kind_test ib_market_depth ib_market_depth = true
kind_test _ _ = false

-- The optional fields of a Record are read as their default when they are not set.
pub record Record : Type 0 where
  pub type : Kind
  pub key : Str
  pub value : IndexedValue
  pub session : SessionLog
  pub market_data : MarketData
  pub market_depth : MarketDepth

abbrev pub Payload : Kind → Type 0
Payload indexed_value = IndexedValue
Payload session_log = SessionLog
Payload ib_market_data = MarketData
Payload ib_market_depth = MarketDepth

abbrev pub empty_record : Record
empty_record = record {
  type = indexed_value;
  key = [];
  value = record { timestamp = 0; value = empty_value };
  session = record { symbol = []; start_timestamp = 0; stop_timestamp = 0; source = [] };
  market_data = record {
    timestamp = 0;
    symbol = [];
    event = [];
    value = empty_value;
    contract_id = 0;
  };
  market_depth = record {
    timestamp = 0;
    symbol = [];
    side = ask;
    price = 0;
    size = 0;
    operation = insert;
    level = 0;
    mm = [];
    contract_id = 0;
  };
}

-- internal::get<T>
unfoldable pub get : (t : Kind) → Record → Option (Payload t)
get indexed_value r = some r.value
get session_log r = some r.session
get ib_market_data r = some r.market_data
get ib_market_depth r = some r.market_depth

-- internal::as<T>(type, record) and the instances of as<T>(record)
unfoldable pub as_payload : (t : Kind) → Record → Option (Payload t)
unfolding get
as_payload t r = if kind_test r.type t then get t r else none

-- internal::set_as(v, record)
unfoldable pub set_payload : (t : Kind) → Payload t → Record → Record
set_payload indexed_value x r = record r { value = x }
set_payload session_log x r = record r { session = x }
set_payload ib_market_data x r = record r { market_data = x }
set_payload ib_market_depth x r = record r { market_depth = x }

-- internal::set_as<T>(t, v, record) and the instances of set_as<T>(v, record)
unfoldable pub set_as : (t : Kind) → Payload t → Record → Record
unfolding set_payload
set_as t x r = set_payload t x (record r { type = t })

unfoldable pub wrap : (t : Kind) → Payload t → Record
unfolding set_as
wrap t x = set_as t x empty_record
