-- ===== src/Tests/Coding.antt =====
-- An encoding of messages as lists of numbers, which meets the interface of the message classes.
use atp.Common.{
  ℕ, zero, suc, ◌≡◌, refl, ap, true, Option, none, some, [], ◌∷◌, ◌++◌, length, take, drop,
  drop-append,
}
use atp.Common.Int.{ℤ, pos, negsuc}
use atp.Common.Text.{Str}
use atp.Historian.Messages.{
  Value, ValueType, type_double, type_int, type_string, type_timestamp, MarketData, MarketDepth,
  Side, ask, bid, DepthOperation, insert, update, delete, SessionLog, IndexedValue, Kind,
  indexed_value, session_log, ib_market_data, ib_market_depth, Record,
}
use atp.Historian.LevelDb.{Codec}

record Coding {ℓ} (A : Type ℓ) : Type ℓ where
  encode : A → Str → Str
  decode : Str → Option (A × Str)
  decode-encode : (a : A) (rest : Str) → decode (encode a rest) ≡ some (a, rest)

abbrev number : Coding ℕ
number = record {
  encode = λ n rest. n ∷ rest;
  decode = λ s. elim s [ [] ↦ none | n ∷ rest ↦ some (n, rest) ];
  decode-encode = λ n rest. refl;
}

pub take-append : (xs ys : Str) → take (length xs) (xs ++ ys) ≡ xs
take-append [] ys = refl
take-append (x ∷ xs) ys = ap (◌∷◌ x) (take-append xs ys)

abbrev text : Coding Str
text = record {
  encode = λ s rest. length s ∷ (s ++ rest);
  decode = λ s. elim s [ [] ↦ none | n ∷ rest ↦ some (take n rest, drop n rest) ];
  decode-encode = λ s rest. rw (take-append s rest, drop-append (length s) s rest refl) refl;
}

abbrev both {ℓ κ} : {A : Type ℓ} {B : Type κ} → Coding A → Coding B → Coding (A × B)
both c e = record {
  encode = λ p rest. c.encode p.0 (e.encode p.1 rest);
  decode = λ s. elim (c.decode s) [
    | none ↦ none
    | some (a, s') ↦ elim (e.decode s') [ none ↦ none | some (b, s'') ↦ some ((a, b), s'') ]
  ];
  decode-encode =
      λ p rest. rw (c.decode-encode p.0 (e.encode p.1 rest), e.decode-encode p.1 rest) refl;
}

abbrev via {ℓ κ} :
    {A : Type ℓ} {B : Type κ}
    → Coding B
    → (f : A → B) (g : B → A) → ((a : A) → g (f a) ≡ a)
    → Coding A
via c f g h = record {
  encode = λ a rest. c.encode (f a) rest;
  decode = λ s. elim (c.decode s) [ none ↦ none | some (b, s') ↦ some (g b, s') ];
  decode-encode = λ a rest. rw (c.decode-encode (f a) rest, h a) refl;
}

abbrev integer_number : ℤ → ℕ × ℕ
integer_number (pos n) = (0, n)
integer_number (negsuc n) = (1, n)

abbrev integer_of : ℕ × ℕ → ℤ
integer_of (zero, n) = pos n
integer_of (suc k, n) = negsuc n

pub integer_of-number : (z : ℤ) → integer_of (integer_number z) ≡ z
integer_of-number (pos n) = refl
integer_of-number (negsuc n) = refl

abbrev integer : Coding ℤ
integer = via (both number number) integer_number integer_of integer_of-number

abbrev value_kind_number : ValueType → ℕ
value_kind_number type_double = 0
value_kind_number type_int = 1
value_kind_number type_string = 2
value_kind_number type_timestamp = 3

abbrev value_kind_of : ℕ → ValueType
value_kind_of zero = type_double
value_kind_of (suc zero) = type_int
value_kind_of (suc (suc zero)) = type_string
value_kind_of _ = type_timestamp

pub value_kind_of-number : (a : ValueType) → value_kind_of (value_kind_number a) ≡ a
value_kind_of-number type_double = refl
value_kind_of-number type_int = refl
value_kind_of-number type_string = refl
value_kind_of-number type_timestamp = refl

abbrev value_kind : Coding ValueType
value_kind = via number value_kind_number value_kind_of value_kind_of-number

abbrev side_number : Side → ℕ
side_number ask = 0
side_number bid = 1

abbrev side_of : ℕ → Side
side_of zero = ask
side_of _ = bid

pub side_of-number : (a : Side) → side_of (side_number a) ≡ a
side_of-number ask = refl
side_of-number bid = refl

abbrev side : Coding Side
side = via number side_number side_of side_of-number

abbrev depth_operation_number : DepthOperation → ℕ
depth_operation_number insert = 0
depth_operation_number update = 1
depth_operation_number delete = 2

abbrev depth_operation_of : ℕ → DepthOperation
depth_operation_of zero = insert
depth_operation_of (suc zero) = update
depth_operation_of _ = delete

pub depth_operation_of-number :
    (a : DepthOperation) → depth_operation_of (depth_operation_number a) ≡ a
depth_operation_of-number insert = refl
depth_operation_of-number update = refl
depth_operation_of-number delete = refl

abbrev depth_operation : Coding DepthOperation
depth_operation = via number depth_operation_number depth_operation_of depth_operation_of-number

abbrev kind_number : Kind → ℕ
kind_number indexed_value = 0
kind_number session_log = 1
kind_number ib_market_data = 2
kind_number ib_market_depth = 3

abbrev kind_of : ℕ → Kind
kind_of zero = indexed_value
kind_of (suc zero) = session_log
kind_of (suc (suc zero)) = ib_market_data
kind_of _ = ib_market_depth

pub kind_of-number : (a : Kind) → kind_of (kind_number a) ≡ a
kind_of-number indexed_value = refl
kind_of-number session_log = refl
kind_of-number ib_market_data = refl
kind_of-number ib_market_depth = refl

abbrev kind : Coding Kind
kind = via number kind_number kind_of kind_of-number

abbrev value : Coding Value
value =
    via (both value_kind (both text (both number (both integer (integer)))))
      (λ a. (a.type, (a.string_value, (a.double_value, (a.int_value, a.timestamp_value)))))
      (λ p. record {
        type = p.0;
        string_value = p.1.0;
        double_value = p.1.1.0;
        int_value = p.1.1.1.0;
        timestamp_value = p.1.1.1.1;
      })
      (λ a. refl)

abbrev market_data : Coding MarketData
market_data =
    via (both number (both text (both text (both value (number)))))
      (λ a. (a.timestamp, (a.symbol, (a.event, (a.value, a.contract_id)))))
      (λ p. record {
        timestamp = p.0;
        symbol = p.1.0;
        event = p.1.1.0;
        value = p.1.1.1.0;
        contract_id = p.1.1.1.1;
      })
      (λ a. refl)

abbrev market_depth : Coding MarketDepth
market_depth =
    via
      (both number (
        both text (
          both side
            (both number (both number (both depth_operation (both number (both text (number)))))))))
      (λ a. (
        a.timestamp,
        (a.symbol, (a.side, (a.price, (a.size, (a.operation, (a.level, (a.mm, a.contract_id))))))),
      ))
      (λ p. record {
        timestamp = p.0;
        symbol = p.1.0;
        side = p.1.1.0;
        price = p.1.1.1.0;
        size = p.1.1.1.1.0;
        operation = p.1.1.1.1.1.0;
        level = p.1.1.1.1.1.1.0;
        mm = p.1.1.1.1.1.1.1.0;
        contract_id = p.1.1.1.1.1.1.1.1;
      })
      (λ a. refl)

abbrev session : Coding SessionLog
session =
    via (both text (both number (both number (text))))
      (λ a. (a.symbol, (a.start_timestamp, (a.stop_timestamp, a.source))))
      (λ p. record {
        symbol = p.0;
        start_timestamp = p.1.0;
        stop_timestamp = p.1.1.0;
        source = p.1.1.1;
      })
      (λ a. refl)

abbrev indexed : Coding IndexedValue
indexed =
    via (both number (value)) (λ a. (a.timestamp, a.value))
      (λ p. record { timestamp = p.0; value = p.1 }) (λ a. refl)

abbrev message : Coding Record
message =
    via (both kind (both text (both indexed (both session (both market_data (market_depth))))))
      (λ a. (a.type, (a.key, (a.value, (a.session, (a.market_data, a.market_depth))))))
      (λ p. record {
        type = p.0;
        key = p.1.0;
        value = p.1.1.0;
        session = p.1.1.1.0;
        market_data = p.1.1.1.1.0;
        market_depth = p.1.1.1.1.1;
      })
      (λ a. refl)

abbrev pub codec : Codec
codec = record {
  serialize = λ r. (true, message.encode r []);
  parse = λ s. elim (message.decode s) [ none ↦ none | some (r, rest) ↦ some r ];
  parse-serialize = λ r h. rw (message.decode-encode r []) refl;
}
