-- ===== src/Historian/Reactor.antt =====
-- Queries from another process: the server of historian/DbReactorStrategy.cpp, which streams records
-- to a callback socket, and the client of historian/DbReactorClient.cpp. A message of two frames is
-- delivered whole or, when sending it throws, not at all. boost::lexical_cast prints numbers as
-- `decimal`; reading them is `cast_int` and `cast_uint64`, where none is an exception.
pub mod Streamed
use atp.Common.{
  ℕ, ◌+◌, ◌%◌, ◌^◌, Bool, true, false, Option, none, some, List, [], ◌∷◌, ◌++◌, if◌then◌else◌, ltb,
  ◌==◌,
}
use atp.Common.Int.{ℤ, pos}
use atp.Common.Eq.{int_test}
use atp.Common.Text.{Str, codes, decimal}
use atp.Historian.Messages.{Kind, Record}
use atp.Historian.LevelDb.{LevelDb, Codec}
use atp.Historian.Db.{Db, query, query_by_symbol}

-- QueryByRange, QueryBySymbol and Query of proto/historian.proto, as far as the code reads them.
pub record QueryByRange : Type 0 where
  pub first : Str
  pub last : Str

pub record QueryBySymbol : Type 0 where
  pub type : Kind
  pub symbol : Str
  pub utc_first_micros : ℕ
  pub utc_last_micros : ℕ
  pub index : Option Str

pub data QueryType : Type 0 where
  by_range by_symbol : QueryType

pub record Query : Type 0 where
  pub type : QueryType
  pub callback : Str
  pub query_by_range : QueryByRange
  pub query_by_symbol : QueryBySymbol

-- The two frames of a message.
abbrev pub Message : Type 0
Message = Str × Str

-- A socket that sends: whether it takes one more message after those that were sent.
abbrev pub Accepts : Type 0
Accepts = List Message → Bool

-- DbVisitor: the result is false when the record does not serialize or sending throws.
unfoldable pub db_visitor :
    Codec → Accepts → (response_id : ℕ) → Record → List Message → Bool × List Message
db_visitor codec accepts response_id r sent =
    let (serialized, proto) = codec.serialize r in
    if serialized
    then (if accepts sent
        then (true, sent ++ ((decimal response_id, proto) ∷ []))
        else (false, sent))
    else (false, sent)

module _ {D : Type 0} (db : LevelDb D) (codec : Codec) (accepts : Accepts) where
  -- handleQuery, at either type of query.
  unfoldable pub handle_query : (response_id : ℕ) → Query → Db D → ℕ × List Message
  unfolding query query_by_symbol db_visitor
  handle_query response_id q d =
      let visitor = db_visitor codec accepts response_id in
      elim q.type [
        | by_range ↦ query db codec visitor q.query_by_range.first q.query_by_range.last d []
        | by_symbol ↦
            let s = q.query_by_symbol in
            query_by_symbol db codec visitor s.type s.symbol s.utc_first_micros s.utc_last_micros
              s.index d []
      ]

  -- CallbackStreamer: the messages that it sends on the callback socket, to which it may not connect,
  -- and the end of the stream.
  unfoldable pub stream : (connects : Bool) → (response_id : ℕ) → Query → Db D → List Message
  unfolding handle_query
  stream connects response_id q d =
      let (count, sent) = handle_query response_id q d in
      if connects
      then (if accepts sent then sent ++ ((decimal response_id, codes "200") ∷ []) else sent)
      else []

-- What respond does: its result, the reply, if there is one, and the messages on the callback socket.
pub record Served : Type 0 where
  pub result : Bool
  pub reply : Option Message
  pub streamed : List Message

-- The id of a response at a time.
abbrev pub response_id_at : ℕ → ℕ
response_id_at now = now % 1000000

-- respond, where `parse_query` is ParseFromString, `replies` that sending the reply does not throw, and
-- `now` is the clock.
unfoldable pub respond :
    {D : Type 0}
    → LevelDb D
    → Codec
    → Accepts
    → (parse_query : Str → Option Query) → (replies connects : Bool) → (now : ℕ) → Db D
    → Str
    → Served
unfolding stream
respond db codec accepts parse_query replies connects now d frame = elim (parse_query frame) [
  | none ↦ record { result = false; reply = none; streamed = [] }
  | some q ↦
      if replies
      then record {
        result = true;
        reply = some (codes "200", decimal (response_id_at now));
        streamed = stream db codec accepts connects (response_id_at now) q d;
      }
      else record { result = true; reply = none; streamed = [] }
]

-- What the client receives on the callback socket.
pub data Received : Type 0 where
  message : Str → Str → Received
  broken : Received

-- A query of the client returns its count, waits for more, or throws, with the state of the visitor.
pub data Queried {ℓ} (S : Type ℓ) : Type ℓ where
  finished waiting : ℕ → S → Queried S
  threw : S → Queried S

module _ (cast_int : Str → Option ℤ) (cast_uint64 : Str → Option ℕ) where
  -- processQueryResponse: the id of the response, or 0; none is an exception of a cast. No message is
  -- an error of the socket.
  unfoldable pub process_query_response : Option Message → Option ℕ
  process_query_response none = some 0
  process_query_response (some (frame1, frame2)) = elim (cast_int frame1) [
    | none ↦ none
    | some status ↦ elim (cast_uint64 frame2) [
      | none ↦ none
      | some response_id ↦ some (if int_test status (pos 200) then response_id else 0)
    ]
  ]

  module _ {ℓ} {S : Type ℓ} (codec : Codec) (visit : Record → S → Bool × S) where
    -- The loop of processCallback. What is not a record ends it, whether it is 200 or another number.
    unfoldable pub process_callback : ℕ → List Received → (count : ℕ) → S → Queried S
    process_callback response_id [] count s = waiting count s
    process_callback response_id (broken ∷ received) count s = finished count s
    process_callback response_id (message frame1 frame2 ∷ received) count s =
        elim (cast_uint64 frame1) [
          | none ↦ threw s
          | some received_id ↦ elim (response_id == received_id) [
            | false ↦ finished 0 s
            | true ↦ elim (codec.parse frame2) [
              | some r ↦
                  let (visited, t) = visit r s in
                  process_callback response_id received
                    (if visited then (count + 1) % 2 ^ 32 else count) t
              | none ↦ elim (cast_int frame2) [ none ↦ threw s | some status ↦ finished count s ]
            ]
          ]
        ]

    -- Query of the client after its request was sent.
    unfoldable pub client_query : Option Message → List Received → S → Queried S
    unfolding process_query_response process_callback
    client_query reply received s = elim (process_query_response reply) [
      | none ↦ threw s
      | some response_id ↦
          if ltb 0 response_id then process_callback response_id received 0 s else finished 0 s
    ]

-- internal::set
abbrev pub no_range : QueryByRange
no_range = record { first = []; last = [] }

abbrev pub no_symbol : QueryBySymbol
no_symbol = record {
  type = Kind.indexed_value;
  symbol = [];
  utc_first_micros = 0;
  utc_last_micros = 0;
  index = none;
}

abbrev pub set_range : Str → QueryByRange → Query
set_range callback q = record {
  type = by_range;
  callback = callback;
  query_by_range = q;
  query_by_symbol = no_symbol;
}

abbrev pub set_symbol : Str → QueryBySymbol → Query
set_symbol callback q = record {
  type = by_symbol;
  callback = callback;
  query_by_range = no_range;
  query_by_symbol = q;
}
