-- ===== src/Historian/Reactor/Streamed.antt =====
-- What a client receives of a query on the server.
use mathlib.Core.Path.{fun_ext}
use atp.Common.{
  ℕ, ◌+◌, ◌%◌, ◌≡◌, refl, ap, sym, ◌∙◌, Bool, true, Option, none, some, List, [], ◌∷◌, ◌++◌, map,
  append_assoc, append-nil, if◌then◌else◌, ltb, ◌==◌, ◌^◌, ◌<◌, arith,
}
use atp.Common.Int.{ℤ, pos}
use atp.Common.Text.{Str, codes, decimal}
use atp.Historian.Messages.{Record}
use atp.Historian.LevelDb.{LevelDb, Codec}
use atp.Historian.Db.{Db, query}
use atp.Historian.Db.Visited.{below, records, always, visit_all, query-always}
use atp.Historian.Reactor.{
  Message, QueryByRange, Query, set_range, db_visitor, handle_query, stream, Served, respond,
  response_id_at, Received, message, finished, process_query_response, process_callback,
  client_query,
}

-- What a visitor makes of records, with the number of those that it accepts, in the 32 bits of an int.
abbrev pub visit_each {ℓ} : {S : Type ℓ} → (Record → S → Bool × S) → List Record → ℕ → S → ℕ × S
visit_each visit [] count s = (count, s)
visit_each visit (r ∷ rs) count s =
    visit_each visit rs (if (visit r s).0 then (count + 1) % 2 ^ 32 else count) (visit r s).1

-- A record as it is sent.
abbrev sent_as : Codec → ℕ → Record → Message
sent_as codec id r = (decimal id, (codec.serialize r).1)

abbrev pub received : List Message → List Received
received = map (λ m. message m.0 m.1)

visit_all-sent :
    (codec : Codec) (id : ℕ) (rs : List Record) (sent : List Message)
    → visit_all (λ r s. s ++ (sent_as codec id r ∷ [])) rs sent ≡ sent ++ map (sent_as codec id) rs
visit_all-sent codec id [] sent = sym (append-nil sent)
visit_all-sent codec id (r ∷ rs) sent =
    visit_all-sent codec id rs (sent ++ (sent_as codec id r ∷ []))
    ∙ append_assoc sent (sent_as codec id r ∷ []) (map (sent_as codec id) rs)

-- The records that a query by range visits.
abbrev pub selected : {D : Type 0} → LevelDb D → Codec → D → QueryByRange → List Record
selected db codec x q = records codec (below q.last (db.entries q.first x))

-- The casts read the numbers that are sent.
pub record IsReading (cast_int : Str → Option ℤ) (cast_uint64 : Str → Option ℕ) : Type 0 where
  pub reads : (n : ℕ) → n < 2 ^ 64 → cast_uint64 (decimal n) ≡ some n
  pub status : cast_int (codes "200") ≡ some (pos 200)

module _ (codec : Codec) (serializes : (r : Record) → (codec.serialize r).0 ≡ true) where
  db_visitor-taken :
      (id : ℕ) (r : Record) (s : List Message)
      → db_visitor codec (λ sent. true) id r s ≡ (true, s ++ (sent_as codec id r ∷ []))
  unfolding db_visitor
  db_visitor-taken id r s = rw (db_visitor, serializes r) refl

  -- A visitor whose messages are taken never stops.
  db_visitor-always :
      (id : ℕ) → db_visitor codec (λ sent. true) id ≡ always (λ r s. s ++ (sent_as codec id r ∷ []))
  db_visitor-always id = fun_ext (λ r. fun_ext (λ s. db_visitor-taken id r s))

  module _ {D : Type 0} (db : LevelDb D) (d : Db D) (x : D) (opened : d.level_db ≡ some x) where
    stream-range :
        (id : ℕ) (callback : Str) (q : QueryByRange)
        → stream db codec (λ sent. true) true id (set_range callback q) d
          ≡ map (sent_as codec id) (selected db codec x q) ++ ((decimal id, codes "200") ∷ [])
    unfolding stream handle_query
    stream-range id callback q =
        ap (λ v. (query db codec v q.first q.last d []).1 ++ ((decimal id, codes "200") ∷ []))
          (db_visitor-always id)
        ∙ ap (λ r. r.1 ++ ((decimal id, codes "200") ∷ []))
            (query-always db codec (λ r s. s ++ (sent_as codec id r ∷ [])) q.first q.last d x []
              opened)
        ∙ ap (λ l. l ++ ((decimal id, codes "200") ∷ []))
            (visit_all-sent codec id (selected db codec x q) [])

  module _ (cast_int : Str → Option ℤ) (cast_uint64 : Str → Option ℕ)
      (reading : IsReading cast_int cast_uint64)
      (no_record : codec.parse (codes "200") ≡ none) where
    process_callback-sent {ℓ} :
        {S : Type ℓ} (visit : Record → S → Bool × S) (id : ℕ)
        → id < 2 ^ 64
        → (rs : List Record) (count : ℕ) (s : S)
        → process_callback cast_int cast_uint64 codec visit id
            (received (map (sent_as codec id) rs ++ ((decimal id, codes "200") ∷ [])))
            count
            s
          ≡ finished (visit_each visit rs count s).0 (visit_each visit rs count s).1
    unfolding process_callback
    process_callback-sent visit id h [] count s =
        let same : (id == id) ≡ true = ground arith in
        rw (process_callback, reading.reads id h, same, no_record, reading.status) refl
    process_callback-sent visit id h (r ∷ rs) count s =
        let same : (id == id) ≡ true = ground arith in
        let parsed = codec.parse-serialize r (serializes r) in
        rw (process_callback, reading.reads id h, same, parsed)
          (process_callback-sent visit id h rs _ (visit r s).1)

    module _ {ℓ} {D : Type 0} {S : Type ℓ} (db : LevelDb D) (d : Db D) (x : D)
        (opened : d.level_db ≡ some x) (visit : Record → S → Bool × S)
        (parse_query : Str → Option Query) (frame callback : Str) (q : QueryByRange) (now : ℕ)
        (parsed : parse_query frame ≡ some (set_range callback q)) where
      -- The server's answer to the frame, when no socket fails.
      abbrev pub served : Served
      served = respond db codec (λ sent. true) parse_query true true now d frame

      replied : process_query_response cast_int cast_uint64 served.reply ≡ some (response_id_at now)
      unfolding respond process_query_response
      replied =
          let small : response_id_at now < 2 ^ 64 = omega arith in
          rw
            (
              respond,
              parsed,
              process_query_response,
              reading.status,
              reading.reads (response_id_at now) small,
            )
            refl

      -- A client whose query by range the server of an open database answers, at a time whose last six
      -- digits are not all 0, gives its visitor every record that the same query visits on the server,
      -- in their order, also after the visitor refuses one, and returns the low 32 bits of the number
      -- of those that the visitor accepted.
      pub client_query-respond :
          0 < response_id_at now
          → (s : S)
          → client_query cast_int cast_uint64 codec visit served.reply (received served.streamed) s
            ≡ finished
                (visit_each visit (selected db codec x q) 0 s).0
                (visit_each visit (selected db codec x q) 0 s).1
      unfolding client_query respond
      client_query-respond h s =
          let streamed : served.streamed
              ≡ map (sent_as codec (response_id_at now)) (selected db codec x q)
                ++ ((decimal (response_id_at now), codes "200") ∷ []) =
            rw (respond, parsed) (stream-range db d x opened (response_id_at now) callback q) in
          let positive : ltb 0 (response_id_at now) ≡ true = ground arith in
          rw (client_query, replied, positive, streamed)
            (process_callback-sent visit (response_id_at now) (omega arith) (selected db codec x q)
              0 s)

      -- At a time whose last six digits are all 0 the client returns 0 and visits nothing.
      pub client_query-respond_zero :
          response_id_at now ≡ 0
          → (s : S)
          → client_query cast_int cast_uint64 codec visit served.reply (received served.streamed) s
            ≡ finished 0 s
      unfolding client_query
      client_query-respond_zero h s = rw (client_query, replied, h) refl
