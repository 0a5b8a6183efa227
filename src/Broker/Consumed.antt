-- ===== src/Broker/Consumed.antt =====
-- The connector's loop ends on every stream of frames, and its counters stay in balance.
use atp.Common.{
  ℕ, zero, suc, ◌+◌, ◌<◌, ◌≤◌, ◌≡◌, refl, sym, ap, ◌∙◌, Bool, true, false, Option, none, some, [],
  ◌∷◌, length, length-append, subst, arith, inl, inr, Bool-cases, Option-cases,
}
use atp.Common.Text.{Str}
use atp.Broker.OrderMarshall.{Order}
use atp.Broker.Requests.{Request, is_initialized, call_api}
use atp.Broker.Calls.{call_api-Once}
use atp.Broker.Connector.{
  Frames, receive, drain, Kind, create_message, Connector, receive_proto, after_message, process,
  processed, handle_supported, handle_keyed, handle_message, handle_inbound,
}
use atp.Tickers.Registry.{Contract}

-- Every request that was received succeeded or failed, and those that succeeded are the calls of the
-- broker's API.
abbrev pub IsBalanced : Connector → Type 0
IsBalanced c =
    (c.requests ≡ c.requests_ok + c.requests_errors) × (length c.gateway.calls ≡ c.requests_ok)

-- No exception is counted, and a balance is kept.
abbrev pub Keeps : Connector → Connector → Type 0
Keeps c c' = (c'.exceptions ≡ c.exceptions) × (IsBalanced c → IsBalanced c')

Keeps-trans : (a b c : Connector) → Keeps a b → Keeps b c → Keeps a c
Keeps-trans a b c (e, f) (e', f') = (e' ∙ e, λ v. f' (f v))

receive-shorter :
    (frames : Frames) {frame : Str} {more : Bool} {rest : Frames}
    → receive frames ≡ some (frame, more, rest)
    → length rest < length frames
unfolding receive
receive-shorter [] h = cc
receive-shorter (([], more) ∷ frames) h = omega (arith, receive-shorter frames h)
receive-shorter ((b ∷ s, more) ∷ frames) h = ground arith

drain-shorter :
    (more : Bool) (frames : Frames) {rest : Frames}
    → drain more frames ≡ some rest
    → length rest ≤ length frames
unfolding drain
drain-shorter false frames h = ground arith
drain-shorter true [] h = cc
drain-shorter true (([], more) ∷ frames) h = omega (arith, drain-shorter true frames h)
drain-shorter true ((b ∷ s, more) ∷ frames) h = omega (arith, drain-shorter more frames h)

after_message-Keeps :
    (replies : Bool) (code : ℕ) (c : Connector) → Keeps c (after_message replies code c)
after_message-Keeps true code c = (refl, λ v. v)
after_message-Keeps false code c = (refl, λ v. v)

module _ (print_double : ℕ → Str) (new_contract : Contract) (new_order : Order) where
  process-Keeps :
      (request : Request) (c : Connector)
      → Keeps c (process print_double new_contract new_order request c).1
  unfolding process
  process-Keeps request c =
      let r = call_api print_double new_contract new_order request.body c.gateway in
      let (once, never) =
        call_api-Once print_double new_contract new_order request.body c.gateway in
      elim (Bool-cases (is_initialized request)) [
        | inl p ↦ elim (Bool-cases r.0) [
          | inl q ↦
              let (call, e) = once q in
              let l : length r.1.calls ≡ length c.gateway.calls + 1 =
                ap length e ∙ length-append c.gateway.calls (call ∷ []) in
              rw (p, q) (refl, λ v. (omega arith, omega arith))
          | inr q ↦
              let l : length r.1.calls ≡ length c.gateway.calls = ap length (never q) in
              rw (p, q) (refl, λ v. (omega arith, omega arith))
        ]
        | inr p ↦ rw p (refl, λ v. (omega arith, omega arith))
      ]

  processed-Keeps :
      (replies : Bool) (r : Option Request) (c : Connector)
      → Keeps c (processed print_double new_contract new_order replies r c)
  unfolding processed
  processed-Keeps replies none c = after_message-Keeps replies 400 c
  processed-Keeps replies (some request) c =
      let (code, c') = process print_double new_contract new_order request c in
      Keeps-trans c c' (after_message replies code c') (process-Keeps request c)
        (after_message-Keeps replies code c')

  module _ (is_supported : Str → Bool) (replies : Bool) (parse : Kind → Str → Request) where
    -- At most `n` frames are left.
    abbrev Progress : ℕ → Connector → Option (Frames × Connector) → Type 0
    Progress n c none = Unit {0}
    Progress n c (some (rest, c')) = (length rest ≤ n) × Keeps c c'

    handle_supported-Progress :
        (kind : Option Kind) (frames : Frames) (c : Connector)
        → Progress (length frames) c (
            handle_supported print_double new_contract new_order is_supported replies parse kind
              frames c)
    unfolding handle_supported receive_proto
    handle_supported-Progress none frames c = (omega arith, after_message-Keeps replies 503 c)
    handle_supported-Progress (some kind) frames c = elim (Option-cases (receive frames)) [
      | inl p ↦ rw (receive_proto, p) tt
      | inr ((frame, more, rest), p) ↦
          rw (receive_proto, p)
            (omega (arith, receive-shorter frames p), processed-Keeps replies _ c)
    ]

    handle_keyed-Progress :
        (key : Str) (more : Bool) (frames : Frames) (c : Connector)
        → Progress (length frames) c (
            handle_keyed print_double new_contract new_order is_supported replies parse key more
              frames c)
    unfolding handle_keyed
    handle_keyed-Progress key more frames c = elim (Bool-cases (is_supported key)) [
      | inl p ↦ elim (Bool-cases more) [
        | inl q ↦ rw (p, q) (handle_supported-Progress (create_message key) frames c)
        | inr q ↦ rw (p, q) (omega arith, after_message-Keeps replies 500 c)
      ]
      | inr p ↦ elim (Option-cases (drain more frames)) [
        | inl q ↦ rw (p, q) tt
        | inr (rest, q) ↦ rw (p, q) (drain-shorter more frames q, after_message-Keeps replies 404 c)
      ]
    ]

    -- A round that does not throw takes a frame at least.
    handle_message-Keeps :
        (frames : Frames) (c : Connector) {rest : Frames} {c' : Connector}
        → handle_message print_double new_contract new_order is_supported replies parse frames c
          ≡ some (rest, c')
        → (length rest < length frames) × Keeps c c'
    unfolding handle_message
    handle_message-Keeps frames c {rest} {c'} h = elim (Option-cases (receive frames)) [
      | inl p ↦ cc
      | inr ((key, more, left), p) ↦
          let e : handle_keyed print_double new_contract new_order is_supported replies parse key
                more left c
              ≡ some (rest, c') =
            sym (rw (handle_message, p) refl) ∙ h in
          let (l, k) =
            subst (λ r. Progress (length left) c r) e (handle_keyed-Progress key more left c) in
          (omega (arith, receive-shorter frames p), k)
    ]

    handle_inbound-Keeps :
        (fuel : ℕ) (frames : Frames) (c : Connector)
        → length frames < fuel
        → (c' : Connector) × (handle_inbound print_double new_contract new_order is_supported
              replies parse fuel frames c
            ≡ some (false, c'))
          × (c'.exceptions ≡ c.exceptions + 1)
          × (IsBalanced c → IsBalanced c')
    unfolding handle_inbound
    handle_inbound-Keeps zero frames c h = absurd (omega arith)
    handle_inbound-Keeps (suc fuel) frames c h =
        elim (Option-cases (
          handle_message print_double new_contract new_order is_supported replies parse frames c)) [
            | inl p ↦ (
              record c { exceptions = c.exceptions + 1 },
              rw (handle_inbound, p) refl,
              refl,
              λ v. v,
            )
            | inr ((rest, next), p) ↦
                let (l, (e, k)) = handle_message-Keeps frames c p in
                let (c', ends, x, v) = handle_inbound-Keeps fuel rest next (omega arith) in
                (c', rw (handle_inbound, p) ends, x ∙ ap (λ n. n + 1) e, λ b. v (k b))
          ]

    -- Whatever frames arrive, the loop of a connector whose counters are in balance ends, on fuel for one
    -- round more than there are frames: with false, one exception more counted, and the counters in balance,
    -- so that every request that was received was counted as a success or as an error, and the successes are
    -- as many as the calls of the broker's API.
    pub handle_inbound-IsBalanced :
        (fuel : ℕ) (frames : Frames) (c : Connector)
        → length frames < fuel
        → IsBalanced c
        → (c' : Connector) × (handle_inbound print_double new_contract new_order is_supported
              replies parse fuel frames c
            ≡ some (false, c'))
          × (c'.exceptions ≡ c.exceptions + 1)
          × IsBalanced c'
    handle_inbound-IsBalanced fuel frames c h balanced =
        let (c', e, x, v) = handle_inbound-Keeps fuel frames c h in (c', e, x, v balanced)
