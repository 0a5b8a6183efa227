-- ===== src/Messaging/Listening.antt =====
-- Which handler a message reaches, and how the listener goes on and stops.
use atp.Common.{
  ◌≡◌, refl, ap, ◌∙◌, true, false, not, ◌&&◌, List, [], ◌∷◌, ◌++◌, if◌then◌else◌, arith, inl, inr,
  Bool-cases, Option-cases,
}
use atp.Common.Map.{find, insert, has, find-insert}
use atp.Common.Text.{Str, str_eq, same}
use atp.Messaging.{
  returned, thrown, undefined, Handler, Handlers, Received, message, incomplete, interrupted,
  broken, Listener, waiting, stopped, crashed, register_handler, is_supported, caught,
  continue_with, dispatch, process_raw_message, run,
}

module _ {ℓ} {S : Type ℓ} where
  -- The listener goes on with more that is received where it was, unless it has ended.
  abbrev pub resume : Handlers S → List Received → Listener S → Listener S
  resume handlers received (waiting s) = run handlers received s
  resume handlers received (stopped s) = stopped s
  resume handlers received crashed = crashed

  run-append :
      (handlers : Handlers S) (xs ys : List Received) (s : S)
      → run handlers (xs ++ ys) s ≡ resume handlers ys (run handlers xs s)
  unfolding run
  run-append handlers [] ys s = refl
  run-append handlers (incomplete ∷ xs) ys s = run-append handlers xs ys s
  run-append handlers (interrupted ∷ xs) ys s = run-append handlers xs ys s
  run-append handlers (broken ∷ xs) ys s = refl
  run-append handlers (message topic text ∷ xs) ys s =
      elim (process_raw_message handlers topic text s)
        as (λ o.
          continue_with (run handlers (xs ++ ys)) o
          ≡ resume handlers ys (continue_with (run handlers xs) o)) [
            | returned again s' ↦
                elim again
                  as (λ b.
                    continue_with (run handlers (xs ++ ys)) (returned b s')
                    ≡ resume handlers ys (continue_with (run handlers xs) (returned b s'))) [
                      | true ↦ run-append handlers xs ys s'
                      | false ↦ refl
                    ]
            | thrown s' ↦ refl
            | undefined ↦ refl
          ]

  -- A message whose topic has no handler stops a listener that was still waiting: what is received
  -- after it is never handled.
  run-unknown :
      (handlers : Handlers S) (before after : List Received) (topic text : Str) (s s' : S)
      → run handlers before s ≡ waiting s'
      → is_supported topic handlers ≡ false
      → run handlers (before ++ (message topic text ∷ after)) s ≡ stopped s'
  unfolding run is_supported has process_raw_message
  run-unknown handlers before after topic text s s' w h =
      run-append handlers before (message topic text ∷ after) s
      ∙ ap (resume handlers (message topic text ∷ after)) w
      ∙ elim (Option-cases (find topic handlers)) [
        | inl none_there ↦
            ap (λ f. continue_with (run handlers after) (dispatch f topic text s')) none_there
        | inr (handler, there) ↦ ground (arith, there, h)
      ]

  -- A handler is registered when its topic has none; it then gets the messages of the topic, and one
  -- that was there keeps them. Other topics are as before.
  process-register_handler :
      (id topic : Str) (handler : Handler S) (handlers : Handlers S) (text : Str) (s : S)
      → ((register_handler id handler handlers).0 ≡ not (is_supported id handlers))
        × (process_raw_message (register_handler id handler handlers).1 topic text s ≡ (
            if not (is_supported id handlers) && same id topic
            then caught (handler topic text s)
            else process_raw_message handlers topic text s))
  unfolding register_handler is_supported process_raw_message
  process-register_handler id topic handler handlers text s =
      elim (Option-cases (find id handlers)) [
        | inl p ↦ (
          rw (insert, has, p) refl,
          ap (λ f. dispatch f topic text s) (find-insert id topic handler handlers)
              ∙ elim (Bool-cases (same id topic)) [
                | inl q ↦ rw (has, p, q) refl
                | inr q ↦ rw (has, p, q) refl
              ],
        )
        | inr (old, p) ↦ (
          rw (insert, has, p) refl,
          ap (λ f. dispatch f topic text s) (find-insert id topic handler handlers)
              ∙ rw (has, p) refl,
        )
      ]
