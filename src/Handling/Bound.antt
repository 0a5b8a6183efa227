-- ===== src/Handling/Bound.antt =====
-- Which of the callbacks that were bound is called.
use atp.Common.{
  ℕ, ◌≡◌, refl, ap, sym, ◌∙◌, true, false, Option, none, some, List, [], ◌∷◌, if◌then◌else◌, inl,
  inr, Bool-cases, Option-cases,
}
use atp.Common.Int.{ℤ, negsuc}
use atp.Common.Map.{Map, find, has, find-insert}
use atp.Common.Text.{Str, str_eq, same, same_iff}
use atp.Historian.Messages.{
  ValueType, type_double, type_int, type_string, type_timestamp, MarketData,
}
use atp.Handling.{
  Callback, Payload, payload, bind_typed, dispatch, Updaters, no_updaters, Updater, on_double,
  on_int, on_string, on_timestamp, bind, dispatcher, update, process_event, dispatched, exception,
  no_updater_continue,
}

abbrev pub or_else {ℓ} : {A : Type ℓ} → Option A → Option A → Option A
or_else none o = o
or_else (some a) o = some a

or_else_assoc {ℓ} :
    {A : Type ℓ} (a b c : Option A) → or_else (or_else a b) c ≡ or_else a (or_else b c)
or_else_assoc none b c = refl
or_else_assoc (some a) b c = refl

or_else-none {ℓ} : {A : Type ℓ} (a : Option A) → or_else a none ≡ a
or_else-none none = refl
or_else-none (some a) = refl

module _ {ℓ} {S : Type ℓ} where
  find-bind_typed :
      {V : Type 0} (code event : Str) (f : Callback V S) (m : Map Str (Callback V S))
      → find event (bind_typed code f m)
        ≡ or_else (find event m) (if same code event then some f else none)
  unfolding bind_typed
  find-bind_typed code event f m =
      find-insert code event f m ∙ elim (Bool-cases (same code event)) [
        | inl q ↦
            let e : has code m ≡ has event m = ap (λ k. has k m) ((same_iff code event).0 q) in
            elim (Option-cases (find event m)) [
              | inl p ↦ let h : has code m ≡ false = e ∙ rw (has, p) refl in rw (h, q, p) refl
              | inr (g, p) ↦ let h : has code m ≡ true = e ∙ rw (has, p) refl in rw (h, q, p) refl
            ]
        | inr q ↦ elim (Bool-cases (has code m)) [
          | inl h ↦ rw (h, q) (sym (or_else-none (find event m)))
          | inr h ↦ rw (h, q) (sym (or_else-none (find event m)))
        ]
      ]

  -- The callback that a binding offers for a value of a type.
  abbrev pub offered : (t : ValueType) → Str → Str × Updater S → Option (Callback (Payload t) S)
  offered type_double event (code, on_double f) = if same code event then some f else none
  offered type_int event (code, on_int f) = if same code event then some f else none
  offered type_string event (code, on_string f) = if same code event then some f else none
  offered type_timestamp event (code, on_timestamp f) = if same code event then some f else none
  offered _ event _ = none

  -- The first of the bindings that offers one.
  abbrev pub first_offered :
      (t : ValueType) → Str → List (Str × Updater S) → Option (Callback (Payload t) S)
  first_offered t event [] = none
  first_offered t event (b ∷ bs) = or_else (offered t event b) (first_offered t event bs)

  -- The bindings, in their order.
  abbrev pub bind_all : List (Str × Updater S) → Updaters S → Updaters S
  bind_all [] u = u
  bind_all ((code, f) ∷ bs) u = bind_all bs (bind code f u)

  find-bind :
      (t : ValueType) (event : Str) (b : Str × Updater S) (u : Updaters S)
      → find event (dispatcher t (bind b.0 b.1 u))
        ≡ or_else (find event (dispatcher t u)) (offered t event b)
  unfolding bind
  find-bind type_double event (code, on_double f) u =
      find-bind_typed code event f u.double_dispatcher
  find-bind type_double event (code, on_int f) u =
      sym (or_else-none (find event u.double_dispatcher))
  find-bind type_double event (code, on_string f) u =
      sym (or_else-none (find event u.double_dispatcher))
  find-bind type_double event (code, on_timestamp f) u =
      sym (or_else-none (find event u.double_dispatcher))
  find-bind type_int event (code, on_double f) u = sym (or_else-none (find event u.int_dispatcher))
  find-bind type_int event (code, on_int f) u = find-bind_typed code event f u.int_dispatcher
  find-bind type_int event (code, on_string f) u = sym (or_else-none (find event u.int_dispatcher))
  find-bind type_int event (code, on_timestamp f) u =
      sym (or_else-none (find event u.int_dispatcher))
  find-bind type_string event (code, on_double f) u =
      sym (or_else-none (find event u.string_dispatcher))
  find-bind type_string event (code, on_int f) u =
      sym (or_else-none (find event u.string_dispatcher))
  find-bind type_string event (code, on_string f) u =
      find-bind_typed code event f u.string_dispatcher
  find-bind type_string event (code, on_timestamp f) u =
      sym (or_else-none (find event u.string_dispatcher))
  find-bind type_timestamp event (code, on_double f) u =
      sym (or_else-none (find event u.timestamp_dispatcher))
  find-bind type_timestamp event (code, on_int f) u =
      sym (or_else-none (find event u.timestamp_dispatcher))
  find-bind type_timestamp event (code, on_string f) u =
      sym (or_else-none (find event u.timestamp_dispatcher))
  find-bind type_timestamp event (code, on_timestamp f) u =
      find-bind_typed code event f u.timestamp_dispatcher

  find-bind_all :
      (t : ValueType) (event : Str) (bs : List (Str × Updater S)) (u : Updaters S)
      → find event (dispatcher t (bind_all bs u))
        ≡ or_else (find event (dispatcher t u)) (first_offered t event bs)
  find-bind_all t event [] u = sym (or_else-none (find event (dispatcher t u)))
  find-bind_all t event ((code, f) ∷ bs) u =
      find-bind_all t event bs (bind code f u)
      ∙ ap (λ o. or_else o (first_offered t event bs)) (find-bind t event (code, f) u)
      ∙ or_else_assoc (find event (dispatcher t u)) (offered t event (code, f))
          (first_offered t event bs)

  -- What calling a callback gives, if there is one.
  abbrev pub called : {V : Type 0} → Option (Callback V S) → ℕ → V → S → ℤ × S
  called none ts v s = (no_updater_continue, s)
  called (some f) ts v s = (if (f ts v s).0 then dispatched else exception, (f ts v s).1)

  dispatch-called :
      {V : Type 0} (m : Map Str (Callback V S)) (event : Str) (ts : ℕ) (v : V) (s : S)
      → dispatch m event ts v s ≡ called (find event m) ts v s
  unfolding dispatch
  dispatch-called m event ts v s = elim (Option-cases (find event m)) [
    | inl p ↦ rw (dispatch, p) refl
    | inr (f, p) ↦ rw (dispatch, p) refl
  ]

  find-no_updaters :
      (t : ValueType) (event : Str) → find event (dispatcher t (no_updaters {S = S})) ≡ none
  unfolding find
  find-no_updaters type_double event = refl
  find-no_updaters type_int event = refl
  find-no_updaters type_string event = refl
  find-no_updaters type_timestamp event = refl

  update-bind_all :
      (bs : List (Str × Updater S)) (d : MarketData) (s : S)
      → update (bind_all bs no_updaters) d.timestamp d.event d s
        ≡ called
            (first_offered d.value.type d.event bs)
            d.timestamp
            (payload d.value.type d.value)
            s
  unfolding update
  update-bind_all bs d s =
      let t = d.value.type in
      let found : find d.event (dispatcher t (bind_all bs no_updaters))
          ≡ first_offered t d.event bs =
        find-bind_all t d.event bs no_updaters
        ∙ ap (λ o. or_else o (first_offered t d.event bs)) (find-no_updaters t d.event) in
      dispatch-called (dispatcher t (bind_all bs no_updaters)) d.event d.timestamp
        (payload t d.value) s
      ∙ ap (λ o. called o d.timestamp (payload t d.value) s) found

  -- A message of market data is given to the first callback that was bound to its event for the type
  -- of its value, with its time and value; an exception of the callback is a result, and a message
  -- that has no such callback, or does not parse, changes nothing.
  pub process_event-bind_all :
      (parse : Str → Option MarketData) (bs : List (Str × Updater S)) (key msg : Str) (s : S)
      → process_event parse (bind_all bs no_updaters) key msg s ≡ elim (parse msg) [
        | none ↦ (negsuc 0, s)
        | some d ↦
            called
              (first_offered d.value.type d.event bs)
              d.timestamp
              (payload d.value.type d.value)
              s
      ]
  unfolding process_event
  process_event-bind_all parse bs key msg s = elim (Option-cases (parse msg)) [
    | inl p ↦ rw (process_event, p) refl
    | inr (d, p) ↦ rw (process_event, p) (update-bind_all bs d s)
  ]
