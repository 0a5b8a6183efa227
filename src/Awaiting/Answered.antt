-- ===== src/Awaiting/Answered.antt =====
-- Every pending request of a connected manager has a response, and a result reaches the one of its
-- request.
use atp.Common.{
  ℕ, zero, suc, ◌+◌, ◌<◌, ◌≡◌, refl, sym, ap, subst, ◌∙◌, ◌≢◌, true, Option, none, some, List, [],
  ◌∷◌, ◌++◌, length, get_elem?, set, arith, inl, inr, Bool-cases, ◌==◌, length-append, length-set,
  get_elem?-append_left,
}
use atp.Common.Map.{Map, find, assign, find-assign, find-assign_self}
use atp.Common.Eq.{nat_eq}
use atp.Messaging.{returned}
use atp.Awaiting.{Awaited, await, set_response, answer}

get_elem?-set_self {ℓ} :
    {A : Type ℓ} (xs : List A) (i : ℕ) (a : A) → i < length xs → get_elem? (set xs i a) i ≡ some a
get_elem?-set_self [] i a h = ground arith
get_elem?-set_self (x ∷ xs) zero a h = refl
get_elem?-set_self (x ∷ xs) (suc i) a h = get_elem?-set_self xs i a (omega arith)

get_elem?-set_ne {ℓ} :
    {A : Type ℓ} (xs : List A) (i j : ℕ) (a : A) → i ≢ j → get_elem? (set xs i a) j ≡ get_elem? xs j
get_elem?-set_ne [] i j a h = refl
get_elem?-set_ne (x ∷ xs) zero zero a h = ground (arith, h refl)
get_elem?-set_ne (x ∷ xs) zero (suc j) a h = refl
get_elem?-set_ne (x ∷ xs) (suc i) zero a h = refl
get_elem?-set_ne (x ∷ xs) (suc i) (suc j) a h = get_elem?-set_ne xs i j a (ground arith)

get_elem?-append_end {ℓ} :
    {A : Type ℓ} (xs : List A) (a : A) → get_elem? (xs ++ (a ∷ [])) (length xs) ≡ some a
get_elem?-append_end [] a = refl
get_elem?-append_end (x ∷ xs) a = get_elem?-append_end xs a

-- A pending request has the place of a response.
unfoldable pub HasPlace : Option (Option ℕ) → ℕ → Type 0
HasPlace none n = Unit
HasPlace (some none) n = ⊥
HasPlace (some (some place)) n = place < n

HasPlace-suc : (p : Option (Option ℕ)) (n : ℕ) → HasPlace p n → HasPlace p (n + 1)
unfolding HasPlace
HasPlace-suc none n h = tt
HasPlace-suc (some none) n h = h
HasPlace-suc (some (some place)) n h = omega arith

HasPlace-assign :
    (k key n : ℕ) (pending : Map ℕ (Option ℕ))
    → HasPlace (find key pending) n
    → HasPlace (find key (assign k (some n) pending)) (n + 1)
HasPlace-assign k key n pending h = elim (Bool-cases (k == key)) [
  | inl p ↦
      let there : HasPlace (some (some n)) (n + 1) = unfold HasPlace in omega arith in
      subst (λ o. HasPlace o (n + 1)) (sym (find-assign k key (some n) pending ∙ rw p refl)) there
  | inr p ↦
      subst (λ o. HasPlace o (n + 1)) (sym (find-assign k key (some n) pending ∙ rw p refl))
        (HasPlace-suc (find key pending) n h)
]

module _ {ℓ} {R : Type ℓ} where
  unfoldable pub IsAwaited : Awaited R → Type 0
  IsAwaited a = (key : ℕ) → HasPlace (find key a.pending) (length a.responses)

  pub await-IsAwaited : (key : ℕ) (a : Awaited R) → IsAwaited a → IsAwaited (await true key a).1
  unfolding await IsAwaited
  await-IsAwaited key a v k =
      rw (length-append a.responses (none ∷ []))
        (HasPlace-assign key k (length a.responses) a.pending (v k))

  set_response-IsAwaited :
      (p : Option (Option ℕ)) (result : R) (a : Awaited R)
      → IsAwaited a
      → HasPlace p (length a.responses)
      → (a' : Awaited R) × (set_response p result a ≡ returned true a') × IsAwaited a'
  unfolding set_response IsAwaited HasPlace
  set_response-IsAwaited none result a v h = (a, refl, v)
  set_response-IsAwaited (some none) result a v h = absurd h
  set_response-IsAwaited (some (some place)) result a v h = (
    record a { responses = set a.responses place (some result) },
    refl,
    λ k. rw (length-set a.responses place (some result)) (v k),
  )

  -- An answer, also to a request that is not pending, follows no null pointer.
  pub answer-IsAwaited :
      (key : ℕ) (result : R) (a : Awaited R)
      → IsAwaited a
      → (a' : Awaited R) × (answer key result a ≡ returned true a') × IsAwaited a'
  unfolding answer
  answer-IsAwaited key result a v =
      set_response-IsAwaited (find key a.pending) result a v (unfold IsAwaited in v key)

  pub responses-await :
      (key : ℕ) (a : Awaited R) → (await true key a).1.responses ≡ a.responses ++ (none ∷ [])
  unfolding await
  responses-await key a = refl

  length-await :
      (key : ℕ) (a : Awaited R) → length (await true key a).1.responses ≡ length a.responses + 1
  unfolding await
  length-await key a = length-append a.responses (none ∷ [])

  pending-await :
      (key : ℕ) (a : Awaited R)
      → find key (await true key a).1.pending ≡ some (some (length a.responses))
  unfolding await
  pending-await key a = find-assign_self key (some (length a.responses)) a.pending

  -- A result reaches the response of the last request of its key, and no other.
  pub answer-await :
      (key : ℕ) (result : R) (a : Awaited R)
      → (a' : Awaited R) × (answer key result (await true key a).1 ≡ returned true a')
        × (get_elem? a'.responses (length a.responses) ≡ some (some result))
        × ((j : ℕ) → j < length a.responses → get_elem? a'.responses j ≡ get_elem? a.responses j)
  unfolding answer
  answer-await key result a =
      let b = (await true key a).1 in
      let place = length a.responses in
      (
        record b { responses = set b.responses place (some result) },
        rw (pending-await key a, set_response) refl,
        get_elem?-set_self b.responses place (some result) (omega (arith, length-await key a)),
        λ j h.
            get_elem?-set_ne b.responses place j (some result) (ground arith)
            ∙ ap (λ r. get_elem? r j) (responses-await key a)
            ∙ get_elem?-append_left a.responses (none ∷ []) j h,
      )

  -- After two requests with the same key a result reaches the later one only.
  pub answer-await_again :
      (key : ℕ) (result : R) (a : Awaited R)
      → (a' : Awaited R) × (answer key result (await true key (await true key a).1).1
          ≡ returned true a')
        × (get_elem? a'.responses (length a.responses) ≡ some none)
        × (get_elem? a'.responses (length a.responses + 1) ≡ some (some result))
  answer-await_again key result a =
      let b = (await true key a).1 in
      let (a', h, there, others) = answer-await key result b in
      (
        a',
        h,
        others (length a.responses) (omega (arith, length-await key a))
            ∙ ap (λ r. get_elem? r (length a.responses)) (responses-await key a)
            ∙ get_elem?-append_end a.responses none,
        rw (sym (length-await key a)) there,
      )
