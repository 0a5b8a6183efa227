-- ===== src/Window/Moving/Copy/Slow.antt =====
-- `copy_last` of moving_window.hpp and the slow copy by reverse iteration: both give the samples of
-- the last slots, each with the time at which its slot starts.
use mathlib.Core.List.{reverse, reverse-cons, reverse-reverse}
use atp.Common.{
  ℕ, zero, suc, ◌+◌, ◌-◌, ◌≤◌, ◌<◌, ◌≡◌, refl, sym, ap, ◌∙◌, List, [], ◌∷◌, ◌++◌, Option, some,
  arith, ltb, ◌==◌, length, set, drop, last, length-set, drop-set_self, length-append, append_assoc,
  last-append_ge, drop_all, false, true,
}
use atp.Common.Int.{size_mod, sub_size}
use atp.Window.Buffer.{CircularBuffer}
use atp.Window.Samplers.{Sampler}
use atp.Window.Moving.{MovingWindow, capacity, elements}
use atp.Window.Moving.History.{IsValid}
use atp.Window.Moving.Copy.{
  slot_time, generate_loop, generate_time_array, copy_last, slow_loop, copy_last_slow,
}
use atp.Window.Moving.Copy.Exact.{store_lem, copy_last_data_lem}

module _ {ℓ} {A : Type ℓ} where
  -- The first `n` elements of `rs`, each put in front of `vs`.
  abbrev onto : ℕ → List A → List A → List A
  onto zero rs vs = vs
  onto (suc n) [] vs = vs
  onto (suc n) (r ∷ rs) vs = onto n rs (r ∷ vs)

  pub length-reverse : (xs : List A) → length (reverse xs) ≡ length xs
  length-reverse [] = refl
  length-reverse (x ∷ xs) =
      rw (reverse-cons x xs) (omega (arith, length-append (reverse xs) (x ∷ []), length-reverse xs))

  onto-last : (n : ℕ) (rs vs : List A) → n ≤ length rs → onto n rs vs ≡ last n (reverse rs) ++ vs
  onto-last zero rs vs h =
      ap (λ r. r ++ vs) (sym (drop_all (length (reverse rs) - 0) (reverse rs) (omega arith)))
  onto-last (suc n) [] vs h = elim h [ ]
  onto-last (suc n) (r ∷ rs) vs h =
      let one_less : suc n - length (r ∷ []) ≡ n = omega arith in
      onto-last n rs (r ∷ vs) (omega arith)
      ∙ sym (
          rw (reverse-cons r rs) (
            ap (λ xs. xs ++ vs) (last-append_ge (suc n) (reverse rs) (r ∷ []) (omega arith))
            ∙ ap (λ i. (last i (reverse rs) ++ r ∷ []) ++ vs) one_less
            ∙ append_assoc (last n (reverse rs)) (r ∷ []) vs))

module _ {A : Type 0} {B : CircularBuffer A} {S : Sampler A} (m : MovingWindow B S) where
  -- The times of the last `n` slots, oldest first.
  abbrev pub times : ℕ → List ℕ
  times zero = []
  times (suc n) = slot_time m n ∷ times n

  generate_loop_lem :
      (left to_copy k : ℕ) (ts rest : List ℕ)
      → left + to_copy ≡ k
      → suc k < size_mod
      → k < length ts
      → drop left ts ≡ times (suc to_copy) ++ rest
      → generate_loop m (suc k) left to_copy ts ≡ some (times (suc k) ++ rest)
  unfolding generate_loop
  generate_loop_lem zero to_copy k ts rest e small fits h =
      ap some (h ∙ ap (λ i. times (suc i) ++ rest) (omega arith))
  generate_loop_lem (suc left) to_copy k ts rest e small fits h =
      let index : sub_size (sub_size (suc k) to_copy) 2 ≡ left = omega arith in
      let t = slot_time m (to_copy + 1) in
      let next : to_copy + 1 ≡ suc to_copy = omega arith in
      rw (index, store_lem ts left t (omega arith))
        (generate_loop_lem left (to_copy + 1) k (set ts left t) rest (omega arith) small
          (omega (arith, length-set ts left t))
          (drop-set_self left ts t (omega arith)
            ∙ rw next (ap (λ r. slot_time m (suc to_copy) ∷ r) h)))

  pub generate_time_array_lem :
      (ts : List ℕ) (k : ℕ)
      → suc k ≤ capacity m
      → capacity m < size_mod
      → k < length ts
      → generate_time_array m ts (suc k) ≡ some (times (suc k) ++ drop (suc k) ts, suc k)
  unfolding generate_time_array capacity
  generate_time_array_lem ts k room small fits =
      let allowed : ltb (B.capacity m.buffer + 1) (suc k) ≡ false = ground arith in
      let remain : sub_size (suc k) 1 ≡ k = omega arith in
      rw
        (
          allowed,
          remain,
          store_lem ts k (slot_time m 0) fits,
          generate_loop_lem k 0 k (set ts k (slot_time m 0)) (drop (suc k) ts) (omega arith)
              (omega arith) (omega (arith, length-set ts k (slot_time m 0)))
              (drop-set_self k ts (slot_time m 0) fits),
        )
        refl

  abbrev filled : List ℕ → List A → ℕ → Option (List ℕ × List A × ℕ)
  filled ts array n = some (ts, array, n)

  loop_end :
      (copied k : ℕ) (ts rest : List ℕ) (array vs tail : List A)
      → 0 + copied ≡ suc k
      → ts ≡ times copied ++ rest
      → array ≡ vs ++ tail
      → filled ts array copied ≡ filled (times (suc k) ++ rest) (vs ++ tail) (suc k)
  loop_end copied k ts rest array vs tail e ht ha =
      let all : copied ≡ suc k = omega arith in
      rw (ht, ha) (ap (λ i. filled (times i ++ rest) (vs ++ tail) i) all)

  slow_loop_lem :
      (rs : List A) (left copied k : ℕ) (ts rest : List ℕ) (array vs tail : List A)
      → left ≤ length rs
      → left + copied ≡ suc k
      → suc k < size_mod
      → k < length ts
      → k < length array
      → drop left ts ≡ times copied ++ rest
      → drop left array ≡ vs ++ tail
      → slow_loop m (suc k) rs left copied ts array
        ≡ some (times (suc k) ++ rest, onto left rs vs ++ tail, suc k)
  unfolding slow_loop
  slow_loop_lem [] zero copied k ts rest array vs tail h e small ft fa ht ha =
      loop_end copied k ts rest array vs tail e ht ha
  slow_loop_lem [] (suc left) copied k ts rest array vs tail h e small ft fa ht ha = elim h [ ]
  slow_loop_lem (r ∷ rs) zero copied k ts rest array vs tail h e small ft fa ht ha =
      loop_end copied k ts rest array vs tail e ht ha
  slow_loop_lem (r ∷ rs) (suc left) copied k ts rest array vs tail h e small ft fa ht ha =
      let index : sub_size (sub_size (suc k) 1) copied ≡ left = omega arith in
      let t = slot_time m copied in
      let next : copied + 1 ≡ suc copied = omega arith in
      rw (index, store_lem array left r (omega arith), store_lem ts left t (omega arith))
        (slow_loop_lem rs left (copied + 1) k (set ts left t) rest (set array left r) (r ∷ vs) tail
          (omega arith) (omega arith) small (omega (arith, length-set ts left t))
          (omega (arith, length-set array left r))
          (drop-set_self left ts t (omega arith) ∙ rw next (ap (λ xs. t ∷ xs) ht))
          (drop-set_self left array r (omega arith) ∙ ap (λ xs. r ∷ xs) ha))

  -- `copy_last` with a count from 1 to the capacity, into arrays that have the room, writes the last
  -- samples and the times of their slots, oldest first, and nothing else; it returns the count.
  -- `copy_last_slow` writes and returns exactly the same.
  pub copy_last_lem :
      (ts : List ℕ) (array : List A) (k : ℕ)
      → IsValid m
      → suc k ≤ capacity m
      → capacity m < size_mod
      → k < length ts
      → k < length array
      → let out =
          filled
            (times (suc k) ++ drop (suc k) ts)
            (last k (elements m) ++ m.current_value ∷ drop (suc k) array)
            (suc k) in
        (copy_last m ts array (suc k) ≡ out) × (copy_last_slow m ts array (suc k) ≡ out)
  unfolding copy_last copy_last_slow capacity
  copy_last_lem ts array k ok room small ft fa =
      let allowed : ltb (B.capacity m.buffer + 1) (suc k) ≡ false = ground arith in
      let remain : sub_size (suc k) 1 ≡ k = omega arith in
      let same : (suc k == suc k) ≡ true = ground arith in
      let backwards = reverse (elements m) in
      let enough : k ≤ length backwards = omega (arith, length-reverse (elements m), ok.full) in
      let array1 = set array k m.current_value in
      let ts1 = set ts k (slot_time m 0) in
      (
        rw
            (
              allowed,
              copy_last_data_lem m array k ok room small fa,
              generate_time_array_lem ts k room small ft,
              same,
            )
            refl,
        rw
            (
              allowed,
              remain,
              store_lem array k m.current_value fa,
              store_lem ts k (slot_time m 0) ft,
            )
            (slow_loop_lem backwards k 1 k ts1 (drop (suc k) ts) array1 (m.current_value ∷ [])
                (drop (suc k) array) enough (omega arith) (omega arith)
                (omega (arith, length-set ts k (slot_time m 0)))
                (omega (arith, length-set array k m.current_value))
                (drop-set_self k ts (slot_time m 0) ft) (drop-set_self k array m.current_value fa)
              ∙ ap
                  (λ xs.
                    filled (times (suc k) ++ drop (suc k) ts) (xs ++ drop (suc k) array) (suc k))
                  (onto-last k backwards (m.current_value ∷ []) enough)
              ∙ rw (reverse-reverse (elements m)) (
                  ap (λ xs. filled (times (suc k) ++ drop (suc k) ts) xs (suc k))
                    (append_assoc (last k (elements m)) (m.current_value ∷ [])
                      (drop (suc k) array)))),
      )
