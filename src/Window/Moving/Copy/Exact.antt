-- ===== src/Window/Moving/Copy/Exact.antt =====
-- `copy_last_data` of moving_window.hpp copies exactly the last samples, wherever the ring wraps.
use atp.Common.{
  ℕ, zero, suc, ◌+◌, ◌-◌, ◌%◌, ◌≤◌, ◌<◌, ◌≡◌, sym, ap, ◌∙◌, List, ◌∷◌, ◌++◌, Option, some, arith,
  ltb, length, set, take, drop, last, ◌>>=◌, ◌⊎◌, inl, inr, length-set, length-take, length-append,
  take-append-drop, drop-append, drop-set_self, append_assoc, last-append_ge, last-append, last_all,
  take_all, length-last, le→leb, drop_all, false,
}
use atp.Common.Int.{size_mod, sub_size, sub_size_le}
use atp.Window.Buffer.{CircularBuffer, copy_into}
use atp.Window.Samplers.{Sampler}
use atp.Window.Moving.{MovingWindow, capacity, elements}
use atp.Window.Moving.History.{IsValid}
use atp.Window.Moving.Copy.{store, copy_some, copy_last_data, minimum_size}

module _ {ℓ} {A : Type ℓ} where
  pub store_lem : (xs : List A) (i : ℕ) (v : A) → i < length xs → store xs i v ≡ some (set xs i v)
  unfolding store
  store_lem xs i v h = ground arith

  -- Copying the last `t` elements of `src` to offset `d`, also for `t` = 0.
  pub copy_tail :
      (dest : List A) (d : ℕ) (src : List A) (t : ℕ)
      → t ≤ length src
      → d + t ≤ length dest
      → copy_some dest d src (length src - t) t
        ≡ some (take d dest ++ (last t src ++ drop (d + t) dest))
  unfolding copy_some copy_into
  copy_tail dest d src zero h k =
      let e : d + 0 ≡ d = omega arith in
      ap some (sym (rw (e, drop_all (length src - 0) src (omega arith)) (take-append-drop d dest)))
  copy_tail dest d src (suc t) h k =
      rw
        (
          le→leb (d + suc t) (length dest) k,
          le→leb (length src - suc t + suc t) (length src) (omega arith),
          take_all (suc t) (last (suc t) src) (omega (arith, length-last (suc t) src)),
        )
        (ground arith)

  -- The last `k` elements of two stretches, `t` of them from the second.
  last_split :
      (one two : List A) (k t : ℕ)
      → t ≤ length two
      → t ≤ k
      → k - t ≤ length one
      → (t ≡ length two) ⊎ (t ≡ k)
      → last k (one ++ two) ≡ last (k - t) one ++ last t two
  last_split one two k t h2 hk h1 (inl e) =
      last-append_ge k one two (omega arith)
      ∙ ap (λ i. last (k - i) one ++ two) (sym e)
      ∙ ap (λ r. last (k - t) one ++ r) (sym (last_all t two (omega arith)))
  last_split one two k t h2 hk h1 (inr e) =
      let none_left : k - t ≡ 0 = omega arith in
      last-append k one two (omega arith)
      ∙ rw (none_left, drop_all (length one - 0) one (omega arith)) (ap (λ i. last i two) (sym e))

  abbrev with_count : ℕ → List A → Option (List A × ℕ)
  with_count n xs = some (xs, n)

  -- The three writes of `copy_last_data`, once the offsets are known: `t` elements of `two` and
  -- the rest of the `k` from `one`.
  chain :
      (one two array : List A) (v : A) (k t n : ℕ)
      → t ≤ length two
      → t ≤ k
      → k - t ≤ length one
      → (t ≡ length two) ⊎ (t ≡ k)
      → k < length array
      → (store array k v >>= λ a1. copy_some a1 (k - t) two (length two - t) t >>= λ a2.
          copy_some a2 0 one (length one - (k - t)) (k - t) >>= with_count n)
        ≡ some (last k (one ++ two) ++ v ∷ drop (suc k) array, n)
  chain one two array v k t n h2 hk h1 whole fits =
      let a1 = set array k v in
      let rest = v ∷ drop (suc k) array in
      let a2 = take (k - t) a1 ++ (last t two ++ rest) in
      let whole1 : length a1 ≡ length array = length-set array k v in
      let back : k - t + t ≡ k = omega arith in
      let tail1 : drop (k - t + t) a1 ≡ rest =
        ap (λ i. drop i a1) back ∙ drop-set_self k array v fits in
      let front : length (take (k - t) a1) ≡ k - t = omega (arith, length-take (k - t) a1) in
      let step1 : copy_some a1 (k - t) two (length two - t) t ≡ some a2 =
        copy_tail a1 (k - t) two t h2 (omega arith)
        ∙ ap (λ r. some (take (k - t) a1 ++ (last t two ++ r))) tail1 in
      let tail2 : drop (0 + (k - t)) a2 ≡ last t two ++ rest =
        drop-append (0 + (k - t)) (take (k - t) a1) (last t two ++ rest) (omega arith) in
      let step2 : copy_some a2 0 one (length one - (k - t)) (k - t)
          ≡ some (last (k - t) one ++ (last t two ++ rest)) =
        copy_tail a2 0 one (k - t) h1
          (omega (arith, length-append (take (k - t) a1) (last t two ++ rest)))
        ∙ ap (λ r. some (last (k - t) one ++ r)) tail2 in
      rw (store_lem array k v fits, step1, step2)
        (ap (λ r. some (r, n))
          (sym (append_assoc (last (k - t) one) (last t two) rest)
            ∙ ap (λ r. r ++ rest) (sym (last_split one two k t h2 hk h1 whole))))

module _ {A : Type 0} {B : CircularBuffer A} {S : Sampler A} where
  -- `copy_last_data` with a count from 1 to the capacity, into an array that has the room, writes the
  -- last samples of the buffer, oldest first, then the current value, and nothing else; it returns the
  -- count and leaves neither the array nor the ring.
  pub copy_last_data_lem :
      (m : MovingWindow B S) (array : List A) (k : ℕ)
      → IsValid m
      → suc k ≤ capacity m
      → capacity m < size_mod
      → k < length array
      → copy_last_data m array (suc k)
        ≡ some (last k (elements m) ++ m.current_value ∷ drop (suc k) array, suc k)
  unfolding copy_last_data capacity
  copy_last_data_lem m array k ok room small fits =
      let one = B.array_one m.buffer in
      let two = B.array_two m.buffer in
      let t = minimum_size (length two) k in
      let total : length one + length two ≡ B.capacity m.buffer =
        sym (length-append one two) ∙ ok.full in
      let in_two : t ≤ length two = ground arith in
      let in_k : t ≤ k = ground arith in
      let whole : (t ≡ length two) ⊎ (t ≡ k) = ground arith in
      let in_one : k - t ≤ length one = ground arith in
      let allowed : ltb (B.capacity m.buffer + 1) (suc k) ≡ false = ground arith in
      let remain : sub_size (suc k) 1 ≡ k = omega arith in
      let counted : (t + (k - t) + 1) % size_mod ≡ suc k = omega arith in
      rw
        (
          allowed,
          remain,
          sub_size_le k t in_k (omega arith),
          sub_size_le (length two) t in_two (omega arith),
          sub_size_le (length one) (k - t) in_one (omega arith),
          counted,
        )
        (chain one two array m.current_value k t (suc k) in_two in_k in_one whole fits)
