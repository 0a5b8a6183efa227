-- ===== src/Window/Buffer.antt =====
-- `boost::circular_buffer`, as far as src/cpp/common/moving_window.hpp uses it: an interface with the
-- documented behaviour, and the arrays in memory that `memcpy` writes.
use atp.Common.{
  ℕ, zero, suc, ◌+◌, ◌≤◌, ◌≡◌, refl, sym, ◌∙◌, ap, List, [], ◌∷◌, ◌++◌, Option, none, some, arith,
  leb, if◌then◌else◌, ◌&&◌, length, take, drop, last, replicate, last-last-append, last_all,
  append_assoc, append-nil, length-last, length-append,
}

-- The elements, oldest first, lie in two stretches of memory, the first before the second.
pub record CircularBuffer (A : Type 0) : Type 1 where
  pub Buffer : Type 0
  pub with_capacity : ℕ → Buffer
  pub push_back : Buffer → A → Buffer
  pub capacity : Buffer → ℕ
  pub array_one : Buffer → List A
  pub array_two : Buffer → List A
  pub elements-with_capacity :
      (n : ℕ) → array_one (with_capacity n) ++ array_two (with_capacity n) ≡ []
  pub capacity-with_capacity : (n : ℕ) → capacity (with_capacity n) ≡ n
  pub capacity-push_back : (b : Buffer) (x : A) → capacity (push_back b x) ≡ capacity b
  -- A full buffer drops its oldest element.
  pub elements-push_back :
      (b : Buffer) (x : A)
      → array_one (push_back b x) ++ array_two (push_back b x)
        ≡ last (capacity b) ((array_one b ++ array_two b) ++ x ∷ [])

-- `memcpy(dest + dest_offset, src + src_offset, count)`; `none` where it leaves one of the arrays.
unfoldable pub copy_into {ℓ} : {A : Type ℓ} → List A → ℕ → List A → ℕ → ℕ → Option (List A)
copy_into dest dest_offset src src_offset count =
    if leb (dest_offset + count) (length dest) && leb (src_offset + count) (length src)
    then some (
        take dest_offset dest
        ++ (take count (drop src_offset src) ++ drop (dest_offset + count) dest))
    else none

module _ {A : Type 0} (B : CircularBuffer A) where
  abbrev pub contents : B.Buffer → List A
  contents b = B.array_one b ++ B.array_two b

  -- `n` times `push_back(x)`
  unfoldable pub push_times : ℕ → A → B.Buffer → B.Buffer
  push_times zero x b = b
  push_times (suc n) x b = push_times n x (B.push_back b x)

  pub capacity-push_times :
      (n : ℕ) (x : A) (b : B.Buffer) → B.capacity (push_times n x b) ≡ B.capacity b
  unfolding push_times
  capacity-push_times zero x b = refl
  capacity-push_times (suc n) x b =
      capacity-push_times n x (B.push_back b x) ∙ B.capacity-push_back b x

  -- The buffer keeps the last elements of all that has been pushed.
  pub contents-push_times :
      (n : ℕ) (x : A) (b : B.Buffer)
      → length (contents b) ≤ B.capacity b
      → contents (push_times n x b) ≡ last (B.capacity b) (contents b ++ replicate n x)
  unfolding push_times
  contents-push_times zero x b h =
      sym (
        ap (last (B.capacity b)) (append-nil (contents b)) ∙ last_all (B.capacity b) (contents b) h)
  contents-push_times (suc n) x b h =
      contents-push_times n x (B.push_back b x) (
        rw (B.elements-push_back b x, B.capacity-push_back b x)
          (omega (arith, length-last (B.capacity b) (contents b ++ x ∷ []))))
      ∙ rw (B.elements-push_back b x, B.capacity-push_back b x)
          (last-last-append (B.capacity b) (contents b ++ x ∷ []) (replicate n x)
            ∙ ap (last (B.capacity b)) (append_assoc (contents b) (x ∷ []) (replicate n x)))

  -- A full buffer stays full.
  pub full-push_times :
      (n : ℕ) (x : A) (b : B.Buffer)
      → length (contents b) ≡ B.capacity b
      → length (contents (push_times n x b)) ≡ B.capacity b
  full-push_times n x b h = rw (contents-push_times n x b (omega arith)) (
      omega (
        arith,
        length-last (B.capacity b) (contents b ++ replicate n x),
        length-append (contents b) (replicate n x),
      ))
