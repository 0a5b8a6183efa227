-- ===== src/Historian/Keys/Ordered.antt =====
-- The order of keys is the order of times, for times with the same number of digits.
use atp.Common.{ℕ, ◌^◌, ◌<◌, ◌≡◌, refl, ◌∙◌, ◌≢◌, [], ◌∷◌, arith, ltb, length}
use atp.Common.Text.{Str, decimal, less, less-digits}
use atp.Historian.Messages.{Kind, indexed_value, session_log, ib_market_data, ib_market_depth}
use atp.Historian.Keys.{
  followed_by, key_at, index_key, entity_session_log, entity_ib_market_data, entity_ib_market_depth,
  index_ib_market_data_by_event,
}

less-followed_by : (p xs ys : Str) → less (followed_by p xs) (followed_by p ys) ≡ less xs ys
unfolding less
less-followed_by [] xs ys = refl
less-followed_by (c ∷ p) xs ys = ground (arith, less-followed_by p xs ys)

less-key_at_digits :
    (t : Kind) (s : Str) (n m : ℕ)
    → t ≢ indexed_value
    → less (key_at t s n) (key_at t s m) ≡ less (decimal n) (decimal m)
unfolding key_at
less-key_at_digits indexed_value s n m h = ground (arith, h refl)
less-key_at_digits session_log s n m h =
    less-followed_by (followed_by entity_session_log s) (decimal n) (decimal m)
less-key_at_digits ib_market_data s n m h =
    less-followed_by (followed_by entity_ib_market_data s) (decimal n) (decimal m)
less-key_at_digits ib_market_depth s n m h =
    less-followed_by (followed_by entity_ib_market_depth s) (decimal n) (decimal m)

-- The keys of one symbol, and those of one event of it in the index, are ordered as their times
-- are, for 64-bit times that have the same number of decimal digits.
less-key_at :
    (t : Kind) (s x : Str) (n m : ℕ)
    → t ≢ indexed_value
    → n < 2 ^ 64
    → m < 2 ^ 64
    → length (decimal n) ≡ length (decimal m)
    → (less (key_at t s n) (key_at t s m) ≡ ltb n m)
      × (less (index_key s x n) (index_key s x m) ≡ ltb n m)
unfolding index_key
less-key_at t s x n m h hn hm e =
    let by_time = less-digits 20 n m (omega arith) (omega arith) e in
    (
      less-key_at_digits t s n m h ∙ by_time,
      less-followed_by (followed_by (followed_by index_ib_market_data_by_event s) x) (decimal n)
            (decimal m)
          ∙ by_time,
    )
