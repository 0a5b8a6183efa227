-- ===== src/Sessions/Outbound.antt =====
-- The sockets on which a connector publishes (the event thread's callbacks and getOutboundSocket of
-- ib/SocketConnectorBase.hpp). A socket is its number, in the order in which they are made; whether an
-- attempt to connect one succeeds is an argument. The map of sockets is the event thread's own, so all
-- this is in that thread.
use atp.Common.{
  ℕ, zero, suc, ◌+◌, ◌<◌, ◌≤◌, ◌≡◌, refl, sym, ap, ◌∙◌, ◌≢◌, Bool, true, false, Option, none, some,
  List, [], ◌∷◌, ◌++◌, All, All-imp, subst, arith, if◌then◌else◌, ◌==◌, map, Bool-cases, ◌||◌, inl,
  inr, ◌↔◌,
}
use atp.Common.Int.{ℤ, to_int32}
use atp.Common.Eq.{int_eq}
use atp.Common.Map.{Map, find, has, assign, find-assign_self, find-assign_ne}
use atp.Common.Text.{Str}

pub record Outbound : Type 0 where
  pub sockets : Option (Map ℤ ℕ)
  pub made : ℕ
  pub destroyed : List ℕ

abbrev pub new_outbound : Outbound
new_outbound = record { sockets = none; made = 0; destroyed = [] }

-- The attempts to connect a socket: the `retry` at the end, with the attempts that are left.
unfoldable pub connect_retries : (connects : ℕ → Bool) → (left retry : ℕ) → ℕ
connect_retries connects zero retry = retry
connect_retries connects (suc left) retry =
    let rest = connect_retries connects left (retry + 1) in if connects retry then 0 else rest

-- The map of sockets, which is made when it is needed.
abbrev pub socket_map : Outbound → Map ℤ ℕ
socket_map o = elim o.sockets [ none ↦ [] | some m ↦ m ]

-- A channel gets its socket.
unfoldable pub open_channel : (connects : Str → ℕ → Bool) → ℤ × Str → Outbound → Outbound
unfolding connect_retries assign
open_channel connects (channel, address) o =
    let next = record o { made = o.made + 1 } in
    if connect_retries (connects address) 5 0 == 0
    then record next { sockets = some (assign channel o.made (socket_map o)) }
    else next

unfoldable pub open_all : (connects : ℤ → Str → ℕ → Bool) → List (ℤ × Str) → Outbound → Outbound
unfolding open_channel
open_all connects [] o = o
open_all connects (x ∷ channels) o = open_all connects channels (open_channel (connects x.0) x o)

unfoldable pub on_event_thread_start :
    (connects : ℤ → Str → ℕ → Bool) → List (ℤ × Str) → Outbound → Outbound
unfolding open_all
on_event_thread_start connects channels o = elim o.sockets [
  | none ↦ open_all connects channels o
  | some m ↦ o
]

-- The sockets are deleted, and stay in the map.
unfoldable pub on_event_thread_stop : Outbound → Outbound
on_event_thread_stop o = elim o.sockets [
  | none ↦ o
  | some m ↦ record o { destroyed = o.destroyed ++ map (λ x. x.1) m }
]

unfoldable pub get_outbound_socket : ℕ → Outbound → Option ℕ
unfolding find
get_outbound_socket channel o = find (to_int32 channel) (socket_map o)

-- An attempt from a number on, and before another, succeeds.
abbrev pub Reached : (connects : ℕ → Bool) → (from before : ℕ) → Type 0
Reached connects from before = (j : ℕ) × (from ≤ j) × (j < before) × (connects j ≡ true)

connect_retries-Reached :
    (connects : ℕ → Bool) (left retry : ℕ)
    → 0 < retry + left
    → ((connect_retries connects left retry == 0) ≡ true) ↔ Reached connects retry (retry + left)
unfolding connect_retries
connect_retries-Reached connects zero retry h =
    ((λ e. absurd (ground arith)), (λ (j, l, r, e). absurd (omega arith)))
connect_retries-Reached connects (suc left) retry h =
    let (there, back) = connect_retries-Reached connects left (retry + 1) (omega arith) in
    let earlier : Reached connects (retry + 1) (retry + 1 + left)
        → Reached connects retry (retry + suc left) =
      λ (j, l, r, q). (j, omega arith, omega arith, q) in
    elim (Bool-cases (connects retry)) [
      | inl p ↦ ((λ e. (retry, omega arith, omega arith, p)), (λ r. rw p refl))
      | inr p ↦ (
        (λ e. earlier (there (ground arith))),
        (λ (j, l, r, q).
            let later : retry ≢ j = λ e. absurd (ground (arith, ap connects e)) in
            rw p (back (j, omega arith, omega arith, q))),
      )
    ]

-- A number occurs in a list.
abbrev pub elem : ℕ → List ℕ → Bool
elem s [] = false
elem s (t ∷ l) = (t == s) || elem s l

elem-append : (s : ℕ) (l m : List ℕ) → elem s (l ++ m) ≡ (elem s l || elem s m)
elem-append s [] m = refl
elem-append s (t ∷ l) m = ground (arith, elem-append s l m)

find-elem :
    (channel : ℤ) (s : ℕ) (m : Map ℤ ℕ) → find channel m ≡ some s → elem s (map (λ x. x.1) m) ≡ true
unfolding find
find-elem channel s [] h = absurd (cc h)
find-elem channel s ((c, t) ∷ m) h = ground (arith, h, find-elem channel s m)

-- When the event thread stops, every socket that a channel has is deleted.
get_outbound_socket-on_event_thread_stop :
    (o : Outbound) (m : Map ℤ ℕ) (channel s : ℕ)
    → o.sockets ≡ some m
    → get_outbound_socket channel (on_event_thread_stop o) ≡ some s
    → elem s (on_event_thread_stop o).destroyed ≡ true
unfolding on_event_thread_stop get_outbound_socket
get_outbound_socket-on_event_thread_stop o m channel s h =
    let stopped : Option (Map ℤ ℕ) → Outbound =
      λ x. on_event_thread_stop (record o { sockets = x }) in
    let e : on_event_thread_stop o ≡ stopped (some m) = ap stopped h in
    rw e (λ f.
      elem-append s o.destroyed (map (λ y. y.1) m)
      ∙ ground (arith, find-elem (to_int32 channel) s m f))

-- A channel has a socket exactly when one of five attempts connects it.
abbrev pub IsOpened : (connects : ℤ → Str → ℕ → Bool) → Outbound → ℤ × Str → Type 0
IsOpened connects o (channel, address) =
    (has channel (socket_map o) ≡ true) ↔ Reached (connects channel address) 0 5

-- No channel occurs twice.
abbrev pub AllDistinct : List (ℤ × Str) → Type 0
AllDistinct [] = Unit {0}
AllDistinct (x ∷ channels) = All (λ y. x.0 ≢ y.0) channels × AllDistinct channels

module _ (connects : ℤ → Str → ℕ → Bool) where
  has-find : (c : ℤ) (m n : Map ℤ ℕ) → find c m ≡ find c n → has c m ≡ has c n
  unfolding has
  has-find c m n h = rw (has, h) refl

  open_channel-IsOpened :
      (channel : ℤ) (address : Str) (o : Outbound)
      → find channel (socket_map o) ≡ none
      → IsOpened connects (open_channel (connects channel) (channel, address) o) (channel, address)
  unfolding open_channel has
  open_channel-IsOpened channel address o h =
      let (there, back) = connect_retries-Reached (connects channel address) 5 0 (omega arith) in
      let none_yet : has channel (socket_map o) ≡ false = rw (has, h) refl in
      elim (Bool-cases (connect_retries (connects channel address) 5 0 == 0)) [
        | inl p ↦ (
          (λ e. there p),
          (λ r. rw (p, has, find-assign_self channel o.made (socket_map o)) refl),
        )
        | inr p ↦
            let no_attempt : Reached (connects channel address) 0 5 → ⊥ =
              λ r. ground (arith, back r) in
            rw p ((λ e. absurd (ground (arith, none_yet))), (λ r. absurd (no_attempt r)))
      ]

  open_channel-other :
      (channel c : ℤ) (address : Str) (o : Outbound)
      → channel ≢ c
      → find c (socket_map (open_channel (connects channel) (channel, address) o))
        ≡ find c (socket_map o)
  unfolding open_channel
  open_channel-other channel c address o d =
      elim (Bool-cases (connect_retries (connects channel address) 5 0 == 0)) [
        | inl p ↦ rw p (find-assign_ne channel c o.made (socket_map o) d)
        | inr p ↦ rw p refl
      ]

  open_all-other :
      (c : ℤ) (channels : List (ℤ × Str)) (o : Outbound)
      → All (λ x. x.0 ≢ c) channels
      → find c (socket_map (open_all connects channels o)) ≡ find c (socket_map o)
  unfolding open_all
  open_all-other c [] o h = refl
  open_all-other c ((channel, address) ∷ channels) o (d, ds) =
      open_all-other c channels (open_channel (connects channel) (channel, address) o) ds
      ∙ open_channel-other channel c address o d

  open_all-IsOpened :
      (channels : List (ℤ × Str)) (o : Outbound)
      → AllDistinct channels
      → All (λ x. find x.0 (socket_map o) ≡ none) channels
      → All (IsOpened connects (open_all connects channels o)) channels
  unfolding open_all
  open_all-IsOpened [] o d h = tt
  open_all-IsOpened ((channel, address) ∷ channels) o (d, ds) (h, hs) =
      let next = open_channel (connects channel) (channel, address) o in
      let same : has channel (socket_map (open_all connects channels next))
          ≡ has channel (socket_map next) =
        has-find channel (socket_map (open_all connects channels next)) (socket_map next) (
          open_all-other channel channels next
            (All-imp (λ y. channel ≢ y.0) (λ y. y.0 ≢ channel) channels (λ y n e. n (sym e)) d)) in
      let unopened : All (λ y. find y.0 (socket_map next) ≡ none) channels = still channels d hs in
      (
        subst (λ b. (b ≡ true) ↔ Reached (connects channel address) 0 5) (sym same)
            (open_channel-IsOpened channel address o h),
        open_all-IsOpened channels next ds unopened,
      )
    where
      still :
          (l : List (ℤ × Str))
          → All (λ y. channel ≢ y.0) l
          → All (λ y. find y.0 (socket_map o) ≡ none) l
          → All
              (λ y.
                find y.0 (socket_map (open_channel (connects channel) (channel, address) o)) ≡ none)
              l
      still [] u v = tt
      still (y ∷ l) (u, us) (v, vs) =
          (open_channel-other channel y.0 address o u ∙ v, still l us vs)

  -- When the event thread of a connector starts for the first time, every channel, of which none occurs
  -- twice, gets a socket exactly when one of five attempts connects it.
  pub on_event_thread_start-IsOpened :
      (channels : List (ℤ × Str))
      → AllDistinct channels
      → All (IsOpened connects (on_event_thread_start connects channels new_outbound)) channels
  unfolding on_event_thread_start find
  on_event_thread_start-IsOpened channels d =
      open_all-IsOpened channels new_outbound d (unused channels)
    where
      unused : (l : List (ℤ × Str)) → All (λ y. find y.0 (socket_map new_outbound) ≡ none) l
      unused [] = tt
      unused (y ∷ l) = (refl, unused l)
